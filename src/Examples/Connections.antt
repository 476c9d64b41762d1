-- ===== src/Examples/Connections.antt =====
-- A server with one request that sends a body, and a client with two calls, the second of which waits
-- for the connection window.
use httpunk.Prelude.{ℕ, refl, true, false, none, some, [], ◌∷◌, arith}
use httpunk.Prelude.Map.{lookup, count_if}
use httpunk.H2.ContentLength.{omitted}
use httpunk.H2.Settings.{SettingsValues, waiting_ack}
use httpunk.H2.Inner.{StreamEntry, Inner, Role, client, server, HeadersFrame, DataFrame}
use httpunk.H2.Inner.Invariant.{IsValid}
use httpunk.Examples.Stub.{StubFlow, stub, awaiting, streaming, ended, uncut, Half}

abbrev flow : ℕ → StubFlow
flow n = record { window = n; available = n }

abbrev pub call : Half → Half → ℕ → StreamEntry stub
call send recv handle = record {
  handle = handle;
  state = record { send = send; recv = recv; cut = uncut };
  send_flow = flow 65535;
  recv_flow = record { window = 65525; available = 65525 };
  content_length = omitted;
  recv_unreleased = 10;
  recv_reclaimed = false;
  send_buffered = 0;
  data_budget_charged = 246;
  holds_slot = false;
  finished = false;
  is_pending_capacity = false;
  is_pending_send = false;
  turn_frames = 0;
}

abbrev pub settings_values : SettingsValues
settings_values = record {
  header_table_size = some 8192;
  enable_push = none;
  max_concurrent_streams = none;
  initial_window_size = some 131070;
  max_frame_size = some 32768;
  max_header_list_size = some 16384;
}

abbrev connection : Role → Inner stub
connection role = record {
  config = record {
    role = role;
    reset_stream_max = 50;
    reset_stream_duration = 30;
    burst_frames = 4;
    max_send_buf_size = 409600;
    max_local_error_resets = some 1024;
    max_concurrent = 200;
    max_pending_accept_reset = 20;
  };
  pending = [];
  credit = [];
  inflight_credit = [];
  streams = [];
  num_active = 0;
  reset_streams = [];
  peer = record {
    header_table_size = 4096;
    initial_window_size = 65535;
    max_frame_size = 16384;
    max_concurrent_streams = none;
  };
  settings = record {
    local = settings_values;
    state = waiting_ack;
    has_received_remote_initial = false;
  };
  send_max_frame_size = 16384;
  conn_send = flow 0;
  conn_recv = flow 65535;
  recv_init = 65535;
  pending_send = [];
  pending_capacity = [];
  goaway = none;
  goaway_last_id = none;
  goaway_replied = false;
  error = none;
  writers = 0;
  draining = false;
  local_error_resets = 0;
  data_budget = record {
    data_frame_budget = record { current = 25354; max = 25600 };
    num_recv_empty_data_frames = 0;
  };
  next_id = 5;
  num_open_streams = 0;
  stream_limit = some 100;
  last_recv_id = 1;
  last_processed_id = 1;
  graceful = false;
  max_stream_id = 2147483647;
  shutdown_final = false;
  pending_accept = [];
  remote_reset_pending = [];
}

abbrev pub request : StreamEntry stub
request = call awaiting streaming 7

abbrev pub serving : Inner stub
serving = record (connection server) { streams = (1, request) ∷ []; num_active = 1 }

abbrev pub first_call : StreamEntry stub
first_call = record (call streaming streaming 11) { holds_slot = true }

abbrev pub second_call : StreamEntry stub
second_call = record (call streaming awaiting 13) { holds_slot = true; is_pending_capacity = true }

abbrev pub calling : Inner stub
calling = record (connection client) {
  streams = (1, first_call) ∷ (3, second_call) ∷ [];
  num_active = 2;
  num_open_streams = 2;
  pending_capacity = 3 ∷ [];
}

-- The client with its first call in the rotation.
abbrev pub turning : Inner stub
turning = record calling {
  streams = (1, record first_call { is_pending_send = true }) ∷ (3, second_call) ∷ [];
  pending_send = 1 ∷ [];
}

-- The server's request, closed on both sides, with its body not yet read.
abbrev pub over : StreamEntry stub
over = call ended ended 7

abbrev pub closing : Inner stub
closing = record serving { streams = (1, over) ∷ [] }

pub serving-IsValid : IsValid stub serving
unfolding lookup count_if
serving-IsValid = record {
  distinct = (refl, tt);
  active = refl;
  slots = omega arith;
  entries = λ j. ground arith;
}

pub calling-IsValid : IsValid stub calling
unfolding lookup count_if
calling-IsValid = record {
  distinct = (refl, (refl, tt));
  active = refl;
  slots = omega arith;
  entries = λ j. ground arith;
}

pub turning-IsValid : IsValid stub turning
unfolding lookup count_if
turning-IsValid = record {
  distinct = (refl, (refl, tt));
  active = refl;
  slots = omega arith;
  entries = λ j. ground arith;
}

pub closing-IsValid : IsValid stub closing
unfolding lookup count_if
closing-IsValid = record {
  distinct = (refl, tt);
  active = refl;
  slots = omega arith;
  entries = λ j. ground arith;
}

abbrev pub headers_for : ℕ → HeadersFrame
headers_for sid = record {
  stream_id = sid;
  end_stream = false;
  status = none;
  content_length = some 20;
  content_length_invalid = false;
  is_informational = false;
  is_over_size = false;
}

abbrev pub data_for : ℕ → DataFrame
data_for sid = record {
  stream_id = sid;
  end_stream = false;
  data_bytes = 104 ∷ 105 ∷ [];
  flow_controlled_len = 4;
  padding = 2;
}
