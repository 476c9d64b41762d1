-- ===== src/Examples/Stub.antt =====
-- A stub of the vendored h2 crate that satisfies its laws: two halves of a stream, why it was cut
-- off, and windows without a sign.
use httpunk.Prelude.{
  ℕ, ◌+◌, ◌-◌, ◌/◌, ◌%◌, refl, Bool, true, false, ◌&&◌, Option, none, some, arith, leb, ltb, ◌==◌,
  [], if◌then◌else◌,
}
use httpunk.H2.Reason
use httpunk.H2.Vendor.{
  Vendor, VendorLaws, Initiator, user, library, remote, ProtoError, UserError,
  unexpected_frame_type, fine,
}

pub data Half : Type 0 where
  awaiting streaming ended : Half

pub data Cut : Type 0 where
  uncut : Cut
  cut_reset : ℕ → ℕ → Initiator → Cut
  cut_connection : Cut

pub record StubState : Type 0 where
  pub send : Half
  pub recv : Half
  pub cut : Cut

abbrev is_streaming : Half → Bool
is_streaming streaming = true
is_streaming _ = false

abbrev is_awaiting : Half → Bool
is_awaiting awaiting = true
is_awaiting _ = false

abbrev is_ended : Half → Bool
is_ended ended = true
is_ended _ = false

abbrev opened : Bool → Half
opened true = ended
opened false = streaming

abbrev stub_open_send : Bool → StubState → StubState × Option UserError
stub_open_send eos st =
    if is_awaiting st.send
    then (record st { send = opened eos }, none)
    else (st, some unexpected_frame_type)

abbrev unexpected : Option ProtoError
unexpected = some (ProtoError.go_away [] Reason.protocol_error library)

abbrev stub_open_recv : Bool → Bool → StubState → StubState × Option ProtoError
stub_open_recv eos informational st =
    if is_awaiting st.recv
    then (if informational then (st, none) else (record st { recv = opened eos }, none))
    else (st, unexpected)

abbrev stub_close_recv : StubState → StubState × Option ProtoError
stub_close_recv st =
    if is_streaming st.recv then (record st { recv = ended }, none) else (st, unexpected)

abbrev cut_off : Cut → StubState → StubState
cut_off c st = record { send = ended; recv = ended; cut = c }

abbrev cut_by : ProtoError → Cut
cut_by (ProtoError.reset id reason i) = cut_reset id reason i
cut_by _ = cut_connection

abbrev is_local : Cut → Bool
is_local (cut_reset id reason library) = true
is_local (cut_reset id reason user) = true
is_local _ = false

abbrev is_cut : Cut → Bool
is_cut (cut_reset id reason i) = true
is_cut _ = false

abbrev cut_error : Cut → Option ProtoError
cut_error uncut = none
cut_error (cut_reset id reason i) = some (ProtoError.reset id reason i)
cut_error cut_connection = some ProtoError.io

abbrev cut_reason : Cut → Option ℕ
cut_reason (cut_reset id reason i) = some reason
cut_reason _ = none

pub record StubFlow : Type 0 where
  pub window : ℕ
  pub available : ℕ

abbrev grow_flow : ℕ → StubFlow → StubFlow × Option ℕ
grow_flow n f =
    if leb (f.window + n) 2147483647
    then (record f { window = f.window + n }, none)
    else (f, some Reason.flow_control_error)

abbrev shrink_flow : ℕ → StubFlow → StubFlow × Option ℕ
shrink_flow n f = (record f { window = f.window - n }, none)

abbrev take_flow : ℕ → StubFlow → StubFlow × Option ℕ
take_flow n f = (record f { window = f.window - n; available = f.available - n }, none)

abbrev unclaimed : StubFlow → Option ℕ
unclaimed f =
    if ltb f.window f.available && leb (f.window / 2) (f.available - f.window)
    then some (f.available - f.window)
    else none

abbrev pub stub : Vendor
stub = record {
  State = StubState;
  default = record { send = awaiting; recv = awaiting; cut = uncut };
  send_open = stub_open_send;
  recv_open = stub_open_recv;
  recv_close = stub_close_recv;
  recv_reset = λ id reason queued st. cut_off (cut_reset id reason remote) st;
  recv_eof = λ st. cut_off cut_connection st;
  handle_error = λ e st. cut_off (cut_by e) st;
  send_close = λ st. record st { send = ended };
  set_reset = λ id reason i st. cut_off (cut_reset id reason i) st;
  is_local_error = λ st. is_local st.cut;
  is_reset = λ st. is_cut st.cut;
  is_send_streaming = λ st. is_streaming st.send;
  is_recv_headers = λ st. is_awaiting st.recv;
  is_recv_streaming = λ st. is_streaming st.recv;
  is_recv_end_stream = λ st. is_ended st.recv;
  is_closed = λ st. is_ended st.send && is_ended st.recv;
  is_send_closed = λ st. is_ended st.send;
  ensure_recv_open = λ st. cut_error st.cut;
  ensure_reason = λ st. fine (cut_reason st.cut);
  is_client_initiated = λ sid. sid % 2 == 1;
  FlowControl = StubFlow;
  new = record { window = 0; available = 0 };
  window_size = λ f. f.window;
  inc_window = grow_flow;
  dec_send_window = shrink_flow;
  dec_recv_window = shrink_flow;
  assign_capacity = λ n f. (record f { available = f.available + n }, none);
  claim_capacity = λ n f. (record f { available = f.available - n }, none);
  send_data = take_flow;
  unclaimed_capacity = unclaimed;
}

pub stub_laws : VendorLaws stub
stub_laws = record {
  set_reset_closed = λ id reason i st. refl;
  set_reset_is_reset = λ id reason i st. refl;
  recv_reset_closed = λ id reason queued st. refl;
  recv_eof_closed = λ st. refl;
  handle_error_closed = λ e st. refl;
  closed_send = λ st h. ground arith;
  closed_recv_streaming = λ st h. ground arith;
  recv_open_stays = λ eos informational st h. ground arith;
  recv_close_stays = λ st h. ground arith;
  send_open_stays = λ eos st h. ground arith;
  send_data_fits = λ sz f h. (refl, omega arith);
}
