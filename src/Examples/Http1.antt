-- ===== src/Examples/Http1.antt =====
-- The theorems on HTTP/1 connections, on the stub: a connection that serves one request.
use httpunk.Prelude.{◌+◌, ◌≤◌, ◌≡◌, refl, true, false, none, some, List, [], ◌∷◌, arith}
use httpunk.H1.Body.{BodyDecoder}
use httpunk.H1.Codec.{Codec, Options, finish_request, parse_request_with, receive_request_head}
use httpunk.H1.Codec.Caps.{Bounded, receive_request_head-Bounded}
use httpunk.H1.Codec.Once.{parse_once, receive_request_head_once}
use httpunk.H1.Codec.Encode.{serialize_head_and_body}
use httpunk.H1.Codec.Whole.{in_pieces, serialize_head_and_body_lem}
use httpunk.H1.Server.{Inner, Watcher, no_request, new, req_ok}
use httpunk.H1.Server.Respond.{Response, respond_head, finish_response, detach}
use httpunk.H1.Server.Calls.{Call, next_request, read, respond, finished, run, closing}
use httpunk.H1.Server.Sound.{IsValid, Onward, amount, held}
use httpunk.H1.Server.Sound.Runs.{
  run-IsValid, run-Onward, transport-run, handles-run, once-run, times,
}
use httpunk.H1.Server.Ends.{finish_response-respond_head}
use httpunk.H1.Server.HandOff.{detach_taken_over}
use httpunk.Examples.StubHyper.{stub_hyper, stub_hyper_laws}

abbrev options : Options stub_hyper
options = record {
  max_headers = none;
  max_header_size = some 5000;
  parser_config = tt;
  title_case_headers = false;
  date_header = true;
  max_buf_size = 8192;
}

abbrev pub codec : Codec stub_hyper
codec = record {
  options = options;
  buf = [];
  req_method = none;
  encoder = none;
  request_connection_close = false;
  allow_trailer_fields = true;
  parse_error_status = none;
  response_is_last = false;
  response_close_delimited = false;
}

abbrev answer : Response stub_hyper
answer = record {
  status = 200;
  headers = [];
  done = 90;
  content_length = none;
  chunked = false;
  want = false;
}

abbrev connection : Inner stub_hyper
connection = record {
  codec = codec;
  transport = some 7;
  closed = false;
  reusable = true;
  upgraded = false;
  half_close = false;
  keep_alive_enabled = true;
  shutdown_requested = false;
  idle_read_parked = false;
  head_read_since = none;
  watcher = none;
  current = no_request stub_hyper;
  next_seq = 1;
}

connection-IsValid : IsValid stub_hyper connection
connection-IsValid = ground arith

-- A request is read and answered, then the connection is closed.
abbrev calls : List (Call stub_hyper)
calls = next_request 5 ∷ read (71 ∷ 10 ∷ []) ∷ respond 1 answer ∷ finished 1 ∷ closing ∷ []

abbrev after_calls : Inner stub_hyper
after_calls = (run stub_hyper calls connection).0

-- One that has a request whose body is read, with two bytes behind it, and a watcher's byte.
abbrev body : BodyDecoder stub_hyper
body = record { decoder = 0; buf = 80 ∷ 81 ∷ []; eof = false; done = true; trailers = none }

abbrev pub read_watcher : Watcher
read_watcher = record {
  handle = some 60;
  done = 61;
  bytes = some (82 ∷ []);
  error = none;
  completed = true;
}

abbrev serving : Inner stub_hyper
serving = record connection {
  watcher = some read_watcher;
  current = record (no_request stub_hyper) {
    seq = 1;
    decoder = some body;
    response_done = false;
    expect_continue = true;
  };
  next_seq = 2;
}

run-IsValid_example : IsValid stub_hyper (run stub_hyper calls connection).0
run-IsValid_example = run-IsValid stub_hyper calls connection connection-IsValid

run-Onward_example : Onward stub_hyper connection (run stub_hyper calls connection).0
run-Onward_example = run-Onward stub_hyper calls connection connection-IsValid

transport-run_example :
    times (λ seen. seen.handed) 7 (run stub_hyper calls connection).1
      + amount 7 (run stub_hyper calls connection).0.transport
    ≡ 1
transport-run_example = transport-run stub_hyper calls connection 7 connection-IsValid

handles-run_example :
    times (λ seen. seen.taken) 60 (run stub_hyper calls connection).1
      + amount 60 (held (run stub_hyper calls connection).0.watcher)
    ≡ 0 + times (λ seen. seen.stored) 60 (run stub_hyper calls connection).1
handles-run_example = handles-run stub_hyper calls connection 60 connection-IsValid

once-run_example :
    (times (λ seen. seen.answered) 1 (run stub_hyper calls (new stub_hyper codec 7 true false)).1
      ≤ 1)
    × (times (λ seen. seen.continued) 1 (run stub_hyper calls (new stub_hyper codec 7 true false)).1
        ≤ 1)
once-run_example = once-run stub_hyper calls codec 7 true false 1 (omega arith)

detach_taken_over_example :
    (detach stub_hyper 1 serving).1 ≡ (req_ok, (some 7, some (80 ∷ 81 ∷ 82 ∷ [])))
detach_taken_over_example = detach_taken_over stub_hyper 1 serving refl refl refl

finish_response-respond_head_example :
    ((finish_response stub_hyper 1 (respond_head stub_hyper 1 answer serving).0).0.closed ≡ true)
    × ((finish_response stub_hyper 1 (respond_head stub_hyper 1 answer serving).0).0.reusable
        ≡ false)
unfolding respond_head
finish_response-respond_head_example =
    finish_response-respond_head stub_hyper stub_hyper_laws 1 answer serving refl refl

receive_request_head-Bounded_example : Bounded {w = stub_hyper} options (
  (receive_request_head stub_hyper (71 ∷ []) codec).0.buf,
  (receive_request_head stub_hyper (71 ∷ []) codec).1,
)
receive_request_head-Bounded_example = receive_request_head-Bounded stub_hyper (71 ∷ []) codec

receive_request_head_once_example : receive_request_head stub_hyper (71 ∷ 10 ∷ []) codec ≡ (
    let (buf, outcome) =
      parse_once stub_hyper options (parse_request_with stub_hyper options) (71 ∷ 10 ∷ []) in
    finish_request stub_hyper (record codec { buf = buf }) outcome)
receive_request_head_once_example =
    receive_request_head_once stub_hyper stub_hyper_laws (71 ∷ 10 ∷ []) codec

serialize_head_and_body_lem_example :
    serialize_head_and_body stub_hyper
      (1 ∷ [])
      (5 ∷ 6 ∷ [])
      none
      (record codec { encoder = some true })
    ≡ in_pieces stub_hyper (1 ∷ []) (5 ∷ 6 ∷ []) none (record codec { encoder = some true })
serialize_head_and_body_lem_example =
    serialize_head_and_body_lem stub_hyper stub_hyper_laws (1 ∷ []) (5 ∷ 6 ∷ []) none
      (record codec { encoder = some true })
