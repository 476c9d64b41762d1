-- ===== src/Examples/Wires.antt =====
-- The theorems on the frame reader, on the stub: a server reads its client's first bytes.
use httpunk.Prelude.{refl, true, false, none, List, ℕ, [], ◌∷◌, ◌++◌, map, arith, ◌≡◌}
use httpunk.H1.Hyper.{h2_preface}
use httpunk.H2.Errors.{ok}
use httpunk.H2.Result.{settled, OkHolds}
use httpunk.H2.Inner.{Frame, data_frame, rst_stream, window_update, ping, go_away, settings_ack}
use httpunk.H2.Assembly.{Assembly, decode_one, decode_kind}
use httpunk.H2.Assembly.Blocks.{Follows, head_of}
use httpunk.H2.Assembly.Sequences.{decode_all, decode_all-Follows}
use httpunk.H2.Reader.{Reader, next_frame, receive_frames}
use httpunk.H2.Reader.Pieces.{receive_all, concat, receive_all-concat}
use httpunk.H2.Reader.Bounds.{IsBounded, receive_frames-IsBounded}
use httpunk.H2.Writer.{write_frames}
use httpunk.H2.Writer.RoundTrip.{seen, receive_frames-write_frames}
use httpunk.Examples.StubWire.{stub_wire, stub_wire_laws, stub_encoders, stub_encoders_laws}

abbrev assembly : Assembly stub_wire
assembly = record {
  hpack = 0;
  limits = record {
    table_updates = [];
    max_recv_frame_size = 16384;
    max_header_list_size = 16777216;
    max_continuation_frames = 1280;
  };
  partial = none;
}

-- Before the preface, and after it.
abbrev opening : Reader stub_wire
opening = record {
  assembly = assembly;
  buf = [];
  preface_buf = none;
  expect_preface = true;
  preface_ok = false;
}

abbrev reading : Reader stub_wire
reading = record opening { preface_ok = true }

-- HEADERS without END_HEADERS on stream 1, and its CONTINUATION; then DATA.
abbrev pub headers_bytes : List ℕ
headers_bytes = 0 ∷ 0 ∷ 1 ∷ 1 ∷ 0 ∷ 0 ∷ 0 ∷ 0 ∷ 1 ∷ 7 ∷ []

abbrev pub continuation_bytes : List ℕ
continuation_bytes = 0 ∷ 0 ∷ 1 ∷ 9 ∷ 4 ∷ 0 ∷ 0 ∷ 0 ∷ 1 ∷ 8 ∷ []

abbrev data_bytes : List ℕ
data_bytes = 0 ∷ 0 ∷ 2 ∷ 0 ∷ 1 ∷ 0 ∷ 0 ∷ 0 ∷ 1 ∷ 5 ∷ 6 ∷ []

abbrev pieces : List (List ℕ)
pieces = (headers_bytes ++ 0 ∷ []) ∷ (0 ∷ 1 ∷ 9 ∷ 4 ∷ 0 ∷ 0 ∷ 0 ∷ 1 ∷ 8 ∷ []) ∷ data_bytes ∷ []

receive_all-concat_example :
    settled (receive_all stub_wire (h2_preface ∷ pieces) opening)
    ≡ settled (receive_frames stub_wire (concat stub_wire (h2_preface ∷ pieces)) opening)
receive_all-concat_example = receive_all-concat stub_wire h2_preface pieces opening

receive_frames-IsBounded_example :
    OkHolds
      (IsBounded stub_wire 16384 1280 16777216)
      (receive_frames stub_wire (h2_preface ++ headers_bytes) opening)
unfolding next_frame
receive_frames-IsBounded_example =
    receive_frames-IsBounded stub_wire 16384 1280 16777216 (h2_preface ++ headers_bytes) opening
      (record { sized = omega arith; stopped = refl; short = omega arith; preface = omega arith })

decode_all-Follows_example :
    Follows none
      (map (head_of stub_wire) (headers_bytes ∷ continuation_bytes ∷ data_bytes ∷ []))
      none
unfolding decode_all decode_one decode_kind
decode_all-Follows_example =
    decode_all-Follows stub_wire stub_wire_laws
      (headers_bytes ∷ continuation_bytes ∷ data_bytes ∷ []) assembly refl

abbrev frames : List Frame
frames =
    settings_ack
    ∷ data_frame 1 (5 ∷ 6 ∷ []) true
    ∷ window_update 0 100
    ∷ rst_stream 3 8
    ∷ ping (1 ∷ 2 ∷ 3 ∷ 4 ∷ 5 ∷ 6 ∷ 7 ∷ 8 ∷ []) true
    ∷ go_away 5 0 (b'x' ∷ [])
    ∷ []

receive_frames-write_frames_example :
    receive_frames stub_wire (write_frames stub_encoders 16384 frames []) reading
    ≡ (reading, ok (map (seen stub_wire) frames))
receive_frames-write_frames_example =
    receive_frames-write_frames stub_wire stub_encoders stub_encoders_laws 16384 frames reading
      (omega arith) (omega arith) (omega arith) (omega arith) refl refl refl
