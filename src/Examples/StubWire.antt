-- ===== src/Examples/StubWire.antt =====
-- A frame layer after RFC 9113: heads, the control frames and unpadded DATA, big-endian. A header
-- block decodes at once, and is malformed where it has the byte 255.
use httpunk.Prelude.{
  ℕ, ◌+◌, ◌*◌, ◌/◌, ◌%◌, ◌^◌, ◌<◌, ◌≡◌, refl, Bool, true, false, Option, none, some, List, [], ◌∷◌,
  arith, ◌==◌, if◌then◌else◌, length, drop-zero, bit, contains,
}
use httpunk.H2.Wire.{
  Wire, WireLaws, Kind, data_kind, headers_kind, priority_kind, reset_kind, settings_kind,
  push_promise_kind, ping_kind, go_away_kind, window_update_kind, continuation_kind, unknown_kind,
  Head, Loaded, loaded, LoadedSettings, decoded, malformed_message,
}
use httpunk.H2.Encoders.{Encoders, EncodersLaws, ack_settings, settings_len, settings_len_le}
use httpunk.Examples.StubSettings.{
  word, number, number_word, entries, nothing, load_entries, length-entries, load_entries_lem,
}

abbrev kind_of : ℕ → Kind
kind_of n =
    if n == 0
    then data_kind
    else if n == 1
    then headers_kind
    else if n == 2
    then priority_kind
    else if n == 3
    then reset_kind
    else if n == 4
    then settings_kind
    else if n == 5
    then push_promise_kind
    else if n == 6
    then ping_kind
    else if n == 7
    then go_away_kind
    else if n == 8
    then window_update_kind
    else if n == 9
    then continuation_kind
    else unknown_kind

abbrev code_of : Kind → ℕ
code_of data_kind = 0
code_of headers_kind = 1
code_of priority_kind = 2
code_of reset_kind = 3
code_of settings_kind = 4
code_of push_promise_kind = 5
code_of ping_kind = 6
code_of go_away_kind = 7
code_of window_update_kind = 8
code_of continuation_kind = 9
code_of unknown_kind = 10

-- The reserved bit is dropped.
abbrev number_31 : ℕ → ℕ → ℕ → ℕ → ℕ
number_31 a b c d = number (a % 128) b c d

number_31_word :
    (n : ℕ) → n < 2 ^ 31 → number_31 (n / 16777216) (n / 65536 % 256) (n / 256 % 256) (n % 256) ≡ n
number_31_word n h = omega arith

length_word : (n : ℕ) → n < 2 ^ 24 → n / 65536 * 65536 + n / 256 % 256 * 256 + n % 256 ≡ n
length_word n h = omega arith

odd_bit : (b : Bool) → (bit b % 2 == 1) ≡ b
odd_bit true = refl
odd_bit false = refl

abbrev frame_bytes : Kind → ℕ → ℕ → ℕ → List ℕ → List ℕ
frame_bytes kind flag sid n payload =
    (n / 65536) ∷ (n / 256 % 256) ∷ (n % 256) ∷ code_of kind ∷ flag ∷ word sid payload

abbrev stub_parse_head : List ℕ → Head
stub_parse_head (x ∷ y ∷ z ∷ k ∷ flag ∷ a ∷ b ∷ c ∷ d ∷ rest) = record {
  kind = kind_of k;
  flag = flag;
  stream_id = number_31 a b c d;
}
stub_parse_head short = record { kind = unknown_kind; flag = 0; stream_id = 0 }

abbrev stub_window_update : Head → List ℕ → Option (ℕ × ℕ)
stub_window_update head (a ∷ b ∷ c ∷ d ∷ []) =
    if number_31 a b c d == 0 then none else some (head.stream_id, number_31 a b c d)
stub_window_update head other = none

abbrev stub_reset : Head → List ℕ → Option (ℕ × ℕ)
stub_reset head (a ∷ b ∷ c ∷ d ∷ []) =
    if head.stream_id == 0 then none else some (head.stream_id, number a b c d)
stub_reset head other = none

abbrev stub_go_away : Head → List ℕ → Option (ℕ × ℕ × List ℕ)
stub_go_away head (a ∷ b ∷ c ∷ d ∷ i ∷ j ∷ k ∷ l ∷ debug_data) =
    some (number_31 a b c d, number i j k l, debug_data)
stub_go_away head other = none

abbrev stub_settings : Head → List ℕ → Option LoadedSettings
stub_settings head [] = if head.flag == 1 then some ack_settings else load_entries nothing []
stub_settings head (x ∷ xs) = if head.flag == 1 then none else load_entries nothing (x ∷ xs)

pub record StubHeaders : Type 0 where
  pub sid : ℕ
  pub flag : ℕ

abbrev pub stub_wire : Wire
stub_wire = record {
  Headers = StubHeaders;
  Parts = ℕ;
  Hpack = ℕ;
  new_hpack = 0;
  parse_head = stub_parse_head;
  load_headers =
      λ head payload. loaded (record { sid = head.stream_id; flag = head.flag }, payload);
  load_hpack = λ h block max_list updates hpack. record {
    frame = h;
    rest = [];
    table_updates = [];
    hpack = hpack + length block;
    result = if contains 255 block then malformed_message else decoded;
  };
  headers_stream_id = λ h. h.sid;
  is_end_headers = λ h. h.flag / 4 % 2 == 1;
  is_end_stream = λ h. h.flag % 2 == 1;
  is_informational = λ h. false;
  is_over_size = λ h. false;
  content_lengths = λ h. [];
  parse_u64 = λ bytes. some 0;
  into_parts = λ h. h.flag;
  status = λ parts. some 200;
  load_data = λ head payload. some (record {
    stream_id = head.stream_id;
    is_end_stream = head.flag % 2 == 1;
    flow_controlled_len = length payload;
    payload = payload;
  });
  load_settings = stub_settings;
  load_window_update = stub_window_update;
  load_ping =
      λ head payload. if length payload == 8 then some (head.flag % 2 == 1, payload) else none;
  load_go_away = stub_go_away;
  load_reset = stub_reset;
  load_priority = λ head payload. loaded tt;
}

abbrev pub stub_encoders : Encoders
stub_encoders = record {
  head_bytes = λ head n. frame_bytes head.kind head.flag head.stream_id n [];
  window_update_bytes = λ sid n. frame_bytes window_update_kind 0 sid 4 (word n []);
  reset_bytes = λ sid error_code. frame_bytes reset_kind 0 sid 4 (word error_code []);
  go_away_bytes =
      λ last error_code. frame_bytes go_away_kind 0 0 8 (word last (word error_code []));
  go_away_debug_bytes = λ last error_code debug_data.
      frame_bytes go_away_kind 0 0 (8 + length debug_data) (word last (word error_code debug_data));
  ping_bytes = λ payload. frame_bytes ping_kind 0 0 8 payload;
  pong_bytes = λ payload. frame_bytes ping_kind 1 0 8 payload;
  settings_ack_bytes = frame_bytes settings_kind 1 0 0 [];
  settings_bytes = λ s. frame_bytes settings_kind 0 0 (settings_len s) (entries s);
}

stub_settings_plain :
    (sid : ℕ) (payload : List ℕ)
    → stub_settings (record { kind = settings_kind; flag = 0; stream_id = sid }) payload
      ≡ load_entries nothing payload
stub_settings_plain sid [] = refl
stub_settings_plain sid (x ∷ xs) = refl

same_loaded :
    (h : StubHeaders) (block : List ℕ) (g : StubHeaders) (bytes : List ℕ)
    → ◌≡◌ {A = Loaded (StubHeaders × List ℕ)} (loaded (g, bytes)) (loaded (h, block))
    → h.sid ≡ g.sid
same_loaded h block g bytes e = ground arith

pub stub_wire_laws : WireLaws stub_wire
stub_wire_laws = record {
  load_headers_stream_id = λ head payload h block e. same_loaded h block _ payload e;
  load_hpack_stream_id = λ h block max_list updates hpack. refl;
}

pub stub_encoders_laws : EncodersLaws stub_wire stub_encoders
stub_encoders_laws = record {
  data_laws = λ sid end_stream payload p q n. (
    (omega arith, length_word (length payload) n, refl),
    rw (number_31_word sid q, drop-zero payload, odd_bit end_stream),
  );
  window_update_laws = λ sid n p q r.
      ((refl, refl, refl), rw (number_31_word n r, number_31_word sid p) (ground arith));
  reset_laws = λ sid error_code p q r.
      ((refl, refl, refl), rw (number_31_word sid q, number_word error_code r) (ground arith));
  go_away_laws = λ last error_code p q.
      ((refl, refl, refl), rw (number_31_word last p, number_word error_code q));
  go_away_debug_laws = λ last error_code debug_data p q r. (
    (omega arith, length_word (8 + length debug_data) r, refl),
    rw (number_31_word last p, number_word error_code q),
  );
  ping_laws = λ payload h. ((omega arith, refl, refl), rw (drop-zero payload, h));
  pong_laws = λ payload h. ((omega arith, refl, refl), rw (drop-zero payload, h));
  settings_ack_laws = ((refl, refl, refl), refl);
  settings_laws = λ s range. (
    (
      omega (arith, length-entries s),
      length_word (settings_len s) (omega (arith, settings_len_le s)),
      refl,
    ),
    rw (drop-zero (entries s), stub_settings_plain 0 (entries s)) (load_entries_lem s range),
  );
}
