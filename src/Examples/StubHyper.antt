-- ===== src/Examples/StubHyper.antt =====
-- A stub of the vendored hyper that satisfies its laws: a head ends with a newline, its first byte
-- is the method, and a response is encoded as its status.
use httpunk.Prelude.{
  ℕ, ◌-◌, ◌≡◌, refl, Bool, true, false, not, Option, none, some, List, [], ◌∷◌, ltb, ◌==◌,
  if◌then◌else◌, option-cases, length, arith,
}
use httpunk.H1.Hyper.{
  Hyper, HyperLaws, Result, ok, ParsedRequest, ParsedHead, sized, nothing, pending, data_ready,
}

-- What is behind the first newline, if there is one.
abbrev pub line_end : List ℕ → Option (List ℕ)
line_end [] = none
line_end (x ∷ xs) = if x == 10 then some xs else line_end xs

abbrev first_byte : List ℕ → ℕ
first_byte [] = 0
first_byte (x ∷ xs) = x

-- "C" is CONNECT, "E" expects a continue, and "P" has a body of three bytes.
abbrev stub_request : List ℕ → ParsedRequest ℕ (List ℕ) (List ℕ)
stub_request buf = record {
  method = first_byte buf;
  target = [];
  headers = [];
  body = if first_byte buf == 80 then sized 3 else nothing;
  keep_alive = true;
  expect_continue = first_byte buf == 69;
  wants_upgrade = first_byte buf == 85;
  http10 = false;
  allow_trailers = false;
}

abbrev stub_response_head : List ℕ → ParsedHead (List ℕ)
stub_response_head buf = record {
  status = first_byte buf;
  keep_alive = true;
  headers = [];
  body = sized 3;
  wants_upgrade = false;
  http10 = false;
}

abbrev stub_parse : {A : Type 0} → (List ℕ → A) → List ℕ → List ℕ × Result ℕ (Option A)
stub_parse head buf = elim (line_end buf) [
  | none ↦ (buf, ok none)
  | some rest ↦ (rest, ok (some (head buf)))
]

-- A decoder counts down its length.
abbrev stub_decode : ℕ → List ℕ → (ℕ × List ℕ) × (Bool × List ℕ)
stub_decode n [] = ((n, []), (false, []))
stub_decode n (x ∷ xs) = ((n - 1, xs), (true, x ∷ []))

abbrev pub stub_hyper : Hyper
stub_hyper = record {
  Method = ℕ;
  Headers = List ℕ;
  Target = List ℕ;
  Failure = ℕ;
  ParserConfig = Unit {0};
  method_of = λ bytes. some (first_byte bytes);
  target_of = λ bytes. some bytes;
  is_connect = λ method. method == 67;
  is_status = λ status. ltb 99 status;
  connection_any_close = λ fields. false;
  parse_request = λ config max_headers max_size buf. stub_parse stub_request buf;
  parse_response = λ method config max_headers max_size buf. stub_parse stub_response_head buf;
  too_large_error = 431;
  version_h2_error = 2;
  on_error = λ e. some e;
  Encoder = Bool;
  encode_request = λ method target fields f. ok (false, method ∷ 10 ∷ []);
  encode_response = λ status fields method keep_alive date f. ok (not keep_alive, status ∷ []);
  is_eof = λ encoder. false;
  is_last = λ encoder. encoder;
  is_close_delimited = λ encoder. false;
  encode = λ encoder chunk. (encoder, record { is_verbatim = false; bytes = length chunk ∷ chunk });
  finish = λ encoder. ok (0 ∷ []);
  end_with_trailers = λ encoder fields title. ok (0 ∷ fields);
  Decoder = ℕ;
  length_decoder = λ n. n;
  chunked_decoder = λ max_headers max_size. 1;
  eof_decoder = 1;
  decoder_is_eof = λ n. n == 0;
  decode = λ n buf eof.
      let (next, (some_read, bytes)) = stub_decode n buf in
      (next, if some_read then data_ready bytes else pending);
}

stub_incomplete :
    {A : Type 0} (head : List ℕ → A) (buf : List ℕ)
    → (stub_parse head buf).1 ≡ ok none
    → (stub_parse head buf).0 ≡ buf
stub_incomplete {A} head buf h =
    option-cases (λ (r : List ℕ × Result ℕ (Option A)). r.1 ≡ ok none → r.0 ≡ buf) (line_end buf)
      (buf, ok none) (λ rest. (rest, ok (some (head buf)))) (λ _ _. refl)
      (λ rest _ k. absurd (ground (arith, k))) h

pub stub_hyper_laws : HyperLaws stub_hyper
stub_hyper_laws = record {
  verbatim_bytes = λ encoder chunk h. absurd (ground (arith, h));
  no_keep_alive_is_last = λ status fields method date f encoder head h. ground (arith, h);
  incomplete_request = λ config m n buf h. stub_incomplete stub_request buf h;
}
