-- ===== src/H1/Hyper.antt =====
-- The vendored hyper as the codec uses it, through the names that crates/vendor-hyper exports: its
-- head parsers and encoders, and its body encoder and decoder. `Hyper` has the operations,
-- `HyperLaws` what hyper documents of them. A method on `&mut self` gives the new value too.
use httpunk.Prelude.{
  ℕ, ◌≡◌, refl, ◌⊎◌, inl, inr, Bool, true, false, Option, List, [], ◌∷◌, ◌++◌, codes,
}

-- `H2_PREFACE`.
abbrev pub h2_preface : List ℕ
h2_preface = codes "PRI * HTTP/2.0" ++ 13 ∷ 10 ∷ 13 ∷ 10 ∷ codes "SM" ++ 13 ∷ 10 ∷ 13 ∷ 10 ∷ []

-- What a codec call raises: a `ValueError` of the caller's arguments, or hyper's own error.
pub data Error (E : Type 0) : Type 0 where
  value : Error E
  hyper : E → Error E

pub data Result (E : Type 0) (A : Type 0) : Type 0 where
  ok : A → Result E A
  err : E → Result E A

pub Result-cases :
    {E A : Type 0} (answer : Result E A)
    → ((a : A) × (answer ≡ ok a)) ⊎ ((e : E) × (answer ≡ err e))
Result-cases (ok a) = inl (a, refl)
Result-cases (err e) = inr (e, refl)

-- `BodyDecode`: how a message's body is framed.
pub data BodyDecode : Type 0 where
  nothing : BodyDecode
  sized : ℕ → BodyDecode
  in_chunks : BodyDecode
  close_delimited : BodyDecode

-- The four kinds that `H1BodyDecoder` knows: "empty", "length", "chunked", "close".
pub data BodyKind : Type 0 where
  empty_kind length_kind chunked_kind close_kind : BodyKind

-- `FramedChunk`: the framed bytes, and whether they are the caller's chunk itself.
pub record Framed : Type 0 where
  pub is_verbatim : Bool
  pub bytes : List ℕ

-- `ParsedRequest` and `ParsedHead`.
pub record ParsedRequest (Method Headers Target : Type 0) : Type 0 where
  pub method : Method
  pub target : Target
  pub headers : Headers
  pub body : BodyDecode
  pub keep_alive : Bool
  pub expect_continue : Bool
  pub wants_upgrade : Bool
  pub http10 : Bool
  pub allow_trailers : Bool

pub record ParsedHead (Headers : Type 0) : Type 0 where
  pub status : ℕ
  pub keep_alive : Bool
  pub headers : Headers
  pub body : BodyDecode
  pub wants_upgrade : Bool
  pub http10 : Bool

-- What one poll of a decoder gives: a data frame, a trailers frame, or `Error::new_body`.
pub data Poll (E Headers : Type 0) : Type 0 where
  pending : Poll E Headers
  data_ready : List ℕ → Poll E Headers
  trailers_ready : Option Headers → Poll E Headers
  broken : E → Poll E Headers

-- The inputs that hyper's two encoders share: the declared body is `None`, `Some(None)` for
-- chunks, or `Some(Some(length))`.
pub record Framing : Type 0 where
  pub declared : Option (Option ℕ)
  pub http10 : Bool
  pub title_case : Bool

pub record Hyper : Type 1 where
  pub Method : Type 0
  pub Headers : Type 0
  pub Target : Type 0
  pub Failure : Type 0
  pub ParserConfig : Type 0
  pub method_of : List ℕ → Option Method
  pub target_of : List ℕ → Option Target
  pub is_connect : Method → Bool
  pub is_status : ℕ → Bool
  pub connection_any_close : Headers → Bool
  pub parse_request :
      ParserConfig
      → Option ℕ
      → Option ℕ
      → List ℕ
      → List ℕ × Result Failure (Option (ParsedRequest Method Headers Target))
  pub parse_response :
      Option Method
      → ParserConfig
      → Option ℕ
      → Option ℕ
      → List ℕ
      → List ℕ × Result Failure (Option (ParsedHead Headers))
  pub too_large_error : Failure
  -- `Error::new_version_h2`, and the status that `Server::on_error` picks.
  pub version_h2_error : Failure
  pub on_error : Failure → Option ℕ
  pub Encoder : Type 0
  -- The head's bytes with the body's encoder.
  pub encode_request : Method → Target → Headers → Framing → Result Failure (Encoder × List ℕ)
  pub encode_response :
      ℕ → Headers → Option Method → Bool → Bool → Framing → Result Failure (Encoder × List ℕ)
  pub is_eof : Encoder → Bool
  pub is_last : Encoder → Bool
  pub is_close_delimited : Encoder → Bool
  pub encode : Encoder → List ℕ → Encoder × Framed
  pub finish : Encoder → Result Failure (List ℕ)
  pub end_with_trailers : Encoder → Headers → Bool → Result Failure (List ℕ)
  -- The framing decoders, `Decoder::length`, `chunked`, `eof` and `decode`, over a buffer and the
  -- mark of its end.
  pub Decoder : Type 0
  pub length_decoder : ℕ → Decoder
  pub chunked_decoder : Option ℕ → Option ℕ → Decoder
  pub eof_decoder : Decoder
  pub decoder_is_eof : Decoder → Bool
  pub decode : Decoder → List ℕ → Bool → (Decoder × List ℕ) × Poll Failure Headers

-- What hyper documents.
pub record HyperLaws (w : Hyper) : Type 0 where
  -- `BufKind::Exact`: the chunk itself.
  pub verbatim_bytes :
      (enc : w.Encoder) (chunk : List ℕ)
      → (w.encode enc chunk).1.is_verbatim ≡ true
      → (w.encode enc chunk).1.bytes ≡ chunk
  -- `Server::encode`: without keep-alive the response is the last.
  pub no_keep_alive_is_last :
      (status : ℕ) (headers : w.Headers) (method : Option w.Method) (date : Bool) (f : Framing)
      (enc : w.Encoder) (head : List ℕ)
      → w.encode_response status headers method false date f ≡ ok (enc, head)
      → w.is_last enc ≡ true
  -- `Server::parse` leaves the buffer of an incomplete head as it is.
  pub incomplete_request :
      (c : w.ParserConfig) (m n : Option ℕ) (buf : List ℕ)
      → (w.parse_request c m n buf).1 ≡ ok Option.none
      → (w.parse_request c m n buf).0 ≡ buf
