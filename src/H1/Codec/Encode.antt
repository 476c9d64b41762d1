-- ===== src/H1/Codec/Encode.antt =====
-- src/h1/codec.rs, the sending half: heads, body chunks, and a message's end.
use httpunk.Prelude.{ℕ, Bool, true, false, Option, none, some, List, [], ◌++◌, if◌then◌else◌}
use httpunk.H1.Hyper.{Hyper, Error, value, hyper, Result, ok, err, Framed}
use httpunk.H1.Body.{is_empty}
use httpunk.H1.Codec.{Codec}

-- The body that a head declares: `chunked` wins over a length.
abbrev pub declared : Bool → Option ℕ → Option (Option ℕ)
declared true length = some none
declared false none = none
declared false (some n) = some (some n)

module _ (w : Hyper) where
  -- What an encoded head leaves in the codec.
  keep_request :
      Codec w
      → w.Method
      → Bool
      → Result w.Failure (w.Encoder × List ℕ)
      → Codec w × Result (Error w.Failure) (List ℕ)
  keep_request c method closes (ok (encoder, head)) = (
    record c {
      req_method = some method;
      encoder = some encoder;
      request_connection_close = closes;
    },
    ok head,
  )
  keep_request c method closes (err e) = (c, err (hyper e))

  unfoldable pub serialize_request :
      List ℕ
      → List ℕ
      → w.Headers
      → Bool
      → Option ℕ
      → Bool
      → Codec w
      → Codec w × Result (Error w.Failure) (List ℕ)
  unfolding keep_request
  serialize_request method url fields http10 content_length chunked c = elim (w.method_of method) [
    | none ↦ (c, err value)
    | some m ↦ elim (w.target_of url) [
      | none ↦ (c, err value)
      | some target ↦ keep_request c m (w.connection_any_close fields) (
          w.encode_request m target fields (record {
            declared = declared chunked content_length;
            http10 = http10;
            title_case = c.options.title_case_headers;
          }))
    ]
  ]

  unfoldable pub keep_response :
      Codec w → Result w.Failure (w.Encoder × List ℕ) → Codec w × Result (Error w.Failure) (List ℕ)
  keep_response c (ok (encoder, head)) = (
    record c {
      response_is_last = w.is_last encoder;
      response_close_delimited = w.is_close_delimited encoder;
      encoder = some encoder;
    },
    ok head,
  )
  keep_response c (err e) = (c, err (hyper e))

  unfoldable pub serialize_response :
      ℕ
      → w.Headers
      → Bool
      → Bool
      → Option ℕ
      → Bool
      → Codec w
      → Codec w × Result (Error w.Failure) (List ℕ)
  unfolding keep_response
  serialize_response status fields keep_alive http10 content_length chunked c =
      if w.is_status status
      then keep_response c (
          w.encode_response status fields c.req_method keep_alive c.options.date_header (record {
            declared = declared chunked content_length;
            http10 = http10;
            title_case = c.options.title_case_headers;
          }))
      else (c, err value)

  -- A chunk that the framing leaves untouched is the caller's own.
  abbrev pub framed_bytes : List ℕ → Framed → List ℕ
  framed_bytes chunk f = if f.is_verbatim then chunk else f.bytes

  unfoldable pub serialize_data : List ℕ → Codec w → Codec w × Result (Error w.Failure) (List ℕ)
  serialize_data chunk c = if is_empty chunk then (c, ok chunk) else elim c.encoder [
    | none ↦ (c, err value)
    | some encoder ↦
        let (encoder', framed) = w.encode encoder chunk in
        (record c { encoder = some encoder' }, ok (framed_bytes chunk framed))
  ]

  abbrev pub raised : Result w.Failure (List ℕ) → Result (Error w.Failure) (List ℕ)
  raised (ok tail) = ok tail
  raised (err e) = err (hyper e)

  unfoldable pub serialize_end : Codec w → Codec w × Result (Error w.Failure) (List ℕ)
  serialize_end c = (
    record c { encoder = none },
    elim c.encoder [ none ↦ ok [] | some encoder ↦ raised (w.finish encoder) ],
  )

  unfoldable pub serialize_trailers :
      w.Headers → Codec w → Codec w × Result (Error w.Failure) (List ℕ)
  serialize_trailers trailers c = (
    record c { encoder = none },
    elim c.encoder [
      | none ↦ ok []
      | some encoder ↦
          if c.allow_trailer_fields
          then raised (w.end_with_trailers encoder trailers c.options.title_case_headers)
          else raised (w.finish encoder)
    ],
  )

  -- The framed body, with the encoder past it: an empty body is not encoded.
  unfoldable pub encode_body : w.Encoder → List ℕ → w.Encoder × List ℕ
  encode_body encoder body =
      if is_empty body
      then (encoder, [])
      else (let (encoder', framed) = w.encode encoder body in (encoder', framed.bytes))

  -- The end of a message whose trailers may be sent.
  unfoldable pub end_of_body :
      Codec w → w.Encoder → Option w.Headers → Result (Error w.Failure) (List ℕ)
  end_of_body c encoder none = raised (w.finish encoder)
  end_of_body c encoder (some trailers) =
      if c.allow_trailer_fields
      then raised (w.end_with_trailers encoder trailers c.options.title_case_headers)
      else raised (w.finish encoder)

  abbrev pub after : List ℕ → Result (Error w.Failure) (List ℕ) → Result (Error w.Failure) (List ℕ)
  after bytes (ok tail) = ok (bytes ++ tail)
  after bytes (err e) = err e

  -- The body is `None` as `[]`: neither is encoded.
  unfoldable pub serialize_head_and_body :
      List ℕ → List ℕ → Option w.Headers → Codec w → Codec w × Result (Error w.Failure) (List ℕ)
  unfolding encode_body end_of_body
  serialize_head_and_body head body trailers c = (
    record c { encoder = none },
    elim c.encoder [
      | none ↦ ok head
      | some encoder ↦
          if w.is_eof encoder
          then after head (raised (w.finish encoder))
          else (let (encoder', bytes) = encode_body encoder body in
              after (head ++ bytes) (end_of_body c encoder' trailers))
    ],
  )

  unfoldable pub body_is_eof : Codec w → Bool
  body_is_eof c = elim c.encoder [ none ↦ true | some encoder ↦ w.is_eof encoder ]
