-- ===== src/H1/Codec/Whole.antt =====
-- A message in one buffer is its pieces, one behind the other.
use httpunk.Prelude.{
  ℕ, ◌≡◌, refl, Option, none, some, List, [], ◌∷◌, ◌++◌, if◌then◌else◌, Bool-cases, Option-cases,
  inl, inr,
}
use httpunk.H1.Hyper.{Hyper, HyperLaws, Error, Result, ok, err}
use httpunk.H1.Codec.{Codec}
use httpunk.H1.Codec.Encode.{
  serialize_data, serialize_end, serialize_trailers, serialize_head_and_body, body_is_eof,
  encode_body, end_of_body, framed_bytes, after,
}

append-nil : (bytes : List ℕ) → bytes ++ [] ≡ bytes
append-nil [] = refl
append-nil (x ∷ bytes) = rw (append-nil bytes) refl

module _ (w : Hyper) where
  abbrev behind :
      List ℕ
      → Result (Error w.Failure) (List ℕ)
      → Result (Error w.Failure) (List ℕ)
      → Result (Error w.Failure) (List ℕ)
  behind head (ok bytes) tail = after w (head ++ bytes) tail
  behind head (err e) tail = err e

  -- The body's end, with the trailers if any.
  abbrev end_with : Option w.Headers → Codec w → Codec w × Result (Error w.Failure) (List ℕ)
  end_with none c = serialize_end w c
  end_with (some trailers) c = serialize_trailers w trailers c

  -- The driver's way for a body in pieces: none of it for a bodyless message.
  abbrev pub in_pieces :
      List ℕ → List ℕ → Option w.Headers → Codec w → Codec w × Result (Error w.Failure) (List ℕ)
  in_pieces head body trailers c =
      if body_is_eof w c
      then (let (c', tail) = serialize_end w c in (c', after w head tail))
      else (let (c1, chunk) = serialize_data w body c in
          let (c2, tail) = end_with trailers c1 in (c2, behind head chunk tail))

  framed_is :
      (l : HyperLaws w) (encoder : w.Encoder) (chunk : List ℕ)
      → framed_bytes w chunk (w.encode encoder chunk).1 ≡ (w.encode encoder chunk).1.bytes
  framed_is l encoder chunk = elim (Bool-cases (w.encode encoder chunk).1.is_verbatim) [
    | inl same ↦ rw (same, l.verbatim_bytes encoder chunk same) refl
    | inr other ↦ rw other refl
  ]

  -- Past the body both ends agree, whatever encoder is left.
  ends :
      (front : List ℕ) (c : Codec w) (encoder : w.Encoder) (trailers : Option w.Headers)
      → Path
          (Codec w × Result (Error w.Failure) (List ℕ))
          (record c { encoder = none }, after w front (end_of_body w c encoder trailers))
          (
            (end_with trailers (record c { encoder = some encoder })).0,
            after w front (end_with trailers (record c { encoder = some encoder })).1,
          )
  unfolding serialize_end serialize_trailers end_of_body
  ends front c encoder none = refl
  ends front c encoder (some fields) = refl

  -- A message in one buffer is the head, the framed body and the end that the single calls give,
  -- one behind the other, or the same error, and leaves the codec as they do.
  pub serialize_head_and_body_lem :
      (l : HyperLaws w) (head body : List ℕ) (trailers : Option w.Headers) (c : Codec w)
      → serialize_head_and_body w head body trailers c ≡ in_pieces head body trailers c
  unfolding serialize_head_and_body serialize_data serialize_end serialize_trailers body_is_eof
      encode_body end_of_body
  serialize_head_and_body_lem l head [] trailers c = elim (Option-cases c.encoder) [
    | inl nobody ↦ rw (nobody, append-nil head) refl
    | inr (encoder, e) ↦ elim (Bool-cases (w.is_eof encoder)) [
      | inl eof ↦ rw (e, eof) refl
      | inr more ↦ rw (e, more, append-nil head) (ends head c encoder trailers)
    ]
  ]
  serialize_head_and_body_lem l head (x ∷ body) trailers c = elim (Option-cases c.encoder) [
    | inl nobody ↦ rw (nobody, append-nil head) refl
    | inr (encoder, e) ↦ elim (Bool-cases (w.is_eof encoder)) [
      | inl eof ↦ rw (e, eof) refl
      | inr more ↦
          let (next, framed) = w.encode encoder (x ∷ body) in
          rw (e, more, framed_is l encoder (x ∷ body)) (ends (head ++ framed.bytes) c next trailers)
    ]
  ]
