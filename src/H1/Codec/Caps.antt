-- ===== src/H1/Codec/Caps.antt =====
-- The head parse: its loop ends, and an incomplete head stays below the limits.
use httpunk.Prelude.{
  take, drop, length-drop, ℕ, zero, suc, ◌<◌, ◌≡◌, true, false, Option, none, some, List, ◌++◌,
  arith, leb, length, length-append, Bool-cases, inl, inr,
}
use httpunk.H1.Hyper.{Hyper, Result, ok, err, ParsedRequest, ParsedHead}
use httpunk.H1.Codec.{
  Codec, Options, Outcome, incomplete, complete, failed, unfinished, checked, bounded_parse,
  parse_head, reaches, is_incomplete, receive_request_head, finish_request, parse_request_with,
  parse_response_with, receive_head, finish_response,
}

-- The parse has an outcome, and a head that is still incomplete is below both limits.
abbrev pub Bounded : {w : Hyper} {A : Type 0} → Options w → List ℕ × Outcome w.Failure A → Type 0
Bounded o (buf, incomplete) =
    (reaches o.max_header_size (length buf) ≡ false) × (length buf < o.max_buf_size)
Bounded o (buf, complete a) = Unit
Bounded o (buf, failed e) = Unit
Bounded o (buf, unfinished) = ⊥

module _ (w : Hyper) where
  checked-Bounded :
      {A : Type 0} (o : Options w) (r : List ℕ × Result w.Failure (Option A))
      → Bounded o (checked w o r)
  unfolding checked
  checked-Bounded o (buf, ok none) = ground arith
  checked-Bounded o (buf, ok (some a)) = tt
  checked-Bounded o (buf, err e) = tt

  -- A round that goes on has taken a byte from the capped buffer.
  shrinks :
      {A : Type 0} (o : Options w) (r : List ℕ × Outcome w.Failure A) (buf : List ℕ)
      → Bounded o r
      → is_incomplete r.1 ≡ true
      → o.max_buf_size < length buf
      → length (r.0 ++ drop o.max_buf_size buf) < length buf
  shrinks o (head, incomplete) buf b i h =
      ground
        (arith, length-append head (drop o.max_buf_size buf), length-drop o.max_buf_size buf, b.1)
  shrinks o (head, complete a) buf b i h = cc
  shrinks o (head, failed e) buf b i h = cc
  shrinks o (head, unfinished) buf b i h = cc

  keeps_outcome :
      {A : Type 0} (o : Options w) (r : List ℕ × Outcome w.Failure A) (whole : List ℕ)
      → Bounded o r
      → is_incomplete r.1 ≡ false
      → Bounded o (whole, r.1)
  keeps_outcome o (head, incomplete) whole b i = cc
  keeps_outcome o (head, complete a) whole b i = tt
  keeps_outcome o (head, failed e) whole b i = tt
  keeps_outcome o (head, unfinished) whole b i = b

  bounded_parse-Bounded :
      {A : Type 0} (fuel : ℕ) (o : Options w)
      (parse : List ℕ → List ℕ × Result w.Failure (Option A)) (buf : List ℕ)
      → length buf < fuel
      → Bounded o (bounded_parse w fuel o parse buf)
  unfolding bounded_parse
  bounded_parse-Bounded zero o parse buf h = absurd (omega arith)
  bounded_parse-Bounded (suc fuel) o parse buf h =
      elim (Bool-cases (leb (length buf) o.max_buf_size)) [
        | inl fits ↦ rw fits (checked-Bounded o (parse buf))
        | inr long ↦
            let r = checked w o (parse (take o.max_buf_size buf)) in
            let b = checked-Bounded o (parse (take o.max_buf_size buf)) in
            elim (Bool-cases (is_incomplete r.1)) [
              | inl on ↦
                  rw (long, on)
                    (bounded_parse-Bounded fuel o parse (r.0 ++ drop o.max_buf_size buf)
                      (ground (arith, shrinks o r buf b on)))
              | inr off ↦ rw (long, off) (keeps_outcome o r (r.0 ++ drop o.max_buf_size buf) b off)
            ]
      ]

  -- Feeding bytes to the request parser always has an outcome, whatever hyper's parser does, and a
  -- head that is still incomplete is then below both limits.
  pub receive_request_head-Bounded :
      (bytes : List ℕ) (c : Codec w)
      → Bounded c.options
          ((receive_request_head w bytes c).0.buf, (receive_request_head w bytes c).1)
  unfolding receive_request_head finish_request
  receive_request_head-Bounded bytes c =
      go (parse_head w c.options (parse_request_with w c.options) (c.buf ++ bytes)) (
        bounded_parse-Bounded (suc (length (c.buf ++ bytes))) c.options
          (parse_request_with w c.options) (c.buf ++ bytes) (omega arith))
    where
      go :
          (r : List ℕ × Outcome w.Failure (ParsedRequest w.Method w.Headers w.Target))
          → Bounded c.options r
          → let (c', outcome) = finish_request w (record c { buf = r.0 }) r.1 in
            Bounded c.options (c'.buf, outcome)
      go (buf, incomplete) b = b
      go (buf, complete p) b = tt
      go (buf, failed e) b = tt
      go (buf, unfinished) b = b

  pub receive_head-Bounded :
      (bytes : List ℕ) (c : Codec w)
      → Bounded c.options ((receive_head w bytes c).0.buf, (receive_head w bytes c).1)
  unfolding receive_head finish_response
  receive_head-Bounded bytes c =
      go (parse_head w c.options (parse_response_with w c.options c.req_method) (c.buf ++ bytes)) (
        bounded_parse-Bounded (suc (length (c.buf ++ bytes))) c.options
          (parse_response_with w c.options c.req_method) (c.buf ++ bytes) (omega arith))
    where
      go :
          (r : List ℕ × Outcome w.Failure (ParsedHead w.Headers))
          → Bounded c.options r
          → let (c', outcome) = finish_response w (record c { buf = r.0 }) r.1 in
            Bounded c.options (c'.buf, outcome)
      go (buf, incomplete) b = b
      go (buf, complete p) b = tt
      go (buf, failed e) b = tt
      go (buf, unfinished) b = b
