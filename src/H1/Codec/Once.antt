-- ===== src/H1/Codec/Once.antt =====
-- A request head is parsed once: the loop agrees with one parse of the capped buffer.
use httpunk.Prelude.{
  take, drop, length-take, take-all, drop-all, ℕ, ◌≡◌, refl, false, Option, none, some, List, [],
  ◌∷◌, ◌++◌, arith, leb, length, Bool-cases, inl, inr, ap, ◌∙◌,
}
use httpunk.H1.Hyper.{Hyper, HyperLaws, Result, ok, err}
use httpunk.H1.Codec.{
  Codec, Options, Outcome, checked, bounded_parse, parse_head, is_incomplete, receive_request_head,
  finish_request, parse_request_with,
}

module _ (w : Hyper) where
  -- One parse of what the cap lets through, with the unread rest behind it.
  abbrev pub parse_once :
      {A : Type 0}
      → Options w
      → (List ℕ → List ℕ × Result w.Failure (Option A))
      → List ℕ
      → List ℕ × Outcome w.Failure A
  parse_once o parse buf =
      let (head, outcome) = checked w o (parse (take o.max_buf_size buf)) in
      (head ++ drop o.max_buf_size buf, outcome)

  -- A full capped buffer without a complete head is too large.
  full_is_over :
      {A : Type 0} (o : Options w) (r : List ℕ × Result w.Failure (Option A))
      → (r.1 ≡ ok none → length r.0 ≡ o.max_buf_size)
      → is_incomplete (checked w o r).1 ≡ false
  unfolding checked
  full_is_over o (buf, ok none) h = ground (arith, h refl)
  full_is_over o (buf, ok (some a)) h = refl
  full_is_over o (buf, err e) h = refl

  append-nil : (xs : List ℕ) → xs ++ [] ≡ xs
  append-nil [] = refl
  append-nil (x ∷ xs) = rw (append-nil xs) refl

  parse_head_once :
      {A : Type 0} (o : Options w) (parse : List ℕ → List ℕ × Result w.Failure (Option A))
      → ((buf : List ℕ) → (parse buf).1 ≡ ok none → (parse buf).0 ≡ buf)
      → (buf : List ℕ) → parse_head w o parse buf ≡ parse_once o parse buf
  unfolding bounded_parse
  parse_head_once o parse still buf = elim (Bool-cases (leb (length buf) o.max_buf_size)) [
    | inl fits ↦
        rw
          (
            fits,
            take-all o.max_buf_size buf (ground (arith, fits)),
            drop-all o.max_buf_size buf (ground (arith, fits)),
            append-nil (checked w o (parse buf)).0,
          )
          refl
    | inr long ↦
        let n = length-take o.max_buf_size buf (ground (arith, long)) in
        let off =
          full_is_over o (parse (take o.max_buf_size buf))
            (λ e. ap length (still (take o.max_buf_size buf) e) ∙ n) in
        rw (long, off) refl
  ]

  -- For bytes fed to the request parser, its loop comes to one parse of the buffer's first
  -- `max_buf_size` bytes, checked against the limits, with the bytes behind them left unread.
  pub receive_request_head_once :
      (l : HyperLaws w) (bytes : List ℕ) (c : Codec w)
      → receive_request_head w bytes c ≡ (
          let (buf, outcome) =
            parse_once c.options (parse_request_with w c.options) (c.buf ++ bytes) in
          finish_request w (record c { buf = buf }) outcome)
  unfolding receive_request_head
  receive_request_head_once l bytes c =
      rw
        (parse_head_once c.options (parse_request_with w c.options)
          (λ buf e.
            l.incomplete_request c.options.parser_config c.options.max_headers
              c.options.max_header_size buf e)
          (c.buf ++ bytes))
        refl
