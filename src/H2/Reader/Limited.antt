-- ===== src/H2/Reader/Limited.antt =====
-- Nothing that is received changes the limits, but for the size updates that HPACK takes.
use httpunk.Prelude.{
  ℕ, zero, suc, ◌≡◌, refl, inl, inr, max, Bool, none, List, ◌++◌, arith, Bool-cases, Option-cases,
  true, ltb, length, drop, Option,
}
use httpunk.H1.Hyper.{h2_preface}
use httpunk.H2.Errors.{ok, err}
use httpunk.H2.Result.{then_result, pure, Result-cases}
use httpunk.H2.Decoder.Bounds.{IsValid}
use httpunk.H2.Wire.{Wire}
use httpunk.H2.Assembly.{Assembly, Event, decode_one, push}
use httpunk.H2.Assembly.Sizes.{pending_count, decode_one-Sized}
use httpunk.H2.Reader.{
  Reader, new, next_frame, read_frames, drain, so_far, feed_preface, receive_frames, prime,
}
use httpunk.H2.Reader.Cuts.{Split-cases}
use httpunk.H2.Reader.Loop.{Batch}
use httpunk.H2.Reader.Pieces.{is_open, receive_frames_open, receive_frames_plain, while_open}
use httpunk.H2.Reader.Prefixes.{agrees}

module _ (w : Wire) where
  pub new-limits : (expect_preface : Bool) → IsValid (new w expect_preface).assembly.limits
  unfolding new
  new-limits expect_preface = record { frame_size = omega arith; cap = refl }

  decode_one-limits :
      (frame : List ℕ) (a : Assembly w) → IsValid a.limits → IsValid (decode_one w frame a).0.limits
  decode_one-limits frame a h =
      let d = a.limits in
      let b = max d.max_continuation_frames (pending_count w a.partial) in
      let (m, k, _, hl) =
        decode_one-Sized w d.max_recv_frame_size d.max_continuation_frames d.max_header_list_size b
          (omega arith) frame a (refl, refl, omega arith, refl) in
      record { frame_size = rw m h.frame_size; cap = rw (m, k, hl) h.cap }

  push_all-limits :
      (event : Option (Event w)) (r : Batch w)
      → IsValid r.0.0.limits
      → IsValid (then_result r (λ out. pure (push w event out))).0.0.limits
  push_all-limits event (s, ok fs) h = h
  push_all-limits event (s, err e) h = h

  read_frames-limits :
      (n : ℕ) (a : Assembly w) (buf : List ℕ)
      → IsValid a.limits
      → IsValid (read_frames w n (a, buf)).0.0.limits
  unfolding read_frames
  read_frames-limits zero a buf h = h
  read_frames-limits (suc n) a buf h =
      elim (Split-cases (next_frame a.limits.max_recv_frame_size buf)) [
        | inl stop ↦ rw (read_frames, stop) h
        | inr (inl refused) ↦ rw (read_frames, refused) h
        | inr (inr (frame, rest, cut)) ↦
            let kept = decode_one-limits frame a h in
            elim (Result-cases (decode_one w frame a).1) [
              | inr (x, failed) ↦ rw (read_frames, cut, failed) kept
              | inl (event, fine) ↦
                  rw (read_frames, cut, fine)
                    (push_all-limits event (read_frames w n ((decode_one w frame a).0, rest))
                      (read_frames-limits n (decode_one w frame a).0 rest kept))
            ]
      ]

  drain-limits : (d : Reader w) → IsValid d.assembly.limits → IsValid (drain w d).0.assembly.limits
  unfolding drain
  drain-limits d h = read_frames-limits (suc (length d.buf)) d.assembly d.buf h

  while_open-limits :
      (full : List ℕ) (d : Reader w)
      → IsValid d.assembly.limits
      → IsValid (while_open w full d).0.assembly.limits
  while_open-limits full d h = elim (Bool-cases (agrees full h2_preface)) [
    | inr off ↦ rw off h
    | inl on ↦ elim (Bool-cases (ltb (length full) (length h2_preface))) [
      | inl short ↦ rw (on, short) h
      | inr complete ↦
          rw (on, complete)
            (drain-limits
              (record d {
                preface_buf = none;
                buf = d.buf ++ drop (length h2_preface) full;
                preface_ok = true;
              })
              h)
    ]
  ]

  pub receive_frames-limits :
      (bytes : List ℕ) (d : Reader w)
      → IsValid d.assembly.limits
      → IsValid (receive_frames w bytes d).0.assembly.limits
  receive_frames-limits bytes d h = elim (Bool-cases (is_open w d)) [
    | inr plain ↦
        rw (receive_frames_plain w bytes d plain)
          (drain-limits (record d { buf = d.buf ++ bytes }) h)
    | inl opening ↦
        rw (receive_frames_open w bytes d opening)
          (while_open-limits (so_far w d.preface_buf ++ bytes) d h)
  ]

  feed_preface_assembly :
      (bytes : List ℕ) (d : Reader w) → (feed_preface w bytes d).0.assembly ≡ d.assembly
  unfolding feed_preface
  feed_preface_assembly bytes d = ground arith

  pub prime-limits :
      (bytes : List ℕ) (d : Reader w)
      → IsValid d.assembly.limits
      → IsValid (prime w bytes d).0.assembly.limits
  unfolding prime
  prime-limits bytes d h =
      let fed : IsValid (feed_preface w bytes d).0.assembly.limits =
        rw (feed_preface_assembly bytes d) h in
      elim (Bool-cases (is_open w d)) [
        | inr plain ↦ rw (prime, plain) h
        | inl opening ↦ elim (Option-cases (feed_preface w bytes d).1) [
          | inl more ↦ rw (prime, opening, more) fed
          | inr (matched, verdict) ↦ elim (Bool-cases matched) [
            | inl whole_preface ↦ rw (prime, opening, verdict, whole_preface) fed
            | inr mismatch ↦ rw (prime, opening, verdict, mismatch) fed
          ]
        ]
      ]
