-- ===== src/H2/Reader/Bounds.antt =====
-- What the reader holds between two calls.
use httpunk.Prelude.{
  ℕ, zero, suc, ◌+◌, ◌<◌, ◌≡◌, subst, inl, inr, true, Option, none, List, ◌++◌, arith, Bool-cases,
  ltb, length, drop,
}
use httpunk.H1.Hyper.{h2_preface}
use httpunk.H2.Errors.{ok, err}
use httpunk.H2.Result.{OkHolds, then_result, pure, Result-cases}
use httpunk.H2.Wire.{Wire}
use httpunk.H2.Assembly.{header_len, Assembly, Event, decode_one, push}
use httpunk.H2.Assembly.Sizes.{Sized, decode_one-Sized}
use httpunk.H2.Reader.{waiting, Reader, next_frame, read_frames, drain, so_far, receive_frames}
use httpunk.H2.Reader.Cuts.{Split-cases, next_frame_lengths}
use httpunk.H2.Reader.Loop.{Batch}
use httpunk.H2.Reader.Pieces.{is_open, receive_frames_open, receive_frames_plain}
use httpunk.H2.Reader.Prefixes.{agrees}

waiting_short :
    (max_frame : ℕ) (buf : List ℕ)
    → next_frame max_frame buf ≡ waiting
    → length buf < header_len + max_frame
unfolding next_frame
waiting_short max_frame buf h = ground arith

module _ (w : Wire) where
  abbrev Drained : ℕ → ℕ → ℕ → Assembly w × List ℕ → Type 0
  Drained m k hl s = Sized w m k hl k s.0 × (next_frame m s.1 ≡ waiting)

  push_all-Drained :
      (m k hl : ℕ) (event : Option (Event w)) (r : Batch w)
      → OkHolds (Drained m k hl) r
      → OkHolds (Drained m k hl) (then_result r (λ out. pure (push w event out)))
  push_all-Drained m k hl event (s, ok fs) h = h
  push_all-Drained m k hl event (s, err e) h = h

  read_frames-Drained :
      (m k hl n : ℕ) (a : Assembly w) (buf : List ℕ)
      → length buf < n
      → Sized w m k hl k a
      → OkHolds (Drained m k hl) (read_frames w n (a, buf))
  unfolding read_frames
  read_frames-Drained m k hl zero a buf short h = elim short [ ]
  read_frames-Drained m k hl (suc n) a buf short h =
      let max_frame = a.limits.max_recv_frame_size in
      elim (Split-cases (next_frame max_frame buf)) [
        | inl stop ↦ rw (read_frames, stop) (h, subst (λ x. next_frame x buf ≡ waiting) h.0 stop)
        | inr (inl refused) ↦ rw (read_frames, refused) tt
        | inr (inr (frame, rest, cut)) ↦
            let less = (next_frame_lengths max_frame buf cut).1 in
            elim (Result-cases (decode_one w frame a).1) [
              | inr (x, failed) ↦ rw (read_frames, cut, failed) tt
              | inl (event, fine) ↦
                  rw (read_frames, cut, fine)
                    (push_all-Drained m k hl event
                      (read_frames w n ((decode_one w frame a).0, rest))
                      (read_frames-Drained m k hl n (decode_one w frame a).0 rest (omega arith)
                        (decode_one-Sized w m k hl k (omega arith) frame a h)))
            ]
      ]

  -- At most `m` bytes of payload are accepted in one frame, and `k` CONTINUATION frames in one
  -- header block: the buffer has no whole frame, and the preface is not in yet or is gone.
  pub record IsBounded (m k hl : ℕ) (d : Reader w) : Type 0 where
    pub sized : Sized w m k hl k d.assembly
    pub stopped : next_frame m d.buf ≡ waiting
    pub short : length d.buf < header_len + m
    pub preface : length (so_far w d.preface_buf) < length h2_preface

  drain-IsBounded :
      (m k hl : ℕ) (d : Reader w)
      → Sized w m k hl k d.assembly
      → length (so_far w d.preface_buf) < length h2_preface
      → OkHolds (IsBounded m k hl) (drain w d)
  unfolding drain
  drain-IsBounded m k hl d h p =
      around (read_frames w (suc (length d.buf)) (d.assembly, d.buf))
        (read_frames-Drained m k hl (suc (length d.buf)) d.assembly d.buf (omega arith) h)
    where
      around :
          (r : Batch w)
          → OkHolds (Drained m k hl) r
          → OkHolds (IsBounded m k hl) (record d { assembly = r.0.0; buf = r.0.1 }, r.1)
      around (s, ok fs) q = record {
        sized = q.0;
        stopped = q.1;
        short = waiting_short m s.1 q.1;
        preface = p;
      }
      around (s, err e) q = tt

  -- A call of `receive_frames` that returns frames leaves no whole frame behind, keeps the cap on
  -- CONTINUATION frames, and keeps fewer bytes of the preface than it has; so that, between two
  -- calls, the buffer is below one frame of the accepted size.
  pub receive_frames-IsBounded :
      (m k hl : ℕ) (bytes : List ℕ) (d : Reader w)
      → IsBounded m k hl d
      → OkHolds (IsBounded m k hl) (receive_frames w bytes d)
  receive_frames-IsBounded m k hl bytes d h = elim (Bool-cases (is_open w d)) [
    | inr plain ↦
        rw (receive_frames_plain w bytes d plain)
          (drain-IsBounded m k hl (record d { buf = d.buf ++ bytes }) h.sized h.preface)
    | inl opening ↦
        let full = so_far w d.preface_buf ++ bytes in
        rw (receive_frames_open w bytes d opening) (elim (Bool-cases (agrees full h2_preface)) [
          | inr off ↦ rw off tt
          | inl on ↦ elim (Bool-cases (ltb (length full) (length h2_preface))) [
            | inl short ↦
                rw (on, short)
                  (record {
                    sized = h.sized;
                    stopped = h.stopped;
                    short = h.short;
                    preface = ground arith;
                  })
            | inr complete ↦
                rw (on, complete)
                  (drain-IsBounded m k hl
                    (record d {
                      preface_buf = none;
                      buf = d.buf ++ drop (length h2_preface) full;
                      preface_ok = true;
                    })
                    h.sized (omega arith))
          ]
        ])
  ]
