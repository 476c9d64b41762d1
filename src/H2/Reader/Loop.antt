-- ===== src/H2/Reader/Loop.antt =====
-- The reader's loop: enough fuel is enough, and bytes that come later are read as if they had been
-- there.
use httpunk.Prelude.{
  ℕ, zero, suc, ◌<◌, ◌≡◌, refl, sym, ap, ◌∙◌, inl, inr, Option, none, some, List, [], ◌++◌, arith,
  length, length-append,
}
use httpunk.H2.Errors.{Result, ok, err}
use httpunk.H2.Result.{then_result, pure, settled, Result-cases}
use httpunk.H2.Wire.{Wire}
use httpunk.H2.Assembly.{Assembly, Event, decode_one, push}
use httpunk.H2.Reader.{next_frame, read_frames}
use httpunk.H2.Reader.Cuts.{
  Split-cases, next_frame_lengths, next_frame_whole-append, next_frame_over_size-append,
}

module _ (w : Wire) where
  abbrev pub Batch : Type 0
  Batch = (Assembly w × List ℕ) × Result (List (Event w))

  pub read_frames_fuel :
      (n m : ℕ) (a : Assembly w) (buf : List ℕ)
      → length buf < n
      → length buf < m
      → read_frames w n (a, buf) ≡ read_frames w m (a, buf)
  unfolding read_frames
  read_frames_fuel zero m a buf h k = elim h [ ]
  read_frames_fuel (suc n) zero a buf h k = elim k [ ]
  read_frames_fuel (suc n) (suc m) a buf h k =
      elim (Split-cases (next_frame a.limits.max_recv_frame_size buf)) [
        | inl stop ↦ rw (read_frames, stop)
        | inr (inl refused) ↦ rw (read_frames, refused)
        | inr (inr (frame, rest, cut)) ↦
            let less = (next_frame_lengths a.limits.max_recv_frame_size buf cut).1 in
            elim (Result-cases (decode_one w frame a).1) [
              | inr (x, failed) ↦ rw (read_frames, cut, failed)
              | inl (event, fine) ↦
                  rw (read_frames, cut, fine)
                    (ap (λ (r : Batch). then_result r (λ out. pure (push w event out)))
                      (read_frames_fuel n m (decode_one w frame a).0 rest (omega arith)
                        (omega arith)))
            ]
      ]

  abbrev pub Seen : Type 0
  Seen = Result ((Assembly w × List ℕ) × List (Event w))

  abbrev pub behind : List (Event w) → Seen → Seen
  behind fs (ok (s, gs)) = ok (s, fs ++ gs)
  behind fs (err e) = err e

  pub behind-nil : (r : Seen) → behind [] r ≡ r
  behind-nil (ok (s, gs)) = refl
  behind-nil (err e) = refl

  -- More bytes come behind what a batch left in the buffer.
  abbrev pub go_on : List ℕ → Batch → Seen
  go_on more ((a, buf), ok fs) =
      behind fs (settled (read_frames w (suc (length (buf ++ more))) (a, buf ++ more)))
  go_on more (s, err e) = err e

  abbrev pushed : Option (Event w) → Seen → Seen
  pushed event (ok (s, fs)) = ok (s, push w event fs)
  pushed event (err e) = err e

  abbrev push_all : Option (Event w) → Batch → Batch
  push_all event r = then_result r (λ out. pure (push w event out))

  settled-push_all :
      (event : Option (Event w)) (r : Batch) → settled (push_all event r) ≡ pushed event (settled r)
  settled-push_all event (s, ok fs) = refl
  settled-push_all event (s, err e) = refl

  behind-push :
      (event : Option (Event w)) (fs : List (Event w)) (r : Seen)
      → behind (push w event fs) r ≡ pushed event (behind fs r)
  behind-push none fs (ok (s, gs)) = refl
  behind-push (some e) fs (ok (s, gs)) = refl
  behind-push event fs (err x) = refl

  go_on-push_all :
      (more : List ℕ) (event : Option (Event w)) (r : Batch)
      → go_on more (push_all event r) ≡ pushed event (go_on more r)
  go_on-push_all more event ((a, buf), ok fs) =
      behind-push event fs (settled (read_frames w (suc (length (buf ++ more))) (a, buf ++ more)))
  go_on-push_all more event (s, err e) = refl

  pub read_frames-append :
      (n m : ℕ) (a : Assembly w) (buf more : List ℕ)
      → length buf < n
      → length (buf ++ more) < m
      → settled (read_frames w m (a, buf ++ more)) ≡ go_on more (read_frames w n (a, buf))
  unfolding read_frames
  read_frames-append zero m a buf more h p = elim h [ ]
  read_frames-append (suc n) zero a buf more h p = elim p [ ]
  read_frames-append (suc n) (suc m) a buf more h p =
      let max_frame = a.limits.max_recv_frame_size in
      elim (Split-cases (next_frame max_frame buf)) [
        | inl stop ↦
            ap settled (
              read_frames_fuel (suc m) (suc (length (buf ++ more))) a (buf ++ more) p (omega arith))
            ∙ rw (read_frames, stop)
                (sym (
                  behind-nil
                    (settled (read_frames w (suc (length (buf ++ more))) (a, buf ++ more)))))
        | inr (inl refused) ↦
            rw (read_frames, refused, next_frame_over_size-append max_frame buf more refused)
        | inr (inr (frame, rest, cut)) ↦
            let less = (next_frame_lengths max_frame buf cut).1 in
            let cut' = next_frame_whole-append max_frame buf more cut in
            elim (Result-cases (decode_one w frame a).1) [
              | inr (x, failed) ↦ rw (read_frames, cut, cut', failed)
              | inl (event, fine) ↦
                  let a' = (decode_one w frame a).0 in
                  let ih =
                    read_frames-append n m a' rest more (omega arith)
                      (omega (arith, length-append rest more, length-append buf more)) in
                  rw (read_frames, cut, cut', fine)
                    (settled-push_all event (read_frames w m (a', rest ++ more))
                      ∙ ap (pushed event) ih
                      ∙ sym (go_on-push_all more event (read_frames w n (a', rest))))
            ]
      ]
