-- ===== src/H2/Reader/Pieces.antt =====
-- Bytes that arrive in pieces.
use httpunk.Prelude.{
  ℕ, suc, ◌≤◌, ◌≡◌, refl, sym, ap, ◌∙◌, inl, inr, Bool, true, false, not, ◌&&◌, none, some, List,
  [], ◌∷◌, ◌++◌, arith, Bool-cases, ltb, length, drop, drop-append, if◌then◌else◌,
}
use mathlib.Core.List.{append_assoc, append-nil}
use httpunk.H1.Hyper.{h2_preface}
use httpunk.H2.Reason
use httpunk.H2.Inner.Store.{protocol_err}
use httpunk.H2.Errors.{Result, ok, err}
use httpunk.H2.Result.{M, ◌>>=◌, then_result, pure, settled}
use httpunk.H2.Wire.{Wire}
use httpunk.H2.Assembly.{Event}
use httpunk.H2.Reader.{Reader, read_frames, drain, so_far, feed_preface, receive_frames}
use httpunk.H2.Reader.Loop
use httpunk.H2.Reader.Loop.{Batch, read_frames-append}
use httpunk.H2.Reader.Prefixes.{
  agrees, list_eq-agrees, agrees-append, agrees-append_long, later_than, shut_when_ok,
}

module _ (w : Wire) where
  -- The pieces one after the other, up to the first error.
  pub receive_all : List (List ℕ) → M (Reader w) (List (Event w))
  receive_all [] d = (d, ok [])
  receive_all (p ∷ ps) d = (receive_frames w p >>= λ fs. receive_all ps >>= λ gs. pure (fs ++ gs)) d

  abbrev pub concat : List (List ℕ) → List ℕ
  concat [] = []
  concat (p ∷ ps) = p ++ concat ps

  abbrev Seen : Type 0
  Seen = Result (Reader w × List (Event w))

  abbrev behind : List (Event w) → Seen → Seen
  behind fs (ok (d, gs)) = ok (d, fs ++ gs)
  behind fs (err e) = err e

  -- What a call left, with one more piece.
  abbrev go_on : List ℕ → Reader w × Result (List (Event w)) → Seen
  go_on more (d, ok fs) = behind fs (settled (receive_frames w more d))
  go_on more (d, err e) = err e

  abbrev pub is_open : Reader w → Bool
  is_open d = d.expect_preface && not d.preface_ok

  pub receive_frames_plain :
      (bytes : List ℕ) (d : Reader w)
      → is_open d ≡ false
      → receive_frames w bytes d ≡ drain w (record d { buf = d.buf ++ bytes })
  unfolding receive_frames
  receive_frames_plain bytes d h = rw (receive_frames, h)

  -- The reader around what its loop gave.
  abbrev lift : Reader w → Loop.Seen w → Seen
  lift d (ok ((a, buf), fs)) = ok (record d { assembly = a; buf = buf }, fs)
  lift d (err e) = err e

  abbrev around : Reader w → Batch w → Reader w × Result (List (Event w))
  around d ((a, buf), r) = (record d { assembly = a; buf = buf }, r)

  settled-around : (d : Reader w) (r : Batch w) → settled (around d r) ≡ lift d (settled r)
  settled-around d (s, ok fs) = refl
  settled-around d (s, err e) = refl

  lift-behind :
      (d : Reader w) (fs : List (Event w)) (r : Loop.Seen w)
      → lift d (Loop.behind w fs r) ≡ behind fs (lift d r)
  lift-behind d fs (ok (s, gs)) = refl
  lift-behind d fs (err e) = refl

  go_on-around :
      (d : Reader w) (more : List ℕ) (r : Batch w)
      → is_open d ≡ false
      → lift d (Loop.go_on w more r) ≡ go_on more (around d r)
  unfolding drain
  go_on-around d more ((a, buf), ok fs) h =
      let r = read_frames w (suc (length (buf ++ more))) (a, buf ++ more) in
      lift-behind d fs (settled r)
      ∙ ap (behind fs) (sym (settled-around d r))
      ∙ ap (λ (x : Reader w × Result (List (Event w))). behind fs (settled x))
          (sym (receive_frames_plain more (record d { assembly = a; buf = buf }) h))
  go_on-around d more (s, err e) h = refl

  drain-append :
      (d : Reader w) (more : List ℕ)
      → is_open d ≡ false
      → settled (drain w (record d { buf = d.buf ++ more })) ≡ go_on more (drain w d)
  unfolding drain
  drain-append d more h =
      let n = suc (length d.buf) in
      let m = suc (length (d.buf ++ more)) in
      settled-around d (read_frames w m (d.assembly, d.buf ++ more))
      ∙ ap (lift d) (read_frames-append w n m d.assembly d.buf more (omega arith) (omega arith))
      ∙ go_on-around d more (read_frames w n (d.assembly, d.buf)) h

  behind-nil : (r : Seen) → behind [] r ≡ r
  behind-nil (ok (d, gs)) = refl
  behind-nil (err e) = refl

  -- A call before the preface is complete, by all the bytes that came so far.
  abbrev pub while_open : List ℕ → Reader w → Reader w × Result (List (Event w))
  while_open full d =
      if not (agrees full h2_preface)
      then (record d { preface_buf = some full }, err (protocol_err Reason.protocol_error))
      else (if ltb (length full) (length h2_preface)
          then (record d { preface_buf = some full }, ok [])
          else drain w (record d {
            preface_buf = none;
            buf = d.buf ++ drop (length h2_preface) full;
            preface_ok = true;
          }))

  pub receive_frames_open :
      (bytes : List ℕ) (d : Reader w)
      → is_open d ≡ true
      → receive_frames w bytes d ≡ while_open (so_far w d.preface_buf ++ bytes) d
  unfolding receive_frames feed_preface
  receive_frames_open bytes d h =
      let full = so_far w d.preface_buf ++ bytes in
      let same = list_eq-agrees full h2_preface in
      elim (Bool-cases (agrees full h2_preface)) [
        | inr off ↦ rw (receive_frames, h, same, off, feed_preface, same, off)
        | inl on ↦ elim (Bool-cases (ltb (length full) (length h2_preface))) [
          | inl short ↦ rw (receive_frames, h, same, on, short, feed_preface, same, on, short)
          | inr complete ↦
              rw (receive_frames, h, same, on, complete, feed_preface, same, on, complete)
        ]
      ]

  while_open-append :
      (full ys : List ℕ) (d : Reader w)
      → is_open d ≡ true
      → settled (while_open (full ++ ys) d) ≡ go_on ys (while_open full d)
  while_open-append full ys d h = elim (Bool-cases (agrees full h2_preface)) [
    | inr off ↦ rw (off, agrees-append full ys h2_preface off)
    | inl on ↦ elim (Bool-cases (ltb (length full) (length h2_preface))) [
      | inl short ↦
          rw (on, short)
            (sym (behind-nil (settled (while_open (full ++ ys) d)))
              ∙ ap (λ (r : Reader w × Result (List (Event w))). behind [] (settled r))
                  (sym (receive_frames_open ys (record d { preface_buf = some full }) h)))
      | inr complete ↦
          let all_in : length h2_preface ≤ length full = ground arith in
          let d' = record d {
            preface_buf = none;
            buf = d.buf ++ drop (length h2_preface) full;
            preface_ok = true;
          } in
          rw (on, complete, agrees-append_long full ys h2_preface all_in)
            (rw
              (
                later_than full ys complete,
                on,
                drop-append (length h2_preface) full ys all_in,
                sym (append_assoc d.buf (drop (length h2_preface) full) ys),
              )
              (drain-append d' ys (shut_when_ok d.expect_preface)))
    ]
  ]

  -- One call on both pieces is a call on each.
  receive_frames-append :
      (xs ys : List ℕ) (d : Reader w)
      → settled (receive_frames w (xs ++ ys) d) ≡ go_on ys (receive_frames w xs d)
  receive_frames-append xs ys d = elim (Bool-cases (is_open d)) [
    | inl opening ↦
        let full = so_far w d.preface_buf in
        rw
          (
            receive_frames_open (xs ++ ys) d opening,
            receive_frames_open xs d opening,
            sym (append_assoc full xs ys),
          )
          (while_open-append (full ++ xs) ys d opening)
    | inr plain ↦
        rw
          (
            receive_frames_plain (xs ++ ys) d plain,
            receive_frames_plain xs d plain,
            sym (append_assoc d.buf xs ys),
          )
          (drain-append (record d { buf = d.buf ++ xs }) ys plain)
  ]

  go_on_then :
      (fs : List (Event w)) (r : Reader w × Result (List (Event w)))
      → settled (then_result r (λ gs. pure (fs ++ gs))) ≡ behind fs (settled r)
  go_on_then fs (d, ok gs) = refl
  go_on_then fs (d, err e) = refl

  then_all :
      (q : List ℕ) (qs : List (List ℕ)) (r : Reader w × Result (List (Event w)))
      → ((d : Reader w)
          → settled (receive_all (q ∷ qs) d) ≡ settled (receive_frames w (concat (q ∷ qs)) d))
      → settled (then_result r (λ fs. receive_all (q ∷ qs) >>= λ gs. pure (fs ++ gs)))
        ≡ go_on (concat (q ∷ qs)) r
  then_all q qs (d, ok fs) ih = go_on_then fs (receive_all (q ∷ qs) d) ∙ ap (behind fs) (ih d)
  then_all q qs (d, err e) ih = refl

  alone :
      (r : Reader w × Result (List (Event w)))
      → settled (then_result r (λ fs. pure [] >>= λ gs. pure (fs ++ gs))) ≡ settled r
  alone (d, ok fs) = rw (append-nil fs)
  alone (d, err e) = refl

  -- Bytes that arrive in pieces, however they are cut and with the client's preface among them,
  -- give the frames, the error and the decoder that they give at once; but an error at once drops
  -- the frames before it.
  pub receive_all-concat :
      (p : List ℕ) (ps : List (List ℕ)) (d : Reader w)
      → settled (receive_all (p ∷ ps) d) ≡ settled (receive_frames w (concat (p ∷ ps)) d)
  unfolding receive_all
  receive_all-concat p [] d = rw (append-nil p) (alone (receive_frames w p d))
  receive_all-concat p (q ∷ qs) d =
      then_all q qs (receive_frames w p d) (λ d'. receive_all-concat q qs d')
      ∙ sym (receive_frames-append p (concat (q ∷ qs)) d)
