-- ===== src/H2/Inner/Reset/Aborts.antt =====
-- Aborts and the failure of a connection.
use httpunk.Prelude.{
  ℕ, ◌≡◌, refl, sym, ◌∙◌, ap, true, false, Option, none, some, List, [], ◌∷◌, arith, Option-cases,
  Bool-cases, inl, inr, if◌then◌else◌,
}
use httpunk.Prelude.Map.{
  lookup, insert, remove, lookup-insert_self, lookup-remove_self, remove-insert, remove_absent,
  remove-cons_self, lookup-cons_self, Distinct, keys, remove_each, remove_each-keys,
}
use httpunk.H2.Vendor.{Vendor, VendorLaws}
use httpunk.H2.Inner.{StreamEntry, Inner, Stopped}
use httpunk.H2.Inner.Entry.{stopped}
use httpunk.H2.Inner.Invariant.{IsValid, update-StoreValid, remove-StoreValid, empty-StoreValid}
use httpunk.H2.Inner.Store.{close_stream}
use httpunk.H2.Inner.Store.Valid.{close_stream-IsValid, close_stream_streams, close_stream_skips}
use httpunk.H2.Inner.Reset.{aborted_entry, abort_stream, abort_each, fail_all}

module _ (v : Vendor) (l : VendorLaws v) where
  aborted_closed :
      (sid : ℕ) (reason : Option ℕ) (e : StreamEntry v)
      → v.is_closed (aborted_entry v sid reason e).state ≡ true
  aborted_closed sid none e = l.recv_eof_closed e.state
  aborted_closed sid (some r) e = l.handle_error_closed _ e.state

  module _ (s : Inner v) (sid : ℕ) (reason : Option ℕ) (e : StreamEntry v) where
    abbrev aborting : Inner v
    aborting = record s { streams = insert sid (aborted_entry v sid reason e) s.streams }

    aborting_skips : e.finished ≡ true → (close_stream v aborting sid).0 ≡ aborting
    aborting_skips f =
        close_stream_skips v aborting sid (aborted_entry v sid reason e)
          (lookup-insert_self sid _ s.streams) (ground (arith, aborted_closed sid reason e))

    aborting_streams :
        e.finished ≡ false → (close_stream v aborting sid).0.streams ≡ remove sid s.streams
    aborting_streams f =
        close_stream_streams v aborting sid (aborted_entry v sid reason e)
          (lookup-insert_self sid _ s.streams) (aborted_closed sid reason e) f
        ∙ remove-insert sid _ s.streams

  -- An abort leaves the store without the stream and every other stream as it was, whatever the
  -- stream's state.
  pub abort_stream_streams :
      (s : Inner v) (sid : ℕ) (reason : Option ℕ)
      → (abort_stream v s sid reason).0.streams ≡ remove sid s.streams
  unfolding abort_stream
  abort_stream_streams s sid reason = elim (Option-cases (lookup sid s.streams)) [
    | inl e ↦ rw (e, abort_stream) (sym (remove_absent sid s.streams e))
    | inr (e, p) ↦
        rw (p, abort_stream)
          (elim (Bool-cases e.finished) [
            | inl old ↦
                rw (aborting_skips s sid reason e old)
                  (remove-insert sid (aborted_entry v sid reason e) s.streams)
            | inr live ↦
                rw (aborting_streams s sid reason e live)
                  (remove_absent sid (remove sid s.streams) (lookup-remove_self sid s.streams))
          ])
  ]

  abort_stream_told :
      (s : Inner v) (sid : ℕ) (reason : Option ℕ) (e : StreamEntry v)
      → lookup sid s.streams ≡ some e
      → (abort_stream v s sid reason).1 ≡ (
          if v.is_closed e.state
          then none
          else some (e.handle, stopped v (aborted_entry v sid reason e)))
  unfolding abort_stream
  abort_stream_told s sid reason e p = rw (p, abort_stream)

  pub abort_stream-IsValid :
      (s : Inner v) (sid : ℕ) (reason : Option ℕ)
      → IsValid v s
      → IsValid v (abort_stream v s sid reason).0
  unfolding abort_stream
  abort_stream-IsValid s sid reason h = elim (Option-cases (lookup sid s.streams)) [
    | inl e ↦ rw (e, abort_stream) h
    | inr (e, p) ↦
        rw (p, abort_stream)
          (elim (Bool-cases e.finished) [
            | inl old ↦
                rw
                  (
                    aborting_skips s sid reason e old,
                    remove-insert sid (aborted_entry v sid reason e) s.streams,
                  )
                  (remove-StoreValid v h sid e p old)
            | inr live ↦
                let t = aborting s sid reason e in
                let closed = close_stream-IsValid v t sid (
                  update-StoreValid v h sid e (aborted_entry v sid reason e) _ _ _ _ p
                    (ground arith) (ground arith) (ground (arith, h.entries sid))
                    (λ j n. omega arith)) in
                let gone : lookup sid (close_stream v t sid).0.streams ≡ none =
                  rw (aborting_streams s sid reason e live) (lookup-remove_self sid s.streams) in
                rw (remove_absent sid (close_stream v t sid).0.streams gone) closed
          ])
  ]

  pub abort_each-IsValid :
      (s : Inner v) (reason : Option ℕ) (ids : List ℕ)
      → IsValid v s
      → IsValid v (abort_each v s reason ids).0
  unfolding abort_each
  abort_each-IsValid s reason [] h = h
  abort_each-IsValid s reason (sid ∷ ids) h =
      abort_each-IsValid (abort_stream v s sid reason).0 reason ids
        (abort_stream-IsValid s sid reason h)

  pub abort_each_streams :
      (s : Inner v) (reason : Option ℕ) (ids : List ℕ)
      → (abort_each v s reason ids).0.streams ≡ remove_each ids s.streams
  unfolding abort_each remove_each
  abort_each_streams s reason [] = refl
  abort_each_streams s reason (sid ∷ ids) =
      abort_each_streams (abort_stream v s sid reason).0 reason ids
      ∙ ap (remove_each ids) (abort_stream_streams s sid reason)

  fail_all_streams : (s : Inner v) → (fail_all v s).0.streams ≡ []
  unfolding fail_all
  fail_all_streams s = abort_each_streams s none (keys s.streams) ∙ remove_each-keys s.streams

  pub fail_all-IsValid : (s : Inner v) → IsValid v s → IsValid v (fail_all v s).0
  unfolding fail_all
  fail_all-IsValid s h = abort_each-IsValid s none (keys s.streams) h

  -- The streams that were not closed, each with the stop that its readers see.
  pub victims : List (ℕ × StreamEntry v) → List (ℕ × Stopped)
  victims [] = []
  victims ((sid, e) ∷ m) =
      if v.is_closed e.state
      then victims m
      else (e.handle, stopped v (aborted_entry v sid none e)) ∷ victims m

  abort_each-victims :
      (s : Inner v) (m : List (ℕ × StreamEntry v))
      → s.streams ≡ m
      → Distinct m
      → (abort_each v s none (keys m)).1 ≡ victims m
  unfolding abort_each victims
  abort_each-victims s [] q d = refl
  abort_each-victims s ((sid, e) ∷ m) q d =
      let next : (abort_stream v s sid none).0.streams ≡ m =
        abort_stream_streams s sid none ∙ ap (remove sid) q ∙ remove-cons_self sid e m d.0 in
      rw
        (
          abort_each-victims (abort_stream v s sid none).0 m next d.1,
          abort_stream_told s sid none e (rw q (lookup-cons_self sid e m)),
        )
        (ground arith)

  -- From a well-formed state a connection failure empties the store and both queues, no stream is
  -- counted as active any more, and exactly the streams that were not closed are told, each once.
  pub fail_all_lem :
      (s : Inner v)
      → IsValid v s
      → let (s', told) = fail_all v s in
        (s'.streams ≡ [])
        × (s'.num_active ≡ 0)
        × (s'.pending_send ≡ [])
        × (s'.pending_capacity ≡ [])
        × (told ≡ victims s.streams)
  fail_all_lem s h =
      let (a, p, c) = empty-StoreValid v _ _ _ _ _ (fail_all-IsValid s h) (fail_all_streams s) in
      (
        fail_all_streams s,
        a,
        p,
        c,
        unfold fail_all in abort_each-victims s s.streams refl h.distinct,
      )
