-- ===== src/H2/Inner/Store/Closed.antt =====
-- What the close of a stream leaves, in the store and in the queues.
use httpunk.Prelude.{
  ◌==◌, ℕ, ◌≡◌, ◌≢◌, ◌∙◌, true, false, Bool, some, List, [], ◌∷◌, arith, count, Bool-cases, inl,
  inr, if◌then◌else◌, rest, is_front, count-without, subst, sym, refl, ap,
}
use httpunk.Prelude.Map.{lookup, insert, remove, insert_same, lookup-insert_self}
use httpunk.H2.Vendor.{Vendor}
use httpunk.H2.Inner.{StreamEntry, Inner}
use httpunk.H2.Inner.Invariant.{IsValid, EntryValid}
use httpunk.H2.Inner.Queues.Valid.{leave_queues_lem, left, unqueued}
use httpunk.H2.Inner.Window.{is_settled}
use httpunk.H2.Inner.Store.{close_stream, close_entry, retire, retiring}
use httpunk.H2.Inner.Store.Valid.{
  left_own, close_stream_streams, close_stream_skips, retired, on_stream_gone-SameStore,
}

count-rest_ne :
    (sid j : ℕ) (q : List ℕ) → j ≢ sid → is_front sid q ≡ true → count j (rest q) ≡ count j q
count-rest_ne sid j [] n h = cc
count-rest_ne sid j (x ∷ q) n h = ground (arith, n, h)

count-left_ne :
    (queued : Bool) (sid j : ℕ) (q : List ℕ) → j ≢ sid → count j (left queued sid q) ≡ count j q
count-left_ne queued sid j q n = ground (arith, count-rest_ne sid j q n, count-without sid j q)

module _ (v : Vendor) where
  retire_queues :
      (s : Inner v) (sid : ℕ) (e : StreamEntry v)
      → let t = (retire v s sid e).0 in
        (t.pending_send ≡ left e.is_pending_send sid s.pending_send)
        × (t.pending_capacity ≡ left e.is_pending_capacity sid s.pending_capacity)
  unfolding retire
  retire_queues s sid e =
      rw
        (leave_queues_lem v (retiring v s sid e) sid (retired v e)
          (lookup-insert_self sid _ s.streams))
        (elim (Bool-cases (is_settled v e)) [
          | inl gone ↦ rw gone (refl, refl)
          | inr kept ↦ rw kept (refl, refl)
        ])

  close_stream_queues :
      (s : Inner v) (sid : ℕ) (e : StreamEntry v)
      → lookup sid s.streams ≡ some e
      → v.is_closed e.state ≡ true
      → e.finished ≡ false
      → let t = (close_stream v s sid).0 in
        (t.pending_send ≡ left e.is_pending_send sid s.pending_send)
        × (t.pending_capacity ≡ left e.is_pending_capacity sid s.pending_capacity)
  unfolding close_stream close_entry
  close_stream_queues s sid e p c f =
      let same = on_stream_gone-SameStore v (retire v s sid e).0 in
      let queues = retire_queues s sid e in
      rw (p, close_stream, c, f) (same.3 ∙ queues.0, same.4 ∙ queues.1)

  -- A finished entry is as the close leaves it.
  unqueued-retired :
      (e : StreamEntry v)
      → e.finished ≡ true
      → e.is_pending_send ≡ false
      → e.is_pending_capacity ≡ false
      → e.holds_slot ≡ false
      → unqueued v (retired v e) ≡ e
  unqueued-retired e f sends waits slot = λ i. record e {
    finished = sym f i;
    holds_slot = sym slot i;
    is_pending_send = sym sends i;
    is_pending_capacity = sym waits i;
    turn_frames = if sends i then 0 else e.turn_frames;
  }

  -- What the close of a closed stream leaves: the store, and how often an id stands in the queues.
  abbrev pub Leaves : ℕ → StreamEntry v → Inner v → ℕ → Inner v → Type 0
  Leaves sid e s j t =
      (t.streams ≡ (
        if is_settled v e
        then remove sid s.streams
        else insert sid (unqueued v (retired v e)) s.streams))
      × (count j t.pending_send ≡ (if j == sid then 0 else count j s.pending_send))
      × (count j t.pending_capacity ≡ (if j == sid then 0 else count j s.pending_capacity))

  finished-Leaves :
      (s : Inner v) (sid : ℕ) (e : StreamEntry v) (j : ℕ)
      → IsValid v s
      → lookup sid s.streams ≡ some e
      → e.finished ≡ true
      → Leaves sid e s j s
  finished-Leaves s sid e j h p f =
      let entry : EntryValid v (some e) (count sid s.pending_send) (count sid s.pending_capacity) =
        subst (λ o. EntryValid v o (count sid s.pending_send) (count sid s.pending_capacity)) p
          (h.entries sid) in
      let (over, sends, waits, slot, owed) = entry.2 f in
      let kept : is_settled v e ≡ false = ground (arith, owed) in
      (
        rw (kept, unqueued-retired e f sends waits slot) (sym (insert_same sid e s.streams p)),
        ground (arith, entry.0, sends),
        ground (arith, entry.1, waits),
      )

  -- The close of a stored stream that is closed, whether it was finished before or not, on a well-
  -- formed connection: the stream is removed if it owes no recv window and no framing budget, and
  -- otherwise stays stored, finished and without a slot; either way it is in neither queue, and
  -- every other stream is as often in them as before.
  pub close_stream-Leaves :
      (s : Inner v) (sid : ℕ) (e : StreamEntry v) (j : ℕ)
      → IsValid v s
      → lookup sid s.streams ≡ some e
      → v.is_closed e.state ≡ true
      → Leaves sid e s j (close_stream v s sid).0
  close_stream-Leaves s sid e j h p c = elim (Bool-cases e.finished) [
    | inl over ↦
        rw (close_stream_skips v s sid e p (ground (arith, over)))
          (finished-Leaves s sid e j h p over)
    | inr live ↦
        let (sends, waits) = close_stream_queues s sid e p c live in
        let own = left_own v s sid e h p in
        (
          close_stream_streams v s sid e p c live,
          ap (count j) sends
              ∙ ground (arith, own.0, count-left_ne e.is_pending_send sid j s.pending_send),
          ap (count j) waits
              ∙ ground (arith, own.1, count-left_ne e.is_pending_capacity sid j s.pending_capacity),
        )
  ]
