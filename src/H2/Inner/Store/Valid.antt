-- ===== src/H2/Inner/Store/Valid.antt =====
-- Closing a stream keeps `Inner` well formed.
use httpunk.Prelude.{
  ℕ, ◌≤◌, ◌<◌, ◌≡◌, ◌∙◌, true, false, not, ◌||◌, none, some, arith, count, Option-cases, Bool-cases,
  inl, inr, if◌then◌else◌,
}
use httpunk.Prelude.Map.{
  lookup, insert, remove, lookup-insert_self, lookup-remove_self, insert-insert, remove-insert,
  count_if-insert,
}
use httpunk.H2.Vendor.{Vendor}
use httpunk.H2.Inner.{StreamEntry, Inner}
use httpunk.H2.Inner.Invariant.{
  IsValid, SameStore, same-IsValid, update-StoreValid, delete-StoreValid, has_slot, is_active,
}
use httpunk.H2.Inner.Queues.Valid.{leave_queues_lem, left, unqueued, count-left-le, count-left_self}
use httpunk.H2.Inner.Window.{is_settled, reclaim_stream_accounting, in_reset_store}
use httpunk.H2.Inner.Window.Valid.{
  reclaim_stream_accounting-IsValid, reclaim_stream_accounting_streams, reclaimed,
  in_reset_store-SameStore,
}
use httpunk.H2.Inner.Store.{
  above_goaway, maybe_goaway_reply, on_stream_gone, retire, retiring, close_entry, close_stream,
  drop_closed_stored, lookup_forgotten, recv_lookup,
}

module _ (v : Vendor) where
  pub maybe_goaway_reply-SameStore : (s : Inner v) → SameStore v s (maybe_goaway_reply v s).0
  unfolding maybe_goaway_reply
  maybe_goaway_reply-SameStore s = ground arith

  pub on_stream_gone-SameStore : (s : Inner v) → SameStore v s (on_stream_gone v s).0
  unfolding on_stream_gone
  on_stream_gone-SameStore s = maybe_goaway_reply-SameStore s

  pub on_stream_gone-IsValid : (s : Inner v) → IsValid v s → IsValid v (on_stream_gone v s).0
  on_stream_gone-IsValid s h =
      same-IsValid v s (on_stream_gone v s).0 (on_stream_gone-SameStore s) h

  -- The entry as `close_stream` leaves it.
  abbrev pub retired : StreamEntry v → StreamEntry v
  retired e = record e { finished = true; holds_slot = false }

  -- An entry that is not finished is counted, and so is a slot that is held.
  num_active-pos :
      (s : Inner v) (sid : ℕ) (e : StreamEntry v)
      → IsValid v s
      → lookup sid s.streams ≡ some e
      → e.finished ≡ false
      → 0 < s.num_active
  num_active-pos s sid e h p f =
      ground (arith, h.active, count_if-insert (is_active v) sid e (retired e) s.streams p)

  num_open-pos :
      (s : Inner v) (sid : ℕ) (e : StreamEntry v)
      → IsValid v s
      → lookup sid s.streams ≡ some e
      → e.holds_slot ≡ true
      → 0 < s.num_open_streams
  num_open-pos s sid e h p f =
      ground (arith, h.slots, count_if-insert (has_slot v) sid e (retired e) s.streams p)

  -- A stream that left a queue it was flagged for is not in it, and the others stay.
  pub left_own :
      (s : Inner v) (sid : ℕ) (e : StreamEntry v)
      → IsValid v s
      → lookup sid s.streams ≡ some e
      → (count sid (left e.is_pending_send sid s.pending_send) ≡ 0)
        × (count sid (left e.is_pending_capacity sid s.pending_capacity) ≡ 0)
  left_own s sid e h p = ground (
    arith,
    h.entries sid,
    count-left_self e.is_pending_send sid s.pending_send,
    count-left_self e.is_pending_capacity sid s.pending_capacity,
  )

  left_others :
      (s : Inner v) (sid : ℕ) (e : StreamEntry v) (j : ℕ)
      → (count j (left e.is_pending_send sid s.pending_send) ≤ count j s.pending_send)
        × (count j (left e.is_pending_capacity sid s.pending_capacity) ≤ count j s.pending_capacity)
  left_others s sid e j = (
    count-left-le e.is_pending_send sid j s.pending_send,
    count-left-le e.is_pending_capacity sid j s.pending_capacity,
  )

  retire-IsValid :
      (s : Inner v) (sid : ℕ) (e : StreamEntry v)
      → IsValid v s
      → lookup sid s.streams ≡ some e
      → v.is_closed e.state ≡ true
      → e.finished ≡ false
      → IsValid v (retire v s sid e).0
  unfolding retire
  retire-IsValid s sid e h p c f =
      let pos = num_active-pos s sid e h p f in
      let own = left_own s sid e h p in
      rw
        (
          leave_queues_lem v (retiring v s sid e) sid (retired e)
              (lookup-insert_self sid _ s.streams),
          insert-insert sid (unqueued v (retired e)) (retired e) s.streams,
        )
        (elim (Bool-cases (is_settled v e)) [
          | inl gone ↦
              rw (gone, remove-insert sid (unqueued v (retired e)) s.streams)
                (delete-StoreValid v h sid e _ _ _ _ p (ground arith)
                  (ground (arith, num_open-pos s sid e h p)) own (λ j n. left_others s sid e j))
          | inr kept ↦ rw kept (
              update-StoreValid v h sid e (unqueued v (retired e)) _ _ _ _ p (ground arith)
                (ground (arith, num_open-pos s sid e h p)) (ground arith)
                (λ j n. left_others s sid e j))
        ])

  -- The close of a stream keeps the connection state well formed, whether the stream is stored,
  -- closed or finished before.
  pub close_stream-IsValid :
      (s : Inner v) (sid : ℕ) → IsValid v s → IsValid v (close_stream v s sid).0
  unfolding close_stream close_entry
  close_stream-IsValid s sid h = elim (Option-cases (lookup sid s.streams)) [
    | inl e ↦ rw (e, close_stream) h
    | inr (e, p) ↦
        rw (p, close_stream)
          (elim (Bool-cases (not (v.is_closed e.state) || e.finished)) [
            | inl skipped ↦ rw skipped h
            | inr due ↦ rw due (
                on_stream_gone-IsValid (retire v s sid e).0
                  (retire-IsValid s sid e h p (ground arith) (ground arith)))
          ])
  ]

  pub drop_closed_stored-IsValid :
      (s : Inner v) (sid : ℕ) → IsValid v s → IsValid v (drop_closed_stored v s sid).0
  unfolding drop_closed_stored
  drop_closed_stored-IsValid s sid h =
      close_stream-IsValid _ sid (reclaim_stream_accounting-IsValid v s sid h)

  lookup_forgotten-SameStore :
      (s : Inner v) (now sid : ℕ) → SameStore v s (lookup_forgotten v s now sid).0
  unfolding lookup_forgotten
  lookup_forgotten-SameStore s now sid =
      elim (Bool-cases
        ((in_reset_store v s now sid).1 || above_goaway v (in_reset_store v s now sid).0 sid)) [
          | inl yes_there ↦ rw yes_there (in_reset_store-SameStore v s now sid)
          | inr not_there ↦ rw not_there (in_reset_store-SameStore v s now sid)
        ]

  -- The lookup of a received frame's stream keeps the connection state well formed, with the
  -- removal of a closed stream and of an expired reset.
  pub recv_lookup-IsValid :
      (s : Inner v) (now sid : ℕ) → IsValid v s → IsValid v (recv_lookup v s now sid).0
  unfolding recv_lookup
  recv_lookup-IsValid s now sid h = elim (Option-cases (lookup sid s.streams)) [
    | inl e ↦
        rw (e, recv_lookup)
          (same-IsValid v s (lookup_forgotten v s now sid).0 (lookup_forgotten-SameStore s now sid)
            h)
    | inr (e, p) ↦
        rw (p, recv_lookup)
          (elim (Bool-cases (v.is_local_error e.state)) [
            | inl swallowed ↦ rw swallowed h
            | inr other ↦ rw other (elim (Bool-cases (v.is_closed e.state)) [
              | inl over ↦ rw over (drop_closed_stored-IsValid s sid h)
              | inr live ↦ rw live h
            ])
          ])
  ]

  retire_streams :
      (s : Inner v) (sid : ℕ) (e : StreamEntry v)
      → lookup sid s.streams ≡ some e
      → (retire v s sid e).0.streams ≡ (
          if is_settled v e
          then remove sid s.streams
          else insert sid (unqueued v (retired e)) s.streams)
  unfolding retire
  retire_streams s sid e p =
      rw
        (
          leave_queues_lem v (retiring v s sid e) sid (retired e)
              (lookup-insert_self sid _ s.streams),
          insert-insert sid (unqueued v (retired e)) (retired e) s.streams,
        )
        (ground (arith, remove-insert sid (unqueued v (retired e)) s.streams))

  -- The store after the close of a stored stream that is closed and not yet finished.
  pub close_stream_streams :
      (s : Inner v) (sid : ℕ) (e : StreamEntry v)
      → lookup sid s.streams ≡ some e
      → v.is_closed e.state ≡ true
      → e.finished ≡ false
      → (close_stream v s sid).0.streams ≡ (
          if is_settled v e
          then remove sid s.streams
          else insert sid (unqueued v (retired e)) s.streams)
  unfolding close_stream close_entry
  close_stream_streams s sid e p c f =
      rw (p, close_stream, c, f)
        ((on_stream_gone-SameStore (retire v s sid e).0).0 ∙ retire_streams s sid e p)

  -- A stream that is not closed, or finished before, stays as it is.
  pub close_stream_skips :
      (s : Inner v) (sid : ℕ) (e : StreamEntry v)
      → lookup sid s.streams ≡ some e
      → (not (v.is_closed e.state) || e.finished) ≡ true
      → (close_stream v s sid).0 ≡ s
  unfolding close_stream
  close_stream_skips s sid e p c = rw (p, close_stream, c)

  close_stream_absent :
      (s : Inner v) (sid : ℕ) → lookup sid s.streams ≡ none → (close_stream v s sid).0 ≡ s
  unfolding close_stream
  close_stream_absent s sid p = rw (p, close_stream)

  -- A stored stream that is closed is no longer stored once it is dropped, whether it was finished
  -- before or not.
  pub drop_closed_stored_gone :
      (s : Inner v) (sid : ℕ) (e : StreamEntry v)
      → lookup sid s.streams ≡ some e
      → v.is_closed e.state ≡ true
      → lookup sid (drop_closed_stored v s sid).0.streams ≡ none
  unfolding drop_closed_stored
  drop_closed_stored_gone s sid e p c =
      let t = reclaim_stream_accounting v s sid in
      let after = reclaim_stream_accounting_streams v s sid e p in
      elim (Bool-cases e.finished) [
        | inl over ↦
            let gone : lookup sid t.streams ≡ none =
              ground (arith, after, over, lookup-remove_self sid s.streams) in
            rw (close_stream_absent t sid gone) gone
        | inr live ↦
            let stored : lookup sid t.streams ≡ some (reclaimed v e) =
              ground (arith, after, live, lookup-insert_self sid (reclaimed v e) s.streams) in
            rw (close_stream_streams t sid (reclaimed v e) stored c live)
              (lookup-remove_self sid t.streams)
      ]
