-- ===== src/H2/Inner/Window/Valid.antt =====
-- The recv ledger keeps `Inner` well formed.
use httpunk.Prelude.{
  ℕ, ◌≡◌, refl, ◌∙◌, true, ◌&&◌, some, arith, ◌==◌, Option-cases, Bool-cases, inl, inr,
  if◌then◌else◌,
}
use httpunk.Prelude.Map.{lookup, insert, remove, lookup-insert_self, insert-insert, remove-insert}
use httpunk.H2.Budget
use httpunk.H2.Vendor.{Vendor}
use httpunk.H2.Inner.{StreamEntry, Inner}
use httpunk.H2.Inner.Invariant.{
  IsValid, SameStore, same-IsValid, update-StoreValid, remove-StoreValid,
}
use httpunk.H2.Inner.Window.{
  is_settled, advertise_stream, charge_entry, maybe_remove_settled, reclaim_conn,
  reclaim_stream_accounting, consume_conn_recv, record_data_frame, release_capacity_inner,
  enqueue_reset_expiration, clear_expired_reset_streams, in_reset_store,
}

module _ (v : Vendor) where
  pub reclaim_conn-SameStore : (s : Inner v) (n : ℕ) → SameStore v s (reclaim_conn v s n)
  unfolding reclaim_conn
  reclaim_conn-SameStore s n = ground arith

  -- The entry changes in its ledger and windows only.
  abbrev pub Ledger : StreamEntry v → StreamEntry v → Type 0
  Ledger e e' =
      (v.is_closed e'.state ≡ v.is_closed e.state)
      × (e'.finished ≡ e.finished)
      × (e'.holds_slot ≡ e.holds_slot)
      × (e'.is_pending_send ≡ e.is_pending_send)
      × (e'.is_pending_capacity ≡ e.is_pending_capacity)

  -- Whatever the ledger becomes, the check for a settled entry restores the invariant.
  pub settle-IsValid :
      (s t : Inner v) (sid : ℕ) (e e' : StreamEntry v)
      → IsValid v s
      → lookup sid s.streams ≡ some e
      → Ledger e e'
      → SameStore v (record s { streams = insert sid e' s.streams }) t
      → IsValid v (maybe_remove_settled v t sid)
  unfolding maybe_remove_settled
  settle-IsValid s t sid e e' h p l same =
      let stored : lookup sid t.streams ≡ some e' =
        rw same.0 (lookup-insert_self sid e' s.streams) in
      rw (stored, maybe_remove_settled)
        (elim (Bool-cases (e'.finished && is_settled v e')) [
          | inl gone ↦ rw gone (
              same-IsValid v (record s { streams = remove sid s.streams })
                (record t { streams = remove sid t.streams })
                (rw same.0 (remove-insert sid e' s.streams), same.1, same.2, same.3, same.4)
                (remove-StoreValid v h sid e p (ground arith)))
          | inr kept ↦ rw kept (
              same-IsValid v (record s { streams = insert sid e' s.streams }) t same
                (update-StoreValid v h sid e e' _ _ _ _ p (ground arith) (ground arith)
                  (ground (arith, h.entries sid)) (λ j n. omega arith)))
        ])

  pub reclaim_stream_accounting-IsValid :
      (s : Inner v) (sid : ℕ) → IsValid v s → IsValid v (reclaim_stream_accounting v s sid)
  unfolding reclaim_stream_accounting
  reclaim_stream_accounting-IsValid s sid h = elim (Option-cases (lookup sid s.streams)) [
    | inl e ↦ rw (e, reclaim_stream_accounting) h
    | inr (e, p) ↦
        rw (p, reclaim_stream_accounting)
          (settle-IsValid s _ sid e _ h p (refl, refl, refl, refl, refl)
            (reclaim_conn-SameStore _ e.recv_unreleased))
  ]

  advertise_stream-Ledger :
      (s : Inner v) (sid : ℕ) (e : StreamEntry v)
      → (e' : StreamEntry v) × Ledger e e'
        × SameStore v
            (record s { streams = insert sid e' s.streams })
            (advertise_stream v (record s { streams = insert sid e s.streams }) sid e)
  unfolding advertise_stream
  advertise_stream-Ledger s sid e = elim (Option-cases (v.unclaimed_capacity e.recv_flow)) [
    | inl none_due ↦ (e, ground arith, ground arith)
    | inr (unclaimed, due) ↦ elim (Bool-cases (v.is_recv_end_stream e.state)) [
      | inl ended ↦ (e, ground arith, ground arith)
      | inr more ↦ (
        record e { recv_flow = (v.inc_window unclaimed e.recv_flow).0 },
        ground arith,
        ground (
          arith,
          insert-insert sid (record e { recv_flow = (v.inc_window unclaimed e.recv_flow).0 }) e
              s.streams,
        ),
      )
    ]
  ]

  -- The release of consumed bytes keeps the connection state well formed.
  pub release_capacity_inner-IsValid :
      (s : Inner v) (sid n : ℕ) → IsValid v s → IsValid v (release_capacity_inner v s sid n)
  unfolding release_capacity_inner
  release_capacity_inner-IsValid s sid n h = elim (Option-cases (lookup sid s.streams)) [
    | inl e ↦ rw (e, release_capacity_inner) h
    | inr (e, p) ↦
        rw (p, release_capacity_inner)
          (elim (Bool-cases e.recv_reclaimed) [
            | inl done ↦ rw done h
            | inr open_ledger ↦ rw open_ledger (
                let (e', l, same) = advertise_stream-Ledger s sid _ in
                let after = reclaim_conn-SameStore _ n in
                settle-IsValid s _ sid e e' h p l (
                  after.0 ∙ same.0,
                  after.1 ∙ same.1,
                  after.2 ∙ same.2,
                  after.3 ∙ same.3,
                  after.4 ∙ same.4,
                ))
          ])
  ]

  pub consume_conn_recv-SameStore :
      (s : Inner v) (sz : ℕ) → SameStore v s (consume_conn_recv v s sz).0
  unfolding consume_conn_recv
  consume_conn_recv-SameStore s sz = (refl, refl, refl, refl, refl)

  pub consume_conn_recv-IsValid :
      (s : Inner v) (sz : ℕ) → IsValid v s → IsValid v (consume_conn_recv v s sz).0
  unfolding consume_conn_recv
  consume_conn_recv-IsValid s sz h = h

  pub record_data_frame-IsValid :
      (s : Inner v) (sid n : ℕ) → IsValid v s → IsValid v (record_data_frame v s sid n).0
  unfolding record_data_frame
  record_data_frame-IsValid s sid n h =
      elim (Option-cases (Budget.record_frame s.data_budget n).1) [
        | inl refused ↦ rw (refused, record_data_frame) h
        | inr (charge, taken) ↦ elim (Option-cases (lookup sid s.streams)) [
          | inl e ↦ rw (taken, record_data_frame, e, charge_entry) h
          | inr (e, p) ↦
              rw (taken, record_data_frame, p, charge_entry)
                (update-StoreValid v h sid e _ _ _ _ _ p refl (omega arith)
                  (ground (arith, h.entries sid)) (λ j n. omega arith))
        ]
      ]

  pub in_reset_store-SameStore :
      (s : Inner v) (now sid : ℕ) → SameStore v s (in_reset_store v s now sid).0
  unfolding in_reset_store
  in_reset_store-SameStore s now sid = ground arith

  pub clear_expired_reset_streams-SameStore :
      (s : Inner v) (now : ℕ) → SameStore v s (clear_expired_reset_streams v s now)
  unfolding clear_expired_reset_streams
  clear_expired_reset_streams-SameStore s now = (refl, refl, refl, refl, refl)

  pub enqueue_reset_expiration-SameStore :
      (s : Inner v) (now sid : ℕ) → SameStore v s (enqueue_reset_expiration v s now sid)
  unfolding enqueue_reset_expiration
  enqueue_reset_expiration-SameStore s now sid = ground arith

  abbrev pub reclaimed : StreamEntry v → StreamEntry v
  reclaimed e = record e { data_budget_charged = 0; recv_unreleased = 0; recv_reclaimed = true }

  maybe_remove_settled_streams :
      (s : Inner v) (sid : ℕ) (e : StreamEntry v)
      → lookup sid s.streams ≡ some e
      → (maybe_remove_settled v s sid).streams
        ≡ (if e.finished && is_settled v e then remove sid s.streams else s.streams)
  unfolding maybe_remove_settled
  maybe_remove_settled_streams s sid e p = rw (p, maybe_remove_settled) (ground arith)

  -- A reclaim removes a stored stream that is finished, and leaves another with nothing owed and
  -- the mark that its ledger was returned.
  pub reclaim_stream_accounting_streams :
      (s : Inner v) (sid : ℕ) (e : StreamEntry v)
      → lookup sid s.streams ≡ some e
      → (reclaim_stream_accounting v s sid).streams
        ≡ (if e.finished then remove sid s.streams else insert sid (reclaimed e) s.streams)
  unfolding reclaim_stream_accounting
  reclaim_stream_accounting_streams s sid e p =
      let t : Inner v = record s {
        streams = insert sid (reclaimed e) s.streams;
        data_budget =
            if e.data_budget_charged == 0
            then s.data_budget
            else Budget.release s.data_budget e.data_budget_charged;
      } in
      let same = (reclaim_conn-SameStore t e.recv_unreleased).0 in
      let stored : lookup sid (reclaim_conn v t e.recv_unreleased).streams ≡ some (reclaimed e) =
        rw same (lookup-insert_self sid (reclaimed e) s.streams) in
      rw
        (
          p,
          reclaim_stream_accounting,
          maybe_remove_settled_streams (reclaim_conn v t e.recv_unreleased) sid (reclaimed e)
              stored,
          same,
          remove-insert sid (reclaimed e) s.streams,
        )
        (ground arith)
