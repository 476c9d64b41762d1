-- ===== src/H2/Inner/Window/Quiet.antt =====
-- The recv windows and the reset store queue no DATA.
use httpunk.Prelude.{
  ℕ, ◌≡◌, refl, arith, Option-cases, Bool-cases, inl, inr, ◌==◌, ap, ◌∙◌, true, if◌then◌else◌,
}
use httpunk.Prelude.Map.{lookup, insert}
use httpunk.H2.Budget
use httpunk.H2.Vendor.{Vendor}
use httpunk.H2.Inner.{Inner, window_update}
use httpunk.H2.Inner.Payload.{payload_of, payload_of_other, Quiet}
use httpunk.H2.Inner.Window.{
  advertise_conn, reclaim_conn, maybe_remove_settled, reclaim_stream_accounting,
  clear_expired_reset_streams, enqueue_reset_expiration,
}

module _ (v : Vendor) where
  advertise_conn-Quiet : (s : Inner v) → Quiet v s (advertise_conn v s)
  unfolding advertise_conn
  advertise_conn-Quiet s k = elim (Option-cases (v.unclaimed_capacity s.conn_recv)) [
    | inl settled ↦ rw (settled, advertise_conn) refl
    | inr (n, due) ↦
        rw (due, advertise_conn) (payload_of_other k s.pending (window_update 0 n) refl)
  ]

  reclaim_conn-Quiet : (s : Inner v) (n : ℕ) → Quiet v s (reclaim_conn v s n)
  unfolding reclaim_conn
  reclaim_conn-Quiet s n k = elim (Bool-cases (n == 0)) [
    | inl nothing_left ↦ rw (nothing_left, reclaim_conn) refl
    | inr some_left ↦
        rw (some_left, reclaim_conn)
          (advertise_conn-Quiet (record s { conn_recv = (v.assign_capacity n s.conn_recv).0 }) k)
  ]

  maybe_remove_settled_pending :
      (s : Inner v) (sid : ℕ) → (maybe_remove_settled v s sid).pending ≡ s.pending
  unfolding maybe_remove_settled
  maybe_remove_settled_pending s sid = ground arith

  pub reclaim_stream_accounting-Quiet :
      (s : Inner v) (sid : ℕ) → Quiet v s (reclaim_stream_accounting v s sid)
  unfolding reclaim_stream_accounting
  reclaim_stream_accounting-Quiet s sid k = elim (Option-cases (lookup sid s.streams)) [
    | inl absent ↦ rw (absent, reclaim_stream_accounting) refl
    | inr (e, p) ↦
        let charge = e.data_budget_charged in
        let e' = record e { data_budget_charged = 0; recv_unreleased = 0; recv_reclaimed = true } in
        let s' = record s {
          streams = insert sid e' s.streams;
          data_budget = if charge == 0 then s.data_budget else Budget.release s.data_budget charge;
        } in
        rw (p, reclaim_stream_accounting)
          (ap (payload_of k)
              (maybe_remove_settled_pending (reclaim_conn v s' e.recv_unreleased) sid)
            ∙ reclaim_conn-Quiet s' e.recv_unreleased k)
  ]

  pub enqueue_reset_expiration_pending :
      (s : Inner v) (now sid : ℕ) → (enqueue_reset_expiration v s now sid).pending ≡ s.pending
  unfolding enqueue_reset_expiration clear_expired_reset_streams
  enqueue_reset_expiration_pending s now sid = ground arith
