-- ===== src/H2/Inner/Window/Grants.antt =====
-- The WINDOW_UPDATE of the connection that reclaimed window gives rise to.
use httpunk.Prelude.{
  ℕ, ◌<◌, ◌≡◌, sym, inl, inr, false, Option, none, some, List, [], ◌∷◌, ◌++◌, arith, Option-cases,
  ◌==◌,
}
use mathlib.Core.List.{append-nil}
use httpunk.H2.Vendor.{Vendor}
use httpunk.H2.Inner.{Inner, Frame, window_update}
use httpunk.H2.Inner.Window.{advertise_conn, reclaim_conn}

abbrev pub grant : Option ℕ → List Frame
grant none = []
grant (some n) = window_update 0 n ∷ []

module _ (v : Vendor) where
  advertise_conn_pending :
      (s : Inner v)
      → (advertise_conn v s).pending ≡ s.pending ++ grant (v.unclaimed_capacity s.conn_recv)
  unfolding advertise_conn
  advertise_conn_pending s = elim (Option-cases (v.unclaimed_capacity s.conn_recv)) [
    | inl settled ↦ rw (advertise_conn, settled) (sym (append-nil s.pending))
    | inr (n, due) ↦ rw (advertise_conn, due)
  ]

  pub reclaim_conn_pending :
      (s : Inner v) (n : ℕ)
      → 0 < n
      → (reclaim_conn v s n).pending
        ≡ s.pending ++ grant (v.unclaimed_capacity (v.assign_capacity n s.conn_recv).0)
  unfolding reclaim_conn
  reclaim_conn_pending s n h =
      let some_left : (n == 0) ≡ false = ground arith in
      rw (reclaim_conn, some_left)
        (advertise_conn_pending (record s { conn_recv = (v.assign_capacity n s.conn_recv).0 }))
