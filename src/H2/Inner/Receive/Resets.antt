-- ===== src/H2/Inner/Receive/Resets.antt =====
-- A RST_STREAM frame keeps `Inner` well formed.
use httpunk.Prelude.{
  ℕ, ◌≡◌, refl, false, ◌&&◌, Option, some, Option-cases, Bool-cases, inl, inr, if-holds, length,
  is_some, ◌==◌, leb, contains,
}
use httpunk.Prelude.Map.{lookup}
use httpunk.H2.Vendor.{Vendor, VendorLaws}
use httpunk.H2.Errors.{Result}
use httpunk.H2.Result.{Keeps, >>=-Keeps}
use httpunk.H2.Inner.{StreamEntry, Inner}
use httpunk.H2.Inner.Invariant.{IsValid}
use httpunk.H2.Inner.Window.Valid.{reclaim_stream_accounting-IsValid}
use httpunk.H2.Inner.Store.{is_server}
use httpunk.H2.Inner.Store.Valid.{close_stream-IsValid}
use httpunk.H2.Inner.Reset.Valid.{restate-IsValid}
use httpunk.H2.Inner.Receive.{
  PeerReset, count_pending_reset, reset_live_by_peer, reset_entry_by_peer, recv_reset_unknown,
  recv_reset,
}

module _ (v : Vendor) (l : VendorLaws v) where
  count_pending_reset-Keeps : (sid : ℕ) → Keeps (IsValid v) (count_pending_reset v sid)
  unfolding count_pending_reset
  count_pending_reset-Keeps sid s h =
      elim (Bool-cases (is_server s.role && contains sid s.pending_accept)) [
        | inr plain ↦ rw plain h
        | inl unaccepted ↦
            rw unaccepted
              (elim (Bool-cases (leb s.max_pending_accept_reset (length s.remote_reset_pending))) [
                | inl full ↦ rw full h
                | inr room ↦ rw room h
              ])
      ]

  reset_live_by_peer-IsValid :
      (s : Inner v) (before sid error_code : ℕ) (e : StreamEntry v)
      → IsValid v s
      → lookup sid s.streams ≡ some e
      → IsValid v (reset_live_by_peer v before sid error_code e s).0
  unfolding reset_live_by_peer
  reset_live_by_peer-IsValid s before sid error_code e h p = close_stream-IsValid v _ sid (
      reclaim_stream_accounting-IsValid v _ sid (
        restate-IsValid v l s sid e (record e { state = v.recv_reset sid error_code false e.state })
          h p (λ _. l.recv_reset_closed sid error_code false e.state) refl))

  reset_entry_by_peer-IsValid :
      (s : Inner v) (before sid error_code : ℕ)
      → IsValid v s
      → IsValid v (reset_entry_by_peer v before sid error_code s).0
  unfolding reset_entry_by_peer
  reset_entry_by_peer-IsValid s before sid error_code h =
      elim (Option-cases (lookup sid s.streams)) [
        | inl e ↦ rw (e, reset_entry_by_peer) h
        | inr (e, p) ↦
            rw (p, reset_entry_by_peer)
              (if-holds (λ (r : Inner v × Result (Option PeerReset)). IsValid v r.0) e.finished _ _
                h (reset_live_by_peer-IsValid s before sid error_code e h p))
      ]

  recv_reset_unknown-Keeps : (sid : ℕ) → Keeps (IsValid v) (recv_reset_unknown v sid)
  unfolding recv_reset_unknown
  recv_reset_unknown-Keeps sid s h = elim (Bool-cases (is_some (lookup sid s.reset_streams))) [
    | inl recent ↦ rw recent h
    | inr old ↦ rw old h
  ]

  -- A RST_STREAM frame keeps the connection state well formed, on every branch, errors included.
  pub recv_reset-IsValid :
      (s : Inner v) (sid error_code : ℕ) → IsValid v s → IsValid v (recv_reset v sid error_code s).0
  unfolding recv_reset
  recv_reset-IsValid s sid error_code h = elim (Bool-cases (sid == 0)) [
    | inl zero_id ↦ rw zero_id h
    | inr fine ↦ rw fine (elim (Bool-cases (is_some (lookup sid s.streams))) [
      | inl stored ↦ rw stored (
          >>=-Keeps (IsValid v) (count_pending_reset v sid) _ (count_pending_reset-Keeps sid)
            (λ _ t k. reset_entry_by_peer-IsValid t (length s.pending) sid error_code k) s h)
      | inr missing ↦ rw missing (recv_reset_unknown-Keeps sid s h)
    ])
  ]
