-- ===== src/H2/Inner/Reset/Valid.antt =====
-- Resets keep `Inner` well formed.
use httpunk.Prelude.{
  ℕ, ◌≡◌, refl, true, some, arith, Option-cases, Bool-cases, inl, inr, if◌then◌else◌,
}
use httpunk.Prelude.Map.{lookup, insert}
use httpunk.H2.Vendor.{Vendor, VendorLaws, Initiator}
use httpunk.H2.Inner.{StreamEntry, Inner, Flags}
use httpunk.H2.Inner.Invariant.{IsValid, same-IsValid, update-StoreValid}
use httpunk.H2.Inner.Window.{enqueue_reset_expiration}
use httpunk.H2.Inner.Window.Valid.{
  reclaim_stream_accounting-IsValid, enqueue_reset_expiration-SameStore,
}
use httpunk.H2.Inner.Store.{is_server, close_stream}
use httpunk.H2.Inner.Store.Valid.{close_stream-IsValid}
use httpunk.H2.Inner.Reset.{
  reset_entry, reset_closed, reset_live, reset_stream, drop_request, finish_stream,
}

module _ (v : Vendor) (l : VendorLaws v) where
  -- An entry's state may change if a finished one stays closed.
  pub restate-IsValid :
      (s : Inner v) (sid : ℕ) (e e' : StreamEntry v)
      → IsValid v s
      → lookup sid s.streams ≡ some e
      → (e.finished ≡ true → v.is_closed e'.state ≡ true)
      → e' ≡ record e { state = e'.state }
      → IsValid v (record s { streams = insert sid e' s.streams })
  restate-IsValid s sid e e' h p c q =
      update-StoreValid v h sid e e' _ _ _ _ p (ground arith) (ground arith)
        (ground (arith, h.entries sid)) (λ j n. omega arith)

  pub expire-IsValid :
      (s : Inner v) (now sid : ℕ) → IsValid v s → IsValid v (enqueue_reset_expiration v s now sid)
  expire-IsValid s now sid h =
      same-IsValid v s (enqueue_reset_expiration v s now sid)
        (enqueue_reset_expiration-SameStore v s now sid) h

  reset_closed-IsValid :
      (s : Inner v) (now sid reason : ℕ) (i : Initiator) (e : StreamEntry v)
      → IsValid v s
      → lookup sid s.streams ≡ some e
      → v.is_closed e.state ≡ true
      → IsValid v (reset_closed v s now sid reason i e).0
  unfolding reset_closed
  reset_closed-IsValid s now sid reason i e h p c =
      let e' : StreamEntry v = if v.is_reset e.state then e else reset_entry v sid reason i e in
      let restated =
        restate-IsValid s sid e e' h p (ground (arith, l.set_reset_closed sid reason i e.state))
          (ground arith) in
      let closed =
        close_stream-IsValid v _ sid (reclaim_stream_accounting-IsValid v _ sid restated) in
      elim (Bool-cases (v.is_local_error e'.state)) [
        | inl mine ↦ rw mine (expire-IsValid _ now sid closed)
        | inr other ↦ rw other closed
      ]

  reset_live-IsValid :
      (s : Inner v) (now sid reason : ℕ) (i : Initiator) (e : StreamEntry v)
      → IsValid v s
      → lookup sid s.streams ≡ some e
      → IsValid v (reset_live v s now sid reason i e).0
  unfolding reset_live
  reset_live-IsValid s now sid reason i e h p =
      let restated =
        restate-IsValid s sid e (reset_entry v sid reason i e) h p
          (λ f. l.set_reset_closed sid reason i e.state) refl in
      expire-IsValid _ now sid
        (close_stream-IsValid v _ sid (reclaim_stream_accounting-IsValid v _ sid restated))

  -- A reset by either side keeps the connection state well formed: for an unknown stream, a closed
  -- one and a live one.
  pub reset_stream-IsValid :
      (s : Inner v) (now sid reason : ℕ) (i : Initiator)
      → IsValid v s
      → IsValid v (reset_stream v s now sid reason i).0
  unfolding reset_stream
  reset_stream-IsValid s now sid reason i h = elim (Option-cases (lookup sid s.streams)) [
    | inl e ↦ rw (e, reset_stream) h
    | inr (e, p) ↦
        rw (p, reset_stream)
          (elim (Bool-cases (v.is_closed e.state)) [
            | inl over ↦ rw over (reset_closed-IsValid s now sid reason i e h p over)
            | inr live ↦ rw live (reset_live-IsValid s now sid reason i e h p)
          ])
  ]

  drop_request-IsValid :
      (s : Inner v) (now sid : ℕ) (f : Flags)
      → IsValid v s
      → IsValid v (drop_request v s now sid f).0
  unfolding drop_request
  drop_request-IsValid s now sid f h = elim (Option-cases (lookup sid s.streams)) [
    | inl e ↦ rw (e, drop_request) h
    | inr (e, p) ↦
        rw (p, drop_request)
          (elim (Bool-cases (v.is_closed e.state)) [
            | inl over ↦ rw over (reclaim_stream_accounting-IsValid v s sid h)
            | inr live ↦ rw live (reset_stream-IsValid s now sid _ _ h)
          ])
  ]

  -- The end of a stream's send half keeps the connection state well formed, with the reset of an
  -- unread request on the server.
  pub finish_stream-IsValid :
      (s : Inner v) (now sid : ℕ) → IsValid v s → IsValid v (finish_stream v s now sid).0
  unfolding finish_stream
  finish_stream-IsValid s now sid h =
      let closed = close_stream-IsValid v s sid h in
      elim (Bool-cases (is_server (close_stream v s sid).0.role)) [
        | inl yes_server ↦ rw yes_server (drop_request-IsValid _ now sid _ closed)
        | inr client_side ↦ rw client_side closed
      ]
