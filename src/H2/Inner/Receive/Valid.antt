-- ===== src/H2/Inner/Receive/Valid.antt =====
-- DATA and WINDOW_UPDATE keep `Inner` well formed, on every branch, errors included.
use httpunk.Prelude.{
  ℕ, ◌≡◌, refl, false, not, Option, none, some, arith, Option-cases, Bool-cases, inl, inr, length,
  is_some, ◌==◌, ltb,
}
use httpunk.Prelude.Map.{lookup}
use httpunk.H2.Vendor.{Vendor, VendorLaws}
use httpunk.H2.Errors.{Result, ok, err}
use httpunk.H2.Result.{Keeps, >>=-Keeps, >>=-holds, Result-cases, if-Keeps}
use httpunk.H2.Inner.{StreamEntry, Inner, DataFrame}
use httpunk.H2.Inner.Invariant.{IsValid, same-IsValid, update-StoreValid}
use httpunk.H2.Inner.Queues.Valid.{send_front-IsValid}
use httpunk.H2.Inner.Queues.Turns.{admit_capacity_front-IsValid}
use httpunk.H2.Inner.Window.{reclaim_conn, consume_conn_recv, record_data_frame}
use httpunk.H2.Inner.Window.Valid.{
  Ledger, reclaim_conn-SameStore, consume_conn_recv-SameStore, consume_conn_recv-IsValid,
  record_data_frame-IsValid, release_capacity_inner-IsValid,
}
use httpunk.H2.Inner.Store.{recv_lookup}
use httpunk.H2.Inner.Store.Valid.{close_stream-IsValid, recv_lookup-IsValid}
use httpunk.H2.Inner.Headers.{put_entry, recv_close_entry}
use httpunk.H2.Inner.Headers.Entries.{recv_close_entry-Keeps}
use httpunk.H2.Inner.Receive.{
  swallow, check_entry, charge_stream, deliver_data, release_padding, recv_live_data, dispatch_data,
  recv_data, grow_window, update_connection, update_stream, recv_window_update, wake_front,
}

module _ (v : Vendor) (l : VendorLaws v) where
  reclaim_conn-IsValid : (s : Inner v) (n : ℕ) → IsValid v s → IsValid v (reclaim_conn v s n)
  reclaim_conn-IsValid s n h =
      same-IsValid v s (reclaim_conn v s n) (reclaim_conn-SameStore v s n) h

  swallow-Keeps :
      (before sz : ℕ) (r : Result (Unit {0})) → Keeps (IsValid v) (swallow v before sz r)
  unfolding swallow
  swallow-Keeps before sz r =
      >>=-Keeps (IsValid v) (λ s. consume_conn_recv v s sz) _
        (λ t k. consume_conn_recv-IsValid v t sz k)
        λ _ t k.
          >>=-Keeps (IsValid v) (λ s. (s, r)) _ (λ _ k'. k') (λ _ _ k'. k') _
            (reclaim_conn-IsValid t sz k)

  check_entry-Ledger :
      (f : DataFrame) (sz : ℕ) (e : StreamEntry v) → Ledger v e (check_entry v f sz e).0
  unfolding check_entry
  check_entry-Ledger f sz e = ground arith

  charge_stream-IsValid :
      (s : Inner v) (f : DataFrame) (sz : ℕ) (e : StreamEntry v)
      → IsValid v s
      → lookup f.stream_id s.streams ≡ some e
      → e.finished ≡ false
      → IsValid v (charge_stream v f sz s).0
  unfolding charge_stream
  charge_stream-IsValid s f sz e h p live =
      let e' = (check_entry v f sz e).0 in
      let same = check_entry-Ledger f sz e in
      let stored : IsValid v (put_entry v f.stream_id e' s) =
        update-StoreValid v h f.stream_id e e' _ _ _ _ p (ground (arith, same))
          (ground (arith, same)) (ground (arith, same, h.entries f.stream_id))
          (λ j n. omega arith) in
      rw (p, charge_stream)
        (elim (Result-cases (check_entry v f sz e).1) [
          | inl (_, fine) ↦ rw fine stored
          | inr (x, refused) ↦ rw refused (reclaim_conn-IsValid _ sz stored)
        ])

  deliver_data-Keeps :
      (before : ℕ) (f : DataFrame) (handle : ℕ) → Keeps (IsValid v) (deliver_data v before f handle)
  unfolding deliver_data
  deliver_data-Keeps before f handle =
      if-Keeps (IsValid v) (not f.end_stream) _ _
        (>>=-Keeps (IsValid v) (λ s. record_data_frame v s f.stream_id (length f.data_bytes)) _
          (λ t k. record_data_frame-IsValid v t f.stream_id (length f.data_bytes) k) (λ _ t k. k))
        (>>=-Keeps (IsValid v) (recv_close_entry v f.stream_id) _
          (recv_close_entry-Keeps v l f.stream_id)
          (λ _ t k. close_stream-IsValid v t f.stream_id k))

  release_padding-IsValid :
      (f : DataFrame) (s : Inner v) → IsValid v s → IsValid v (release_padding v f s)
  unfolding release_padding
  release_padding-IsValid f s h = elim (Bool-cases (ltb 0 f.padding)) [
    | inl padded ↦ rw padded (release_capacity_inner-IsValid v s f.stream_id _ h)
    | inr bare ↦ rw bare h
  ]

  recv_live_data-IsValid :
      (s : Inner v) (before : ℕ) (f : DataFrame) (sz : ℕ) (e : StreamEntry v)
      → IsValid v s
      → lookup f.stream_id s.streams ≡ some e
      → IsValid v (recv_live_data v before f sz e s).0
  unfolding recv_live_data
  recv_live_data-IsValid s before f sz e h p = elim (Bool-cases (v.is_recv_streaming e.state)) [
    | inr refused ↦ rw refused h
    | inl streaming ↦
        let live : e.finished ≡ false =
          ground (arith, h.entries f.stream_id, l.closed_recv_streaming e.state) in
        let t = (consume_conn_recv v s sz).0 in
        let same = consume_conn_recv-SameStore v s sz in
        let charged-IsValid =
          charge_stream-IsValid t f sz e (same-IsValid v s t same h) (rw same.0 p) live in
        rw streaming (elim (Result-cases (consume_conn_recv v s sz).1) [
          | inr (x, overrun) ↦ rw overrun (same-IsValid v s t same h)
          | inl (_, taken) ↦ rw taken (
              >>=-holds (IsValid v) (charge_stream v f sz) _ t charged-IsValid
                λ _ u k. deliver_data-Keeps before f e.handle _ (release_padding-IsValid f u k))
        ])
  ]

  dispatch_data-IsValid :
      (s : Inner v) (before : ℕ) (f : DataFrame) (sz : ℕ) (r : Result (Option ℕ))
      → IsValid v s
      → IsValid v (dispatch_data v before f sz r s).0
  unfolding dispatch_data
  dispatch_data-IsValid s before f sz (err x) h = swallow-Keeps before sz (err x) s h
  dispatch_data-IsValid s before f sz (ok none) h = swallow-Keeps before sz (ok tt) s h
  dispatch_data-IsValid s before f sz (ok (some sid)) h =
      elim (Option-cases (lookup f.stream_id s.streams)) [
        | inl e ↦ rw (e, dispatch_data) h
        | inr (e, p) ↦ rw (p, dispatch_data) (recv_live_data-IsValid s before f sz e h p)
      ]

  -- A DATA frame keeps the connection state well formed, on every branch: swallowed, refused,
  -- delivered or final.
  pub recv_data-IsValid :
      (s : Inner v) (now : ℕ) (f : DataFrame) → IsValid v s → IsValid v (recv_data v now f s).0
  unfolding recv_data
  recv_data-IsValid s now f h =
      dispatch_data-IsValid _ (length s.pending) f _ (recv_lookup v s now f.stream_id).1
        (recv_lookup-IsValid v s now f.stream_id h)

  wake_front-IsValid : (s : Inner v) → IsValid v s → IsValid v (wake_front v s).0
  unfolding wake_front
  wake_front-IsValid s h = send_front-IsValid v _ (admit_capacity_front-IsValid v s h)

  update_connection-IsValid :
      (s : Inner v) (n : ℕ) → IsValid v s → IsValid v (update_connection v n s).0
  unfolding update_connection
  update_connection-IsValid s n h = elim (Option-cases (grow_window v n s.conn_send).1) [
    | inl grown ↦
        rw (grown, update_connection)
          (wake_front-IsValid (record s { conn_send = (grow_window v n s.conn_send).0 }) h)
    | inr (reason, overflow) ↦ rw (overflow, update_connection) h
  ]

  update_stream-IsValid :
      (s : Inner v) (sid n : ℕ) → IsValid v s → IsValid v (update_stream v sid n s).0
  unfolding update_stream
  update_stream-IsValid s sid n h = elim (Option-cases (lookup sid s.streams)) [
    | inl e ↦
        rw (e, update_stream)
          (elim (Bool-cases (is_some (lookup sid s.reset_streams))) [
            | inl recent ↦ rw recent h
            | inr old ↦ rw old h
          ])
    | inr (e, p) ↦
        rw (p, update_stream)
          (update-StoreValid v h sid e (record e { send_flow = (grow_window v n e.send_flow).0 }) _
            _ _ _ p refl (omega arith) (ground (arith, h.entries sid)) (λ j k. omega arith))
  ]

  -- A WINDOW_UPDATE of the connection or of a stream keeps the connection state well formed, with
  -- the admission of a waiting stream.
  pub recv_window_update-IsValid :
      (s : Inner v) (sid n : ℕ) → IsValid v s → IsValid v (recv_window_update v sid n s).0
  unfolding recv_window_update
  recv_window_update-IsValid s sid n h = elim (Bool-cases (sid == 0)) [
    | inl conn ↦ rw conn (update_connection-IsValid s n h)
    | inr one ↦ rw one (update_stream-IsValid s sid n h)
  ]
