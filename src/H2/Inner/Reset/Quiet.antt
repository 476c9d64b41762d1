-- ===== src/H2/Inner/Reset/Quiet.antt =====
-- A reset and the end of a stream queue no DATA.
use httpunk.Prelude.{
  ℕ, refl, [], ◌∷◌, ◌++◌, Option-cases, Bool-cases, inl, inr, ap, ◌∙◌, if◌then◌else◌,
}
use httpunk.Prelude.Map.{lookup, insert}
use httpunk.H2.Reason
use httpunk.H2.Vendor.{Vendor, Initiator, user}
use httpunk.H2.Inner.{StreamEntry, Inner, rst_stream, Flags}
use httpunk.H2.Inner.Payload.{payload_of, payload_of_other, Quiet}
use httpunk.H2.Inner.Window.{reclaim_stream_accounting}
use httpunk.H2.Inner.Window.Quiet.{
  reclaim_stream_accounting-Quiet, enqueue_reset_expiration_pending,
}
use httpunk.H2.Inner.Store.{is_server, close_stream}
use httpunk.H2.Inner.Store.Quiet.{close_stream-Quiet}
use httpunk.H2.Inner.Reset.{
  reset_entry, reset_closed, reset_live, reset_stream, drop_request, finish_stream,
}

module _ (v : Vendor) where
  module _ (s : Inner v) (now sid reason : ℕ) (initiator : Initiator) (e : StreamEntry v) where
    reset_closed-Quiet : Quiet v s (reset_closed v s now sid reason initiator e).0
    unfolding reset_closed
    reset_closed-Quiet k =
        let e' = if v.is_reset e.state then e else reset_entry v sid reason initiator e in
        let s0 = record s { streams = insert sid e' s.streams } in
        let s1 = reclaim_stream_accounting v s0 sid in
        let s2 = (close_stream v s1 sid).0 in
        let closed = close_stream-Quiet v s1 sid k ∙ reclaim_stream_accounting-Quiet v s0 sid k in
        elim (Bool-cases (v.is_local_error e'.state)) [
          | inr forgotten ↦ rw forgotten closed
          | inl remembered ↦
              rw remembered
                (ap (payload_of k) (enqueue_reset_expiration_pending v s2 now sid) ∙ closed)
        ]

    reset_live-Quiet : Quiet v s (reset_live v s now sid reason initiator e).0
    unfolding reset_live
    reset_live-Quiet k =
        let e' = reset_entry v sid reason initiator e in
        let s0 = record s { streams = insert sid e' s.streams } in
        let s1 = reclaim_stream_accounting v s0 sid in
        let s2 = record s1 { pending = s1.pending ++ rst_stream sid reason ∷ [] } in
        let s3 = (close_stream v s2 sid).0 in
        ap (payload_of k) (enqueue_reset_expiration_pending v s3 now sid)
        ∙ close_stream-Quiet v s2 sid k
        ∙ payload_of_other k s1.pending (rst_stream sid reason) refl
        ∙ reclaim_stream_accounting-Quiet v s0 sid k

  reset_stream-Quiet :
      (s : Inner v) (now sid reason : ℕ) (initiator : Initiator)
      → Quiet v s (reset_stream v s now sid reason initiator).0
  unfolding reset_stream
  reset_stream-Quiet s now sid reason initiator k = elim (Option-cases (lookup sid s.streams)) [
    | inl absent ↦ rw (absent, reset_stream) refl
    | inr (e, p) ↦
        rw (p, reset_stream)
          (elim (Bool-cases (v.is_closed e.state)) [
            | inl over ↦ rw over (reset_closed-Quiet s now sid reason initiator e k)
            | inr live ↦ rw live (reset_live-Quiet s now sid reason initiator e k)
          ])
  ]

  drop_request-Quiet :
      (s : Inner v) (now sid : ℕ) (flags : Flags) → Quiet v s (drop_request v s now sid flags).0
  unfolding drop_request
  drop_request-Quiet s now sid flags k = elim (Option-cases (lookup sid s.streams)) [
    | inl absent ↦ rw (absent, drop_request) refl
    | inr (e, p) ↦
        rw (p, drop_request)
          (elim (Bool-cases (v.is_closed e.state)) [
            | inl over ↦ rw over (reclaim_stream_accounting-Quiet v s sid k)
            | inr live ↦ rw live (reset_stream-Quiet s now sid Reason.no_error user k)
          ])
  ]

  pub finish_stream-Quiet : (s : Inner v) (now sid : ℕ) → Quiet v s (finish_stream v s now sid).0
  unfolding finish_stream
  finish_stream-Quiet s now sid k =
      let (s', flags) = close_stream v s sid in
      elim (Bool-cases (is_server s'.role)) [
        | inl serving ↦
            rw serving (drop_request-Quiet s' now sid flags k ∙ close_stream-Quiet v s sid k)
        | inr calling ↦ rw calling (close_stream-Quiet v s sid k)
      ]
