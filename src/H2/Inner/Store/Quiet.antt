-- ===== src/H2/Inner/Store/Quiet.antt =====
-- The close of a stream queues no DATA.
use httpunk.Prelude.{
  ℕ, ◌≡◌, refl, not, ◌||◌, Option-cases, Bool-cases, inl, inr, ◌==◌, ◌∙◌, is_some, [],
}
use httpunk.Prelude.Map.{lookup}
use httpunk.H2.Reason
use httpunk.H2.Vendor.{Vendor}
use httpunk.H2.Inner.{StreamEntry, Inner, go_away}
use httpunk.H2.Inner.Payload.{payload_of_other, Quiet, same-Quiet}
use httpunk.H2.Inner.Queues.{leave_send_queue}
use httpunk.H2.Inner.Queues.Pending.{leave_send_queue_pending, leave_capacity_queue_pending}
use httpunk.H2.Inner.Window.{is_settled}
use httpunk.H2.Inner.Store.{
  goaway_last_stream_id, maybe_goaway_reply, on_stream_gone, retiring, retire, close_entry,
  close_stream,
}

module _ (v : Vendor) where
  maybe_goaway_reply-Quiet : (s : Inner v) → Quiet v s (maybe_goaway_reply v s).0
  unfolding maybe_goaway_reply
  maybe_goaway_reply-Quiet s k =
      elim (Bool-cases (
        s.goaway_replied || is_some s.error || not (s.num_active == 0) || not (is_some s.goaway))) [
          | inl idle ↦ rw (idle, maybe_goaway_reply) refl
          | inr due ↦
              rw (due, maybe_goaway_reply)
                (payload_of_other k s.pending
                  (go_away (goaway_last_stream_id v s) Reason.no_error []) refl)
        ]

  on_stream_gone-Quiet : (s : Inner v) → Quiet v s (on_stream_gone v s).0
  unfolding on_stream_gone
  on_stream_gone-Quiet s = maybe_goaway_reply-Quiet s

  retire_pending :
      (s : Inner v) (sid : ℕ) (e : StreamEntry v) → (retire v s sid e).0.pending ≡ s.pending
  unfolding retire
  retire_pending s sid e =
      let s1 = retiring v s sid e in
      let left =
        leave_capacity_queue_pending v (leave_send_queue v s1 sid).0 sid
        ∙ leave_send_queue_pending v s1 sid in
      elim (Bool-cases (is_settled v e)) [ inl gone ↦ rw gone left | inr kept ↦ rw kept left ]

  pub close_stream-Quiet : (s : Inner v) (sid : ℕ) → Quiet v s (close_stream v s sid).0
  unfolding close_stream close_entry
  close_stream-Quiet s sid k = elim (Option-cases (lookup sid s.streams)) [
    | inl absent ↦ rw (absent, close_stream) refl
    | inr (e, p) ↦
        rw (p, close_stream)
          (elim (Bool-cases (not (v.is_closed e.state) || e.finished)) [
            | inl skipped ↦ rw skipped refl
            | inr due ↦ rw due (
                on_stream_gone-Quiet (retire v s sid e).0 k
                ∙ same-Quiet v s (retire v s sid e).0 (retire_pending s sid e) k)
          ])
  ]
