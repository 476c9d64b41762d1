-- ===== src/H2/Inner/Queues/Live.antt =====
-- The rotation leaves a live stream live.
use httpunk.Prelude.{ℕ, ◌≡◌, subst, true, false, not, if-holds, option-cases}
use httpunk.Prelude.Map.{lookup, insert, lookup-insert_self}
use httpunk.H2.Vendor.{Vendor}
use httpunk.H2.Inner.{Inner, Flags}
use httpunk.H2.Inner.Invariant.{IsValid}
use httpunk.H2.Inner.Queues.{send_front, enqueue_send, enqueue_capacity, leave_send_queue}
use httpunk.H2.Inner.Queues.Valid.{
  is_ended, send_front-IsValid, enqueue_send-IsValid, enqueue_capacity-IsValid,
  leave_send_queue-IsValid,
}

module _ (v : Vendor) where
  abbrev Going : ℕ → Inner v → Type 0
  Going sid s = is_ended v (lookup sid s.streams) ≡ false

  -- Well formed, and the stream is not finished, if it is stored.
  abbrev pub Live : ℕ → Inner v → Type 0
  Live sid s = IsValid v s × (is_ended v (lookup sid s.streams) ≡ false)

  pub enqueue_capacity-Live :
      (sid : ℕ) (s : Inner v) → Live sid s → Live sid (enqueue_capacity v s sid)
  unfolding enqueue_capacity
  enqueue_capacity-Live sid s (h, live) = (
    enqueue_capacity-IsValid v s sid live h,
    option-cases (Going sid) (lookup sid s.streams) s _ (λ _. live)
        (λ e p. if-holds (Going sid) e.is_pending_capacity _ _ live (
          rw (lookup-insert_self sid (record e { is_pending_capacity = true }) s.streams)
            (subst (λ x. is_ended v x ≡ false) p live))),
  )

  pub enqueue_send-Live : (sid : ℕ) (s : Inner v) → Live sid s → Live sid (enqueue_send v s sid)
  unfolding enqueue_send
  enqueue_send-Live sid s (h, live) = (
    enqueue_send-IsValid v s sid live h,
    option-cases (Going sid) (lookup sid s.streams) s _ (λ _. live)
        (λ e p. if-holds (Going sid) e.is_pending_send _ _ live (
          rw
            (lookup-insert_self sid (record e { is_pending_send = true; turn_frames = 0 })
              s.streams)
            (subst (λ x. is_ended v x ≡ false) p live))),
  )

  pub leave_send_queue-Live :
      (sid : ℕ) (s : Inner v) → Live sid s → Live sid (leave_send_queue v s sid).0
  unfolding leave_send_queue
  leave_send_queue-Live sid s (h, live) = (
    leave_send_queue-IsValid v s sid h,
    option-cases (λ (r : Inner v × Flags). Going sid r.0) (lookup sid s.streams) _ _ (λ _. live)
        (λ e p.
          let e' = record e { is_pending_send = false; turn_frames = 0 } in
          let kept : is_ended v (lookup sid (insert sid e' s.streams)) ≡ false =
            rw
              (lookup-insert_self sid (record e { is_pending_send = false; turn_frames = 0 })
                s.streams)
              (subst (λ x. is_ended v x ≡ false) p live) in
          if-holds (λ (r : Inner v × Flags). Going sid r.0) (not e.is_pending_send) _ _ live
            (if-holds (λ (r : Inner v × Flags). Going sid r.0) _ _ _ kept kept)),
  )

  pub send_front-Live : (sid : ℕ) (s : Inner v) → Live sid s → Live sid (send_front v s).0
  unfolding send_front
  send_front-Live sid s (h, live) = (send_front-IsValid v s h, live)
