-- ===== src/H2/Inner/Queues/Pending.antt =====
-- The rotation queues no frame.
use httpunk.Prelude.{ℕ, ◌≡◌, refl, arith}
use httpunk.H2.Vendor.{Vendor}
use httpunk.H2.Inner.{Inner}
use httpunk.H2.Inner.Queues.{
  send_front, enqueue_send, enqueue_capacity, leave_send_queue, leave_capacity_queue,
  yield_send_turn,
}

module _ (v : Vendor) (s : Inner v) where
  pub send_front_pending : (send_front v s).0.pending ≡ s.pending
  unfolding send_front
  send_front_pending = refl

  module _ (sid : ℕ) where
    pub enqueue_send_pending : (enqueue_send v s sid).pending ≡ s.pending
    unfolding enqueue_send
    enqueue_send_pending = ground arith

    pub enqueue_capacity_pending : (enqueue_capacity v s sid).pending ≡ s.pending
    unfolding enqueue_capacity
    enqueue_capacity_pending = ground arith

    pub leave_send_queue_pending : (leave_send_queue v s sid).0.pending ≡ s.pending
    unfolding leave_send_queue
    leave_send_queue_pending = ground arith

    pub leave_capacity_queue_pending : (leave_capacity_queue v s sid).0.pending ≡ s.pending
    unfolding leave_capacity_queue
    leave_capacity_queue_pending = ground arith

    pub yield_send_turn_pending : (yield_send_turn v s sid).0.pending ≡ s.pending
    unfolding yield_send_turn
    yield_send_turn_pending = ground arith
