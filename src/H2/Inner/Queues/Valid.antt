-- ===== src/H2/Inner/Queues/Valid.antt =====
-- The rotation keeps `Inner` well formed.
use httpunk.Prelude.{
  ℕ, ◌≤◌, ◌≡◌, refl, subst, Bool, false, Option, none, some, List, [], ◌∷◌, arith, bit, count,
  without, Option-cases, Bool-cases, inl, inr, rest, is_front, if◌then◌else◌, count-snoc_self,
  count-snoc_ne, count-without_self, count-without-le, count-rest-le, count-rest_front,
}
use httpunk.Prelude.Map.{lookup, insert, insert_same, insert-insert, lookup-insert_self}
use httpunk.H2.Vendor.{Vendor}
use httpunk.H2.Inner.{StreamEntry, Inner}
use httpunk.H2.Inner.Invariant.{IsValid, shrink-StoreValid, update-StoreValid}
use httpunk.H2.Inner.Queues.{
  skip_stale, send_front, capacity_front, enqueue_send, enqueue_capacity, leave_send_queue,
  leave_capacity_queue,
}

-- A queue after a stream left it, which was queued by its flag.
abbrev pub left : Bool → ℕ → List ℕ → List ℕ
left queued sid q = if queued then (if is_front sid q then rest q else without sid q) else q

pub count-left-le :
    (queued : Bool) (sid j : ℕ) (q : List ℕ) → count j (left queued sid q) ≤ count j q
count-left-le queued sid j q = ground (arith, count-rest-le j q, count-without-le sid j q)

pub count-left_self :
    (queued : Bool) (sid : ℕ) (q : List ℕ)
    → count sid q ≤ bit queued
    → count sid (left queued sid q) ≡ 0
count-left_self queued sid q h = ground (arith, count-rest_front sid q, count-without_self sid q)

module _ (v : Vendor) where
  count-skip_stale-le :
      (ready : Option (StreamEntry v) → Bool) (m : List (ℕ × StreamEntry v)) (k : ℕ) (q : List ℕ)
      → count k (skip_stale v ready m q) ≤ count k q
  unfolding skip_stale
  count-skip_stale-le ready m k [] = omega arith
  count-skip_stale-le ready m k (sid ∷ q) = ground (arith, count-skip_stale-le ready m k q)

  pub send_front-IsValid : (s : Inner v) → IsValid v s → IsValid v (send_front v s).0
  unfolding send_front
  send_front-IsValid s h =
      shrink-StoreValid v h _ _ (λ j. count-skip_stale-le _ _ j _) (λ j. omega arith)

  pub capacity_front-IsValid : (s : Inner v) → IsValid v s → IsValid v (capacity_front v s).0
  unfolding capacity_front
  capacity_front-IsValid s h =
      shrink-StoreValid v h _ _ (λ j. omega arith) (λ j. count-skip_stale-le _ _ j _)

  abbrev pub is_ended : Option (StreamEntry v) → Bool
  is_ended none = false
  is_ended (some e) = e.finished

  pub enqueue_send-IsValid :
      (s : Inner v) (sid : ℕ)
      → is_ended (lookup sid s.streams) ≡ false
      → IsValid v s
      → IsValid v (enqueue_send v s sid)
  unfolding enqueue_send
  enqueue_send-IsValid s sid live h = elim (Option-cases (lookup sid s.streams)) [
    | inl e ↦ rw (e, enqueue_send) h
    | inr (e, p) ↦
        rw (p, enqueue_send)
          (elim (Bool-cases e.is_pending_send) [
            | inl queued ↦ rw queued h
            | inr idle ↦ rw idle (
                update-StoreValid v h sid e _ _ _ _ _ p refl (omega arith)
                  (ground (
                    arith,
                    h.entries sid,
                    subst (λ o. is_ended o ≡ false) p live,
                    count-snoc_self sid s.pending_send,
                  ))
                  (λ j n. (omega (arith, count-snoc_ne sid j s.pending_send n), omega arith)))
          ])
  ]

  -- The rotation does not touch the peer's settings.
  pub enqueue_send_peer : (s : Inner v) (sid : ℕ) → (enqueue_send v s sid).peer ≡ s.peer
  unfolding enqueue_send
  enqueue_send_peer s sid = ground arith

  pub send_front_peer : (s : Inner v) → (send_front v s).0.peer ≡ s.peer
  unfolding send_front
  send_front_peer s = refl

  pub enqueue_capacity-IsValid :
      (s : Inner v) (sid : ℕ)
      → is_ended (lookup sid s.streams) ≡ false
      → IsValid v s
      → IsValid v (enqueue_capacity v s sid)
  unfolding enqueue_capacity
  enqueue_capacity-IsValid s sid live h = elim (Option-cases (lookup sid s.streams)) [
    | inl e ↦ rw (e, enqueue_capacity) h
    | inr (e, p) ↦
        rw (p, enqueue_capacity)
          (elim (Bool-cases e.is_pending_capacity) [
            | inl queued ↦ rw queued h
            | inr idle ↦ rw idle (
                update-StoreValid v h sid e _ _ _ _ _ p refl (omega arith)
                  (ground (
                    arith,
                    h.entries sid,
                    subst (λ o. is_ended o ≡ false) p live,
                    count-snoc_self sid s.pending_capacity,
                  ))
                  (λ j n. (omega arith, omega (arith, count-snoc_ne sid j s.pending_capacity n))))
          ])
  ]

  abbrev pub unqueued_send : StreamEntry v → StreamEntry v
  unqueued_send e = record e {
    is_pending_send = false;
    turn_frames = if e.is_pending_send then 0 else e.turn_frames;
  }

  abbrev pub unqueued_capacity : StreamEntry v → StreamEntry v
  unqueued_capacity e = record e { is_pending_capacity = false }

  abbrev left_send : Inner v → ℕ → StreamEntry v → Inner v
  left_send s sid e = record s {
    streams = insert sid (unqueued_send e) s.streams;
    pending_send = left e.is_pending_send sid s.pending_send;
  }

  -- The state after `leave_send_queue` of a stored stream, on every branch.
  pub leave_send_queue_lem :
      (s : Inner v) (sid : ℕ) (e : StreamEntry v)
      → lookup sid s.streams ≡ some e
      → (leave_send_queue v s sid).0 ≡ left_send s sid e
  unfolding leave_send_queue
  leave_send_queue_lem s sid e p =
      rw (p, leave_send_queue) (ground (arith, insert_same sid e s.streams p))

  pub leave_capacity_queue_lem :
      (s : Inner v) (sid : ℕ) (e : StreamEntry v)
      → lookup sid s.streams ≡ some e
      → (leave_capacity_queue v s sid).0 ≡ record s {
        streams = insert sid (unqueued_capacity e) s.streams;
        pending_capacity = left e.is_pending_capacity sid s.pending_capacity;
      }
  unfolding leave_capacity_queue
  leave_capacity_queue_lem s sid e p =
      rw (p, leave_capacity_queue) (ground (arith, insert_same sid e s.streams p))

  pub leave_send_queue-IsValid :
      (s : Inner v) (sid : ℕ) → IsValid v s → IsValid v (leave_send_queue v s sid).0
  unfolding leave_send_queue
  leave_send_queue-IsValid s sid h = elim (Option-cases (lookup sid s.streams)) [
    | inl e ↦ rw (e, leave_send_queue) h
    | inr (e, p) ↦ rw (leave_send_queue_lem s sid e p) (
        update-StoreValid v h sid e _ _ _ _ _ p refl (omega arith)
          (ground (arith, h.entries sid, count-left_self e.is_pending_send sid s.pending_send))
          (λ j n. (count-left-le e.is_pending_send sid j s.pending_send, omega arith)))
  ]

  abbrev pub unqueued : StreamEntry v → StreamEntry v
  unqueued e = unqueued_capacity (unqueued_send e)

  -- The two leaves of `close_stream`.
  pub leave_queues_lem :
      (s : Inner v) (sid : ℕ) (e : StreamEntry v)
      → lookup sid s.streams ≡ some e
      → (leave_capacity_queue v (leave_send_queue v s sid).0 sid).0 ≡ record s {
        streams = insert sid (unqueued e) s.streams;
        pending_send = left e.is_pending_send sid s.pending_send;
        pending_capacity = left e.is_pending_capacity sid s.pending_capacity;
      }
  leave_queues_lem s sid e p = rw (
    leave_send_queue_lem s sid e p,
    leave_capacity_queue_lem (left_send s sid e) sid (unqueued_send e)
        (lookup-insert_self sid _ s.streams),
    insert-insert sid (unqueued e) (unqueued_send e) s.streams,
  )
