-- ===== src/H2/Inner/Queues/Turns.antt =====
-- The front of the rotation: who is admitted to it, and how a turn is passed on.
use httpunk.Prelude.{
  ℕ, ◌≡◌, refl, subst, ap, Bool, true, false, Option, none, some, List, ◌++◌, [], ◌∷◌, arith, count,
  ◌==◌, Option-cases, Bool-cases, inl, inr, rest, is_front, if◌then◌else◌, count-snoc_self,
  count-snoc_ne, count-rest-le, count-rest_front,
}
use httpunk.Prelude.Map.{lookup, insert, lookup-insert_self}
use httpunk.H2.Vendor.{Vendor}
use httpunk.H2.Inner.{StreamEntry, Inner}
use httpunk.H2.Inner.Invariant.{IsValid, EntryValid, update-StoreValid}
use httpunk.H2.Inner.Queues.{
  skip_stale, send_front, capacity_front, admit_capacity_front, yield_send_turn, admit, admit_front,
  admit_unless, front, is_ready_capacity,
}
use httpunk.H2.Inner.Queues.Valid.{enqueue_send-IsValid, capacity_front-IsValid, send_front-IsValid}

module _ (v : Vendor) where
  -- A front of the capacity queue is stored and ready.
  front-skip_stale :
      (ready : Option (StreamEntry v) → Bool) (m : List (ℕ × StreamEntry v)) (sid : ℕ) (q : List ℕ)
      → front (skip_stale v ready m q) ≡ some sid
      → (is_front sid (skip_stale v ready m q) ≡ true) × (ready (lookup sid m) ≡ true)
  unfolding skip_stale
  front-skip_stale ready m sid [] p = cc
  front-skip_stale ready m sid (x ∷ q) p = elim (Bool-cases (ready (lookup x m))) [
    | inl here ↦
        let first : some x ≡ some sid =
          subst (λ b. front (if b then x ∷ q else skip_stale v ready m q) ≡ some sid) here p in
        let same : x ≡ sid = ap {B = ℕ} (λ o. elim o [ none ↦ x | some y ↦ y ]) first in
        rw (here, skip_stale)
          (ground (arith, same), subst (λ k. ready (lookup k m) ≡ true) same here)
    | inr stale ↦
        rw (stale, skip_stale)
          (front-skip_stale ready m sid q
            (subst (λ b. front (if b then x ∷ q else skip_stale v ready m q) ≡ some sid) stale p))
  ]

  admit-IsValid :
      (s : Inner v) (sid : ℕ) (e : StreamEntry v)
      → IsValid v s
      → lookup sid s.streams ≡ some e
      → is_front sid s.pending_capacity ≡ true
      → is_ready_capacity v (some e) ≡ true
      → IsValid v (admit v s sid e).0
  unfolding admit
  admit-IsValid s sid e h p f r =
      let e' = record e { is_pending_capacity = false } in
      let live : e.finished ≡ false = ground (arith, r) in
      enqueue_send-IsValid v
        (record s { streams = insert sid e' s.streams; pending_capacity = rest s.pending_capacity })
        sid (rw (lookup-insert_self sid e' s.streams) live)
        (update-StoreValid v h sid e e' _ _ _ _ p (ground arith) (ground arith)
          (ground (arith, h.entries sid, count-rest_front sid s.pending_capacity))
          (λ j n. (omega arith, count-rest-le j s.pending_capacity)))

  admit_front-IsValid :
      (s : Inner v) (o : Option ℕ)
      → IsValid v s
      → ((sid : ℕ)
          → o ≡ some sid
          → (is_front sid s.pending_capacity ≡ true)
            × (is_ready_capacity v (lookup sid s.streams) ≡ true))
      → IsValid v (admit_front v (s, o)).0
  unfolding admit_front
  admit_front-IsValid s none h ready = h
  admit_front-IsValid s (some sid) h ready = elim (Option-cases (lookup sid s.streams)) [
    | inl e ↦ rw (e, admit_front) h
    | inr (e, p) ↦
        let (front, go) = ready sid refl in
        rw (p, admit_front)
          (admit-IsValid s sid e h p front (subst (λ o. is_ready_capacity v o ≡ true) p go))
  ]

  admit_unless-IsValid :
      (s : Inner v) (o : Option ℕ) → IsValid v s → IsValid v (admit_unless v (s, o)).0
  unfolding admit_unless capacity_front
  admit_unless-IsValid s (some sid) h = h
  admit_unless-IsValid s none h =
      admit_front-IsValid (capacity_front v s).0 (capacity_front v s).1
        (capacity_front-IsValid v s h)
        λ sid. front-skip_stale (is_ready_capacity v) s.streams sid s.pending_capacity

  -- The admission of the first stream that waits for the connection window keeps the connection
  -- state well formed, also where the window is empty or no stream waits.
  pub admit_capacity_front-IsValid :
      (s : Inner v) → IsValid v s → IsValid v (admit_capacity_front v s).0
  unfolding admit_capacity_front
  admit_capacity_front-IsValid s h = elim (Bool-cases (v.window_size s.conn_send == 0)) [
    | inl blocked ↦ rw blocked h
    | inr open_window ↦
        rw open_window (admit_unless-IsValid _ (send_front v s).1 (send_front-IsValid v s h))
  ]

  abbrev rotated : Inner v → ℕ → StreamEntry v → Inner v
  rotated s sid e = record s {
    pending_send = rest s.pending_send ++ sid ∷ [];
    streams = insert sid (record e { turn_frames = 0 }) s.streams;
  }

  rotated-IsValid :
      (s : Inner v) (sid : ℕ) (e : StreamEntry v)
      → IsValid v s
      → lookup sid s.streams ≡ some e
      → is_front sid s.pending_send ≡ true
      → IsValid v (rotated s sid e)
  rotated-IsValid s sid e h p f =
      update-StoreValid v h sid e (record e { turn_frames = 0 }) _ _ _ _ p refl (omega arith)
        (ground (
          arith,
          h.entries sid,
          count-rest_front sid s.pending_send,
          count-snoc_self sid (rest s.pending_send),
        ))
        (λ j n. (
          omega
              (arith, count-snoc_ne sid j (rest s.pending_send) n, count-rest-le j s.pending_send),
          omega arith,
        ))

  -- A stream at the front is stored.
  unqueued_gone :
      (s : Inner v) (sid : ℕ)
      → IsValid v s
      → lookup sid s.streams ≡ none
      → is_front sid s.pending_send ≡ true
      → ⊥
  unqueued_gone s sid h gone f =
      let absent : EntryValid v none (count sid s.pending_send) (count sid s.pending_capacity) =
        subst (λ o. EntryValid v o (count sid s.pending_send) (count sid s.pending_capacity)) gone
          (h.entries sid) in
      ground (arith, absent, count-rest_front sid s.pending_send f)

  -- A stream that passes its turn on keeps the connection state well formed, whether it is at the
  -- front of the rotation or not.
  pub yield_send_turn-IsValid :
      (s : Inner v) (sid : ℕ) → IsValid v s → IsValid v (yield_send_turn v s sid).0
  unfolding yield_send_turn
  yield_send_turn-IsValid s sid h = elim (Bool-cases (is_front sid s.pending_send)) [
    | inr other ↦ rw (yield_send_turn, other) h
    | inl front_turn ↦ elim (Option-cases (lookup sid s.streams)) [
      | inr (e, p) ↦ rw (yield_send_turn, front_turn, p) (rotated-IsValid s sid e h p front_turn)
      | inl gone ↦ absurd (unqueued_gone s sid h gone front_turn)
    ]
  ]
