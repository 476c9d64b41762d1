-- ===== src/H2/Inner/Queues.antt =====
-- src/h2/conn.rs, the send rotation: `pending_send` and `pending_capacity`.
pub mod Turns
pub mod Pending
pub mod Valid
pub mod Live
use httpunk.Prelude.{
  ℕ, zero, suc, ◌+◌, ◌-◌, ◌≤◌, ◌<◌, min, ◌≡◌, refl, Bool, true, false, not, ◌&&◌, ◌||◌, Option,
  none, some, List, [], ◌∷◌, ◌++◌, arith, leb, ltb, ◌==◌, if◌then◌else◌, without, rest, is_front,
}
use httpunk.Prelude.Map.{lookup, insert, remove}
use httpunk.H2.Vendor.{Vendor}
use httpunk.H2.Inner.{StreamEntry, Inner, Flags, no_flags, flag_capacity, ◌|||◌}

abbrev is_empty : List ℕ → Bool
is_empty [] = true
is_empty (x ∷ xs) = false

abbrev pub front : List ℕ → Option ℕ
front [] = none
front (x ∷ xs) = some x

module _ (v : Vendor) where
  pub stream_room : Inner v → StreamEntry v → ℕ
  stream_room s e = min (v.window_size e.send_flow) (s.max_send_buf_size - e.send_buffered)

  -- The test of `send_front`: the stream is queued and may still send.
  abbrev pub is_ready_send : Option (StreamEntry v) → Bool
  is_ready_send none = false
  is_ready_send (some e) = e.is_pending_send && not e.finished && v.is_send_streaming e.state

  abbrev pub is_ready_capacity : Option (StreamEntry v) → Bool
  is_ready_capacity none = false
  is_ready_capacity (some e) =
      e.is_pending_capacity && not e.finished && v.is_send_streaming e.state

  -- The queue from its first ready entry on.
  unfoldable pub skip_stale :
      (Option (StreamEntry v) → Bool) → List (ℕ × StreamEntry v) → List ℕ → List ℕ
  skip_stale ready m [] = []
  skip_stale ready m (sid ∷ q) = if ready (lookup sid m) then sid ∷ q else skip_stale ready m q

  pub send_front : Inner v → Inner v × Option ℕ
  send_front s =
      let q = skip_stale is_ready_send s.streams s.pending_send in
      (record s { pending_send = q }, front q)

  pub capacity_front : Inner v → Inner v × Option ℕ
  capacity_front s =
      let q = skip_stale is_ready_capacity s.streams s.pending_capacity in
      (record s { pending_capacity = q }, front q)

  pub enqueue_send : Inner v → ℕ → Inner v
  enqueue_send s sid = elim (lookup sid s.streams) [
    | none ↦ s
    | some e ↦ if e.is_pending_send then s else (record s {
      streams = insert sid (record e { is_pending_send = true; turn_frames = 0 }) s.streams;
      pending_send = s.pending_send ++ sid ∷ [];
    })
  ]

  pub enqueue_capacity : Inner v → ℕ → Inner v
  enqueue_capacity s sid = elim (lookup sid s.streams) [
    | none ↦ s
    | some e ↦ if e.is_pending_capacity then s else (record s {
      streams = insert sid (record e { is_pending_capacity = true }) s.streams;
      pending_capacity = s.pending_capacity ++ sid ∷ [];
    })
  ]

  pub queue_wake_flag : Inner v → Flags
  queue_wake_flag s =
      if not (is_empty s.pending_send)
        || (not (is_empty s.pending_capacity) && ltb 0 (v.window_size s.conn_send))
      then flag_capacity
      else no_flags

  pub leave_send_queue : Inner v → ℕ → Inner v × Flags
  leave_send_queue s sid = elim (lookup sid s.streams) [
    | none ↦ (s, no_flags)
    | some e ↦
        if not e.is_pending_send
        then (s, no_flags)
        else (let m =
              insert sid (record e { is_pending_send = false; turn_frames = 0 }) s.streams in
            if is_front sid s.pending_send
            then (let s' = record s { streams = m; pending_send = rest s.pending_send } in
                (s', queue_wake_flag s'))
            else (record s { streams = m; pending_send = without sid s.pending_send }, no_flags))
  ]

  pub leave_capacity_queue : Inner v → ℕ → Inner v × Flags
  leave_capacity_queue s sid = elim (lookup sid s.streams) [
    | none ↦ (s, no_flags)
    | some e ↦
        if not e.is_pending_capacity
        then (s, no_flags)
        else (let m = insert sid (record e { is_pending_capacity = false }) s.streams in
            if is_front sid s.pending_capacity
            then (let s' = record s { streams = m; pending_capacity = rest s.pending_capacity } in
                (s', queue_wake_flag s'))
            else (
              record s { streams = m; pending_capacity = without sid s.pending_capacity },
              no_flags,
            ))
  ]

  pub yield_send_turn : Inner v → ℕ → Inner v × Flags
  yield_send_turn s sid =
      let s' =
        if is_front sid s.pending_send
        then (record s {
          pending_send = rest s.pending_send ++ sid ∷ [];
          streams = elim (lookup sid s.streams) [
            | none ↦ s.streams
            | some e ↦ insert sid (record e { turn_frames = 0 }) s.streams
          ];
        })
        else s in
      (s', queue_wake_flag s')

  -- The admitted stream, if there is window and the rotation is empty.
  admit : Inner v → ℕ → StreamEntry v → Inner v × Option ℕ
  unfolding enqueue_send
  admit s sid e =
      let t = record s {
        streams = insert sid (record e { is_pending_capacity = false }) s.streams;
        pending_capacity = rest s.pending_capacity;
      } in
      (enqueue_send t sid, some sid)

  -- The admission, once there is window and the rotation is empty. A front of `capacity_front` is a
  -- stored stream (the `expect("live")`).
  admit_front : Inner v × Option ℕ → Inner v × Option ℕ
  unfolding admit
  admit_front (s, none) = (s, none)
  admit_front (s, some sid) = elim (lookup sid s.streams) [
    | none ↦ (s, none)
    | some e ↦ admit s sid e
  ]

  -- With the rotation occupied nothing is admitted.
  admit_unless : Inner v × Option ℕ → Inner v × Option ℕ
  unfolding admit_front capacity_front
  admit_unless (s, some sid) = (s, none)
  admit_unless (s, none) = admit_front (capacity_front s)

  pub admit_capacity_front : Inner v → Inner v × Option ℕ
  unfolding admit_unless send_front
  admit_capacity_front s =
      if v.window_size s.conn_send == 0 then (s, none) else admit_unless (send_front s)
