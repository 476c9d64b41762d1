-- ===== src/H2/Inner/Send.antt =====
-- src/h2/conn.rs, sending: `send_data`, with `no_window`, `stopped_send`, `completed_send`, and
-- `Encoder::encode_data` of src/h2/codec.rs. The clock is an argument.
pub mod Bounds
pub mod Framed
pub mod Live
pub mod Valid
use httpunk.Prelude.{
  ℕ, suc, ◌+◌, ◌-◌, min, Bool, true, false, not, ◌&&◌, Option, none, some, List, [], ◌∷◌, ◌++◌, leb,
  ltb, ◌==◌, if◌then◌else◌, length, without, take, drop,
}
use httpunk.Prelude.Map.{lookup}
use httpunk.H2.Vendor.{Vendor, payload_too_big}
use httpunk.H2.Errors.{Error, user_misuse, Result, ok, err, map_reason}
use httpunk.H2.Inner.{
  StreamEntry, Inner, Frame, data_frame, Stopped, Flags, no_flags, ◌|||◌, ResetVerdict,
}
use httpunk.H2.Inner.Entry.{stopped, fc_send_data}
use httpunk.H2.Inner.Queues.{
  stream_room, send_front, enqueue_send, enqueue_capacity, leave_send_queue, yield_send_turn,
}
use httpunk.H2.Inner.Reset.{no_reset, finish_stream}
use httpunk.H2.Inner.Headers.{wake_flag, put_entry, queue}

pub record SendVerdict : Type 0 where
  pub sent : ℕ
  pub done : Bool
  pub stopped_by : Option Stopped
  pub flags : Flags
  pub handle : Option ℕ
  pub reader_stop : Option Stopped

abbrev pub no_window : Flags → SendVerdict
no_window f = record {
  sent = 0;
  done = false;
  stopped_by = none;
  flags = f;
  handle = none;
  reader_stop = none;
}

abbrev pub stopped_send : Stopped → SendVerdict
stopped_send stop = record (no_window no_flags) { stopped_by = some stop }

abbrev pub completed_send : ℕ → Flags → ResetVerdict → SendVerdict
completed_send n f tail = record {
  sent = n;
  done = true;
  stopped_by = none;
  flags = f ||| tail.flags;
  handle = tail.handle;
  reader_stop = tail.stop;
}

-- The frame of a batch is credited with the last one when it is the same stream's.
abbrev add_credit : ℕ → ℕ → List (ℕ × ℕ) → List (ℕ × ℕ)
add_credit sid n [] = (sid, n) ∷ []
add_credit sid n ((last, m) ∷ []) =
    if last == sid then (last, m + n) ∷ [] else (last, m) ∷ (sid, n) ∷ []
add_credit sid n (c ∷ d ∷ cs) = c ∷ add_credit sid n (d ∷ cs)

module _ (v : Vendor) where
  -- `encode_data`: a payload above the peer's limit is refused.
  pub encode_data : ℕ → List ℕ → Bool → Inner v → Inner v × Result (Unit {0})
  encode_data sid bytes end_stream s =
      if ltb s.send_max_frame_size (length bytes)
      then (s, err (user_misuse payload_too_big))
      else (queue v (data_frame sid bytes end_stream) s, ok tt)

  -- The END_STREAM frame closes the send half in the same step.
  pub close_send : ℕ → ℕ → ℕ → Flags → ℕ → Inner v → Inner v × Result SendVerdict
  close_send now before n queue_flags sid s =
      let s1 : Inner v = elim (lookup sid s.streams) [
        | none ↦ s
        | some e ↦ put_entry v sid (record e { state = v.send_close e.state }) s
      ] in
      let (s2, tail) = finish_stream v s1 now sid in
      (s2, ok (completed_send n (wake_flag v s2 before ||| queue_flags) tail))

  pub send_empty : ℕ → ℕ → Bool → Inner v → Inner v × Result SendVerdict
  unfolding encode_data close_send
  send_empty now sid end_stream s =
      let before = length s.pending in
      let (s1, r) = encode_data sid [] end_stream s in
      elim r [
        | err x ↦ (s1, err x)
        | ok _ ↦
            if end_stream
            then close_send now before 0 no_flags sid s1
            else (s1, ok (completed_send 0 (wake_flag v s1 before) (no_reset no_flags)))
      ]

  -- A stream without room has no place in the rotation; it waits for the connection's window when
  -- only that is missing.
  pub wait_for_window : ℕ → ℕ → Inner v → Inner v × Result SendVerdict
  wait_for_window sid room s =
      let s1 =
        if (v.window_size s.conn_send == 0) && ltb 0 room then enqueue_capacity v s sid else s in
      let (s2, flags) = leave_send_queue v s1 sid in (s2, ok (no_window flags))

  -- Ready: the stream no longer waits for the connection's window.
  pub stop_waiting : ℕ → StreamEntry v → Inner v → Inner v
  stop_waiting sid e s =
      if e.is_pending_capacity
      then (record (put_entry v sid (record e { is_pending_capacity = false }) s) {
        pending_capacity = without sid s.pending_capacity;
      })
      else s

  -- After a frame: out of the rotation when nothing is left to send or to send with.
  pub end_turn : ℕ → Bool → Inner v → Inner v × Flags
  end_turn sid finished_chunk s =
      if finished_chunk then leave_send_queue v s sid else elim (lookup sid s.streams) [
        | none ↦ (s, no_flags)
        | some e ↦
            let room_after = stream_room v s e in
            if (v.window_size s.conn_send == 0) && ltb 0 room_after
            then leave_send_queue v (enqueue_capacity v s sid) sid
            else (if room_after == 0 then leave_send_queue v s sid else (s, no_flags))
      ]

  -- Both windows and the send buffer take the bytes.
  pub take_bytes : ℕ → ℕ → StreamEntry v → Inner v → Inner v × Result (Unit {0})
  take_bytes sid n e s =
      let (conn, overrun) = fc_send_data v s.conn_send n in
      let s1 = record s { conn_send = conn } in
      let (fc, stream_overrun) = fc_send_data v e.send_flow n in
      elim overrun [
        | some reason ↦ (s1, err (map_reason reason))
        | none ↦ elim stream_overrun [
          | some reason ↦
              (put_entry v sid (record e { send_flow = fc }) s1, err (map_reason reason))
          | none ↦ (
            put_entry v sid
                (record e {
                  send_flow = fc;
                  send_buffered = e.send_buffered + n;
                  turn_frames = e.turn_frames + 1;
                })
                s1,
            ok tt,
          )
        ]
      ]

  -- The frame is queued and credited, and the last one closes the send half.
  emit_frame : ℕ → ℕ → ℕ → List ℕ → ℕ → ℕ → Bool → Flags → Inner v → Inner v × Result SendVerdict
  unfolding encode_data close_send
  emit_frame now before sid bytes n want last queue_flags s =
      let (s1, r) = encode_data sid bytes last s in
      let s2 = record s1 { credit = add_credit sid n s1.credit } in
      elim r [
        | err x ↦ (s1, err x)
        | ok _ ↦ if last then close_send now before n queue_flags sid s2 else (
          s2,
          ok (record (no_window (wake_flag v s2 before ||| queue_flags)) {
            sent = n;
            done = n == want;
          }),
        )
      ]

  -- How much one frame takes: the budget, what is left, and the peer's frame size.
  abbrev pub frame_size : ℕ → ℕ → Inner v → ℕ
  frame_size budget want s = min (min budget want) s.peer.max_frame_size

  send_frame :
      ℕ → ℕ → List ℕ → ℕ → Bool → ℕ → StreamEntry v → Inner v → Inner v × Result SendVerdict
  unfolding take_bytes end_turn emit_frame
  send_frame now sid bytes offset end_stream budget e s =
      let before = length s.pending in
      let want = length bytes - offset in
      let n = frame_size budget want s in
      let last = end_stream && (n == want) in
      let (s1, r) = take_bytes sid n e s in
      elim r [
        | err x ↦ (s1, err x)
        | ok _ ↦
            let (s2, queue_flags) = end_turn sid (n == want) s1 in
            emit_frame now before sid (take n (drop offset bytes)) n want last queue_flags s2
      ]

  -- The front's turn, which ends after a burst when others wait.
  send_turn : ℕ → ℕ → List ℕ → ℕ → Bool → ℕ → Inner v → Inner v × Result SendVerdict
  unfolding send_frame
  send_turn now sid bytes offset end_stream budget s = elim (lookup sid s.streams) [
    | none ↦ (s, ok (no_window no_flags))
    | some e ↦
        if leb s.burst_frames e.turn_frames && ltb 1 (length s.pending_send)
        then (let (s', flags) = yield_send_turn v s sid in (s', ok (no_window flags)))
        else (if leb s.burst_frames e.turn_frames && ltb 1 s.num_active
            then (s, ok (no_window no_flags))
            else send_frame now sid bytes offset end_stream budget e s)
  ]

  -- The rotation: the front sends, anyone else lines up.
  line_up : ℕ → ℕ → List ℕ → ℕ → Bool → ℕ → Inner v → Inner v × Result SendVerdict
  unfolding send_turn
  line_up now sid bytes offset end_stream budget s =
      let (s1, front) = send_front v s in
      elim front [
        | none ↦ send_turn now sid bytes offset end_stream budget (enqueue_send v s1 sid)
        | some head ↦
            if head == sid
            then send_turn now sid bytes offset end_stream budget s1
            else (enqueue_send v s1 sid, ok (no_window no_flags))
      ]

  send_chunk : ℕ → ℕ → List ℕ → ℕ → Bool → StreamEntry v → Inner v → Inner v × Result SendVerdict
  unfolding wait_for_window stop_waiting line_up
  send_chunk now sid bytes offset end_stream e s =
      let room = stream_room v s e in
      let budget = min room (v.window_size s.conn_send) in
      if budget == 0
      then wait_for_window sid room s
      else line_up now sid bytes offset end_stream budget (stop_waiting sid e s)

  abbrev is_nil : List ℕ → Bool
  is_nil [] = true
  is_nil (x ∷ xs) = false

  pub send_data : ℕ → ℕ → List ℕ → ℕ → Bool → Inner v → Inner v × Result SendVerdict
  unfolding send_empty send_chunk
  send_data now sid bytes offset end_stream s = elim (lookup sid s.streams) [
    | none ↦ (s, ok (stopped_send (record { reason = none; conn = false })))
    | some e ↦
        if not (v.is_send_streaming e.state)
        then (s, ok (stopped_send (stopped v e)))
        else (if is_nil bytes
            then send_empty now sid end_stream s
            else send_chunk now sid bytes offset end_stream e s)
  ]
