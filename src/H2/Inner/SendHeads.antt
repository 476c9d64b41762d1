-- ===== src/H2/Inner/SendHeads.antt =====
-- src/h2/conn.rs, the header frames of a send half and two calls around it: `send_trailers`,
-- `send_response_head`, `release_capacity`, `next_capacity_wake`. What the codec answers on a
-- response's fields (`check_send_fields`) and on its frame (`build_response_headers`) are arguments;
-- a header frame stands without its fields.
pub mod Unsent
pub mod Valid
use httpunk.Prelude.{ℕ, Bool, true, false, not, Option, none, some, length, if◌then◌else◌}
use httpunk.Prelude.Map.{lookup}
use httpunk.H2.Vendor.{Vendor}
use httpunk.H2.Errors.{Result, ok, err, map_user_err}
use httpunk.H2.Inner.{StreamEntry, Inner, headers, Flags, no_flags, ResetVerdict}
use httpunk.H2.Inner.Entry.{stopped}
use httpunk.H2.Inner.Window.{release_capacity_inner}
use httpunk.H2.Inner.Queues.{send_front, admit_capacity_front}
use httpunk.H2.Inner.Reset.{no_reset, finish_stream}
use httpunk.H2.Inner.Headers.{wake_flag, put_entry, queue}
use httpunk.H2.Inner.Send.{SendVerdict, stopped_send, completed_send}

module _ (v : Vendor) where
  -- The send half closes, and the frame that says so is queued.
  queue_trailers : ℕ → StreamEntry v → Inner v → Inner v
  queue_trailers sid e s =
      queue v (headers sid true) (put_entry v sid (record e { state = v.send_close e.state }) s)

  pub send_trailers : ℕ → ℕ → Inner v → Inner v × SendVerdict
  unfolding queue_trailers
  send_trailers now sid s = elim (lookup sid s.streams) [
    | none ↦ (s, stopped_send (record { reason = none; conn = false }))
    | some e ↦
        if not (v.is_send_streaming e.state)
        then (s, stopped_send (stopped v e))
        else (let (s', tail) = finish_stream v (queue_trailers sid e s) now sid in
            (s', completed_send 0 (wake_flag v s' (length s.pending)) tail))
  ]

  -- A response without a body is complete with its head.
  finish_head : ℕ → ℕ → Bool → Inner v → Inner v × ResetVerdict
  finish_head now sid end_stream s =
      if end_stream then finish_stream v s now sid else (s, no_reset no_flags)

  -- The state opens for the head, which is then queued.
  open_head : ℕ → ℕ → Bool → StreamEntry v → Inner v → Inner v × Result SendVerdict
  unfolding finish_head
  open_head now sid end_stream e s =
      let (st, failure) = v.send_open end_stream e.state in
      let s1 = put_entry v sid (record e { state = st }) s in
      elim failure [
        | some x ↦ (s1, err (map_user_err x))
        | none ↦
            let (s2, tail) = finish_head now sid end_stream (queue v (headers sid end_stream) s1) in
            (s2, ok (completed_send 0 (wake_flag v s2 (length s.pending)) tail))
      ]

  -- `checked` comes before the stream is looked up, `built` after.
  unfoldable pub send_response_head :
      ℕ → ℕ → Bool → Result (Unit {0}) → Result (Unit {0}) → Inner v → Inner v × Result SendVerdict
  unfolding open_head
  send_response_head now sid end_stream checked built s = elim checked [
    | err x ↦ (s, err x)
    | ok _ ↦ elim (lookup sid s.streams) [
      | none ↦ (s, ok (stopped_send (record { reason = none; conn = false })))
      | some e ↦
          if v.is_closed e.state
          then (s, ok (stopped_send (stopped v e)))
          else elim built [ err x ↦ (s, err x) | ok _ ↦ open_head now sid end_stream e s ]
    ]
  ]

  pub release_capacity : ℕ → ℕ → Inner v → Inner v × Flags
  release_capacity sid n s =
      let s' = release_capacity_inner v s sid n in (s', wake_flag v s' (length s.pending))

  -- `send_front` answers with a stored stream only.
  pub next_capacity_wake : Inner v → Inner v × Option ℕ
  next_capacity_wake s =
      let (s', front) = send_front v (admit_capacity_front v s).0 in
      elim front [
        | none ↦ (s', none)
        | some sid ↦ elim (lookup sid s'.streams) [
          | none ↦ (s', none)
          | some e ↦ (s', some e.handle)
        ]
      ]
