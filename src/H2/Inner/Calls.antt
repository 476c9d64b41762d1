-- ===== src/H2/Inner/Calls.antt =====
-- src/h2/conn.rs, the application's calls: `open_stream`, `reset_stream`, `reset_on_error`, `aclose_body`,
-- `release_data_frame`, `accepted`, `take_pending` and `credit_written`. The clock is an argument,
-- and so is whether `build_request_headers` of src/h2/codec.rs accepts the request.
pub mod Valid
use httpunk.Prelude.{
  ℕ, ◌+◌, ◌-◌, min, Bool, true, false, not, ◌&&◌, ◌||◌, Option, none, some, List, [], ◌∷◌, ◌++◌,
  leb, ltb, ◌==◌, if◌then◌else◌, length, without, is_some, contains, list_eq, codes,
}
use httpunk.Prelude.Map.{lookup, insert}
use httpunk.H2.Budget
use httpunk.H2.Budget.{default_data_frame_overhead_threshold}
use httpunk.H2.Reason
use httpunk.H2.Vendor.{Vendor, Initiator, user, library, remote}
use httpunk.H2.Errors.{Error, value, protocol, Result, ok, err, map_user_err}
use httpunk.H2.Inner.{
  StreamEntry, Inner, Frame, headers, rst_stream, Flags, no_flags, ◌|||◌, ResetVerdict,
}
use httpunk.H2.Inner.Entry.{new_entry}
use httpunk.H2.Inner.Window.{
  maybe_remove_settled, reclaim_stream_accounting, clear_expired_reset_streams,
}
use httpunk.H2.Inner.Store.{is_dead, protocol_err, close_stream}
use httpunk.H2.Inner.Reset.{no_reset, reset_stream}
use httpunk.H2.Inner.Headers.{wake_flag, put_entry, queue}
use httpunk.H2.Inner.Shutdown.{max_stream_id_value, release_slot_count}

parse_initiator : List ℕ → Result Initiator
parse_initiator name =
    if list_eq name (codes "user")
    then ok user
    else (if list_eq name (codes "library")
        then ok library
        else (if list_eq name (codes "remote") then ok remote else err value))

module _ (v : Vendor) where
  -- The hooks that tests set an id with.
  pub set_next_stream_id : ℕ → Inner v → Inner v
  set_next_stream_id sid s = record s { next_id = sid }

  pub set_max_stream_id : ℕ → Inner v → Inner v
  set_max_stream_id sid s = record s { max_stream_id = sid }

  pub set_last_processed_id : ℕ → Inner v → Inner v
  set_last_processed_id sid s = record s { last_processed_id = sid }

  -- The id is taken, and the stream with its claimed slot is stored.
  start_stream : ℕ → ℕ → Bool → Bool → Inner v → Inner v × Result (Option ℕ)
  start_stream sid handle end_stream is_head s =
      let s1 = record s { next_id = s.next_id + 2 } in
      let fresh = new_entry v handle s.peer.initial_window_size s.recv_init is_head in
      let (st, failure) = v.send_open end_stream fresh.state in
      elim failure [
        | some x ↦ (s1, err (map_user_err x))
        | none ↦ (
          queue v (headers sid end_stream) (record s1 {
            streams = insert sid (record fresh { state = st; holds_slot = true }) s.streams;
            num_active = s.num_active + 1;
          }),
          ok (some sid),
        )
      ]

  -- `none`: the connection is dead. The claimed slot is given back wherever no stream starts.
  pub open_stream : ℕ → Bool → Bool → Result (Unit {0}) → Inner v → Inner v × Result (Option ℕ)
  unfolding start_stream
  open_stream handle end_stream is_head built s =
      if is_dead v s
      then (release_slot_count v s, ok none)
      else (if ltb max_stream_id_value s.next_id
          then (release_slot_count v s, err (protocol_err Reason.refused_stream))
          else elim built [
            | err x ↦ (release_slot_count v s, err x)
            | ok _ ↦ start_stream s.next_id handle end_stream is_head s
          ])

  at_cap : Option ℕ → ℕ → Bool
  at_cap none n = false
  at_cap (some cap) n = leb cap n

  -- The reset of a stream that was forgotten: remembered, unless it was a refused request.
  reset_forgotten : ℕ → ℕ → ℕ → Inner v → Inner v × ResetVerdict
  reset_forgotten now sid reason s =
      let s1 =
        if reason == Reason.refused_stream
        then s
        else (let t = clear_expired_reset_streams v s now in
            if ltb (length t.reset_streams) t.reset_stream_max
            then record t { reset_streams = insert sid now t.reset_streams }
            else t) in
      let s2 = queue v (rst_stream sid reason) s1 in
      (s2, no_reset (wake_flag v s2 (length s.pending)))

  -- The verdict of a reset, with the frames that it queued.
  with_wake : ℕ → Inner v × ResetVerdict → Inner v × ResetVerdict
  with_wake before (s, verdict) =
      (s, record verdict { flags = verdict.flags ||| wake_flag v s before })

  -- `H2Streams::reset_stream`, by the caller's word for who resets.
  pub reset_stream_by : ℕ → ℕ → ℕ → List ℕ → Inner v → Inner v × Result ResetVerdict
  unfolding parse_initiator with_wake
  reset_stream_by now sid reason name s = elim (parse_initiator name) [
    | err x ↦ (s, err x)
    | ok initiator ↦
        let (s', verdict) =
          with_wake (length s.pending) (reset_stream v s now sid reason initiator) in
        (s', ok verdict)
  ]

  pub reset_on_error : ℕ → ℕ → ℕ → Inner v → Inner v × Result ResetVerdict
  unfolding at_cap reset_forgotten with_wake
  reset_on_error now sid reason s =
      if at_cap s.max_local_error_resets s.local_error_resets
      then (s, err (protocol Reason.enhance_your_calm (codes "too_many_internal_resets")))
      else (let s1 = record s { local_error_resets = s.local_error_resets + 1 } in
          let (s2, verdict) =
            if is_some (lookup sid s.streams)
            then with_wake (length s.pending) (reset_stream v s1 now sid reason library)
            else reset_forgotten now sid reason s1 in
          (s2, ok verdict))

  -- A body that was received whole needs no reset.
  close_read : ℕ → Inner v → Inner v × ResetVerdict
  close_read sid s =
      let (s', flags) = close_stream v (reclaim_stream_accounting v s sid) sid in
      (s', no_reset (flags ||| wake_flag v s' (length s.pending)))

  pub aclose_body : ℕ → ℕ → Inner v → Inner v × ResetVerdict
  unfolding close_read with_wake
  aclose_body now sid s = elim (lookup sid s.streams) [
    | none ↦ (s, no_reset no_flags)
    | some e ↦
        if v.is_recv_end_stream e.state
        then close_read sid s
        else with_wake (length s.pending) (reset_stream v s now sid Reason.cancel user)
  ]

  -- The charge of a consumed chunk, at most what the stream still owes.
  release_charge : ℕ → ℕ → StreamEntry v → Inner v → Inner v
  release_charge sid payload_len e s =
      let charge =
        min (default_data_frame_overhead_threshold - payload_len) e.data_budget_charged in
      let e' = record e { data_budget_charged = e.data_budget_charged - charge } in
      maybe_remove_settled v
        (record (put_entry v sid e' s) { data_budget = Budget.release s.data_budget charge }) sid

  pub release_data_frame : ℕ → ℕ → Inner v → Inner v
  unfolding release_charge
  release_data_frame sid payload_len s = elim (lookup sid s.streams) [
    | none ↦ s
    | some e ↦
        if (payload_len == 0) || leb default_data_frame_overhead_threshold payload_len
        then s
        else release_charge sid payload_len e s
  ]

  pub accepted : ℕ → Inner v → Inner v
  accepted sid s = record s {
    pending_accept = without sid s.pending_accept;
    remote_reset_pending = without sid s.remote_reset_pending;
  }

  -- The batch that leaves for the transport.
  pub take_pending : Inner v → Inner v × List Frame
  take_pending s = (
    record s { pending = []; credit = []; inflight_credit = s.inflight_credit ++ s.credit },
    s.pending,
  )

  -- The handles to wake, each stream's once: `woken` has the ids so far.
  credit_each : List (ℕ × ℕ) → List ℕ → Inner v → Inner v × List ℕ
  credit_each [] woken s = (s, [])
  credit_each ((sid, n) ∷ batch) woken s = elim (lookup sid s.streams) [
    | none ↦ credit_each batch woken s
    | some e ↦
        let e' = record e { send_buffered = e.send_buffered - n; turn_frames = 0 } in
        let (s', wake) = credit_each batch (sid ∷ woken) (put_entry v sid e' s) in
        (s', if contains sid woken then wake else e.handle ∷ wake)
  ]

  pub credit_written : Inner v → Inner v × List ℕ
  unfolding credit_each
  credit_written s = credit_each s.inflight_credit [] (record s { inflight_credit = [] })
