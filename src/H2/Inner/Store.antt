-- ===== src/H2/Inner/Store.antt =====
-- src/h2/conn.rs, lookup classification and store maintenance: `ensure_not_idle`, `above_goaway`,
-- `recv_lookup`, `close_stream`, `on_stream_gone`, `maybe_goaway_reply`, `drop_closed_stored`.
pub mod Closed
pub mod Quiet
pub mod Valid
use httpunk.Prelude.{
  ℕ, ◌+◌, ◌-◌, ◌≡◌, Bool, true, false, not, ◌&&◌, ◌||◌, Option, none, some, List, [], ◌∷◌, ◌++◌,
  leb, ltb, ◌==◌, if◌then◌else◌, is_some,
}
use httpunk.Prelude.Map.{lookup, insert, remove}
use httpunk.H2.Reason
use httpunk.H2.Vendor.{Vendor, library}
use httpunk.H2.Errors.{Error, protocol, stream, Result, ok, err}
use httpunk.H2.Inner.{
  StreamEntry, Inner, Role, client, server, Frame, go_away, ConnError, closed, Flags, no_flags,
  ◌|||◌, usize_sub,
}
use httpunk.H2.Inner.Queues.{leave_send_queue, leave_capacity_queue}
use httpunk.H2.Inner.Window.{is_settled, reclaim_stream_accounting, in_reset_store}

-- `stream_err` and `protocol_err`.
abbrev pub stream_err : ℕ → ℕ → Error
stream_err sid reason = stream sid reason library

abbrev pub protocol_err : ℕ → Error
protocol_err reason = protocol reason []

abbrev pub is_server : Role → Bool
is_server client = false
is_server server = true

module _ (v : Vendor) where
  pub goaway_last_stream_id : Inner v → ℕ
  goaway_last_stream_id s = if is_server s.role then s.last_processed_id else 0

  pub is_dead : Inner v → Bool
  is_dead s = is_some s.error || is_some s.goaway

  pub ensure_not_idle : Inner v → ℕ → Result (Unit {0})
  ensure_not_idle s sid =
      let idle =
        if is_server s.role
        then not (v.is_client_initiated sid) || ltb s.last_recv_id sid
        else not (v.is_client_initiated sid) || leb s.next_id sid in
      if idle then err (protocol_err Reason.protocol_error) else ok tt

  pub above_goaway : Inner v → ℕ → Bool
  above_goaway s sid = is_server s.role && ltb s.max_stream_id sid

  pub maybe_goaway_reply : Inner v → Inner v × Flags
  unfolding goaway_last_stream_id
  maybe_goaway_reply s =
      if s.goaway_replied || is_some s.error || not (s.num_active == 0) || not (is_some s.goaway)
      then (s, no_flags)
      else (
        record s {
          goaway_replied = true;
          pending = s.pending ++ go_away (goaway_last_stream_id s) Reason.no_error [] ∷ [];
          error = some closed;
        },
        record no_flags { wake = true; conn_done = true },
      )

  pub on_stream_gone : Inner v → Inner v × Flags
  unfolding maybe_goaway_reply
  on_stream_gone s =
      let drained = is_server s.role && s.shutdown_final && (s.num_active == 0) in
      let (s', flags) = maybe_goaway_reply s in
      (s', record no_flags { stop_accepting = drained } ||| flags)

  -- The entry is finished and gives its slot back.
  abbrev retiring : Inner v → ℕ → StreamEntry v → Inner v
  retiring s sid e = record s {
    streams = insert sid (record e { finished = true; holds_slot = false }) s.streams;
    num_active = usize_sub s.num_active 1;
    num_open_streams = if e.holds_slot then usize_sub s.num_open_streams 1 else s.num_open_streams;
  }

  -- The part of `close_stream` behind its early return: the entry leaves the active set, the slots
  -- and both queues, and the store if it owes nothing.
  retire : Inner v → ℕ → StreamEntry v → Inner v × Flags
  retire s sid e =
      let (s2, sends) = leave_send_queue v (retiring s sid e) sid in
      let (s3, waits) = leave_capacity_queue v s2 sid in
      let s4 = if is_settled v e then (record s3 { streams = remove sid s3.streams }) else s3 in
      (s4, record no_flags { slot_freed = e.holds_slot } ||| (sends ||| waits))

  close_entry : Inner v → ℕ → StreamEntry v → Inner v × Flags
  unfolding retire on_stream_gone
  close_entry s sid e =
      let (s', flags) = retire s sid e in
      let (s'', gone) = on_stream_gone s' in (s'', flags ||| gone)

  pub close_stream : Inner v → ℕ → Inner v × Flags
  unfolding close_entry
  close_stream s sid = elim (lookup sid s.streams) [
    | none ↦ (s, no_flags)
    | some e ↦
        if not (v.is_closed e.state) || e.finished then (s, no_flags) else close_entry s sid e
  ]

  pub drop_closed_stored : Inner v → ℕ → Inner v × Flags
  drop_closed_stored s sid = close_stream (reclaim_stream_accounting v s sid) sid

  -- `recv_lookup` of an id that is not stored.
  lookup_forgotten : Inner v → ℕ → ℕ → Inner v × Result (Option ℕ)
  lookup_forgotten s now sid =
      let (s', recent) = in_reset_store v s now sid in
      if recent || above_goaway s' sid then (s', ok none) else (
        s',
        elim (ensure_not_idle s' sid) [
          | err e ↦ err e
          | ok _ ↦ err (stream_err sid Reason.stream_closed)
        ],
      )

  pub recv_lookup : Inner v → ℕ → ℕ → Inner v × Result (Option ℕ)
  unfolding lookup_forgotten
  recv_lookup s now sid = elim (lookup sid s.streams) [
    | none ↦ lookup_forgotten s now sid
    | some e ↦
        if v.is_local_error e.state
        then (s, ok none)
        else (if v.is_closed e.state
            then ((drop_closed_stored s sid).0, err (stream_err sid Reason.stream_closed))
            else (s, ok (some sid)))
  ]
