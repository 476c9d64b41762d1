-- ===== src/H2/Inner/Reset.antt =====
-- src/h2/conn.rs, resets and failures: `Inner::reset_stream`, `finish_stream`, `abort_stream`,
-- `fail_all`, `reject_oversize_request`. The clock is an argument.
pub mod Quiet
pub mod Valid
pub mod Aborts
use httpunk.Prelude.{
  ℕ, ◌+◌, Bool, true, false, not, Option, none, some, List, [], ◌∷◌, ◌++◌, map, if◌then◌else◌,
}
use httpunk.Prelude.Map.{lookup, insert, remove, keys}
use httpunk.H2.Reason
use httpunk.H2.Vendor.{Vendor, Initiator, user, library, remote, ProtoError}
use httpunk.H2.Errors.{Result, ok, err, map_user_err}
use httpunk.H2.Inner.{
  StreamEntry, Inner, Frame, headers, rst_stream, Stopped, Flags, no_flags, ◌|||◌, ResetVerdict,
}
use httpunk.H2.Inner.Entry.{stopped, stop_for_reader}
use httpunk.H2.Inner.Window.{reclaim_stream_accounting, enqueue_reset_expiration}
use httpunk.H2.Inner.Store.{is_server, close_stream}

abbrev pub no_reset : Flags → ResetVerdict
no_reset f = record { handle = none; stop = none; flags = f }

module _ (v : Vendor) where
  -- The entry with its state reset.
  abbrev pub reset_entry : ℕ → ℕ → Initiator → StreamEntry v → StreamEntry v
  reset_entry sid reason initiator e = record e { state = v.set_reset sid reason initiator e.state }

  -- The branch of `reset_stream` for a stream that is closed already: no frame.
  reset_closed : Inner v → ℕ → ℕ → ℕ → Initiator → StreamEntry v → Inner v × ResetVerdict
  reset_closed s now sid reason initiator e =
      let e' = if v.is_reset e.state then e else reset_entry sid reason initiator e in
      let s1 = reclaim_stream_accounting v (record s { streams = insert sid e' s.streams }) sid in
      let (s2, flags) = close_stream v s1 sid in
      (
        if v.is_local_error e'.state then enqueue_reset_expiration v s2 now sid else s2,
        record { handle = some e.handle; stop = stop_for_reader v e'; flags = flags },
      )

  -- The branch for a stream that is not: the whole reset commits here.
  reset_live : Inner v → ℕ → ℕ → ℕ → Initiator → StreamEntry v → Inner v × ResetVerdict
  reset_live s now sid reason initiator e =
      let e' = reset_entry sid reason initiator e in
      let s1 = reclaim_stream_accounting v (record s { streams = insert sid e' s.streams }) sid in
      let s2 = record s1 { pending = s1.pending ++ rst_stream sid reason ∷ [] } in
      let (s3, flags) = close_stream v s2 sid in
      (
        enqueue_reset_expiration v s3 now sid,
        record { handle = some e.handle; stop = stop_for_reader v e'; flags = flags },
      )

  pub reset_stream : Inner v → ℕ → ℕ → ℕ → Initiator → Inner v × ResetVerdict
  unfolding reset_closed reset_live
  reset_stream s now sid reason initiator = elim (lookup sid s.streams) [
    | none ↦ (s, no_reset no_flags)
    | some e ↦
        if v.is_closed e.state
        then reset_closed s now sid reason initiator e
        else reset_live s now sid reason initiator e
  ]

  -- `finish_stream` on the server, after the close: the request's recv half goes with the response.
  drop_request : Inner v → ℕ → ℕ → Flags → Inner v × ResetVerdict
  drop_request s now sid flags = elim (lookup sid s.streams) [
    | none ↦ (s, no_reset flags)
    | some e ↦
        if v.is_closed e.state
        then (reclaim_stream_accounting v s sid, no_reset flags)
        else (let (s', verdict) = reset_stream s now sid Reason.no_error user in
            (s', record verdict { flags = flags ||| verdict.flags }))
  ]

  pub finish_stream : Inner v → ℕ → ℕ → Inner v × ResetVerdict
  unfolding drop_request
  finish_stream s now sid =
      let (s', flags) = close_stream v s sid in
      if is_server s'.role then drop_request s' now sid flags else (s', no_reset flags)

  -- The state of a stream whose connection failed: by the peer's GOAWAY, or with no reason.
  abbrev pub aborted_state : ℕ → Option ℕ → v.State → v.State
  aborted_state sid none st = v.recv_eof st
  aborted_state sid (some r) st = v.handle_error (ProtoError.go_away [] r remote) st

  abbrev pub aborted_entry : ℕ → Option ℕ → StreamEntry v → StreamEntry v
  aborted_entry sid reason e = record e {
    state = aborted_state sid reason e.state;
    recv_unreleased = 0;
    data_budget_charged = 0;
    recv_reclaimed = true;
  }

  pub abort_stream : Inner v → ℕ → Option ℕ → Inner v × Option (ℕ × Stopped) × Flags
  abort_stream s sid reason = elim (lookup sid s.streams) [
    | none ↦ (s, none, no_flags)
    | some e ↦
        let e' = aborted_entry sid reason e in
        let (s', flags) = close_stream v (record s { streams = insert sid e' s.streams }) sid in
        (
          record s' { streams = remove sid s'.streams },
          if v.is_closed e.state then none else some (e.handle, stopped v e'),
          flags,
        )
  ]

  abbrev cons_some : Option (ℕ × Stopped) → List (ℕ × Stopped) → List (ℕ × Stopped)
  cons_some none xs = xs
  cons_some (some x) xs = x ∷ xs

  -- `abort_stream` over a list of ids, with the verdicts in order.
  pub abort_each : Inner v → Option ℕ → List ℕ → Inner v × List (ℕ × Stopped) × Flags
  abort_each s reason [] = (s, [], no_flags)
  abort_each s reason (sid ∷ ids) =
      let (s', out, flags) = abort_stream s sid reason in
      let (s'', outs, more) = abort_each s' reason ids in (s'', cons_some out outs, flags ||| more)

  pub fail_all : Inner v → Inner v × List (ℕ × Stopped)
  unfolding abort_each
  fail_all s = let (s', outs, flags) = abort_each s none (keys s.streams) in (s', outs)
