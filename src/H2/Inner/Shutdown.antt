-- ===== src/H2/Inner/Shutdown.antt =====
-- src/h2/conn.rs, the end of a connection and the slots: `recv_ping`, `recv_go_away`,
-- `send_goaway`, `fail`, `begin_graceful_shutdown`, `try_claim_slot`, `can_open`,
-- `release_slot_count`, `apply_stream_limit`.
pub mod Valid
pub mod Goaways
pub mod Phases
use httpunk.Prelude.{
  ℕ, ◌+◌, ◌-◌, Bool, true, false, not, ◌&&◌, ◌||◌, Option, none, some, List, [], ◌∷◌, ◌++◌, ltb,
  ◌==◌, if◌then◌else◌, length, is_some, codes,
}
use httpunk.Prelude.Map.{keys}
use httpunk.H2.Reason
use httpunk.H2.Vendor.{Vendor}
use httpunk.H2.Errors.{Error, value, Result, ok, err}
use httpunk.H2.Inner.{
  StreamEntry, Inner, Frame, go_away, ping, Stopped, Flags, no_flags, ◌|||◌, GoAwayInfo, ConnError,
}
use httpunk.H2.Inner.Store.{is_server, protocol_err, goaway_last_stream_id}
use httpunk.H2.Inner.Reset.{abort_each, fail_all}
use httpunk.H2.Inner.Headers.{wake_flag, queue}

-- `SHUTDOWN_PING`, and the largest stream id.
abbrev pub shutdown_ping : List ℕ
shutdown_ping = codes "SHUTDOWN"

abbrev pub max_stream_id_value : ℕ
max_stream_id_value = 2147483647

abbrev pub same_bytes : List ℕ → List ℕ → Bool
same_bytes [] [] = true
same_bytes [] (y ∷ ys) = false
same_bytes (x ∷ xs) [] = false
same_bytes (x ∷ xs) (y ∷ ys) = (x == y) && same_bytes xs ys

-- The ids above the last one that the peer processes.
abbrev pub above : ℕ → List ℕ → List ℕ
above last [] = []
above last (sid ∷ ids) = if ltb last sid then sid ∷ above last ids else above last ids

module _ (v : Vendor) where
  -- `encode_ping`: a payload of any other length is a `ValueError`.
  encode_ping : List ℕ → Bool → Inner v → Inner v × Result (Unit {0})
  encode_ping payload ack s =
      if length payload == 8 then (queue v (ping payload ack) s, ok tt) else (s, err value)

  -- The peer processed everything that it sent before the first GOAWAY: the final one.
  final_goaway : Inner v → Inner v × Flags
  final_goaway s =
      let s' =
        queue v (go_away s.last_processed_id Reason.no_error [])
          (record s { shutdown_final = true; max_stream_id = s.last_processed_id }) in
      (s', record (wake_flag v s' (length s.pending)) { stop_accepting = s.num_active == 0 })

  pub recv_ping : List ℕ → Bool → Inner v → Inner v × Result Flags
  unfolding encode_ping final_goaway
  recv_ping payload false s =
      let (s', r) = encode_ping payload true s in
      (s', elim r [ err x ↦ err x | ok _ ↦ ok (wake_flag v s' (length s.pending)) ])
  recv_ping payload true s =
      if not (is_server s.role)
        || not (same_bytes payload shutdown_ping)
        || not s.graceful
        || s.shutdown_final
      then (s, ok no_flags)
      else (let (s', flags) = final_goaway s in (s', ok flags))

  pub raises_last : Option ℕ → ℕ → Bool
  raises_last none last = false
  raises_last (some prev) last = ltb prev last

  -- A client gives up the streams that the peer did not process.
  give_up : ℕ → ℕ → Inner v → Inner v × List (ℕ × Stopped) × Flags
  give_up last error_code s =
      if is_server s.role
      then (s, [], no_flags)
      else (let (s', aborted, flags) =
            abort_each v s (some error_code) (above last (keys s.streams)) in
          (s', aborted, flags ||| record no_flags { slot_freed = true }))

  pub recv_go_away : ℕ → ℕ → List ℕ → Inner v → Inner v × Result (List (ℕ × Stopped) × Flags)
  unfolding raises_last give_up
  recv_go_away last error_code debug_data s =
      if raises_last s.goaway_last_id last
      then (s, err (protocol_err Reason.protocol_error))
      else (let (s', aborted, flags) = give_up last error_code (record s {
        goaway_last_id = some last;
        goaway =
            some (record { last_stream_id = last; reason = error_code; debug_data = debug_data });
      }) in
          (s', ok (aborted, flags)))

  pub send_goaway : ℕ → List ℕ → Inner v → Inner v × Flags
  send_goaway reason debug_data s =
      let s' = queue v (go_away (goaway_last_stream_id v s) reason debug_data) s in
      (s', wake_flag v s' (length s.pending))

  -- The first error stays; the streams are told in either case.
  pub fail : Option ConnError → Inner v → Inner v × List (ℕ × Stopped)
  fail exc s = fail_all v (record s {
    error = elim s.error [
      | some e ↦ some e
      | none ↦ elim exc [ some e ↦ some e | none ↦ some ConnError.closed ]
    ];
  })

  pub begin_graceful_shutdown : Inner v → Inner v × Result Flags
  unfolding encode_ping
  begin_graceful_shutdown s =
      if s.graceful
      then (s, ok no_flags)
      else (let s' =
            queue v (go_away max_stream_id_value Reason.no_error [])
              (record s { graceful = true }) in
          let (s'', r) = encode_ping shutdown_ping false s' in
          (s'', elim r [ err x ↦ err x | ok _ ↦ ok (wake_flag v s'' (length s.pending)) ]))

  -- The client's MAX_CONCURRENT_STREAMS slots.
  pub can_open : Inner v → Bool
  can_open s = elim s.stream_limit [ none ↦ true | some limit ↦ ltb s.num_open_streams limit ]

  unfoldable pub try_claim_slot : Inner v → Inner v × Bool
  unfolding can_open
  try_claim_slot s =
      if can_open s
      then (record s { num_open_streams = s.num_open_streams + 1 }, true)
      else (s, false)

  unfoldable pub release_slot_count : Inner v → Inner v
  release_slot_count s = record s { num_open_streams = s.num_open_streams - 1 }

  pub apply_stream_limit : Option ℕ → Inner v → Inner v
  apply_stream_limit limit s = record s { stream_limit = limit }
