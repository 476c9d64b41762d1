-- ===== src/H2/Inner/Runs.antt =====
-- Any sequence of received frames and of calls on an HTTP/2 connection: every method of `H2Streams`
-- that changes its state, but for those that only take or store a task handle or ask the write pump
-- to stop, and the hooks of Python's garbage collector.
use httpunk.Prelude.{ℕ, ◌<◌, ◌≡◌, Bool, Option, none, List, [], ◌∷◌}
use httpunk.Prelude.Map.{lookup, count_if}
use httpunk.H2.Vendor.{Vendor, VendorLaws}
use httpunk.H2.Errors.{Result}
use httpunk.H2.Decoder.{Limits}
use httpunk.H2.Inner.{Inner, HeadersFrame, DataFrame, ConnError}
use httpunk.H2.Inner.Control.{SettingsFrame, recv_settings}
use httpunk.H2.Inner.Headers.{recv_headers}
use httpunk.H2.Inner.Receive.{recv_data, recv_window_update, recv_reset}
use httpunk.H2.Inner.Shutdown.{
  recv_ping, recv_go_away, send_goaway, fail, begin_graceful_shutdown, try_claim_slot,
  release_slot_count, apply_stream_limit,
}
use httpunk.H2.Inner.Queues.{admit_capacity_front}
use httpunk.H2.Inner.Send.{send_data}
use httpunk.H2.Inner.SendHeads.{
  send_trailers, send_response_head, release_capacity, next_capacity_wake,
}
use httpunk.H2.Inner.Begin.{begin}
use httpunk.H2.Inner.Begin.Valid.{begin-IsValid}
use httpunk.H2.Inner.Calls.{
  reset_on_error, aclose_body, release_data_frame, accepted, take_pending, credit_written,
  reset_stream_by, open_stream, set_next_stream_id, set_max_stream_id, set_last_processed_id,
}
use httpunk.H2.Inner.Invariant.{IsValid, has_slot, same-IsValid}
use httpunk.H2.Inner.Store.{maybe_goaway_reply}
use httpunk.H2.Inner.Store.Valid.{maybe_goaway_reply-SameStore}
use httpunk.H2.Inner.Writers.{writer_start, writer_end, release_writers}
use httpunk.H2.Inner.Writers.Valid.{
  writer_start-SameStore, writer_end-SameStore, release_writers-SameStore,
}
use httpunk.H2.Inner.Control.Valid.{recv_settings-IsValid}
use httpunk.H2.Inner.Headers.Valid.{recv_headers-IsValid}
use httpunk.H2.Inner.Receive.Valid.{recv_data-IsValid, recv_window_update-IsValid}
use httpunk.H2.Inner.Receive.Resets.{recv_reset-IsValid}
use httpunk.H2.Inner.Shutdown.Valid.{
  recv_go_away-IsValid, try_claim_slot-IsValid, release_slot_count-IsValid,
  apply_stream_limit-IsValid,
}
use httpunk.H2.Inner.Shutdown.Phases.{
  recv_ping-IsValid, send_goaway-IsValid, begin_graceful_shutdown-IsValid, fail-IsValid,
}
use httpunk.H2.Inner.Queues.Turns.{admit_capacity_front-IsValid}
use httpunk.H2.Inner.Send.Valid.{send_data-IsValid}
use httpunk.H2.Inner.SendHeads.Valid.{
  send_trailers-IsValid, send_response_head-IsValid, release_capacity-IsValid,
  next_capacity_wake-IsValid,
}
use httpunk.H2.Inner.Calls.Valid.{
  reset_on_error-IsValid, aclose_body-IsValid, release_data_frame-IsValid, accepted-IsValid,
  take_pending-IsValid, credit_written-IsValid, reset_stream_by-IsValid, open_stream-IsValid,
  set_next_stream_id-IsValid, set_max_stream_id-IsValid, set_last_processed_id-IsValid,
}

-- The frames with the clock at their arrival, and the calls.
pub data H2Call : Type 0 where
  got_headers : ℕ → HeadersFrame → Option ℕ → H2Call
  got_data : ℕ → DataFrame → H2Call
  got_window_update : ℕ → ℕ → H2Call
  got_reset : ℕ → ℕ → H2Call
  got_settings : SettingsFrame → Limits → H2Call
  got_ping : List ℕ → Bool → H2Call
  got_go_away : ℕ → ℕ → List ℕ → H2Call
  goaway_sent : ℕ → List ℕ → H2Call
  failed : Option ConnError → H2Call
  shutdown_begun : H2Call
  slot_claimed : H2Call
  data_sent : ℕ → ℕ → List ℕ → ℕ → Bool → H2Call
  head_sent : ℕ → ℕ → Bool → Result (Unit {0}) → Result (Unit {0}) → H2Call
  trailers_sent : ℕ → ℕ → H2Call
  capacity_released : ℕ → ℕ → H2Call
  wake_asked : H2Call
  error_reset : ℕ → ℕ → ℕ → H2Call
  body_closed : ℕ → ℕ → H2Call
  chunk_released : ℕ → ℕ → H2Call
  request_accepted : ℕ → H2Call
  batch_taken : H2Call
  batch_written : H2Call
  front_admitted : H2Call
  begun : ℕ → H2Call
  stream_reset : ℕ → ℕ → ℕ → List ℕ → H2Call
  reply_checked : H2Call
  limit_applied : Option ℕ → H2Call
  slot_released : H2Call
  stream_opened : ℕ → Bool → Bool → Result (Unit {0}) → H2Call
  writer_started : H2Call
  writer_ended : H2Call
  writers_released : H2Call
  next_id_set : ℕ → H2Call
  max_id_set : ℕ → H2Call
  processed_id_set : ℕ → H2Call

module _ (v : Vendor) where
  unfoldable pub perform : H2Call → Inner v → Inner v
  perform (got_headers now f spare) s = (recv_headers v now f spare s).0
  perform (got_data now f) s = (recv_data v now f s).0
  perform (got_window_update sid n) s = (recv_window_update v sid n s).0
  perform (got_reset sid error_code) s = (recv_reset v sid error_code s).0
  perform (got_settings f d) s = (recv_settings v f (s, d)).0.0
  perform (got_ping payload is_ack) s = (recv_ping v payload is_ack s).0
  perform (got_go_away last error_code debug_data) s =
      (recv_go_away v last error_code debug_data s).0
  perform (goaway_sent reason debug_data) s = (send_goaway v reason debug_data s).0
  perform (failed exc) s = (fail v exc s).0
  perform shutdown_begun s = (begin_graceful_shutdown v s).0
  perform slot_claimed s = (try_claim_slot v s).0
  perform (data_sent now sid bytes offset end_stream) s =
      (send_data v now sid bytes offset end_stream s).0
  perform (head_sent now sid end_stream checked built) s =
      (send_response_head v now sid end_stream checked built s).0
  perform (trailers_sent now sid) s = (send_trailers v now sid s).0
  perform (capacity_released sid n) s = (release_capacity v sid n s).0
  perform wake_asked s = (next_capacity_wake v s).0
  perform (error_reset now sid reason) s = (reset_on_error v now sid reason s).0
  perform (body_closed now sid) s = (aclose_body v now sid s).0
  perform (chunk_released sid n) s = release_data_frame v sid n s
  perform (request_accepted sid) s = accepted v sid s
  perform batch_taken s = (take_pending v s).0
  perform batch_written s = (credit_written v s).0
  perform front_admitted s = (admit_capacity_front v s).0
  perform (begun target) s = (begin v target s).0
  perform (stream_reset now sid reason name) s = (reset_stream_by v now sid reason name s).0
  perform reply_checked s = (maybe_goaway_reply v s).0
  perform (limit_applied limit) s = apply_stream_limit v limit s
  perform slot_released s = release_slot_count v s
  perform (stream_opened handle end_stream is_head built) s =
      (open_stream v handle end_stream is_head built s).0
  perform writer_started s = (writer_start v s).0
  perform writer_ended s = (writer_end v s).0
  perform writers_released s = (release_writers v s).0
  perform (next_id_set sid) s = set_next_stream_id v sid s
  perform (max_id_set sid) s = set_max_stream_id v sid s
  perform (processed_id_set sid) s = set_last_processed_id v sid s

  unfoldable pub perform_all : List H2Call → Inner v → Inner v
  perform_all [] s = s
  perform_all (c ∷ cs) s = perform_all cs (perform c s)

  -- A slot is claimed that no stream holds.
  abbrev pub HasClaim : Inner v → Type 0
  HasClaim s = count_if (has_slot v) s.streams < s.num_open_streams

  -- What the driver owes to a call: a stream is opened on a new id, and a slot is given to it or
  -- back only after it was claimed.
  abbrev pub IsDue : H2Call → Inner v → Type 0
  IsDue slot_released s = HasClaim s
  IsDue (stream_opened handle end_stream is_head built) s =
      (lookup s.next_id s.streams ≡ none) × HasClaim s
  IsDue c s = Unit

  abbrev pub AllDue : List H2Call → Inner v → Type 0
  AllDue [] s = Unit
  AllDue (c ∷ cs) s = IsDue c s × AllDue cs (perform c s)

module _ (v : Vendor) (l : VendorLaws v) where
  pub perform-IsValid :
      (c : H2Call) (s : Inner v) → IsDue v c s → IsValid v s → IsValid v (perform v c s)
  unfolding perform
  perform-IsValid (got_headers now f spare) s due h = recv_headers-IsValid v l s now f spare h
  perform-IsValid (got_data now f) s due h = recv_data-IsValid v l s now f h
  perform-IsValid (got_window_update sid n) s due h = recv_window_update-IsValid v l s sid n h
  perform-IsValid (got_reset sid error_code) s due h = recv_reset-IsValid v l s sid error_code h
  perform-IsValid (got_settings f d) s due h = recv_settings-IsValid v s d f h
  perform-IsValid (got_ping payload is_ack) s due h = recv_ping-IsValid v l s payload is_ack h
  perform-IsValid (got_go_away last error_code debug_data) s due h =
      recv_go_away-IsValid v l s last error_code debug_data h
  perform-IsValid (goaway_sent reason debug_data) s due h =
      send_goaway-IsValid v l s reason debug_data h
  perform-IsValid (failed exc) s due h = fail-IsValid v l s exc h
  perform-IsValid shutdown_begun s due h = begin_graceful_shutdown-IsValid v l s h
  perform-IsValid slot_claimed s due h = try_claim_slot-IsValid v s h
  perform-IsValid (data_sent now sid bytes offset end_stream) s due h =
      send_data-IsValid v l now sid bytes offset end_stream s h
  perform-IsValid (head_sent now sid end_stream checked built) s due h =
      send_response_head-IsValid v l now sid end_stream checked built s h
  perform-IsValid (trailers_sent now sid) s due h = send_trailers-IsValid v l now sid s h
  perform-IsValid (capacity_released sid n) s due h = release_capacity-IsValid v l sid n s h
  perform-IsValid wake_asked s due h = next_capacity_wake-IsValid v l s h
  perform-IsValid (error_reset now sid reason) s due h =
      reset_on_error-IsValid v l s now sid reason h
  perform-IsValid (body_closed now sid) s due h = aclose_body-IsValid v l s now sid h
  perform-IsValid (chunk_released sid n) s due h = release_data_frame-IsValid v s sid n h
  perform-IsValid (request_accepted sid) s due h = accepted-IsValid v s sid h
  perform-IsValid batch_taken s due h = take_pending-IsValid v s h
  perform-IsValid batch_written s due h = credit_written-IsValid v s h
  perform-IsValid front_admitted s due h = admit_capacity_front-IsValid v s h
  perform-IsValid (begun target) s due h = begin-IsValid v target s h
  perform-IsValid (stream_reset now sid reason name) s due h =
      reset_stream_by-IsValid v l s now sid reason name h
  perform-IsValid reply_checked s due h =
      same-IsValid v s (maybe_goaway_reply v s).0 (maybe_goaway_reply-SameStore v s) h
  perform-IsValid (limit_applied limit) s due h = apply_stream_limit-IsValid v limit s h
  perform-IsValid slot_released s due h = release_slot_count-IsValid v s due h
  perform-IsValid (stream_opened handle end_stream is_head built) s due h =
      open_stream-IsValid v s handle end_stream is_head built due.0 due.1 h
  perform-IsValid writer_started s due h =
      same-IsValid v s (writer_start v s).0 (writer_start-SameStore v s) h
  perform-IsValid writer_ended s due h =
      same-IsValid v s (writer_end v s).0 (writer_end-SameStore v s) h
  perform-IsValid writers_released s due h =
      same-IsValid v s (release_writers v s).0 (release_writers-SameStore v s) h
  perform-IsValid (next_id_set sid) s due h = set_next_stream_id-IsValid v l sid s h
  perform-IsValid (max_id_set sid) s due h = set_max_stream_id-IsValid v l sid s h
  perform-IsValid (processed_id_set sid) s due h = set_last_processed_id-IsValid v l sid s h

  -- Any sequence of received frames and of calls that change an HTTP/2 connection's state keeps it
  -- well formed, accepted, ignored and refused frames, errors, resets and failures among them,
  -- where each stream is opened on a new id, and a slot is given to it or back only while one is
  -- claimed that no stream holds.
  pub perform_all-IsValid :
      (cs : List H2Call) (s : Inner v)
      → AllDue v cs s
      → IsValid v s
      → IsValid v (perform_all v cs s)
  unfolding perform_all
  perform_all-IsValid [] s due h = h
  perform_all-IsValid (c ∷ cs) s due h =
      perform_all-IsValid cs (perform v c s) due.1 (perform-IsValid c s due.0 h)
