-- ===== src/H1/Server/Calls.antt =====
-- The calls on a server connection in any order: those of `H1ServerState`, and those that the
-- driver makes on the codec and on the current body decoder, which it shares with the state.
use httpunk.Prelude.{ℕ, Bool, true, false, Option, none, some, List, [], ◌∷◌, if◌then◌else◌}
use httpunk.H1.Hyper.{Hyper}
use httpunk.H1.Body.{BodyDecoder}
use httpunk.H1.Body
use httpunk.H1.Codec.{Codec}
use httpunk.H1.Codec.Encode.{
  serialize_data, serialize_end, serialize_trailers, serialize_head_and_body,
}
use httpunk.H1.Server.{
  Inner, ReadCode, next_none, next_raise, next_close, next_drain, read_parse, read_shutdown,
  read_watcher, read_transport, read_eof, RequestCode, req_ok, req_already, req_stale, req_parked,
  req_peer_closed, req_continue,
}
use httpunk.H1.Server.Read.{
  begin_read, drain_done, unpark_idle_read, accept_head, head_read_overdue, fail_read, stop_serving,
  mark_closed, mark_unusable, request_shutdown,
}
use httpunk.H1.Server.Watch.{
  arm_watcher, store_watcher_handle, watcher_completed, watcher_aborted, take_watcher_handle,
  take_watcher_result,
}
use httpunk.H1.Server.Respond.{
  Response, is_ok, respond_head, try_send_continue, begin_body_read, end_body_read, close_window,
  finish_response, fail_response, detach,
}

pub data Call (w : Hyper) : Type 0 where
  next_request : ℕ → Call w
  drained : ℕ → Bool → Call w
  unparked : Call w
  read : List ℕ → Call w
  deadline : ℕ → ℕ → Call w
  read_failed : Call w
  stopped : Call w
  closing : Call w
  unusable : Call w
  shutdown : Call w
  continue_claim : ℕ → Call w
  body_read : ℕ → Call w
  body_read_end : ℕ → Bool → Call w
  window_closed : ℕ → Call w
  arm : ℕ → ℕ → Bool → Bool → Call w
  handle_stored : ℕ → Call w
  watched : Option (List ℕ) → Option ℕ → Call w
  watch_aborted : Call w
  handle_taken : Call w
  result_taken : Call w
  respond : ℕ → Response w → Call w
  finished : ℕ → Call w
  response_failed : ℕ → Call w
  detached : ℕ → Call w
  body_fed : List ℕ → Call w
  body_eof : Call w
  body_decoded : Call w
  framed : List ℕ → Call w
  ended : Call w
  trailed : w.Headers → Call w
  written : List ℕ → List ℕ → Option w.Headers → Call w

-- What a call hands out: the transport to close or to take over, the request that it answers, the
-- request that it claims the `100 Continue` of, and a watcher's handle stored or taken.
pub record Seen : Type 0 where
  pub handed : Option ℕ
  pub answered : Option ℕ
  pub continued : Option ℕ
  pub stored : Option ℕ
  pub taken : Option ℕ

abbrev pub nothing_seen : Seen
nothing_seen = record {
  handed = none;
  answered = none;
  continued = none;
  stored = none;
  taken = none;
}

abbrev pub hands : Option ℕ → Seen
hands t = record nothing_seen { handed = t }

-- A read verdict's transport is handed out for the close alone.
abbrev pub to_close : ReadCode × Option ℕ → Option ℕ
to_close (next_close, t) = t
to_close (next_none, t) = none
to_close (next_raise, t) = none
to_close (next_drain, t) = none
to_close (read_parse, t) = none
to_close (read_shutdown, t) = none
to_close (read_watcher, t) = none
to_close (read_transport, t) = none
to_close (read_eof, t) = none

abbrev pub is_req_ok : RequestCode → Bool
is_req_ok req_ok = true
is_req_ok req_already = false
is_req_ok req_stale = false
is_req_ok req_parked = false
is_req_ok req_peer_closed = false
is_req_ok req_continue = false

abbrev pub when : Bool → ℕ → Option ℕ
when b n = if b then some n else none

-- A stored handle: it did not come back.
abbrev pub kept : ℕ → Option ℕ → Option ℕ
kept handle none = some handle
kept handle (some refused) = none

module _ (w : Hyper) where
  -- The driver's own work on the body decoder, and on the codec.
  abbrev pub on_decoder : (BodyDecoder w → BodyDecoder w) → Inner w → Inner w
  on_decoder f s = elim s.current.decoder [
    | none ↦ s
    | some d ↦ record s { current = record s.current { decoder = some (f d) } }
  ]

  abbrev pub on_codec : Codec w → Inner w → Inner w
  on_codec codec s = record s { codec = codec }

  unfoldable pub step : Call w → Inner w → Inner w × Seen
  step (next_request now) s = let (s', v) = begin_read w now s in (s', hands (to_close v))
  step (drained now whole) s = let (s', v) = drain_done w now whole s in (s', hands (to_close v))
  step unparked s = ((unpark_idle_read w s).0, nothing_seen)
  step (read bytes) s = ((accept_head w bytes s).0, nothing_seen)
  step (deadline now timeout) s =
      let (s', v) = head_read_overdue w now timeout s in (s', hands v.1.1)
  step read_failed s = let (s', t) = fail_read w s in (s', hands t)
  step stopped s = (stop_serving w s, nothing_seen)
  step closing s = let (s', v) = mark_closed w s in (s', hands v.0)
  step unusable s = (mark_unusable w s, nothing_seen)
  step shutdown s = let (s', t) = request_shutdown w s in (s', hands t)
  step (continue_claim seq) s =
      let (s', claimed) = try_send_continue w seq s in
      (s', record nothing_seen { continued = when claimed seq })
  step (body_read seq) s = ((begin_body_read w seq s).0, nothing_seen)
  step (body_read_end seq whole) s = (end_body_read w seq whole s, nothing_seen)
  step (window_closed seq) s = ((close_window w seq s).0, nothing_seen)
  step (arm seq done want negotiated) s =
      ((arm_watcher w seq done want negotiated s).0, nothing_seen)
  step (handle_stored handle) s =
      let (s', refused) = store_watcher_handle w handle s in
      (s', record nothing_seen { stored = kept handle refused })
  step (watched bytes error) s = ((watcher_completed w bytes error s).0, nothing_seen)
  step watch_aborted s = (watcher_aborted w s, nothing_seen)
  step handle_taken s =
      let (s', handle) = take_watcher_handle w s in (s', record nothing_seen { taken = handle })
  step result_taken s = ((take_watcher_result w s).0, nothing_seen)
  step (respond seq r) s =
      let (s', v) = respond_head w seq r s in
      (s', record nothing_seen { answered = when (is_ok v.0) seq })
  step (finished seq) s = let (s', v) = finish_response w seq s in (s', hands v.1.1.0)
  step (response_failed seq) s = let (s', t) = fail_response w seq s in (s', hands t)
  step (detached seq) s =
      let (s', v) = detach w seq s in
      (s', record (hands v.1.0) { answered = when (is_req_ok v.0) seq })
  step (body_fed bytes) s = (on_decoder (Body.feed_buf w bytes) s, nothing_seen)
  step body_eof s = (on_decoder (Body.mark_eof w) s, nothing_seen)
  step body_decoded s = (on_decoder (λ d. (Body.decode w d).0) s, nothing_seen)
  step (framed chunk) s = (on_codec (serialize_data w chunk s.codec).0 s, nothing_seen)
  step ended s = (on_codec (serialize_end w s.codec).0 s, nothing_seen)
  step (trailed trailers) s = (on_codec (serialize_trailers w trailers s.codec).0 s, nothing_seen)
  step (written head body trailers) s =
      (on_codec (serialize_head_and_body w head body trailers s.codec).0 s, nothing_seen)

  -- A sequence of calls, with what was seen.
  unfoldable pub run : List (Call w) → Inner w → Inner w × List Seen
  run [] s = (s, [])
  run (c ∷ cs) s = let (s1, seen) = step c s in let (s2, more) = run cs s1 in (s2, seen ∷ more)
