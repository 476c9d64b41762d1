-- ===== src/H1/Server/Respond.antt =====
-- src/h1/conn.rs, the current request of `H1ServerState`: its body reads, its response, and the
-- hand-off of the connection. Absent response headers are the empty map.
use httpunk.Prelude.{
  ℕ, Bool, true, false, not, ◌&&◌, ◌||◌, Option, none, some, List, leb, ltb, ◌==◌, if◌then◌else◌,
  is_some,
}
use httpunk.H1.Hyper.{Hyper, Error, Result, ok, err}
use httpunk.H1.Codec.{Codec, take_body_raw, feed}
use httpunk.H1.Codec.Encode.{serialize_response}
use httpunk.H1.Server.{
  Inner, Watcher, RequestCode, req_ok, req_already, req_stale, req_parked, req_peer_closed,
  req_continue, is_current, arm_decision, feed_decoder_leftover, close_now,
}

-- What `respond_head` is called with.
pub record Response (w : Hyper) : Type 0 where
  pub status : ℕ
  pub headers : w.Headers
  pub done : ℕ
  pub content_length : Option ℕ
  pub chunked : Bool
  pub want : Bool

-- The code, the encoded head, and whether the watcher is armed.
pub record HeadVerdict : Type 0 where
  pub code : RequestCode
  pub head : Option (List ℕ)
  pub armed : Bool

abbrev pub no_head : RequestCode → HeadVerdict
no_head code = record { code = code; head = none; armed = false }

abbrev pub is_ok : {E : Type 0} → Result E HeadVerdict → Bool
is_ok (ok verdict) = elim verdict.code [
  | req_ok ↦ true
  | req_already ↦ false
  | req_stale ↦ false
  | req_parked ↦ false
  | req_peer_closed ↦ false
  | req_continue ↦ false
]
is_ok (err e) = false

module _ (w : Hyper) where
  unfoldable pub try_send_continue : ℕ → Inner w → Inner w × Bool
  try_send_continue seq s =
      if not (is_current w seq s)
        || not s.current.expect_continue
        || s.current.continue_sent
        || s.current.responded
        || s.current.http10
      then (s, false)
      else (record s { current = record s.current { continue_sent = true } }, true)

  unfoldable pub begin_body_read : ℕ → Inner w → Inner w × Bool
  begin_body_read seq s =
      if not (is_current w seq s) || s.current.body_done || s.current.reading_body
      then (s, false)
      else (record s { current = record s.current { reading_body = true } }, true)

  unfoldable pub end_body_read : ℕ → Bool → Inner w → Inner w
  end_body_read seq complete s =
      if is_current w seq s
      then (record s {
        current = record s.current {
          reading_body = false;
          body_done = s.current.body_done || complete;
        };
      })
      else s

  unfoldable pub peer_closed_now : ℕ → Inner w → Option Bool
  peer_closed_now seq s =
      if is_current w seq s
      then (if s.current.response_done then some s.current.peer_closed else none)
      else some false

  unfoldable pub peer_closed_flag : ℕ → Inner w → Bool
  peer_closed_flag seq s = is_current w seq s && s.current.peer_closed

  unfoldable pub close_window : ℕ → Inner w → Inner w × Bool
  close_window seq s =
      if not (is_current w seq s) || s.current.response_done
      then (s, false)
      else (record s { current = record s.current { response_done = true } }, true)

  -- A 101 that the request asked for, or a 2xx to CONNECT.
  abbrev pub switches : ℕ → Inner w → Bool
  switches status s =
      ((status == 101) && s.current.is_upgrade)
      || (s.current.is_connect && leb 200 status && ltb status 300)

  abbrev pub wants_keep_alive : Inner w → Bool
  wants_keep_alive s =
      s.current.request_keep_alive && s.keep_alive_enabled && not s.shutdown_requested

  -- The encoded head, with the decisions that are applied when the response is complete.
  unfoldable pub record_head :
      Response w
      → Inner w
      → Codec w × Result (Error w.Failure) (List ℕ)
      → Inner w × Result (Error w.Failure) HeadVerdict
  unfolding arm_decision
  record_head r s (codec, err e) = (record s { codec = codec }, err e)
  record_head r s (codec, ok head) =
      let (s', unused) = arm_decision w r.done (record s {
        codec = codec;
        current = record s.current {
          is_switch = switches r.status s;
          keep_alive = not codec.response_is_last && not codec.response_close_delimited;
          head_negotiated = true;
          watch_wanted = s.current.watch_wanted || r.want;
        };
      }) in
      (s', ok (record { code = req_ok; head = some head; armed = not (is_some unused) }))

  -- The claim stands: what the watcher saw, then the head.
  unfoldable pub answer_claimed :
      Response w → Inner w → Inner w × Result (Error w.Failure) HeadVerdict
  unfolding record_head serialize_response
  answer_claimed r s =
      if s.current.peer_closed
      then (s, ok (no_head req_peer_closed))
      else record_head r s (
          serialize_response w r.status r.headers (wants_keep_alive s) s.current.http10
            r.content_length r.chunked s.codec)

  -- The claim: once, and again after the wait for a `100 Continue`.
  unfoldable pub respond_head_locked :
      ℕ → Response w → Inner w → Inner w × Result (Error w.Failure) HeadVerdict
  unfolding answer_claimed
  respond_head_locked seq r s =
      if not (is_current w seq s)
      then (s, ok (no_head req_stale))
      else (if s.current.head_pending
          then answer_claimed r (record s { current = record s.current { head_pending = false } })
          else (if s.current.responded
              then (s, ok (no_head req_already))
              else (if s.current.continue_sent
                  then (
                    record s {
                      current = record s.current { responded = true; head_pending = true };
                    },
                    ok (no_head req_continue),
                  )
                  else answer_claimed r
                      (record s { current = record s.current { responded = true } }))))

  -- With the transport to write the head with.
  unfoldable pub respond_head :
      ℕ → Response w → Inner w → Inner w × (Result (Error w.Failure) HeadVerdict × Option ℕ)
  unfolding respond_head_locked
  respond_head seq r s =
      let (s', verdict) = respond_head_locked seq r s in
      (s', (verdict, if is_ok verdict then s'.transport else none))

  -- The connection stops being HTTP: its transport and the bytes past the head are the caller's.
  unfoldable pub hand_off : Inner w → Inner w × (Option ℕ × List ℕ)
  unfolding take_body_raw
  hand_off s =
      let (codec, leftover) = take_body_raw w s.codec in
      (
        record s {
          codec = codec;
          upgraded = true;
          closed = true;
          reusable = false;
          transport = none;
        },
        (s.transport, leftover),
      )

  -- A switch, a close, the transport, and a switch's leftover.
  unfoldable pub finish_response :
      ℕ → Inner w → Inner w × (Bool × (Bool × (Option ℕ × Option (List ℕ))))
  finish_response seq s =
      if not (is_current w seq s)
      then (s, (false, (false, (none, none))))
      else (let s1 : Inner w = record s { current = record s.current { response_done = true } } in
          if s.current.is_switch
          then (let (s2, (t, leftover)) = hand_off (feed_decoder_leftover w s1) in
              (s2, (true, (false, (t, some leftover)))))
          else (if s.reusable && s.current.keep_alive
              then (s1, (false, (false, (none, none))))
              else (let (s2, t) = close_now w s1 in (s2, (false, (true, (t, none)))))))

  unfoldable pub fail_response : ℕ → Inner w → Inner w × Option ℕ
  unfolding close_now
  fail_response seq s = close_now w (record s {
    current = record s.current { response_done = s.current.response_done || is_current w seq s };
  })

  abbrev pub is_parked : Option Watcher → Bool
  is_parked none = false
  is_parked (some watcher) = not watcher.completed

  -- The bytes that the watcher read go behind the codec's.
  unfoldable pub feed_watched : Inner w → Inner w
  unfolding feed
  feed_watched s = elim s.watcher [
    | none ↦ s
    | some watcher ↦ elim watcher.bytes [
      | none ↦ s
      | some bytes ↦ record s {
        codec = feed w bytes s.codec;
        watcher = some (record watcher { bytes = none });
      }
    ]
  ]

  unfoldable pub detach : ℕ → Inner w → Inner w × (RequestCode × (Option ℕ × Option (List ℕ)))
  detach seq s =
      if not (is_current w seq s)
      then (s, (req_stale, (none, none)))
      else (if s.current.responded
          then (s, (req_already, (none, none)))
          else (if is_parked s.watcher
              then (s, (req_parked, (none, none)))
              else (let (s', (t, leftover)) = hand_off (
                    feed_watched (
                      feed_decoder_leftover w (record s {
                        current = record s.current { responded = true; response_done = true };
                      }))) in
                  (s', (req_ok, (t, some leftover))))))
