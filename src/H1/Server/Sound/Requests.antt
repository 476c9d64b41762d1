-- ===== src/H1/Server/Sound/Requests.antt =====
-- The calls on the current request, its watcher, its decoder and the codec are sound.
use httpunk.Prelude.{ℕ, Bool, false, ◌||◌, Option, List, if-holds, arith}
use httpunk.H1.Hyper.{Hyper}
use httpunk.H1.Body.{BodyDecoder}
use httpunk.H1.Codec.{
  RequestHead, Outcome, incomplete, complete, failed, unfinished, receive_request_head,
}
use httpunk.H1.Server.{Inner, is_current, arm_decision, begin_request}
use httpunk.H1.Server.Read.{accept_head, accept}
use httpunk.H1.Server.Watch.{
  arm_watcher, store_watcher_handle, watcher_completed, watcher_aborted, take_watcher_handle,
  take_watcher_result,
}
use httpunk.H1.Server.Respond.{try_send_continue, begin_body_read, end_body_read, close_window}
use httpunk.H1.Server.Calls.{
  read, continue_claim, body_read, body_read_end, window_closed, arm, handle_stored, watched,
  watch_aborted, handle_taken, result_taken, nothing_seen, step,
}
use httpunk.H1.Server.Sound.{
  IsValid, Sound, is_settled, feed_decoder_leftover-holds, arm_decision-holds, stage-fresh,
  stage-mark,
}

module _ (w : Hyper) (k : ℕ) where
  accept-Sound :
      (s : Inner w) (outcome : Outcome w.Failure (RequestHead w))
      → IsValid w s
      → Sound w k s ((accept w s outcome).0, nothing_seen)
  unfolding accept begin_request
  accept-Sound s incomplete v = ground (arith, v)
  accept-Sound s (failed e) v = ground (arith, v)
  accept-Sound s unfinished v = ground (arith, v)
  accept-Sound s (complete head) v = ground (
    arith,
    v,
    stage-fresh k s.next_seq s.current.seq (is_settled s.current),
    stage-fresh k s.next_seq s.current.seq s.current.continue_sent,
  )

  pub read-Sound :
      (bytes : List ℕ) (s : Inner w) → IsValid w s → Sound w k s (step w (read bytes) s)
  unfolding step accept_head
  read-Sound bytes s v =
      let (codec, outcome) = receive_request_head w bytes s.codec in
      if-holds
        (λ (r : Inner w × Outcome w.Failure (RequestHead w × (ℕ × BodyDecoder w))).
          Sound w k s (r.0, nothing_seen))
        s.closed _ _ (ground (arith, v))
        (accept-Sound (record s { idle_read_parked = false; codec = codec }) outcome v)

  pub continue-Sound :
      (seq : ℕ) (s : Inner w) → IsValid w s → Sound w k s (step w (continue_claim seq) s)
  unfolding step try_send_continue
  continue-Sound seq s v = ground (arith, v, stage-mark k s.next_seq s.current.seq)

  pub body_read-Sound :
      (seq : ℕ) (s : Inner w) → IsValid w s → Sound w k s (step w (body_read seq) s)
  unfolding step begin_body_read
  body_read-Sound seq s v = ground (arith, v)

  pub body_read_end-Sound :
      (seq : ℕ) (whole : Bool) (s : Inner w)
      → IsValid w s
      → Sound w k s (step w (body_read_end seq whole) s)
  unfolding step end_body_read
  body_read_end-Sound seq whole s v = ground (arith, v)

  pub window_closed-Sound :
      (seq : ℕ) (s : Inner w) → IsValid w s → Sound w k s (step w (window_closed seq) s)
  unfolding step close_window
  window_closed-Sound seq s v = ground (arith, v)

  arm_decision-Sound :
      (done : ℕ) (s : Inner w) → IsValid w s → Sound w k s ((arm_decision w done s).0, nothing_seen)
  arm_decision-Sound done s v =
      arm_decision-holds w (λ (r : Inner w × Option ℕ). Sound w k s (r.0, nothing_seen)) done s
        (ground (arith, v))
        (feed_decoder_leftover-holds w (λ (s1 : Inner w). Sound w k s (s1, nothing_seen)) s
          (ground (arith, v)) (λ d e. ground (arith, v)))
        (λ e. ground (arith, v, e))

  pub arm-Sound :
      (seq done : ℕ) (want negotiated : Bool) (s : Inner w)
      → IsValid w s
      → Sound w k s (step w (arm seq done want negotiated) s)
  unfolding step arm_watcher
  arm-Sound seq done want negotiated s v =
      if-holds (λ (r : Inner w × Bool). Sound w k s (r.0, nothing_seen)) (is_current w seq s) _ _
        (arm_decision-Sound done
          (record s {
            current = record s.current {
              head_negotiated = s.current.head_negotiated || negotiated;
              watch_wanted = s.current.watch_wanted || want;
            };
          })
          (ground (arith, v)))
        (ground (arith, v))

  pub handle_stored-Sound :
      (handle : ℕ) (s : Inner w) → IsValid w s → Sound w k s (step w (handle_stored handle) s)
  unfolding step store_watcher_handle
  handle_stored-Sound handle s v = ground (arith, v)

  pub watched-Sound :
      (bytes : Option (List ℕ)) (error : Option ℕ) (s : Inner w)
      → IsValid w s
      → Sound w k s (step w (watched bytes error) s)
  unfolding step watcher_completed
  watched-Sound bytes error s v = ground (arith, v)

  pub watch_aborted-Sound : (s : Inner w) → IsValid w s → Sound w k s (step w watch_aborted s)
  unfolding step watcher_aborted
  watch_aborted-Sound s v = ground (arith, v)

  pub handle_taken-Sound : (s : Inner w) → IsValid w s → Sound w k s (step w handle_taken s)
  unfolding step take_watcher_handle
  handle_taken-Sound s v = ground (arith, v)

  pub result_taken-Sound : (s : Inner w) → IsValid w s → Sound w k s (step w result_taken s)
  unfolding step take_watcher_result
  result_taken-Sound s v = ground (arith, v)
