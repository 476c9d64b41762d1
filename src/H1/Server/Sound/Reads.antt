-- ===== src/H1/Server/Sound/Reads.antt =====
-- The calls of the accept loop are sound.
use httpunk.Prelude.{ℕ, Bool, true, false, Option, none, arith}
use httpunk.H1.Hyper.{Hyper}
use httpunk.H1.Codec.{reset}
use httpunk.H1.Server.{Inner, close_now, ready_for_next, read_verdict}
use httpunk.H1.Server.Read.{
  positioned, begin_read, drain_done, unpark_idle_read, head_read_overdue, fail_read, stop_serving,
  mark_closed, mark_unusable, request_shutdown,
}
use httpunk.H1.Server.Calls.{
  next_request, drained, unparked, deadline, read_failed, stopped, closing, unusable, shutdown,
  hands, to_close, step,
}
use httpunk.H1.Server.Sound.{IsValid, Sound, close_now-holds, feed_decoder_leftover-holds}

module _ (w : Hyper) (k : ℕ) where
  closed-Sound :
      (s : Inner w) → IsValid w s → Sound w k s ((close_now w s).0, hands (close_now w s).1)
  closed-Sound s v =
      close_now-holds w (λ (r : Inner w × Option ℕ). Sound w k s (r.0, hands r.1)) s
        (λ e. ground (arith, v)) (λ e. ground (arith, v))

  positioned-Sound :
      (now : ℕ) (s : Inner w)
      → IsValid w s
      → Sound w k s ((positioned w now s).0, hands (to_close (positioned w now s).1))
  unfolding ready_for_next read_verdict
  positioned-Sound now s v =
      feed_decoder_leftover-holds w
        (λ (s1 : Inner w).
          let r = read_verdict w now (record s1 {
            codec = reset w s1.codec;
            current = record s1.current { decoder = none; response_done = true; body_done = true };
          }) in
          Sound w k s (r.0, hands (to_close r.1)))
        s (ground (arith, v)) (λ d e. ground (arith, v))

  pub begin_read-Sound :
      (now : ℕ) (s : Inner w) → IsValid w s → Sound w k s (step w (next_request now) s)
  unfolding begin_read step
  begin_read-Sound now s v = ground (arith, v, positioned-Sound now s v, closed-Sound s v)

  pub drain_done-Sound :
      (now : ℕ) (whole : Bool) (s : Inner w)
      → IsValid w s
      → Sound w k s (step w (drained now whole) s)
  unfolding drain_done step close_now
  drain_done-Sound now true s v =
      positioned-Sound now
        (record s { current = record s.current { reading_body = false; body_done = true } })
        (ground (arith, v))
  drain_done-Sound now false s v =
      closed-Sound (record s { current = record s.current { reading_body = false } }) v

  pub unparked-Sound : (s : Inner w) → IsValid w s → Sound w k s (step w unparked s)
  unfolding step unpark_idle_read
  unparked-Sound s v = ground (arith, v)

  pub deadline-Sound :
      (now timeout : ℕ) (s : Inner w) → IsValid w s → Sound w k s (step w (deadline now timeout) s)
  unfolding step head_read_overdue
  deadline-Sound now timeout s v = ground (arith, v, closed-Sound s v)

  pub read_failed-Sound : (s : Inner w) → IsValid w s → Sound w k s (step w read_failed s)
  unfolding step fail_read
  read_failed-Sound s v = closed-Sound s v

  pub stopped-Sound : (s : Inner w) → IsValid w s → Sound w k s (step w stopped s)
  unfolding step stop_serving
  stopped-Sound s v = ground (arith, v)

  pub closing-Sound : (s : Inner w) → IsValid w s → Sound w k s (step w closing s)
  unfolding step mark_closed
  closing-Sound s v = closed-Sound s v

  pub unusable-Sound : (s : Inner w) → IsValid w s → Sound w k s (step w unusable s)
  unfolding step mark_unusable
  unusable-Sound s v = ground (arith, v)

  pub shutdown-Sound : (s : Inner w) → IsValid w s → Sound w k s (step w shutdown s)
  unfolding step request_shutdown close_now
  shutdown-Sound s v = ground (arith, v)
