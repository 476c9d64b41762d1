-- ===== src/H1/Server/Sound/Responses.antt =====
-- The calls that answer the current request, and the driver's own work, are sound.
use httpunk.Prelude.{
  ℕ, ◌≡◌, refl, subst, Bool, true, false, not, ◌&&◌, ◌||◌, Option, none, some, List, if-holds,
  if-cases, option-cases, arith,
}
use httpunk.H1.Hyper.{Hyper, Error, Result, ok, err}
use httpunk.H1.Codec.{Codec, feed}
use httpunk.H1.Codec.Encode.{serialize_response}
use httpunk.H1.Server.{
  Inner, Watcher, is_current, close_now, feed_decoder_leftover, give_back, RequestCode,
}
use httpunk.H1.Server.Respond.{
  Response, HeadVerdict, is_ok, respond_head, respond_head_locked, answer_claimed, record_head,
  switches, wants_keep_alive, finish_response, fail_response, detach, hand_off, feed_watched,
  is_parked,
}
use httpunk.H1.Server.Calls.{
  respond, finished, response_failed, detached, body_fed, body_eof, body_decoded, nothing_seen,
  hands, when, is_req_ok, step, on_codec,
}
use httpunk.H1.Server.Sound.{
  IsValid, Sound, is_settled, feed_decoder_leftover-holds, arm_decision-holds, stage-mark, stage-le,
}

module _ (w : Hyper) (k : ℕ) where
  abbrev Answers : ℕ → Inner w → Inner w × Result (Error w.Failure) HeadVerdict → Type 0
  Answers seq s (s', v) = Sound w k s (s', record nothing_seen { answered = when (is_ok v) seq })

  -- The claimed request: begun, and waiting for nothing.
  abbrev claimed : Bool → Bool → Inner w → Inner w
  claimed responded pending s = record s {
    current = record s.current { responded = responded; head_pending = pending };
  }

  record_head-Sound :
      (r : Response w) (c : Codec w × Result (Error w.Failure) (List ℕ)) (b p : Bool) (s : Inner w)
      → IsValid w s
      → b ≡ true
      → p ≡ false
      → is_settled s.current ≡ false
      → Answers s.current.seq s (record_head w r (claimed b p s) c)
  unfolding record_head
  record_head-Sound r (codec, err e) b p s v h g n =
      ground (arith, v, stage-mark k s.next_seq s.current.seq)
  record_head-Sound r (codec, ok head) b p s v h g n =
      let mark = stage-mark k s.next_seq s.current.seq in
      let s1 = record (claimed b p s) {
        codec = codec;
        current = record s.current {
          responded = b;
          head_pending = p;
          is_switch = switches w r.status (claimed b p s);
          keep_alive = not codec.response_is_last && not codec.response_close_delimited;
          head_negotiated = true;
          watch_wanted = s.current.watch_wanted || r.want;
        };
      } in
      arm_decision-holds w
        (λ (q : Inner w × Option ℕ).
          Sound w k s (q.0, record nothing_seen { answered = some s.current.seq }))
        r.done s1 (ground (arith, v, mark))
        (feed_decoder_leftover-holds w
          (λ (s2 : Inner w).
            Sound w k s (s2, record nothing_seen { answered = some s.current.seq }))
          s1 (ground (arith, v, mark)) (λ d e. ground (arith, v, mark)))
        (λ e. ground (arith, v, mark, e))

  answer_claimed-Sound :
      (r : Response w) (b p : Bool) (s : Inner w)
      → IsValid w s
      → b ≡ true
      → p ≡ false
      → is_settled s.current ≡ false
      → Answers s.current.seq s (answer_claimed w r (claimed b p s))
  unfolding answer_claimed
  answer_claimed-Sound r b p s v h g n =
      if-holds (Answers s.current.seq s) s.current.peer_closed _ _
        (ground (arith, v, stage-mark k s.next_seq s.current.seq))
        (record_head-Sound r
          (serialize_response w r.status r.headers (wants_keep_alive w (claimed b p s))
            s.current.http10 r.content_length r.chunked s.codec)
          b p s v h g n)

  is_current_eq : (seq : ℕ) (s : Inner w) → not (is_current w seq s) ≡ false → s.current.seq ≡ seq
  is_current_eq seq s h = ground (arith, h)

  pub respond-Sound :
      (seq : ℕ) (r : Response w) (s : Inner w)
      → IsValid w s
      → Sound w k s (step w (respond seq r) s)
  unfolding step respond_head respond_head_locked
  respond-Sound seq r s v =
      if-cases (Answers seq s) (not (is_current w seq s)) _ _ (λ e. ground (arith, v))
        (λ e.
          let there = is_current_eq seq s e in
          if-cases (Answers seq s) s.current.head_pending _ _
            (λ pending.
              subst (λ q. Answers q s (answer_claimed w r (claimed s.current.responded false s)))
                there
                (answer_claimed-Sound r s.current.responded false s v (ground (arith, v, pending))
                  refl (ground (arith, pending))))
            (λ idle.
              if-cases (Answers seq s) s.current.responded _ _ (λ f. ground (arith, v))
                (λ f.
                  if-cases (Answers seq s) s.current.continue_sent _ _
                    (λ g. ground (arith, v, g, f, stage-le k s.next_seq s.current.seq))
                    (λ g.
                      subst
                        (λ q.
                          Answers q s (answer_claimed w r (claimed true s.current.head_pending s)))
                        there
                        (answer_claimed-Sound r true s.current.head_pending s v refl idle
                          (ground (arith, f)))))))

  hand_off-Sound :
      (s : Inner w) → IsValid w s → Sound w k s ((hand_off w s).0, hands (hand_off w s).1.0)
  unfolding hand_off
  hand_off-Sound s v = ground (arith, v)

  pub finished-Sound : (seq : ℕ) (s : Inner w) → IsValid w s → Sound w k s (step w (finished seq) s)
  unfolding step finish_response hand_off close_now
  finished-Sound seq s v =
      if-holds
        (λ (r : Inner w × (Bool × (Bool × (Option ℕ × Option (List ℕ))))).
          Sound w k s (r.0, hands r.1.1.1.0))
        (not (is_current w seq s)) _ _ (ground (arith, v))
        (if-holds
          (λ (r : Inner w × (Bool × (Bool × (Option ℕ × Option (List ℕ))))).
            Sound w k s (r.0, hands r.1.1.1.0))
          s.current.is_switch _ _
          (feed_decoder_leftover-holds w
            (λ (s1 : Inner w). Sound w k s ((hand_off w s1).0, hands (hand_off w s1).1.0))
            (record s { current = record s.current { response_done = true } }) (ground (arith, v))
            (λ d e. ground (arith, v)))
          (ground (arith, v)))

  pub response_failed-Sound :
      (seq : ℕ) (s : Inner w) → IsValid w s → Sound w k s (step w (response_failed seq) s)
  unfolding step fail_response close_now
  response_failed-Sound seq s v = ground (arith, v)

  pub body_fed-Sound :
      (bytes : List ℕ) (s : Inner w) → IsValid w s → Sound w k s (step w (body_fed bytes) s)
  unfolding step
  body_fed-Sound bytes s v = ground (arith, v)

  pub body_eof-Sound : (s : Inner w) → IsValid w s → Sound w k s (step w body_eof s)
  unfolding step
  body_eof-Sound s v = ground (arith, v)

  pub body_decoded-Sound : (s : Inner w) → IsValid w s → Sound w k s (step w body_decoded s)
  unfolding step
  body_decoded-Sound s v = ground (arith, v)

  pub codec-Sound :
      (codec : Codec w) (s : Inner w) → IsValid w s → Sound w k s (on_codec w codec s, nothing_seen)
  codec-Sound codec s v = ground (arith, v)

  feed_watched-holds :
      (P : Inner w → Type 0) (s : Inner w)
      → P s
      → ((watcher : Watcher) (bytes : List ℕ)
          → s.watcher ≡ some watcher
          → P (record s {
            codec = feed w bytes s.codec;
            watcher = some (record watcher { bytes = none });
          }))
      → P (feed_watched w s)
  unfolding feed_watched
  feed_watched-holds P s p q =
      option-cases P s.watcher s _ (λ _. p)
        (λ watcher e. option-cases P watcher.bytes s _ (λ _. p) (λ bytes _. q watcher bytes e))

  -- The hand-off of the detached request, whatever was fed back before.
  taken_over :
      (seq : ℕ) (s : Inner w)
      → IsValid w s
      → not (is_current w seq s) ≡ false
      → s.current.responded ≡ false
      → let s' = feed_watched w (
          feed_decoder_leftover w
            (record s { current = record s.current { responded = true; response_done = true } })) in
        Sound w k s ((hand_off w s').0, record (hands (hand_off w s').1.0) { answered = some seq })
  unfolding hand_off
  taken_over seq s v there idle =
      let mark = stage-mark k s.next_seq s.current.seq in
      let here = is_current_eq seq s there in
      let Good : Inner w → Type 0 = λ s'.
        Sound w k s
          ((hand_off w s').0, record (hands (hand_off w s').1.0) { answered = some seq }) in
      feed_decoder_leftover-holds w (λ s1. Good (feed_watched w s1))
        (record s { current = record s.current { responded = true; response_done = true } })
        (feed_watched-holds Good
          (record s { current = record s.current { responded = true; response_done = true } })
          (ground (arith, v, mark, idle, here))
          (λ watcher bytes e. ground (arith, v, mark, idle, here, e)))
        (λ d e.
          feed_watched-holds Good
            (give_back w d
              (record s { current = record s.current { responded = true; response_done = true } }))
            (ground (arith, v, mark, idle, here))
            (λ watcher bytes e. ground (arith, v, mark, idle, here, e)))

  pub detached-Sound : (seq : ℕ) (s : Inner w) → IsValid w s → Sound w k s (step w (detached seq) s)
  unfolding step detach
  detached-Sound seq s v =
      let Good : Inner w × (RequestCode × (Option ℕ × Option (List ℕ))) → Type 0 =
        λ r. Sound w k s (r.0, record (hands r.1.1.0) { answered = when (is_req_ok r.1.0) seq }) in
      if-cases Good (not (is_current w seq s)) _ _ (λ _. ground (arith, v))
        (λ there.
          if-cases Good s.current.responded _ _ (λ _. ground (arith, v))
            (λ idle.
              if-cases Good (is_parked w s.watcher) _ _ (λ _. ground (arith, v))
                (λ _. taken_over seq s v there idle)))
