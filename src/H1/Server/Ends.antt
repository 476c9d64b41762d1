-- ===== src/H1/Server/Ends.antt =====
-- How a request on a server connection ends: its response.
use httpunk.Prelude.{
  ℕ, ◌≡◌, refl, subst, Bool, true, false, not, ◌&&◌, ◌||◌, Option, List, if-holds, if-cases, inl,
  inr, arith,
}
use httpunk.H1.Hyper.{Hyper, HyperLaws, Framing, Error, Result, ok, err, Result-cases}
use httpunk.H1.Codec.{Codec}
use httpunk.H1.Codec.Encode.{serialize_response, keep_response, declared}
use httpunk.H1.Server.{Inner, is_current, close_now}
use httpunk.H1.Server.Respond.{
  Response, HeadVerdict, is_ok, respond_head, respond_head_locked, answer_claimed, record_head,
  wants_keep_alive, switches, finish_response, hand_off,
}
use httpunk.H1.Server.Sound.{feed_decoder_leftover-holds, arm_decision-holds}

abbrev is_encoded : {E : Type 0} → Result E (List ℕ) → Bool
is_encoded (ok head) = true
is_encoded (err e) = false

module _ (w : Hyper) where
  -- The head that is encoded without keep-alive is the last.
  last_head :
      (l : HyperLaws w) (r : Response w) (keep http10 : Bool) (c : Codec w)
      → keep ≡ false
      → let (c', answer) =
          serialize_response w r.status r.headers keep http10 r.content_length r.chunked c in
        (not (is_encoded answer) || c'.response_is_last) ≡ true
  unfolding serialize_response keep_response
  last_head l r keep http10 c e =
      let f : Framing = record {
        declared = declared r.chunked r.content_length;
        http10 = http10;
        title_case = c.options.title_case_headers;
      } in
      if-holds
        (λ (q : Codec w × Result (Error w.Failure) (List ℕ)).
          (not (is_encoded q.1) || q.0.response_is_last) ≡ true)
        (w.is_status r.status) _ _
        (elim (Result-cases
          (w.encode_response r.status r.headers c.req_method keep c.options.date_header f)) [
            | inl ((encoder, head), found) ↦ rw found (
                l.no_keep_alive_is_last r.status r.headers c.req_method c.options.date_header f
                  encoder head
                  (subst
                    (λ b.
                      w.encode_response r.status r.headers c.req_method b c.options.date_header f
                      ≡ ok (encoder, head))
                    e found))
            | inr (x, refused) ↦ rw refused refl
          ])
        refl

  -- A verdict with a head leaves the request current, and without keep-alive.
  abbrev NoKeep : ℕ → Inner w × Result (Error w.Failure) HeadVerdict → Type 0
  NoKeep seq (s, v) = is_ok v ≡ true → (is_current w seq s ≡ true) × (s.current.keep_alive ≡ false)

  record_head-NoKeep :
      (seq : ℕ) (r : Response w) (s : Inner w) (c : Codec w × Result (Error w.Failure) (List ℕ))
      → is_current w seq s ≡ true
      → (not (is_encoded c.1) || c.0.response_is_last) ≡ true
      → NoKeep seq (record_head w r s c)
  unfolding record_head
  record_head-NoKeep seq r s (codec, err e) h last = λ accepted. absurd (ground (arith, accepted))
  record_head-NoKeep seq r s (codec, ok head) h last =
      let s1 = record s {
        codec = codec;
        current = record s.current {
          is_switch = switches w r.status s;
          keep_alive = not codec.response_is_last && not codec.response_close_delimited;
          head_negotiated = true;
          watch_wanted = s.current.watch_wanted || r.want;
        };
      } in
      let Good : Inner w → Type 0 =
        λ s'. (is_current w seq s' ≡ true) × (s'.current.keep_alive ≡ false) in
      λ _.
        arm_decision-holds w (λ (q : Inner w × Option ℕ). Good q.0) r.done s1
          (ground (arith, h, last))
          (feed_decoder_leftover-holds w Good s1 (ground (arith, h, last))
            (λ d e. ground (arith, h, last)))
          (λ e. ground (arith, h, last))

  answer_claimed-NoKeep :
      (l : HyperLaws w) (seq : ℕ) (r : Response w) (s : Inner w)
      → is_current w seq s ≡ true
      → wants_keep_alive w s ≡ false
      → NoKeep seq (answer_claimed w r s)
  unfolding answer_claimed
  answer_claimed-NoKeep l seq r s h k =
      if-holds (NoKeep seq) s.current.peer_closed _ _
        (λ accepted. absurd (ground (arith, accepted)))
        (record_head-NoKeep seq r s
          (serialize_response w r.status r.headers (wants_keep_alive w s) s.current.http10
            r.content_length r.chunked s.codec)
          h (last_head l r (wants_keep_alive w s) s.current.http10 s.codec k))

  respond_head-NoKeep :
      (l : HyperLaws w) (seq : ℕ) (r : Response w) (s : Inner w)
      → wants_keep_alive w s ≡ false
      → NoKeep seq (respond_head_locked w seq r s)
  unfolding respond_head_locked
  respond_head-NoKeep l seq r s k =
      if-cases (NoKeep seq) (not (is_current w seq s)) _ _
        (λ _ accepted. absurd (ground (arith, accepted)))
        (λ here.
          if-holds (NoKeep seq) s.current.head_pending _ _
            (answer_claimed-NoKeep l seq r
              (record s { current = record s.current { head_pending = false } })
              (ground (arith, here)) k)
            (if-holds (NoKeep seq) s.current.responded _ _
              (λ accepted. absurd (ground (arith, accepted)))
              (if-holds (NoKeep seq) s.current.continue_sent _ _
                (λ accepted. absurd (ground (arith, accepted)))
                (answer_claimed-NoKeep l seq r
                  (record s { current = record s.current { responded = true } })
                  (ground (arith, here)) k))))

  finish_closes :
      (seq : ℕ) (s : Inner w)
      → is_current w seq s ≡ true
      → s.current.keep_alive ≡ false
      → ((finish_response w seq s).0.closed ≡ true) × ((finish_response w seq s).0.reusable ≡ false)
  unfolding finish_response hand_off close_now
  finish_closes seq s h k = ground (arith, h, k)

  -- When a request may not be kept alive, because of its own head, a server without keep-alive or a
  -- shutdown, and its response head is encoded, the end of the response closes the connection and
  -- leaves it unusable for another request.
  pub finish_response-respond_head :
      (l : HyperLaws w) (seq : ℕ) (r : Response w) (s : Inner w)
      → wants_keep_alive w s ≡ false
      → is_ok (respond_head w seq r s).1.0 ≡ true
      → let s' = (finish_response w seq (respond_head w seq r s).0).0 in
        (s'.closed ≡ true) × (s'.reusable ≡ false)
  unfolding respond_head
  finish_response-respond_head l seq r s k accepted =
      let ends = respond_head-NoKeep l seq r s k accepted in
      finish_closes seq (respond_head_locked w seq r s).0 ends.0 ends.1
