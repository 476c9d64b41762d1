-- ===== src/H1/Server/HandOff.antt =====
-- The detach of a request on a server connection: what is handed over.
use httpunk.Prelude.{
  ℕ, ◌≡◌, ◌∙◌, refl, true, false, not, Option, none, some, List, [], ◌∷◌, ◌++◌, ltb, if◌then◌else◌,
  if-cases, option-cases, Option-cases, inl, inr, arith, length,
}
use httpunk.H1.Hyper.{Hyper}
use httpunk.H1.Body.{buffered, take_buffered}
use httpunk.H1.Codec.{feed, feed_buf, take_body_raw}
use httpunk.H1.Server.{Inner, is_current, feed_decoder_leftover, give_back, RequestCode, req_ok}
use httpunk.H1.Server.Respond.{detach, hand_off, feed_watched, is_parked}
use httpunk.H1.Server.Sound.{feed_decoder_leftover-holds}

-- The bytes that a decoder and a watcher hold.
abbrev pub decoder_bytes : {w : Hyper} → Inner w → List ℕ
decoder_bytes s = elim s.current.decoder [ none ↦ [] | some d ↦ d.buf ]

abbrev pub watcher_bytes : {w : Hyper} → Inner w → List ℕ
watcher_bytes s = elim s.watcher [
  | none ↦ []
  | some watcher ↦ elim watcher.bytes [ none ↦ [] | some bytes ↦ bytes ]
]

eq-nil_of_short : (bytes : List ℕ) → ltb 0 (length bytes) ≡ false → bytes ≡ []
eq-nil_of_short [] h = refl
eq-nil_of_short (x ∷ bytes) h = ground (arith, h)

append-nil : (bytes : List ℕ) → bytes ++ [] ≡ bytes
append-nil [] = refl
append-nil (x ∷ bytes) = rw (append-nil bytes) refl

module _ (w : Hyper) where
  leftover_buf :
      (s : Inner w) → (feed_decoder_leftover w s).codec.buf ≡ s.codec.buf ++ decoder_bytes s
  unfolding feed_decoder_leftover feed_buf take_buffered
  leftover_buf s =
      option-cases (λ (s' : Inner w). s'.codec.buf ≡ s.codec.buf ++ decoder_bytes s)
        s.current.decoder s (λ d. if ltb 0 (buffered w d) then give_back w d s else s)
        (λ e. rw (e, append-nil s.codec.buf) refl)
        (λ d e.
          if-cases (λ (s' : Inner w). s'.codec.buf ≡ s.codec.buf ++ decoder_bytes s)
            (ltb 0 (buffered w d)) _ _ (λ _. rw e refl)
            (λ bare. rw (e, eq-nil_of_short d.buf bare, append-nil s.codec.buf) refl))

  leftover_rest :
      (s : Inner w)
      → ((feed_decoder_leftover w s).watcher ≡ s.watcher)
        × ((feed_decoder_leftover w s).transport ≡ s.transport)
  leftover_rest s =
      feed_decoder_leftover-holds w
        (λ (s' : Inner w). (s'.watcher ≡ s.watcher) × (s'.transport ≡ s.transport)) s (refl, refl)
        (λ d e. (refl, refl))

  watched_buf : (s : Inner w) → (feed_watched w s).codec.buf ≡ s.codec.buf ++ watcher_bytes s
  unfolding feed_watched feed
  watched_buf s = elim (Option-cases s.watcher) [
    | inl e ↦ rw (e, append-nil s.codec.buf) refl
    | inr (watcher, e) ↦ elim (Option-cases watcher.bytes) [
      | inl none_read ↦ rw (e, none_read, append-nil s.codec.buf) refl
      | inr (bytes, some_read) ↦ rw (e, some_read) refl
    ]
  ]

  watched_transport : (s : Inner w) → (feed_watched w s).transport ≡ s.transport
  unfolding feed_watched
  watched_transport s =
      option-cases (λ (s' : Inner w). s'.transport ≡ s.transport) s.watcher s _ (λ _. refl)
        (λ watcher e.
          option-cases (λ (s' : Inner w). s'.transport ≡ s.transport) watcher.bytes s _ (λ _. refl)
            (λ bytes _. refl))

  fed_back :
      (s : Inner w)
      → let s' = feed_watched w (feed_decoder_leftover w s) in
        (s'.transport ≡ s.transport)
        × (s'.codec.buf ≡ (s.codec.buf ++ decoder_bytes s) ++ watcher_bytes s)
  fed_back s =
      let s' = feed_decoder_leftover w s in
      let same : watcher_bytes s' ≡ watcher_bytes s = rw ((leftover_rest s).0) refl in
      (
        watched_transport s' ∙ (leftover_rest s).1,
        watched_buf s' ∙ (λ i. leftover_buf s i ++ same i),
      )

  -- The detach of the current request, when it is unanswered and no read is parked, hands over the
  -- transport with the codec's bytes, then those that the body decoder holds, then the watcher's.
  pub detach_taken_over :
      (seq : ℕ) (s : Inner w)
      → is_current w seq s ≡ true
      → s.current.responded ≡ false
      → is_parked w s.watcher ≡ false
      → (detach w seq s).1
        ≡ (req_ok, (s.transport, some ((s.codec.buf ++ decoder_bytes s) ++ watcher_bytes s)))
  unfolding detach hand_off take_body_raw
  detach_taken_over seq s h g p =
      let Taken : Inner w × (RequestCode × (Option ℕ × Option (List ℕ))) → Type 0 = λ r.
        r.1 ≡ (req_ok, (s.transport, some ((s.codec.buf ++ decoder_bytes s) ++ watcher_bytes s))) in
      let s1 : Inner w = record s {
        current = record s.current { responded = true; response_done = true };
      } in
      if-cases Taken (not (is_current w seq s)) _ _ (λ stale. ground (arith, h, stale))
        (λ _.
          if-cases Taken s.current.responded _ _ (λ e. ground (arith, g, e))
            (λ _.
              if-cases Taken (is_parked w s.watcher) _ _ (λ e. ground (arith, p, e))
                (λ _. λ i. (req_ok, ((fed_back s1).0 i, some ((fed_back s1).1 i))))))
