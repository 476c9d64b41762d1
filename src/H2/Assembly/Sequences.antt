-- ===== src/H2/Assembly/Sequences.antt =====
-- What a received frame does to the pending header block, and sequences of frames.
use httpunk.Prelude.{
  ℕ, ◌≡◌, refl, sym, subst, inl, inr, true, false, not, ◌&&◌, Option, none, some, List, [], ◌∷◌,
  map, arith, Bool-cases, Option-cases, is_some, ◌==◌, length, drop,
}
use httpunk.H2.Reason
use httpunk.H2.Inner.Store.{protocol_err}
use httpunk.H2.Errors.{Result, ok, err}
use httpunk.H2.Result.{M, OkHolds, Result-cases, ◌>>=◌, then_result, pure}
use httpunk.H2.Wire.{
  Wire, WireLaws, Kind, data_kind, headers_kind, priority_kind, reset_kind, settings_kind,
  push_promise_kind, ping_kind, go_away_kind, window_update_kind, continuation_kind, unknown_kind,
  Head,
}
use httpunk.H2.Assembly.{
  header_len, is_continuation, Partial, Event, Assembly, continue_block, decode_continuation,
  event_of, decode_priority, decode_kind, decode_one, push,
}
use httpunk.H2.Assembly.Sizes.{Loaded-cases}
use httpunk.H2.Assembly.Blocks.{
  Follows, stop, pending_id, head_of, Leads, OkHolds-map, stays, decode_headers-Leads,
  continue_block-Leads,
}

module _ (w : Wire) where
  -- One frame after the other, up to the first error.
  unfoldable pub decode_all : List (List ℕ) → M (Assembly w) (List (Event w))
  decode_all [] s = (s, ok [])
  decode_all (f ∷ fs) s =
      (decode_one w f >>= λ event. decode_all fs >>= λ out. pure (push w event out)) s

  module _ (l : WireLaws w) where
    event_of-Leads :
        {A : Type 0} (r : Option A) (f : A → Event w) (head : Head) (s : Assembly w)
        → s.partial ≡ none
        → is_continuation head.kind ≡ false
        → OkHolds (Leads w none head) (event_of w r f s)
    event_of-Leads none f head s idle k = tt
    event_of-Leads (some a) f head s idle k = stays w l head s idle k

    decode_priority-Leads :
        (head : Head) (payload : List ℕ) (s : Assembly w)
        → s.partial ≡ none
        → is_continuation head.kind ≡ false
        → OkHolds (Leads w none head) (decode_priority w head payload s)
    unfolding decode_priority
    decode_priority-Leads head payload s idle k = elim (Bool-cases (head.stream_id == 0)) [
      | inl whole_conn ↦ rw (decode_priority, whole_conn) tt
      | inr on_stream ↦ elim (Loaded-cases (w.load_priority head payload)) [
        | inl looped ↦ rw (decode_priority, on_stream, looped) (stays w l head s idle k)
        | inr (inl broken) ↦ rw (decode_priority, on_stream, broken) tt
        | inr (inr (a, fine)) ↦ rw (decode_priority, on_stream, fine) (stays w l head s idle k)
      ]
    ]

    -- With no block pending.
    decode_kind-Leads :
        (kind : Kind) (head : Head) (n : ℕ) (payload : List ℕ) (s : Assembly w)
        → s.partial ≡ none
        → head.kind ≡ kind
        → OkHolds (Leads w none head) (decode_kind w kind head n payload s)
    unfolding decode_kind decode_continuation
    decode_kind-Leads headers_kind head n payload s idle k =
        decode_headers-Leads w l head payload s idle k
    decode_kind-Leads continuation_kind head n payload s idle k = rw idle tt
    decode_kind-Leads data_kind head n payload s idle k =
        event_of-Leads (w.load_data head payload) _ head s idle (rw k)
    decode_kind-Leads settings_kind head n payload s idle k =
        event_of-Leads (w.load_settings head payload) _ head s idle (rw k)
    decode_kind-Leads window_update_kind head n payload s idle k =
        event_of-Leads (w.load_window_update head payload) _ head s idle (rw k)
    decode_kind-Leads ping_kind head n payload s idle k =
        event_of-Leads (w.load_ping head payload) _ head s idle (rw k)
    decode_kind-Leads go_away_kind head n payload s idle k =
        event_of-Leads (w.load_go_away head payload) _ head s idle (rw k)
    decode_kind-Leads reset_kind head n payload s idle k =
        event_of-Leads (w.load_reset head payload) _ head s idle (rw k)
    decode_kind-Leads priority_kind head n payload s idle k =
        decode_priority-Leads head payload s idle (rw k)
    decode_kind-Leads push_promise_kind head n payload s idle k = tt
    decode_kind-Leads unknown_kind head n payload s idle k = stays w l head s idle (rw k)

    continuation_of : (kind : Kind) → is_continuation kind ≡ true → kind ≡ continuation_kind
    continuation_of continuation_kind h = refl
    continuation_of data_kind h = cc
    continuation_of headers_kind h = cc
    continuation_of priority_kind h = cc
    continuation_of reset_kind h = cc
    continuation_of settings_kind h = cc
    continuation_of push_promise_kind h = cc
    continuation_of ping_kind h = cc
    continuation_of go_away_kind h = cc
    continuation_of window_update_kind h = cc
    continuation_of unknown_kind h = cc

    decode_continuation-Leads :
        (head : Head) (n : ℕ) (payload : List ℕ) (p : Partial w) (s : Assembly w)
        → head.kind ≡ continuation_kind
        → s.partial ≡ some p
        → OkHolds (Leads w (pending_id w s.partial) head) (decode_continuation w head n payload s)
    unfolding decode_continuation
    decode_continuation-Leads head n payload p s k pending =
        subst
          (λ (x : Option (Partial w)).
            OkHolds {A = Option (Event w)} (Leads w (pending_id w x) head) (elim x [
              | none ↦ (s, err (protocol_err Reason.protocol_error))
              | some p' ↦ continue_block w head n payload p' s
            ]))
          (sym pending) (continue_block-Leads w l head n payload p s k)

    decode_one-Leads :
        (f : List ℕ) (s : Assembly w)
        → OkHolds (Leads w (pending_id w s.partial) (head_of w f)) (decode_one w f s)
    unfolding decode_one decode_kind
    decode_one-Leads f s =
        let head = head_of w f in
        let payload = drop header_len f in
        let Ends = λ (p : Option (Partial w)) (kind : Kind).
          OkHolds (Leads w (pending_id w p) head) (decode_kind w kind head (length f) payload s) in
        elim (Bool-cases (is_some s.partial && not (is_continuation head.kind))) [
          | inl stray ↦ rw (decode_one, stray) tt
          | inr fine ↦
              rw (decode_one, fine)
                (elim (Option-cases s.partial) [
                  | inl idle ↦
                      subst (λ p. Ends p head.kind) (sym idle)
                        (decode_kind-Leads head.kind head (length f) payload s idle refl)
                  | inr (p, pending) ↦
                      let k = continuation_of head.kind (ground (arith, fine, pending)) in
                      subst (λ kind. Ends s.partial kind) (sym k)
                        (decode_continuation-Leads head (length f) payload p s k pending)
                ])
        ]

    OkHolds-at :
        {A : Type 0} (P : Assembly w → Type 0) (r : Assembly w × Result A) {a : A}
        → r.1 ≡ ok a
        → OkHolds P r
        → P r.0
    OkHolds-at P (s, ok a) e h = h
    OkHolds-at P (s, err x) e h = cc

    OkHolds-push :
        (P : Assembly w → Type 0) (event : Option (Event w))
        (r : Assembly w × Result (List (Event w)))
        → OkHolds P r
        → OkHolds P (then_result r (λ out. pure (push w event out)))
    OkHolds-push P event (s, ok out) h = h
    OkHolds-push P event (s, err x) h = tt

    abbrev Led : List (List ℕ) → Assembly w → Assembly w → Type 0
    Led fs s s' = Follows (pending_id w s.partial) (map (head_of w) fs) (pending_id w s'.partial)

    decode_all-Leads : (fs : List (List ℕ)) (s : Assembly w) → OkHolds (Led fs s) (decode_all fs s)
    unfolding decode_all
    decode_all-Leads [] s = stop
    decode_all-Leads (f ∷ fs) s = elim (Result-cases (decode_one w f s).1) [
      | inr (x, failed) ↦ rw (decode_all, failed) tt
      | inl (event, fine) ↦
          let s1 = (decode_one w f s).0 in
          let leads =
            OkHolds-at (Leads w (pending_id w s.partial) (head_of w f)) (decode_one w f s) fine
              (decode_one-Leads f s) in
          rw (decode_all, fine)
            (OkHolds-push (Led (f ∷ fs) s) event (decode_all fs s1) (
              OkHolds-map w l (Led fs s1) (Led (f ∷ fs) s) (decode_all fs s1)
                (λ s'. leads (map (head_of w) fs) (pending_id w s'.partial))
                (decode_all-Leads fs s1)))
    ]

    -- Whenever all frames of a sequence are accepted, the CONTINUATION frames in it stand right
    -- behind a HEADERS frame, or behind the block that was pending before, all on its stream, and
    -- no frame of another kind or stream stands between them.
    pub decode_all-Follows :
        (fs : List (List ℕ)) (s : Assembly w) {s' : Assembly w} {out : List (Event w)}
        → decode_all fs s ≡ (s', ok out)
        → Follows (pending_id w s.partial) (map (head_of w) fs) (pending_id w s'.partial)
    decode_all-Follows fs s {s'} h = subst (OkHolds (Led fs s)) h (decode_all-Leads fs s)
