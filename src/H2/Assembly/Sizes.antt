-- ===== src/H2/Assembly/Sizes.antt =====
-- What a received frame leaves alone of the limits, and the cap on CONTINUATION frames.
use httpunk.Prelude.{
  ℕ, ◌≤◌, ◌≡◌, refl, ◌⊎◌, Bool, true, false, not, ◌&&◌, Option, none, some, List, arith, Bool-cases,
  Option-cases, inl, inr, is_some, ◌==◌, length, take, drop,
}
use httpunk.H2.Errors.{Result, ok, err}
use httpunk.H2.Result.{Keeps, Result-cases}
use httpunk.H2.Wire.{
  Wire, Kind, data_kind, headers_kind, priority_kind, reset_kind, settings_kind, push_promise_kind,
  ping_kind, go_away_kind, window_update_kind, continuation_kind, unknown_kind, Head, Loaded,
  loaded, self_dependent, unloadable,
}
use httpunk.H2.Assembly.{
  header_len, is_continuation, Partial, Event, Assembly, HpackOutcome, done, more, stream_reset,
  ends_headers, count_continuation, after_hpack, load_fragment, decode_headers, extend_block,
  continue_block, decode_continuation, event_of, decode_priority, decode_kind, decode_one,
}

count_continuation-le :
    (max_frames : ℕ) (is_end : Bool) (count : ℕ) {n : ℕ}
    → count_continuation max_frames is_end count ≡ ok n
    → n ≤ max_frames
unfolding count_continuation
count_continuation-le max_frames true count h = ground arith
count_continuation-le max_frames false count h = ground arith

pub Loaded-cases :
    {A : Type 0} (r : Loaded A)
    → (r ≡ self_dependent) ⊎ (r ≡ unloadable) ⊎ ((a : A) × (r ≡ loaded a))
Loaded-cases (loaded a) = inr (inr (a, refl))
Loaded-cases self_dependent = inl refl
Loaded-cases unloadable = inr (inl refl)

module _ (w : Wire) where
  -- CONTINUATION frames in the pending block.
  abbrev pub pending_count : Option (Partial w) → ℕ
  pending_count none = 0
  pending_count (some p) = p.count

  -- The limits are these three, and the pending block is within the bound.
  abbrev pub Sized : ℕ → ℕ → ℕ → ℕ → Assembly w → Type 0
  Sized max_frame max_frames max_list bound a =
      (a.limits.max_recv_frame_size ≡ max_frame)
      × (a.limits.max_continuation_frames ≡ max_frames)
      × (pending_count a.partial ≤ bound)
      × (a.limits.max_header_list_size ≡ max_list)

  module _ (m k hl b : ℕ) (wide : k ≤ b) where
    after_hpack-Sized :
        (is_end : Bool) (sid : ℕ) (p : Partial w) (r : Result HpackOutcome)
        → p.count ≤ b
        → Keeps (Sized m k hl b) (after_hpack w is_end sid p r)
    unfolding after_hpack
    after_hpack-Sized is_end sid p (err x) c s h = h
    after_hpack-Sized is_end sid p (ok stream_reset) c s h = h
    after_hpack-Sized true sid p (ok done) c s h = h
    after_hpack-Sized true sid p (ok more) c s h = h
    after_hpack-Sized false sid p (ok done) c s h = (h.0, h.1, c, h.3)
    after_hpack-Sized false sid p (ok more) c s h = (h.0, h.1, c, h.3)

    load_fragment-Sized :
        (is_end : Bool) (sid : ℕ) (p : Partial w)
        → p.count ≤ b
        → Keeps (Sized m k hl b) (load_fragment w is_end sid p)
    unfolding load_fragment
    load_fragment-Sized is_end sid p c s h = after_hpack-Sized is_end sid _ _ c _ h

    decode_headers-Sized :
        (head : Head) (payload : List ℕ) → Keeps (Sized m k hl b) (decode_headers w head payload)
    unfolding decode_headers
    decode_headers-Sized head payload s h = elim (Loaded-cases (w.load_headers head payload)) [
      | inl looped ↦ rw (decode_headers, looped) h
      | inr (inl broken) ↦ rw (decode_headers, broken) h
      | inr (inr ((block, bytes), fine)) ↦
          rw (decode_headers, fine)
            (load_fragment-Sized (w.is_end_headers block) head.stream_id
              (record { frame = block; buf = bytes; count = 0 }) (omega arith) s h)
    ]

    continue_block-Sized :
        (head : Head) (n : ℕ) (payload : List ℕ) (p : Partial w)
        → Keeps (Sized m k hl b) (continue_block w head n payload p)
    unfolding continue_block
    continue_block-Sized head n payload p s h =
        elim (Bool-cases (w.headers_stream_id p.frame == head.stream_id)) [
          | inr other ↦ rw (continue_block, other) (h.0, h.1, omega arith, h.3)
          | inl same ↦
              elim (Result-cases
                (count_continuation s.limits.max_continuation_frames (ends_headers head) p.count)) [
                  | inr (x, flood) ↦ rw (continue_block, same, flood) (h.0, h.1, omega arith, h.3)
                  | inl (count, counted) ↦
                      elim (Result-cases
                        (extend_block w s.limits.max_header_list_size n payload p)) [
                          | inr (x, too_big) ↦
                              rw (continue_block, same, counted, too_big)
                                (h.0, h.1, omega arith, h.3)
                          | inl (buf, fits) ↦
                              rw (continue_block, same, counted, fits)
                                (load_fragment-Sized (ends_headers head) head.stream_id
                                  (record { frame = p.frame; buf = buf; count = count })
                                  (omega (
                                    arith,
                                    count_continuation-le s.limits.max_continuation_frames
                                        (ends_headers head) p.count counted,
                                  ))
                                  (record s { partial = none }) (h.0, h.1, omega arith, h.3))
                        ]
                ]
        ]

    decode_continuation-Sized :
        (head : Head) (n : ℕ) (payload : List ℕ)
        → Keeps (Sized m k hl b) (decode_continuation w head n payload)
    unfolding decode_continuation
    decode_continuation-Sized head n payload s h = elim (Option-cases s.partial) [
      | inl idle ↦ rw (decode_continuation, idle) h
      | inr (p, pending) ↦
          rw (decode_continuation, pending) (continue_block-Sized head n payload p s h)
    ]

    event_of-Sized :
        {A : Type 0} (r : Option A) (f : A → Event w) → Keeps (Sized m k hl b) (event_of w r f)
    event_of-Sized none f s h = h
    event_of-Sized (some a) f s h = h

    decode_priority-Sized :
        (head : Head) (payload : List ℕ) → Keeps (Sized m k hl b) (decode_priority w head payload)
    unfolding decode_priority
    decode_priority-Sized head payload s h = elim (Bool-cases (head.stream_id == 0)) [
      | inl whole_conn ↦ rw (decode_priority, whole_conn) h
      | inr on_stream ↦ elim (Loaded-cases (w.load_priority head payload)) [
        | inl looped ↦ rw (decode_priority, on_stream, looped) h
        | inr (inl broken) ↦ rw (decode_priority, on_stream, broken) h
        | inr (inr (a, fine)) ↦ rw (decode_priority, on_stream, fine) h
      ]
    ]

    decode_kind-Sized :
        (kind : Kind) (head : Head) (n : ℕ) (payload : List ℕ)
        → Keeps (Sized m k hl b) (decode_kind w kind head n payload)
    unfolding decode_kind
    decode_kind-Sized headers_kind head n payload = decode_headers-Sized head payload
    decode_kind-Sized continuation_kind head n payload = decode_continuation-Sized head n payload
    decode_kind-Sized data_kind head n payload = event_of-Sized (w.load_data head payload) _
    decode_kind-Sized settings_kind head n payload = event_of-Sized (w.load_settings head payload) _
    decode_kind-Sized window_update_kind head n payload =
        event_of-Sized (w.load_window_update head payload) _
    decode_kind-Sized ping_kind head n payload = event_of-Sized (w.load_ping head payload) _
    decode_kind-Sized go_away_kind head n payload = event_of-Sized (w.load_go_away head payload) _
    decode_kind-Sized reset_kind head n payload = event_of-Sized (w.load_reset head payload) _
    decode_kind-Sized priority_kind head n payload = decode_priority-Sized head payload
    decode_kind-Sized push_promise_kind head n payload = λ s h. h
    decode_kind-Sized unknown_kind head n payload = λ s h. h

    pub decode_one-Sized : (frame_buf : List ℕ) → Keeps (Sized m k hl b) (decode_one w frame_buf)
    unfolding decode_one
    decode_one-Sized frame_buf s h =
        let head = w.parse_head (take header_len frame_buf) in
        elim (Bool-cases (is_some s.partial && not (is_continuation head.kind))) [
          | inl stray ↦ rw (decode_one, stray) h
          | inr fine ↦
              rw (decode_one, fine)
                (decode_kind-Sized head.kind head (length frame_buf) (drop header_len frame_buf) s
                  h)
        ]
