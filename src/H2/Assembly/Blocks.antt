-- ===== src/H2/Assembly/Blocks.antt =====
-- A header block is one HEADERS frame and its CONTINUATION frames, with nothing between them.
use httpunk.Prelude.{
  ℕ, ◌≡◌, refl, sym, subst, ◌⊎◌, inl, inr, Bool, true, false, Option, none, some, List, [], ◌∷◌,
  Bool-cases, ◌==◌, ==_iff, take,
}
use httpunk.H2.Errors.{Result, ok, err}
use httpunk.H2.Result.{OkHolds, Result-cases}
use httpunk.H2.Wire.{Wire, WireLaws, headers_kind, continuation_kind, Head}
use httpunk.H2.Assembly.{
  header_len, is_continuation, Partial, Assembly, HpackOutcome, done, more, stream_reset,
  classify_hpack, ends_headers, count_continuation, after_hpack, load_fragment, decode_headers,
  extend_block, continue_block,
}
use httpunk.H2.Assembly.Sizes.{Loaded-cases}

-- The heads that may follow each other, from the stream of a pending block to the one at the end.
pub data Follows : Option ℕ → List Head → Option ℕ → Type 0 where
  stop : {p : Option ℕ} → Follows p [] p
  other :
      {h : Head} {hs : List Head} {q : Option ℕ}
      → is_continuation h.kind ≡ false
      → Follows none hs q
      → Follows none (h ∷ hs) q
  begin :
      {h : Head} {hs : List Head} {q : Option ℕ}
      → h.kind ≡ headers_kind
      → Follows (some h.stream_id) hs q
      → Follows none (h ∷ hs) q
  go_on :
      {sid : ℕ} {h : Head} {hs : List Head} {q : Option ℕ}
      → h.kind ≡ continuation_kind
      → h.stream_id ≡ sid
      → ends_headers h ≡ false
      → Follows (some sid) hs q
      → Follows (some sid) (h ∷ hs) q
  finish :
      {sid : ℕ} {h : Head} {hs : List Head} {q : Option ℕ}
      → h.kind ≡ continuation_kind
      → h.stream_id ≡ sid
      → Follows none hs q
      → Follows (some sid) (h ∷ hs) q

module _ (w : Wire) where
  abbrev pub pending_id : Option (Partial w) → Option ℕ
  pending_id none = none
  pending_id (some p) = some (w.headers_stream_id p.frame)

  abbrev pub head_of : List ℕ → Head
  head_of frame_buf = w.parse_head (take header_len frame_buf)

  -- What a frame does to the pending block, where it is accepted.
  abbrev pub Leads : Option ℕ → Head → Assembly w → Type 0
  Leads p h s =
      (hs : List Head) (q : Option ℕ) → Follows (pending_id s.partial) hs q → Follows p (h ∷ hs) q

  -- A fragment ends the block, or leaves it pending on its stream.
  abbrev Fragment : Bool → ℕ → Assembly w → Type 0
  Fragment is_end sid s =
      (s.partial ≡ none) ⊎ ((is_end ≡ false) × (pending_id s.partial ≡ some sid))

  after_hpack-Fragment :
      (is_end : Bool) (sid : ℕ) (p : Partial w) (r : Result HpackOutcome) (s : Assembly w)
      → s.partial ≡ none
      → OkHolds (Fragment is_end (w.headers_stream_id p.frame)) (after_hpack w is_end sid p r s)
  unfolding after_hpack
  after_hpack-Fragment is_end sid p (err x) s idle = tt
  after_hpack-Fragment is_end sid p (ok stream_reset) s idle = inl idle
  after_hpack-Fragment true sid p (ok done) s idle = inl idle
  after_hpack-Fragment true sid p (ok more) s idle = inl idle
  after_hpack-Fragment false sid p (ok done) s idle = inr (refl, refl)
  after_hpack-Fragment false sid p (ok more) s idle = inr (refl, refl)

  module _ (l : WireLaws w) where
    load_fragment-Fragment :
        (is_end : Bool) (sid : ℕ) (p : Partial w) (s : Assembly w)
        → s.partial ≡ none
        → OkHolds (Fragment is_end (w.headers_stream_id p.frame)) (load_fragment w is_end sid p s)
    unfolding load_fragment
    load_fragment-Fragment is_end sid p s idle =
        let r =
          w.load_hpack p.frame p.buf s.limits.max_header_list_size s.limits.table_updates s.hpack in
        let same =
          l.load_hpack_stream_id p.frame p.buf s.limits.max_header_list_size s.limits.table_updates
            s.hpack in
        let s' = record s {
          hpack = r.hpack;
          limits = record s.limits { table_updates = r.table_updates };
        } in
        subst
          (λ sid'. OkHolds (Fragment is_end sid') (
            after_hpack w is_end sid (record p { frame = r.frame; buf = r.rest })
              (classify_hpack r.result is_end) s'))
          same
          (after_hpack-Fragment is_end sid (record p { frame = r.frame; buf = r.rest })
            (classify_hpack r.result is_end) s' idle)

    pub OkHolds-map :
        {A : Type 0} (P Q : Assembly w → Type 0) (r : Assembly w × Result A)
        → ((s : Assembly w) → P s → Q s)
        → OkHolds P r
        → OkHolds Q r
    OkHolds-map P Q (s, ok a) f h = f s h
    OkHolds-map P Q (s, err e) f h = tt

    -- No block is pending before.
    begins :
        (h : Head) (is_end : Bool) (s : Assembly w)
        → h.kind ≡ headers_kind
        → Fragment is_end h.stream_id s
        → Leads none h s
    begins h is_end s k (inl idle) hs q f =
        other (rw k) (subst (λ x. Follows (pending_id x) hs q) idle f)
    begins h is_end s k (inr (_, on)) hs q f = begin k (subst (λ x. Follows x hs q) on f)

    continues :
        (h : Head) (sid : ℕ) (s : Assembly w)
        → h.kind ≡ continuation_kind
        → h.stream_id ≡ sid
        → Fragment (ends_headers h) sid s
        → Leads (some sid) h s
    continues h sid s k same (inl idle) hs q f =
        finish k same (subst (λ x. Follows (pending_id x) hs q) idle f)
    continues h sid s k same (inr (going, on)) hs q f =
        go_on k same going (subst (λ x. Follows x hs q) on f)

    -- A frame that touches no block.
    pub stays :
        (h : Head) (s : Assembly w)
        → s.partial ≡ none
        → is_continuation h.kind ≡ false
        → Leads none h s
    stays h s idle k hs q f = other k (subst (λ x. Follows (pending_id x) hs q) idle f)

    pub decode_headers-Leads :
        (head : Head) (payload : List ℕ) (s : Assembly w)
        → s.partial ≡ none
        → head.kind ≡ headers_kind
        → OkHolds (Leads none head) (decode_headers w head payload s)
    unfolding decode_headers
    decode_headers-Leads head payload s idle k = elim (Loaded-cases (w.load_headers head payload)) [
      | inl looped ↦ rw (decode_headers, looped) (stays head s idle (rw k))
      | inr (inl broken) ↦ rw (decode_headers, broken) tt
      | inr (inr ((h, block), fine)) ↦
          let is_end = w.is_end_headers h in
          let p : Partial w = record { frame = h; buf = block; count = 0 } in
          let on : w.headers_stream_id h ≡ head.stream_id =
            l.load_headers_stream_id head payload h block fine in
          rw (decode_headers, fine)
            (OkHolds-map (Fragment is_end (w.headers_stream_id h)) (Leads none head)
              (load_fragment w is_end head.stream_id p s)
              (λ s1 f. begins head is_end s1 k (subst (λ x. Fragment is_end x s1) on f))
              (load_fragment-Fragment is_end head.stream_id p s idle))
    ]

    pub continue_block-Leads :
        (head : Head) (n : ℕ) (payload : List ℕ) (p : Partial w) (s : Assembly w)
        → head.kind ≡ continuation_kind
        → OkHolds
            (Leads (some (w.headers_stream_id p.frame)) head)
            (continue_block w head n payload p s)
    unfolding continue_block
    continue_block-Leads head n payload p s k =
        let sid = w.headers_stream_id p.frame in
        elim (Bool-cases (sid == head.stream_id)) [
          | inr elsewhere ↦ rw (continue_block, elsewhere) tt
          | inl same ↦
              elim (Result-cases
                (count_continuation s.limits.max_continuation_frames (ends_headers head) p.count)) [
                  | inr (x, flood) ↦ rw (continue_block, same, flood) tt
                  | inl (count, counted) ↦
                      elim (Result-cases
                        (extend_block w s.limits.max_header_list_size n payload p)) [
                          | inr (x, too_big) ↦ rw (continue_block, same, counted, too_big) tt
                          | inl (buf, fits) ↦
                              let is_end = ends_headers head in
                              let p' : Partial w = record {
                                frame = p.frame;
                                buf = buf;
                                count = count;
                              } in
                              let s' = record s { partial = none } in
                              rw (continue_block, same, counted, fits)
                                (OkHolds-map (Fragment is_end sid) (Leads (some sid) head)
                                  (load_fragment w is_end head.stream_id p' s')
                                  (λ s1 f.
                                    continues head sid s1 k
                                      (sym ((==_iff sid head.stream_id).0 same)) f)
                                  (load_fragment-Fragment is_end head.stream_id p' s' refl))
                        ]
                ]
        ]
