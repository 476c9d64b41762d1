-- ===== src/H2/Inner/Headers/Valid.antt =====
-- HEADERS keep `Inner` well formed, on every branch, errors included.
use httpunk.Prelude.{
  ℕ, ◌≡◌, refl, true, false, ◌&&◌, Option, none, some, arith, Option-cases, Bool-cases, inl, inr,
  if◌then◌else◌, length, ltb,
}
use httpunk.Prelude.Map.{lookup}
use httpunk.H2.Vendor.{Vendor, VendorLaws}
use httpunk.H2.Result.{Keeps, >>=-Keeps, require-Keeps, if-Keeps, from_result, require, call, pure}
use httpunk.H2.Inner.{StreamEntry, Inner, Flags, no_flags, HeadersFrame}
use httpunk.H2.Inner.Invariant.{IsValid, same-IsValid, insert_new-StoreValid}
use httpunk.H2.Inner.Entry.{new_entry}
use httpunk.H2.Inner.Store.{is_server, ensure_not_idle, drop_closed_stored}
use httpunk.H2.Inner.Store.Valid.{
  close_stream-IsValid, drop_closed_stored-IsValid, drop_closed_stored_gone,
}
use httpunk.H2.Inner.Window.{in_reset_store}
use httpunk.H2.Inner.Window.Valid.{in_reset_store-SameStore}
use httpunk.H2.Inner.Headers.{
  recv_open_entry, recv_close_entry, apply_content_length, reject_oversize_request,
  announce_request, given_handle, accept_request, open_request, recv_unknown, deliver_head,
  recv_head, recv_trailers, recv_after_close, recv_headers,
}
use httpunk.H2.Inner.Headers.Entries.{
  recv_open_entry-Keeps, recv_close_entry-Keeps, apply_content_length-Keeps,
  reject_oversize_request-Keeps,
}

module _ (v : Vendor) (l : VendorLaws v) where
  -- The state of a request that has not opened its stream yet.
  abbrev Fresh : ℕ → Inner v → Type 0
  Fresh sid s = IsValid v s × (lookup sid s.streams ≡ none)

  announce_request-Keeps :
      (now before : ℕ) (flags : Flags) (f : HeadersFrame) (handle : ℕ)
      → Keeps (IsValid v) (announce_request v now before flags f handle)
  unfolding announce_request
  announce_request-Keeps now before flags f handle =
      if-Keeps (IsValid v) f.is_over_size _ _
        (>>=-Keeps (IsValid v) (reject_oversize_request v now f.stream_id) _
          (reject_oversize_request-Keeps v l now f.stream_id) (λ _ t k. k))
        (λ t k. k)

  accept_request-IsValid :
      (s : Inner v) (now before : ℕ) (flags : Flags) (f : HeadersFrame) (handle : ℕ)
      → Fresh f.stream_id s
      → IsValid v (accept_request v now before flags f handle s).0
  unfolding accept_request new_entry
  accept_request-IsValid s now before flags f handle (h, p) =
      let fresh = new_entry v handle s.peer.initial_window_size s.recv_init false in
      let opened = v.recv_open f.end_stream false fresh.state in
      elim (Option-cases opened.1) [
        | inr (x, refused) ↦ rw refused h
        | inl fine ↦ rw fine (
            >>=-Keeps (IsValid v) (apply_content_length v f.stream_id f) _
              (apply_content_length-Keeps v l f.stream_id f)
              (λ _. announce_request-Keeps now before flags f handle) _
              (insert_new-StoreValid v h f.stream_id (record fresh { state = opened.0 }) p refl
                (omega (arith, h.slots))))
      ]

  given_handle-IsValid :
      (s : Inner v) (now before : ℕ) (flags : Flags) (f : HeadersFrame) (spare : Option ℕ)
      → Fresh f.stream_id s
      → IsValid v (given_handle v now before flags f spare s).0
  unfolding given_handle
  given_handle-IsValid s now before flags f none (h, p) = h
  given_handle-IsValid s now before flags f (some handle) fresh =
      accept_request-IsValid s now before flags f handle fresh

  open_request-IsValid :
      (s : Inner v) (now before : ℕ) (flags : Flags) (f : HeadersFrame) (spare : Option ℕ)
      → Fresh f.stream_id s
      → IsValid v (open_request v now before flags f spare s).0
  unfolding open_request
  open_request-IsValid s now before flags f spare (h, p) =
      elim (Bool-cases (ltb s.max_stream_id f.stream_id)) [
        | inl late ↦ rw late h
        | inr timely ↦
            rw timely
              (elim (Bool-cases
                (v.is_client_initiated f.stream_id && ltb s.last_recv_id f.stream_id)) [
                  | inr bad_id ↦ rw bad_id h
                  | inl new_id ↦ rw new_id (elim (Bool-cases (ltb s.num_active s.max_concurrent)) [
                    | inr full ↦ rw full h
                    | inl room ↦ rw room (
                        given_handle-IsValid (record s { last_recv_id = f.stream_id }) now before
                          flags f spare (h, p))
                  ])
                ])
      ]

  recv_unknown-IsValid :
      (s : Inner v) (now before : ℕ) (flags : Flags) (f : HeadersFrame) (spare : Option ℕ)
      → Fresh f.stream_id s
      → IsValid v (recv_unknown v now before flags f spare s).0
  unfolding recv_unknown
  recv_unknown-IsValid s now before flags f spare (h, p) =
      let looked = in_reset_store v s now f.stream_id in
      let same = in_reset_store-SameStore v s now f.stream_id in
      let kept = same-IsValid v s looked.0 same h in
      elim (Bool-cases looked.1) [
        | inl recent ↦ rw recent kept
        | inr forgotten ↦ rw forgotten (elim (Bool-cases (is_server looked.0.role)) [
          | inl serving ↦
              rw serving
                (open_request-IsValid looked.0 now before flags f spare (kept, rw same.0 p))
          | inr asking ↦ rw asking (
              >>=-Keeps (IsValid v) (from_result (ensure_not_idle v looked.0 f.stream_id)) _
                (λ t k. k) (λ _ t k. k) looked.0 kept)
        ])
      ]

  deliver_head-Keeps :
      (before : ℕ) (f : HeadersFrame) (e : StreamEntry v)
      → Keeps (IsValid v) (deliver_head v before f e)
  unfolding deliver_head
  deliver_head-Keeps before f e =
      >>=-Keeps (IsValid v) (require _ _) _ (require-Keeps (IsValid v) _ _) λ _.
        >>=-Keeps (IsValid v) (if f.end_stream then call _ else pure _) _
          (if-Keeps (IsValid v) f.end_stream _ _ (λ t k. close_stream-IsValid v t f.stream_id k)
            (λ t k. k))
          (λ _ t k. k)

  recv_head-Keeps :
      (before : ℕ) (f : HeadersFrame) (e : StreamEntry v)
      → Keeps (IsValid v) (recv_head v before f e)
  unfolding recv_head
  recv_head-Keeps before f e =
      >>=-Keeps (IsValid v) (require _ _) _ (require-Keeps (IsValid v) _ _) λ _.
        >>=-Keeps (IsValid v) (recv_open_entry v f.stream_id f.end_stream f.is_informational) _
          (recv_open_entry-Keeps v l f.stream_id f.end_stream f.is_informational)
          λ _.
            >>=-Keeps (IsValid v) (apply_content_length v f.stream_id f) _
              (apply_content_length-Keeps v l f.stream_id f)
              λ _. >>=-Keeps (IsValid v) (require _ _) _ (require-Keeps (IsValid v) _ _) λ _.
                if-Keeps (IsValid v) f.is_informational _ _ (λ t k. k)
                  (deliver_head-Keeps before f e)

  recv_trailers-Keeps :
      (before : ℕ) (f : HeadersFrame) (e : StreamEntry v)
      → Keeps (IsValid v) (recv_trailers v before f e)
  unfolding recv_trailers
  recv_trailers-Keeps before f e =
      >>=-Keeps (IsValid v) (require _ _) _ (require-Keeps (IsValid v) _ _) λ _.
        >>=-Keeps (IsValid v) (recv_close_entry v f.stream_id) _
          (recv_close_entry-Keeps v l f.stream_id)
          λ _.
            >>=-Keeps (IsValid v) (require _ _) _ (require-Keeps (IsValid v) _ _)
              λ _ t k. close_stream-IsValid v t f.stream_id k

  recv_after_close-IsValid :
      (s : Inner v) (now before : ℕ) (f : HeadersFrame) (spare : Option ℕ) (e : StreamEntry v)
      → IsValid v s
      → lookup f.stream_id s.streams ≡ some e
      → v.is_closed e.state ≡ true
      → IsValid v (recv_after_close v now before f spare s).0
  unfolding recv_after_close
  recv_after_close-IsValid s now before f spare e h p c =
      let dropped = drop_closed_stored v s f.stream_id in
      let kept = drop_closed_stored-IsValid v s f.stream_id h in
      elim (Bool-cases (is_server dropped.0.role)) [
        | inr asking ↦ rw asking kept
        | inl serving ↦ rw serving (
            recv_unknown-IsValid dropped.0 now before dropped.1 f spare
              (kept, drop_closed_stored_gone v s f.stream_id e p c))
      ]

  -- A HEADERS frame keeps the connection state well formed, whatever the frame, on every branch and
  -- whether it is accepted, ignored or refused.
  pub recv_headers-IsValid :
      (s : Inner v) (now : ℕ) (f : HeadersFrame) (spare : Option ℕ)
      → IsValid v s
      → IsValid v (recv_headers v now f spare s).0
  unfolding recv_headers
  recv_headers-IsValid s now f spare h = elim (Option-cases (lookup f.stream_id s.streams)) [
    | inl e ↦
        rw (e, recv_headers) (recv_unknown-IsValid s now (length s.pending) no_flags f spare (h, e))
    | inr (e, p) ↦
        rw (p, recv_headers)
          (elim (Bool-cases (v.is_local_error e.state)) [
            | inl reset_here ↦ rw reset_here h
            | inr other ↦ rw other (elim (Bool-cases (v.is_closed e.state)) [
              | inl over ↦
                  rw over (recv_after_close-IsValid s now (length s.pending) f spare e h p over)
              | inr live ↦ rw live (elim (Bool-cases (v.is_recv_headers e.state)) [
                | inl head ↦ rw head (recv_head-Keeps (length s.pending) f e s h)
                | inr trailers ↦ rw trailers (recv_trailers-Keeps (length s.pending) f e s h)
              ])
            ])
          ])
  ]
