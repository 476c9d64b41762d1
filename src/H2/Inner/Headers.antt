-- ===== src/H2/Inner/Headers.antt =====
-- src/h2/conn.rs, `H2Streams::recv_headers` with `apply_content_length`, `reject_oversize_request`
-- and `ignored`. The clock is an argument, and so is the Python handle for a new request stream.

pub mod Valid
pub mod Entries
use httpunk.Prelude.{
  ℕ, ◌+◌, ◌≤◌, Bool, true, false, not, ◌&&◌, ◌||◌, Option, none, some, List, [], ◌∷◌, ◌++◌, leb,
  ltb, ◌==◌, if◌then◌else◌, length, is_some, add_once,
}
use httpunk.Prelude.Map.{lookup, insert}
use httpunk.H2.ContentLength
use httpunk.H2.Reason
use httpunk.H2.Vendor.{Vendor, library}
use httpunk.H2.Errors.{Error, value, Result, ok, err, map_user_err, map_proto_err}
use httpunk.H2.Result.{M, ◌>>=◌, ◌>>◌, pure, fail, require, modify, call, from_result}
use httpunk.H2.Inner.{
  StreamEntry, Inner, Frame, headers, rst_stream, Flags, no_flags, ◌|||◌, RecvHeadersVerdict,
  headers_ignored, headers_opened, headers_head, headers_trailers, HeadersFrame,
}
use httpunk.H2.Inner.Entry.{new_entry}
use httpunk.H2.Inner.Window.{in_reset_store, enqueue_reset_expiration}
use httpunk.H2.Inner.Store.{
  stream_err, protocol_err, is_server, ensure_not_idle, close_stream, drop_closed_stored,
}

pub ignored : ℕ → RecvHeadersVerdict
ignored sid = record {
  kind = headers_ignored;
  handle = none;
  stream_id = sid;
  eof = false;
  flags = no_flags;
}

-- 204 and 304 have no body.
abbrev is_bodiless : Option ℕ → Bool
is_bodiless none = false
is_bodiless (some status) = (status == 204) || (status == 304)

abbrev is_zero : Option ℕ → Bool
is_zero none = true
is_zero (some n) = n == 0

module _ (v : Vendor) where
  -- Whether frames were queued since the buffer had this length.
  abbrev pub wake_flag : Inner v → ℕ → Flags
  wake_flag s before = record no_flags { wake = ltb before (length s.pending) }

  abbrev pub put_entry : ℕ → StreamEntry v → Inner v → Inner v
  put_entry sid e s = record s { streams = insert sid e s.streams }

  abbrev pub queue : Frame → Inner v → Inner v
  queue f s = record s { pending = s.pending ++ f ∷ [] }

  -- `e.state.recv_open(..).map_err(map_proto_err)?` on a stored entry.
  pub recv_open_entry : ℕ → Bool → Bool → M (Inner v) (Unit {0})
  recv_open_entry sid eos informational s = elim (lookup sid s.streams) [
    | none ↦ (s, ok tt)
    | some e ↦
        let (st, failure) = v.recv_open eos informational e.state in
        (
          put_entry sid (record e { state = st }) s,
          elim failure [ none ↦ ok tt | some x ↦ err (map_proto_err x) ],
        )
  ]

  pub recv_close_entry : ℕ → M (Inner v) (Unit {0})
  recv_close_entry sid s = elim (lookup sid s.streams) [
    | none ↦ (s, ok tt)
    | some e ↦
        let (st, failure) = v.recv_close e.state in
        (
          put_entry sid (record e { state = st }) s,
          elim failure [ none ↦ ok tt | some x ↦ err (map_proto_err x) ],
        )
  ]

  -- The declared length against the head that carries it.
  length_verdict : ℕ → HeadersFrame → ℕ → Result (Unit {0})
  length_verdict sid f cl =
      if f.end_stream && ltb 0 cl && not (is_bodiless f.status)
      then err (stream_err sid Reason.protocol_error)
      else ok tt

  pub apply_content_length : ℕ → HeadersFrame → M (Inner v) (Unit {0})
  unfolding length_verdict
  apply_content_length sid f s = elim (lookup sid s.streams) [
    | none ↦ (s, ok tt)
    | some e ↦
        if f.content_length_invalid
        then (s, err (stream_err sid Reason.protocol_error))
        else (if ContentLength.is_head e.content_length then (s, ok tt) else elim f.content_length [
          | none ↦ (s, ok tt)
          | some cl ↦ (
            put_entry sid (record e { content_length = ContentLength.set e.content_length cl }) s,
            length_verdict sid f cl,
          )
        ])
  ]

  -- The implicit reset behind the 431, unless sending it closed the stream.
  reset_rejected : ℕ → ℕ → StreamEntry v → Inner v → Inner v
  reset_rejected now sid e s =
      if v.is_closed e.state
      then s
      else (let e' = record e { state = v.set_reset sid Reason.protocol_error library e.state } in
          enqueue_reset_expiration v
            (queue (rst_stream sid Reason.protocol_error) (put_entry sid e' s)) now sid)

  pub reject_oversize_request : ℕ → ℕ → M (Inner v) Flags
  unfolding reset_rejected
  reject_oversize_request now sid s = elim (lookup sid s.streams) [
    | none ↦ (s, ok no_flags)
    | some e ↦
        let (st, failure) = v.send_open true e.state in
        let e' = record e { state = st } in
        elim failure [
          | some x ↦ (put_entry sid e' s, err (map_user_err x))
          | none ↦
              let s' = reset_rejected now sid e' (queue (headers sid true) (put_entry sid e' s)) in
              let (s'', flags) = close_stream v s' sid in (s'', ok flags)
        ]
  ]

  -- The opened request is refused for its size, or queued for the application.
  announce_request : ℕ → ℕ → Flags → HeadersFrame → ℕ → M (Inner v) RecvHeadersVerdict
  unfolding ignored
  announce_request now before flags f handle =
      if f.is_over_size
      then (do
        more ← reject_oversize_request now f.stream_id
        s ← call (λ s. (s, s))
        pure (record (ignored f.stream_id) { flags = (flags ||| more) ||| wake_flag s before }))
      else (do
        modify (λ s. record s { pending_accept = add_once f.stream_id s.pending_accept })
        s ← call (λ s. (s, s))
        pure (record {
          kind = headers_opened;
          handle = some handle;
          stream_id = f.stream_id;
          eof = f.end_stream;
          flags = flags ||| wake_flag s before;
        }))

  -- The request behind the checks of its id opens a stream.
  accept_request : ℕ → ℕ → Flags → HeadersFrame → ℕ → M (Inner v) RecvHeadersVerdict
  unfolding announce_request
  accept_request now before flags f handle = do
    let sid = f.stream_id
    s ← call (λ s. (s, s))
    let fresh = new_entry v handle s.peer.initial_window_size s.recv_init false
    let opened = v.recv_open f.end_stream false fresh.state
    from_result (elim opened.1 [ none ↦ ok tt | some x ↦ err (map_proto_err x) ])
    modify λ s. record s {
      streams = insert sid (record fresh { state = opened.0 }) s.streams;
      num_active = s.num_active + 1;
      last_processed_id = sid;
    }
    apply_content_length sid f
    announce_request now before flags f handle

  -- The server role needs a handle from the caller.
  given_handle : ℕ → ℕ → Flags → HeadersFrame → Option ℕ → M (Inner v) RecvHeadersVerdict
  unfolding accept_request
  given_handle now before flags f none = fail value
  given_handle now before flags f (some handle) = accept_request now before flags f handle

  -- Server: a HEADERS frame for an id that is not stored opens a request, or is refused.
  open_request : ℕ → ℕ → Flags → HeadersFrame → Option ℕ → M (Inner v) RecvHeadersVerdict
  unfolding given_handle ignored
  open_request now before flags f spare = do
    let sid = f.stream_id
    s ← call (λ s. (s, s))
    if ltb s.max_stream_id sid then pure (ignored sid) else (do
      require (v.is_client_initiated sid && ltb s.last_recv_id sid)
          (protocol_err Reason.protocol_error)
      modify (λ s. record s { last_recv_id = sid })
      require (ltb s.num_active s.max_concurrent) (stream_err sid Reason.refused_stream)
      given_handle now before flags f spare)

  recv_unknown : ℕ → ℕ → Flags → HeadersFrame → Option ℕ → M (Inner v) RecvHeadersVerdict
  unfolding open_request ignored
  recv_unknown now before flags f spare = do
    let sid = f.stream_id
    recent ← call (λ s. in_reset_store v s now sid)
    s ← call (λ s. (s, s))
    if recent
        then pure (ignored sid)
        else (if is_server s.role then open_request now before flags f spare else (do
          from_result (ensure_not_idle v s sid)
          fail (stream_err sid Reason.stream_closed)))

  -- A response head that passed its checks.
  deliver_head : ℕ → HeadersFrame → StreamEntry v → M (Inner v) RecvHeadersVerdict
  deliver_head before f e = do
    require (is_some f.status) (stream_err f.stream_id Reason.protocol_error)
    flags ← (if f.end_stream then call (λ s. close_stream v s f.stream_id) else pure no_flags)
    s ← call (λ s. (s, s))
    pure (record {
      kind = headers_head;
      handle = some e.handle;
      stream_id = f.stream_id;
      eof = f.end_stream;
      flags = flags ||| wake_flag s before;
    })

  -- A response head, or an interim 1xx.
  recv_head : ℕ → HeadersFrame → StreamEntry v → M (Inner v) RecvHeadersVerdict
  unfolding recv_open_entry apply_content_length ignored deliver_head
  recv_head before f e = do
    let sid = f.stream_id
    let violation = stream_err sid Reason.protocol_error
    require (not (f.is_informational && f.end_stream)) violation
    recv_open_entry sid f.end_stream f.is_informational
    apply_content_length sid f
    require (not f.is_over_size) violation
    if f.is_informational then pure (ignored sid) else deliver_head before f e

  recv_trailers : ℕ → HeadersFrame → StreamEntry v → M (Inner v) RecvHeadersVerdict
  unfolding recv_close_entry
  recv_trailers before f e = do
    let sid = f.stream_id
    let violation = stream_err sid Reason.protocol_error
    require f.end_stream violation
    recv_close_entry sid
    require (ContentLength.is_satisfied e.content_length) violation
    flags ← call (λ s. close_stream v s sid)
    s ← call (λ s. (s, s))
    pure (record {
      kind = headers_trailers;
      handle = some e.handle;
      stream_id = sid;
      eof = true;
      flags = flags ||| wake_flag s before;
    })

  -- A HEADERS frame for a stored stream that ended normally: it is forgotten first.
  recv_after_close : ℕ → ℕ → HeadersFrame → Option ℕ → M (Inner v) RecvHeadersVerdict
  unfolding recv_unknown
  recv_after_close now before f spare = do
    flags ← call (λ s. drop_closed_stored v s f.stream_id)
    s ← call (λ s. (s, s))
    require (is_server s.role) (stream_err f.stream_id Reason.stream_closed)
    recv_unknown now before flags f spare

  pub recv_headers : ℕ → HeadersFrame → Option ℕ → M (Inner v) RecvHeadersVerdict
  unfolding recv_after_close recv_head recv_trailers
  recv_headers now f spare s =
      let before = length s.pending in
      elim (lookup f.stream_id s.streams) [
        | none ↦ recv_unknown now before no_flags f spare s
        | some e ↦
            if v.is_local_error e.state
            then (s, ok (ignored f.stream_id))
            else (if v.is_closed e.state
                then recv_after_close now before f spare s
                else (if v.is_recv_headers e.state
                    then recv_head before f e s
                    else recv_trailers before f e s))
      ]
