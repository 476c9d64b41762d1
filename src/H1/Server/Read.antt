-- ===== src/H1/Server/Read.antt =====
-- src/h1/conn.rs, the accept loop of `H1ServerState`: from `begin_read` to the accepted head, and
-- the ends of the connection.
use httpunk.Prelude.{
  ℕ, ◌-◌, Bool, true, false, not, ◌||◌, Option, none, some, List, ltb, ◌==◌, if◌then◌else◌,
}
use httpunk.H1.Hyper.{Hyper}
use httpunk.H1.Body.{BodyDecoder, is_empty}
use httpunk.H1.Body
use httpunk.H1.Codec.{
  RequestHead, Outcome, incomplete, complete, failed, unfinished, receive_request_head,
  take_body_raw,
}
use httpunk.H1.Server.{
  Inner, ReadCode, next_none, next_raise, next_close, next_drain, close_now, ready_for_next,
  read_verdict, begin_request,
}

abbrev pub or_zero : Option ℕ → ℕ
or_zero none = 0
or_zero (some n) = n

module _ (w : Hyper) where
  abbrev pub positioned : ℕ → Inner w → Inner w × (ReadCode × Option ℕ)
  positioned now s = read_verdict w now (ready_for_next w s)

  abbrev pub not_drained : Inner w → Inner w × (ReadCode × Option ℕ)
  not_drained s = let (s', t) = close_now w s in (s', (next_close, t))

  -- The code, with the transport to close, the watcher's event, or the transport to read.
  unfoldable pub begin_read : ℕ → Inner w → Inner w × (ReadCode × Option ℕ)
  begin_read now s =
      if s.closed || not s.reusable
      then (s, (next_none, none))
      else (if s.current.seq == 0
          then positioned now s
          else (if not s.current.response_done
              then (s, (next_raise, none))
              else (if s.current.body_done
                  then positioned now s
                  else (if s.current.reading_body then not_drained s else (
                    record s { current = record s.current { reading_body = true } },
                    (next_drain, none),
                  )))))

  unfoldable pub drain_done : ℕ → Bool → Inner w → Inner w × (ReadCode × Option ℕ)
  drain_done now whole s =
      if whole
      then positioned now
          (record s { current = record s.current { reading_body = false; body_done = true } })
      else not_drained (record s { current = record s.current { reading_body = false } })

  unfoldable pub unpark_idle_read : Inner w → Inner w × Bool
  unpark_idle_read s = (record s { idle_read_parked = false }, s.closed)

  -- A complete head becomes the current request, its decoder fed with the bytes behind it.
  unfoldable pub accept :
      Inner w
      → Outcome w.Failure (RequestHead w)
      → Inner w × Outcome w.Failure (RequestHead w × (ℕ × BodyDecoder w))
  unfolding take_body_raw begin_request
  accept s incomplete = (s, incomplete)
  accept s (failed e) = (s, failed e)
  accept s unfinished = (s, unfinished)
  accept s (complete head) =
      let fresh =
        Body.new w head.kind (or_zero head.content_length) s.codec.options.max_headers
          s.codec.options.max_header_size in
      let (codec, body) = take_body_raw w s.codec in
      let d = if is_empty body then fresh else Body.feed_buf w body fresh in
      let (s', seq) =
        begin_request w d head d.done (record s { codec = codec; head_read_since = none }) in
      (s', complete (head, (seq, d)))

  unfoldable pub accept_head :
      List ℕ → Inner w → Inner w × Outcome w.Failure (RequestHead w × (ℕ × BodyDecoder w))
  unfolding accept
  accept_head bytes s =
      if s.closed
      then (record s { idle_read_parked = false }, incomplete)
      else (let (codec, outcome) = receive_request_head w bytes s.codec in
          accept (record s { idle_read_parked = false; codec = codec }) outcome)

  -- Whether the head is overdue, what is left of the deadline, and the transport to close.
  unfoldable pub head_read_overdue : ℕ → ℕ → Inner w → Inner w × (Bool × (Option ℕ × Option ℕ))
  unfolding close_now
  head_read_overdue now timeout s =
      if s.closed then (s, (false, (none, none))) else elim s.head_read_since [
        | none ↦ (s, (false, (none, none)))
        | some since ↦
            if ltb (now - since) timeout
            then (s, (false, (some (timeout - (now - since)), none)))
            else (let (s', t) = close_now w s in (s', (true, (none, t))))
      ]

  unfoldable pub fail_read : Inner w → Inner w × Option ℕ
  unfolding close_now
  fail_read s = close_now w s

  unfoldable pub stop_serving : Inner w → Inner w
  stop_serving s = record s { closed = true; reusable = false }

  -- The transport to close, the watcher's event, and whether the connection had ended.
  unfoldable pub mark_closed : Inner w → Inner w × (Option ℕ × (Option ℕ × Bool))
  unfolding close_now
  mark_closed s =
      let (s', t) = close_now w s in
      (s', (t, (elim s.watcher [ none ↦ none | some watcher ↦ some watcher.done ], s.closed)))

  unfoldable pub mark_unusable : Inner w → Inner w
  mark_unusable s = record s { reusable = false }

  unfoldable pub request_shutdown : Inner w → Inner w × Option ℕ
  unfolding close_now
  request_shutdown s =
      let s' = record s { reusable = false; shutdown_requested = true } in
      if s.idle_read_parked then close_now w s' else (s', none)
