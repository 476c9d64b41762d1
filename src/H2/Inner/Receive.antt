-- ===== src/H2/Inner/Receive.antt =====
-- src/h2/conn.rs, `H2Streams::recv_data`, `recv_window_update` and `recv_reset`.
pub mod Valid
pub mod Resets
use httpunk.Prelude.{
  ℕ, ◌+◌, ◌%◌, Bool, true, false, not, ◌&&◌, ◌||◌, Option, none, some, List, [], ◌∷◌, ◌++◌, leb,
  ltb, ◌==◌, if◌then◌else◌, length, is_some, add_once, contains, codes,
}
use httpunk.Prelude.Map.{lookup, insert}
use httpunk.H2.ContentLength
use httpunk.H2.Reason
use httpunk.H2.Vendor.{Vendor}
use httpunk.H2.Errors.{Error, protocol, Result, ok, err, map_reason}
use httpunk.H2.Result.{M, ◌>>=◌, ◌>>◌, pure, fail, require, modify, call, from_result}
use httpunk.H2.Inner.{
  StreamEntry, Inner, Stopped, Flags, no_flags, ◌|||◌, RecvDataVerdict, DataFrame, u32_mod,
}
use httpunk.H2.Inner.Entry.{fc_send_data, stopped}
use httpunk.H2.Inner.Queues.{admit_capacity_front, send_front}
use httpunk.H2.Inner.Window.{
  reclaim_conn, reclaim_stream_accounting, consume_conn_recv, record_data_frame,
  release_capacity_inner,
}
use httpunk.H2.Inner.Store.{
  stream_err, protocol_err, is_server, ensure_not_idle, recv_lookup, close_stream,
}
use httpunk.H2.Inner.Headers.{wake_flag, put_entry, recv_close_entry}

-- Nothing to deliver: swallowed, or an empty budgeted frame.
abbrev undelivered : Flags → RecvDataVerdict
undelivered flags = record {
  handle = none;
  payload = none;
  budgeted = false;
  eof = false;
  flags = flags;
}

-- What a peer's reset tells the driver: the handle, the stop, whether the body had not ended.
pub record PeerReset : Type 0 where
  pub handle : ℕ
  pub stop : Stopped
  pub notify_body : Bool
  pub flags : Flags

module _ (v : Vendor) where
  -- `ignore_data`: the peer counted these bytes, so they are consumed and returned.
  swallow : ℕ → ℕ → Result (Unit {0}) → M (Inner v) RecvDataVerdict
  swallow before sz verdict = do
    (λ s. consume_conn_recv v s sz)
    modify (λ s. reclaim_conn v s sz)
    from_result verdict
    s ← call (λ s. (s, s))
    pure (undelivered (wake_flag v s before))

  -- The stream's own window and its declared length, before any byte is accounted to the stream.
  check_entry : DataFrame → ℕ → StreamEntry v → StreamEntry v × Result (Unit {0})
  check_entry f sz e =
      let (fc, overrun) = fc_send_data v e.recv_flow sz in
      let flowed = record e { recv_flow = fc } in
      let (cl, within) = ContentLength.dec e.content_length (length f.data_bytes) in
      let counted = record flowed { content_length = cl } in
      if is_some overrun
      then (flowed, err (stream_err f.stream_id Reason.flow_control_error))
      else (if not within || (f.end_stream && not (ContentLength.is_satisfied cl))
          then (counted, err (stream_err f.stream_id Reason.protocol_error))
          else (record counted { recv_unreleased = (e.recv_unreleased + sz) % u32_mod }, ok tt))

  -- A refused frame gives the connection window back.
  charge_stream : DataFrame → ℕ → M (Inner v) (Unit {0})
  unfolding check_entry
  charge_stream f sz s = elim (lookup f.stream_id s.streams) [
    | none ↦ (s, ok tt)
    | some e ↦
        let (e', verdict) = check_entry f sz e in
        let s' = put_entry v f.stream_id e' s in
        elim verdict [ ok _ ↦ (s', ok tt) | err x ↦ (reclaim_conn v s' sz, err x) ]
  ]

  -- The end of the frame: the budget for a non-final one, the close for a final one.
  deliver_data : ℕ → DataFrame → ℕ → M (Inner v) RecvDataVerdict
  deliver_data before f handle =
      if not f.end_stream
      then (do
        (λ s. record_data_frame v s f.stream_id (length f.data_bytes))
        s ← call (λ s. (s, s))
        pure (
            if length f.data_bytes == 0 then undelivered (wake_flag v s before) else (record {
              handle = some handle;
              payload = some f.data_bytes;
              budgeted = true;
              eof = false;
              flags = wake_flag v s before;
            })))
      else (do
        recv_close_entry v f.stream_id
        flags ← call (λ s. close_stream v s f.stream_id)
        s ← call (λ s. (s, s))
        pure (record {
          handle = some handle;
          payload = some f.data_bytes;
          budgeted = false;
          eof = true;
          flags = flags ||| wake_flag v s before;
        }))

  -- The padding is released on the application's behalf.
  release_padding : DataFrame → Inner v → Inner v
  release_padding f s =
      if ltb 0 f.padding then release_capacity_inner v s f.stream_id (f.padding % u32_mod) else s

  -- DATA for a stream that is stored and not closed.
  recv_live_data : ℕ → DataFrame → ℕ → StreamEntry v → M (Inner v) RecvDataVerdict
  unfolding charge_stream deliver_data release_padding
  recv_live_data before f sz e = do
    require (v.is_recv_streaming e.state) (protocol_err Reason.protocol_error)
    (λ s. consume_conn_recv v s sz)
    charge_stream f sz
    modify (release_padding f)
    deliver_data before f e.handle

  dispatch_data : ℕ → DataFrame → ℕ → Result (Option ℕ) → M (Inner v) RecvDataVerdict
  unfolding swallow recv_live_data
  dispatch_data before f sz (err x) s = swallow before sz (err x) s
  dispatch_data before f sz (ok none) s = swallow before sz (ok tt) s
  dispatch_data before f sz (ok (some sid)) s = elim (lookup f.stream_id s.streams) [
    | none ↦ (s, ok (undelivered no_flags))
    | some e ↦ recv_live_data before f sz e s
  ]

  pub recv_data : ℕ → DataFrame → M (Inner v) RecvDataVerdict
  unfolding dispatch_data
  recv_data now f s =
      let (s', found) = recv_lookup v s now f.stream_id in
      dispatch_data (length s.pending) f (f.flow_controlled_len % u32_mod) found s'

  -- `inc_window(n).and_then(assign_capacity(n))`.
  grow_window : ℕ → v.FlowControl → v.FlowControl × Option ℕ
  grow_window n fc =
      let (fc', failure) = v.inc_window n fc in
      elim failure [ some reason ↦ (fc', some reason) | none ↦ v.assign_capacity n fc' ]

  handle_of : Inner v → Option ℕ → List ℕ
  handle_of s none = []
  handle_of s (some sid) = elim (lookup sid s.streams) [ none ↦ [] | some e ↦ e.handle ∷ [] ]

  -- The connection window grew: the first stream that waits for it joins the rotation, and the
  -- rotation's front is to be woken.
  wake_front : Inner v → Inner v × List ℕ
  unfolding handle_of
  wake_front s =
      let (s', admitted) = admit_capacity_front v s in
      let (s'', first) = send_front v s' in (s'', handle_of s'' first)

  update_connection : ℕ → M (Inner v) (List ℕ)
  unfolding grow_window wake_front
  update_connection n s =
      let (fc, failure) = grow_window n s.conn_send in
      let s' = record s { conn_send = fc } in
      elim failure [
        | some reason ↦ (s', err (map_reason reason))
        | none ↦ let (s'', woken) = wake_front s' in (s'', ok woken)
      ]

  update_stream : ℕ → ℕ → M (Inner v) (List ℕ)
  unfolding grow_window
  update_stream sid n s = elim (lookup sid s.streams) [
    | none ↦
        if is_some (lookup sid s.reset_streams)
        then (s, ok [])
        else (s, elim (ensure_not_idle v s sid) [ err x ↦ err x | ok _ ↦ ok [] ])
    | some e ↦
        let (fc, failure) = grow_window n e.send_flow in
        (
          put_entry v sid (record e { send_flow = fc }) s,
          if is_some failure
              then err (stream_err sid Reason.flow_control_error)
              else ok (e.handle ∷ []),
        )
  ]

  -- The handles whose senders must be woken.
  pub recv_window_update : ℕ → ℕ → M (Inner v) (List ℕ)
  unfolding update_connection update_stream
  recv_window_update sid increment s =
      if sid == 0 then update_connection increment s else update_stream sid increment s

  -- A reset of a request that the application has not accepted counts towards its own cap.
  count_pending_reset : ℕ → M (Inner v) (Unit {0})
  count_pending_reset sid s =
      if is_server s.role && contains sid s.pending_accept
      then (if leb s.max_pending_accept_reset (length s.remote_reset_pending)
          then (s, err (protocol Reason.enhance_your_calm (codes "too_many_resets")))
          else (record s { remote_reset_pending = add_once sid s.remote_reset_pending }, ok tt))
      else (s, ok tt)

  -- RST_STREAM for a stream that is stored and not finished.
  reset_live_by_peer : ℕ → ℕ → ℕ → StreamEntry v → M (Inner v) (Option PeerReset)
  reset_live_by_peer before sid error_code e s =
      let e' = record e { state = v.recv_reset sid error_code false e.state } in
      let s' = reclaim_stream_accounting v (put_entry v sid e' s) sid in
      let (s'', flags) = close_stream v s' sid in
      (
        s'',
        ok (
            some (record {
              handle = e.handle;
              stop = stopped v e';
              notify_body = not (v.is_recv_end_stream e.state);
              flags = flags ||| wake_flag v s'' before;
            })),
      )

  reset_entry_by_peer : ℕ → ℕ → ℕ → M (Inner v) (Option PeerReset)
  unfolding reset_live_by_peer
  reset_entry_by_peer before sid error_code s = elim (lookup sid s.streams) [
    | none ↦ (s, ok none)
    | some e ↦ if e.finished then (s, ok none) else reset_live_by_peer before sid error_code e s
  ]

  recv_reset_unknown : ℕ → M (Inner v) (Option PeerReset)
  recv_reset_unknown sid s =
      if is_some (lookup sid s.reset_streams)
      then (s, ok none)
      else (s, elim (ensure_not_idle v s sid) [ err x ↦ err x | ok _ ↦ ok none ])

  pub recv_reset : ℕ → ℕ → M (Inner v) (Option PeerReset)
  unfolding count_pending_reset reset_entry_by_peer recv_reset_unknown
  recv_reset sid error_code s =
      if sid == 0
      then (s, err (protocol_err Reason.protocol_error))
      else (if not (is_some (lookup sid s.streams))
          then recv_reset_unknown sid s
          else (count_pending_reset sid >> reset_entry_by_peer (length s.pending) sid error_code) s)
