-- ===== src/H1/Client.antt =====
-- src/h1/conn.rs: the state behind `H1ClientState` and its methods, and `OnceLatch`. Python's
-- objects are numbers, as on the server's side.
pub mod Calls
pub mod Sound
pub mod Latch
pub mod Runs
use httpunk.Prelude.{
  ℕ, Bool, true, false, not, ◌&&◌, ◌||◌, Option, none, some, List, if◌then◌else◌, is_some,
}
use httpunk.H1.Hyper.{Hyper}
use httpunk.H1.Codec.{Codec}
use httpunk.H1.Codec
use httpunk.H1.Server.{Watcher, parked_watcher}
use httpunk.H1.Server.Watch.{store_handle, is_gone}

-- `watcher_completed`: the WATCH_ codes.
pub data WatchCode : Type 0 where
  watch_handoff watch_idle_eof watch_idle_bytes watch_idle_error watch_ignored : WatchCode

pub record ClientInner (w : Hyper) : Type 0 where
  pub codec : Codec w
  pub transport : Option ℕ
  pub closed : Bool
  pub upgraded : Bool
  pub error : Option ℕ
  pub busy : Bool
  pub exchange_active : Bool
  pub peer_http10 : Bool
  pub writer : Option ℕ
  pub writer_finished : Bool
  pub watcher : Option Watcher

module _ (w : Hyper) where
  unfoldable pub new : Codec w → ℕ → ClientInner w
  new codec transport = record {
    codec = codec;
    transport = some transport;
    closed = false;
    upgraded = false;
    error = none;
    busy = false;
    exchange_active = false;
    peer_http10 = false;
    writer = none;
    writer_finished = false;
    watcher = none;
  }

  unfoldable pub close_now : ClientInner w → ClientInner w × Option ℕ
  close_now s =
      if s.upgraded
      then (record s { closed = true }, none)
      else (record s { closed = true; transport = none }, s.transport)

  unfoldable pub is_dead : ClientInner w → Bool
  is_dead s = s.closed || is_some s.error

  abbrev pub done_event : Option Watcher → Option ℕ
  done_event none = none
  done_event (some watcher) = some watcher.done

  -- The transport to write to, and the armed watcher's event; nothing from a failed connection.
  unfoldable pub begin_send : ClientInner w → Option ℕ × Option ℕ
  begin_send s = if is_some s.error then (none, none) else (s.transport, done_event s.watcher)

  unfoldable pub try_begin_exchange : ClientInner w → ClientInner w × Bool
  try_begin_exchange s = if s.busy then (s, false) else (
    record s {
      busy = true;
      exchange_active = false;
      writer_finished = false;
      codec = Codec.reset w s.codec;
    },
    true,
  )

  unfoldable pub end_exchange : ClientInner w → ClientInner w × Bool
  end_exchange s =
      if s.busy then (record s { busy = false; exchange_active = false }, true) else (s, false)

  unfoldable pub exchange_started : ClientInner w → ClientInner w
  exchange_started s = record s { exchange_active = true }

  -- The first error is kept.
  abbrev pub first_error : Option ℕ → Option ℕ → Option ℕ
  first_error none new_error = new_error
  first_error (some e) new_error = some e

  unfoldable pub fail : Option ℕ → ClientInner w → ClientInner w × Option ℕ
  unfolding close_now
  fail exc s = close_now (record s { error = first_error s.error exc })

  -- Whether the connection is reused, whether the request was sent in full, and the transport to
  -- close.
  unfoldable pub finish_exchange : Bool → ClientInner w → ClientInner w × (Bool × (Bool × Option ℕ))
  unfolding close_now
  finish_exchange resp_keep_alive s =
      if resp_keep_alive && s.writer_finished
      then (s, (true, (true, none)))
      else (let (s', t) = close_now s in (s', (false, (s.writer_finished, t))))

  -- The transport to close, the watcher's event, the writer's scope, and whether the slot was free.
  unfoldable pub mark_closed :
      ClientInner w → ClientInner w × (Option ℕ × (Option ℕ × (Option ℕ × Bool)))
  unfolding close_now
  mark_closed s =
      let (s', t) = close_now s in
      (record s' { writer = none }, (t, (done_event s.watcher, (s.writer, not s.busy))))

  unfoldable pub upgrade : ClientInner w → ClientInner w × Option ℕ
  upgrade s = (record s { upgraded = true; closed = true; transport = none }, s.transport)

  unfoldable pub store_writer : ℕ → ClientInner w → ClientInner w × Option ℕ
  store_writer scope s =
      if s.closed then (s, some scope) else (record s { writer = some scope }, none)

  unfoldable pub take_writer : ClientInner w → ClientInner w × Option ℕ
  take_writer s = (record s { writer = none }, s.writer)

  unfoldable pub writer_done : ClientInner w → ClientInner w
  writer_done s = record s { writer_finished = true }

  unfoldable pub set_peer_http10 : Bool → ClientInner w → ClientInner w
  set_peer_http10 value s = record s { peer_http10 = value }

  unfoldable pub arm_watcher : ℕ → ClientInner w → ClientInner w × Bool
  arm_watcher done s =
      if s.closed || is_some s.error || not (is_some s.transport) || is_some s.watcher
      then (s, false)
      else (record s { exchange_active = false; watcher = some (parked_watcher done) }, true)

  unfoldable pub store_watcher_handle : ℕ → ClientInner w → ClientInner w × Option ℕ
  store_watcher_handle handle s = if s.closed then (s, some handle) else elim s.watcher [
    | none ↦ (s, some handle)
    | some watcher ↦
        if is_some watcher.handle
        then (s, some handle)
        else (record s { watcher = some (store_handle handle watcher) }, none)
  ]

  unfoldable pub watcher_aborted : ClientInner w → ClientInner w
  watcher_aborted s = elim s.watcher [
    | none ↦ s
    | some watcher ↦ record s { watcher = some (record watcher { completed = true }) }
  ]

  -- The read of an idle connection: an error, its end, or bytes that nobody asked for.
  unfoldable pub completed_idle :
      Option (List ℕ) → Option ℕ → ClientInner w → ClientInner w × (WatchCode × Option ℕ)
  unfolding close_now
  completed_idle bytes error s =
      if is_some error
      then (s, (if s.closed then watch_ignored else watch_idle_error, none))
      else (if is_gone bytes
          then (let (s', t) = close_now s in (s', (watch_idle_eof, t)))
          else (s, (watch_idle_bytes, none)))

  unfoldable pub watcher_completed :
      Option (List ℕ) → Option ℕ → ClientInner w → ClientInner w × (WatchCode × Option ℕ)
  unfolding completed_idle
  watcher_completed bytes error s = elim s.watcher [
    | none ↦ (s, (watch_ignored, none))
    | some watcher ↦
        if s.exchange_active
        then (
          record s {
            watcher = some (record watcher { bytes = bytes; error = error; completed = true });
          },
          (watch_handoff, none),
        )
        else completed_idle bytes error
            (record s { watcher = some (record watcher { completed = true }) })
  ]

  unfoldable pub take_watcher_handle : ClientInner w → ClientInner w × Option ℕ
  take_watcher_handle s = elim s.watcher [
    | none ↦ (s, none)
    | some watcher ↦
        (record s { watcher = some (record watcher { handle = none }) }, watcher.handle)
  ]

  -- The handle, the bytes and the error; the slot is free.
  unfoldable pub take_watcher_handoff :
      ClientInner w → ClientInner w × (Option ℕ × (Option (List ℕ) × Option ℕ))
  take_watcher_handoff s = (
    record s { watcher = none },
    elim s.watcher [
      | none ↦ (none, (none, none))
      | some watcher ↦ (watcher.handle, (watcher.bytes, watcher.error))
    ],
  )

  unfoldable pub take_watcher_result : ClientInner w → ClientInner w × (Option (List ℕ) × Option ℕ)
  take_watcher_result s = elim s.watcher [
    | none ↦ (s, (none, none))
    | some watcher ↦ (
      record s {
        watcher =
            if is_some watcher.handle
            then some (record watcher { bytes = none; error = none })
            else none;
      },
      (watcher.bytes, watcher.error),
    )
  ]
