-- ===== src/H1/Server.antt =====
-- src/h1/conn.rs: the state behind `H1ServerState`, `Inner` and `Current`, with `Watcher`, and
-- `Inner`'s own methods. Python's objects (the transport, events, task handles, exceptions) are
-- numbers, the clock is an argument, and a `u64` counter wraps. A body decoder that Python shares
-- with the state stands in the state alone.
pub mod Read
pub mod Watch
pub mod Respond
pub mod Calls
pub mod Sound
pub mod Ends
pub mod HandOff
use httpunk.Prelude.{
  ℕ, ◌+◌, ◌%◌, ◌^◌, Bool, true, false, not, ◌&&◌, ◌||◌, Option, none, some, List, [], ◌∷◌, ltb,
  ◌==◌, if◌then◌else◌, is_some,
}
use httpunk.H1.Hyper.{Hyper}
use httpunk.H1.Body.{BodyDecoder, take_buffered, buffered}
use httpunk.H1.Codec.{Codec, RequestHead, reset, feed_buf}
use httpunk.H1.Codec

-- `begin_read` and `drain_done`: the NEXT_ and READ_ codes.
pub data ReadCode : Type 0 where
  next_none next_raise next_close next_drain : ReadCode
  read_parse read_shutdown read_watcher read_transport read_eof : ReadCode

-- `respond_head` and `detach`: the REQ_ codes.
pub data RequestCode : Type 0 where
  req_ok req_already req_stale req_parked req_peer_closed req_continue : RequestCode

pub record Watcher : Type 0 where
  pub handle : Option ℕ
  pub done : ℕ
  pub bytes : Option (List ℕ)
  pub error : Option ℕ
  pub completed : Bool

-- A parked read.
abbrev pub parked_watcher : ℕ → Watcher
parked_watcher done = record {
  handle = none;
  done = done;
  bytes = none;
  error = none;
  completed = false;
}

pub record Current (w : Hyper) : Type 0 where
  pub seq : ℕ
  pub decoder : Option (BodyDecoder w)
  pub expect_continue : Bool
  pub http10 : Bool
  pub request_keep_alive : Bool
  pub is_upgrade : Bool
  pub is_connect : Bool
  pub upgrade_request : Bool
  pub responded : Bool
  pub head_pending : Bool
  pub response_done : Bool
  pub body_done : Bool
  pub reading_body : Bool
  pub continue_sent : Bool
  pub peer_closed : Bool
  pub head_negotiated : Bool
  pub is_switch : Bool
  pub keep_alive : Bool
  pub watch_wanted : Bool

pub record Inner (w : Hyper) : Type 0 where
  pub codec : Codec w
  pub transport : Option ℕ
  pub closed : Bool
  pub reusable : Bool
  pub upgraded : Bool
  pub half_close : Bool
  pub keep_alive_enabled : Bool
  pub shutdown_requested : Bool
  pub idle_read_parked : Bool
  pub head_read_since : Option ℕ
  pub watcher : Option Watcher
  pub current : Current w
  pub next_seq : ℕ

module _ (w : Hyper) where
  abbrev pub no_request : Current w
  no_request = record {
    seq = 0;
    decoder = none;
    expect_continue = false;
    http10 = false;
    request_keep_alive = false;
    is_upgrade = false;
    is_connect = false;
    upgrade_request = false;
    responded = false;
    head_pending = false;
    response_done = true;
    body_done = true;
    reading_body = false;
    continue_sent = false;
    peer_closed = false;
    head_negotiated = false;
    is_switch = false;
    keep_alive = false;
    watch_wanted = false;
  }

  unfoldable pub new : Codec w → ℕ → Bool → Bool → Inner w
  new codec transport keep_alive half_close = record {
    codec = codec;
    transport = some transport;
    closed = false;
    reusable = true;
    upgraded = false;
    half_close = half_close;
    keep_alive_enabled = keep_alive;
    shutdown_requested = false;
    idle_read_parked = false;
    head_read_since = none;
    watcher = none;
    current = no_request;
    next_seq = 1;
  }

  abbrev pub is_current : ℕ → Inner w → Bool
  is_current seq s = (s.current.seq == seq) && not (seq == 0)

  -- The bytes that the decoder holds past the body go back into the codec's buffer.
  abbrev pub give_back : BodyDecoder w → Inner w → Inner w
  give_back d s =
      let (d', bytes) = take_buffered w d in
      record s {
        codec = feed_buf w bytes s.codec;
        current = record s.current { decoder = some d' };
      }

  -- The next request's bytes are here already.
  abbrev pub decoder_holds : Inner w → Bool
  decoder_holds s = elim s.current.decoder [ none ↦ false | some d ↦ ltb 0 (buffered w d) ]

  unfoldable pub feed_decoder_leftover : Inner w → Inner w
  feed_decoder_leftover s = elim s.current.decoder [
    | none ↦ s
    | some d ↦ if ltb 0 (buffered w d) then give_back d s else s
  ]

  -- No read may be parked, or none could be consumed.
  abbrev pub unwatchable : Inner w → Bool
  unwatchable s =
      not s.current.watch_wanted
      || s.half_close
      || s.closed
      || not (is_some s.transport)
      || is_some s.watcher
      || not s.current.body_done
      || s.current.response_done
      || (s.current.upgrade_request && (not s.current.head_negotiated || s.current.is_switch))
      || ltb 0 (Codec.buffered w s.codec)

  -- `none`: armed, the event is the watcher's. Otherwise the event comes back.
  unfoldable pub arm_decision : ℕ → Inner w → Inner w × Option ℕ
  unfolding feed_decoder_leftover
  arm_decision done s =
      if unwatchable s
      then (s, some done)
      else (if decoder_holds s
          then (feed_decoder_leftover s, some done)
          else (record s { watcher = some (parked_watcher done) }, none))

  -- A clock that runs already keeps its instant.
  abbrev pub since : ℕ → Option ℕ → Option ℕ
  since now none = some now
  since now (some t) = some t

  unfoldable pub read_verdict : ℕ → Inner w → Inner w × (ReadCode × Option ℕ)
  read_verdict now s =
      if ltb 0 (Codec.buffered w s.codec)
      then (record s { head_read_since = since now s.head_read_since }, (read_parse, none))
      else (if s.shutdown_requested
          then (s, (read_shutdown, none))
          else (let parked = record s {
            idle_read_parked = true;
            head_read_since = since now s.head_read_since;
          } in
              elim s.watcher [
                | some watcher ↦ (parked, (read_watcher, some watcher.done))
                | none ↦ elim s.transport [
                  | some t ↦ (parked, (read_transport, some t))
                  | none ↦ (s, (read_eof, none))
                ]
              ]))

  unfoldable pub begin_request : BodyDecoder w → RequestHead w → Bool → Inner w → Inner w × ℕ
  begin_request d head body_complete s = (
    record s {
      next_seq = (s.next_seq + 1) % 2 ^ 64;
      current = record (no_request) {
        seq = s.next_seq;
        decoder = some d;
        expect_continue = head.expect_continue;
        http10 = head.http10;
        request_keep_alive = head.keep_alive;
        is_upgrade = head.is_upgrade;
        is_connect = head.is_connect;
        upgrade_request = head.is_upgrade || head.is_connect;
        response_done = false;
        body_done = body_complete;
      };
    },
    s.next_seq,
  )

  unfoldable pub ready_for_next : Inner w → Inner w
  unfolding feed_decoder_leftover reset
  ready_for_next s =
      let s1 = feed_decoder_leftover s in
      record s1 {
        codec = reset w s1.codec;
        current = record s1.current { decoder = none; response_done = true; body_done = true };
      }

  -- Poisoned and closed: the transport to close, unless it is gone or handed off.
  unfoldable pub close_now : Inner w → Inner w × Option ℕ
  close_now s =
      let s1 = record s { closed = true; reusable = false } in
      if s.upgraded then (s1, none) else (record s1 { transport = none }, s.transport)
