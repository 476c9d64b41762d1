-- ===== src/H2/Assembly.antt =====
-- src/h2/codec.rs, one received frame: `Decoder::decode_one`, `classify_hpack` and `headers_event`.
-- What a frame changes of `Decoder` is `Assembly`: the HPACK decoder, the limits (with the queued
-- size updates) and the header block that is being assembled.
pub mod Blocks
pub mod Kinds
pub mod Sequences
pub mod Sizes
use httpunk.Prelude.{
  ℕ, ◌+◌, ◌-◌, ◌/◌, ◌%◌, Bool, true, false, not, ◌&&◌, Option, none, some, List, [], ◌∷◌, ◌++◌, ltb,
  ◌==◌, if◌then◌else◌, is_some, length, take, drop, codes,
}
use httpunk.H2.Reason
use httpunk.H2.Errors.{Error, protocol, Result, ok, err}
use httpunk.H2.Result.{M, ◌>>=◌, ◌>>◌, pure, fail, require, from_result, modify}
use httpunk.H2.Decoder.{Limits}
use httpunk.H2.Inner.{HeadersFrame, DataFrame}
use httpunk.H2.Inner.Store.{protocol_err}
use httpunk.H2.Wire.{
  Wire, Kind, data_kind, headers_kind, priority_kind, reset_kind, settings_kind, push_promise_kind,
  ping_kind, go_away_kind, window_update_kind, continuation_kind, unknown_kind, Head, loaded,
  self_dependent, unloadable, Decoding, decoded, need_more, malformed_message,
  header_list_way_too_large, undecodable, LoadedData, LoadedSettings,
}

-- `HEADER_LEN`.
abbrev pub header_len : ℕ
header_len = 9

pub data HpackOutcome : Type 0 where
  done more stream_reset : HpackOutcome

pub classify_hpack : Decoding → Bool → Result HpackOutcome
classify_hpack decoded is_end_headers = ok done
classify_hpack need_more false = ok more
classify_hpack need_more true = err (protocol_err Reason.protocol_error)
classify_hpack malformed_message is_end_headers = ok stream_reset
classify_hpack header_list_way_too_large is_end_headers =
    err (protocol Reason.enhance_your_calm (codes "header_list_way_too_large"))
classify_hpack undecodable is_end_headers = err (protocol_err Reason.protocol_error)

-- `load_err`: whatever the loader's error, the connection fails with PROTOCOL_ERROR.
abbrev load_err : Error
load_err = protocol_err Reason.protocol_error

-- END_HEADERS of a CONTINUATION: `head.flag() & 0x4`.
abbrev pub ends_headers : Head → Bool
ends_headers head = (head.flag / 4) % 2 == 1

abbrev pub is_continuation : Kind → Bool
is_continuation continuation_kind = true
is_continuation other = false

-- The flood guard: the count of CONTINUATION frames, reset by the last one.
pub count_continuation : ℕ → Bool → ℕ → Result ℕ
count_continuation max_frames true count = ok 0
count_continuation max_frames false count =
    if ltb max_frames (count + 1)
    then err (protocol Reason.enhance_your_calm (codes "too_many_continuations"))
    else ok (count + 1)

module _ (w : Wire) where
  -- A header block that waits for CONTINUATION frames.
  pub record Partial : Type 0 where
    pub frame : w.Headers
    pub buf : List ℕ
    pub count : ℕ

  -- The frame event classes.
  pub data Event : Type 0 where
    headers_event : HeadersFrame → w.Parts → Event
    data_event : DataFrame → Event
    settings_event : LoadedSettings → Event
    window_update_event : ℕ → ℕ → Event
    ping_event : Bool → List ℕ → Event
    go_away_event : ℕ → ℕ → List ℕ → Event
    rst_stream_event : ℕ → ℕ → Event
    priority_event : ℕ → Event
    stream_error_event : ℕ → ℕ → Event

  pub record Assembly : Type 0 where
    pub hpack : w.Hpack
    pub limits : Limits
    pub partial : Option Partial

  -- Every `content-length` is parsed; a value that does not parse, or differs from the first, ends
  -- the scan.
  pub scan_content_length : Option ℕ → List (List ℕ) → Option ℕ × Bool
  scan_content_length found [] = (found, false)
  scan_content_length found (v ∷ vs) = elim (w.parse_u64 v) [
    | none ↦ (found, true)
    | some n ↦ elim found [
      | none ↦ scan_content_length (some n) vs
      | some first ↦ if first == n then scan_content_length (some n) vs else (some first, true)
    ]
  ]

  pub make_headers_event : w.Headers → Event
  unfolding scan_content_length
  make_headers_event h =
      let (content_length, invalid) = scan_content_length none (w.content_lengths h) in
      let parts = w.into_parts h in
      headers_event
        (record {
          stream_id = w.headers_stream_id h;
          end_stream = w.is_end_stream h;
          status = w.status parts;
          content_length = content_length;
          content_length_invalid = invalid;
          is_informational = w.is_informational h;
          is_over_size = w.is_over_size h;
        })
        parts

  abbrev stream_err_event : ℕ → Event
  stream_err_event sid = stream_error_event sid Reason.protocol_error

  -- After a fragment of the block went through HPACK: the event, or the block goes on waiting.
  after_hpack : Bool → ℕ → Partial → Result HpackOutcome → M Assembly (Option Event)
  unfolding make_headers_event
  after_hpack is_end sid p (err x) s = (s, err x)
  after_hpack is_end sid p (ok stream_reset) s = (s, ok (some (stream_err_event sid)))
  after_hpack true sid p (ok _) s = (s, ok (some (make_headers_event p.frame)))
  after_hpack false sid p (ok _) s = (record s { partial = some p }, ok none)

  load_fragment : Bool → ℕ → Partial → M Assembly (Option Event)
  unfolding after_hpack classify_hpack
  load_fragment is_end sid p s =
      let r =
        w.load_hpack p.frame p.buf s.limits.max_header_list_size s.limits.table_updates s.hpack in
      let s' = record s {
        hpack = r.hpack;
        limits = record s.limits { table_updates = r.table_updates };
      } in
      after_hpack is_end sid (record p { frame = r.frame; buf = r.rest })
        (classify_hpack r.result is_end) s'

  pub decode_headers : Head → List ℕ → M Assembly (Option Event)
  unfolding load_fragment
  decode_headers head payload s = elim (w.load_headers head payload) [
    | self_dependent ↦ (s, ok (some (stream_err_event head.stream_id)))
    | unloadable ↦ (s, err load_err)
    | loaded (h, block) ↦
        load_fragment (w.is_end_headers h) head.stream_id
          (record { frame = h; buf = block; count = 0 }) s
  ]

  -- The fragment joins what HPACK left over. A block that is over-size already is limited.
  extend_block : ℕ → ℕ → List ℕ → Partial → Result (List ℕ)
  extend_block max_list frame_len payload p = elim p.buf [
    | [] ↦ ok payload
    | x ∷ xs ↦
        if w.is_over_size p.frame && ltb max_list (length p.buf + frame_len)
        then err (protocol_err Reason.compression_error)
        else ok (p.buf ++ payload)
  ]

  -- The pending block is taken, whatever comes of it.
  pub continue_block : Head → ℕ → List ℕ → Partial → M Assembly (Option Event)
  unfolding count_continuation extend_block load_fragment
  continue_block head frame_len payload p = do
    modify (λ s. record s { partial = none })
    require (w.headers_stream_id p.frame == head.stream_id) (protocol_err Reason.protocol_error)
    limits ← (λ s. (s, ok s.limits))
    count ←
        from_result (count_continuation limits.max_continuation_frames (ends_headers head) p.count)
    buf ← from_result (extend_block limits.max_header_list_size frame_len payload p)
    load_fragment (ends_headers head) head.stream_id
        (record { frame = p.frame; buf = buf; count = count })

  decode_continuation : Head → ℕ → List ℕ → M Assembly (Option Event)
  unfolding continue_block
  decode_continuation head frame_len payload s = elim s.partial [
    | none ↦ (s, err (protocol_err Reason.protocol_error))
    | some p ↦ continue_block head frame_len payload p s
  ]

  -- A frame that is loaded in one go.
  abbrev event_of : {A : Type 0} → Option A → (A → Event) → M Assembly (Option Event)
  event_of none f s = (s, err load_err)
  event_of (some a) f s = (s, ok (some (f a)))

  abbrev make_data_event : LoadedData → Event
  make_data_event d = data_event (record {
    stream_id = d.stream_id;
    end_stream = d.is_end_stream;
    data_bytes = d.payload;
    flow_controlled_len = d.flow_controlled_len;
    padding = d.flow_controlled_len - length d.payload;
  })

  decode_priority : Head → List ℕ → M Assembly (Option Event)
  decode_priority head payload s =
      if head.stream_id == 0
      then (s, err (protocol_err Reason.protocol_error))
      else elim (w.load_priority head payload) [
        | loaded _ ↦ (s, ok (some (priority_event head.stream_id)))
        | self_dependent ↦ (s, ok (some (stream_err_event head.stream_id)))
        | unloadable ↦ (s, err load_err)
      ]

  -- The match on the frame's kind.
  unfoldable pub decode_kind : Kind → Head → ℕ → List ℕ → M Assembly (Option Event)
  unfolding decode_headers decode_continuation decode_priority
  decode_kind headers_kind head n payload = decode_headers head payload
  decode_kind continuation_kind head n payload = decode_continuation head n payload
  decode_kind data_kind head n payload = event_of (w.load_data head payload) make_data_event
  decode_kind settings_kind head n payload = event_of (w.load_settings head payload) settings_event
  decode_kind window_update_kind head n payload =
      event_of (w.load_window_update head payload) (λ u. window_update_event u.0 u.1)
  decode_kind ping_kind head n payload =
      event_of (w.load_ping head payload) (λ p. ping_event p.0 p.1)
  decode_kind go_away_kind head n payload =
      event_of (w.load_go_away head payload) (λ g. go_away_event g.0 g.1 g.2)
  decode_kind reset_kind head n payload =
      event_of (w.load_reset head payload) (λ r. rst_stream_event r.0 r.1)
  decode_kind priority_kind head n payload = decode_priority head payload
  decode_kind push_promise_kind head n payload = fail (protocol_err Reason.protocol_error)
  decode_kind unknown_kind head n payload = pure none

  unfoldable pub decode_one : List ℕ → M Assembly (Option Event)
  unfolding decode_kind
  decode_one frame_buf s =
      let head = w.parse_head (take header_len frame_buf) in
      if is_some s.partial && not (is_continuation head.kind)
      then (s, err (protocol_err Reason.protocol_error))
      else decode_kind head.kind head (length frame_buf) (drop header_len frame_buf) s

  -- The event of a frame, if it has one, before those of the later frames.
  abbrev pub push : {A : Type 0} → Option A → List A → List A
  push none out = out
  push (some e) out = e ∷ out
