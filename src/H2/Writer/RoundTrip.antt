-- ===== src/H2/Writer/RoundTrip.antt =====
-- What one side frames, the other side's reader gives back.
use httpunk.Prelude.{
  ℕ, zero, suc, ◌+◌, ◌-◌, ◌^◌, ◌≤◌, ◌<◌, ◌≡◌, refl, sym, ap, ◌∙◌, inl, inr, true, false, none, some,
  List, [], ◌∷◌, ◌++◌, map, arith, Bool-cases, ltb, ◌==◌, bit, length, drop, take-all, drop-all,
}
use mathlib.Core.List.{append_assoc, append-nil}
use httpunk.H2.Errors.{ok}
use httpunk.H2.Result.{Result-cases}
use httpunk.H2.Inner.Begin.{check_settings}
use httpunk.H2.Inner.Begin.Ranges.{check_settings_lem}
use httpunk.H2.Inner.{
  Frame, headers, data_frame, rst_stream, window_update, go_away, ping, settings_ack,
  settings_frame, client_preface,
}
use httpunk.H2.Wire.{
  Wire, Kind, data_kind, reset_kind, settings_kind, ping_kind, go_away_kind, window_update_kind,
}
use httpunk.H2.Encoders.{
  Encoders, EncodersLaws, IsFrame, ack_settings, head_of, advertised, InRange, settings_len,
}
use httpunk.H2.Assembly.{
  header_len, is_continuation, Assembly, Event, data_event, settings_event, window_update_event,
  ping_event, go_away_event, rst_stream_event, stream_error_event, decode_kind, decode_one,
}
use httpunk.H2.Assembly.Kinds.{decode_one_idle}
use httpunk.H2.Reader.{Reader, whole, next_frame, payload_len, read_frames, drain, receive_frames}
use httpunk.H2.Reader.Pieces.{is_open, receive_frames_plain}
use httpunk.H2.Reader.Cuts.{
  next_frame_nil, next_frame_lengths, next_frame_whole-append, next_frame_whole,
}
use httpunk.H2.Writer.{write_frame, write_frames}

-- A frame without a header block that fits the peer's frame size, on a stream and with codes
-- and values that HTTP/2 allows.
abbrev pub Sendable : ℕ → Frame → Type 0
Sendable m (headers sid end_stream) = ⊥
Sendable m (data_frame sid payload end_stream) = (0 < sid) × (sid < 2 ^ 31) × (length payload ≤ m)
Sendable m (rst_stream sid error_code) = (0 < sid) × (sid < 2 ^ 31) × (error_code < 2 ^ 32)
Sendable m (window_update sid n) = (sid < 2 ^ 31) × (0 < n) × (n < 2 ^ 31)
Sendable m (go_away last error_code debug_data) =
    (last < 2 ^ 31) × (error_code < 2 ^ 32) × (8 + length debug_data ≤ m)
Sendable m (ping payload ack) = length payload ≡ 8
Sendable m settings_ack = Unit
Sendable m (settings_frame values) = InRange values × (settings_len values ≤ m)
Sendable m client_preface = ⊥

abbrev pub AllSendable : ℕ → List Frame → Type 0
AllSendable m [] = Unit
AllSendable m (f ∷ fs) = Sendable m f × AllSendable m fs

sub_self : (n : ℕ) → n - n ≡ 0
sub_self n = omega arith

module _ (w : Wire) where
  -- The event of a frame.
  abbrev pub seen : Frame → Event w
  seen (headers sid end_stream) = stream_error_event sid 0
  seen (data_frame sid payload end_stream) = data_event (record {
    stream_id = sid;
    end_stream = end_stream;
    data_bytes = payload;
    flow_controlled_len = length payload;
    padding = 0;
  })
  seen (rst_stream sid error_code) = rst_stream_event sid error_code
  seen (window_update sid n) = window_update_event sid n
  seen (go_away last error_code debug_data) = go_away_event last error_code debug_data
  seen (ping payload ack) = ping_event ack payload
  seen settings_ack = settings_event ack_settings
  seen (settings_frame values) = settings_event (advertised values)
  seen client_preface = settings_event ack_settings

  next_frame_alone :
      (m n : ℕ) (kind : Kind) (bytes rest : List ℕ)
      → IsFrame w kind n bytes
      → n ≤ m
      → next_frame m (bytes ++ rest) ≡ whole bytes rest
  next_frame_alone m n kind bytes rest (long, size, k) fits =
      next_frame_whole-append m bytes rest {frame = bytes} {rest = []} (
        next_frame_whole m bytes (omega arith) (omega arith) (omega arith)
        ∙ rw (
          take-all (header_len + payload_len bytes) bytes (omega arith),
          drop-all (header_len + payload_len bytes) bytes (omega arith),
        ))

  -- What the reader makes of a frame's bytes, with more behind them.
  abbrev Reads : ℕ → List ℕ → Event w → Type 0
  Reads m bytes event =
      ((rest : List ℕ) → next_frame m (bytes ++ rest) ≡ whole bytes rest)
      × ((a : Assembly w) → a.partial ≡ none → decode_one w bytes a ≡ (a, ok (some event)))

  -- A frame whose loading gives the event.
  reads :
      (m n : ℕ) (kind : Kind) (bytes : List ℕ) (event : Event w)
      → is_continuation kind ≡ false
      → IsFrame w kind n bytes
      → n ≤ m
      → ((a : Assembly w)
          → decode_kind w kind (head_of w bytes) (length bytes) (drop header_len bytes) a
            ≡ (a, ok (some event)))
      → Reads m bytes event
  reads m n kind bytes event k framed fits loads = (
    λ rest. next_frame_alone m n kind bytes rest framed fits,
    λ a idle.
        decode_one_idle w bytes a idle
        ∙ ap
            (λ (kd : Kind).
              decode_kind w kd (head_of w bytes) (length bytes) (drop header_len bytes) a)
            framed.2
        ∙ loads a,
  )

  module _ (e : Encoders) (l : EncodersLaws w e) where
    write_frame-Reads :
        (m m' : ℕ) (f : Frame)
        → 8 ≤ m
        → m < 2 ^ 24
        → m ≤ m'
        → Sendable m f
        → Reads m' (write_frame e m f []) (seen f)
    unfolding write_frame decode_kind
    write_frame-Reads m m' (headers sid end_stream) room small fits h = absurd h
    write_frame-Reads m m' (data_frame sid payload end_stream) room small fits h =
        let (framed, load) = l.data_laws sid end_stream payload h.0 h.1 (omega arith) in
        let bytes =
          e.head_bytes (record { kind = data_kind; flag = bit end_stream; stream_id = sid })
            (length payload)
          ++ payload in
        let allowed : ltb m (length payload) ≡ false = ground (arith, h.2) in
        rw (write_frame, allowed)
          (reads m' (length payload) data_kind bytes (seen (data_frame sid payload end_stream)) refl
            framed (omega arith) (λ a. rw (load, sub_self (length payload))))
    write_frame-Reads m m' (rst_stream sid error_code) room small fits h =
        let (framed, load) = l.reset_laws sid error_code h.0 h.1 h.2 in
        reads m' 4 reset_kind (e.reset_bytes sid error_code) (seen (rst_stream sid error_code)) refl
          framed (omega arith) (λ a. rw load)
    write_frame-Reads m m' (window_update sid n) room small fits h =
        let (framed, load) = l.window_update_laws sid n h.0 h.1 h.2 in
        reads m' 4 window_update_kind (e.window_update_bytes sid n) (seen (window_update sid n))
          refl framed (omega arith) (λ a. rw load)
    write_frame-Reads m m' (go_away last error_code []) room small fits h =
        let (framed, load) = l.go_away_laws last error_code h.0 h.1 in
        reads m' 8 go_away_kind (e.go_away_bytes last error_code)
          (seen (go_away last error_code [])) refl framed (omega arith) (λ a. rw load)
    write_frame-Reads m m' (go_away last error_code (x ∷ xs)) room small fits h =
        let (framed, load) = l.go_away_debug_laws last error_code (x ∷ xs) h.0 h.1 (omega arith) in
        reads m' (8 + length (x ∷ xs)) go_away_kind (e.go_away_debug_bytes last error_code (x ∷ xs))
          (seen (go_away last error_code (x ∷ xs))) refl framed (omega arith) (λ a. rw load)
    write_frame-Reads m m' (ping payload true) room small fits h =
        let (framed, load) = l.pong_laws payload h in
        rw (write_frame, h)
          (reads m' 8 ping_kind (e.pong_bytes payload) (seen (ping payload true)) refl framed
            (omega arith) (λ a. rw load))
    write_frame-Reads m m' (ping payload false) room small fits h =
        let (framed, load) = l.ping_laws payload h in
        rw (write_frame, h)
          (reads m' 8 ping_kind (e.ping_bytes payload) (seen (ping payload false)) refl framed
            (omega arith) (λ a. rw load))
    write_frame-Reads m m' settings_ack room small fits h =
        let (framed, load) = l.settings_ack_laws in
        reads m' 0 settings_kind e.settings_ack_bytes (seen settings_ack) refl framed (omega arith)
          (λ a. rw load)
    write_frame-Reads m m' (settings_frame values) room small fits h =
        let (framed, load) = l.settings_laws values h.0 in
        rw (write_frame, check_settings_lem values h.0)
          (reads m' (settings_len values) settings_kind (e.settings_bytes values)
            (seen (settings_frame values)) refl framed (omega (arith, h.1)) (λ a. rw load))
    write_frame-Reads m m' client_preface room small fits h = absurd h

    write_frame-append :
        (m : ℕ) (f : Frame) (dst : List ℕ) → write_frame e m f dst ≡ dst ++ write_frame e m f []
    unfolding write_frame
    write_frame-append m (headers sid end_stream) dst = sym (append-nil dst)
    write_frame-append m (data_frame sid payload end_stream) dst =
        elim (Bool-cases (ltb m (length payload))) [
          | inl too_big ↦ rw (write_frame, too_big) (sym (append-nil dst))
          | inr fits ↦ rw (write_frame, fits)
        ]
    write_frame-append m (rst_stream sid error_code) dst = refl
    write_frame-append m (window_update sid n) dst = refl
    write_frame-append m (go_away last error_code []) dst = refl
    write_frame-append m (go_away last error_code (x ∷ xs)) dst = refl
    write_frame-append m (ping payload ack) dst = elim (Bool-cases (length payload == 8)) [
      | inl eight ↦ rw (write_frame, eight)
      | inr other ↦ rw (write_frame, other) (sym (append-nil dst))
    ]
    write_frame-append m settings_ack dst = refl
    write_frame-append m (settings_frame values) dst = elim (Result-cases (check_settings values)) [
      | inl (_, fine) ↦ rw (write_frame, fine)
      | inr (x, refused) ↦ rw (write_frame, refused) (sym (append-nil dst))
    ]
    write_frame-append m client_preface dst = refl

    pub write_frames-append :
        (m : ℕ) (fs : List Frame) (dst : List ℕ)
        → write_frames e m fs dst ≡ dst ++ write_frames e m fs []
    unfolding write_frames
    write_frames-append m [] dst = sym (append-nil dst)
    write_frames-append m (f ∷ fs) dst =
        let bytes = write_frame e m f [] in
        write_frames-append m fs (write_frame e m f dst)
        ∙ ap (λ (x : List ℕ). x ++ write_frames e m fs []) (write_frame-append m f dst)
        ∙ append_assoc dst bytes (write_frames e m fs [])
        ∙ ap (λ (x : List ℕ). dst ++ x) (sym (write_frames-append m fs bytes))

    pub frames_read :
        (m n : ℕ) (fs : List Frame) (a : Assembly w)
        → 8 ≤ m
        → m < 2 ^ 24
        → m ≤ a.limits.max_recv_frame_size
        → AllSendable m fs
        → a.partial ≡ none
        → length (write_frames e m fs []) < n
        → read_frames w n (a, write_frames e m fs []) ≡ ((a, []), ok (map seen fs))
    unfolding read_frames write_frames
    frames_read m zero fs a room small fits h idle enough = elim enough [ ]
    frames_read m (suc n) [] a room small fits h idle enough =
        rw (read_frames, next_frame_nil a.limits.max_recv_frame_size)
    frames_read m (suc n) (f ∷ fs) a room small fits h idle enough =
        let max_frame = a.limits.max_recv_frame_size in
        let bytes = write_frame e m f [] in
        let rest = write_frames e m fs [] in
        let (cut, read) = write_frame-Reads m max_frame f room small fits h.0 in
        let less = (next_frame_lengths max_frame (bytes ++ rest) (cut rest)).1 in
        let split = write_frames-append m fs bytes in
        let ih = frames_read m n fs a room small fits h.1 idle (omega (arith, ap length split)) in
        rw (split, read_frames, cut rest, read a idle, ih)

    -- Frames without header blocks, the preface apart, that the encoders write for a frame size
    -- that the other side's decoder accepts, on streams and with codes and values that HTTP/2
    -- allows, are read back by it in their order and unchanged, with nothing left in its buffer,
    -- when it has no partial input.
    pub receive_frames-write_frames :
        (m : ℕ) (fs : List Frame) (d : Reader w)
        → 8 ≤ m
        → m < 2 ^ 24
        → m ≤ d.assembly.limits.max_recv_frame_size
        → AllSendable m fs
        → is_open w d ≡ false
        → d.buf ≡ []
        → d.assembly.partial ≡ none
        → receive_frames w (write_frames e m fs []) d ≡ (record d { buf = [] }, ok (map seen fs))
    unfolding drain
    receive_frames-write_frames m fs d room small fits h plain empty idle =
        let bytes = write_frames e m fs [] in
        let read =
          frames_read m (suc (length bytes)) fs d.assembly room small fits h idle (omega arith) in
        receive_frames_plain w bytes d plain ∙ rw (drain, empty, read)
