-- ===== src/H2/Encoders.antt =====
-- The vendored h2 crate's frame encoders as the codec uses them, and what h2 documents of a frame
-- that is encoded and loaded again. A frame is its head and its payload.
use httpunk.Prelude.{
  ℕ, ◌+◌, ◌^◌, ◌<◌, ◌≤◌, ◌≡◌, Bool, true, false, Option, none, some, List, [], ◌++◌, length, take,
  drop, bit, arith,
}
use httpunk.H2.Wire.{
  Wire, Kind, data_kind, reset_kind, settings_kind, ping_kind, go_away_kind, window_update_kind,
  Head, LoadedSettings,
}
use httpunk.H2.Settings.{SettingsValues}
use httpunk.H2.Assembly.{header_len}
use httpunk.H2.Reader.{payload_len}

pub record Encoders : Type 0 where
  -- `Head::encode`, with the payload's length.
  pub head_bytes : Head → ℕ → List ℕ
  pub window_update_bytes : ℕ → ℕ → List ℕ
  pub reset_bytes : ℕ → ℕ → List ℕ
  -- `GoAway::new` and `GoAway::with_debug_data`.
  pub go_away_bytes : ℕ → ℕ → List ℕ
  pub go_away_debug_bytes : ℕ → ℕ → List ℕ → List ℕ
  -- `Ping::new` and `Ping::pong`.
  pub ping_bytes : List ℕ → List ℕ
  pub pong_bytes : List ℕ → List ℕ
  -- `Settings::ack`.
  pub settings_ack_bytes : List ℕ
  -- `Settings::default` with the setter of each value that is there.
  pub settings_bytes : SettingsValues → List ℕ

abbrev pub ack_settings : LoadedSettings
ack_settings = record {
  applied = record {
    ack = true;
    header_table_size = none;
    max_frame_size = none;
    max_concurrent_streams = none;
    initial_window_size = none;
  };
  is_push_enabled = none;
  max_header_list_size = none;
}

-- The frame that a peer loads.
abbrev pub advertised : SettingsValues → LoadedSettings
advertised s = record {
  applied = record {
    ack = false;
    header_table_size = s.header_table_size;
    max_frame_size = s.max_frame_size;
    max_concurrent_streams = s.max_concurrent_streams;
    initial_window_size = s.initial_window_size;
  };
  is_push_enabled = s.enable_push;
  max_header_list_size = s.max_header_list_size;
}

abbrev pub Given : (ℕ → Type 0) → Option ℕ → Type 0
Given P none = Unit
Given P (some n) = P n

-- Values that HTTP/2 allows, which the setters and the loader accept.
pub record InRange (s : SettingsValues) : Type 0 where
  pub header_table_size : Given (λ n. n < 2 ^ 32) s.header_table_size
  pub max_concurrent_streams : Given (λ n. n < 2 ^ 32) s.max_concurrent_streams
  pub initial_window_size : Given (λ n. n < 2 ^ 31) s.initial_window_size
  pub max_frame_size : Given (λ n. (2 ^ 14 ≤ n) × (n < 2 ^ 24)) s.max_frame_size
  pub max_header_list_size : Given (λ n. n < 2 ^ 32) s.max_header_list_size

-- Six bytes for each value.
abbrev pub entry_len : {A : Type 0} → Option A → ℕ
entry_len none = 0
entry_len (some x) = 6

entry_len_le : {A : Type 0} (o : Option A) → entry_len o ≤ 6
entry_len_le none = omega arith
entry_len_le (some x) = omega arith

abbrev pub settings_len : SettingsValues → ℕ
settings_len s =
    entry_len s.header_table_size
    + (entry_len s.enable_push
        + (entry_len s.max_concurrent_streams
            + (entry_len s.initial_window_size
                + (entry_len s.max_frame_size + entry_len s.max_header_list_size))))

pub settings_len_le : (s : SettingsValues) → settings_len s ≤ 36
settings_len_le s = omega (
  arith,
  entry_len_le s.header_table_size,
  entry_len_le s.enable_push,
  entry_len_le s.max_concurrent_streams,
  entry_len_le s.initial_window_size,
  entry_len_le s.max_frame_size,
  entry_len_le s.max_header_list_size,
)

module _ (w : Wire) where
  abbrev pub head_of : List ℕ → Head
  head_of bytes = w.parse_head (take header_len bytes)

  -- A frame of a kind with so many bytes of payload.
  abbrev pub IsFrame : Kind → ℕ → List ℕ → Type 0
  IsFrame kind n bytes =
      (length bytes ≡ header_len + n) × (payload_len bytes ≡ n) × ((head_of bytes).kind ≡ kind)

  pub record EncodersLaws (e : Encoders) : Type 0 where
    -- A head with no PADDED flag, and its payload.
    pub data_laws :
        (sid : ℕ) (end_stream : Bool) (payload : List ℕ)
        → 0 < sid
        → sid < 2 ^ 31
        → length payload < 2 ^ 24
        → let head : Head = record { kind = data_kind; flag = bit end_stream; stream_id = sid } in
          let bytes = e.head_bytes head (length payload) ++ payload in
          IsFrame data_kind (length payload) bytes
          × (w.load_data (head_of bytes) (drop header_len bytes)
              ≡ some (record {
                stream_id = sid;
                is_end_stream = end_stream;
                flow_controlled_len = length payload;
                payload = payload;
              }))
    pub window_update_laws :
        (sid n : ℕ)
        → sid < 2 ^ 31
        → 0 < n
        → n < 2 ^ 31
        → let bytes = e.window_update_bytes sid n in
          IsFrame window_update_kind 4 bytes
          × (w.load_window_update (head_of bytes) (drop header_len bytes) ≡ some (sid, n))
    pub reset_laws :
        (sid error_code : ℕ)
        → 0 < sid
        → sid < 2 ^ 31
        → error_code < 2 ^ 32
        → let bytes = e.reset_bytes sid error_code in
          IsFrame reset_kind 4 bytes
          × (w.load_reset (head_of bytes) (drop header_len bytes) ≡ some (sid, error_code))
    pub go_away_laws :
        (last error_code : ℕ)
        → last < 2 ^ 31
        → error_code < 2 ^ 32
        → let bytes = e.go_away_bytes last error_code in
          IsFrame go_away_kind 8 bytes
          × (w.load_go_away (head_of bytes) (drop header_len bytes) ≡ some (last, error_code, []))
    pub go_away_debug_laws :
        (last error_code : ℕ) (debug_data : List ℕ)
        → last < 2 ^ 31
        → error_code < 2 ^ 32
        → 8 + length debug_data < 2 ^ 24
        → let bytes = e.go_away_debug_bytes last error_code debug_data in
          IsFrame go_away_kind (8 + length debug_data) bytes
          × (w.load_go_away (head_of bytes) (drop header_len bytes)
              ≡ some (last, error_code, debug_data))
    pub ping_laws :
        (payload : List ℕ)
        → length payload ≡ 8
        → let bytes = e.ping_bytes payload in
          IsFrame ping_kind 8 bytes
          × (w.load_ping (head_of bytes) (drop header_len bytes) ≡ some (false, payload))
    pub pong_laws :
        (payload : List ℕ)
        → length payload ≡ 8
        → let bytes = e.pong_bytes payload in
          IsFrame ping_kind 8 bytes
          × (w.load_ping (head_of bytes) (drop header_len bytes) ≡ some (true, payload))
    pub settings_ack_laws :
        IsFrame settings_kind 0 e.settings_ack_bytes
        × (w.load_settings (head_of e.settings_ack_bytes) (drop header_len e.settings_ack_bytes)
            ≡ some ack_settings)
    pub settings_laws :
        (s : SettingsValues)
        → InRange s
        → let bytes = e.settings_bytes s in
          IsFrame settings_kind (settings_len s) bytes
          × (w.load_settings (head_of bytes) (drop header_len bytes) ≡ some (advertised s))
