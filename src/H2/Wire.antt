-- ===== src/H2/Wire.antt =====
-- The vendored h2 crate's frame layer as the codec uses it: `frame::Head`, the loaders of each
-- frame, and HPACK's decoder through `Headers::load_hpack`. A loader's error stands without its
-- message. A method on `&mut self` gives the new value too.
use httpunk.Prelude.{ℕ, ◌≡◌, Bool, Option, List}
use httpunk.H2.Inner.Control.{SettingsFrame}

-- `frame::Kind`.
pub data Kind : Type 0 where
  data_kind headers_kind priority_kind reset_kind settings_kind push_promise_kind : Kind
  ping_kind go_away_kind window_update_kind continuation_kind unknown_kind : Kind

pub record Head : Type 0 where
  pub kind : Kind
  pub flag : ℕ
  pub stream_id : ℕ

-- A loader's result where `Error::InvalidDependencyId` has a case of its own.
pub data Loaded (A : Type 0) : Type 0 where
  loaded : A → Loaded A
  self_dependent : Loaded A
  unloadable : Loaded A

-- What `load_hpack` returns: `Ok`, `Hpack(NeedMore)`, `MalformedMessage`, `HeaderListWayTooLarge`,
-- or any other error.
pub data Decoding : Type 0 where
  decoded need_more malformed_message header_list_way_too_large undecodable : Decoding

pub record LoadedData : Type 0 where
  pub stream_id : ℕ
  pub is_end_stream : Bool
  pub flow_controlled_len : ℕ
  pub payload : List ℕ

pub record LoadedSettings : Type 0 where
  pub applied : SettingsFrame
  pub is_push_enabled : Option Bool
  pub max_header_list_size : Option ℕ

pub record Hpacked (Headers Hpack : Type 0) : Type 0 where
  pub frame : Headers
  pub rest : List ℕ
  -- The size updates that are still queued.
  pub table_updates : List ℕ
  pub hpack : Hpack
  pub result : Decoding

pub record Wire : Type 1 where
  -- `frame::Headers`, what `into_parts` gives, and `hpack::Decoder`.
  pub Headers : Type 0
  pub Parts : Type 0
  pub Hpack : Type 0
  pub new_hpack : Hpack
  pub parse_head : List ℕ → Head
  pub load_headers : Head → List ℕ → Loaded (Headers × List ℕ)
  pub load_hpack : Headers → List ℕ → ℕ → List ℕ → Hpack → Hpacked Headers Hpack
  pub headers_stream_id : Headers → ℕ
  pub is_end_headers : Headers → Bool
  pub is_end_stream : Headers → Bool
  pub is_informational : Headers → Bool
  pub is_over_size : Headers → Bool
  -- `fields().get_all(CONTENT_LENGTH)`, and `frame::parse_u64`.
  pub content_lengths : Headers → List (List ℕ)
  pub parse_u64 : List ℕ → Option ℕ
  pub into_parts : Headers → Parts
  pub status : Parts → Option ℕ
  pub load_data : Head → List ℕ → Option LoadedData
  pub load_settings : Head → List ℕ → Option LoadedSettings
  pub load_window_update : Head → List ℕ → Option (ℕ × ℕ)
  pub load_ping : Head → List ℕ → Option (Bool × List ℕ)
  pub load_go_away : Head → List ℕ → Option (ℕ × ℕ × List ℕ)
  pub load_reset : Head → List ℕ → Option (ℕ × ℕ)
  pub load_priority : Head → List ℕ → Loaded (Unit {0})

-- What h2 documents of HEADERS frames: a frame is on the stream of its head, and decoding its block
-- does not move it.
pub record WireLaws (w : Wire) : Type 0 where
  pub load_headers_stream_id :
      (head : Head) (payload : List ℕ) (h : w.Headers) (block : List ℕ)
      → w.load_headers head payload ≡ loaded (h, block)
      → w.headers_stream_id h ≡ head.stream_id
  pub load_hpack_stream_id :
      (h : w.Headers) (block : List ℕ) (max_list : ℕ) (updates : List ℕ) (hpack : w.Hpack)
      → w.headers_stream_id (w.load_hpack h block max_list updates hpack).frame
        ≡ w.headers_stream_id h
