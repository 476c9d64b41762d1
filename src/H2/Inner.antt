-- ===== src/H2/Inner.antt =====
-- src/h2/conn.rs, the data: `StreamEntry`, `Inner`, and the verdict flags.
pub mod Queues
pub mod Invariant
pub mod Entry
pub mod Window
pub mod Store
pub mod Reset
pub mod Headers
pub mod Receive
pub mod Control
pub mod Shutdown
pub mod Runs
pub mod Send
pub mod SendHeads
pub mod Calls
pub mod Begin
pub mod Writers
pub mod Payload
use httpunk.Prelude.{
  ℕ, ◌+◌, ◌-◌, ◌%◌, Bool, true, false, ◌||◌, Option, none, some, List, [], leb, if◌then◌else◌,
}
use httpunk.H2.ContentLength.{ContentLength}
use httpunk.H2.ContentLength
use httpunk.H2.Budget.{DataFrameCounts}
use httpunk.H2.Settings.{Settings, SettingsValues, PeerSettings}
use httpunk.H2.Vendor.{Vendor}

pub data Role : Type 0 where
  client server : Role

-- The verdict's bit mask, a test for each bit.
pub record Flags : Type 0 where
  pub wake : Bool
  pub slot_freed : Bool
  pub conn_done : Bool
  pub stop_accepting : Bool
  pub capacity : Bool

abbrev pub no_flags : Flags
no_flags = record {
  wake = false;
  slot_freed = false;
  conn_done = false;
  stop_accepting = false;
  capacity = false;
}

infixl 30 ◌|||◌
abbrev pub ◌|||◌ : Flags → Flags → Flags
f ||| g = record {
  wake = f.wake || g.wake;
  slot_freed = f.slot_freed || g.slot_freed;
  conn_done = f.conn_done || g.conn_done;
  stop_accepting = f.stop_accepting || g.stop_accepting;
  capacity = f.capacity || g.capacity;
}

abbrev pub flag_capacity : Flags
flag_capacity = record no_flags { capacity = true }

-- Why a stream stopped (`H2Stopped`).
pub record Stopped : Type 0 where
  pub reason : Option ℕ
  pub conn : Bool

-- What a reset tells the driver: the handle to notify, and the error that its readers see.
pub record ResetVerdict : Type 0 where
  pub handle : Option ℕ
  pub stop : Option Stopped
  pub flags : Flags

-- `H2RecvHeadersVerdict.kind`.
pub data HeadersKind : Type 0 where
  headers_ignored headers_opened headers_head headers_trailers : HeadersKind

pub record RecvHeadersVerdict : Type 0 where
  pub kind : HeadersKind
  pub handle : Option ℕ
  pub stream_id : ℕ
  pub eof : Bool
  pub flags : Flags

pub record RecvDataVerdict : Type 0 where
  pub handle : Option ℕ
  pub payload : Option (List ℕ)
  pub budgeted : Bool
  pub eof : Bool
  pub flags : Flags

-- A decoded HEADERS frame (`codec::Headers`), as far as the state reads it.
pub record HeadersFrame : Type 0 where
  pub stream_id : ℕ
  pub end_stream : Bool
  pub status : Option ℕ
  pub content_length : Option ℕ
  pub content_length_invalid : Bool
  pub is_informational : Bool
  pub is_over_size : Bool

-- A decoded DATA frame (`codec::Data`).
pub record DataFrame : Type 0 where
  pub stream_id : ℕ
  pub end_stream : Bool
  pub data_bytes : List ℕ
  pub flow_controlled_len : ℕ
  pub padding : ℕ

-- A frame in the pending-send buffer. The buffer of bytes is the list of the frames in it; a frame
-- has at least nine bytes, so the buffer grows exactly when a frame is added. The header block of
-- a HEADERS frame is left out.
pub data Frame : Type 0 where
  headers : ℕ → Bool → Frame
  data_frame : ℕ → List ℕ → Bool → Frame
  rst_stream : ℕ → ℕ → Frame
  window_update : ℕ → ℕ → Frame
  go_away : ℕ → ℕ → List ℕ → Frame
  ping : List ℕ → Bool → Frame
  settings_ack : Frame
  settings_frame : SettingsValues → Frame
  client_preface : Frame

-- usize `a -= b`.
abbrev pub usize_sub : ℕ → ℕ → ℕ
usize_sub a b = if leb b a then a - b else a + 18446744073709551616 - b

abbrev pub u32_mod : ℕ
u32_mod = 4294967296

pub record StreamEntry (v : Vendor) : Type 0 where
  pub handle : ℕ
  pub state : v.State
  pub send_flow : v.FlowControl
  pub recv_flow : v.FlowControl
  pub content_length : ContentLength
  pub recv_unreleased : ℕ
  pub recv_reclaimed : Bool
  pub send_buffered : ℕ
  pub data_budget_charged : ℕ
  pub holds_slot : Bool
  pub finished : Bool
  pub is_pending_capacity : Bool
  pub is_pending_send : Bool
  pub turn_frames : ℕ

-- The fields of `Inner` that no operation of a live connection changes.
pub record Config : Type 0 where
  pub role : Role
  pub reset_stream_max : ℕ
  pub reset_stream_duration : ℕ
  pub burst_frames : ℕ
  pub max_send_buf_size : ℕ
  pub max_local_error_resets : Option ℕ
  pub max_concurrent : ℕ
  pub max_pending_accept_reset : ℕ

pub record GoAwayInfo : Type 0 where
  pub last_stream_id : ℕ
  pub reason : ℕ
  pub debug_data : List ℕ

-- The connection's stored error: an exception handed in, or a closure decided here.
pub data ConnError : Type 0 where
  py closed : ConnError

pub record Inner (v : Vendor) : Type 0 where
  pub config : Config
  pub open config use *
  pub pending : List Frame
  pub credit : List (ℕ × ℕ)
  pub inflight_credit : List (ℕ × ℕ)
  pub streams : List (ℕ × StreamEntry v)
  pub num_active : ℕ
  pub reset_streams : List (ℕ × ℕ)
  pub peer : PeerSettings
  pub settings : Settings
  -- The peer's frame-size limit in the encoder.
  pub send_max_frame_size : ℕ
  pub conn_send : v.FlowControl
  pub conn_recv : v.FlowControl
  pub recv_init : ℕ
  pub pending_send : List ℕ
  pub pending_capacity : List ℕ
  pub goaway : Option GoAwayInfo
  pub goaway_last_id : Option ℕ
  pub goaway_replied : Bool
  pub error : Option ConnError
  -- The request-body writers that are alive, and whether `close` waits for them.
  pub writers : ℕ
  pub draining : Bool
  pub local_error_resets : ℕ
  pub data_budget : DataFrameCounts
  pub next_id : ℕ
  pub num_open_streams : ℕ
  pub stream_limit : Option ℕ
  pub last_recv_id : ℕ
  pub last_processed_id : ℕ
  pub graceful : Bool
  pub max_stream_id : ℕ
  pub shutdown_final : Bool
  pub pending_accept : List ℕ
  pub remote_reset_pending : List ℕ
