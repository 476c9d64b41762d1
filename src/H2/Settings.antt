-- ===== src/H2/Settings.antt =====
-- src/h2/settings.rs: the handshake of our own SETTINGS, the arrival of the peer's, and the values
-- that the peer set.
pub mod Handshake
use httpunk.Prelude.{ℕ, Bool, true, false, not, Option, none, some, List, []}
use httpunk.H2.Budget.{default_initial_window_size}
use httpunk.H2.Reason
use httpunk.H2.Errors.{Error, protocol, Result, ok, err}

pub data Local : Type 0 where
  to_send waiting_ack synced : Local

-- `MAX_WINDOW_SIZE`.
abbrev pub max_window_size : ℕ
max_window_size = 2147483647

-- The values that a SETTINGS frame of ours advertises (`SettingsValues` of src/h2/codec.rs).
pub record SettingsValues : Type 0 where
  pub header_table_size : Option ℕ
  pub enable_push : Option Bool
  pub max_concurrent_streams : Option ℕ
  pub initial_window_size : Option ℕ
  pub max_frame_size : Option ℕ
  pub max_header_list_size : Option ℕ

pub record Settings : Type 0 where
  pub local : SettingsValues
  pub state : Local
  pub has_received_remote_initial : Bool

unfoldable pub new : SettingsValues → Settings
new local = record { local = local; state = to_send; has_received_remote_initial = false }

pub mark_sent : Settings → Settings
mark_sent s = record s { state = waiting_ack }

abbrev is_waiting : Local → Bool
is_waiting waiting_ack = true
is_waiting _ = false

pub recv_ack : Settings → Settings × Result (Unit {0})
recv_ack s = elim (is_waiting s.state) [
  | true ↦ (record s { state = synced }, ok tt)
  | false ↦ (s, err (protocol Reason.protocol_error []))
]

-- Whether it was the peer's initial SETTINGS.
pub recv_remote : Settings → Settings × Bool
recv_remote s = (record s { has_received_remote_initial = true }, not s.has_received_remote_initial)

pub record PeerSettings : Type 0 where
  pub header_table_size : ℕ
  pub initial_window_size : ℕ
  pub max_frame_size : ℕ
  pub max_concurrent_streams : Option ℕ

abbrev pub default_max_frame_size : ℕ
default_max_frame_size = 16384

abbrev default_settings_header_table_size : ℕ
default_settings_header_table_size = 4096

pub new_peer : PeerSettings
new_peer = record {
  header_table_size = default_settings_header_table_size;
  initial_window_size = default_initial_window_size;
  max_frame_size = default_max_frame_size;
  max_concurrent_streams = none;
}
