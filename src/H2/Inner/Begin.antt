-- ===== src/H2/Inner/Begin.antt =====
-- src/h2/conn.rs, `begin`, with the checks of `encode_settings` in src/h2/codec.rs. The connection
-- window's target, a field that nothing changes, is an argument.
pub mod Ranges
pub mod Valid
use httpunk.Prelude.{ℕ, ◌-◌, Option, none, some, List, [], ◌∷◌, ◌++◌, ltb, if◌then◌else◌}
use httpunk.H2.Budget.{default_initial_window_size}
use httpunk.H2.Errors.{value, Result, ok, err}
use httpunk.H2.Settings.{SettingsValues, max_window_size, mark_sent}
use httpunk.H2.Decoder.{check_max_frame_size}
use httpunk.H2.Vendor.{Vendor}
use httpunk.H2.Inner.{Inner, Role, client, server, Frame, settings_frame, client_preface}
use httpunk.H2.Inner.Window.{reclaim_conn}

check_window : ℕ → Result (Unit {0})
check_window w = if ltb max_window_size w then err value else ok tt

-- A value that is not sent is not checked.
abbrev check_given : (ℕ → Result (Unit {0})) → Option ℕ → Result (Unit {0})
check_given check none = ok tt
check_given check (some n) = check n

-- The two ranges that `frame::Settings` would assert on or the peer refuse.
pub check_settings : SettingsValues → Result (Unit {0})
unfolding check_window
check_settings values = elim (check_given check_max_frame_size values.max_frame_size) [
  | err x ↦ err x
  | ok _ ↦ check_given check_window values.initial_window_size
]

pub encode_settings : SettingsValues → List Frame → List Frame × Result (Unit {0})
encode_settings values dst = elim (check_settings values) [
  | err x ↦ (dst, err x)
  | ok _ ↦ (dst ++ settings_frame values ∷ [], ok tt)
]

abbrev pub preface_of : Role → List Frame
preface_of client = client_preface ∷ []
preface_of server = []

module _ (v : Vendor) where
  -- What follows the SETTINGS frame, or its refusal.
  abbrev pub go_on : ℕ → Inner v → List Frame × Result (Unit {0}) → Inner v × Result (Unit {0})
  go_on conn_recv_target s (pending, err x) = (record s { pending = pending }, err x)
  go_on conn_recv_target s (pending, ok _) =
      let sent = record s { pending = pending; settings = mark_sent s.settings } in
      let delta = conn_recv_target - default_initial_window_size in
      (if ltb 0 delta then reclaim_conn v sent delta else sent, ok tt)

  pub begin : ℕ → Inner v → Inner v × Result (Unit {0})
  begin conn_recv_target s =
      go_on conn_recv_target s (encode_settings s.settings.local (s.pending ++ preface_of s.role))
