-- ===== src/H2/Writer.antt =====
-- src/h2/codec.rs, the outbound half on bytes: `Encoder::encode_data`, `encode_window_update`,
-- `encode_rst_stream`, `encode_go_away`, `encode_ping`, `encode_settings_ack` and `encode_settings`.
-- Each appends one frame to a buffer. `written` is the bytes of a frame of `Inner`'s pending buffer.
pub mod Opening
pub mod RoundTrip
use httpunk.Prelude.{
  ℕ, Bool, true, false, Option, none, some, List, [], ◌∷◌, ◌++◌, ltb, ◌==◌, not, bit, length,
  if◌then◌else◌,
}
use httpunk.H2.Vendor.{payload_too_big}
use httpunk.H2.Errors.{value, user_misuse, Result, ok, err}
use httpunk.H2.Inner.{
  Frame, headers, data_frame, rst_stream, window_update, go_away, ping, settings_ack,
  settings_frame, client_preface,
}
use httpunk.H1.Hyper.{h2_preface}
use httpunk.H2.Settings.{SettingsValues}
use httpunk.H2.Inner.Begin.{check_settings}
use httpunk.H2.Wire.{Head, data_kind}
use httpunk.H2.Encoders.{Encoders}

module _ (e : Encoders) where
  pub encode_data_bytes : ℕ → ℕ → List ℕ → Bool → List ℕ → List ℕ × Result (Unit {0})
  encode_data_bytes send_max_frame_size sid payload end_stream dst =
      if ltb send_max_frame_size (length payload)
      then (dst, err (user_misuse payload_too_big))
      else (let head : Head = record { kind = data_kind; flag = bit end_stream; stream_id = sid } in
          (dst ++ (e.head_bytes head (length payload) ++ payload), ok tt))

  pub encode_window_update : ℕ → ℕ → List ℕ → List ℕ
  encode_window_update sid increment dst = dst ++ e.window_update_bytes sid increment

  pub encode_rst_stream : ℕ → ℕ → List ℕ → List ℕ
  encode_rst_stream sid error_code dst = dst ++ e.reset_bytes sid error_code

  pub encode_go_away : ℕ → ℕ → List ℕ → List ℕ → List ℕ
  encode_go_away last error_code [] dst = dst ++ e.go_away_bytes last error_code
  encode_go_away last error_code (x ∷ xs) dst =
      dst ++ e.go_away_debug_bytes last error_code (x ∷ xs)

  -- `ping_payload` wants exactly eight bytes.
  pub encode_ping_bytes : List ℕ → Bool → List ℕ → List ℕ × Result (Unit {0})
  encode_ping_bytes payload ack dst =
      if not (length payload == 8)
      then (dst, err value)
      else (dst ++ (if ack then e.pong_bytes payload else e.ping_bytes payload), ok tt)

  pub encode_settings_ack : List ℕ → List ℕ
  encode_settings_ack dst = dst ++ e.settings_ack_bytes

  pub encode_settings_bytes : SettingsValues → List ℕ → List ℕ × Result (Unit {0})
  encode_settings_bytes values dst = elim (check_settings values) [
    | err x ↦ (dst, err x)
    | ok _ ↦ (dst ++ e.settings_bytes values, ok tt)
  ]

  -- The pending buffer after a frame; a HEADERS frame, whose block is not in the model, adds nothing.
  pub write_frame : ℕ → Frame → List ℕ → List ℕ
  unfolding encode_data_bytes encode_window_update encode_rst_stream encode_go_away
      encode_ping_bytes encode_settings_ack encode_settings_bytes
  write_frame max_frame (headers sid end_stream) dst = dst
  write_frame max_frame (data_frame sid payload end_stream) dst =
      (encode_data_bytes max_frame sid payload end_stream dst).0
  write_frame max_frame (rst_stream sid error_code) dst = encode_rst_stream sid error_code dst
  write_frame max_frame (window_update sid n) dst = encode_window_update sid n dst
  write_frame max_frame (go_away last error_code debug_data) dst =
      encode_go_away last error_code debug_data dst
  write_frame max_frame (ping payload ack) dst = (encode_ping_bytes payload ack dst).0
  write_frame max_frame settings_ack dst = encode_settings_ack dst
  write_frame max_frame (settings_frame values) dst = (encode_settings_bytes values dst).0
  write_frame max_frame client_preface dst = dst ++ h2_preface

  pub write_frames : ℕ → List Frame → List ℕ → List ℕ
  unfolding write_frame
  write_frames max_frame [] dst = dst
  write_frames max_frame (f ∷ fs) dst = write_frames max_frame fs (write_frame max_frame f dst)
