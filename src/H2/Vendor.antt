-- ===== src/H2/Vendor.antt =====
-- The vendored h2 crate as the connection uses it: its stream state machine
-- (`proto::streams::State`), its windows (`proto::streams::FlowControl`), and the error values that
-- pass through. A `Vendor` has the operations; `VendorLaws` has what h2 documents of them.
-- A method on `&mut self` that returns `Result<(), E>` gives the new value and the error, if any.
use httpunk.Prelude.{ℕ, ◌+◌, ◌≤◌, ◌≡◌, Bool, true, false, Option, none, List}

pub data Initiator : Type 0 where
  user library remote : Initiator

-- `proto::Error`.
pub data ProtoError : Type 0 where
  reset : ℕ → ℕ → Initiator → ProtoError
  go_away : List ℕ → ℕ → Initiator → ProtoError
  io : ProtoError

-- `codec::UserError`.
pub data UserError : Type 0 where
  inactive_stream_id unexpected_frame_type payload_too_big rejected : UserError
  release_capacity_too_big overflowed_stream_id malformed_headers : UserError
  missing_uri_scheme_and_authority poll_reset_after_send_response : UserError
  send_ping_while_pending send_settings_while_pending peer_disabled_server_push : UserError
  invalid_informational_status_code : UserError

-- What `State::ensure_reason` answers: `Ok(reason)`, or an error with its reason.
pub data Verdict : Type 0 where
  fine : Option ℕ → Verdict
  failed : Option ℕ → Verdict

pub record Vendor : Type 1 where
  pub State : Type 0
  pub default : State
  pub send_open : Bool → State → State × Option UserError
  pub recv_open : Bool → Bool → State → State × Option ProtoError
  pub recv_close : State → State × Option ProtoError
  pub recv_reset : ℕ → ℕ → Bool → State → State
  pub recv_eof : State → State
  pub handle_error : ProtoError → State → State
  pub send_close : State → State
  pub set_reset : ℕ → ℕ → Initiator → State → State
  pub is_local_error : State → Bool
  pub is_reset : State → Bool
  pub is_send_streaming : State → Bool
  pub is_recv_headers : State → Bool
  pub is_recv_streaming : State → Bool
  pub is_recv_end_stream : State → Bool
  pub is_closed : State → Bool
  pub is_send_closed : State → Bool
  pub ensure_recv_open : State → Option ProtoError
  pub ensure_reason : State → Verdict
  -- `StreamId::is_client_initiated`.
  pub is_client_initiated : ℕ → Bool
  pub FlowControl : Type 0
  pub new : FlowControl
  pub window_size : FlowControl → ℕ
  pub inc_window : ℕ → FlowControl → FlowControl × Option ℕ
  pub dec_send_window : ℕ → FlowControl → FlowControl × Option ℕ
  pub dec_recv_window : ℕ → FlowControl → FlowControl × Option ℕ
  pub assign_capacity : ℕ → FlowControl → FlowControl × Option ℕ
  pub claim_capacity : ℕ → FlowControl → FlowControl × Option ℕ
  pub send_data : ℕ → FlowControl → FlowControl × Option ℕ
  pub unclaimed_capacity : FlowControl → Option ℕ

-- What h2 documents of its state machine and windows.
pub record VendorLaws (v : Vendor) : Type 0 where
  -- A reset, a received reset, a broken connection and a GOAWAY all close the stream.
  pub set_reset_closed :
      (id reason : ℕ) (i : Initiator) (st : v.State)
      → v.is_closed (v.set_reset id reason i st) ≡ true
  pub set_reset_is_reset :
      (id reason : ℕ) (i : Initiator) (st : v.State)
      → v.is_reset (v.set_reset id reason i st) ≡ true
  pub recv_reset_closed :
      (id reason : ℕ) (queued : Bool) (st : v.State)
      → v.is_closed (v.recv_reset id reason queued st) ≡ true
  pub recv_eof_closed : (st : v.State) → v.is_closed (v.recv_eof st) ≡ true
  pub handle_error_closed :
      (e : ProtoError) (st : v.State) → v.is_closed (v.handle_error e st) ≡ true
  -- A closed stream sends and receives nothing more.
  pub closed_send : (st : v.State) → v.is_closed st ≡ true → v.is_send_streaming st ≡ false
  pub closed_recv_streaming :
      (st : v.State) → v.is_closed st ≡ true → v.is_recv_streaming st ≡ false
  -- A transition of a closed stream leaves it closed.
  pub recv_open_stays :
      (eos informational : Bool) (st : v.State)
      → v.is_closed st ≡ true
      → v.is_closed (v.recv_open eos informational st).0 ≡ true
  pub recv_close_stays :
      (st : v.State) → v.is_closed st ≡ true → v.is_closed (v.recv_close st).0 ≡ true
  pub send_open_stays :
      (eos : Bool) (st : v.State)
      → v.is_closed st ≡ true
      → v.is_closed (v.send_open eos st).0 ≡ true
  -- Within the window, `send_data` succeeds and takes the bytes from it.
  pub send_data_fits :
      (sz : ℕ) (fc : v.FlowControl)
      → sz ≤ v.window_size fc
      → ((v.send_data sz fc).1 ≡ none)
        × (v.window_size (v.send_data sz fc).0 + sz ≡ v.window_size fc)
