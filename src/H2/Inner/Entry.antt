-- ===== src/H2/Inner/Entry.antt =====
-- src/h2/conn.rs, `StreamEntry::new`, `StreamEntry::stopped`, `stop_for_reader`, `stop_from_proto`
-- and `fc_send_data`.
use httpunk.Prelude.{ℕ, Bool, true, false, ◌&&◌, Option, none, some, ltb, if◌then◌else◌}
use httpunk.H2.ContentLength
use httpunk.H2.Reason
use httpunk.H2.Vendor.{Vendor, ProtoError, fine, failed}
use httpunk.H2.Inner.{StreamEntry, Stopped}

pub stop_from_proto : ProtoError → Stopped
stop_from_proto (ProtoError.reset id reason initiator) = record {
  reason = some reason;
  conn = false;
}
stop_from_proto (ProtoError.go_away debug reason initiator) = record {
  reason = some reason;
  conn = true;
}
stop_from_proto ProtoError.io = record { reason = none; conn = true }

module _ (v : Vendor) where
  -- A fresh window, opened and made available.
  open_flow : ℕ → v.FlowControl
  open_flow window = (v.assign_capacity window (v.inc_window window v.new).0).0

  unfoldable pub new_entry : ℕ → ℕ → ℕ → Bool → StreamEntry v
  unfolding open_flow
  new_entry handle send_window recv_window is_head = record {
    handle = handle;
    state = v.default;
    send_flow = open_flow send_window;
    recv_flow = open_flow recv_window;
    content_length = ContentLength.new is_head;
    recv_unreleased = 0;
    recv_reclaimed = false;
    send_buffered = 0;
    data_budget_charged = 0;
    holds_slot = false;
    finished = false;
    is_pending_capacity = false;
    is_pending_send = false;
    turn_frames = 0;
  }

  pub stopped : StreamEntry v → Stopped
  stopped e = elim (v.ensure_recv_open e.state) [
    | some err ↦ stop_from_proto err
    | none ↦ elim (v.ensure_reason e.state) [
      | fine reason ↦ record { reason = reason; conn = false }
      | failed reason ↦ record { reason = reason; conn = true }
    ]
  ]

  pub stop_for_reader : StreamEntry v → Option Stopped
  stop_for_reader e = elim (v.ensure_recv_open e.state) [
    | some err ↦ some (stop_from_proto err)
    | none ↦ none
  ]

  -- `FlowControl::send_data` with its assertion guarded.
  pub fc_send_data : v.FlowControl → ℕ → v.FlowControl × Option ℕ
  fc_send_data fc sz =
      if ltb 0 sz && ltb (v.window_size fc) sz
      then (fc, some Reason.flow_control_error)
      else v.send_data sz fc
