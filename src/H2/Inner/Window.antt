-- ===== src/H2/Inner/Window.antt =====
-- src/h2/conn.rs, recv-side flow control and the reset store: `reclaim_conn`,
-- `reclaim_stream_accounting`, `maybe_remove_settled`, `consume_conn_recv`, `record_data_frame`,
-- `release_capacity_inner`, `in_reset_store`, `enqueue_reset_expiration`.
-- An `Instant` is a number of time units, and the clock is an argument.
pub mod Grants
pub mod Quiet
pub mod Valid
use httpunk.Prelude.{
  ℕ, ◌+◌, ◌-◌, ◌%◌, ◌≡◌, Bool, true, false, not, ◌&&◌, Option, none, some, List, [], ◌∷◌, ◌++◌, leb,
  ltb, ◌==◌, if◌then◌else◌, length, codes,
}
use httpunk.Prelude.Map.{lookup, insert, remove}
use httpunk.H2.Budget
use httpunk.H2.Reason
use httpunk.H2.Vendor.{Vendor}
use httpunk.H2.Errors.{Error, protocol, Result, ok, err, map_reason}
use httpunk.H2.Inner.{StreamEntry, Inner, Frame, window_update, u32_mod}
use httpunk.H2.Inner.Entry.{fc_send_data}

module _ (v : Vendor) where
  -- An entry that owes nothing.
  abbrev pub is_settled : StreamEntry v → Bool
  is_settled e = (e.recv_unreleased == 0) && (e.data_budget_charged == 0)

  pub maybe_remove_settled : Inner v → ℕ → Inner v
  maybe_remove_settled s sid = elim (lookup sid s.streams) [
    | none ↦ s
    | some e ↦
        if e.finished && is_settled e then (record s { streams = remove sid s.streams }) else s
  ]

  advertise_conn : Inner v → Inner v
  advertise_conn s = elim (v.unclaimed_capacity s.conn_recv) [
    | none ↦ s
    | some unclaimed ↦ record s {
      conn_recv = (v.inc_window unclaimed s.conn_recv).0;
      pending = s.pending ++ window_update 0 unclaimed ∷ [];
    }
  ]

  pub reclaim_conn : Inner v → ℕ → Inner v
  unfolding advertise_conn
  reclaim_conn s n =
      if n == 0
      then s
      else advertise_conn (record s { conn_recv = (v.assign_capacity n s.conn_recv).0 })

  pub reclaim_stream_accounting : Inner v → ℕ → Inner v
  reclaim_stream_accounting s sid = elim (lookup sid s.streams) [
    | none ↦ s
    | some e ↦
        let charge = e.data_budget_charged in
        let e' = record e { data_budget_charged = 0; recv_unreleased = 0; recv_reclaimed = true } in
        let s' = record s {
          streams = insert sid e' s.streams;
          data_budget = if charge == 0 then s.data_budget else Budget.release s.data_budget charge;
        } in
        maybe_remove_settled (reclaim_conn s' e.recv_unreleased) sid
  ]

  pub consume_conn_recv : Inner v → ℕ → Inner v × Result (Unit {0})
  consume_conn_recv s sz =
      let (fc, failure) = fc_send_data v s.conn_recv sz in
      (
        record s { conn_recv = fc },
        elim failure [ none ↦ ok tt | some reason ↦ err (map_reason reason) ],
      )

  -- `budget_exhausted`: GOAWAY(ENHANCE_YOUR_CALM) with its debug data.
  abbrev budget_exhausted : Error
  budget_exhausted = protocol Reason.enhance_your_calm (codes "too_many_data_frames")

  charge_entry : Inner v → ℕ → ℕ → Inner v
  charge_entry s sid charge = elim (lookup sid s.streams) [
    | none ↦ s
    | some e ↦
        let e' = record e { data_budget_charged = e.data_budget_charged + charge } in
        record s { streams = insert sid e' s.streams }
  ]

  pub record_data_frame : Inner v → ℕ → ℕ → Inner v × Result (Unit {0})
  unfolding charge_entry
  record_data_frame s sid payload_len =
      let (counts, charged) = Budget.record_frame s.data_budget payload_len in
      let s' = record s { data_budget = counts } in
      elim charged [
        | none ↦ (s', err budget_exhausted)
        | some charge ↦ (charge_entry s' sid charge, ok tt)
      ]

  advertise_stream : Inner v → ℕ → StreamEntry v → Inner v
  advertise_stream s sid e = elim (v.unclaimed_capacity e.recv_flow) [
    | none ↦ s
    | some unclaimed ↦ if v.is_recv_end_stream e.state then s else (record s {
      streams =
          insert sid (record e { recv_flow = (v.inc_window unclaimed e.recv_flow).0 }) s.streams;
      pending = s.pending ++ window_update sid unclaimed ∷ [];
    })
  ]

  pub release_capacity_inner : Inner v → ℕ → ℕ → Inner v
  unfolding advertise_stream
  release_capacity_inner s sid n = elim (lookup sid s.streams) [
    | none ↦ s
    | some e ↦
        if e.recv_reclaimed
        then s
        else (let e' = record e {
          recv_unreleased = e.recv_unreleased - n;
          recv_flow = (v.assign_capacity n e.recv_flow).0;
        } in
            let s' = record s { streams = insert sid e' s.streams } in
            maybe_remove_settled (reclaim_conn (advertise_stream s' sid e') n) sid)
  ]

  -- The reset store.
  pub in_reset_store : Inner v → ℕ → ℕ → Inner v × Bool
  in_reset_store s now sid = elim (lookup sid s.reset_streams) [
    | none ↦ (s, false)
    | some at ↦
        if leb (now - at) s.reset_stream_duration
        then (s, true)
        else (record s { reset_streams = remove sid s.reset_streams }, false)
  ]

  -- `retain`: the ids that have not aged out.
  pub retain_fresh : ℕ → ℕ → List (ℕ × ℕ) → List (ℕ × ℕ)
  retain_fresh now limit [] = []
  retain_fresh now limit ((sid, at) ∷ m) =
      if leb (now - at) limit
      then (sid, at) ∷ retain_fresh now limit m
      else retain_fresh now limit m

  pub clear_expired_reset_streams : Inner v → ℕ → Inner v
  clear_expired_reset_streams s now = record s {
    reset_streams = retain_fresh now s.reset_stream_duration s.reset_streams;
  }

  pub enqueue_reset_expiration : Inner v → ℕ → ℕ → Inner v
  unfolding clear_expired_reset_streams
  enqueue_reset_expiration s now sid =
      let t = clear_expired_reset_streams s now in
      if leb t.reset_stream_max (length t.reset_streams)
      then t
      else (record t { reset_streams = insert sid now t.reset_streams })
