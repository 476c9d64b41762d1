-- ===== src/H2/Settings/Handshake.antt =====
-- The SETTINGS handshake over any order of its events.
use httpunk.Prelude.{ℕ, ◌+◌, ◌≤◌, ◌≡◌, refl, min, true, not, bit, List, [], ◌∷◌, arith}
use httpunk.H2.Errors.{Result, ok, err}
use httpunk.H2.Settings.{
  Local, waiting_ack, synced, Settings, SettingsValues, new, mark_sent, recv_ack, recv_remote,
}

pub data Event : Type 0 where
  sent acked remote : Event

-- The ACKs that were accepted, the SETTINGS of the peer that arrived, and those of them that were
-- reported as its initial one.
pub record Tally : Type 0 where
  pub acks : ℕ
  pub remotes : ℕ
  pub initials : ℕ

abbrev accepted : Result (Unit {0}) → ℕ
accepted (ok _) = 1
accepted (err _) = 0

-- The handshake after the events, up to the first ACK that is refused, which ends the connection.
unfoldable pub run : Settings → Tally → List Event → Settings × Tally
run s t [] = (s, t)
run s t (sent ∷ es) = run (mark_sent s) t es
run s t (remote ∷ es) =
    let (s', initial) = recv_remote s in
    run s' (record t { remotes = t.remotes + 1; initials = t.initials + bit initial }) es
run s t (acked ∷ es) =
    let (s', r) = recv_ack s in
    let next = run s' (record t { acks = t.acks + 1 }) es in elim r [ ok _ ↦ next | err _ ↦ (s, t) ]

abbrev pub sends : List Event → ℕ
sends [] = 0
sends (sent ∷ es) = 1 + sends es
sends (_ ∷ es) = sends es

abbrev pub is_outstanding : Local → ℕ
is_outstanding waiting_ack = 1
is_outstanding _ = 0

run_acks :
    (s : Settings) (t : Tally) (es : List Event)
    → (run s t es).1.acks + is_outstanding (run s t es).0.state
      ≤ t.acks + is_outstanding s.state + sends es
unfolding run mark_sent recv_ack recv_remote
run_acks s t [] = omega arith
run_acks s t (sent ∷ es) = ground (arith, run_acks (record s { state = waiting_ack }) t es)
run_acks s t (remote ∷ es) = ground (
  arith,
  run_acks (record s { has_received_remote_initial = true })
      (record t {
        remotes = t.remotes + 1;
        initials = t.initials + bit (not s.has_received_remote_initial);
      })
      es,
)
run_acks s t (acked ∷ es) =
    ground (arith, run_acks (record s { state = synced }) (record t { acks = t.acks + 1 }) es)

-- One report, as soon as a SETTINGS of the peer arrived.
abbrev IsReported : Settings → Tally → Type 0
IsReported s t = (t.initials ≡ min 1 t.remotes) × (t.initials ≡ bit s.has_received_remote_initial)

run-IsReported :
    (s : Settings) (t : Tally) (es : List Event)
    → IsReported s t
    → IsReported (run s t es).0 (run s t es).1
unfolding run mark_sent recv_ack recv_remote
run-IsReported s t [] h = h
run-IsReported s t (sent ∷ es) h =
    run-IsReported (record s { state = waiting_ack }) t es (ground (arith, h.0, h.1))
run-IsReported s t (remote ∷ es) h =
    run-IsReported (record s { has_received_remote_initial = true })
      (record t {
        remotes = t.remotes + 1;
        initials = t.initials + bit (not s.has_received_remote_initial);
      })
      es (ground (arith, h.0, h.1))
run-IsReported s t (acked ∷ es) h = ground (
  arith,
  h.0,
  h.1,
  run-IsReported (record s { state = synced }) (record t { acks = t.acks + 1 }) es
      (ground (arith, h.0, h.1)),
)

abbrev pub no_tally : Tally
no_tally = record { acks = 0; remotes = 0; initials = 0 }

-- In any order of events, up to an ACK that is refused: no more ACKs are accepted than SETTINGS of
-- ours were queued, and exactly one of the peer's SETTINGS is reported as its initial one once one
-- or more have arrived, and none before.
pub run_new :
    (local : SettingsValues) (es : List Event)
    → let t = (run (new local) no_tally es).1 in
      (t.acks ≤ sends es) × (t.initials ≡ min 1 t.remotes)
unfolding new
run_new local es = (
  ground (arith, run_acks (new local) no_tally es),
  (run-IsReported (new local) no_tally es (omega arith, refl)).0,
)
