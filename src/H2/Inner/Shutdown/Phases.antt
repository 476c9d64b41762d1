-- ===== src/H2/Inner/Shutdown/Phases.antt =====
-- PING, the graceful shutdown and a failure keep `Inner` well formed.
use httpunk.Prelude.{
  ℕ, Bool, true, false, not, ◌||◌, Option, List, Bool-cases, inl, inr, if-holds, length, ◌==◌,
}
use httpunk.H2.Vendor.{Vendor, VendorLaws}
use httpunk.H2.Errors.{Result, ok, err, value}
use httpunk.H2.Inner.{Inner, Flags, no_flags, ConnError, ping}
use httpunk.H2.Inner.Invariant.{IsValid}
use httpunk.H2.Inner.Headers.{queue}
use httpunk.H2.Inner.Store.{is_server}
use httpunk.H2.Inner.Reset.Aborts.{fail_all-IsValid}
use httpunk.H2.Inner.Shutdown.{
  shutdown_ping, same_bytes, encode_ping, final_goaway, recv_ping, send_goaway,
  begin_graceful_shutdown, fail,
}

module _ (v : Vendor) (l : VendorLaws v) where
  pub recv_ping-IsValid :
      (s : Inner v) (payload : List ℕ) (is_ack : Bool)
      → IsValid v s
      → IsValid v (recv_ping v payload is_ack s).0
  unfolding recv_ping encode_ping final_goaway
  recv_ping-IsValid s payload false h =
      if-holds (λ (r : Inner v × Result (Unit {0})). IsValid v r.0) (length payload == 8)
        (queue v (ping payload true) s, ok tt) (s, err value) h h
  recv_ping-IsValid s payload true h =
      if-holds (λ (r : Inner v × Result Flags). IsValid v r.0)
        (not (is_server s.role)
          || not (same_bytes payload shutdown_ping)
          || not s.graceful
          || s.shutdown_final)
        (s, ok no_flags) ((final_goaway v s).0, ok (final_goaway v s).1) h h

  pub send_goaway-IsValid :
      (s : Inner v) (reason : ℕ) (debug_data : List ℕ)
      → IsValid v s
      → IsValid v (send_goaway v reason debug_data s).0
  unfolding send_goaway
  send_goaway-IsValid s reason debug_data h = h

  pub begin_graceful_shutdown-IsValid :
      (s : Inner v) → IsValid v s → IsValid v (begin_graceful_shutdown v s).0
  unfolding begin_graceful_shutdown encode_ping
  begin_graceful_shutdown-IsValid s h = elim (Bool-cases s.graceful) [
    | inl begun ↦ rw begun h
    | inr fresh ↦ rw fresh h
  ]

  pub fail-IsValid :
      (s : Inner v) (exc : Option ConnError) → IsValid v s → IsValid v (fail v exc s).0
  unfolding fail
  fail-IsValid s exc h = fail_all-IsValid v l _ h
