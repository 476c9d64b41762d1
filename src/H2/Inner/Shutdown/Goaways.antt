-- ===== src/H2/Inner/Shutdown/Goaways.antt =====
-- The two phases of the graceful shutdown, over any sequence of calls and PINGs.
use httpunk.Prelude.{
  ℕ, ◌+◌, ◌≡◌, refl, Bool, true, false, not, ◌||◌, List, [], ◌∷◌, ◌++◌, arith, bit, Bool-cases, inl,
  inr, length, ◌==◌,
}
use httpunk.H2.Vendor.{Vendor}
use httpunk.H2.Inner.{
  Inner, Frame, go_away, ping, headers, data_frame, rst_stream, window_update, settings_ack,
  settings_frame, client_preface,
}
use httpunk.H2.Reason
use httpunk.H2.Inner.Store.{is_server}
use httpunk.H2.Inner.Shutdown.{
  shutdown_ping, max_stream_id_value, same_bytes, encode_ping, final_goaway, recv_ping,
  begin_graceful_shutdown,
}

-- What the application and the peer do: ask for the shutdown, and send a PING or its ACK.
pub data Event : Type 0 where
  begin : Event
  pinged : List ℕ → Bool → Event

abbrev is_goaway : Frame → Bool
is_goaway (go_away last reason debug_data) = true
is_goaway (headers sid end_stream) = false
is_goaway (data_frame sid bytes end_stream) = false
is_goaway (rst_stream sid reason) = false
is_goaway (window_update sid increment) = false
is_goaway (ping payload ack) = false
is_goaway settings_ack = false
is_goaway (settings_frame values) = false
is_goaway client_preface = false

abbrev pub goaways : List Frame → ℕ
goaways [] = 0
goaways (f ∷ fs) = bit (is_goaway f) + goaways fs

goaways-append : (fs gs : List Frame) → goaways (fs ++ gs) ≡ goaways fs + goaways gs
goaways-append [] gs = omega arith
goaways-append (f ∷ fs) gs = omega (arith, goaways-append fs gs)

module _ (v : Vendor) where
  unfoldable pub run : Inner v → List Event → Inner v
  run s [] = s
  run s (begin ∷ es) = run (begin_graceful_shutdown v s).0 es
  run s (pinged payload ack ∷ es) = run (recv_ping v payload ack s).0 es

  -- How far the shutdown is: not begun, begun, final.
  abbrev pub phase : Inner v → ℕ
  phase s = bit s.graceful + bit s.shutdown_final

  begin_goaways :
      (s : Inner v)
      → goaways (begin_graceful_shutdown v s).0.pending + phase s
        ≡ goaways s.pending + phase (begin_graceful_shutdown v s).0
  unfolding begin_graceful_shutdown encode_ping
  begin_goaways s = elim (Bool-cases s.graceful) [
    | inl begun ↦ rw begun refl
    | inr idle ↦ ground (
      arith,
      goaways-append (s.pending ++ go_away max_stream_id_value Reason.no_error [] ∷ [])
          (ping shutdown_ping false ∷ []),
      goaways-append s.pending (go_away max_stream_id_value Reason.no_error [] ∷ []),
    )
  ]

  pinged_goaways :
      (s : Inner v) (payload : List ℕ) (ack : Bool)
      → goaways (recv_ping v payload ack s).0.pending + phase s
        ≡ goaways s.pending + phase (recv_ping v payload ack s).0
  unfolding recv_ping encode_ping final_goaway
  pinged_goaways s payload false = elim (Bool-cases (length payload == 8)) [
    | inl eight ↦
        rw (encode_ping, eight) (ground (arith, goaways-append s.pending (ping payload true ∷ [])))
    | inr other ↦ rw (encode_ping, other) refl
  ]
  pinged_goaways s payload true =
      elim (Bool-cases (
        not (is_server s.role)
        || not (same_bytes payload shutdown_ping)
        || not s.graceful
        || s.shutdown_final)) [
          | inl ignored ↦ rw ignored refl
          | inr due ↦ rw due (
              ground (
                arith,
                due,
                goaways-append s.pending (go_away s.last_processed_id Reason.no_error [] ∷ []),
              ))
        ]

  -- Over any sequence of shutdown requests and PINGs the number of GOAWAY frames that were queued
  -- is the number of phases that the graceful shutdown advanced by: each phase sends its GOAWAY
  -- once.
  pub goaways-run :
      (s : Inner v) (es : List Event)
      → goaways (run s es).pending + phase s ≡ goaways s.pending + phase (run s es)
  unfolding run
  goaways-run s [] = refl
  goaways-run s (begin ∷ es) =
      omega (arith, begin_goaways s, goaways-run (begin_graceful_shutdown v s).0 es)
  goaways-run s (pinged payload ack ∷ es) =
      omega (arith, pinged_goaways s payload ack, goaways-run (recv_ping v payload ack s).0 es)
