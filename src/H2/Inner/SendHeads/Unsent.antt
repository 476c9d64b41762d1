-- ===== src/H2/Inner/SendHeads/Unsent.antt =====
-- A response head that is not sent.
use httpunk.Prelude.{ℕ, ◌≡◌, ◌≢◌, refl, Bool, false, arith, Option-cases, Bool-cases, inl, inr}
use httpunk.Prelude.Map.{lookup, lookup-insert_ne}
use httpunk.H2.Vendor.{Vendor}
use httpunk.H2.Errors.{Result, ok, err}
use httpunk.H2.Result.{Result-cases}
use httpunk.H2.Inner.{StreamEntry, Inner}
use httpunk.H2.Inner.Send.{SendVerdict}
use httpunk.H2.Inner.SendHeads.{open_head, send_response_head}

abbrev pub is_sent : Result SendVerdict → Bool
is_sent (ok x) = x.done
is_sent (err x) = false

module _ (v : Vendor) where
  -- No frame is queued, and nothing but the stream itself changes.
  abbrev pub Unsent : ℕ → Inner v → Inner v → Type 0
  Unsent sid s s' =
      (s'.pending ≡ s.pending)
      × (s'.num_active ≡ s.num_active)
      × (s'.pending_send ≡ s.pending_send)
      × ((j : ℕ) → j ≢ sid → lookup j s'.streams ≡ lookup j s.streams)

  Unsent-same : (sid : ℕ) (s : Inner v) → Unsent sid s s
  Unsent-same sid s = (refl, refl, refl, λ j n. refl)

  open_head-Unsent :
      (now sid : ℕ) (end_stream : Bool) (e : StreamEntry v) (s : Inner v)
      → is_sent (open_head v now sid end_stream e s).1 ≡ false
      → Unsent sid s (open_head v now sid end_stream e s).0
  unfolding open_head
  open_head-Unsent now sid end_stream e s =
      let e' = record e { state = (v.send_open end_stream e.state).0 } in
      elim (Option-cases (v.send_open end_stream e.state).1) [
        | inl sent ↦ rw (open_head, sent) (λ unsent. ground arith)
        | inr (x, refused) ↦
            rw (open_head, refused)
              (λ _. (refl, refl, refl, λ j n. lookup-insert_ne sid j e' s.streams n))
      ]

  -- A response head that is not sent, because its fields are refused, its stream is not stored or
  -- is closed, its frame cannot be built, or the state does not open, queues no frame, and leaves
  -- the count of active streams, the rotation and every other stream as they were.
  pub send_response_head-Unsent :
      (now sid : ℕ) (end_stream : Bool) (checked built : Result (Unit {0})) (s : Inner v)
      → is_sent (send_response_head v now sid end_stream checked built s).1 ≡ false
      → Unsent sid s (send_response_head v now sid end_stream checked built s).0
  unfolding send_response_head
  send_response_head-Unsent now sid end_stream (err x) built s = λ _. Unsent-same sid s
  send_response_head-Unsent now sid end_stream (ok _) built s =
      elim (Option-cases (lookup sid s.streams)) [
        | inl gone ↦ rw (send_response_head, gone) (λ _. Unsent-same sid s)
        | inr (e, p) ↦ elim (Bool-cases (v.is_closed e.state)) [
          | inl shut ↦ rw (send_response_head, p, shut) (λ _. Unsent-same sid s)
          | inr going ↦ elim (Result-cases built) [
            | inr (x, refused) ↦ rw (send_response_head, p, going, refused) (λ _. Unsent-same sid s)
            | inl (_, fine) ↦
                rw (send_response_head, p, going, fine) (open_head-Unsent now sid end_stream e s)
          ]
        ]
      ]
