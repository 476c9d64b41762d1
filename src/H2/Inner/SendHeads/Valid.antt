-- ===== src/H2/Inner/SendHeads/Valid.antt =====
-- The header frames of a send half, and the calls around them, keep `Inner` well formed.
use httpunk.Prelude.{
  ℕ, ◌≡◌, refl, Bool, true, some, arith, Option-cases, inl, inr, Bool-cases, if-holds,
}
use httpunk.Prelude.Map.{lookup}
use httpunk.H2.Vendor.{Vendor, VendorLaws}
use httpunk.H2.Errors.{Result, ok, err}
use httpunk.H2.Result.{Result-cases}
use httpunk.H2.Inner.{StreamEntry, Inner, ResetVerdict}
use httpunk.H2.Inner.Window.Valid.{release_capacity_inner-IsValid}
use httpunk.H2.Inner.Queues.{send_front, admit_capacity_front}
use httpunk.H2.Inner.Queues.Valid.{send_front-IsValid}
use httpunk.H2.Inner.Queues.Turns.{admit_capacity_front-IsValid}
use httpunk.H2.Inner.Reset.Valid.{restate-IsValid, finish_stream-IsValid}
use httpunk.H2.Inner.Invariant.{IsValid}
use httpunk.H2.Inner.Send.Live.{at_sid}
use httpunk.H2.Inner.SendHeads.{
  queue_trailers, send_trailers, finish_head, open_head, send_response_head, release_capacity,
  next_capacity_wake,
}

module _ (v : Vendor) (l : VendorLaws v) where
  queue_trailers-IsValid :
      (sid : ℕ) (e : StreamEntry v) (s : Inner v)
      → lookup sid s.streams ≡ some e
      → v.is_send_streaming e.state ≡ true
      → IsValid v s
      → IsValid v (queue_trailers v sid e s)
  unfolding queue_trailers
  queue_trailers-IsValid sid e s p open_half h =
      restate-IsValid v l s sid e (record e { state = v.send_close e.state }) h p
        (λ f. ground (arith, open_half, l.closed_send e.state, f, at_sid v l sid s h p)) refl

  pub send_trailers-IsValid :
      (now sid : ℕ) (s : Inner v) → IsValid v s → IsValid v (send_trailers v now sid s).0
  unfolding send_trailers
  send_trailers-IsValid now sid s h = elim (Option-cases (lookup sid s.streams)) [
    | inl gone ↦ rw (send_trailers, gone) h
    | inr (e, p) ↦ elim (Bool-cases (v.is_send_streaming e.state)) [
      | inr shut ↦ rw (send_trailers, p, shut) h
      | inl open_half ↦
          rw (send_trailers, p, open_half)
            (finish_stream-IsValid v l (queue_trailers v sid e s) now sid
              (queue_trailers-IsValid sid e s p open_half h))
    ]
  ]

  finish_head-IsValid :
      (now sid : ℕ) (end_stream : Bool) (s : Inner v)
      → IsValid v s
      → IsValid v (finish_head v now sid end_stream s).0
  unfolding finish_head
  finish_head-IsValid now sid end_stream s h =
      if-holds (λ (r : Inner v × ResetVerdict). IsValid v r.0) end_stream _ _
        (finish_stream-IsValid v l s now sid h) h

  open_head-IsValid :
      (now sid : ℕ) (end_stream : Bool) (e : StreamEntry v) (s : Inner v)
      → lookup sid s.streams ≡ some e
      → IsValid v s
      → IsValid v (open_head v now sid end_stream e s).0
  unfolding open_head
  open_head-IsValid now sid end_stream e s p h =
      let st = (v.send_open end_stream e.state).0 in
      let opened =
        restate-IsValid v l s sid e (record e { state = st }) h p
          (λ f. l.send_open_stays end_stream e.state (ground (arith, h.entries sid))) refl in
      elim (Option-cases (v.send_open end_stream e.state).1) [
        | inr (x, refused) ↦ rw (open_head, refused) opened
        | inl sent ↦ rw (open_head, sent) (finish_head-IsValid now sid end_stream _ opened)
      ]

  pub send_response_head-IsValid :
      (now sid : ℕ) (end_stream : Bool) (checked built : Result (Unit {0})) (s : Inner v)
      → IsValid v s
      → IsValid v (send_response_head v now sid end_stream checked built s).0
  unfolding send_response_head
  send_response_head-IsValid now sid end_stream (err x) built s h = h
  send_response_head-IsValid now sid end_stream (ok _) built s h =
      elim (Option-cases (lookup sid s.streams)) [
        | inl gone ↦ rw (send_response_head, gone) h
        | inr (e, p) ↦ elim (Bool-cases (v.is_closed e.state)) [
          | inl shut ↦ rw (send_response_head, p, shut) h
          | inr going ↦ elim (Result-cases built) [
            | inr (x, refused) ↦ rw (send_response_head, p, going, refused) h
            | inl (_, fine) ↦
                rw (send_response_head, p, going, fine)
                  (open_head-IsValid now sid end_stream e s p h)
          ]
        ]
      ]

  pub release_capacity-IsValid :
      (sid n : ℕ) (s : Inner v) → IsValid v s → IsValid v (release_capacity v sid n s).0
  unfolding release_capacity
  release_capacity-IsValid sid n s h = release_capacity_inner-IsValid v s sid n h

  pub next_capacity_wake-IsValid :
      (s : Inner v) → IsValid v s → IsValid v (next_capacity_wake v s).0
  unfolding next_capacity_wake
  next_capacity_wake-IsValid s h =
      let s' = (send_front v (admit_capacity_front v s).0).0 in
      let fronted = send_front-IsValid v _ (admit_capacity_front-IsValid v s h) in
      elim (Option-cases (send_front v (admit_capacity_front v s).0).1) [
        | inl alone ↦ rw (next_capacity_wake, alone) fronted
        | inr (sid, ahead) ↦ elim (Option-cases (lookup sid s'.streams)) [
          | inl gone ↦ rw (next_capacity_wake, ahead, gone) fronted
          | inr (e, p) ↦ rw (next_capacity_wake, ahead, p) fronted
        ]
      ]
