-- ===== src/H2/Inner/Calls/Valid.antt =====
-- The application's calls keep `Inner` well formed.
use httpunk.Prelude.{
  ℕ, ◌+◌, ◌-◌, ◌<◌, ◌≡◌, refl, Bool, Option, none, some, List, [], ◌∷◌, arith, Option-cases, inl,
  inr, if-holds, length, is_some, ltb, ◌==◌,
}
use httpunk.Prelude.Map.{lookup, count_if}
use httpunk.H2.Reason
use httpunk.H2.Vendor.{Vendor, VendorLaws, user, library}
use httpunk.H2.Errors.{Result}
use httpunk.H2.Inner.{StreamEntry, Inner, ResetVerdict}
use httpunk.H2.Inner.Entry.{new_entry}
use httpunk.H2.Inner.Invariant.{
  IsValid, same-IsValid, has_slot, insert_new-StoreValid, update-StoreValid,
}
use httpunk.H2.Inner.Window.Valid.{
  settle-IsValid, clear_expired_reset_streams-SameStore, reclaim_stream_accounting-IsValid,
}
use httpunk.H2.Inner.Window.{clear_expired_reset_streams}
use httpunk.H2.Inner.Store.{is_dead}
use httpunk.H2.Result.{Result-cases}
use httpunk.H2.Inner.Store.Valid.{close_stream-IsValid}
use httpunk.H2.Inner.Reset.Valid.{reset_stream-IsValid}
use httpunk.H2.Inner.Shutdown.Valid.{release_slot_count-IsValid}
use httpunk.H2.Inner.Shutdown.{max_stream_id_value}
use httpunk.H2.Inner.Calls.{
  start_stream, open_stream, at_cap, reset_forgotten, with_wake, reset_on_error, close_read,
  aclose_body, release_charge, release_data_frame, credit_each, credit_written, take_pending,
  accepted, parse_initiator, reset_stream_by, set_next_stream_id, set_max_stream_id,
  set_last_processed_id,
}

module _ (v : Vendor) where
  start_stream-IsValid :
      (s : Inner v) (handle : ℕ) (end_stream is_head : Bool)
      → lookup s.next_id s.streams ≡ none
      → count_if (has_slot v) s.streams < s.num_open_streams
      → IsValid v s
      → IsValid v (start_stream v s.next_id handle end_stream is_head s).0
  unfolding start_stream new_entry
  start_stream-IsValid s handle end_stream is_head fresh claimed h =
      elim (Option-cases (v.send_open end_stream v.default).1) [
        | inl fine ↦
            rw (start_stream, fine) (insert_new-StoreValid v h s.next_id _ fresh refl (omega arith))
        | inr (x, refused) ↦ rw (start_stream, refused) h
      ]

  -- For a new id and a slot that was claimed and is not held by a stream, the opening of a stream
  -- keeps the connection state well formed, whether the stream starts, the request is refused or
  -- the connection is dead.
  pub open_stream-IsValid :
      (s : Inner v) (handle : ℕ) (end_stream is_head : Bool) (built : Result (Unit {0}))
      → lookup s.next_id s.streams ≡ none
      → count_if (has_slot v) s.streams < s.num_open_streams
      → IsValid v s
      → IsValid v (open_stream v handle end_stream is_head built s).0
  unfolding open_stream
  open_stream-IsValid s handle end_stream is_head built fresh claimed h =
      let Keeps = λ (r : Inner v × Result (Option ℕ)). IsValid v r.0 in
      let given_back = release_slot_count-IsValid v s claimed h in
      if-holds Keeps (is_dead v s) _ _ given_back (
        if-holds Keeps (ltb max_stream_id_value s.next_id) _ _ given_back
          (elim (Result-cases built) [
            | inl (_, fine) ↦
                rw fine (start_stream-IsValid s handle end_stream is_head fresh claimed h)
            | inr (x, refused) ↦ rw refused given_back
          ]))

  credit_each-IsValid :
      (batch : List (ℕ × ℕ)) (woken : List ℕ) (s : Inner v)
      → IsValid v s
      → IsValid v (credit_each v batch woken s).0
  unfolding credit_each
  credit_each-IsValid [] woken s h = h
  credit_each-IsValid ((sid, n) ∷ batch) woken s h = elim (Option-cases (lookup sid s.streams)) [
    | inl e ↦ rw (e, credit_each) (credit_each-IsValid batch woken s h)
    | inr (e, p) ↦
        rw (p, credit_each)
          (credit_each-IsValid batch (sid ∷ woken) _ (
            update-StoreValid v h sid e
              (record e { send_buffered = e.send_buffered - n; turn_frames = 0 }) _ _ _ _ p refl
              (omega arith) (ground (arith, h.entries sid)) (λ j k. omega arith)))
  ]

  -- The credit of a written batch keeps the connection state well formed.
  pub credit_written-IsValid : (s : Inner v) → IsValid v s → IsValid v (credit_written v s).0
  unfolding credit_written
  credit_written-IsValid s h =
      credit_each-IsValid s.inflight_credit [] (record s { inflight_credit = [] }) h

  pub take_pending-IsValid : (s : Inner v) → IsValid v s → IsValid v (take_pending v s).0
  unfolding take_pending
  take_pending-IsValid s h = h

  pub accepted-IsValid : (s : Inner v) (sid : ℕ) → IsValid v s → IsValid v (accepted v sid s)
  unfolding accepted
  accepted-IsValid s sid h = h

  release_charge-IsValid :
      (s : Inner v) (sid payload_len : ℕ) (e : StreamEntry v)
      → lookup sid s.streams ≡ some e
      → IsValid v s
      → IsValid v (release_charge v sid payload_len e s)
  unfolding release_charge
  release_charge-IsValid s sid payload_len e p h =
      settle-IsValid v s _ sid e _ h p (refl, refl, refl, refl, refl) (refl, refl, refl, refl, refl)

  -- The release of a consumed chunk's charge keeps the connection state well formed.
  pub release_data_frame-IsValid :
      (s : Inner v) (sid payload_len : ℕ)
      → IsValid v s
      → IsValid v (release_data_frame v sid payload_len s)
  unfolding release_data_frame
  release_data_frame-IsValid s sid payload_len h = elim (Option-cases (lookup sid s.streams)) [
    | inl e ↦ rw (e, release_data_frame) h
    | inr (e, p) ↦
        rw (p, release_data_frame)
          (if-holds (λ (t : Inner v). IsValid v t) _ _ _ h
            (release_charge-IsValid s sid payload_len e p h))
  ]

module _ (v : Vendor) (l : VendorLaws v) where
  -- The close of a body keeps the connection state well formed, whether the body was received
  -- whole, is cancelled or has no stream.
  pub aclose_body-IsValid :
      (s : Inner v) (now sid : ℕ) → IsValid v s → IsValid v (aclose_body v now sid s).0
  unfolding aclose_body close_read with_wake
  aclose_body-IsValid s now sid h = elim (Option-cases (lookup sid s.streams)) [
    | inl e ↦ rw (e, aclose_body) h
    | inr (e, p) ↦
        rw (p, aclose_body)
          (if-holds (λ (r : Inner v × ResetVerdict). IsValid v r.0) (v.is_recv_end_stream e.state) _
            _ (close_stream-IsValid v _ sid (reclaim_stream_accounting-IsValid v s sid h))
            (reset_stream-IsValid v l s now sid Reason.cancel user h))
  ]

  reset_forgotten-IsValid :
      (s : Inner v) (now sid reason : ℕ)
      → IsValid v s
      → IsValid v (reset_forgotten v now sid reason s).0
  unfolding reset_forgotten
  reset_forgotten-IsValid s now sid reason h =
      let t = clear_expired_reset_streams v s now in
      let fresh = same-IsValid v s t (clear_expired_reset_streams-SameStore v s now) h in
      if-holds (λ (u : Inner v). IsValid v u) (reason == Reason.refused_stream) _ _ h
        (if-holds (λ (u : Inner v). IsValid v u) (ltb (length t.reset_streams) t.reset_stream_max) _
          _ fresh fresh)

  -- The reset of a stream after a violation by the peer keeps the connection state well formed, for
  -- a stored stream, a forgotten one and at the cap.
  pub reset_stream_by-IsValid :
      (s : Inner v) (now sid reason : ℕ) (name : List ℕ)
      → IsValid v s
      → IsValid v (reset_stream_by v now sid reason name s).0
  unfolding reset_stream_by with_wake
  reset_stream_by-IsValid s now sid reason name h = elim (Result-cases (parse_initiator name)) [
    | inr (x, unknown) ↦ rw (reset_stream_by, unknown) h
    | inl (initiator, known) ↦
        rw (reset_stream_by, known) (reset_stream-IsValid v l s now sid reason initiator h)
  ]

  pub set_next_stream_id-IsValid :
      (sid : ℕ) (s : Inner v) → IsValid v s → IsValid v (set_next_stream_id v sid s)
  unfolding set_next_stream_id
  set_next_stream_id-IsValid sid s h = h

  pub set_max_stream_id-IsValid :
      (sid : ℕ) (s : Inner v) → IsValid v s → IsValid v (set_max_stream_id v sid s)
  unfolding set_max_stream_id
  set_max_stream_id-IsValid sid s h = h

  pub set_last_processed_id-IsValid :
      (sid : ℕ) (s : Inner v) → IsValid v s → IsValid v (set_last_processed_id v sid s)
  unfolding set_last_processed_id
  set_last_processed_id-IsValid sid s h = h

  pub reset_on_error-IsValid :
      (s : Inner v) (now sid reason : ℕ)
      → IsValid v s
      → IsValid v (reset_on_error v now sid reason s).0
  unfolding reset_on_error with_wake
  reset_on_error-IsValid s now sid reason h =
      let counted = record s { local_error_resets = s.local_error_resets + 1 } in
      if-holds (λ (r : Inner v × Result ResetVerdict). IsValid v r.0)
        (at_cap v s.max_local_error_resets s.local_error_resets) _ _ h
        (if-holds (λ (r : Inner v × ResetVerdict). IsValid v r.0) (is_some (lookup sid s.streams)) _
          _ (reset_stream-IsValid v l counted now sid reason library h)
          (reset_forgotten-IsValid counted now sid reason h))
