-- ===== src/H2/Inner/Shutdown/Valid.antt =====
-- GOAWAY, failure and the slots keep `Inner` well formed, and what they leave of it.
use httpunk.Prelude.{
  ℕ, ◌+◌, ◌<◌, ◌≤◌, ◌≡◌, refl, Bool, Option, true, false, ◌&&◌, none, some, List, [], ◌∷◌, arith,
  bit, Bool-cases, ◌⊎◌, inl, inr, if◌then◌else◌, if-holds, ltb, contains,
}
use httpunk.Prelude.Map.{lookup, keys, count_if, remove_each, lookup-remove_each, lookup-keys}
use httpunk.H2.Vendor.{Vendor, VendorLaws}
use httpunk.H2.Reason
use httpunk.H2.Errors.{Result, ok, err}
use httpunk.H2.Inner.{StreamEntry, Inner, Stopped, Flags}
use httpunk.H2.Inner.Invariant.{has_slot, IsValid}
use httpunk.H2.Inner.Store.{is_server, protocol_err}
use httpunk.H2.Inner.Reset.Aborts.{abort_each-IsValid, abort_each_streams}
use httpunk.H2.Inner.Shutdown.{
  above, raises_last, give_up, recv_go_away, can_open, try_claim_slot, release_slot_count,
  apply_stream_limit,
}

abbrev pub is_accepted : {A : Type 0} → Result A → Bool
is_accepted (ok x) = true
is_accepted (err x) = false

-- The last stream id of a GOAWAY against that of an earlier one, if there was one.
abbrev pub IsAbove : ℕ → Option ℕ → Type 0
IsAbove last none = ⊥
IsAbove last (some prev) = prev < last

abbrev pub IsAtMost : ℕ → Option ℕ → Type 0
IsAtMost last none = Unit
IsAtMost last (some prev) = last ≤ prev

contains-above :
    (k last : ℕ) (ids : List ℕ) → contains k (above last ids) ≡ (ltb last k && contains k ids)
contains-above k last [] = ground arith
contains-above k last (sid ∷ ids) = ground (arith, contains-above k last ids)

module _ (v : Vendor) where
  raised-IsAbove : (o : Option ℕ) (last : ℕ) → raises_last v o last ≡ true → IsAbove last o
  unfolding raises_last
  raised-IsAbove none last h = cc
  raised-IsAbove (some prev) last h = ground (arith, h)

  not_raised-IsAtMost : (o : Option ℕ) (last : ℕ) → raises_last v o last ≡ false → IsAtMost last o
  unfolding raises_last
  not_raised-IsAtMost none last h = tt
  not_raised-IsAtMost (some prev) last h = ground (arith, h)

  -- What a client still has after a GOAWAY: the streams up to the last one.
  lookup-remove_above :
      (k last : ℕ) (m : List (ℕ × StreamEntry v))
      → lookup k (remove_each (above last (keys m)) m) ≡ (if ltb last k then none else lookup k m)
  lookup-remove_above k last m = ground (
    arith,
    lookup-remove_each k (above last (keys m)) m,
    lookup-keys k m,
    contains-above k last (keys m),
  )

  -- Opening is bounded by the limit, and claims exactly one slot.
  pub try_claim_slot-IsValid : (s : Inner v) → IsValid v s → IsValid v (try_claim_slot v s).0
  unfolding try_claim_slot
  try_claim_slot-IsValid s h = elim (Bool-cases (can_open v s)) [
    | inr full ↦ rw full h
    | inl free ↦ rw free (record {
      distinct = h.distinct;
      active = h.active;
      slots = omega (arith, h.slots);
      entries = h.entries;
    })
  ]

  -- Under a stream limit a slot is claimed exactly when fewer than the limit are taken, and a claim
  -- adds one to the count.
  pub try_claim_slot_lem :
      (s : Inner v) (limit : ℕ)
      → s.stream_limit ≡ some limit
      → let (t, claimed) = try_claim_slot v s in
        (t.num_open_streams ≡ s.num_open_streams + bit claimed)
        × (claimed ≡ ltb s.num_open_streams limit)
  unfolding try_claim_slot can_open
  try_claim_slot_lem s limit p = ground arith

  pub apply_stream_limit-IsValid :
      (limit : Option ℕ) (s : Inner v) → IsValid v s → IsValid v (apply_stream_limit v limit s)
  unfolding apply_stream_limit
  apply_stream_limit-IsValid limit s h = h

  pub release_slot_count-IsValid :
      (s : Inner v)
      → count_if (has_slot v) s.streams < s.num_open_streams
      → IsValid v s
      → IsValid v (release_slot_count v s)
  unfolding release_slot_count
  release_slot_count-IsValid s claimed h = record {
    distinct = h.distinct;
    active = h.active;
    slots = omega arith;
    entries = h.entries;
  }

module _ (v : Vendor) (l : VendorLaws v) where
  give_up-IsValid :
      (last error_code : ℕ) (s : Inner v) → IsValid v s → IsValid v (give_up v last error_code s).0
  unfolding give_up
  give_up-IsValid last error_code s h = elim (Bool-cases (is_server s.role)) [
    | inl yes_server ↦ rw yes_server h
    | inr client_side ↦
        rw client_side (abort_each-IsValid v l s (some error_code) (above last (keys s.streams)) h)
  ]

  give_up_streams :
      (last error_code k : ℕ) (s : Inner v)
      → is_server s.role ≡ false
      → lookup k (give_up v last error_code s).0.streams
        ≡ (if ltb last k then none else lookup k s.streams)
  unfolding give_up
  give_up_streams last error_code k s c =
      rw (c, abort_each_streams v l s (some error_code) (above last (keys s.streams)))
        (lookup-remove_above v k last s.streams)

  -- A GOAWAY keeps the connection state well formed, refused or not, in both roles.
  pub recv_go_away-IsValid :
      (s : Inner v) (last error_code : ℕ) (debug_data : List ℕ)
      → IsValid v s
      → IsValid v (recv_go_away v last error_code debug_data s).0
  unfolding recv_go_away
  recv_go_away-IsValid s last error_code debug_data h =
      if-holds (λ (r : Inner v × Result (List (ℕ × Stopped) × Flags)). IsValid v r.0)
        (raises_last v s.goaway_last_id last) _ _ h (give_up-IsValid last error_code _ h)

  -- A GOAWAY that a client receives either is refused as a protocol error with the connection left
  -- as it is, exactly when its last stream id is above that of an earlier GOAWAY, or is accepted
  -- and leaves exactly the streams up to its last id, each as it was.
  pub recv_go_away_streams :
      (s : Inner v) (last error_code : ℕ) (debug_data : List ℕ) (k : ℕ)
      → is_server s.role ≡ false
      → let (t, r) = recv_go_away v last error_code debug_data s in
        (IsAbove last s.goaway_last_id × (t ≡ s) × (r ≡ err (protocol_err Reason.protocol_error)))
        ⊎ (IsAtMost last s.goaway_last_id
            × (is_accepted r ≡ true)
            × (lookup k t.streams ≡ (if ltb last k then none else lookup k s.streams)))
  unfolding recv_go_away
  recv_go_away_streams s last error_code debug_data k c =
      elim (Bool-cases (raises_last v s.goaway_last_id last)) [
        | inl raised ↦
            inl (raised-IsAbove v s.goaway_last_id last raised, rw raised refl, rw raised refl)
        | inr below ↦ inr (
          not_raised-IsAtMost v s.goaway_last_id last below,
          rw below refl,
          rw below (give_up_streams last error_code k _ c),
        )
      ]
