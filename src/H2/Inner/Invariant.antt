-- ===== src/H2/Inner/Invariant.antt =====
-- The well-formedness of `Inner`: what holds between two calls, and how one stored entry changes.
use httpunk.Prelude.{
  ℕ, ◌+◌, ◌≤◌, ◌<◌, ◌≡◌, ◌≢◌, sym, subst, ℕ_discrete, Bool, true, false, not, Option, none, some,
  List, [], ◌∷◌, eq-nil_of_count, arith, bit, count,
}
use httpunk.Prelude.Map.{
  lookup, insert, remove, count_if, Distinct, lookup-insert_self, lookup-insert_ne,
  lookup-remove_self, lookup-remove_ne, insert-Distinct, remove-Distinct, count_if-insert,
  count_if-insert_new, count_if-remove,
}
use httpunk.H2.Vendor.{Vendor}
use httpunk.H2.Inner.{StreamEntry, Inner}

module _ (v : Vendor) where
  abbrev pub is_active : StreamEntry v → Bool
  is_active e = not e.finished

  abbrev pub has_slot : StreamEntry v → Bool
  has_slot e = e.holds_slot

  -- An entry and how often its id stands in the two queues: at most once, and then the entry's flag
  -- says so. A finished entry is closed, stands in neither, holds no slot, and is stored only
  -- because its reader still owes recv window or framing budget. An id with no entry stands in no
  -- queue.
  abbrev pub EntryValid : Option (StreamEntry v) → ℕ → ℕ → Type 0
  EntryValid none sends waits = (sends ≡ 0) × (waits ≡ 0)
  EntryValid (some e) sends waits =
      (sends ≤ bit e.is_pending_send)
      × (waits ≤ bit e.is_pending_capacity)
      × (e.finished ≡ true
          → (v.is_closed e.state ≡ true)
            × (e.is_pending_send ≡ false)
            × (e.is_pending_capacity ≡ false)
            × (e.holds_slot ≡ false)
            × (0 < e.recv_unreleased + e.data_budget_charged))

  EntryValid-mono :
      (o : Option (StreamEntry v)) {a b a' b' : ℕ}
      → a' ≤ a
      → b' ≤ b
      → EntryValid o a b
      → EntryValid o a' b'
  EntryValid-mono none p q h = omega arith
  EntryValid-mono (some e) p q h = (omega arith, omega arith, h.2)

  pub record StoreValid (m : List (ℕ × StreamEntry v)) (num_active num_open : ℕ)
      (sends waits : List ℕ) : Type 0 where
    pub distinct : Distinct m
    -- `num_active` counts the entries that are not finished.
    pub active : num_active ≡ count_if is_active m
    -- A slot is held by an entry, or was claimed for one that is to come.
    pub slots : count_if has_slot m ≤ num_open
    pub entries : (sid : ℕ) → EntryValid (lookup sid m) (count sid sends) (count sid waits)

  abbrev pub IsValid : Inner v → Type 0
  IsValid s = StoreValid s.streams s.num_active s.num_open_streams s.pending_send s.pending_capacity

  -- With no stream stored nothing is counted and nothing is queued.
  pub empty-StoreValid :
      (m : List (ℕ × StreamEntry v)) (active open_streams : ℕ) (sends waits : List ℕ)
      → StoreValid m active open_streams sends waits
      → m ≡ []
      → (active ≡ 0) × (sends ≡ []) × (waits ≡ [])
  unfolding lookup count_if
  empty-StoreValid [] active open_streams sends waits h e = (
    h.active,
    eq-nil_of_count sends (λ k. (h.entries k).0),
    eq-nil_of_count waits (λ k. (h.entries k).1),
  )
  empty-StoreValid (p ∷ m) active open_streams sends waits h e = cc

  -- Only these five fields matter.
  abbrev pub SameStore : Inner v → Inner v → Type 0
  SameStore s t =
      (t.streams ≡ s.streams)
      × (t.num_active ≡ s.num_active)
      × (t.num_open_streams ≡ s.num_open_streams)
      × (t.pending_send ≡ s.pending_send)
      × (t.pending_capacity ≡ s.pending_capacity)

  pub same-IsValid : (s t : Inner v) → SameStore s t → IsValid s → IsValid t
  same-IsValid s t (p, q, r, x, y) h = rw (p, q, r, x, y) h

  module _ {m : List (ℕ × StreamEntry v)} {active open_streams : ℕ} {sends waits : List ℕ}
      (h : StoreValid m active open_streams sends waits) where
    -- An entry changes, the counters with it, and the queues at most lose other ids.
    pub update-StoreValid :
        (sid : ℕ) (e e' : StreamEntry v) (active' open' : ℕ) (sends' waits' : List ℕ)
        → lookup sid m ≡ some e
        → active' + bit (is_active e) ≡ active + bit (is_active e')
        → open_streams + bit (has_slot e') ≤ open' + bit (has_slot e)
        → EntryValid (some e') (count sid sends') (count sid waits')
        → ((j : ℕ) → j ≢ sid → (count j sends' ≤ count j sends) × (count j waits' ≤ count j waits))
        → StoreValid (insert sid e' m) active' open' sends' waits'
    update-StoreValid sid e e' active' open' sends' waits' p a o ev q = record {
      distinct = insert-Distinct sid e' m h.distinct;
      active = omega (arith, h.active, count_if-insert is_active sid e e' m p);
      slots = omega (arith, h.slots, count_if-insert has_slot sid e e' m p);
      entries = λ j. elim (ℕ_discrete j sid) [
        | yes here ↦
            subst (λ k. EntryValid (lookup k (insert sid e' m)) (count k sends') (count k waits'))
              (sym here) (rw (lookup-insert_self sid e' m) ev)
        | no there ↦
            rw (lookup-insert_ne sid j e' m there)
              (EntryValid-mono (lookup j m) (q j there).0 (q j there).1 (h.entries j))
      ];
    }

    -- A new entry, in no queue and holding a slot that was claimed for it, if any.
    pub insert_new-StoreValid :
        (sid : ℕ) (e : StreamEntry v)
        → lookup sid m ≡ none
        → e.finished ≡ false
        → count_if has_slot m + bit (has_slot e) ≤ open_streams
        → StoreValid (insert sid e m) (active + 1) open_streams sends waits
    insert_new-StoreValid sid e p f o = record {
      distinct = insert-Distinct sid e m h.distinct;
      active = ground (arith, h.active, count_if-insert_new is_active sid e m p);
      slots = omega (arith, count_if-insert_new has_slot sid e m p);
      entries = λ j. elim (ℕ_discrete j sid) [
        | yes here ↦
            subst (λ k. EntryValid (lookup k (insert sid e m)) (count k sends) (count k waits))
              (sym here) (rw (lookup-insert_self sid e m) (ground (arith, h.entries sid)))
        | no there ↦ rw (lookup-insert_ne sid j e m there) (h.entries j)
      ];
    }

    -- The queues lose ids.
    pub shrink-StoreValid :
        (sends' waits' : List ℕ)
        → ((j : ℕ) → count j sends' ≤ count j sends)
        → ((j : ℕ) → count j waits' ≤ count j waits)
        → StoreValid m active open_streams sends' waits'
    shrink-StoreValid sends' waits' q r = record {
      distinct = h.distinct;
      active = h.active;
      slots = h.slots;
      entries = λ j. EntryValid-mono (lookup j m) (q j) (r j) (h.entries j);
    }

    -- An entry goes, with what it counted for and its places in the queues.
    pub delete-StoreValid :
        (sid : ℕ) (e : StreamEntry v) (active' open' : ℕ) (sends' waits' : List ℕ)
        → lookup sid m ≡ some e
        → active' + bit (is_active e) ≡ active
        → open_streams ≤ open' + bit (has_slot e)
        → (count sid sends' ≡ 0) × (count sid waits' ≡ 0)
        → ((j : ℕ) → j ≢ sid → (count j sends' ≤ count j sends) × (count j waits' ≤ count j waits))
        → StoreValid (remove sid m) active' open' sends' waits'
    delete-StoreValid sid e active' open' sends' waits' p a o ev q = record {
      distinct = remove-Distinct sid m h.distinct;
      active = omega (arith, h.active, count_if-remove is_active sid e m h.distinct p);
      slots = omega (arith, h.slots, count_if-remove has_slot sid e m h.distinct p);
      entries = λ j. elim (ℕ_discrete j sid) [
        | yes here ↦
            subst (λ k. EntryValid (lookup k (remove sid m)) (count k sends') (count k waits'))
              (sym here) (rw (lookup-remove_self sid m) ev)
        | no there ↦
            rw (lookup-remove_ne sid j m there)
              (EntryValid-mono (lookup j m) (q j there).0 (q j there).1 (h.entries j))
      ];
    }

    pub remove-StoreValid :
        (sid : ℕ) (e : StreamEntry v)
        → lookup sid m ≡ some e
        → e.finished ≡ true
        → StoreValid (remove sid m) active open_streams sends waits
    remove-StoreValid sid e p f =
        delete-StoreValid sid e _ _ _ _ p (ground arith) (ground (arith, h.entries sid))
          (ground (arith, h.entries sid)) (λ j n. omega arith)
