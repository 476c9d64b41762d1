-- ===== src/Prelude/Map.antt =====
-- A hash map from `u32` keys, as an association list: the laws do not depend on the order.
use Prim.Native.Nat.{ℕ, ◌+◌}
use mathlib.Core.Path.{◌≡◌, refl}
use mathlib.Core.Bool.{Bool}
use mathlib.Core.Option.{Option, none, some}
use mathlib.Core.Logic.{◌≢◌}
use mathlib.Core.List.{List, [], ◌∷◌}
use native.Mathlib.Omega.{arith}
use httpunk.Prelude.Lists.{contains}
use httpunk.Prelude.Tests.{◌==◌, if◌then◌else◌, bit}

module _ {ℓ} {V : Type ℓ} where
  unfoldable pub lookup : ℕ → List (ℕ × V) → Option V
  lookup k [] = none
  lookup k ((j, v) ∷ m) = if j == k then some v else lookup k m

  unfoldable pub insert : ℕ → V → List (ℕ × V) → List (ℕ × V)
  insert k v [] = (k, v) ∷ []
  insert k v ((j, w) ∷ m) = if j == k then (k, v) ∷ m else (j, w) ∷ insert k v m

  unfoldable pub remove : ℕ → List (ℕ × V) → List (ℕ × V)
  remove k [] = []
  remove k ((j, w) ∷ m) = if j == k then remove k m else (j, w) ∷ remove k m

  -- The entries that pass a test.
  unfoldable pub count_if : (V → Bool) → List (ℕ × V) → ℕ
  count_if p [] = 0
  count_if p ((j, w) ∷ m) = bit (p w) + count_if p m

  -- A number summed over the entries.
  unfoldable pub total : (V → ℕ) → List (ℕ × V) → ℕ
  total f [] = 0
  total f ((j, w) ∷ m) = f w + total f m

  -- No key stands twice.
  abbrev pub Distinct : List (ℕ × V) → Type ℓ
  Distinct [] = Unit
  Distinct ((j, w) ∷ m) = (lookup j m ≡ none) × Distinct m

  pub lookup-insert :
      (key sought : ℕ) (value : V) (m : List (ℕ × V))
      → lookup sought (insert key value m) ≡ (if key == sought then some value else lookup sought m)
  unfolding lookup insert
  lookup-insert key sought value [] = refl
  lookup-insert key sought value ((front, old) ∷ rest) =
      ground (arith, lookup-insert key sought value rest)

  pub lookup-remove :
      (k j : ℕ) (m : List (ℕ × V)) → lookup j (remove k m) ≡ (if k == j then none else lookup j m)
  unfolding lookup remove
  lookup-remove k j [] = ground arith
  lookup-remove k j ((i, w) ∷ m) = ground (arith, lookup-remove k j m)

  pub remove_absent : (k : ℕ) (m : List (ℕ × V)) → lookup k m ≡ none → remove k m ≡ m
  unfolding lookup remove
  remove_absent k [] h = refl
  remove_absent k ((i, w) ∷ m) h = ground (arith, remove_absent k m)

  pub insert-Distinct : (k : ℕ) (v : V) (m : List (ℕ × V)) → Distinct m → Distinct (insert k v m)
  unfolding lookup insert
  insert-Distinct k v [] d = (refl, tt)
  insert-Distinct k v ((i, w) ∷ m) d =
      ground (arith, insert-Distinct k v m d.1, lookup-insert k i v m)

  pub remove-Distinct : (k : ℕ) (m : List (ℕ × V)) → Distinct m → Distinct (remove k m)
  unfolding remove
  remove-Distinct k [] d = tt
  remove-Distinct k ((i, w) ∷ m) d = ground (arith, remove-Distinct k m d.1, lookup-remove k i m)

  pub count_if-insert :
      (p : V → Bool) (k : ℕ) (v w : V) (m : List (ℕ × V))
      → lookup k m ≡ some v
      → count_if p (insert k w m) + bit (p v) ≡ count_if p m + bit (p w)
  unfolding lookup insert count_if
  count_if-insert p k v w [] h = ground arith
  count_if-insert p k v w ((i, u) ∷ m) h = ground (arith, count_if-insert p k v w m)

  pub count_if-insert_new :
      (p : V → Bool) (k : ℕ) (w : V) (m : List (ℕ × V))
      → lookup k m ≡ none
      → count_if p (insert k w m) ≡ count_if p m + bit (p w)
  unfolding lookup insert count_if
  count_if-insert_new p k w [] h = ground arith
  count_if-insert_new p k w ((i, u) ∷ m) h = ground (arith, count_if-insert_new p k w m)

  pub count_if-remove :
      (p : V → Bool) (k : ℕ) (v : V) (m : List (ℕ × V))
      → Distinct m
      → lookup k m ≡ some v
      → count_if p (remove k m) + bit (p v) ≡ count_if p m
  unfolding lookup remove count_if
  count_if-remove p k v [] d h = ground arith
  count_if-remove p k v ((i, u) ∷ m) d h =
      ground (arith, count_if-remove p k v m d.1, remove_absent k m)

  pub lookup-insert_self : (k : ℕ) (v : V) (m : List (ℕ × V)) → lookup k (insert k v m) ≡ some v
  lookup-insert_self k v m = ground (arith, lookup-insert k k v m)

  pub lookup-insert_ne :
      (k j : ℕ) (v : V) (m : List (ℕ × V)) → j ≢ k → lookup j (insert k v m) ≡ lookup j m
  lookup-insert_ne k j v m h = ground (arith, lookup-insert k j v m)

  pub lookup-remove_self : (k : ℕ) (m : List (ℕ × V)) → lookup k (remove k m) ≡ none
  lookup-remove_self k m = ground (arith, lookup-remove k k m)

  pub lookup-remove_ne : (k j : ℕ) (m : List (ℕ × V)) → j ≢ k → lookup j (remove k m) ≡ lookup j m
  lookup-remove_ne k j m h = ground (arith, lookup-remove k j m)

  pub insert-insert :
      (k : ℕ) (v w : V) (m : List (ℕ × V)) → insert k v (insert k w m) ≡ insert k v m
  unfolding insert
  insert-insert k v w [] = ground arith
  insert-insert k v w ((i, u) ∷ m) = ground (arith, insert-insert k v w m)

  pub insert_same : (k : ℕ) (v : V) (m : List (ℕ × V)) → lookup k m ≡ some v → insert k v m ≡ m
  unfolding lookup insert
  insert_same k v [] h = cc
  insert_same k v ((i, u) ∷ m) h = ground (arith, insert_same k v m)

  pub remove-insert : (k : ℕ) (v : V) (m : List (ℕ × V)) → remove k (insert k v m) ≡ remove k m
  unfolding insert remove
  remove-insert k v [] = ground arith
  remove-insert k v ((i, u) ∷ m) = ground (arith, remove-insert k v m)

  abbrev pub keys : List (ℕ × V) → List ℕ
  keys [] = []
  keys ((j, w) ∷ m) = j ∷ keys m

  unfoldable pub remove_each : List ℕ → List (ℕ × V) → List (ℕ × V)
  remove_each [] m = m
  remove_each (k ∷ ks) m = remove_each ks (remove k m)

  pub lookup-remove_each :
      (j : ℕ) (ks : List ℕ) (m : List (ℕ × V))
      → lookup j (remove_each ks m) ≡ (if contains j ks then none else lookup j m)
  unfolding remove_each
  lookup-remove_each j [] m = refl
  lookup-remove_each j (k ∷ ks) m =
      ground (arith, lookup-remove_each j ks (remove k m), lookup-remove k j m)

  pub lookup-keys :
      (j : ℕ) (m : List (ℕ × V)) → lookup j m ≡ (if contains j (keys m) then lookup j m else none)
  unfolding lookup
  lookup-keys j [] = refl
  lookup-keys j ((i, w) ∷ m) = ground (arith, lookup-keys j m)

  eq-nil_of_lookup : (m : List (ℕ × V)) → ((j : ℕ) → lookup j m ≡ none) → m ≡ []
  unfolding lookup
  eq-nil_of_lookup [] h = refl
  eq-nil_of_lookup ((i, w) ∷ m) h = ground (arith, h i)

  pub remove_each-keys : (m : List (ℕ × V)) → remove_each (keys m) m ≡ []
  remove_each-keys m =
      eq-nil_of_lookup (remove_each (keys m) m)
        (λ j. ground (arith, lookup-remove_each j (keys m) m, lookup-keys j m))

  pub remove-cons_self :
      (k : ℕ) (v : V) (m : List (ℕ × V)) → lookup k m ≡ none → remove k ((k, v) ∷ m) ≡ m
  unfolding remove
  remove-cons_self k v m h = ground (arith, remove_absent k m h)

  pub lookup-cons_self : (k : ℕ) (v : V) (m : List (ℕ × V)) → lookup k ((k, v) ∷ m) ≡ some v
  unfolding lookup
  lookup-cons_self k v m = ground arith
