-- ===== src/Prelude/Lists.antt =====
-- Lists measured by native numbers, under the library's names.
use Prim.Native.Nat.{ℕ, suc, ◌+◌, ◌-◌, ◌≤◌}
use mathlib.Core.Path.{◌≡◌, refl}
use mathlib.Core.Logic.{◌≢◌, inl, inr}
use mathlib.Core.Bool.{Bool, true, false, ◌&&◌}
use mathlib.Core.List.{List, [], ◌∷◌, ◌++◌}
use Prim.Native.Char.{code}
use Prim.Native.String.{String}
use native.Mathlib.Omega.{arith}
use httpunk.Prelude.Tests.{Bool-cases, ◌==◌, if◌then◌else◌, bit}

module _ {ℓ} {A : Type ℓ} where
  abbrev pub length : List A → ℕ
  length [] = 0
  length (x ∷ xs) = suc (length xs)

  pub length-append : (xs ys : List A) → length (xs ++ ys) ≡ length xs + length ys
  length-append [] ys = omega arith
  length-append (x ∷ xs) ys = omega (arith, length-append xs ys)

-- The first bytes of a buffer, and what `split_off` moves away.
abbrev pub take : ℕ → List ℕ → List ℕ
take n [] = []
take n (x ∷ xs) = let more = take (n - 1) xs in if n == 0 then [] else x ∷ more

abbrev pub drop : ℕ → List ℕ → List ℕ
drop n [] = []
drop n (x ∷ xs) = let less = drop (n - 1) xs in if n == 0 then x ∷ xs else less

pub length-drop : (n : ℕ) (xs : List ℕ) → n ≤ length xs → length (drop n xs) + n ≡ length xs
length-drop n [] h = omega arith
length-drop n (x ∷ xs) h = elim (Bool-cases (n == 0)) [
  | inl e ↦ ground arith
  | inr e ↦ ground (arith, length-drop (n - 1) xs)
]

pub length-take : (n : ℕ) (xs : List ℕ) → n ≤ length xs → length (take n xs) ≡ n
length-take n [] h = omega arith
length-take n (x ∷ xs) h = elim (Bool-cases (n == 0)) [
  | inl e ↦ ground arith
  | inr e ↦ ground (arith, length-take (n - 1) xs)
]

pub take-all : (n : ℕ) (xs : List ℕ) → length xs ≤ n → take n xs ≡ xs
take-all n [] h = refl
take-all n (x ∷ xs) h = ground (arith, take-all (n - 1) xs)

pub drop-all : (n : ℕ) (xs : List ℕ) → length xs ≤ n → drop n xs ≡ []
drop-all n [] h = refl
drop-all n (x ∷ xs) h = ground (arith, drop-all (n - 1) xs)

pub take-append : (n : ℕ) (xs ys : List ℕ) → n ≤ length xs → take n (xs ++ ys) ≡ take n xs
take-append n [] [] h = refl
take-append n [] (y ∷ ys) h = ground arith
take-append n (x ∷ xs) ys h = ground (arith, take-append (n - 1) xs ys)

pub drop-append : (n : ℕ) (xs ys : List ℕ) → n ≤ length xs → drop n (xs ++ ys) ≡ drop n xs ++ ys
drop-append n [] [] h = refl
drop-append n [] (y ∷ ys) h = ground arith
drop-append n (x ∷ xs) ys h = ground (arith, drop-append (n - 1) xs ys)

-- Two slices are equal.
abbrev pub list_eq : List ℕ → List ℕ → Bool
list_eq [] [] = true
list_eq [] (y ∷ ys) = false
list_eq (x ∷ xs) [] = false
list_eq (x ∷ xs) (y ∷ ys) = (x == y) && list_eq xs ys

abbrev pub sum : List ℕ → ℕ
sum [] = 0
sum (x ∷ xs) = x + sum xs

-- How often a number stands in a list.
abbrev pub count : ℕ → List ℕ → ℕ
count k [] = 0
count k (x ∷ xs) = bit (x == k) + count k xs

-- Membership, as a test.
abbrev pub contains : ℕ → List ℕ → Bool
contains k [] = false
contains k (x ∷ xs) = if x == k then true else contains k xs

-- The list without a number: `retain(|&id| id != k)`.
unfoldable pub without : ℕ → List ℕ → List ℕ
without k [] = []
without k (x ∷ xs) = if x == k then without k xs else x ∷ without k xs

pub count-append : (k : ℕ) (xs ys : List ℕ) → count k (xs ++ ys) ≡ count k xs + count k ys
count-append k [] ys = omega arith
count-append k (x ∷ xs) ys = omega (arith, count-append k xs ys)

pub count-without :
    (k j : ℕ) (xs : List ℕ) → count j (without k xs) ≡ (if k == j then 0 else count j xs)
unfolding without
count-without k j [] = ground arith
count-without k j (x ∷ xs) = ground (arith, count-without k j xs)

pub count-snoc_self : (k : ℕ) (xs : List ℕ) → count k (xs ++ k ∷ []) ≡ suc (count k xs)
count-snoc_self k xs = ground (arith, count-append k xs (k ∷ []))

pub count-snoc_ne : (k j : ℕ) (xs : List ℕ) → j ≢ k → count j (xs ++ k ∷ []) ≡ count j xs
count-snoc_ne k j xs h = ground (arith, count-append j xs (k ∷ []))

pub count-without_self : (k : ℕ) (xs : List ℕ) → count k (without k xs) ≡ 0
count-without_self k xs = ground (arith, count-without k k xs)

pub count-without-le : (k j : ℕ) (xs : List ℕ) → count j (without k xs) ≤ count j xs
count-without-le k j xs = ground (arith, count-without k j xs)

-- `pop_front`, and the test of the front.
abbrev pub rest : List ℕ → List ℕ
rest [] = []
rest (x ∷ xs) = xs

abbrev pub is_front : ℕ → List ℕ → Bool
is_front k [] = false
is_front k (x ∷ xs) = x == k

pub count-rest-le : (j : ℕ) (xs : List ℕ) → count j (rest xs) ≤ count j xs
count-rest-le j [] = omega arith
count-rest-le j (x ∷ xs) = omega arith

pub count-rest_front :
    (k : ℕ) (xs : List ℕ) → is_front k xs ≡ true → suc (count k (rest xs)) ≡ count k xs
count-rest_front k [] h = cc
count-rest_front k (x ∷ xs) h = ground arith

-- The bytes of an ASCII text.
abbrev pub codes : String → List ℕ
codes String.[] = []
codes (String.◌∷◌ c s) = code c ∷ codes s

pub eq-nil_of_count : (xs : List ℕ) → ((k : ℕ) → count k xs ≡ 0) → xs ≡ []
eq-nil_of_count [] h = refl
eq-nil_of_count (x ∷ xs) h = ground (arith, h x)

-- `HashSet::insert`.
unfoldable pub add_once : ℕ → List ℕ → List ℕ
add_once k xs = if contains k xs then xs else k ∷ xs

pub drop-zero : (xs : List ℕ) → drop 0 xs ≡ xs
drop-zero [] = refl
drop-zero (x ∷ xs) = refl
