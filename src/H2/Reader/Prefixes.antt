-- ===== src/H2/Reader/Prefixes.antt =====
-- Bytes against the text that they should start with.
use httpunk.Prelude.{
  ℕ, ◌≤◌, ◌≡◌, refl, Bool, true, false, not, ◌&&◌, List, [], ◌∷◌, ◌++◌, arith, ltb, ◌==◌, length,
  length-append, take, list_eq, min,
}
use httpunk.H1.Hyper.{h2_preface}

-- The bytes and the text agree as far as both go.
abbrev pub agrees : List ℕ → List ℕ → Bool
agrees [] ps = true
agrees (x ∷ xs) [] = true
agrees (x ∷ xs) (p ∷ ps) = (x == p) && agrees xs ps

pub list_eq-agrees :
    (xs ps : List ℕ)
    → list_eq (take (min (length xs) (length ps)) xs) (take (min (length xs) (length ps)) ps)
      ≡ agrees xs ps
list_eq-agrees [] [] = refl
list_eq-agrees [] (p ∷ ps) = ground arith
list_eq-agrees (x ∷ xs) [] = ground arith
list_eq-agrees (x ∷ xs) (p ∷ ps) = ground (arith, list_eq-agrees xs ps)

-- A mismatch stays one, and a complete match too.
pub agrees-append : (xs ys ps : List ℕ) → agrees xs ps ≡ false → agrees (xs ++ ys) ps ≡ false
agrees-append [] ys ps h = cc
agrees-append (x ∷ xs) ys [] h = cc
agrees-append (x ∷ xs) ys (p ∷ ps) h = ground (arith, agrees-append xs ys ps)

pub agrees-append_long :
    (xs ys ps : List ℕ) → length ps ≤ length xs → agrees (xs ++ ys) ps ≡ agrees xs ps
agrees-append_long [] [] ps h = refl
agrees-append_long [] (y ∷ ys) [] h = refl
agrees-append_long [] (y ∷ ys) (p ∷ ps) h = absurd (omega arith)
agrees-append_long (x ∷ xs) ys [] h = refl
agrees-append_long (x ∷ xs) ys (p ∷ ps) h = ground (arith, agrees-append_long xs ys ps)

pub later_than :
    (xs ys : List ℕ)
    → ltb (length xs) (length h2_preface) ≡ false
    → ltb (length (xs ++ ys)) (length h2_preface) ≡ false
later_than xs ys h = ground (arith, length-append xs ys)

pub shut_when_ok : (b : Bool) → (b && not true) ≡ false
shut_when_ok true = refl
shut_when_ok false = refl
