-- ===== src/H2/ContentLength/Total.antt =====
-- The declared length against the DATA frames of a whole message.
use httpunk.Prelude.{
  ℕ, ◌-◌, ◌≡◌, ◌↔◌, Bool, true, false, ◌&&◌, List, [], ◌∷◌, arith, if◌then◌else◌, sum,
}
use httpunk.H2.ContentLength.{ContentLength, head, remaining, new, set, dec, is_satisfied}

-- The payloads of a message, one `dec` per frame up to the first refusal, and the END_STREAM check.
pub accepts : ContentLength → List ℕ → Bool
unfolding dec is_satisfied
accepts cl [] = is_satisfied cl
accepts cl (len ∷ lens) = let (cl', ok) = dec cl len in ok && accepts cl' lens

accepts_remaining : (n : ℕ) (lens : List ℕ) → (accepts (remaining n) lens ≡ true) ↔ (sum lens ≡ n)
unfolding accepts
accepts_remaining n [] = ground arith
accepts_remaining n (len ∷ lens) = ground (arith, accepts_remaining (n - len) lens)

accepts_head : (lens : List ℕ) → (accepts head lens ≡ true) ↔ (sum lens ≡ 0)
unfolding accepts
accepts_head [] = ground arith
accepts_head (len ∷ lens) = ground (arith, accepts_head lens)

-- A message with a declared length is accepted exactly when its payloads add up to that length, and
-- a response to HEAD exactly when it has no payload, whatever length it declares.
pub accepts_iff :
    (is_head : Bool) (n : ℕ) (lens : List ℕ)
    → (accepts (set (new is_head) n) lens ≡ true) ↔ (sum lens ≡ (if is_head then 0 else n))
unfolding new set
accepts_iff true n lens = accepts_head lens
accepts_iff false n lens = accepts_remaining n lens
