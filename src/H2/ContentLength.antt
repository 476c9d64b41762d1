-- ===== src/H2/ContentLength.antt =====
-- src/h2/streams.rs, `ContentLength`: the declared body length of a message, a u64, decremented
-- per DATA frame and checked at END_STREAM.
pub mod Total
use httpunk.Prelude.{
  ℕ, ◌+◌, ◌-◌, ◌≤◌, ◌≡◌, refl, ◌↔◌, Bool, true, false, not, ◌&&◌, Option, none, some, List, [], ◌∷◌,
  arith, leb, ◌==◌, if◌then◌else◌, sum,
}

pub data ContentLength : Type 0 where
  omitted : ContentLength
  head : ContentLength
  remaining : ℕ → ContentLength

pub new : Bool → ContentLength
new is_head = if is_head then head else omitted

pub is_head : ContentLength → Bool
is_head head = true
is_head _ = false

pub set : ContentLength → ℕ → ContentLength
set head value = head
set _ value = remaining value

abbrev checked_sub : ℕ → ℕ → Option ℕ
checked_sub a b = if leb b a then some (a - b) else none

-- The new value and the verdict: `false` is more data than declared, or data on a HEAD response.
pub dec : ContentLength → ℕ → ContentLength × Bool
dec (remaining rem) len = elim (checked_sub rem len) [
  | some val ↦ (remaining val, true)
  | none ↦ (remaining rem, false)
]
dec head len = (head, len == 0)
dec omitted len = (omitted, true)

pub is_satisfied : ContentLength → Bool
is_satisfied (remaining n) = n == 0
is_satisfied _ = true
