-- ===== src/H2/Result.antt =====
-- A method on `&mut self` that may fail: the state as it was left, with the value or the error.
-- An early return on an error keeps what was written before it.
use httpunk.Prelude.{Bool, true, false, ◌≡◌, refl, ◌⊎◌, inl, inr, if◌then◌else◌}
use httpunk.H2.Errors.{Error, Result, ok, err}

abbrev pub M : Type 0 → Type 0 → Type 0
M S A = S → S × Result A

abbrev pub then_result : {S A B : Type 0} → S × Result A → (A → M S B) → S × Result B
then_result (s, ok a) f = f a s
then_result (s, err e) f = (s, err e)

infixl 5 ◌>>=◌ ◌>>◌
abbrev pub ◌>>=◌ : {S A B : Type 0} → M S A → (A → M S B) → M S B
◌>>=◌ m f s = then_result (m s) f

abbrev pub ◌>>◌ : {S B : Type 0} → M S (Unit {0}) → M S B → M S B
m >> k = m >>= λ _. k

abbrev pub pure : {S A : Type 0} → A → M S A
pure a s = (s, ok a)

abbrev pub fail : {S A : Type 0} → Error → M S A
fail e s = (s, err e)

-- An early return with an error unless the test holds.
abbrev pub require : {S : Type 0} → Bool → Error → M S (Unit {0})
require true e s = (s, ok tt)
require false e s = (s, err e)

abbrev pub modify : {S : Type 0} → (S → S) → M S (Unit {0})
modify f s = (f s, ok tt)

-- A method that cannot fail.
abbrev pub call : {S A : Type 0} → (S → S × A) → M S A
call f s = let (s', a) = f s in (s', ok a)

abbrev pub from_result : {S A : Type 0} → Result A → M S A
from_result r s = (s, r)

-- What holds of the state goes on to hold, whether the method fails or not.
abbrev pub Keeps : {S A : Type 0} → (S → Type 0) → M S A → Type 0
Keeps {S} P m = (s : S) → P s → P (m s).0

-- The same, from one state on.
pub >>=-holds :
    {S A B : Type 0} (P : S → Type 0) (m : M S A) (f : A → M S B) (s : S)
    → P (m s).0
    → ((a : A) → Keeps P (f a))
    → P ((m >>= f) s).0
>>=-holds {S} {A} P m f s h k = go (m s) h
  where
    go : (r : S × Result A) → P r.0 → P (then_result r f).0
    go (s', ok a) p' = k a s' p'
    go (s', err e) p' = p'

pub >>=-Keeps :
    {S A B : Type 0} (P : S → Type 0) (m : M S A) (f : A → M S B)
    → Keeps P m
    → ((a : A) → Keeps P (f a))
    → Keeps P (m >>= f)
>>=-Keeps P m f h k s p = >>=-holds P m f s (h s p) k

pub require-Keeps : {S : Type 0} (P : S → Type 0) (b : Bool) (e : Error) → Keeps P (require b e)
require-Keeps P true e s p = p
require-Keeps P false e s p = p

pub if-Keeps :
    {S A : Type 0} (P : S → Type 0) (b : Bool) (m n : M S A)
    → Keeps P m
    → Keeps P n
    → Keeps P (if b then m else n)
if-Keeps P true m n h k = h
if-Keeps P false m n h k = k

pub Result-cases :
    {A : Type 0} (answer : Result A)
    → ((value : A) × (answer ≡ ok value)) ⊎ ((x : Error) × (answer ≡ err x))
Result-cases (ok value) = inl (value, refl)
Result-cases (err x) = inr (x, refl)

-- The outcome as the caller sees it: after an error the state is not looked at.
abbrev pub settled : {S A : Type 0} → S × Result A → Result (S × A)
settled (s, ok a) = ok (s, a)
settled (s, err e) = err e

-- Of a result that is no error, the state.
abbrev pub OkHolds : {S A : Type 0} → (S → Type 0) → S × Result A → Type 0
OkHolds P (s, ok a) = P s
OkHolds P (s, err e) = Unit
