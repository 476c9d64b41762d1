-- ===== src/H1/Client/Latch.antt =====
-- src/h1/conn.rs: `OnceLatch`, its flag as the state. `compare_exchange` is one step.
use httpunk.Prelude.{ℕ, zero, suc, ◌+◌, ◌≡◌, refl, Bool, true, false, bit, min, arith}

-- The flag that `try_acquire` leaves, and whether it succeeded.
unfoldable pub try_acquire : Bool → Bool × Bool
try_acquire true = (true, false)
try_acquire false = (true, true)

-- How many of a number of tries succeed.
unfoldable pub acquired : ℕ → Bool → ℕ
acquired zero set = 0
acquired (suc tries) set = let (set', won) = try_acquire set in bit won + acquired tries set'

acquired_set : (tries : ℕ) → acquired tries true ≡ 0
unfolding acquired try_acquire
acquired_set zero = refl
acquired_set (suc tries) = omega (arith, acquired_set tries)

-- Of any number of tries on a new latch exactly one succeeds, if there is one.
pub acquired_once : (tries : ℕ) → acquired tries false ≡ min 1 tries
unfolding acquired try_acquire
acquired_once zero = refl
acquired_once (suc tries) = ground (arith, acquired_set tries)
