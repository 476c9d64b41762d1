-- ===== src/H2/Budget/Spent.antt =====
-- The budget against the one of h2 that it stands for: h2 counts what is spent, fails a charge above
-- the limit, and takes a credit off what is spent, down to zero.
use httpunk.Prelude.{
  ℕ, ◌+◌, ◌-◌, ◌≤◌, ◌≡◌, refl, Bool, true, false, List, [], ◌∷◌, arith, ltb, if◌then◌else◌,
}
use httpunk.H2.Budget.{Budget, usize_max, consume, replenish}

pub record SpentBudget : Type 0 where
  pub spent : ℕ
  pub max : ℕ

abbrev consume_spent : SpentBudget → ℕ → SpentBudget × Bool
consume_spent b n =
    if ltb b.max (b.spent + n) then (b, false) else (record b { spent = b.spent + n }, true)

abbrev replenish_spent : SpentBudget → ℕ → SpentBudget
replenish_spent b n = record b { spent = b.spent - n }

pub data Op : Type 0 where
  charge : ℕ → Op
  credit : ℕ → Op

-- The verdicts of a history of charges and credits, and the budget at its end.
unfoldable pub run : Budget → List Op → Budget × List Bool
run b [] = (b, [])
run b (charge n ∷ ops) =
    let (b', taken) = consume b n in let (last, verdicts) = run b' ops in (last, taken ∷ verdicts)
run b (credit n ∷ ops) = run (replenish b n) ops

unfoldable pub run_spent : SpentBudget → List Op → SpentBudget × List Bool
run_spent b [] = (b, [])
run_spent b (charge n ∷ ops) =
    let (b', taken) = consume_spent b n in
    let (last, verdicts) = run_spent b' ops in (last, taken ∷ verdicts)
run_spent b (credit n ∷ ops) = run_spent (replenish_spent b n) ops

pub record Refines (b : Budget) (c : SpentBudget) : Type 0 where
  pub limit : b.max ≡ c.max
  pub remaining : b.current + c.spent ≡ c.max

consume-Refines :
    (b : Budget) (c : SpentBudget) (n : ℕ)
    → Refines b c
    → Refines (consume b n).0 (consume_spent c n).0 × ((consume b n).1 ≡ (consume_spent c n).1)
unfolding consume
consume-Refines b c n h = ground arith

replenish-Refines :
    (b : Budget) (c : SpentBudget) (n : ℕ)
    → c.max ≤ usize_max
    → Refines b c
    → Refines (replenish b n) (replenish_spent c n)
unfolding replenish
replenish-Refines b c n u h = ground arith

-- From related budgets whose limit is a usize, every history of charges and credits gets the same
-- verdicts, and at its end what is left of the one is what the other has not spent.
pub run-Refines :
    (b : Budget) (c : SpentBudget) (ops : List Op)
    → c.max ≤ usize_max
    → Refines b c
    → Refines (run b ops).0 (run_spent c ops).0 × ((run b ops).1 ≡ (run_spent c ops).1)
unfolding run run_spent
run-Refines b c [] u h = (h, refl)
run-Refines b c (charge n ∷ ops) u h =
    let (next, same) = consume-Refines b c n h in
    let (last, verdicts) =
      run-Refines (consume b n).0 (consume_spent c n).0 ops (ground arith) next in
    (last, cc)
run-Refines b c (credit n ∷ ops) u h =
    run-Refines (replenish b n) (replenish_spent c n) ops u (replenish-Refines b c n u h)
