-- ===== src/Examples/Counters.antt =====
-- The theorems on budgets, lengths, settings and limits, at concrete numbers.
use httpunk.Prelude.{
  min, ◌+◌, ◌-◌, ◌*◌, ◌≤◌, ◌<◌, ◌≡◌, ◌↔◌, refl, true, false, some, List, [], ◌∷◌, arith, sum,
}
use httpunk.H2.Budget.{Budget, DataFrameCounts, record_frame, available, empty_frames}
use httpunk.H2.Budget.Spent.{SpentBudget, Op, charge, credit, run, run_spent, Refines, run-Refines}
use httpunk.H2.Budget.Bounds.{IsValid, record_all, record_all_bounded, costs, earnings, empties}
use httpunk.H2.ContentLength.{new, set}
use httpunk.H2.ContentLength.Total.{accepts, accepts_iff}
use httpunk.H2.Settings
use httpunk.H2.Settings.Handshake
use httpunk.H2.Settings.Handshake.{Event, sent, acked, remote, no_tally, sends, run_new}
use httpunk.H2.Decoder.{calc_max_continuation_frames}
use httpunk.H2.Decoder.Bounds.{calc_max_continuation_frames_lem}
use httpunk.Examples.Connections.{settings_values}

abbrev counts : DataFrameCounts
counts = record {
  data_frame_budget = record { current = 500; max = 25600 };
  num_recv_empty_data_frames = 3;
}

abbrev after_small : DataFrameCounts
after_small = record {
  data_frame_budget = record { current = 344; max = 25600 };
  num_recv_empty_data_frames = 3;
}

counts-IsValid : IsValid counts
counts-IsValid = record { within = omega arith; few_empty = omega arith }

small_frame : record_frame counts 100 ≡ (after_small, some 156)
unfolding record_frame
small_frame = refl

three_frames :
    record_all counts (100 ∷ 0 ∷ 300 ∷ [])
    ≡ some (record {
      data_frame_budget = record { current = 388; max = 25600 };
      num_recv_empty_data_frames = 4;
    })
unfolding record_all record_frame
three_frames = refl

record_all_bounded_example :
    (costs (100 ∷ 0 ∷ 300 ∷ []) + 388 ≤ 500 + earnings (100 ∷ 0 ∷ 300 ∷ []))
    × (4 ≡ 3 + empties (100 ∷ 0 ∷ 300 ∷ []))
    × (empties (100 ∷ 0 ∷ 300 ∷ []) ≤ 100 - 3)
unfolding available empty_frames
record_all_bounded_example = record_all_bounded counts (100 ∷ 0 ∷ 300 ∷ []) three_frames

abbrev fresh_budget : Budget
fresh_budget = record { current = 1000; max = 1000 }

abbrev unspent : SpentBudget
unspent = record { spent = 0; max = 1000 }

abbrev history : List Op
history = charge 700 ∷ charge 400 ∷ credit 500 ∷ charge 400 ∷ []

run-Refines_example :
    Refines (run fresh_budget history).0 (run_spent unspent history).0
    × ((run fresh_budget history).1 ≡ (run_spent unspent history).1)
run-Refines_example =
    run-Refines fresh_budget unspent history (omega arith)
      (record { limit = refl; remaining = omega arith })

accepts_iff_example : (accepts (set (new false) 20) (8 ∷ 12 ∷ []) ≡ true) ↔ (sum (8 ∷ 12 ∷ []) ≡ 20)
accepts_iff_example = accepts_iff false 20 (8 ∷ 12 ∷ [])

run_new_example :
    let t =
      (Handshake.run
        (Settings.new settings_values)
        no_tally
        (sent ∷ remote ∷ acked ∷ acked ∷ [])).1 in
    (t.acks ≤ 1) × (t.initials ≡ min 1 t.remotes)
run_new_example = run_new settings_values (sent ∷ remote ∷ acked ∷ acked ∷ [])

calc_max_continuation_frames_lem_example :
    (5 ≤ calc_max_continuation_frames 16777216 16384)
    × (16777216 < 16384 * calc_max_continuation_frames 16777216 16384)
calc_max_continuation_frames_lem_example =
    calc_max_continuation_frames_lem 16777216 16384 (omega arith) (omega arith)
