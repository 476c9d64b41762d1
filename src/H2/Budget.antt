-- ===== src/H2/Budget.antt =====
-- src/h2/streams.rs, `Budget` and `DataFrameCounts`: the DATA-framing budget of a connection.
-- Sizes are usize, 64 bits wide.
pub mod Bounds
pub mod Spent
use httpunk.Prelude.{
  ℕ, ◌+◌, ◌-◌, ◌*◌, ◌/◌, min, max, ◌≤◌, ◌≡◌, refl, Bool, true, false, Option, none, some, arith,
  leb, ltb, ◌==◌, if◌then◌else◌,
}

abbrev pub usize_max : ℕ
usize_max = 18446744073709551615

abbrev pub default_data_frame_overhead_threshold : ℕ
default_data_frame_overhead_threshold = 256

abbrev pub default_data_frame_budget : ℕ
default_data_frame_budget = default_data_frame_overhead_threshold * 100

abbrev pub max_recv_empty_data_frames : ℕ
max_recv_empty_data_frames = 100

-- `frame::DEFAULT_INITIAL_WINDOW_SIZE`.
abbrev pub default_initial_window_size : ℕ
default_initial_window_size = 65535

abbrev saturating_add : ℕ → ℕ → ℕ
saturating_add a b = min (a + b) usize_max

abbrev checked_add : ℕ → ℕ → Option ℕ
checked_add a b = if leb (a + b) usize_max then some (a + b) else none

pub record Budget : Type 0 where
  pub current : ℕ
  pub max : ℕ

pub consume : Budget → ℕ → Budget × Bool
consume b n = if ltb b.current n then (b, false) else (record b { current = b.current - n }, true)

pub replenish : Budget → ℕ → Budget
replenish b n = record b { current = min (saturating_add b.current n) b.max }

pub record DataFrameCounts : Type 0 where
  pub data_frame_budget : Budget
  pub num_recv_empty_data_frames : ℕ

abbrev unwrap_or : Option ℕ → ℕ → ℕ
unwrap_or none d = d
unwrap_or (some a) d = a

pub new : Option ℕ → Option ℕ → DataFrameCounts
new configured connection_window =
    let window = unwrap_or connection_window default_initial_window_size in
    let limit = unwrap_or configured (max (window / 2) default_data_frame_budget) in
    record {
      data_frame_budget = record { current = limit; max = limit };
      num_recv_empty_data_frames = 0;
    }

-- `record`: the new counts and the charge, or `none` for ENHANCE_YOUR_CALM. The counts stay with
-- the connection on an error too.
record_empty : DataFrameCounts → DataFrameCounts × Option ℕ
record_empty c = elim (checked_add c.num_recv_empty_data_frames 1) [
  | none ↦ (c, none)
  | some n ↦ (
    record c { num_recv_empty_data_frames = n },
    if ltb max_recv_empty_data_frames n then none else some 0,
  )
]

record_small : DataFrameCounts → ℕ → DataFrameCounts × Option ℕ
unfolding consume
record_small c cost =
    let (b, taken) = consume c.data_frame_budget cost in
    if taken then (record c { data_frame_budget = b }, some cost) else (c, none)

unfoldable pub record_frame : DataFrameCounts → ℕ → DataFrameCounts × Option ℕ
unfolding record_empty record_small replenish
record_frame c payload_len =
    if payload_len == 0
    then record_empty c
    else (if ltb payload_len default_data_frame_overhead_threshold
        then record_small c (default_data_frame_overhead_threshold - payload_len)
        else (
          record c {
            data_frame_budget =
                replenish c.data_frame_budget (payload_len - default_data_frame_overhead_threshold);
          },
          some 0,
        ))

pub release : DataFrameCounts → ℕ → DataFrameCounts
unfolding replenish
release c charge = record c { data_frame_budget = replenish c.data_frame_budget charge }

unfoldable pub available : DataFrameCounts → ℕ
available c = c.data_frame_budget.current

unfoldable pub empty_frames : DataFrameCounts → ℕ
empty_frames c = c.num_recv_empty_data_frames
