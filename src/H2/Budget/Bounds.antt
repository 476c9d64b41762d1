-- ===== src/H2/Budget/Bounds.antt =====
-- What the DATA-framing budget admits, whatever the peer sends.
use httpunk.Prelude.{
  ℕ, ◌+◌, ◌-◌, max, ◌≤◌, ◌<◌, ◌≡◌, Option, none, some, List, [], ◌∷◌, arith, ◌==◌, if◌then◌else◌,
  Option-cases, inl, inr,
}
use httpunk.H2.Budget.{
  DataFrameCounts, usize_max, max_recv_empty_data_frames, new, record_frame, release, available,
  empty_frames,
}

pub record IsValid (c : DataFrameCounts) : Type 0 where
  pub within : c.data_frame_budget.current ≤ c.data_frame_budget.max
  pub few_empty : c.num_recv_empty_data_frames ≤ max_recv_empty_data_frames

pub new-IsValid : (configured window : Option ℕ) → IsValid (new configured window)
unfolding new
new-IsValid configured window = record { within = ground arith; few_empty = ground arith }

-- A frame that is accepted by valid counts leaves them valid.
pub record_frame-IsValid :
    (c : DataFrameCounts) (len : ℕ) {charge : ℕ}
    → IsValid c
    → (record_frame c len).1 ≡ some charge
    → IsValid (record_frame c len).0
unfolding record_frame
record_frame-IsValid c len h e = ground arith

pub release-IsValid : (c : DataFrameCounts) (n : ℕ) → IsValid c → IsValid (release c n)
unfolding release
release-IsValid c n h = ground arith

-- What a frame costs, and what it earns back.
abbrev pub cost : ℕ → ℕ
cost len = if len == 0 then 0 else 256 - len

abbrev pub earned : ℕ → ℕ
earned len = len - 256

abbrev is_empty : ℕ → ℕ
is_empty len = if len == 0 then 1 else 0

-- A small frame that was accepted by valid counts, once consumed, leaves the counts as they were.
pub release-record_frame :
    (c : DataFrameCounts) (len : ℕ) {charge : ℕ}
    → IsValid c
    → c.data_frame_budget.max ≤ usize_max
    → 0 < len
    → len < 256
    → (record_frame c len).1 ≡ some charge
    → release (record_frame c len).0 charge ≡ c
unfolding record_frame release
release-record_frame c len h u pos small e = ground arith

-- Non-final frames in order, with no chunk consumed between them: the counts after all of them, or
-- `none` at the first that is refused.
unfoldable pub record_all : DataFrameCounts → List ℕ → Option DataFrameCounts
record_all c [] = some c
record_all c (len ∷ lens) =
    let next = record_all (record_frame c len).0 lens in
    elim (record_frame c len).1 [ none ↦ none | some charge ↦ next ]

record_frame_step :
    (c : DataFrameCounts) (len : ℕ) {charge : ℕ}
    → (record_frame c len).1 ≡ some charge
    → (available (record_frame c len).0 + cost len ≤ available c + earned len)
      × (empty_frames (record_frame c len).0 ≡ empty_frames c + is_empty len)
      × (empty_frames c + is_empty len ≤ max 100 (empty_frames c))
unfolding record_frame available empty_frames
record_frame_step c len e = ground arith

abbrev pub costs : List ℕ → ℕ
costs [] = 0
costs (len ∷ lens) = cost len + costs lens

abbrev pub earnings : List ℕ → ℕ
earnings [] = 0
earnings (len ∷ lens) = earned len + earnings lens

abbrev pub empties : List ℕ → ℕ
empties [] = 0
empties (len ∷ lens) = is_empty len + empties lens

-- Frames that are all accepted while nothing is consumed cost no more than the budget at hand and
-- what their large payloads earn, and the empty ones among them are counted and fit in what is left
-- of a connection's hundred.
pub record_all_bounded :
    (c : DataFrameCounts) (lens : List ℕ) {d : DataFrameCounts}
    → record_all c lens ≡ some d
    → (costs lens + available d ≤ available c + earnings lens)
      × (empty_frames d ≡ empty_frames c + empties lens)
      × (empties lens ≤ max_recv_empty_data_frames - empty_frames c)
unfolding record_all
record_all_bounded c [] e = ground arith
record_all_bounded c (len ∷ lens) {d} e = elim (Option-cases (record_frame c len).1) [
  | inl refused ↦ ground arith
  | inr (charge, taken) ↦
      ground (
        arith,
        record_frame_step c len taken,
        record_all_bounded (record_frame c len).0 lens {d = d},
      )
]
