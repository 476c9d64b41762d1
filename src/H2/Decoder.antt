-- ===== src/H2/Decoder.antt =====
-- src/h2/codec.rs, the limits that the connection sets: `check_max_frame_size`,
-- `calc_max_continuation_frames`, `Decoder::set_recv_header_table_size`,
-- `Decoder::set_max_recv_frame_size`, `Decoder::set_max_header_list_size`,
-- `Encoder::set_send_max_frame_size`.
pub mod Bounds
use httpunk.Prelude.{
  ℕ, ◌+◌, ◌/◌, min, max, Bool, not, ◌&&◌, List, [], ◌∷◌, ◌++◌, leb, if◌then◌else◌,
}
use httpunk.H2.Errors.{Error, value, Result, ok, err}

abbrev pub default_max_frame_size : ℕ
default_max_frame_size = 16384

abbrev pub max_max_frame_size : ℕ
max_max_frame_size = 16777215

abbrev usize_max : ℕ
usize_max = 18446744073709551615

-- The limits of the inbound half. The HPACK decoder is the vendored crate's: `table_updates` has
-- the size updates that were queued in it.
pub record Limits : Type 0 where
  pub table_updates : List ℕ
  pub max_recv_frame_size : ℕ
  pub max_header_list_size : ℕ
  pub max_continuation_frames : ℕ

unfoldable pub check_max_frame_size : ℕ → Result (Unit {0})
check_max_frame_size val =
    if leb default_max_frame_size val && leb val max_max_frame_size then ok tt else err value

-- `saturating_add` stops at the largest usize.
unfoldable pub calc_max_continuation_frames : ℕ → ℕ → ℕ
calc_max_continuation_frames header_max frame_max =
    let min_frames_for_list = max (header_max / frame_max) 1 in
    let padding = min_frames_for_list / 4 in max (min (min_frames_for_list + padding) usize_max) 5

pub set_recv_header_table_size : ℕ → Limits → Limits
set_recv_header_table_size val d = record d { table_updates = d.table_updates ++ val ∷ [] }

unfoldable pub set_max_recv_frame_size : ℕ → Limits → Limits × Result (Unit {0})
set_max_recv_frame_size val d = elim (check_max_frame_size val) [
  | err x ↦ (d, err x)
  | ok _ ↦ (
    record d {
      max_recv_frame_size = val;
      max_continuation_frames = calc_max_continuation_frames d.max_header_list_size val;
    },
    ok tt,
  )
]

pub set_max_header_list_size : ℕ → Limits → Limits
set_max_header_list_size val d = record d {
  max_header_list_size = val;
  max_continuation_frames = calc_max_continuation_frames val d.max_recv_frame_size;
}

-- The limit of the outbound half, alone.
pub set_send_max_frame_size : ℕ → ℕ → ℕ × Result (Unit {0})
set_send_max_frame_size val limit = elim (check_max_frame_size val) [
  | err x ↦ (limit, err x)
  | ok _ ↦ (val, ok tt)
]
