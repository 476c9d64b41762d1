-- ===== src/H2/Decoder/Bounds.antt =====
-- The limits stay in HTTP/2's range, and the CONTINUATION cap belongs to them.
use httpunk.Prelude.{
  ℕ, ◌+◌, ◌*◌, ◌/◌, ◌≤◌, ◌<◌, ◌≡◌, refl, ◌↔◌, ◌&&◌, leb, arith, Bool-cases, inl, inr,
}
use native.Mathlib.Nat.{div-add-mod, div-le_self, mod-lt, mul-le-mul_left}
use httpunk.H2.Errors.{ok}
use httpunk.H2.Decoder.{
  default_max_frame_size, max_max_frame_size, Limits, check_max_frame_size,
  calc_max_continuation_frames, set_max_recv_frame_size, set_max_header_list_size,
  set_recv_header_table_size,
}

abbrev pub InRange : ℕ → Type 0
InRange val = (default_max_frame_size ≤ val) × (val ≤ max_max_frame_size)

-- The frame size is one that the three bytes of a length can carry, and the cap is that of the
-- two sizes.
pub record IsValid (d : Limits) : Type 0 where
  pub frame_size : InRange d.max_recv_frame_size
  pub cap :
      d.max_continuation_frames
      ≡ calc_max_continuation_frames d.max_header_list_size d.max_recv_frame_size

check_max_frame_size_iff : (val : ℕ) → (check_max_frame_size val ≡ ok tt) ↔ InRange val
unfolding check_max_frame_size
check_max_frame_size_iff val = ground arith

-- A new frame size, accepted or refused, keeps the size in HTTP/2's range and the cap on
-- CONTINUATION frames equal to the one of the two sizes.
pub set_max_recv_frame_size-IsValid :
    (val : ℕ) (d : Limits) → IsValid d → IsValid (set_max_recv_frame_size val d).0
unfolding set_max_recv_frame_size check_max_frame_size
set_max_recv_frame_size-IsValid val d h =
    elim (Bool-cases (leb default_max_frame_size val && leb val max_max_frame_size)) [
      | inl inside ↦
          rw (set_max_recv_frame_size, inside) (record { frame_size = ground arith; cap = refl })
      | inr outside ↦ rw (set_max_recv_frame_size, outside) h
    ]

pub set_max_header_list_size-IsValid :
    (val : ℕ) (d : Limits) → IsValid d → IsValid (set_max_header_list_size val d)
unfolding set_max_header_list_size
set_max_header_list_size-IsValid val d h = record { frame_size = h.frame_size; cap = refl }

pub set_recv_header_table_size-IsValid :
    (val : ℕ) (d : Limits) → IsValid d → IsValid (set_recv_header_table_size val d)
unfolding set_recv_header_table_size
set_recv_header_table_size-IsValid val d h = record { frame_size = h.frame_size; cap = h.cap }

-- For a positive frame size and a header list limit below 2^32, the cap on CONTINUATION frames is
-- at least five, and that many frames have room for more than the largest header list.
pub calc_max_continuation_frames_lem :
    (header_max frame_max : ℕ)
    → 0 < frame_max
    → header_max < 4294967296
    → let cap = calc_max_continuation_frames header_max frame_max in
      (5 ≤ cap) × (header_max < frame_max * cap)
unfolding calc_max_continuation_frames
calc_max_continuation_frames_lem header_max frame_max h k =
    let q = header_max / frame_max in
    let divided = div-add-mod header_max frame_max in
    let smaller : q ≤ header_max = div-le_self header_max frame_max in
    let enough : q + 1 ≤ calc_max_continuation_frames header_max frame_max = omega arith in
    (omega arith, omega (arith, divided, mod-lt header_max h, mul-le-mul_left frame_max enough))
