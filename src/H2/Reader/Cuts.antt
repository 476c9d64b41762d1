-- ===== src/H2/Reader/Cuts.antt =====
-- How the read buffer is cut, and what more bytes behind it change.
use httpunk.Prelude.{
  ℕ, ◌+◌, ◌≤◌, ◌<◌, ◌≡◌, refl, ◌∙◌, ap, ◌⊎◌, inl, inr, List, [], ◌∷◌, ◌++◌, arith, length, take,
  drop, length-append, length-drop, length-take, take-append, drop-append,
}
use httpunk.H2.Assembly.{header_len}
use httpunk.H2.Reader.{Split, waiting, over_size, whole, next_frame, payload_len}

pub Split-cases :
    (s : Split)
    → (s ≡ waiting)
      ⊎ (s ≡ over_size)
      ⊎ ((frame : List ℕ) × (rest : List ℕ) × (s ≡ whole frame rest))
Split-cases waiting = inl refl
Split-cases over_size = inr (inl refl)
Split-cases (whole frame rest) = inr (inr (frame, rest, refl))

abbrev pub frame_end : List ℕ → ℕ
frame_end buf = header_len + payload_len buf

payload_len-append :
    (buf more : List ℕ) → header_len ≤ length buf → payload_len (buf ++ more) ≡ payload_len buf
payload_len-append [] more h = elim h [ ]
payload_len-append (a ∷ []) more h = absurd (omega arith)
payload_len-append (a ∷ b ∷ []) more h = absurd (omega arith)
payload_len-append (a ∷ b ∷ c ∷ rest) more h = refl

-- When a frame is cut off, and which.
abbrev pub Cut : ℕ → List ℕ → List ℕ → List ℕ → Type 0
Cut max_frame buf frame rest =
    (header_len ≤ length buf)
    × (payload_len buf ≤ max_frame)
    × (frame_end buf ≤ length buf)
    × (frame ≡ take (frame_end buf) buf)
    × (rest ≡ drop (frame_end buf) buf)

next_frame_cut :
    (max_frame : ℕ) (buf : List ℕ) {frame rest : List ℕ}
    → next_frame max_frame buf ≡ whole frame rest
    → Cut max_frame buf frame rest
unfolding next_frame
next_frame_cut max_frame buf h = ground arith

pub next_frame_whole :
    (max_frame : ℕ) (buf : List ℕ)
    → header_len ≤ length buf
    → payload_len buf ≤ max_frame
    → frame_end buf ≤ length buf
    → next_frame max_frame buf ≡ whole (take (frame_end buf) buf) (drop (frame_end buf) buf)
unfolding next_frame
next_frame_whole max_frame buf h k l = ground arith

-- A frame is at least its head, and the rest is shorter than the buffer.
pub next_frame_lengths :
    (max_frame : ℕ) (buf : List ℕ) {frame rest : List ℕ}
    → next_frame max_frame buf ≡ whole frame rest
    → (header_len ≤ length frame) × (length rest < length buf)
next_frame_lengths max_frame buf h =
    let (long, fits, all_in, is_take, is_drop) = next_frame_cut max_frame buf h in
    (
      omega (arith, ap length is_take, length-take (frame_end buf) buf),
      omega (arith, ap length is_drop, length-drop (frame_end buf) buf),
    )

pub next_frame_whole-append :
    (max_frame : ℕ) (buf more : List ℕ) {frame rest : List ℕ}
    → next_frame max_frame buf ≡ whole frame rest
    → next_frame max_frame (buf ++ more) ≡ whole frame (rest ++ more)
next_frame_whole-append max_frame buf more h =
    let (long, fits, all_in, is_take, is_drop) = next_frame_cut max_frame buf h in
    let same = payload_len-append buf more long in
    next_frame_whole max_frame (buf ++ more) (omega (arith, length-append buf more)) (rw same fits)
      (rw same (omega (arith, length-append buf more)))
    ∙ rw (
      same,
      is_take,
      is_drop,
      take-append (frame_end buf) buf more all_in,
      drop-append (frame_end buf) buf more all_in,
    )

pub next_frame_over_size-append :
    (max_frame : ℕ) (buf more : List ℕ)
    → next_frame max_frame buf ≡ over_size
    → next_frame max_frame (buf ++ more) ≡ over_size
unfolding next_frame
next_frame_over_size-append max_frame buf more h =
    ground (arith, length-append buf more, payload_len-append buf more)

pub next_frame_nil : (max_frame : ℕ) → next_frame max_frame [] ≡ waiting
unfolding next_frame
next_frame_nil max_frame = refl
