-- ===== src/H2/Reader.antt =====
-- src/h2/codec.rs, the inbound half: `Decoder` with `receive_frames`, `feed_preface` and `prime`,
-- and `H2Codec::match_preface`. The part of `Decoder` that a frame changes is `Assembly`.
pub mod Bounds
pub mod Cuts
pub mod Limited
pub mod Loop
pub mod Pieces
pub mod Prefixes
use httpunk.Prelude.{
  ℕ, zero, suc, ◌+◌, ◌*◌, min, Bool, true, false, not, ◌&&◌, Option, none, some, List, [], ◌∷◌,
  ◌++◌, ltb, if◌then◌else◌, length, take, drop, list_eq,
}
use httpunk.H1.Hyper.{h2_preface}
use httpunk.H2.Reason
use httpunk.H2.Errors.{ok, err}
use httpunk.H2.Result.{M, ◌>>=◌, then_result, pure}
use httpunk.H2.Decoder.{default_max_frame_size, calc_max_continuation_frames}
use httpunk.H2.Inner.Store.{protocol_err}
use httpunk.H2.Wire.{Wire}
use httpunk.H2.Assembly.{header_len, Assembly, Event, decode_one, push}

abbrev default_max_header_list_size : ℕ
default_max_header_list_size = 16777216

-- The big-endian length in a frame's first three bytes.
abbrev pub payload_len : List ℕ → ℕ
payload_len (a ∷ b ∷ c ∷ rest) = a * 65536 + b * 256 + c
payload_len short = 0

-- What the read buffer starts with.
pub data Split : Type 0 where
  waiting : Split
  over_size : Split
  whole : List ℕ → List ℕ → Split

unfoldable pub next_frame : ℕ → List ℕ → Split
next_frame max_frame buf =
    if ltb (length buf) header_len
    then waiting
    else (if ltb max_frame (payload_len buf)
        then over_size
        else (let total = header_len + payload_len buf in
            if ltb (length buf) total then waiting else whole (take total buf) (drop total buf)))

module _ (w : Wire) where
  pub record Reader : Type 0 where
    pub assembly : Assembly w
    pub buf : List ℕ
    pub preface_buf : Option (List ℕ)
    pub expect_preface : Bool
    pub preface_ok : Bool

  -- `Decoder::new`.
  unfoldable pub new : Bool → Reader
  new expect_preface = record {
    assembly = record {
      hpack = w.new_hpack;
      limits = record {
        table_updates = [];
        max_recv_frame_size = default_max_frame_size;
        max_header_list_size = default_max_header_list_size;
        max_continuation_frames =
            calc_max_continuation_frames default_max_header_list_size default_max_frame_size;
      };
      partial = none;
    };
    buf = [];
    preface_buf = none;
    expect_preface = expect_preface;
    preface_ok = not expect_preface;
  }

  -- The loop over the buffer: each round takes a whole frame of at least `header_len` bytes, so
  -- fuel above the buffer's length is enough. An error drops the frames of the batch.
  unfoldable pub read_frames : ℕ → M (Assembly w × List ℕ) (List (Event w))
  read_frames zero s = (s, ok [])
  read_frames (suc fuel) (a, buf) = elim (next_frame a.limits.max_recv_frame_size buf) [
    | waiting ↦ ((a, buf), ok [])
    | over_size ↦ ((a, buf), err (protocol_err Reason.frame_size_error))
    | whole frame_buf rest ↦
        let (a', r) = decode_one w frame_buf a in
        then_result ((a', rest), r) (λ event. read_frames fuel >>= λ out. pure (push w event out))
  ]

  unfoldable pub drain : M Reader (List (Event w))
  unfolding read_frames
  drain d =
      let ((a, buf), r) = read_frames (suc (length d.buf)) (d.assembly, d.buf) in
      (record d { assembly = a; buf = buf }, r)

  abbrev pub so_far : Option (List ℕ) → List ℕ
  so_far none = []
  so_far (some bytes) = bytes

  pub feed_preface : List ℕ → Reader → Reader × Option Bool
  feed_preface bytes d =
      let full = so_far d.preface_buf ++ bytes in
      let n = min (length full) (length h2_preface) in
      if not (list_eq (take n full) (take n h2_preface))
      then (record d { preface_buf = some full }, some false)
      else (if ltb (length full) (length h2_preface)
          then (record d { preface_buf = some full }, none)
          else (
            record d { preface_buf = none; buf = d.buf ++ drop (length h2_preface) full },
            some true,
          ))

  pub receive_frames : List ℕ → M Reader (List (Event w))
  unfolding drain feed_preface
  receive_frames bytes d =
      if d.expect_preface && not d.preface_ok
      then (let (d', verdict) = feed_preface bytes d in
          elim verdict [
            | none ↦ (d', ok [])
            | some matched ↦
                if matched
                then drain (record d' { preface_ok = true })
                else (d', err (protocol_err Reason.protocol_error))
          ])
      else drain (record d { buf = d.buf ++ bytes })

  pub prime : List ℕ → Reader → Reader × Option Bool
  unfolding feed_preface
  prime bytes d =
      if d.expect_preface && not d.preface_ok
      then (let (d', verdict) = feed_preface bytes d in
          elim verdict [
            | none ↦ (d', none)
            | some matched ↦
                if matched then (record d' { preface_ok = true }, some true) else (d', some false)
          ])
      else (record d { buf = d.buf ++ bytes }, some true)

-- `H2Codec::match_preface`.
pub match_preface : List ℕ → Option Bool
match_preface bytes =
    let n = min (length bytes) (length h2_preface) in
    if not (list_eq (take n bytes) (take n h2_preface))
    then some false
    else (if ltb (length bytes) (length h2_preface) then none else some true)
