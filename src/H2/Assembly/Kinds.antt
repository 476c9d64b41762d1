-- ===== src/H2/Assembly/Kinds.antt =====
-- A frame with no header block pending.
use httpunk.Prelude.{ℕ, ◌≡◌, none, List, length, take, drop, is_some, ◌&&◌, not, false}
use httpunk.H2.Wire.{Wire}
use httpunk.H2.Assembly.{header_len, Assembly, is_continuation, decode_kind, decode_one}

pub decode_one_idle :
    (w : Wire) (bytes : List ℕ) (a : Assembly w)
    → a.partial ≡ none
    → let head = w.parse_head (take header_len bytes) in
      decode_one w bytes a ≡ decode_kind w head.kind head (length bytes) (drop header_len bytes) a
unfolding decode_one
decode_one_idle w bytes a idle =
    let calm : (is_some a.partial
          && not (is_continuation (w.parse_head (take header_len bytes)).kind))
        ≡ false =
      rw idle in
    rw (decode_one, calm)
