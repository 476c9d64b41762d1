-- ===== src/H1/Body.antt =====
-- crates/vendor-hyper/src/proto/h1/httpunk.rs: `BodyDecoder`, and its wrapper `H1BodyDecoder` of
-- src/h1/codec.rs.
use httpunk.Prelude.{
  ℕ, Bool, true, false, Option, none, some, List, [], ◌∷◌, ◌++◌, length, if◌then◌else◌,
}
use httpunk.H1.Hyper.{
  Hyper, Result, ok, err, BodyKind, empty_kind, length_kind, chunked_kind, close_kind, Poll,
  pending, data_ready, trailers_ready, broken,
}

abbrev pub is_empty : List ℕ → Bool
is_empty [] = true
is_empty (x ∷ xs) = false

-- The buffer and its end mark are `SyncMemRead`.
pub record BodyDecoder (w : Hyper) : Type 0 where
  pub decoder : w.Decoder
  pub buf : List ℕ
  pub eof : Bool
  pub done : Bool
  pub trailers : Option w.Headers

module _ (w : Hyper) where
  abbrev framing_decoder : BodyKind → ℕ → Option ℕ → Option ℕ → w.Decoder
  framing_decoder length_kind n max_headers max_header_size = w.length_decoder n
  framing_decoder chunked_kind n max_headers max_header_size =
      w.chunked_decoder max_headers max_header_size
  framing_decoder close_kind n max_headers max_header_size = w.eof_decoder
  framing_decoder empty_kind n max_headers max_header_size = w.length_decoder 0

  unfoldable pub new : BodyKind → ℕ → Option ℕ → Option ℕ → BodyDecoder w
  new kind n max_headers max_header_size =
      let d = framing_decoder kind n max_headers max_header_size in
      record { decoder = d; buf = []; eof = false; done = w.decoder_is_eof d; trailers = none }

  unfoldable pub feed_buf : List ℕ → BodyDecoder w → BodyDecoder w
  feed_buf bytes d = record d { buf = d.buf ++ bytes }

  unfoldable pub mark_eof : BodyDecoder w → BodyDecoder w
  mark_eof d = record d { eof = true }

  unfoldable pub take_buffered : BodyDecoder w → BodyDecoder w × List ℕ
  take_buffered d = (record d { buf = [] }, d.buf)

  abbrev pub buffered : BodyDecoder w → ℕ
  buffered d = length d.buf

  unfoldable pub take_trailers : BodyDecoder w → BodyDecoder w × Option w.Headers
  take_trailers d = (record d { trailers = none }, d.trailers)

  -- What a poll's outcome makes of the decoder and of the answer.
  settle :
      BodyDecoder w → Poll w.Failure w.Headers → BodyDecoder w × Result w.Failure (Option (List ℕ))
  settle d pending = (d, ok none)
  settle d (data_ready bytes) =
      if is_empty bytes
      then (record d { done = true }, ok none)
      else (record d { done = w.decoder_is_eof d.decoder }, ok (some bytes))
  settle d (trailers_ready fields) = (record d { trailers = fields; done = true }, ok none)
  settle d (broken e) = (d, err e)

  unfoldable pub decode : BodyDecoder w → BodyDecoder w × Result w.Failure (Option (List ℕ))
  unfolding settle
  decode d =
      if d.done
      then (d, ok none)
      else (let ((inner, rest), polled) = w.decode d.decoder d.buf d.eof in
          settle (record d { decoder = inner; buf = rest }) polled)

  -- `H1BodyDecoder::finish`.
  unfoldable pub finish : BodyDecoder w → BodyDecoder w × (Option w.Headers × ℕ)
  unfolding take_trailers
  finish d = let (d', fields) = take_trailers d in (d', (fields, buffered d'))
