-- ===== src/H2/Reason.antt =====
-- The u32 codes of `Reason` that the connection names.
use httpunk.Prelude.{ℕ}

abbrev pub no_error : ℕ
no_error = 0

abbrev pub protocol_error : ℕ
protocol_error = 1

abbrev pub flow_control_error : ℕ
flow_control_error = 3

abbrev pub stream_closed : ℕ
stream_closed = 5

abbrev pub refused_stream : ℕ
refused_stream = 7

abbrev pub cancel : ℕ
cancel = 8

abbrev pub enhance_your_calm : ℕ
enhance_your_calm = 11

abbrev pub frame_size_error : ℕ
frame_size_error = 6

abbrev pub compression_error : ℕ
compression_error = 9
