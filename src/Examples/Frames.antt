-- ===== src/Examples/Frames.antt =====
-- The theorems on received frames, at concrete connections.
use httpunk.Prelude.{◌+◌, ◌≡◌, refl, true, false, ◌⊎◌, none, some, List, [], ◌∷◌, codes}
use httpunk.Prelude.Map.{lookup}
use httpunk.H2.Reason
use httpunk.H2.Errors.{err}
use httpunk.H2.Inner.{Inner}
use httpunk.H2.Inner.Store.{protocol_err}
use httpunk.H2.Inner.Invariant.{IsValid}
use httpunk.H2.Inner.Headers.{recv_headers}
use httpunk.H2.Inner.Headers.Valid.{recv_headers-IsValid}
use httpunk.H2.Inner.Receive.{recv_data, recv_reset}
use httpunk.H2.Inner.Receive.Valid.{recv_data-IsValid}
use httpunk.H2.Inner.Receive.Resets.{recv_reset-IsValid}
use httpunk.H2.Inner.Control.{SettingsFrame}
use httpunk.H2.Inner.Shutdown.{recv_go_away, shutdown_ping}
use httpunk.H2.Inner.Shutdown.Valid.{IsAbove, IsAtMost, is_accepted, recv_go_away_streams}
use httpunk.H2.Inner.Shutdown.Goaways.{Event, begin, pinged, goaways, phase, run, goaways-run}
use httpunk.H2.Decoder.{Limits}
use httpunk.Examples.Stub.{stub, stub_laws}
use httpunk.Examples.Connections.{serving, serving-IsValid, calling, headers_for, data_for}

recv_headers-IsValid_example : IsValid stub (recv_headers stub 0 (headers_for 3) (some 9) serving).0
recv_headers-IsValid_example =
    recv_headers-IsValid stub stub_laws serving 0 (headers_for 3) (some 9) serving-IsValid

recv_data-IsValid_example : IsValid stub (recv_data stub 0 (data_for 1) serving).0
recv_data-IsValid_example = recv_data-IsValid stub stub_laws serving 0 (data_for 1) serving-IsValid

recv_reset-IsValid_example : IsValid stub (recv_reset stub 1 Reason.cancel serving).0
recv_reset-IsValid_example =
    recv_reset-IsValid stub stub_laws serving 1 Reason.cancel serving-IsValid

abbrev new_limits : SettingsFrame
new_limits = record {
  ack = false;
  header_table_size = none;
  max_frame_size = some 32768;
  max_concurrent_streams = some 10;
  initial_window_size = some 131070;
}

abbrev limits : Limits
limits = record {
  table_updates = [];
  max_recv_frame_size = 16384;
  max_header_list_size = 16384;
  max_continuation_frames = 5;
}

-- A second GOAWAY.
abbrev told : Inner stub
told = record calling { goaway_last_id = some 5 }

recv_go_away_streams_example :
    let (t, r) = recv_go_away stub 1 Reason.no_error [] told in
    (IsAbove 1 (some 5) × (t ≡ told) × (r ≡ err (protocol_err Reason.protocol_error)))
    ⊎ (IsAtMost 1 (some 5) × (is_accepted r ≡ true) × (lookup 3 t.streams ≡ none))
recv_go_away_streams_example = recv_go_away_streams stub stub_laws told 1 Reason.no_error [] 3 refl

abbrev shutdown : List Event
shutdown =
    begin
    ∷ pinged (codes "12345678") false
    ∷ pinged shutdown_ping true
    ∷ pinged shutdown_ping true
    ∷ []

goaways-run_example :
    goaways (run stub serving shutdown).pending + 0 ≡ 0 + phase stub (run stub serving shutdown)
goaways-run_example = goaways-run stub serving shutdown
