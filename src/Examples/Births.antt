-- ===== src/Examples/Births.antt =====
-- The theorems on a connection from its creation on, on the stubs: a server with a smaller window,
-- and a client with a larger one.
use httpunk.Prelude.{◌≡◌, refl, arith, map, true, false, none, some, List, [], ◌∷◌, ◌++◌, codes}
use httpunk.H1.Hyper.{h2_preface}
use httpunk.H2.Errors.{ok}
use httpunk.H2.Decoder.{default_max_frame_size, check_max_frame_size, set_max_recv_frame_size}
use httpunk.H2.Inner.{client, server}
use httpunk.H2.Inner.Control.{SettingsFrame}
use httpunk.H2.Inner.Runs.{got_headers, data_sent}
use httpunk.H2.Inner.Begin.{begin}
use httpunk.H2.Encoders.{advertised}
use httpunk.H2.Assembly.{settings_event}
use httpunk.H2.Reader
use httpunk.H2.Reader.{receive_frames}
use httpunk.H2.Writer.{write_frames}
use httpunk.H2.Writer.RoundTrip.{seen}
use httpunk.H2.Writer.Opening.{conn_grant}
use httpunk.H2.Streams.Opening.{receive_frames-new}
use httpunk.H2.Streams.{
  H2Streams, Options, StreamsCall, received, primed, settings_received, called, perform_all_streams,
  new, limit_frame_size, new_inner, new_decoder,
}
use httpunk.H2.Streams.Valid.{IsValid, new-IsValid}
use httpunk.Examples.Connections.{headers_for}
use httpunk.Examples.Stub.{stub, stub_laws}
use httpunk.Examples.StubWire.{stub_wire, stub_encoders, stub_encoders_laws}
use httpunk.Examples.Wires.{headers_bytes, continuation_bytes}

abbrev server_options : Options
server_options = record {
  role = codes "server";
  initial_window_size = 1000;
  connection_window = 2000;
  max_frame_size = some 20000;
  max_header_list_size = 65536;
  max_send_buf_size = 4096;
  max_concurrent_streams = some 10;
  max_pending_accept_reset_streams = 20;
  max_local_error_reset_streams = some 1024;
  data_frame_budget = none;
  enable_push = none;
  header_table_size = none;
  max_concurrent_reset_streams = none;
  reset_stream_duration = some (some 30);
}

abbrev acked : SettingsFrame
acked = record {
  ack = true;
  header_table_size = none;
  max_frame_size = none;
  max_concurrent_streams = none;
  initial_window_size = none;
}

abbrev first_calls : List (StreamsCall stub stub_wire)
first_calls =
    primed h2_preface
    ∷ received (headers_bytes ++ continuation_bytes)
    ∷ called (got_headers 0 (headers_for 1) (some 9))
    ∷ settings_received acked
    ∷ called (data_sent 0 1 (1 ∷ 2 ∷ []) 0 true)
    ∷ []

abbrev born : H2Streams stub stub_wire
born = record {
  inner = new_inner stub stub_wire server server_options 30;
  decoder = (new_decoder stub stub_wire server server_options).0;
}

new-IsValid_example : IsValid stub stub_wire (perform_all_streams stub stub_wire first_calls born)
unfolding new check_max_frame_size set_max_recv_frame_size limit_frame_size
new-IsValid_example =
    new-IsValid stub stub_wire stub_laws 1 server_options first_calls refl
      (tt, (tt, (tt, (tt, (tt, tt)))))

abbrev client_options : Options
client_options = record server_options {
  role = codes "client";
  connection_window = 200000;
  enable_push = some false;
}

abbrev client_born : H2Streams stub stub_wire
client_born = record {
  inner = new_inner stub stub_wire client client_options 30;
  decoder = (new_decoder stub stub_wire client client_options).0;
}

receive_frames-new_example :
    let started = begin stub 200000 client_born.inner in
    (started.1 ≡ ok tt)
    × (receive_frames stub_wire
          (write_frames stub_encoders default_max_frame_size started.0.pending [])
          (Reader.new stub_wire true)
        ≡ (
          record (Reader.new stub_wire true) { preface_ok = true },
          ok (
              settings_event (advertised client_born.inner.settings.local)
              ∷ map (seen stub_wire) (conn_grant stub 200000 client_born.inner)),
        ))
unfolding new check_max_frame_size set_max_recv_frame_size limit_frame_size
receive_frames-new_example =
    receive_frames-new stub stub_wire stub_encoders stub_encoders_laws 1 client_options
      {h = client_born} refl refl
      (record {
        header_table_size = tt;
        max_concurrent_streams = omega arith;
        max_header_list_size = omega arith;
      })
      (omega arith, omega arith)
