-- ===== src/Lib.antt =====
-- httpunk: the connection logic of HTTP/1 and HTTP/2 clients and servers, written in Rust for a
-- Python library.
--
-- The program. A driver in Python owns the transport and the tasks. It hands bytes and decoded
-- frames to a connection state, which is one locked value, acts on the verdict that comes back,
-- and writes what the state encoded. For HTTP/2 the state is H2Streams of src/h2/conn.rs: every
-- stream, the windows, the counters of concurrent streams, the order in which streams send, the
-- memory of streams that were reset, and the frames that wait to be written. It stands on small
-- parts: the declared body length and the DATA-framing budget (src/h2/streams.rs), the SETTINGS
-- handshake (src/h2/settings.rs), the codec's limits (src/h2/codec.rs) and the errors
-- (src/h2/errors.rs). For HTTP/1 it is H1ServerState or H1ClientState of src/h1/conn.rs, over one
-- H1Codec and a body decoder per message (src/h1/codec.rs): the current request or exchange, who
-- owns the transport, and the one parked read that watches it.
--
-- The modules. H1.Hyper is the vendored hyper as the codec calls it. H1.Body is BodyDecoder of
-- crates/vendor-hyper/src/proto/h1/httpunk.rs; H1.Codec is the receiving half of src/h1/codec.rs
-- and H1.Codec.Encode its sending half, with their theorems in Codec.Caps, Codec.Once and
-- Codec.Whole. H1.Server is the state of a server connection, and its children Read, Watch and
-- Respond are the methods of H1ServerState; Server.Calls puts them in any order, together with the
-- driver's own calls on the codec and the decoder. Server.Sound says what every call keeps, with a
-- child per group of calls; Server.Ends has how a request ends, and Server.HandOff what a detach
-- hands over. H1.Client is H1ClientState, with Calls, Sound and Runs likewise, and Client.Latch is
-- OnceLatch.
--
-- H2.ContentLength and H2.Budget are src/h2/streams.rs; H2.Settings is src/h2/settings.rs;
-- H2.Decoder has the limits of src/h2/codec.rs, H2.Assembly the decoding of one frame there,
-- H2.Reader the read buffer with the client's preface, and H2.Writer the frames that are written,
-- with a client's first bytes in Writer.Opening; H2.Wire and H2.Encoders are the vendored frame
-- layer, as parameters. H2.Reason and H2.Errors are the codes and exceptions. H2.Inner is the data
-- of src/h2/conn.rs, and its children are its methods: Entry (one stream), Queues (`pending_send`,
-- `pending_capacity`), Window (recv windows, ledger, reset store), Store (lookup and close), Reset
-- (resets and failures), Headers (`recv_headers`), Receive (`recv_data`, `recv_window_update`,
-- `recv_reset`), Control (`recv_settings`), Shutdown (`recv_ping`, `recv_go_away`, `fail`, the
-- graceful shutdown, the slots), Send (`send_data`), SendHeads (`send_response_head`,
-- `send_trailers`, `release_capacity`, `next_capacity_wake`), Calls (`open_stream`,
-- `reset_on_error`, `aclose_body`, `release_data_frame`, the written batches), Begin (`begin`) and
-- Writers (the count of body writers). Each has its theorems in child modules; H2.Inner.Invariant
-- says what a well-formed state is, and H2.Inner.Runs puts the methods in any order. H2.Streams is
-- H2Streams, the state and the decoder from their creation on; Streams.Opening takes a new client
-- to the server's reader. Examples has concrete connections.
--
-- How code becomes definitions. A method on `&mut self` is a function from the state to the state
-- and the answer; one that may fail is in the monad of H2.Result, which keeps the state that an
-- early return leaves behind, or answers with H1.Hyper.Result. Each public method is one step, as
-- the lock makes it, and an interleaving of tasks is a list of steps. The vendored crates are
-- parameters: the records H2.Vendor.Vendor, H2.Wire.Wire, H2.Encoders.Encoders and H1.Hyper.Hyper,
-- with what h2 and hyper document of them in VendorLaws, WireLaws, EncodersLaws and HyperLaws;
-- Examples.Stub, Examples.StubWire and Examples.StubHyper satisfy them. A hash map is an
-- association list, an order that the theorems do not depend on. A Python object is a number. A
-- clock is an argument, and a deadline is a number of the clock's ticks. The buffer of pending
-- HTTP/2 bytes is the list of its frames: a frame is never empty, so the buffer grows exactly when
-- a frame is added. The flags of a verdict are a record of tests. u32, u64 and usize arithmetic
-- wraps as the release build does, and the HTTP/2 counters that only grow by one per stream are
-- exact numbers. The body decoder that Python shares with a server connection is a field of the
-- state, which the driver's calls change there.
--
-- Loops run over lists and need no fuel, but for the head parse of H1.Codec: its fuel is the
-- buffer's length and one more, enough because a round that goes on has taken a byte; and for the
-- frame loop of H2.Reader, likewise, where a round takes a whole frame.
--
-- Not modelled: the encoders of header blocks in src/h2/codec.rs, header maps (src/http), the
-- proxy rules, the handles of the driver's tasks and the write pump's stop flag and spare buffer,
-- the hooks of Python's garbage collector and the rest of the Python glue; and the vendored
-- crates, which are copies of other projects.
pub mod Prelude
pub mod H1
pub mod H2
pub mod Examples
