-- ===== src/H2/Streams.antt =====
-- src/h2/conn.rs, `H2Streams`: the connection state and the decoder, each behind its mutex; `new`,
-- `receive` and `prime`, and `recv_settings` on both. A duration in seconds comes as it was
-- converted, if it could be.
pub mod Opening
pub mod Valid
use httpunk.Prelude.{
  ℕ, max, Bool, true, false, not, ◌||◌, Option, none, some, List, [], ◌∷◌, ltb, if◌then◌else◌,
  list_eq, codes,
}
use httpunk.H2.Budget
use httpunk.H2.Budget.{default_initial_window_size, usize_max}
use httpunk.H2.Vendor.{Vendor}
use httpunk.H2.Errors.{value, Result, ok, err}
use httpunk.H2.Result.{M}
use httpunk.H2.Settings
use httpunk.H2.Settings.{SettingsValues, max_window_size}
use httpunk.H2.Decoder
use httpunk.H2.Decoder.{Limits, default_max_frame_size, check_max_frame_size}
use httpunk.H2.Inner.{Role, client, server, Inner}
use httpunk.H2.Inner.Control.{SettingsFrame, recv_settings}
use httpunk.H2.Inner.Runs.{H2Call, got_settings, perform}
use httpunk.H2.Inner.Shutdown.{max_stream_id_value}
use httpunk.H2.Wire.{Wire}
use httpunk.H2.Assembly.{Event}
use httpunk.H2.Reader
use httpunk.H2.Reader.{Reader, receive_frames, prime}

abbrev reset_stream_max_default : ℕ
reset_stream_max_default = 50

abbrev default_send_burst_frames : ℕ
default_send_burst_frames = 4

-- The arguments of `new`. `conn_recv_target` and `auto_date` are not in the model of `Inner`.
pub record Options : Type 0 where
  pub role : List ℕ
  pub initial_window_size : ℕ
  pub connection_window : ℕ
  pub max_frame_size : Option ℕ
  pub max_header_list_size : ℕ
  pub max_send_buf_size : ℕ
  pub max_concurrent_streams : Option ℕ
  pub max_pending_accept_reset_streams : ℕ
  pub max_local_error_reset_streams : Option ℕ
  pub data_frame_budget : Option ℕ
  pub enable_push : Option Bool
  pub header_table_size : Option ℕ
  pub max_concurrent_reset_streams : Option ℕ
  pub reset_stream_duration : Option (Option ℕ)

parse_role : List ℕ → Option Role
parse_role name =
    if list_eq name (codes "client")
    then some client
    else (if list_eq name (codes "server") then some server else none)

abbrev is_server : Role → Bool
is_server server = true
is_server client = false

abbrev or_default : Option ℕ → ℕ → ℕ
or_default none d = d
or_default (some a) d = a

check_option : Option ℕ → Result (Unit {0})
check_option none = ok tt
check_option (some n) = check_max_frame_size n

-- `RESET_STREAM_SECS` is the default, one second in the clock's units.
pub convert_duration : ℕ → Option (Option ℕ) → Result ℕ
convert_duration second none = ok second
convert_duration second (some none) = err value
convert_duration second (some (some t)) = ok t

unfoldable pub limit_frame_size : Option ℕ → Limits → Limits × Result (Unit {0})
limit_frame_size none d = (d, ok tt)
limit_frame_size (some n) d = Decoder.set_max_recv_frame_size n d

module _ (v : Vendor) (w : Wire) where
  pub record H2Streams : Type 0 where
    pub inner : Inner v
    pub decoder : Reader w

  -- A window at the protocol's default, with its capacity assigned; the results are not looked at.
  pub open_window : v.FlowControl
  open_window =
      (v.assign_capacity default_initial_window_size
        (v.inc_window default_initial_window_size v.new).0).0

  pub new_inner : Role → Options → ℕ → Inner v
  unfolding open_window
  new_inner role o duration = record {
    config = record {
      role = role;
      reset_stream_max = or_default o.max_concurrent_reset_streams reset_stream_max_default;
      reset_stream_duration = duration;
      burst_frames = default_send_burst_frames;
      max_send_buf_size = o.max_send_buf_size;
      max_local_error_resets = o.max_local_error_reset_streams;
      max_concurrent = or_default o.max_concurrent_streams usize_max;
      max_pending_accept_reset = o.max_pending_accept_reset_streams;
    };
    pending = [];
    credit = [];
    inflight_credit = [];
    streams = [];
    num_active = 0;
    reset_streams = [];
    peer = Settings.new_peer;
    settings = Settings.new (record {
      header_table_size = o.header_table_size;
      enable_push = o.enable_push;
      max_concurrent_streams = o.max_concurrent_streams;
      initial_window_size = some o.initial_window_size;
      max_frame_size = o.max_frame_size;
      max_header_list_size = some o.max_header_list_size;
    });
    send_max_frame_size = default_max_frame_size;
    conn_send = open_window;
    conn_recv = open_window;
    recv_init = max o.initial_window_size default_initial_window_size;
    pending_send = [];
    pending_capacity = [];
    goaway = none;
    goaway_last_id = none;
    goaway_replied = false;
    error = none;
    writers = 0;
    draining = false;
    local_error_resets = 0;
    data_budget = Budget.new o.data_frame_budget (some o.connection_window);
    next_id = 1;
    num_open_streams = 0;
    stream_limit = none;
    last_recv_id = 0;
    last_processed_id = 0;
    graceful = false;
    max_stream_id = max_stream_id_value;
    shutdown_final = false;
    pending_accept = [];
    remote_reset_pending = [];
  }

  -- The limits are set on the decoder before any frame of the peer is read.
  pub new_decoder : Role → Options → Reader w × Result (Unit {0})
  new_decoder role o =
      let d = Reader.new w (is_server role) in
      let (limits, r) = limit_frame_size o.max_frame_size d.assembly.limits in
      (
        record d {
          assembly = record d.assembly {
            limits = Decoder.set_max_header_list_size o.max_header_list_size limits;
          };
        },
        r,
      )

  -- Every argument is checked before the state is built.
  unfoldable pub new : ℕ → Options → Result H2Streams
  unfolding parse_role check_option convert_duration new_inner new_decoder
  new second o = elim (parse_role o.role) [
    | none ↦ err value
    | some role ↦ elim (check_option o.max_frame_size) [
      | err x ↦ err x
      | ok _ ↦ elim (convert_duration second o.reset_stream_duration) [
        | err x ↦ err x
        | ok duration ↦
            if ltb max_window_size o.initial_window_size || ltb max_window_size o.connection_window
            then err value
            else (let (d, r) = new_decoder role o in
                elim r [
                  | err x ↦ err x
                  | ok _ ↦ ok (record { inner = new_inner role o duration; decoder = d })
                ])
      ]
    ]
  ]

  -- What the driver calls: the two ways into the decoder, the settings on both halves, and the
  -- calls on the state alone.
  pub data StreamsCall : Type 0 where
    received : List ℕ → StreamsCall
    primed : List ℕ → StreamsCall
    settings_received : SettingsFrame → StreamsCall
    called : H2Call → StreamsCall

  abbrev pub with_limits : Reader w → Limits → Reader w
  with_limits d limits = record d { assembly = record d.assembly { limits = limits } }

  pub perform_streams : StreamsCall → H2Streams → H2Streams
  perform_streams (received bytes) h = record h { decoder = (receive_frames w bytes h.decoder).0 }
  perform_streams (primed bytes) h = record h { decoder = (prime w bytes h.decoder).0 }
  perform_streams (settings_received f) h =
      let ((s, limits), _) = recv_settings v f (h.inner, h.decoder.assembly.limits) in
      record { inner = s; decoder = with_limits h.decoder limits }
  perform_streams (called c) h = record h { inner = perform v c h.inner }

  pub perform_all_streams : List StreamsCall → H2Streams → H2Streams
  unfolding perform_streams
  perform_all_streams [] h = h
  perform_all_streams (c ∷ cs) h = perform_all_streams cs (perform_streams c h)
