-- ===== src/H2/Streams/Opening.antt =====
-- A client connection from its creation to the server's reader.
use httpunk.Prelude.{
  ℕ, ◌-◌, ◌^◌, ◌≤◌, ◌<◌, ◌≡◌, refl, subst, inl, inr, ◌||◌, true, false, Option, none, some, [], ◌∷◌,
  map, arith, Bool-cases, ltb, codes, ap, ◌∙◌,
}
use httpunk.H2.Budget.{default_initial_window_size}
use httpunk.H2.Vendor.{Vendor}
use httpunk.H2.Errors.{Result, ok, err}
use httpunk.H2.Result.{Result-cases}
use httpunk.H2.Settings
use httpunk.H2.Settings.{max_window_size}
use httpunk.H2.Decoder.{default_max_frame_size, check_max_frame_size}
use httpunk.H2.Inner.{client}
use httpunk.H2.Inner.Begin.{begin}
use httpunk.H2.Wire.{Wire}
use httpunk.H2.Encoders.{Encoders, EncodersLaws, Given, InRange, advertised}
use httpunk.H2.Assembly.{settings_event}
use httpunk.H2.Reader
use httpunk.H2.Reader.{receive_frames}
use httpunk.H2.Writer.{write_frames}
use httpunk.H2.Writer.RoundTrip.{seen}
use httpunk.H2.Writer.Opening.{FitsWindow, conn_grant, receive_frames-begin}
use httpunk.H2.Streams.{
  H2Streams, Options, new, new_inner, new_decoder, open_window, parse_role, check_option,
  convert_duration,
}

parse_role-client : parse_role (codes "client") ≡ some client
unfolding parse_role
parse_role-client = refl

check_option-Given :
    (o : Option ℕ) → check_option o ≡ ok tt → Given (λ n. (2 ^ 14 ≤ n) × (n < 2 ^ 24)) o
unfolding check_option check_max_frame_size
check_option-Given none h = tt
check_option-Given (some n) h = ground (arith, h)

module _ (v : Vendor) (w : Wire) where
  -- The fields of the options that a u32 holds, and the window that the first grant comes from.
  pub record Words (o : Options) : Type 0 where
    pub header_table_size : Given (λ n. n < 2 ^ 32) o.header_table_size
    pub max_concurrent_streams : Given (λ n. n < 2 ^ 32) o.max_concurrent_streams
    pub max_header_list_size : o.max_header_list_size < 2 ^ 32

  -- What a client's start relies on.
  record Ready (h : H2Streams v w) : Type 0 where
    role : h.inner.role ≡ client
    empty : h.inner.pending ≡ []
    range : InRange h.inner.settings.local
    conn_recv : h.inner.conn_recv ≡ open_window v w

  abbrev OkReady : Result (H2Streams v w) → Type 0
  OkReady (ok h) = Ready h
  OkReady (err x) = Unit

  new_inner-Ready :
      (o : Options) (duration : ℕ) (d : Reader.Reader w)
      → Words o
      → check_option o.max_frame_size ≡ ok tt
      → (ltb max_window_size o.initial_window_size || ltb max_window_size o.connection_window)
        ≡ false
      → Ready (record { inner = new_inner v w client o duration; decoder = d })
  unfolding new_inner Settings.new
  new_inner-Ready o duration d words in_range fits = record {
    role = refl;
    empty = refl;
    range = record {
      header_table_size = words.header_table_size;
      max_concurrent_streams = words.max_concurrent_streams;
      initial_window_size = ground (arith, fits);
      max_frame_size = check_option-Given o.max_frame_size in_range;
      max_header_list_size = words.max_header_list_size;
    };
    conn_recv = refl;
  }

  new-OkReady :
      (second : ℕ) (o : Options)
      → Words o
      → parse_role o.role ≡ some client
      → OkReady (new v w second o)
  unfolding new
  new-OkReady second o words named = elim (Result-cases (check_option o.max_frame_size)) [
    | inr (x, out_of_range) ↦ rw (new, named, out_of_range) tt
    | inl (_, in_range) ↦ elim (Result-cases (convert_duration second o.reset_stream_duration)) [
      | inr (x, odd) ↦ rw (new, named, in_range, odd) tt
      | inl (duration, lasting) ↦
          let wide =
            ltb max_window_size o.initial_window_size || ltb max_window_size o.connection_window in
          elim (Bool-cases wide) [
            | inl too_wide ↦ rw (new, named, in_range, lasting, too_wide) tt
            | inr fits ↦ elim (Result-cases (new_decoder v w client o).1) [
              | inr (x, refused) ↦ rw (new, named, in_range, lasting, fits, refused) tt
              | inl (_, fine) ↦
                  rw (new, named, in_range, lasting, fits, fine)
                    (new_inner-Ready o duration (new_decoder v w client o).0 words in_range fits)
            ]
          ]
    ]
  ]

  module _ (e : Encoders) (l : EncodersLaws w e) where
    -- A client connection that was created with options that fit their words, whose grant of
    -- connection window fits a WINDOW_UPDATE: `begin` on it succeeds, and from what it has framed a
    -- new server decoder takes the preface and reads exactly the settings of the connection and,
    -- when there is one, the grant.
    pub receive_frames-new :
        (second : ℕ) (o : Options) {h : H2Streams v w}
        → new v w second o ≡ ok h
        → o.role ≡ codes "client"
        → Words o
        → FitsWindow (
            v.unclaimed_capacity
              (v.assign_capacity
                (o.connection_window - default_initial_window_size)
                (open_window v w)).0)
        → let started = begin v o.connection_window h.inner in
          (started.1 ≡ ok tt)
          × (receive_frames w
                (write_frames e default_max_frame_size started.0.pending [])
                (Reader.new w true)
              ≡ (
                record (Reader.new w true) { preface_ok = true },
                ok (
                    settings_event (advertised h.inner.settings.local)
                    ∷ map (seen w) (conn_grant v o.connection_window h.inner)),
              ))
    receive_frames-new second o {h} made named words window =
        let role = ap parse_role named ∙ parse_role-client in
        let ready : Ready h = subst OkReady made (new-OkReady second o words role) in
        receive_frames-begin v w e l o.connection_window h.inner ready.role ready.empty ready.range
          (rw (ready.conn_recv) window)
