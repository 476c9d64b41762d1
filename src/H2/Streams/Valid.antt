-- ===== src/H2/Streams/Valid.antt =====
-- What holds of an HTTP/2 connection from its creation on, whatever arrives and is called.
use httpunk.Prelude.{
  ℕ, ◌≡◌, refl, subst, inl, inr, ◌||◌, Option, none, some, List, [], ◌∷◌, arith, Bool-cases,
  Option-cases, ltb,
}
use httpunk.Prelude.Map.{count_if, lookup}
use httpunk.H2.Vendor.{Vendor, VendorLaws}
use httpunk.H2.Errors.{Result, ok, err}
use httpunk.H2.Result.{Result-cases}
use httpunk.H2.Decoder.{Limits}
use httpunk.H2.Settings.{max_window_size}
use httpunk.H2.Decoder.Bounds
use httpunk.H2.Inner.{Role}
use httpunk.H2.Inner.Invariant
use httpunk.H2.Inner.Control.Valid.{recv_settings-IsValid}
use httpunk.H2.Inner.Control.LimitsValid.{recv_settings-Limits}
use httpunk.H2.Inner.Runs.{IsDue, perform-IsValid}
use httpunk.H2.Wire.{Wire}
use httpunk.H2.Reader.Limited.{new-limits, receive_frames-limits, prime-limits}
use httpunk.H2.Streams.{
  H2Streams, Options, StreamsCall, received, primed, settings_received, called, perform_streams,
  perform_all_streams, new, new_inner, new_decoder, parse_role, check_option, convert_duration,
  limit_frame_size, is_server,
}

module _ (v : Vendor) (w : Wire) where
  -- The connection state is well formed, and the decoder's limits are in HTTP/2's range.
  pub record IsValid (h : H2Streams v w) : Type 0 where
    pub inner : Invariant.IsValid v h.inner
    pub limits : Bounds.IsValid h.decoder.assembly.limits

  new_inner-IsValid :
      (role : Role) (o : Options) (duration : ℕ)
      → Invariant.IsValid v (new_inner v w role o duration)
  unfolding new_inner count_if lookup
  new_inner-IsValid role o duration = record {
    distinct = tt;
    active = refl;
    slots = omega arith;
    entries = λ sid. (refl, refl);
  }

  limit_frame_size-IsValid :
      (o : Option ℕ) (d : Limits) → Bounds.IsValid d → Bounds.IsValid (limit_frame_size o d).0
  unfolding limit_frame_size
  limit_frame_size-IsValid none d h = h
  limit_frame_size-IsValid (some n) d h = Bounds.set_max_recv_frame_size-IsValid n d h

  new_decoder-IsValid :
      (role : Role) (o : Options) → Bounds.IsValid (new_decoder v w role o).0.assembly.limits
  unfolding new_decoder
  new_decoder-IsValid role o =
      let fresh = new-limits w (is_server role) in
      Bounds.set_max_header_list_size-IsValid o.max_header_list_size _
        (limit_frame_size-IsValid o.max_frame_size _ fresh)

  abbrev OkIsValid : Result (H2Streams v w) → Type 0
  OkIsValid (ok h) = IsValid h
  OkIsValid (err x) = Unit

  new-OkIsValid : (second : ℕ) (o : Options) → OkIsValid (new v w second o)
  unfolding new
  new-OkIsValid second o = elim (Option-cases (parse_role o.role)) [
    | inl unknown ↦ rw (new, unknown) tt
    | inr (role, named) ↦ elim (Result-cases (check_option o.max_frame_size)) [
      | inr (x, out_of_range) ↦ rw (new, named, out_of_range) tt
      | inl (_, in_range) ↦ elim (Result-cases (convert_duration second o.reset_stream_duration)) [
        | inr (x, odd) ↦ rw (new, named, in_range, odd) tt
        | inl (duration, lasting) ↦
            let wide =
              ltb max_window_size o.initial_window_size
              || ltb max_window_size o.connection_window in
            elim (Bool-cases wide) [
              | inl too_wide ↦ rw (new, named, in_range, lasting, too_wide) tt
              | inr fits ↦ elim (Result-cases (new_decoder v w role o).1) [
                | inr (x, refused) ↦ rw (new, named, in_range, lasting, fits, refused) tt
                | inl (_, fine) ↦
                    rw (new, named, in_range, lasting, fits, fine)
                      (record {
                        inner = new_inner-IsValid role o duration;
                        limits = new_decoder-IsValid role o;
                      })
              ]
            ]
      ]
    ]
  ]

  -- What the driver owes to a call.
  abbrev pub IsStreamsDue : StreamsCall v w → H2Streams v w → Type 0
  IsStreamsDue (called c) h = IsDue v c h.inner
  IsStreamsDue c h = Unit

  abbrev pub AllStreamsDue : List (StreamsCall v w) → H2Streams v w → Type 0
  AllStreamsDue [] h = Unit
  AllStreamsDue (c ∷ cs) h = IsStreamsDue c h × AllStreamsDue cs (perform_streams v w c h)

  module _ (l : VendorLaws v) where
    perform_streams-IsValid :
        (c : StreamsCall v w) (h : H2Streams v w)
        → IsStreamsDue c h
        → IsValid h
        → IsValid (perform_streams v w c h)
    unfolding perform_streams
    perform_streams-IsValid (received bytes) h due p = record {
      inner = p.inner;
      limits = receive_frames-limits w bytes h.decoder p.limits;
    }
    perform_streams-IsValid (primed bytes) h due p = record {
      inner = p.inner;
      limits = prime-limits w bytes h.decoder p.limits;
    }
    perform_streams-IsValid (settings_received f) h due p =
        let d = h.decoder.assembly.limits in
        record {
          inner = recv_settings-IsValid v h.inner d f p.inner;
          limits = recv_settings-Limits v h.inner d f p.limits;
        }
    perform_streams-IsValid (called c) h due p = record {
      inner = perform-IsValid v l c h.inner due p.inner;
      limits = p.limits;
    }

    perform_all_streams-IsValid :
        (cs : List (StreamsCall v w)) (h : H2Streams v w)
        → AllStreamsDue cs h
        → IsValid h
        → IsValid (perform_all_streams v w cs h)
    unfolding perform_all_streams
    perform_all_streams-IsValid [] h due p = p
    perform_all_streams-IsValid (c ∷ cs) h due p =
        perform_all_streams-IsValid cs (perform_streams v w c h) due.1
          (perform_streams-IsValid c h due.0 p)

    -- Whatever arguments a connection is created with, and whatever bytes, frames, settings and
    -- calls that change its state follow in any order, where each stream is opened on a new id and
    -- a slot is given to it or back only while one is claimed that no stream holds: its state is
    -- well formed, and its decoder's limits stay in HTTP/2's range with the cap on CONTINUATION
    -- frames that belongs to them.
    pub new-IsValid :
        (second : ℕ) (o : Options) (cs : List (StreamsCall v w)) {h : H2Streams v w}
        → new v w second o ≡ ok h
        → AllStreamsDue cs h
        → IsValid (perform_all_streams v w cs h)
    new-IsValid second o cs {h} e due =
        perform_all_streams-IsValid cs h due (subst OkIsValid e (new-OkIsValid second o))
