-- ===== src/H2/Writer/Opening.antt =====
-- A client's first bytes, `begin`, and the server's reader.
use httpunk.Prelude.{
  ℕ, suc, ◌-◌, ◌^◌, ◌<◌, ◌≡◌, refl, ap, ◌∙◌, inl, inr, true, Option, none, some, List, [], ◌∷◌,
  ◌++◌, map, arith, Bool-cases, ltb, length, drop, drop-zero, drop-zero, if◌then◌else◌,
}
use httpunk.H1.Hyper.{h2_preface}
use httpunk.H2.Budget.{default_initial_window_size}
use httpunk.H2.Errors.{Result, ok}
use httpunk.H2.Decoder.{default_max_frame_size}
use httpunk.H2.Vendor.{Vendor}
use httpunk.H2.Inner.{Inner, client, Frame, settings_frame, client_preface}
use httpunk.H2.Inner.Window.Grants.{grant, reclaim_conn_pending}
use httpunk.H2.Inner.Begin.{begin}
use httpunk.H2.Inner.Begin.Ranges.{check_settings_lem}
use httpunk.H2.Inner.Begin.Valid.{greeted, opened, begin_fine}
use httpunk.H2.Wire.{Wire}
use httpunk.H2.Encoders.{Encoders, EncodersLaws, InRange, advertised, settings_len_le}
use httpunk.H2.Assembly.{settings_event}
use httpunk.H2.Reader
use httpunk.H2.Reader.Pieces.{while_open, receive_frames_open}
use httpunk.H2.Reader.Prefixes.{agrees, agrees-append_long, later_than}
use httpunk.H2.Reader.{Reader, drain, receive_frames}
use httpunk.H2.Writer.{write_frames}
use httpunk.H2.Writer.RoundTrip.{AllSendable, seen, write_frames-append, frames_read}

module _ (v : Vendor) (target : ℕ) (s : Inner v) where
  -- The WINDOW_UPDATE that opens the connection window to its target.
  abbrev pub conn_grant : List Frame
  conn_grant =
      let delta = target - default_initial_window_size in
      if ltb 0 delta
      then grant (v.unclaimed_capacity (v.assign_capacity delta s.conn_recv).0)
      else []

  opened_pending :
      s.pending ≡ []
      → s.role ≡ client
      → (opened v target s).pending ≡ client_preface ∷ settings_frame s.settings.local ∷ conn_grant
  opened_pending empty role =
      let delta = target - default_initial_window_size in
      elim (Bool-cases (ltb 0 delta)) [
        | inr small ↦ rw (small, empty, role)
        | inl large ↦
            rw (large)
              (reclaim_conn_pending v (greeted v s) delta (ground arith) ∙ rw (empty, role))
      ]

module _ (w : Wire) (e : Encoders) (l : EncodersLaws w e) where
  -- The decoder of a server that has the preface.
  abbrev pub greeted_reader : Reader w
  greeted_reader = record (Reader.new w true) { preface_ok = true }

  complete_preface :
      (bytes : List ℕ) (d : Reader w)
      → while_open w (h2_preface ++ bytes) d
        ≡ drain w (record d { preface_buf = none; buf = d.buf ++ bytes; preface_ok = true })
  complete_preface bytes d =
      let same : agrees h2_preface h2_preface ≡ true = refl in
      let rest : drop (length h2_preface) (h2_preface ++ bytes) ≡ bytes = drop-zero bytes in
      rw (
        agrees-append_long h2_preface bytes h2_preface (omega arith),
        same,
        later_than h2_preface bytes refl,
        rest,
      )

  receive_frames_preface :
      (bytes : List ℕ)
      → receive_frames w (h2_preface ++ bytes) (Reader.new w true)
        ≡ drain w (record greeted_reader { buf = bytes })
  unfolding Reader.new
  receive_frames_preface bytes =
      receive_frames_open w (h2_preface ++ bytes) (Reader.new w true) refl
      ∙ complete_preface bytes (Reader.new w true)

  preface_read :
      (fs : List Frame)
      → AllSendable default_max_frame_size fs
      → receive_frames w
          (write_frames e default_max_frame_size (client_preface ∷ fs) [])
          (Reader.new w true)
        ≡ (greeted_reader, ok (map (seen w) fs))
  unfolding drain write_frames Reader.new
  preface_read fs h =
      let m = default_max_frame_size in
      let bytes = write_frames e m fs [] in
      let read =
        frames_read w e l m (suc (length bytes)) fs greeted_reader.assembly (omega arith)
          (omega arith) (omega arith) h refl (omega arith) in
      ap (λ (x : List ℕ). receive_frames w x (Reader.new w true))
        (write_frames-append w e l m fs h2_preface)
      ∙ receive_frames_preface bytes
      ∙ rw (drain, read)

-- What the first grant of connection window may be.
abbrev pub FitsWindow : Option ℕ → Type 0
FitsWindow none = Unit
FitsWindow (some n) = (0 < n) × (n < 2 ^ 31)

grant-AllSendable : (m : ℕ) (o : Option ℕ) → FitsWindow o → AllSendable m (grant o)
grant-AllSendable m none h = tt
grant-AllSendable m (some n) h = ((omega arith, h.0, h.1), tt)

module _ (v : Vendor) (w : Wire) (e : Encoders) (l : EncodersLaws w e) where
  conn_grant-AllSendable :
      (target : ℕ) (s : Inner v)
      → FitsWindow (
          v.unclaimed_capacity
            (v.assign_capacity (target - default_initial_window_size) s.conn_recv).0)
      → AllSendable default_max_frame_size (conn_grant v target s)
  conn_grant-AllSendable target s h =
      elim (Bool-cases (ltb 0 (target - default_initial_window_size))) [
        | inl large ↦ rw large (grant-AllSendable default_max_frame_size _ h)
        | inr small ↦ rw small tt
      ]

  -- The first bytes of a client whose settings are in HTTP/2's range and whose grant of connection
  -- window fits a WINDOW_UPDATE: `begin` succeeds, and from what it has framed a new server decoder
  -- takes the preface and reads exactly the client's settings and, when there is one, the grant.
  pub receive_frames-begin :
      (target : ℕ) (s : Inner v)
      → s.role ≡ client
      → s.pending ≡ []
      → InRange s.settings.local
      → FitsWindow (
          v.unclaimed_capacity
            (v.assign_capacity (target - default_initial_window_size) s.conn_recv).0)
      → ((begin v target s).1 ≡ ok tt)
        × (receive_frames w
              (write_frames e default_max_frame_size (begin v target s).0.pending [])
              (Reader.new w true)
            ≡ (
              record (Reader.new w true) { preface_ok = true },
              ok (
                  settings_event (advertised s.settings.local)
                  ∷ map (seen w) (conn_grant v target s)),
            ))
  receive_frames-begin target s role empty range window =
      let fine = begin_fine v target s (check_settings_lem s.settings.local range) in
      let fs = settings_frame s.settings.local ∷ conn_grant v target s in
      let sendable : AllSendable default_max_frame_size fs = (
        (range, omega (arith, settings_len_le s.settings.local)),
        conn_grant-AllSendable target s window,
      ) in
      (
        ap (λ (r : Inner v × Result (Unit {0})). r.1) fine,
        ap
              (λ (r : Inner v × Result (Unit {0})).
                receive_frames w (write_frames e default_max_frame_size r.0.pending [])
                  (Reader.new w true))
              fine
            ∙ ap
                (λ (x : List Frame).
                  receive_frames w (write_frames e default_max_frame_size x []) (Reader.new w true))
                (opened_pending v target s empty role)
            ∙ preface_read w e l fs sendable,
      )
