-- ===== src/H2/Inner/Control.antt =====
-- src/h2/conn.rs, SETTINGS: `apply_remote_settings`, `apply_local_settings` and `recv_settings`.
pub mod Valid
pub mod LimitsValid
use httpunk.Prelude.{
  ℕ, ◌+◌, ◌-◌, Bool, true, false, not, ◌&&◌, ◌||◌, Option, none, some, List, [], ◌∷◌, ◌++◌, map,
  ltb, leb, ◌==◌, if◌then◌else◌, length, is_some, codes,
}
use httpunk.Prelude.Map.{lookup, insert, keys}
use httpunk.H2.Reason
use httpunk.H2.Settings
use httpunk.H2.Settings.{SettingsValues}
use httpunk.H2.Decoder
use httpunk.H2.Decoder.{Limits}
use httpunk.H2.Vendor.{Vendor}
use httpunk.H2.Errors.{Error, Result, ok, err, map_reason}
use httpunk.H2.Result.{M, ◌>>=◌, ◌>>◌, pure, fail, require, modify, call, from_result}
use httpunk.H2.Inner.{
  StreamEntry, Inner, Role, client, server, Frame, go_away, ping, settings_ack, Stopped, Flags,
  no_flags, ◌|||◌, GoAwayInfo, ConnError,
}
use httpunk.H2.Inner.Store.{is_server, is_dead, protocol_err, goaway_last_stream_id}
use httpunk.H2.Inner.Reset.{abort_each, fail_all}
use httpunk.H2.Inner.Headers.{wake_flag}

-- The first of the results that failed, and the window it left behind.
abbrev or_else : {A : Type 0} → A × Option ℕ → (A → A × Option ℕ) → A × Option ℕ
or_else (a, none) f = f a
or_else (a, some reason) f = (a, some reason)

-- A decoded SETTINGS frame, without the settings that the state does not read.
pub record SettingsFrame : Type 0 where
  pub ack : Bool
  pub header_table_size : Option ℕ
  pub max_frame_size : Option ℕ
  pub max_concurrent_streams : Option ℕ
  pub initial_window_size : Option ℕ

abbrev or_keep : {A : Type 0} → Option A → A → A
or_keep none a = a
or_keep (some a) b = a

module _ (v : Vendor) where
  -- The loop over `streams.values_mut()`, up to the first entry that is refused.
  unfoldable pub adjust_each :
      (StreamEntry v → StreamEntry v × Option ℕ)
      → List (ℕ × StreamEntry v)
      → List (ℕ × StreamEntry v) × Option ℕ
  adjust_each f [] = ([], none)
  adjust_each f ((sid, e) ∷ m) =
      let (e', failure) = f e in
      let (m', later) = adjust_each f m in
      elim failure [ some reason ↦ ((sid, e') ∷ m, some reason) | none ↦ ((sid, e') ∷ m', later) ]

  -- One entry's send window moves by the change of the peer's initial window.
  pub adjust_send : ℕ → ℕ → StreamEntry v → StreamEntry v × Option ℕ
  adjust_send old new_window e =
      if v.is_send_closed e.state
      then (e, none)
      else (let (fc, failure) =
            if leb old new_window
            then or_else (v.inc_window (new_window - old) e.send_flow)
                (v.assign_capacity (new_window - old))
            else or_else (v.dec_send_window (old - new_window) e.send_flow)
                (v.claim_capacity (old - new_window)) in
          (record e { send_flow = fc }, failure))

  pub adjust_recv : ℕ → ℕ → StreamEntry v → StreamEntry v × Option ℕ
  adjust_recv old target e =
      let (fc, failure) =
        if ltb old target
        then or_else (v.inc_window (target - old) e.recv_flow) (v.assign_capacity (target - old))
        else v.dec_recv_window (old - target) e.recv_flow in
      (record e { recv_flow = fc }, failure)

  -- The senders that a larger window wakes.
  grown : List (ℕ × StreamEntry v) → List ℕ
  grown [] = []
  grown ((sid, e) ∷ m) = if v.is_send_closed e.state then grown m else e.handle ∷ grown m

  move_send_windows : ℕ → M (Inner v) (List ℕ)
  unfolding adjust_send grown
  move_send_windows new_window s =
      let old = s.peer.initial_window_size in
      let (m, failure) = adjust_each (adjust_send old new_window) s.streams in
      let s' = record s {
        peer = record s.peer { initial_window_size = new_window };
        streams = m;
      } in
      (
        s',
        elim failure [
          | some reason ↦ err (map_reason reason)
          | none ↦ ok (if leb old new_window then grown s.streams else [])
        ],
      )

  apply_table_size : Option ℕ → Inner v → Inner v
  apply_table_size o s = record s {
    peer = record s.peer { header_table_size = or_keep o s.peer.header_table_size };
  }

  apply_frame_size : Option ℕ → M (Inner v) (Unit {0})
  apply_frame_size none s = (s, ok tt)
  apply_frame_size (some val) s =
      let (limit, r) = Decoder.set_send_max_frame_size val s.send_max_frame_size in
      let s' = record s { send_max_frame_size = limit } in
      elim r [
        | err x ↦ (s', err x)
        | ok _ ↦ (record s' { peer = record s'.peer { max_frame_size = val } }, ok tt)
      ]

  apply_max_streams : Option ℕ → Inner v → Inner v × Flags
  apply_max_streams none s = (s, no_flags)
  apply_max_streams (some n) s =
      let s' = record s { peer = record s.peer { max_concurrent_streams = some n } } in
      if is_server s.role
      then (s', no_flags)
      else (record s' { stream_limit = some n }, record no_flags { slot_freed = true })

  apply_window : Option ℕ → M (Inner v) (List ℕ)
  unfolding move_send_windows
  apply_window none s = (s, ok [])
  apply_window (some new_window) s =
      if new_window == s.peer.initial_window_size
      then (s, ok [])
      else move_send_windows new_window s

  pub apply_remote_settings : SettingsFrame → M (Inner v) (List ℕ × Flags)
  unfolding apply_table_size apply_frame_size apply_max_streams apply_window
  apply_remote_settings f = do
    modify (apply_table_size f.header_table_size)
    apply_frame_size f.max_frame_size
    flags ← call (apply_max_streams f.max_concurrent_streams)
    woken ← apply_window f.initial_window_size
    pure (woken, flags)

  -- Our own windows, once the peer acknowledged them.
  move_recv_windows : Option ℕ → M (Inner v) (Unit {0})
  unfolding adjust_recv
  move_recv_windows none s = (s, ok tt)
  move_recv_windows (some target) s =
      let old = s.recv_init in
      let s' = record s { recv_init = target } in
      if target == old
      then (s', ok tt)
      else (let (m, failure) = adjust_each (adjust_recv old target) s.streams in
          (
            record s' { streams = m },
            elim failure [ some reason ↦ err (map_reason reason) | none ↦ ok tt ],
          ))

  limit_lists : Option ℕ → Limits → Limits
  limit_lists none d = d
  limit_lists (some n) d = Decoder.set_max_header_list_size n d

  limit_table : Option ℕ → Limits → Limits
  limit_table none d = d
  limit_table (some n) d = Decoder.set_recv_header_table_size n d

  limit_frames : Option ℕ → Limits → Limits × Result (Unit {0})
  limit_frames none d = (d, ok tt)
  limit_frames (some n) d = Decoder.set_max_recv_frame_size n d

  -- The decoder's limits, then the stream windows.
  pub apply_local_settings : M (Inner v × Limits) (Unit {0})
  unfolding limit_table limit_frames limit_lists move_recv_windows
  apply_local_settings (s, d) =
      let local = s.settings.local in
      let (d', r) = limit_frames local.max_frame_size (limit_table local.header_table_size d) in
      elim r [
        | err x ↦ ((s, d'), err x)
        | ok _ ↦
            let (s', r') = move_recv_windows local.initial_window_size s in
            ((s', limit_lists local.max_header_list_size d'), r')
      ]

  -- The peer's settings, applied behind the queued ACK.
  recv_remote_settings : SettingsFrame → M (Inner v) (Bool × List ℕ × Flags)
  recv_remote_settings f s =
      let before = length s.pending in
      (do
        modify (λ s. record s { pending = s.pending ++ settings_ack ∷ [] })
        initial ← call (λ s.
            let (t, initial) = Settings.recv_remote s.settings in
            (record s { settings = t }, initial))
        (woken, flags) ← apply_remote_settings f
        s ← call (λ s. (s, s))
        pure (initial, woken, flags ||| wake_flag v s before))
        s

  recv_settings_ack : M (Inner v × Limits) (Bool × List ℕ × Flags)
  recv_settings_ack (s, d) =
      let (t, r) = Settings.recv_ack s.settings in
      let s' = record s { settings = t } in
      elim r [
        | err x ↦ ((s', d), err x)
        | ok _ ↦ (apply_local_settings >> pure (false, [], no_flags)) (s', d)
      ]

  pub recv_settings : SettingsFrame → M (Inner v × Limits) (Bool × List ℕ × Flags)
  unfolding recv_settings_ack recv_remote_settings
  recv_settings f (s, d) =
      if f.ack
      then recv_settings_ack (s, d)
      else (let (s', r) = recv_remote_settings f s in ((s', d), r))
