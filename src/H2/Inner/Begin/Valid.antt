-- ===== src/H2/Inner/Begin/Valid.antt =====
-- The start of the handshake and the stream store.
use httpunk.Prelude.{ℕ, ◌-◌, ◌≡◌, ap, List, if◌then◌else◌, inl, inr, ltb, [], ◌∷◌, ◌++◌, Bool-cases}
use httpunk.H2.Budget.{default_initial_window_size}
use httpunk.H2.Errors.{Result, ok, err}
use httpunk.H2.Settings.{SettingsValues, mark_sent}
use httpunk.H2.Vendor.{Vendor}
use httpunk.H2.Inner.{Inner, Frame, settings_frame}
use httpunk.H2.Inner.Invariant.{IsValid, same-IsValid}
use httpunk.H2.Inner.Window.{reclaim_conn}
use httpunk.H2.Inner.Window.Valid.{reclaim_conn-SameStore}
use httpunk.H2.Inner.Begin.{begin, go_on, check_settings, encode_settings, preface_of}

module _ (values : SettingsValues) (dst : List Frame) where
  encode_settings_fine :
      check_settings values ≡ ok tt
      → encode_settings values dst ≡ (dst ++ settings_frame values ∷ [], ok tt)
  unfolding encode_settings
  encode_settings_fine fine = rw (encode_settings, fine)

module _ (v : Vendor) where
  -- With the preface and the SETTINGS queued.
  abbrev pub greeted : Inner v → Inner v
  greeted s = record s {
    pending = (s.pending ++ preface_of s.role) ++ settings_frame s.settings.local ∷ [];
    settings = mark_sent s.settings;
  }

  -- And with the connection window opened to its target.
  abbrev pub opened : ℕ → Inner v → Inner v
  opened target s =
      let delta = target - default_initial_window_size in
      if ltb 0 delta then reclaim_conn v (greeted s) delta else greeted s

  pub begin_fine :
      (target : ℕ) (s : Inner v)
      → check_settings s.settings.local ≡ ok tt
      → begin v target s ≡ (opened target s, ok tt)
  unfolding begin
  begin_fine target s fine =
      ap (go_on v target s)
        (encode_settings_fine s.settings.local (s.pending ++ preface_of s.role) fine)

  go_on-IsValid :
      (target : ℕ) (s : Inner v) (r : List Frame × Result (Unit {0}))
      → IsValid v s
      → IsValid v (go_on v target s r).0
  go_on-IsValid target s (pending, err x) h = h
  go_on-IsValid target s (pending, ok _) h =
      let sent = record s { pending = pending; settings = mark_sent s.settings } in
      let delta = target - default_initial_window_size in
      elim (Bool-cases (ltb 0 delta)) [
        | inr small ↦ rw small h
        | inl large ↦
            rw large
              (same-IsValid v s (reclaim_conn v sent delta) (reclaim_conn-SameStore v sent delta) h)
      ]

  pub begin-IsValid : (target : ℕ) (s : Inner v) → IsValid v s → IsValid v (begin v target s).0
  unfolding begin
  begin-IsValid target s h =
      go_on-IsValid target s (encode_settings s.settings.local (s.pending ++ preface_of s.role)) h
