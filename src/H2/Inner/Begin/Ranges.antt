-- ===== src/H2/Inner/Begin/Ranges.antt =====
-- The checks of `encode_settings` and HTTP/2's ranges.
use httpunk.Prelude.{ℕ, ◌≤◌, ◌<◌, ◌^◌, ◌≡◌, refl, false, Option, none, some, arith, ltb}
use httpunk.H2.Errors.{ok}
use httpunk.H2.Settings.{SettingsValues, max_window_size}
use httpunk.H2.Decoder.{check_max_frame_size}
use httpunk.H2.Inner.Begin.{check_window, check_given, check_settings}
use httpunk.H2.Encoders.{Given, InRange}

check_frame_size_lem :
    (o : Option ℕ)
    → Given (λ n. (2 ^ 14 ≤ n) × (n < 2 ^ 24)) o
    → check_given check_max_frame_size o ≡ ok tt
unfolding check_max_frame_size
check_frame_size_lem none h = refl
check_frame_size_lem (some n) h = ground (arith, h.0, h.1)

check_window_lem : (o : Option ℕ) → Given (λ n. n < 2 ^ 31) o → check_given check_window o ≡ ok tt
unfolding check_window
check_window_lem none h = refl
check_window_lem (some n) h =
    let fits : ltb max_window_size n ≡ false = ground (arith, h) in rw (check_window, fits)

pub check_settings_lem : (s : SettingsValues) → InRange s → check_settings s ≡ ok tt
unfolding check_settings
check_settings_lem s h = rw (
  check_settings,
  check_frame_size_lem s.max_frame_size h.max_frame_size,
  check_window_lem s.initial_window_size h.initial_window_size,
)
