-- ===== src/Examples/StubSettings.antt =====
-- The payload of a SETTINGS frame after RFC 9113: an identifier and a value for each setting.
use httpunk.Prelude.{
  ℕ, ◌+◌, ◌*◌, ◌/◌, ◌%◌, ◌^◌, ◌≤◌, ◌<◌, ◌≡◌, refl, ◌∙◌, Bool, true, false, Option, none, some, List,
  [], ◌∷◌, arith, ◌==◌, if◌then◌else◌, length, bit,
}
use httpunk.H2.Settings.{SettingsValues}
use httpunk.H2.Wire.{LoadedSettings}
use httpunk.H2.Encoders.{advertised, Given, InRange, entry_len, settings_len}

abbrev pub word : ℕ → List ℕ → List ℕ
word n rest = (n / 16777216) ∷ (n / 65536 % 256) ∷ (n / 256 % 256) ∷ (n % 256) ∷ rest

abbrev pub number : ℕ → ℕ → ℕ → ℕ → ℕ
number a b c d = a * 16777216 + b * 65536 + c * 256 + d

pub number_word :
    (n : ℕ) → n < 2 ^ 32 → number (n / 16777216) (n / 65536 % 256) (n / 256 % 256) (n % 256) ≡ n
number_word n h = omega arith

abbrev entry : ℕ → Option ℕ → List ℕ → List ℕ
entry id none rest = rest
entry id (some n) rest = 0 ∷ id ∷ word n rest

abbrev push_entry : Option Bool → List ℕ → List ℕ
push_entry none rest = rest
push_entry (some b) rest = 0 ∷ 2 ∷ word (bit b) rest

abbrev pub entries : SettingsValues → List ℕ
entries s = entry 1 s.header_table_size (
    push_entry s.enable_push (
      entry 3 s.max_concurrent_streams (
        entry 4 s.initial_window_size
          (entry 5 s.max_frame_size (entry 6 s.max_header_list_size [])))))

length-entry :
    (id : ℕ) (o : Option ℕ) (rest : List ℕ) → length (entry id o rest) ≡ entry_len o + length rest
length-entry id none rest = omega arith
length-entry id (some n) rest = omega arith

length-push_entry :
    (o : Option Bool) (rest : List ℕ) → length (push_entry o rest) ≡ entry_len o + length rest
length-push_entry none rest = omega arith
length-push_entry (some b) rest = omega arith

pub length-entries : (s : SettingsValues) → length (entries s) ≡ settings_len s
length-entries s =
    let e6 = entry 6 s.max_header_list_size [] in
    let e5 = entry 5 s.max_frame_size e6 in
    let e4 = entry 4 s.initial_window_size e5 in
    let e3 = entry 3 s.max_concurrent_streams e4 in
    let e2 = push_entry s.enable_push e3 in
    omega (
      arith,
      length-entry 1 s.header_table_size e2,
      length-push_entry s.enable_push e3,
      length-entry 3 s.max_concurrent_streams e4,
      length-entry 4 s.initial_window_size e5,
      length-entry 5 s.max_frame_size e6,
      length-entry 6 s.max_header_list_size [],
    )

abbrev values : Option ℕ → Option Bool → Option ℕ → Option ℕ → Option ℕ → Option ℕ → LoadedSettings
values table push streams window frame lists = advertised (record {
  header_table_size = table;
  enable_push = push;
  max_concurrent_streams = streams;
  initial_window_size = window;
  max_frame_size = frame;
  max_header_list_size = lists;
})

abbrev pub nothing : LoadedSettings
nothing = values none none none none none none

abbrev set_value : ℕ → ℕ → LoadedSettings → LoadedSettings
set_value id n f =
    if id == 1
    then record f { applied = record f.applied { header_table_size = some n } }
    else if id == 2
    then record f { is_push_enabled = some (n == 1) }
    else if id == 3
    then record f { applied = record f.applied { max_concurrent_streams = some n } }
    else if id == 4
    then record f { applied = record f.applied { initial_window_size = some n } }
    else if id == 5
    then record f { applied = record f.applied { max_frame_size = some n } }
    else if id == 6
    then record f { max_header_list_size = some n }
    else f

abbrev pub load_entries : LoadedSettings → List ℕ → Option LoadedSettings
load_entries f [] = some f
load_entries f (x ∷ id ∷ a ∷ b ∷ c ∷ d ∷ rest) = load_entries (set_value id (number a b c d) f) rest
load_entries f other = none

-- An entry that is there sets its value.
load_entry :
    (id : ℕ) (f : LoadedSettings) (n : ℕ) (rest : List ℕ)
    → n < 2 ^ 32
    → load_entries f (entry id (some n) rest) ≡ load_entries (set_value id n f) rest
load_entry id f n rest h = rw (number_word n h)

module _ (rest : List ℕ) where
  load_1 :
      (t : Option ℕ)
      → Given (λ n. n < 2 ^ 32) t
      → load_entries nothing (entry 1 t rest)
        ≡ load_entries (values t none none none none none) rest
  load_1 none h = refl
  load_1 (some n) h = load_entry 1 nothing n rest h

  load_2 :
      (t : Option ℕ) (p : Option Bool)
      → load_entries (values t none none none none none) (push_entry p rest)
        ≡ load_entries (values t p none none none none) rest
  load_2 t none = refl
  load_2 t (some true) = refl
  load_2 t (some false) = refl

  load_3 :
      (t : Option ℕ) (p : Option Bool) (c : Option ℕ)
      → Given (λ n. n < 2 ^ 32) c
      → load_entries (values t p none none none none) (entry 3 c rest)
        ≡ load_entries (values t p c none none none) rest
  load_3 t p none h = refl
  load_3 t p (some n) h = load_entry 3 (values t p none none none none) n rest h

  load_4 :
      (t : Option ℕ) (p : Option Bool) (c i : Option ℕ)
      → Given (λ n. n < 2 ^ 31) i
      → load_entries (values t p c none none none) (entry 4 i rest)
        ≡ load_entries (values t p c i none none) rest
  load_4 t p c none h = refl
  load_4 t p c (some n) h = load_entry 4 (values t p c none none none) n rest (omega arith)

  load_5 :
      (t : Option ℕ) (p : Option Bool) (c i m : Option ℕ)
      → Given (λ n. (2 ^ 14 ≤ n) × (n < 2 ^ 24)) m
      → load_entries (values t p c i none none) (entry 5 m rest)
        ≡ load_entries (values t p c i m none) rest
  load_5 t p c i none h = refl
  load_5 t p c i (some n) h = load_entry 5 (values t p c i none none) n rest (omega (arith, h.1))

  load_6 :
      (t : Option ℕ) (p : Option Bool) (c i m l : Option ℕ)
      → Given (λ n. n < 2 ^ 32) l
      → load_entries (values t p c i m none) (entry 6 l rest)
        ≡ load_entries (values t p c i m l) rest
  load_6 t p c i m none h = refl
  load_6 t p c i m (some n) h = load_entry 6 (values t p c i m none) n rest h

pub load_entries_lem :
    (s : SettingsValues) → InRange s → load_entries nothing (entries s) ≡ some (advertised s)
load_entries_lem s h =
    let t = s.header_table_size in
    let p = s.enable_push in
    let c = s.max_concurrent_streams in
    let i = s.initial_window_size in
    let m = s.max_frame_size in
    let l = s.max_header_list_size in
    let e6 = entry 6 l [] in
    let e5 = entry 5 m e6 in
    let e4 = entry 4 i e5 in
    let e3 = entry 3 c e4 in
    load_1 (push_entry p e3) t h.header_table_size
    ∙ load_2 e3 t p
    ∙ load_3 e4 t p c h.max_concurrent_streams
    ∙ load_4 e5 t p c i h.initial_window_size
    ∙ load_5 e6 t p c i m h.max_frame_size
    ∙ load_6 [] t p c i m l h.max_header_list_size
