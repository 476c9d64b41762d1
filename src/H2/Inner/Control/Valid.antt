-- ===== src/H2/Inner/Control/Valid.antt =====
-- SETTINGS keep `Inner` well formed, on every branch, errors included.
use httpunk.Prelude.{
  ℕ, ◌≡◌, refl, Bool, Option, none, some, List, [], ◌∷◌, arith, count, Option-cases, Bool-cases,
  ◌⊎◌, subst, inl, inr, if-holds, ◌==◌,
}
use httpunk.Prelude.Map.{lookup, count_if, Distinct}
use httpunk.H2.Vendor.{Vendor}
use httpunk.H2.Errors.{Result}
use httpunk.H2.Result.{M, ◌>>=◌, Keeps, >>=-Keeps, >>=-holds, modify, Result-cases, call, pure}
use httpunk.H2.Inner.{StreamEntry, Inner, Flags}
use httpunk.H2.Inner.Invariant.{is_active, has_slot, IsValid, StoreValid, EntryValid}
use httpunk.H2.Decoder
use httpunk.H2.Settings
use httpunk.H2.Inner.Store.{is_server}
use httpunk.H2.Decoder.{Limits}
use httpunk.H2.Inner.Control.{
  adjust_each, adjust_send, adjust_recv, apply_table_size, move_send_windows, apply_frame_size,
  apply_max_streams, apply_window, SettingsFrame, apply_remote_settings, move_recv_windows,
  limit_frames, limit_table, apply_local_settings, recv_remote_settings, recv_settings_ack,
  recv_settings,
}

module _ (v : Vendor) where
  -- The entry changes in its windows only.
  abbrev Adjusts : (StreamEntry v → StreamEntry v × Option ℕ) → Type 0
  Adjusts f =
      (e : StreamEntry v)
      → (f e).0 ≡ record e { send_flow = (f e).0.send_flow; recv_flow = (f e).0.recv_flow }

  adjust_send-Adjusts : (old new_window : ℕ) → Adjusts (adjust_send v old new_window)
  unfolding adjust_send
  adjust_send-Adjusts old new_window e = ground arith

  adjust_recv-Adjusts : (old target : ℕ) → Adjusts (adjust_recv v old target)
  unfolding adjust_recv
  adjust_recv-Adjusts old target e = refl

  module _ (f : StreamEntry v → StreamEntry v × Option ℕ) (g : Adjusts f) where
    lookup-adjust_each :
        (k : ℕ) (m : List (ℕ × StreamEntry v))
        → (lookup k (adjust_each v f m).0 ≡ lookup k m)
          ⊎ ((e : StreamEntry v) × (lookup k m ≡ some e)
              × (lookup k (adjust_each v f m).0 ≡ some (f e).0))
    unfolding adjust_each lookup
    lookup-adjust_each k [] = inl refl
    lookup-adjust_each k ((sid, e) ∷ m) = elim (Bool-cases (sid == k)) [
      | inl here ↦ inr (e, ground arith, ground arith)
      | inr there ↦ elim (Option-cases (f e).1) [
        | inr (reason, stopped) ↦ inl (ground arith)
        | inl fine ↦ elim (lookup-adjust_each k m) [
          | inl same ↦ inl (ground arith)
          | inr (x, p, q) ↦ inr (x, ground arith, ground arith)
        ]
      ]
    ]

    count_if-adjust_each :
        (p : StreamEntry v → Bool)
        → ((e : StreamEntry v) → p (f e).0 ≡ p e)
        → (m : List (ℕ × StreamEntry v)) → count_if p (adjust_each v f m).0 ≡ count_if p m
    unfolding adjust_each count_if
    count_if-adjust_each p q [] = refl
    count_if-adjust_each p q ((sid, e) ∷ m) = ground (arith, q e, count_if-adjust_each p q m)

    entries-adjust_each :
        (k a b : ℕ) (m : List (ℕ × StreamEntry v))
        → EntryValid v (lookup k m) a b
        → EntryValid v (lookup k (adjust_each v f m).0) a b
    entries-adjust_each k a b m h = elim (lookup-adjust_each k m) [
      | inl same ↦ rw same h
      | inr (e, p, q) ↦
          let old : EntryValid v (some e) a b = subst (λ o. EntryValid v o a b) p h in
          rw q (ground (arith, g e, old))
    ]

    Distinct-adjust_each :
        (m : List (ℕ × StreamEntry v)) → Distinct m → Distinct (adjust_each v f m).0
    unfolding adjust_each
    Distinct-adjust_each [] d = tt
    Distinct-adjust_each ((sid, e) ∷ m) d =
        ground (arith, Distinct-adjust_each m, lookup-adjust_each sid m)

    adjust_each-StoreValid :
        (m : List (ℕ × StreamEntry v)) (active open_streams : ℕ) (sends waits : List ℕ)
        → StoreValid v m active open_streams sends waits
        → StoreValid v (adjust_each v f m).0 active open_streams sends waits
    adjust_each-StoreValid m active open_streams sends waits h = record {
      distinct = Distinct-adjust_each m h.distinct;
      active = rw (count_if-adjust_each (is_active v) (λ e. ground (arith, g e)) m) h.active;
      slots = rw (count_if-adjust_each (has_slot v) (λ e. ground (arith, g e)) m) h.slots;
      entries = λ j. entries-adjust_each j (count j sends) (count j waits) m (h.entries j);
    }

  move_send_windows-Keeps : (n : ℕ) → Keeps (IsValid v) (move_send_windows v n)
  unfolding move_send_windows
  move_send_windows-Keeps n s h =
      adjust_each-StoreValid (adjust_send v s.peer.initial_window_size n)
        (adjust_send-Adjusts s.peer.initial_window_size n) s.streams _ _ _ _ h

  apply_window-Keeps : (o : Option ℕ) → Keeps (IsValid v) (apply_window v o)
  unfolding apply_window
  apply_window-Keeps none s h = h
  apply_window-Keeps (some n) s h = elim (Bool-cases (n == s.peer.initial_window_size)) [
    | inl equal ↦ rw equal h
    | inr new_one ↦ rw new_one (move_send_windows-Keeps n s h)
  ]

  apply_table_size-IsValid :
      (o : Option ℕ) (s : Inner v) → IsValid v s → IsValid v (apply_table_size v o s)
  unfolding apply_table_size
  apply_table_size-IsValid o s h = h

  apply_frame_size-Keeps : (o : Option ℕ) → Keeps (IsValid v) (apply_frame_size v o)
  unfolding apply_frame_size
  apply_frame_size-Keeps none s h = h
  apply_frame_size-Keeps (some n) s h =
      elim (Result-cases (Decoder.set_send_max_frame_size n s.send_max_frame_size).1) [
        | inl (_, fine) ↦ rw (apply_frame_size, fine) h
        | inr (x, out_of_range) ↦ rw (apply_frame_size, out_of_range) h
      ]

  apply_max_streams-IsValid :
      (o : Option ℕ) (s : Inner v) → IsValid v s → IsValid v (apply_max_streams v o s).0
  unfolding apply_max_streams
  apply_max_streams-IsValid none s h = h
  apply_max_streams-IsValid (some n) s h = elim (Bool-cases (is_server s.role)) [
    | inl yes_server ↦ rw yes_server h
    | inr client_side ↦ rw client_side h
  ]

  apply_remote_settings-Keeps : (f : SettingsFrame) → Keeps (IsValid v) (apply_remote_settings v f)
  unfolding apply_remote_settings
  apply_remote_settings-Keeps f =
      let B = List ℕ × Flags in
      let P = IsValid v in
      let answer : Flags → List ℕ → M (Inner v) B = λ flags woken. pure (woken, flags) in
      let windows : Flags → M (Inner v) B =
        λ flags. apply_window v f.initial_window_size >>= answer flags in
      let streams : M (Inner v) B =
        call (apply_max_streams v f.max_concurrent_streams) >>= windows in
      >>=-Keeps {B = B} P (modify (apply_table_size v f.header_table_size))
        (λ _. apply_frame_size v f.max_frame_size >>= λ _. streams)
        (apply_table_size-IsValid f.header_table_size)
        λ _.
          >>=-Keeps {B = B} P (apply_frame_size v f.max_frame_size) (λ _. streams)
            (apply_frame_size-Keeps f.max_frame_size)
            λ _.
              >>=-Keeps {B = B} P (call (apply_max_streams v f.max_concurrent_streams)) windows
                (apply_max_streams-IsValid f.max_concurrent_streams)
                λ flags.
                  >>=-Keeps {B = B} P (apply_window v f.initial_window_size) (answer flags)
                    (apply_window-Keeps f.initial_window_size) (λ _ t k. k)

  recv_remote_settings-Keeps : (f : SettingsFrame) → Keeps (IsValid v) (recv_remote_settings v f)
  unfolding recv_remote_settings
  recv_remote_settings-Keeps f s h =
      >>=-holds (IsValid v) (apply_remote_settings v f) _ _ (apply_remote_settings-Keeps f _ h)
        (λ _ t k. k)

  move_recv_windows-Keeps : (o : Option ℕ) → Keeps (IsValid v) (move_recv_windows v o)
  unfolding move_recv_windows
  move_recv_windows-Keeps none s h = h
  move_recv_windows-Keeps (some n) s h = elim (Bool-cases (n == s.recv_init)) [
    | inl equal ↦ rw equal h
    | inr new_one ↦ rw new_one (
        adjust_each-StoreValid (adjust_recv v s.recv_init n) (adjust_recv-Adjusts s.recv_init n)
          s.streams _ _ _ _ h)
  ]

  apply_local_settings-IsValid :
      (s : Inner v) (d : Limits) → IsValid v s → IsValid v (apply_local_settings v (s, d)).0.0
  unfolding apply_local_settings
  apply_local_settings-IsValid s d h =
      elim (Result-cases
        (limit_frames v s.settings.local.max_frame_size
          (limit_table v s.settings.local.header_table_size d)).1) [
            | inl (_, fine) ↦
                rw (apply_local_settings, fine)
                  (move_recv_windows-Keeps s.settings.local.initial_window_size s h)
            | inr (x, out_of_range) ↦ rw (apply_local_settings, out_of_range) h
          ]

  recv_settings_ack-IsValid :
      (s : Inner v) (d : Limits) → IsValid v s → IsValid v (recv_settings_ack v (s, d)).0.0
  unfolding recv_settings_ack
  recv_settings_ack-IsValid s d h = elim (Result-cases (Settings.recv_ack s.settings).1) [
    | inl (_, fine) ↦
        rw (recv_settings_ack, fine)
          (>>=-holds (λ t. IsValid v t.0) (apply_local_settings v) _ _
            (apply_local_settings-IsValid (record s { settings = (Settings.recv_ack s.settings).0 })
              d h)
            (λ _ t k. k))
    | inr (x, unsolicited) ↦ rw (recv_settings_ack, unsolicited) h
  ]

  -- A SETTINGS frame or its ACK keeps the connection state well formed, also where a stream's
  -- window refuses the change halfway.
  pub recv_settings-IsValid :
      (s : Inner v) (d : Limits) (f : SettingsFrame)
      → IsValid v s
      → IsValid v (recv_settings v f (s, d)).0.0
  unfolding recv_settings
  recv_settings-IsValid s d f h =
      if-holds (λ (r : (Inner v × Limits) × Result (Bool × List ℕ × Flags)). IsValid v r.0.0) f.ack
        _ _ (recv_settings_ack-IsValid s d h) (recv_remote_settings-Keeps f s h)
