-- ===== src/H2/Inner/Control/LimitsValid.antt =====
-- The decoder's limits stay in HTTP/2's range when our own settings take effect.
use httpunk.Prelude.{ℕ, Bool, Option, none, some, List, if-holds, inl, inr}
use httpunk.H2.Vendor.{Vendor}
use httpunk.H2.Errors.{Result}
use httpunk.H2.Result.{>>=-holds, Result-cases}
use httpunk.H2.Settings
use httpunk.H2.Decoder.{Limits}
use httpunk.H2.Decoder.Bounds.{
  IsValid, set_max_recv_frame_size-IsValid, set_max_header_list_size-IsValid,
  set_recv_header_table_size-IsValid,
}
use httpunk.H2.Inner.{Inner, Flags}
use httpunk.H2.Inner.Control.{
  SettingsFrame, limit_lists, limit_table, limit_frames, apply_local_settings, recv_settings_ack,
  recv_settings,
}

module _ (v : Vendor) where
  limit_lists-IsValid : (o : Option ℕ) (d : Limits) → IsValid d → IsValid (limit_lists v o d)
  unfolding limit_lists
  limit_lists-IsValid none d h = h
  limit_lists-IsValid (some n) d h = set_max_header_list_size-IsValid n d h

  limit_table-IsValid : (o : Option ℕ) (d : Limits) → IsValid d → IsValid (limit_table v o d)
  unfolding limit_table
  limit_table-IsValid none d h = h
  limit_table-IsValid (some n) d h = set_recv_header_table_size-IsValid n d h

  limit_frames-IsValid : (o : Option ℕ) (d : Limits) → IsValid d → IsValid (limit_frames v o d).0
  unfolding limit_frames
  limit_frames-IsValid none d h = h
  limit_frames-IsValid (some n) d h = set_max_recv_frame_size-IsValid n d h

  apply_local_settings-Limits :
      (s : Inner v) (d : Limits) → IsValid d → IsValid (apply_local_settings v (s, d)).0.1
  unfolding apply_local_settings
  apply_local_settings-Limits s d h =
      let local = s.settings.local in
      let framed =
        limit_frames-IsValid local.max_frame_size (limit_table v local.header_table_size d)
          (limit_table-IsValid local.header_table_size d h) in
      elim (Result-cases
        (limit_frames v local.max_frame_size (limit_table v local.header_table_size d)).1) [
          | inr (x, refused) ↦ rw (apply_local_settings, refused) framed
          | inl (_, fine) ↦
              rw (apply_local_settings, fine)
                (limit_lists-IsValid local.max_header_list_size _ framed)
        ]

  recv_settings_ack-Limits :
      (s : Inner v) (d : Limits) → IsValid d → IsValid (recv_settings_ack v (s, d)).0.1
  unfolding recv_settings_ack
  recv_settings_ack-Limits s d h = elim (Result-cases (Settings.recv_ack s.settings).1) [
    | inr (x, unsolicited) ↦ rw (recv_settings_ack, unsolicited) h
    | inl (_, fine) ↦
        rw (recv_settings_ack, fine)
          (>>=-holds (λ t. IsValid t.1) (apply_local_settings v) _ _
            (apply_local_settings-Limits (record s { settings = (Settings.recv_ack s.settings).0 })
              d h)
            (λ _ t k. k))
  ]

  pub recv_settings-Limits :
      (s : Inner v) (d : Limits) (f : SettingsFrame)
      → IsValid d
      → IsValid (recv_settings v f (s, d)).0.1
  unfolding recv_settings
  recv_settings-Limits s d f h =
      if-holds (λ (r : (Inner v × Limits) × Result (Bool × List ℕ × Flags)). IsValid r.0.1) f.ack _
        _ (recv_settings_ack-Limits s d h) h
