-- ===== src/H2/Inner/Payload.antt =====
-- The bytes of a stream's DATA frames in the pending buffer.
use httpunk.Prelude.{ℕ, ◌≡◌, refl, ◌∙◌, ap, sym, List, [], ◌∷◌, ◌++◌, ◌==◌, if◌then◌else◌}
use mathlib.Core.List.{append_assoc, append-nil}
use httpunk.H2.Vendor.{Vendor}
use httpunk.H2.Inner.{
  Inner, Frame, headers, data_frame, rst_stream, window_update, go_away, ping, settings_ack,
  settings_frame, client_preface,
}

abbrev pub payload_of : ℕ → List Frame → List ℕ
payload_of k [] = []
payload_of k (data_frame sid bytes end_stream ∷ fs) =
    (if k == sid then bytes else []) ++ payload_of k fs
payload_of k (headers sid end_stream ∷ fs) = payload_of k fs
payload_of k (rst_stream sid reason ∷ fs) = payload_of k fs
payload_of k (window_update sid n ∷ fs) = payload_of k fs
payload_of k (go_away last reason debug_data ∷ fs) = payload_of k fs
payload_of k (ping payload ack ∷ fs) = payload_of k fs
payload_of k (settings_ack ∷ fs) = payload_of k fs
payload_of k (settings_frame values ∷ fs) = payload_of k fs
payload_of k (client_preface ∷ fs) = payload_of k fs

pub payload_of-append :
    (k : ℕ) (fs gs : List Frame) → payload_of k (fs ++ gs) ≡ payload_of k fs ++ payload_of k gs
payload_of-append k [] gs = refl
payload_of-append k (data_frame sid bytes end_stream ∷ fs) gs =
    let own = if k == sid then bytes else [] in
    ap (λ (x : List ℕ). own ++ x) (payload_of-append k fs gs)
    ∙ sym (append_assoc own (payload_of k fs) (payload_of k gs))
payload_of-append k (headers sid end_stream ∷ fs) gs = payload_of-append k fs gs
payload_of-append k (rst_stream sid reason ∷ fs) gs = payload_of-append k fs gs
payload_of-append k (window_update sid n ∷ fs) gs = payload_of-append k fs gs
payload_of-append k (go_away last reason debug_data ∷ fs) gs = payload_of-append k fs gs
payload_of-append k (ping payload ack ∷ fs) gs = payload_of-append k fs gs
payload_of-append k (settings_ack ∷ fs) gs = payload_of-append k fs gs
payload_of-append k (settings_frame values ∷ fs) gs = payload_of-append k fs gs
payload_of-append k (client_preface ∷ fs) gs = payload_of-append k fs gs

-- A frame that is not DATA.
pub payload_of_other :
    (k : ℕ) (fs : List Frame) (f : Frame)
    → payload_of k (f ∷ []) ≡ []
    → payload_of k (fs ++ f ∷ []) ≡ payload_of k fs
payload_of_other k fs f h =
    payload_of-append k fs (f ∷ [])
    ∙ ap (λ (x : List ℕ). payload_of k fs ++ x) h
    ∙ append-nil (payload_of k fs)

module _ (v : Vendor) where
  -- No DATA is queued between two states.
  abbrev pub Quiet : Inner v → Inner v → Type 0
  Quiet s t = (k : ℕ) → payload_of k t.pending ≡ payload_of k s.pending

  pub same-Quiet : (s t : Inner v) → t.pending ≡ s.pending → Quiet s t
  same-Quiet s t p k = ap (payload_of k) p

  pub then-Quiet : (s t u : Inner v) → Quiet s t → Quiet t u → Quiet s u
  then-Quiet s t u p q k = q k ∙ p k
