-- ===== src/H1/Server/Watch.antt =====
-- src/h1/conn.rs, the mid-message watcher of `H1ServerState`: one parked read per slot.
use httpunk.Prelude.{
  ℕ, Bool, true, false, not, ◌&&◌, ◌||◌, Option, none, some, List, if◌then◌else◌, is_some,
}
use httpunk.H1.Hyper.{Hyper}
use httpunk.H1.Body.{is_empty}
use httpunk.H1.Server.{Inner, Watcher, is_current, arm_decision}

-- What the slot's methods do to the watcher, for both roles.
abbrev pub store_handle : ℕ → Watcher → Watcher
store_handle handle watcher = record watcher { handle = some handle }

-- No bytes: an end of file, or an error.
abbrev pub is_gone : Option (List ℕ) → Bool
is_gone none = true
is_gone (some bytes) = is_empty bytes

module _ (w : Hyper) where
  -- Whether the watcher is to be spawned.
  unfoldable pub arm_watcher : ℕ → ℕ → Bool → Bool → Inner w → Inner w × Bool
  unfolding arm_decision
  arm_watcher seq done want head_negotiated s =
      if is_current w seq s
      then (let (s', unused) = arm_decision w done (record s {
        current = record s.current {
          head_negotiated = s.current.head_negotiated || head_negotiated;
          watch_wanted = s.current.watch_wanted || want;
        };
      }) in
          (s', not (is_some unused)))
      else (s, false)

  -- `some`: refused, the handle comes back.
  unfoldable pub store_watcher_handle : ℕ → Inner w → Inner w × Option ℕ
  store_watcher_handle handle s = if s.closed then (s, some handle) else elim s.watcher [
    | none ↦ (s, some handle)
    | some watcher ↦
        if is_some watcher.handle
        then (s, some handle)
        else (record s { watcher = some (store_handle handle watcher) }, none)
  ]

  -- Whether the client is found gone while the response is in flight.
  unfoldable pub watcher_completed : Option (List ℕ) → Option ℕ → Inner w → Inner w × Bool
  watcher_completed bytes error s = elim s.watcher [
    | none ↦ (s, false)
    | some watcher ↦
        let s' = record s {
          watcher = some (record watcher { bytes = bytes; error = error; completed = true });
        } in
        if is_gone bytes && not s.current.response_done && not s.current.peer_closed
        then (
          record s' { reusable = false; current = record s.current { peer_closed = true } },
          true,
        )
        else (s', false)
  ]

  unfoldable pub watcher_aborted : Inner w → Inner w
  watcher_aborted s = elim s.watcher [
    | none ↦ s
    | some watcher ↦ record s { watcher = some (record watcher { completed = true }) }
  ]

  unfoldable pub take_watcher_handle : Inner w → Inner w × Option ℕ
  take_watcher_handle s = elim s.watcher [
    | none ↦ (s, none)
    | some watcher ↦
        (record s { watcher = some (record watcher { handle = none }) }, watcher.handle)
  ]

  -- The slot is free once its handle was taken.
  unfoldable pub take_watcher_result : Inner w → Inner w × (Option (List ℕ) × Option ℕ)
  take_watcher_result s = elim s.watcher [
    | none ↦ (s, (none, none))
    | some watcher ↦ (
      record s {
        watcher =
            if is_some watcher.handle
            then some (record watcher { bytes = none; error = none })
            else none;
      },
      (watcher.bytes, watcher.error),
    )
  ]
