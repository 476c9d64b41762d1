-- ===== src/H1/Client/Runs.antt =====
-- Any sequence of calls on a client connection: one exchange at a time, one owner of the
-- transport and of the watcher's handle, and the first error kept.
use httpunk.Prelude.{ℕ, ◌+◌, ◌≡◌, refl, true, Option, none, some, List, [], ◌∷◌, bit, arith}
use httpunk.H1.Hyper.{Hyper}
use httpunk.H1.Codec.{Codec}
use httpunk.H1.Server.Sound.{amount, held}
use httpunk.H1.Server
use httpunk.H1.Client.{ClientInner, watch_handoff, new, watcher_completed, take_watcher_handoff}
use httpunk.H1.Client.Calls.{ClientSeen, ClientCall, step, run}
use httpunk.H1.Client.Sound.{IsValid, step-Sound}

abbrev pub total : (ClientSeen → ℕ) → List ClientSeen → ℕ
total f [] = 0
total f (seen ∷ more) = f seen + total f more

module _ (w : Hyper) where
  client_new-IsValid : (codec : Codec w) (transport : ℕ) → IsValid w (new w codec transport)
  unfolding new
  client_new-IsValid codec transport = ground arith

  -- What the connection is left with after any calls.
  abbrev pub Accounted : ℕ → ClientInner w → ClientInner w × List ClientSeen → Type 0
  Accounted k s (s', seen) =
      (total (λ one. amount k one.handed) seen + amount k s'.transport ≡ amount k s.transport)
      × (total (λ one. amount k one.taken) seen + amount k (held s'.watcher)
          ≡ amount k (held s.watcher) + total (λ one. amount k one.stored) seen)

  pub client-run-IsValid :
      (cs : List (ClientCall w)) (s : ClientInner w) → IsValid w s → IsValid w (run w cs s).0
  unfolding run
  client-run-IsValid [] s v = v
  client-run-IsValid (c ∷ cs) s v = client-run-IsValid cs (step w c s).0 (step-Sound w 0 c s v).0

  -- Over any sequence of calls on a well-formed client connection the exchanges that were claimed
  -- are those that were released and the one that holds the slot, if any.
  pub exchanges-run :
      (cs : List (ClientCall w)) (s : ClientInner w)
      → IsValid w s
      → total (λ one. bit one.released) (run w cs s).1 + bit (run w cs s).0.busy
        ≡ bit s.busy + total (λ one. bit one.claimed) (run w cs s).1
  unfolding run
  exchanges-run [] s v = omega arith
  exchanges-run (c ∷ cs) s v =
      let first = step-Sound w 0 c s v in
      omega (arith, first.1.1.1.0, exchanges-run cs (step w c s).0 first.0)

  -- Over any sequence of calls on a well-formed client connection the transport is handed out as
  -- often as it stops being held, and each watcher's handle is taken or still held exactly as often
  -- as it was stored.
  pub Accounted-run :
      (cs : List (ClientCall w)) (s : ClientInner w) (k : ℕ)
      → IsValid w s
      → Accounted k s (run w cs s)
  unfolding run
  Accounted-run [] s k v = (omega arith, omega arith)
  Accounted-run (c ∷ cs) s k v =
      let first = step-Sound w k c s v in
      let rest = Accounted-run cs (step w c s).0 k first.0 in
      (omega (arith, first.1.1.1.1.0, rest.0), omega (arith, first.1.1.1.1.1, rest.1))

  -- The first error that a well-formed client connection stores is the one it has after any
  -- sequence of calls.
  pub error-run :
      (cs : List (ClientCall w)) (s : ClientInner w) (e : ℕ)
      → IsValid w s
      → s.error ≡ some e
      → (run w cs s).0.error ≡ some e
  unfolding run
  error-run [] s e v h = h
  error-run (c ∷ cs) s e v h =
      let first = step-Sound w e c s v in
      error-run cs (step w c s).0 e first.0 (ground (arith, first.1.1.0, h))

  -- In an active exchange the parked read's bytes and error are handed off as they came, with the
  -- watcher's handle, and the slot is free.
  pub take_watcher_handoff-watcher_completed :
      (watcher : Server.Watcher) (bytes : Option (List ℕ)) (error : Option ℕ) (s : ClientInner w)
      → s.watcher ≡ some watcher
      → s.exchange_active ≡ true
      → let (s1, verdict) = watcher_completed w bytes error s in
        let (s2, outcome) = take_watcher_handoff w s1 in
        (verdict ≡ (watch_handoff, none))
        × ((outcome ≡ (watcher.handle, (bytes, error))) × (s2.watcher ≡ none))
  unfolding watcher_completed take_watcher_handoff
  take_watcher_handoff-watcher_completed watcher bytes error s h active =
      rw (h, active) (refl, (refl, refl))
