-- ===== src/H1/Server/Sound.antt =====
-- What every call on a server connection keeps, and the principles to split its own methods.
pub mod Reads
pub mod Requests
pub mod Responses
pub mod Runs
use httpunk.Prelude.{
  ℕ, ◌+◌, ◌^◌, ◌<◌, ◌≤◌, ◌≡◌, refl, Bool, true, false, not, ◌&&◌, ◌||◌, Option, none, some, List,
  ltb, ◌==◌, if◌then◌else◌, if-holds, if-cases, option-cases, is_some, bit, arith,
}
use httpunk.H1.Hyper.{Hyper}
use httpunk.H1.Body.{BodyDecoder, buffered}
use httpunk.H1.Server.{
  Inner, Watcher, Current, parked_watcher, close_now, give_back, decoder_holds, unwatchable,
  feed_decoder_leftover, arm_decision,
}
use httpunk.H1.Server.Calls.{Seen}

-- How often a number stands in an option.
abbrev pub amount : ℕ → Option ℕ → ℕ
amount k none = 0
amount k (some n) = bit (n == k)

-- The handle that the watcher's slot holds.
abbrev pub held : Option Watcher → Option ℕ
held none = none
held (some watcher) = watcher.handle

-- How far a request is: 0 before it is accepted and until it is marked, 1 once it is marked or
-- another one is current.
unfoldable pub stage : ℕ → ℕ → ℕ → Bool → ℕ
stage seq next current marked =
    if ltb seq next then (if current == seq then bit marked else 1) else 0

-- The response was begun and waits for nothing.
abbrev pub is_settled : {w : Hyper} → Current w → Bool
is_settled c = c.responded && not c.head_pending

module _ (w : Hyper) where
  -- The connection's flags agree with each other and with the transport.
  abbrev pub FlagsAgree : Inner w → Type 0
  FlagsAgree s =
      (bit s.closed + bit s.reusable ≤ 1)
      × ((bit s.upgraded ≤ bit s.closed)
          × ((bit s.upgraded + bit (is_some s.transport) ≤ 1)
              × ((1 ≤ bit s.closed + bit (is_some s.transport))
                  × ((bit s.shutdown_requested + bit s.reusable ≤ 1)
                      × (bit s.current.peer_closed + bit s.reusable ≤ 1)))))

  -- The request's flags come in the order of its life.
  abbrev pub RequestAgrees : Inner w → Type 0
  RequestAgrees s =
      (bit s.current.head_pending ≤ bit s.current.responded)
      × ((bit s.current.head_pending ≤ bit s.current.continue_sent)
          × ((bit s.current.continue_sent ≤ bit s.current.expect_continue)
              × ((bit s.current.continue_sent + bit s.current.http10 ≤ 1)
                  × ((bit s.current.is_switch ≤ bit s.current.head_negotiated)
                      × ((bit s.current.is_switch ≤ bit s.current.responded)
                          × ((bit s.current.keep_alive ≤ bit s.current.responded)
                              × (1
                                  ≤ bit s.current.body_done + bit (is_some s.current.decoder))))))))

  abbrev pub IsValid : Inner w → Type 0
  IsValid s = FlagsAgree s × RequestAgrees s

  -- No flag of the connection's end is taken back.
  abbrev pub Onward : Inner w → Inner w → Type 0
  Onward s s' =
      (bit s.closed ≤ bit s'.closed)
      × ((bit s'.reusable ≤ bit s.reusable)
          × ((bit s.upgraded ≤ bit s'.upgraded)
              × (bit s.shutdown_requested ≤ bit s'.shutdown_requested)))

  -- What is handed out was there before, and a handle is taken as often as it was stored.
  abbrev pub Conserves : ℕ → Inner w → Inner w × Seen → Type 0
  Conserves k s (s', seen) =
      (amount k seen.handed + amount k s'.transport ≡ amount k s.transport)
      × (amount k seen.taken + amount k (held s'.watcher)
          ≡ amount k (held s.watcher) + amount k seen.stored)

  -- While sequence numbers are fresh, the call's marks are new ones.
  abbrev pub Marks : ℕ → Inner w → Inner w × Seen → Type 0
  Marks seq s (s', seen) =
      s.current.seq < s.next_seq
      → s.next_seq + 1 < 2 ^ 64
      → (s'.current.seq < s'.next_seq)
        × ((s'.next_seq ≤ s.next_seq + 1)
            × ((amount seq seen.answered + stage seq s.next_seq s.current.seq (is_settled s.current)
                  ≤ stage seq s'.next_seq s'.current.seq (is_settled s'.current))
                × (amount seq seen.continued
                      + stage seq s.next_seq s.current.seq s.current.continue_sent
                    ≤ stage seq s'.next_seq s'.current.seq s'.current.continue_sent)))

  abbrev pub Sound : ℕ → Inner w → Inner w × Seen → Type 0
  Sound k s (s', seen) =
      IsValid s' × (Onward s s' × (Conserves k s (s', seen) × Marks k s (s', seen)))

  -- The splits of the state's own methods.
  pub close_now-holds :
      (P : Inner w × Option ℕ → Type 0) (s : Inner w)
      → (s.upgraded ≡ true → P (record s { closed = true; reusable = false }, none))
      → (s.upgraded ≡ false
          → P (record s { closed = true; reusable = false; transport = none }, s.transport))
      → P (close_now w s)
  unfolding close_now
  close_now-holds P s p q = if-cases P s.upgraded _ _ p q

  pub feed_decoder_leftover-holds :
      (P : Inner w → Type 0) (s : Inner w)
      → P s
      → ((d : BodyDecoder w) → s.current.decoder ≡ some d → P (give_back w d s))
      → P (feed_decoder_leftover w s)
  unfolding feed_decoder_leftover
  feed_decoder_leftover-holds P s p q =
      option-cases P s.current.decoder s (λ d. if ltb 0 (buffered w d) then give_back w d s else s)
        (λ _. p) (λ d e. if-holds P (ltb 0 (buffered w d)) _ _ (q d e) p)

  pub arm_decision-holds :
      (P : Inner w × Option ℕ → Type 0) (done : ℕ) (s : Inner w)
      → P (s, some done)
      → P (feed_decoder_leftover w s, some done)
      → (unwatchable w s ≡ false → P (record s { watcher = some (parked_watcher done) }, none))
      → P (arm_decision w done s)
  unfolding arm_decision
  arm_decision-holds P done s p q r =
      if-cases P (unwatchable w s) _ _ (λ _. p)
        (λ e. if-cases P (decoder_holds w s) _ _ (λ _. q) (λ _. r e))

-- A new request leaves every stage where it was or moves it on.
pub stage-fresh :
    (seq next current : ℕ) (marked : Bool)
    → current < next
    → stage seq next current marked ≤ stage seq (next + 1) next false
unfolding stage
stage-fresh seq next current marked h = ground (arith, h)

-- A mark counts once, for the request that it is of.
pub stage-mark :
    (seq next current : ℕ)
    → current < next
    → bit (current == seq) + stage seq next current false ≤ stage seq next current true
unfolding stage
stage-mark seq next current h = ground (arith, h)

pub stage-le :
    (seq next current : ℕ) (marked : Bool)
    → stage seq next current marked ≤ stage seq next current true
unfolding stage
stage-le seq next current marked = ground arith

pub stage-bound : (seq next current : ℕ) (marked : Bool) → stage seq next current marked ≤ 1
unfolding stage
stage-bound seq next current marked = ground arith
