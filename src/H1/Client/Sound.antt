-- ===== src/H1/Client/Sound.antt =====
-- What every sequence of calls on a client connection keeps.
use httpunk.Prelude.{ℕ, ◌+◌, ◌≤◌, ◌≡◌, is_some, bit, arith}
use httpunk.H1.Hyper.{Hyper}
use httpunk.H1.Client.{
  ClientInner, close_now, try_begin_exchange, end_exchange, exchange_started, fail, finish_exchange,
  mark_closed, upgrade, store_writer, take_writer, writer_done, set_peer_http10, arm_watcher,
  store_watcher_handle, watcher_aborted, watcher_completed, completed_idle, take_watcher_handle,
  take_watcher_handoff, take_watcher_result,
}
use httpunk.H1.Client.Calls.{
  ClientSeen, ClientCall, begin_exchange, exchange_ended, exchange_begun, failed_with, closed_now,
  exchange_finished, closing, upgraded_to, writer_stored, writer_taken, writer_ended, peer_version,
  armed, handle_stored, watch_aborted, watched, handle_taken, handoff_taken, result_taken,
  codec_used, step,
}
use httpunk.H1.Server.Sound.{amount, held}

module _ (w : Hyper) where
  abbrev pub IsValid : ClientInner w → Type 0
  IsValid s =
      (bit s.upgraded ≤ bit s.closed)
      × ((bit s.upgraded + bit (is_some s.transport) ≤ 1)
          × (1 ≤ bit s.closed + bit (is_some s.transport)))

  -- A call's part in the slot, the transport, the handle and the first error.
  abbrev pub Sound : ℕ → ClientInner w → ClientInner w × ClientSeen → Type 0
  Sound k s (s', seen) =
      IsValid s'
      × ((bit s.closed ≤ bit s'.closed)
          × ((amount k s.error ≤ amount k s'.error)
              × ((bit seen.released + bit s'.busy ≡ bit s.busy + bit seen.claimed)
                  × ((amount k seen.handed + amount k s'.transport ≡ amount k s.transport)
                      × (amount k seen.taken + amount k (held s'.watcher)
                          ≡ amount k (held s.watcher) + amount k seen.stored)))))

  pub step-Sound :
      (k : ℕ) (c : ClientCall w) (s : ClientInner w) → IsValid s → Sound k s (step w c s)
  unfolding step close_now try_begin_exchange end_exchange exchange_started fail finish_exchange
      mark_closed upgrade store_writer take_writer writer_done set_peer_http10 arm_watcher
      store_watcher_handle watcher_aborted watcher_completed completed_idle take_watcher_handle
      take_watcher_handoff take_watcher_result
  step-Sound k begin_exchange s v = ground (arith, v)
  step-Sound k exchange_ended s v = ground (arith, v)
  step-Sound k exchange_begun s v = ground (arith, v)
  step-Sound k (failed_with exc) s v = ground (arith, v)
  step-Sound k closed_now s v = ground (arith, v)
  step-Sound k (exchange_finished keep) s v = ground (arith, v)
  step-Sound k closing s v = ground (arith, v)
  step-Sound k upgraded_to s v = ground (arith, v)
  step-Sound k (writer_stored scope) s v = ground (arith, v)
  step-Sound k writer_taken s v = ground (arith, v)
  step-Sound k writer_ended s v = ground (arith, v)
  step-Sound k (peer_version value) s v = ground (arith, v)
  step-Sound k (armed done) s v = ground (arith, v)
  step-Sound k (handle_stored handle) s v = ground (arith, v)
  step-Sound k watch_aborted s v = ground (arith, v)
  step-Sound k (watched bytes error) s v = ground (arith, v)
  step-Sound k handle_taken s v = ground (arith, v)
  step-Sound k handoff_taken s v = ground (arith, v)
  step-Sound k result_taken s v = ground (arith, v)
  step-Sound k (codec_used f) s v = ground (arith, v)
