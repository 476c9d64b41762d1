-- ===== src/H1/Client/Calls.antt =====
-- The calls on a client connection in any order, with what each hands out.
use httpunk.Prelude.{ℕ, Bool, false, Option, none, List, [], ◌∷◌}
use httpunk.H1.Hyper.{Hyper}
use httpunk.H1.Codec.{Codec}
use httpunk.H1.Client.{
  ClientInner, close_now, try_begin_exchange, end_exchange, exchange_started, fail, finish_exchange,
  mark_closed, upgrade, store_writer, take_writer, writer_done, set_peer_http10, arm_watcher,
  store_watcher_handle, watcher_aborted, watcher_completed, take_watcher_handle,
  take_watcher_handoff, take_watcher_result,
}
use httpunk.H1.Server.Calls.{kept}

pub data ClientCall (w : Hyper) : Type 0 where
  begin_exchange : ClientCall w
  exchange_ended : ClientCall w
  exchange_begun : ClientCall w
  failed_with : Option ℕ → ClientCall w
  closed_now : ClientCall w
  exchange_finished : Bool → ClientCall w
  closing : ClientCall w
  upgraded_to : ClientCall w
  writer_stored : ℕ → ClientCall w
  writer_taken : ClientCall w
  writer_ended : ClientCall w
  peer_version : Bool → ClientCall w
  armed : ℕ → ClientCall w
  handle_stored : ℕ → ClientCall w
  watch_aborted : ClientCall w
  watched : Option (List ℕ) → Option ℕ → ClientCall w
  handle_taken : ClientCall w
  handoff_taken : ClientCall w
  result_taken : ClientCall w
  -- The driver's own work on the codec.
  codec_used : (Codec w → Codec w) → ClientCall w

-- The transport to close or to take over, a handle stored or taken, and the slot claimed or
-- released.
pub record ClientSeen : Type 0 where
  pub handed : Option ℕ
  pub stored : Option ℕ
  pub taken : Option ℕ
  pub claimed : Bool
  pub released : Bool

abbrev pub silent : ClientSeen
silent = record { handed = none; stored = none; taken = none; claimed = false; released = false }

abbrev pub gives : Option ℕ → ClientSeen
gives t = record silent { handed = t }

module _ (w : Hyper) where
  unfoldable pub step : ClientCall w → ClientInner w → ClientInner w × ClientSeen
  step begin_exchange s =
      let (s', got) = try_begin_exchange w s in (s', record silent { claimed = got })
  step exchange_ended s =
      let (s', flipped) = end_exchange w s in (s', record silent { released = flipped })
  step exchange_begun s = (exchange_started w s, silent)
  step (failed_with exc) s = let (s', t) = fail w exc s in (s', gives t)
  step closed_now s = let (s', t) = close_now w s in (s', gives t)
  step (exchange_finished keep) s = let (s', v) = finish_exchange w keep s in (s', gives v.1.1)
  step closing s = let (s', v) = mark_closed w s in (s', gives v.0)
  step upgraded_to s = let (s', t) = upgrade w s in (s', gives t)
  step (writer_stored scope) s = ((store_writer w scope s).0, silent)
  step writer_taken s = ((take_writer w s).0, silent)
  step writer_ended s = (writer_done w s, silent)
  step (peer_version value) s = (set_peer_http10 w value s, silent)
  step (armed done) s = ((arm_watcher w done s).0, silent)
  step (handle_stored handle) s =
      let (s', refused) = store_watcher_handle w handle s in
      (s', record silent { stored = kept handle refused })
  step watch_aborted s = (watcher_aborted w s, silent)
  step (watched bytes error) s = let (s', v) = watcher_completed w bytes error s in (s', gives v.1)
  step handle_taken s =
      let (s', handle) = take_watcher_handle w s in (s', record silent { taken = handle })
  step handoff_taken s =
      let (s', v) = take_watcher_handoff w s in (s', record silent { taken = v.0 })
  step result_taken s = ((take_watcher_result w s).0, silent)
  step (codec_used f) s = (record s { codec = f s.codec }, silent)

  unfoldable pub run : List (ClientCall w) → ClientInner w → ClientInner w × List ClientSeen
  run [] s = (s, [])
  run (c ∷ cs) s = let (s1, seen) = step c s in let (s2, more) = run cs s1 in (s2, seen ∷ more)
