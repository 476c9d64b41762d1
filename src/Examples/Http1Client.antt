-- ===== src/Examples/Http1Client.antt =====
-- The theorems on a client's HTTP/1 connection, on the stub.
use httpunk.Prelude.{◌+◌, ◌≡◌, refl, true, false, none, some, List, [], ◌∷◌, arith, bit}
use httpunk.H1.Client.{ClientInner, watcher_completed, take_watcher_handoff, watch_handoff}
use httpunk.H1.Client.Calls
use httpunk.H1.Client.Sound
use httpunk.H1.Client.Runs.{
  exchanges-run, Accounted-run, error-run, total, Accounted, take_watcher_handoff-watcher_completed,
}
use httpunk.H1.Client.Latch.{acquired, acquired_once}
use httpunk.Examples.StubHyper.{stub_hyper}
use httpunk.Examples.Http1.{codec, read_watcher}

-- The client's side.
abbrev client : ClientInner stub_hyper
client = record {
  codec = codec;
  transport = some 7;
  closed = false;
  upgraded = false;
  error = some 40;
  busy = true;
  exchange_active = true;
  peer_http10 = false;
  writer = none;
  writer_finished = false;
  watcher = some read_watcher;
}

client-IsValid : Sound.IsValid stub_hyper client
client-IsValid = ground arith

abbrev client_calls : List (Calls.ClientCall stub_hyper)
client_calls =
    Calls.exchange_ended
    ∷ Calls.begin_exchange
    ∷ Calls.failed_with (some 41)
    ∷ Calls.handoff_taken
    ∷ []

exchanges-run_example :
    total (λ one. bit one.released) (Calls.run stub_hyper client_calls client).1
      + bit (Calls.run stub_hyper client_calls client).0.busy
    ≡ 1 + total (λ one. bit one.claimed) (Calls.run stub_hyper client_calls client).1
exchanges-run_example = exchanges-run stub_hyper client_calls client client-IsValid

Accounted-run_example : Accounted stub_hyper 7 client (Calls.run stub_hyper client_calls client)
Accounted-run_example = Accounted-run stub_hyper client_calls client 7 client-IsValid

error-run_example : (Calls.run stub_hyper client_calls client).0.error ≡ some 40
error-run_example = error-run stub_hyper client_calls client 40 client-IsValid refl

take_watcher_handoff-watcher_completed_example :
    let (s1, verdict) = watcher_completed stub_hyper (some (5 ∷ [])) none client in
    let (s2, outcome) = take_watcher_handoff stub_hyper s1 in
    (verdict ≡ (watch_handoff, none))
    × ((outcome ≡ (some 60, (some (5 ∷ []), none))) × (s2.watcher ≡ none))
take_watcher_handoff-watcher_completed_example =
    take_watcher_handoff-watcher_completed stub_hyper read_watcher (some (5 ∷ [])) none client refl
      refl

acquired_once_example : acquired 5 false ≡ 1
acquired_once_example = acquired_once 5
