-- ===== src/Examples/Calls.antt =====
-- The theorems on the application's calls, at concrete connections.
use httpunk.Prelude.{◌≡◌, take, ◌≤◌, refl, true, false, some, List, [], ◌∷◌, arith, codes}
use httpunk.Prelude.Map.{lookup, count_if}
use httpunk.H2.Errors.{value, ok, err}
use httpunk.H2.Inner.Calls.{open_stream}
use httpunk.H2.Inner.Calls.Valid.{open_stream-IsValid}
use httpunk.H2.Inner.Send.Valid.{send_data-IsValid}
use httpunk.H2.Inner.Shutdown.{try_claim_slot, release_slot_count}
use httpunk.H2.Inner.Runs.{
  slot_claimed, slot_released, stream_opened, limit_applied, stream_reset, reply_checked, perform,
  H2Call, perform_all, perform_all-IsValid,
}
use httpunk.H2.Inner.{Inner}
use httpunk.H2.Inner.Invariant.{IsValid}
use httpunk.H2.Inner.Send.{send_data}
use httpunk.H2.Inner.SendHeads.{send_response_head}
use httpunk.H2.Inner.SendHeads.Unsent.{Unsent, send_response_head-Unsent}
use httpunk.H2.Inner.Payload.{payload_of}
use httpunk.H2.Inner.Send.Bounds.{sent_of, allowed}
use httpunk.H2.Inner.Send.Framed.{send_data_framed}
use httpunk.Examples.Stub.{stub, stub_laws}
use httpunk.Examples.Connections.{calling, calling-IsValid, serving, request, first_call}

-- The client with room in the connection's window.
abbrev sending : Inner stub
sending = record calling { conn_send = request.send_flow }

send_data_framed_example :
    let (t, r) = send_data stub 0 1 (1 ∷ 2 ∷ 3 ∷ []) 1 true sending in
    (sent_of r ≤ allowed stub sending first_call (1 ∷ 2 ∷ 3 ∷ []) 1)
    × (payload_of 1 t.pending ≡ take (sent_of r) (2 ∷ 3 ∷ []))
unfolding lookup
send_data_framed_example =
    send_data_framed stub 0 1 sending (1 ∷ 2 ∷ 3 ∷ []) 1 true first_call 1 refl

-- The client with a slot claimed for a third call.
abbrev claiming : Inner stub
claiming = record calling { num_open_streams = 3 }

claiming-IsValid : IsValid stub claiming
claiming-IsValid = record {
  distinct = calling-IsValid.distinct;
  active = calling-IsValid.active;
  slots = omega (arith, calling-IsValid.slots);
  entries = calling-IsValid.entries;
}

open_stream-IsValid_example : IsValid stub (open_stream stub 9 true false (ok tt) claiming).0
unfolding lookup count_if
open_stream-IsValid_example =
    open_stream-IsValid stub claiming 9 true false (ok tt) refl (omega arith) claiming-IsValid

send_data-IsValid_example : IsValid stub (send_data stub 0 1 (1 ∷ 2 ∷ 3 ∷ []) 0 true calling).0
send_data-IsValid_example =
    send_data-IsValid stub stub_laws 0 1 (1 ∷ 2 ∷ 3 ∷ []) 0 true calling calling-IsValid

-- A client that claims a slot and gives it back, opens a stream on the next one, and whose caller
-- cancels another stream.
abbrev client_history : List H2Call
client_history =
    slot_claimed
    ∷ slot_released
    ∷ slot_claimed
    ∷ stream_opened 9 true false (ok tt)
    ∷ limit_applied (some 1)
    ∷ stream_reset 0 1 8 (codes "user")
    ∷ reply_checked
    ∷ []

perform_all-IsValid_example : IsValid stub (perform_all stub client_history calling)
unfolding perform try_claim_slot release_slot_count lookup count_if
perform_all-IsValid_example =
    perform_all-IsValid stub stub_laws client_history calling
      (tt, (omega arith, (tt, ((refl, omega arith), (tt, (tt, (tt, tt))))))) calling-IsValid

-- The frame of the head cannot be built: the status is no status code.
send_response_head-Unsent_example :
    Unsent stub 1 serving (send_response_head stub 0 1 true (ok tt) (err value) serving).0
unfolding send_response_head lookup
send_response_head-Unsent_example =
    send_response_head-Unsent stub 0 1 true (ok tt) (err value) serving refl
