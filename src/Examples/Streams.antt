-- ===== src/Examples/Streams.antt =====
-- The theorems on the life of a stream, at concrete connections.
use httpunk.Prelude.{◌≡◌, refl, []}
use httpunk.Prelude.Map.{lookup}
use httpunk.H2.Reason
use httpunk.H2.Vendor.{user}
use httpunk.H2.Inner.Invariant.{IsValid}
use httpunk.H2.Inner.Store.{close_stream}
use httpunk.H2.Inner.Store.Closed.{Leaves, close_stream-Leaves}
use httpunk.H2.Inner.Reset.{reset_stream, fail_all}
use httpunk.H2.Inner.Reset.Valid.{reset_stream-IsValid}
use httpunk.H2.Inner.Reset.Aborts.{fail_all_lem, victims}
use httpunk.Examples.Stub.{stub, stub_laws}
use httpunk.Examples.Connections.{calling, calling-IsValid, closing, closing-IsValid, over}

close_stream-Leaves_example : Leaves stub 1 over closing 1 (close_stream stub closing 1).0
unfolding lookup
close_stream-Leaves_example = close_stream-Leaves stub closing 1 over 1 closing-IsValid refl refl

reset_stream-IsValid_example : IsValid stub (reset_stream stub calling 0 3 Reason.cancel user).0
reset_stream-IsValid_example =
    reset_stream-IsValid stub stub_laws calling 0 3 Reason.cancel user calling-IsValid

fail_all_lem_example :
    let (s, told) = fail_all stub calling in
    (s.streams ≡ [])
    × (s.num_active ≡ 0)
    × (s.pending_send ≡ [])
    × (s.pending_capacity ≡ [])
    × (told ≡ victims stub stub_laws calling.streams)
fail_all_lem_example = fail_all_lem stub stub_laws calling calling-IsValid
