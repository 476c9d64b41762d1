-- ===== src/H2/Errors.antt =====
-- src/h2/errors.rs: the exception that each h2 error becomes, and the results that carry them.
use httpunk.Prelude.{ℕ, List}
use httpunk.H2.Vendor.{Initiator, ProtoError, UserError}

-- The Python exceptions, without their messages: `H2ProtocolError` (with its GOAWAY debug data),
-- `H2StreamError`, `H2UserError`, `H2FlowControlError`, `ConnectionClosedError`, `ValueError`.
pub data Error : Type 0 where
  protocol : ℕ → List ℕ → Error
  stream : ℕ → ℕ → Initiator → Error
  user_misuse : UserError → Error
  flow_control : ℕ → Error
  connection_closed : Error
  value : Error

pub map_user_err : UserError → Error
map_user_err e = user_misuse e

pub map_proto_err : ProtoError → Error
map_proto_err (ProtoError.reset id r initiator) = stream id r initiator
map_proto_err (ProtoError.go_away debug r initiator) = protocol r debug
map_proto_err ProtoError.io = connection_closed

pub map_reason : ℕ → Error
map_reason r = flow_control r

pub data Result {ℓ} (A : Type ℓ) : Type ℓ where
  ok : A → Result A
  err : Error → Result A
