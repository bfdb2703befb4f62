-- ===== src/Base/Json.antt =====
-- The values of the dicts that the services exchange and store. A float is a whole number of
-- thousandths.
use livekit_agent.Base.{String, Bool}
use livekit_agent.Base.Int.{ℤ}
use livekit_agent.Base.Dict.{Dict}

pub data Scalar : Type 0 where
  null : Scalar
  flag : Bool → Scalar
  int : ℤ → Scalar
  decimal : ℤ → Scalar
  str : String → Scalar

abbrev pub Payload : Type 0
Payload = Dict Scalar
