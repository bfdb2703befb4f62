-- ===== src/Execution/Executor.antt =====
-- executor.py: the dispatch of an action, to the mock or to the live adapters of
-- packages/integration-adapters.
use Prim.Native.String.{String, ◌++◌}
use livekit_agent.Base.{
  ◌+◌, ◌*◌, true, false, Option, none, some, [], ◌∷◌, str_eq, or_else, if◌then◌else◌,
}
use livekit_agent.Base.Int.{ℤ, pos, negsuc, ltb_ℤ}
use livekit_agent.Base.Json.{Scalar, null, flag, int, decimal, str, Payload}
use livekit_agent.Base.Dict.{Dict, lookup}

abbrev pub reference_prefix : Dict String
reference_prefix =
    ("EXECUTE_PAYMENT", "PAY")
    ∷ ("PAYMENT_DEFERRAL", "DEF")
    ∷ ("UNBLOCK_SIM", "SIM")
    ∷ ("REPLACE_SIM", "SIM")
    ∷ ("REACTIVATE_SIM", "SIM")
    ∷ ("TOP_UP", "TOP")
    ∷ ("CHANGE_PLAN", "PLN")
    ∷ ("ACTIVATE_ROAMING", "ROAM")
    ∷ []

abbrev pub target_domains : Dict String
target_domains =
    ("EXECUTE_PAYMENT", "billing")
    ∷ ("PAYMENT_DEFERRAL", "billing")
    ∷ ("TOP_UP", "ocs")
    ∷ ("UNBLOCK_SIM", "sim")
    ∷ ("REPLACE_SIM", "sim")
    ∷ ("REACTIVATE_SIM", "sim")
    ∷ ("CHANGE_PLAN", "provisioning")
    ∷ ("ACTIVATE_ROAMING", "provisioning")
    ∷ []

-- `_mock_reference`, with the ten hexadecimal digits of the fresh UUID as an argument
unfoldable pub mock_reference : String → String → String
mock_reference fresh action_type =
    or_else (lookup action_type reference_prefix) "ACT" ++ ("-" ++ fresh)

unfoldable pub target_domain : String → String
target_domain action_type = or_else (lookup action_type target_domains) "execution"

-- A number of thousandths; the integer of a JSON number is a whole number of units.
abbrev pub thousandths : ℤ → ℤ
thousandths (pos n) = pos (n * 1000)
thousandths (negsuc n) = negsuc (n * 1000 + 999)

-- `payload.get(key) or 0` as an amount; a text that is not empty is no number, and what uses it
-- as one raises.
unfoldable pub amount_or_zero : Option Scalar → Option ℤ
amount_or_zero none = some (pos 0)
amount_or_zero (some null) = some (pos 0)
amount_or_zero (some (flag true)) = some (pos 1000)
amount_or_zero (some (flag false)) = some (pos 0)
amount_or_zero (some (int n)) = some (thousandths n)
amount_or_zero (some (decimal x)) = some x
amount_or_zero (some (str s)) = if str_eq s "" then some (pos 0) else none

-- The live adapters, which may raise (`none`), and the text operations of a reference.
pub record Adapters : Type 0 where
  pub charge : String → ℤ → String → Option String
  pub grant_deferral : String → Option Scalar → String → Option (Unit {0})
  pub top_up : String → ℤ → String → Option String
  pub key_reference : String → String

-- `Money(...)`: a negative amount is refused.
unfoldable pub money : Option ℤ → Option ℤ
money none = none
money (some amount) = if ltb_ℤ amount (pos 0) then none else some amount

-- `_dispatch_live` with its amount in hand; `none` is an exception.
unfoldable pub dispatch_amount :
    Adapters → String → String → Payload → String → String → Option ℤ → Option String
dispatch_amount adapters fresh action_type payload customer_id key none = none
dispatch_amount adapters fresh action_type payload customer_id key (some amount) =
    if str_eq action_type "EXECUTE_PAYMENT"
    then adapters.charge customer_id amount key
    else if str_eq action_type "PAYMENT_DEFERRAL"
    then elim (adapters.grant_deferral customer_id (lookup "requested_days" payload) key) [
      | none ↦ none
      | some _ ↦ some ("DEF-" ++ adapters.key_reference key)
    ]
    else if str_eq action_type "TOP_UP"
    then adapters.top_up customer_id amount key
    else some (mock_reference fresh action_type)

-- How the process is configured: CONNECTOR_MODE and the adapters.
pub data Connector : Type 0 where
  mock : Connector
  live : Adapters → Connector

-- `dispatch`; the service always passes a key, so none is generated here.
unfoldable pub dispatch :
    Connector → String → String → Payload → Option String → String → Option String
unfolding dispatch_amount money amount_or_zero
dispatch mock fresh action_type payload customer_id key = some (mock_reference fresh action_type)
dispatch (live adapters) fresh action_type payload customer_id key =
    dispatch_amount adapters fresh action_type payload (or_else customer_id "") key
      (money (amount_or_zero (lookup "amount" payload)))
