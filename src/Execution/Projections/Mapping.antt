-- ===== src/Execution/Projections/Mapping.antt =====
-- projections.py of the execution service: the pure mappings, and what a projection reads.
use Prim.Native.String.{String}
use livekit_agent.Base.{
  ℕ, zero, suc, ◌+◌, ◌*◌, ◌/◌, ◌%◌, true, false, Option, none, some, List, [], ◌∷◌, str_eq, ltb,
  if◌then◌else◌,
}
use livekit_agent.Base.Int.{ℤ, pos, negsuc}
use livekit_agent.Base.Json.{Scalar, null, flag, int, decimal, str, Payload}
use livekit_agent.Base.Dict.{Dict, lookup}
use livekit_agent.Base.Text.{show_ℤ, show_float}
use livekit_agent.Persistence.Uuid.{UuidLib, to_uuid}
use livekit_agent.Persistence.Tables.{Domain, Account, Invoice}

abbrev pub projections : Dict String
projections =
    ("EXECUTE_PAYMENT", "payment")
    ∷ ("PAYMENT_DEFERRAL", "payment_plan")
    ∷ ("TOP_UP", "recharge")
    ∷ ("UNBLOCK_SIM", "sim_case")
    ∷ ("REACTIVATE_SIM", "sim_case")
    ∷ ("CHANGE_PLAN", "provisioning")
    ∷ ("ACTIVATE_ROAMING", "provisioning")
    ∷ []

unfoldable pub projection_kind : String → Option String
projection_kind action_type = lookup action_type projections

unfoldable pub sim_case_action : String → Option String
sim_case_action action_type =
    lookup action_type (("UNBLOCK_SIM", "UNBLOCK") ∷ ("REACTIVATE_SIM", "REACTIVATE") ∷ [])

-- `n / d` rounded to the nearest integer, ties to the even one.
unfoldable pub round_half_even : ℕ → ℕ → ℕ
round_half_even n d =
    if ltb (n % d * 2) d then n / d else if ltb d (n % d * 2) then n / d + 1 else n / d + n / d % 2

-- minus a natural number
abbrev pub minus : ℕ → ℤ
minus zero = pos 0
minus (suc n) = negsuc n

-- `max(1, int(count or 1))`
abbrev pub at_least_one : ℤ → ℕ
at_least_one (pos zero) = 1
at_least_one (pos (suc n)) = suc n
at_least_one (negsuc n) = 1

-- `installment_amount`: at least one instalment, rounded to millimes.
unfoldable pub installment_amount : ℤ → ℤ → ℤ
unfolding round_half_even
installment_amount (pos total) count = pos (round_half_even total (at_least_one count))
installment_amount (negsuc total) count = minus (round_half_even (suc total) (at_least_one count))

-- What the projections read of the request, and of the ledger's row.
pub record Effect : Type 0 where
  pub uuids : UuidLib
  pub now : String
  pub action_type : String
  pub customer_id : Option String
  pub subscription_id : Option String
  pub policy_verdict_id : String
  pub idempotency_key : String
  pub payload : Payload
  pub adapter_reference : Option String

abbrev pub find_account : String → List Account → Option Account
find_account cid [] = none
find_account cid (a ∷ accounts) =
    if str_eq a.customer_id cid then some a else find_account cid accounts

abbrev pub find_invoice : String → List Invoice → Option Invoice
find_invoice number [] = none
find_invoice number (i ∷ invoices) =
    if str_eq i.invoice_number number then some i else find_invoice number invoices

-- `_account_for`
unfoldable pub account_for : Effect → Domain → Option Account
account_for e d = elim (to_uuid e.uuids e.customer_id) [
  | none ↦ none
  | some cid ↦ find_account cid d.accounts
]

-- `payload.get(k)` where it is truthy, as a text: `str(value)`
unfoldable pub truthy_text : Option Scalar → Option String
truthy_text none = none
truthy_text (some null) = none
truthy_text (some (flag true)) = some "True"
truthy_text (some (flag false)) = none
truthy_text (some (int (pos zero))) = none
truthy_text (some (int n)) = some (show_ℤ n)
truthy_text (some (decimal (pos zero))) = none
truthy_text (some (decimal x)) = some (show_float x)
truthy_text (some (str s)) = if str_eq s "" then none else some s

-- the first of two that is truthy
abbrev pub first_text : Option String → Option String → Option String
first_text none second = second
first_text (some s) second = some s

unfoldable pub invoice_of : Payload → Domain → Option String
unfolding truthy_text
invoice_of payload d =
    elim (first_text (truthy_text (lookup "invoice_id" payload))
      (truthy_text (lookup "invoice_number" payload))) [
        | none ↦ none
        | some number ↦ elim (find_invoice number d.invoices) [ none ↦ none | some i ↦ some i.id ]
      ]
