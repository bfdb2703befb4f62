-- ===== src/Worker/Tools.antt =====
-- The sensitive tools: agents/billing_agent.py, agents/technical_agent.py and
-- tools/account_tools.py, with what their tasks and reads answer as arguments.
pub mod Sent
pub mod Promised
use livekit_agent.Base.{
  String, Bool, true, false, Option, none, some, List, [], ◌∷◌, if◌then◌else◌, str_eq,
}
use livekit_agent.Base.Int.{ℤ, pos, ◌+ℤ◌}
use livekit_agent.Base.Json.{Payload, flag, int, decimal, str}
use livekit_agent.Worker.Outcomes.{ToolOutcome, escalate}
use livekit_agent.Worker.Session.{SessionUserData}
use livekit_agent.Worker.Identity.{ensure_identity_verified}
use livekit_agent.Worker.Guarded.{GuardEnv, State, execute_guarded_action}

abbrev pub identity_required : ToolOutcome
identity_required = escalate "IDENTITY_REQUIRED" "identity not verified"

-- A guarded action behind the identity gate.
unfoldable pub gated : GuardEnv → Bool → String → Payload → State → ToolOutcome × State
gated env verified action_type payload (user, db) =
    let (passed, user') = ensure_identity_verified verified user in
    if passed
    then execute_guarded_action env action_type payload (user', db)
    else (identity_required, (user', db))

abbrev pub payment_payload : ℤ → Bool → Payload
payment_payload amount confirmed =
    ("amount", decimal amount) ∷ ("payment_confirmed", flag confirmed) ∷ []

-- `make_payment`
unfoldable pub make_payment : GuardEnv → Bool → Bool → ℤ → State → ToolOutcome × State
make_payment env verified confirmed amount s =
    gated env verified "EXECUTE_PAYMENT" (payment_payload amount confirmed) s

-- An invoice of the context service, with its amount and its status.
pub record InvoiceRead : Type 0 where
  pub amount : ℤ
  pub status : Option String

abbrev pub is_unpaid : Option String → Bool
is_unpaid none = true
is_unpaid (some s) = if str_eq s "paid" then false else true

-- `sum(inv["amount"] for inv in invoices if inv.get("status") != "paid")`
unfoldable pub unpaid_amount : List InvoiceRead → ℤ
unfolding ◌+ℤ◌
unpaid_amount [] = pos 0
unpaid_amount (inv ∷ invoices) =
    if is_unpaid inv.status then inv.amount +ℤ unpaid_amount invoices else unpaid_amount invoices

abbrev pub deferral_payload : ℤ → ℤ → Payload
deferral_payload requested_days unpaid =
    ("requested_days", int requested_days)
    ∷ ("unpaid_amount", decimal unpaid)
    ∷ ("deferrals_this_year", int (pos 0))
    ∷ []

-- `request_payment_deferral`; past the gate, a caller who is verified but not resolved owes nothing.
unfoldable pub request_payment_deferral :
    GuardEnv → Bool → List InvoiceRead → ℤ → State → ToolOutcome × State
unfolding unpaid_amount
request_payment_deferral env verified invoices requested_days s =
    gated env verified "PAYMENT_DEFERRAL"
      (deferral_payload requested_days
        (elim s.0.customer_context [ none ↦ pos 0 | some customer ↦ unpaid_amount invoices ]))
      s

-- `unblock_sim`
unfoldable pub unblock_sim : GuardEnv → Bool → State → ToolOutcome × State
unblock_sim env verified s = gated env verified "UNBLOCK_SIM" [] s

-- The tools that do not pass the gate.
unfoldable pub change_plan : GuardEnv → String → State → ToolOutcome × State
change_plan env new_plan_code s =
    execute_guarded_action env "CHANGE_PLAN" (("plan_code", str new_plan_code) ∷ []) s

unfoldable pub top_up : GuardEnv → ℤ → State → ToolOutcome × State
top_up env amount s = execute_guarded_action env "TOP_UP" (("amount", decimal amount) ∷ []) s

unfoldable pub toggle_roaming : GuardEnv → Bool → State → ToolOutcome × State
toggle_roaming env enable s =
    execute_guarded_action env "ACTIVATE_ROAMING" (("enable", flag enable) ∷ []) s
