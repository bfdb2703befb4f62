-- ===== src/Worker/Clients.antt =====
-- clients/decision_client.py, policy_client.py and execution_client.py: calls over HTTP that turn
-- an HTTP error into a safe answer, and the requests that the services parse.
use Prim.Native.String.{String}
use livekit_agent.Base.{Bool, false, Option, none, some}
use livekit_agent.Base.Int.{ℤ, pos}
use livekit_agent.Base.Json.{Scalar, null, flag, int, decimal, str, Payload}
use livekit_agent.Base.Dict.{lookup}
use livekit_agent.Persistence.Tables.{Db}
use livekit_agent.Policy.Types.{Verdict, VerdictResult, PolicyThresholds, PolicyContext}
use livekit_agent.Policy.Service.{Env, judge_action}
use livekit_agent.Execution.Executor.{thousandths}
use livekit_agent.Execution.Service as Execution
use livekit_agent.Execution.Service.{ExecEnv, ExecuteRequest, execute}
use livekit_agent.Decision.{Decision, recommend}
use livekit_agent.Worker.Outcomes.{ToolOutcome, executed, failed}

-- How a call over HTTP goes: it is served; it is lost before the service runs; or the service
-- runs and its answer is lost. The text is the error's.
pub data Delivery : Type 0 where
  served : Delivery
  request_lost reply_lost : Delivery

pub record Call : Type 0 where
  pub delivery : Delivery
  pub error : String

-- `DecisionClient.recommend`: no confidence on an HTTP error
unfoldable pub client_recommend : Call → String → Bool → Decision
client_recommend call action_type identity_verified = elim call.delivery [
  | served ↦ recommend action_type identity_verified
  | request_lost ↦ record { action = action_type; confidence = 0; rationale = call.error }
  | reply_lost ↦ record { action = action_type; confidence = 0; rationale = call.error }
]

infixl 5 ◌>>=◌
abbrev ◌>>=◌ : {A B : Type 0} → Option A → (A → Option B) → Option B
none >>= f = none
some a >>= f = f a

-- The fields of a JSON body as the service's schema reads them, with the default where the key is
-- missing; `none` is a validation error. The worker sends each field at its own type, so the
-- coercions between types are not modelled.
abbrev text_field : Option String → Option Scalar → Option String
text_field default none = default
text_field default (some (str s)) = some s
text_field default (some _) = none

abbrev nullable_text : Option Scalar → Option (Option String)
nullable_text none = some none
nullable_text (some null) = some none
nullable_text (some (str s)) = some (some s)
nullable_text (some _) = none

abbrev flag_field : Option Scalar → Option Bool
flag_field none = some false
flag_field (some (flag b)) = some b
flag_field (some _) = none

abbrev int_field : Option Scalar → Option ℤ
int_field none = some (pos 0)
int_field (some (int n)) = some n
int_field (some _) = none

abbrev nullable_int : Option Scalar → Option (Option ℤ)
nullable_int none = some none
nullable_int (some null) = some none
nullable_int (some (int n)) = some (some n)
nullable_int (some _) = none

abbrev decimal_field : Option Scalar → Option ℤ
decimal_field none = some (pos 0)
decimal_field (some (decimal x)) = some x
decimal_field (some (int n)) = some (thousandths n)
decimal_field (some _) = none

abbrev nullable_decimal : Option Scalar → Option (Option ℤ)
nullable_decimal none = some none
nullable_decimal (some null) = some none
nullable_decimal (some (decimal x)) = some (some x)
nullable_decimal (some (int n)) = some (some (thousandths n))
nullable_decimal (some _) = none

-- The schema `PolicyContext`.
unfoldable pub parse_context : Payload → Option PolicyContext
parse_context body = do
  session_id ← text_field (some "unknown") (lookup "session_id" body)
  customer_id ← nullable_text (lookup "customer_id" body)
  subscription_id ← nullable_text (lookup "subscription_id" body)
  action_type ← text_field none (lookup "action_type" body)
  is_vip ← flag_field (lookup "is_vip" body)
  fraud_suspected ← flag_field (lookup "fraud_suspected" body)
  frustration ← flag_field (lookup "frustration" body)
  identity_verified ← flag_field (lookup "identity_verified" body)
  clarification_attempts ← int_field (lookup "clarification_attempts" body)
  identity_attempts ← int_field (lookup "identity_attempts" body)
  amount ← nullable_decimal (lookup "amount" body)
  requested_days ← nullable_int (lookup "requested_days" body)
  account_age_days ← int_field (lookup "account_age_days" body)
  deferrals_this_year ← int_field (lookup "deferrals_this_year" body)
  unpaid_amount ← decimal_field (lookup "unpaid_amount" body)
  payment_confirmed ← flag_field (lookup "payment_confirmed" body)
  some (record {
    session_id = session_id;
    customer_id = customer_id;
    subscription_id = subscription_id;
    action_type = action_type;
    is_vip = is_vip;
    fraud_suspected = fraud_suspected;
    frustration = frustration;
    identity_verified = identity_verified;
    clarification_attempts = clarification_attempts;
    identity_attempts = identity_attempts;
    amount = amount;
    requested_days = requested_days;
    account_age_days = account_age_days;
    deferrals_this_year = deferrals_this_year;
    unpaid_amount = unpaid_amount;
    payment_confirmed = payment_confirmed;
  })

-- The verdict as the worker reads it.
pub record ClientVerdict : Type 0 where
  pub verdict : Verdict
  pub rule_id : String
  pub justification : String
  pub verdict_id : Option String

-- The answer of a client that could not reach the policy service.
abbrev pub unavailable : Call → ClientVerdict
unavailable call = record {
  verdict = Verdict.escalate;
  rule_id = "POLICY_UNAVAILABLE";
  justification = call.error;
  verdict_id = none;
}

-- POST /evaluate-action
unfoldable pub post_evaluate :
    Env → PolicyThresholds → Option PolicyContext → Db → Option (VerdictResult × String) × Db
post_evaluate env thresholds none db = (none, db)
post_evaluate env thresholds (some ctx) db =
    let (result, verdict_id, db') = judge_action env thresholds ctx db in
    (some (result, verdict_id), db')

abbrev pub read_verdict : Call → Option (VerdictResult × String) → ClientVerdict
read_verdict call none = unavailable call
read_verdict call (some (result, verdict_id)) = record {
  verdict = result.verdict;
  rule_id = result.rule_id;
  justification = result.justification;
  verdict_id = some verdict_id;
}

-- `PolicyClient.evaluate_action`: ESCALATE on an HTTP error
unfoldable pub client_evaluate : Call → Env → PolicyThresholds → Payload → Db → ClientVerdict × Db
unfolding post_evaluate
client_evaluate call env thresholds body db = elim call.delivery [
  | served ↦
      let (answer, db') = post_evaluate env thresholds (parse_context body) db in
      (read_verdict call answer, db')
  | request_lost ↦ (unavailable call, db)
  | reply_lost ↦ (unavailable call, (post_evaluate env thresholds (parse_context body) db).1)
]

abbrev pub read_outcome : Call → Execution.Outcome → ToolOutcome
read_outcome call (Execution.Outcome.response r) = executed r.action_type r.reference r.replay
read_outcome call Execution.Outcome.raised = failed call.error

-- `ExecutionClient.execute`
unfoldable pub client_execute : Call → ExecEnv → ExecuteRequest → Db → ToolOutcome × Db
client_execute call env req db = elim call.delivery [
  | served ↦ let (outcome, db') = execute env req db in (read_outcome call outcome, db')
  | request_lost ↦ (failed call.error, db)
  | reply_lost ↦ (failed call.error, (execute env req db).1)
]
