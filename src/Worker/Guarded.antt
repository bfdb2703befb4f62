-- ===== src/Worker/Guarded.antt =====
-- tools/guarded_action.py: the one path from a sensitive tool to an action.
pub mod Endings
pub mod Safety
pub mod Repeat
use Prim.Native.String.{String}
use livekit_agent.Base.{
  ℕ, Bool, true, false, Option, none, some, List, [], ◌∷◌, ltb, leb, str_eq, or_else, if◌then◌else◌,
}
use livekit_agent.Base.Int.{ℤ, pos}
use livekit_agent.Base.Json.{Scalar, null, flag, int, decimal, str, Payload}
use livekit_agent.Base.Dict.{Dict, lookup, update}
use livekit_agent.Audit.Ledger.{Hasher}
use livekit_agent.Persistence.Tables.{Db}
use livekit_agent.Policy.Types.{Verdict, PolicyThresholds}
use livekit_agent.Policy.Service.{Env}
use livekit_agent.Execution.Service.{ExecEnv, ExecuteRequest}
use livekit_agent.Decision.{Decision}
use livekit_agent.Worker.Session.{CustomerContext, SessionUserData, new_idempotency_key}
use livekit_agent.Worker.Outcomes.{ToolOutcome, refused, escalate, executed, failed}
use livekit_agent.Worker.Clients.{
  Call, ClientVerdict, client_recommend, client_evaluate, client_execute,
}

abbrev pub frustration_streak : ℕ
frustration_streak = 3

abbrev or_null : Option String → Scalar
or_null none = null
or_null (some s) = str s

-- What the context takes from the caller's profile.
abbrev pub customer_id_of : Option CustomerContext → Scalar
customer_id_of none = null
customer_id_of (some c) = str c.customer_id

abbrev pub subscription_id_of : Option CustomerContext → Scalar
subscription_id_of none = null
subscription_id_of (some c) = or_null c.subscription_id

abbrev pub is_vip_of : Option CustomerContext → Bool
is_vip_of none = false
is_vip_of (some c) = c.is_vip

abbrev pub fraud_of : Option CustomerContext → Bool
fraud_of none = false
fraud_of (some c) = c.fraud_suspected

abbrev pub age_of : Option CustomerContext → ℤ
age_of none = pos 0
age_of (some c) = c.account_age_days

-- `_build_context`: the session's facts, then `context.update(payload)`
unfoldable pub build_context : SessionUserData → String → Payload → Payload
build_context user action_type payload =
    update
      (("session_id", str user.session_id)
        ∷ ("customer_id", customer_id_of user.customer_context)
        ∷ ("subscription_id", subscription_id_of user.customer_context)
        ∷ ("action_type", str action_type)
        ∷ ("is_vip", flag (is_vip_of user.customer_context))
        ∷ ("fraud_suspected", flag (fraud_of user.customer_context))
        ∷ ("frustration", flag (leb frustration_streak user.consecutive_negative_turns))
        ∷ ("identity_verified", flag user.identity_verified)
        ∷ ("clarification_attempts", int (pos user.clarification_attempts))
        ∷ ("identity_attempts", int (pos user.identity_attempts))
        ∷ ("account_age_days", int (age_of user.customer_context))
        ∷ [])
      payload

abbrev text_at : Option Scalar → Option String
text_at (some (str s)) = some s
text_at _ = none

abbrev is_true : Option Scalar → Bool
is_true (some (flag b)) = b
is_true _ = false

-- What a guarded action takes from outside: the settings, how each of its three calls goes, and
-- the environments of the services.
pub record GuardEnv : Type 0 where
  pub hasher : Hasher
  pub confidence_threshold : ℕ
  pub decision_call : Call
  pub policy_call : Call
  pub execution_call : Call
  pub policy_env : Env
  pub thresholds : PolicyThresholds
  pub execution_env : ExecEnv
  pub key_uuid : String

-- The state of the session and of the database.
abbrev pub State : Type 0
State = SessionUserData × Db

-- `if not verdict_id`
abbrev pub present : Option String → Option String
present none = none
present (some s) = if str_eq s "" then none else some s

-- The request that goes to the execution service.
abbrev pub request_of : String → String → String → Payload → Payload → ExecuteRequest
request_of key action_type verdict_id payload context = record {
  idempotency_key = key;
  action_type = action_type;
  session_id = or_else (text_at (lookup "session_id" context)) "";
  policy_verdict_id = verdict_id;
  customer_id = text_at (lookup "customer_id" context);
  subscription_id = text_at (lookup "subscription_id" context);
  target_domain = none;
  payload = payload;
}

-- The last step: an authorised action goes to the execution service under the session's key.
unfoldable pub execute_authorized :
    GuardEnv → String → Payload → Payload → Option String → State → ToolOutcome × State
execute_authorized env action_type payload context none (user, db) =
    (escalate "POLICY_NO_VERDICT_ID" "authorized verdict missing its persisted id", (user, db))
execute_authorized env action_type payload context (some verdict_id) (user, db) =
    let (key, user') = new_idempotency_key env.hasher env.key_uuid action_type user in
    let (outcome, db') =
      client_execute env.execution_call env.execution_env
        (request_of key action_type verdict_id payload context) db in
    (outcome, (user', db'))

-- The verdict short-circuits, or lets the action through.
unfoldable pub follow_verdict :
    GuardEnv → String → Payload → Payload → ClientVerdict → State → ToolOutcome × State
unfolding execute_authorized
follow_verdict env action_type payload context v s = elim v.verdict [
  | Verdict.authorized ↦ execute_authorized env action_type payload context (present v.verdict_id) s
  | Verdict.refused ↦ (refused v.rule_id v.justification, s)
  | Verdict.escalate ↦ (escalate v.rule_id v.justification, s)
]

-- `execute_guarded_action`: Decision, then Policy, then Execution
unfoldable pub execute_guarded_action : GuardEnv → String → Payload → State → ToolOutcome × State
unfolding follow_verdict build_context
execute_guarded_action env action_type payload (user, db) =
    let context = build_context user action_type payload in
    let decision =
      client_recommend env.decision_call action_type
        (is_true (lookup "identity_verified" context)) in
    if ltb decision.confidence env.confidence_threshold
    then (escalate "DECISION_LOW_CONFIDENCE" decision.rationale, (user, db))
    else (let (v, db') = client_evaluate env.policy_call env.policy_env env.thresholds context db in
        follow_verdict env action_type payload context v (user, db'))
