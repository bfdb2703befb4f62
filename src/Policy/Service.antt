-- ===== src/Policy/Service.antt =====
-- service.py of the policy service: a verdict is computed, persisted and audited in one
-- transaction.
pub mod Recorded
use Prim.Native.String.{String, count, ◌++◌}
use mathlib.Core.List.{◌++◌ as append_list}
use livekit_agent.Base.{Option, none, some, List, [], ◌∷◌, ◌≡◌}
use livekit_agent.Base.Int.{ℤ, pos}
use livekit_agent.Base.Json.{Scalar, null, flag, int, decimal, str, Payload}
use livekit_agent.Audit.Ledger.{Hasher, Table, AuditLedgerEntry, pg_append}
use livekit_agent.Persistence.Uuid.{UuidLib, to_uuid, require_uuid}
use livekit_agent.Persistence.Tables.{PolicyVerdict, Db}
use livekit_agent.Policy.Types.{
  Verdict, value, upper, VerdictResult, PolicyThresholds, PolicyContext,
}
use livekit_agent.Policy.Engine.{evaluate_action}
use livekit_agent.Policy.Outbound.{CharClass, check_outbound}

-- What a call takes from outside: the clock, the row ids that are generated, the libraries.
pub record Env : Type 0 where
  pub hasher : Hasher
  pub uuids : UuidLib
  pub now : String
  pub row_id : String
  pub audit_id : String

abbrev pub or_null : Option String → Scalar
or_null none = null
or_null (some s) = str s

abbrev pub decimal_or_null : Option ℤ → Scalar
decimal_or_null none = null
decimal_or_null (some x) = decimal x

abbrev pub int_or_null : Option ℤ → Scalar
int_or_null none = null
int_or_null (some x) = int x

-- `ctx.model_dump()`
unfoldable pub model_dump : PolicyContext → Payload
model_dump ctx =
    ("session_id", str ctx.session_id)
    ∷ ("customer_id", or_null ctx.customer_id)
    ∷ ("subscription_id", or_null ctx.subscription_id)
    ∷ ("action_type", str ctx.action_type)
    ∷ ("is_vip", flag ctx.is_vip)
    ∷ ("fraud_suspected", flag ctx.fraud_suspected)
    ∷ ("frustration", flag ctx.frustration)
    ∷ ("identity_verified", flag ctx.identity_verified)
    ∷ ("clarification_attempts", int ctx.clarification_attempts)
    ∷ ("identity_attempts", int ctx.identity_attempts)
    ∷ ("amount", decimal_or_null ctx.amount)
    ∷ ("requested_days", int_or_null ctx.requested_days)
    ∷ ("account_age_days", int ctx.account_age_days)
    ∷ ("deferrals_this_year", int ctx.deferrals_this_year)
    ∷ ("unpaid_amount", decimal ctx.unpaid_amount)
    ∷ ("payment_confirmed", flag ctx.payment_confirmed)
    ∷ []

-- The row of policy.policy_verdicts.
unfoldable pub verdict_row :
    Env → String → Option String → String → String → VerdictResult → Payload → PolicyVerdict
verdict_row env session_id customer_id requested_action direction result inputs = record {
  id = env.row_id;
  session_id = require_uuid env.uuids (some session_id);
  customer_id = to_uuid env.uuids customer_id;
  requested_action = requested_action;
  direction = direction;
  verdict = upper result.verdict;
  rule_id = result.rule_id;
  justification = result.justification;
  inputs_snapshot = inputs;
}

-- The audit entry that goes with it, appended to the trail.
unfoldable pub audit_verdict :
    Env → String → String → VerdictResult → Table → Table × AuditLedgerEntry
audit_verdict env session_id requested_action result audit =
    pg_append env.hasher env.now env.audit_id (some (require_uuid env.uuids (some session_id)))
      "policy_verdict"
      (("action", str requested_action)
        ∷ ("verdict", str (value result.verdict))
        ∷ ("rule_id", str result.rule_id)
        ∷ [])
      (some ("policy_verdicts:" ++ env.row_id)) audit

-- `_persist`: the verdict's row and its audit entry, then the commit; the id is returned.
unfoldable pub persist :
    Env → String → Option String → String → String → VerdictResult → Payload → Db → String × Db
unfolding verdict_row audit_verdict
persist env session_id customer_id requested_action direction result inputs db = (
  env.row_id,
  record db {
    verdicts =
        append_list db.verdicts
          (verdict_row env session_id customer_id requested_action direction result inputs ∷ []);
    audit = (audit_verdict env session_id requested_action result db.audit).0;
  },
)

-- `PolicyService.evaluate_action`
unfoldable pub judge_action :
    Env → PolicyThresholds → PolicyContext → Db → VerdictResult × String × Db
unfolding persist
judge_action env thresholds ctx db =
    let result = evaluate_action ctx thresholds in
    let (verdict_id, db') =
      persist env ctx.session_id ctx.customer_id ctx.action_type "inbound" result (model_dump ctx)
        db in
    (result, verdict_id, db')

-- `PolicyService.evaluate_response`
unfoldable pub judge_response : CharClass → Env → String → String → Db → VerdictResult × String × Db
unfolding persist
judge_response chars env session_id text db =
    let result = check_outbound chars text in
    let (verdict_id, db') =
      persist env session_id none "outbound_response" "outbound" result
        (("length", int (pos (count text))) ∷ []) db in
    (result, verdict_id, db')
