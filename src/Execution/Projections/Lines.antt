-- ===== src/Execution/Projections/Lines.antt =====
-- projections.py of the execution service: recharges, SIM cases and provisioning.
-- `none` is an exception of the database or of a conversion.
use Prim.Native.String.{String}
use mathlib.Core.List.{◌++◌ as append_list}
use livekit_agent.Base.{
  Bool, true, not, ◌&&◌, Option, none, some, List, [], ◌∷◌, str_eq, or_else, any, member,
  if◌then◌else◌,
}
use livekit_agent.Base.Int.{ℤ}
use livekit_agent.Base.Json.{Scalar, null, str}
use livekit_agent.Base.Dict.{lookup}
use livekit_agent.Persistence.Uuid.{to_uuid}
use livekit_agent.Persistence.Tables.{
  Domain, Recharge, BlockUnblockCase, ProvisioningRequest, PlanChangeHistory,
}
use livekit_agent.Execution.Executor.{amount_or_zero}
use livekit_agent.Execution.Projections.Mapping.{Effect, truthy_text}

-- Adds a recharge: the customer is known, as is the subscription, and the key is new.
unfoldable pub add_recharge : Effect → String → Domain → Option ℤ → Option String → Option Domain
add_recharge e sid d none customer = none
add_recharge e sid d (some amount) none = none
add_recharge e sid d (some amount) (some cid) =
    if member sid d.subscriptions
      && (member cid d.customers
          && not (any (λ (r : Recharge). str_eq r.idempotency_key e.idempotency_key) d.recharges))
    then some (record d {
      recharges = append_list d.recharges (
          (record {
            subscription_id = sid;
            customer_id = cid;
            amount = amount;
            channel = "agent";
            idempotency_key = e.idempotency_key;
            transaction_reference = e.adapter_reference;
            status = "completed";
          })
          ∷ []);
    })
    else none

-- `_recharge`; without a subscription nothing is written.
unfoldable pub project_recharge : Effect → Domain → Option Domain
unfolding add_recharge amount_or_zero
project_recharge e d = elim (to_uuid e.uuids e.subscription_id) [
  | none ↦ some d
  | some sid ↦
      add_recharge e sid d (amount_or_zero (lookup "amount" e.payload))
        (to_uuid e.uuids e.customer_id)
]

-- `_sim_case`, with the action and the subscription in hand
unfoldable pub add_sim_case : Effect → Domain → Option String → Option String → Option Domain
add_sim_case e d none sid = some d
add_sim_case e d (some action) none = some d
add_sim_case e d (some action) (some sid) =
    if member sid d.subscriptions
      && not
          (any (λ (c : BlockUnblockCase). str_eq c.idempotency_key e.idempotency_key) d.sim_cases)
    then some (record d {
      sim_cases = append_list d.sim_cases (
          (record {
            subscription_id = sid;
            action = action;
            status = "completed";
            identity_verified = true;
            policy_verdict_id = to_uuid e.uuids (some e.policy_verdict_id);
            idempotency_key = e.idempotency_key;
          })
          ∷ []);
    })
    else none

-- A nullable foreign key: null, or a row that is there.
abbrev pub resolves : Option String → List String → Bool
resolves none ids = true
resolves (some id) ids = member id ids

-- `payload.get("from_plan")`, in a column of texts
abbrev pub from_plan_of : Option Scalar → Option (Option String)
from_plan_of none = some none
from_plan_of (some null) = some none
from_plan_of (some (str s)) = some (some s)
from_plan_of (some _) = none

-- The rows of `plan_change_history` that a request adds.
unfoldable pub add_plan_change :
    Effect
    → List PlanChangeHistory
    → Option String
    → Option (Option String)
    → Option (List PlanChangeHistory)
unfolding truthy_text
add_plan_change e rows none from = some rows
add_plan_change e rows (some sid) none =
    if str_eq e.action_type "CHANGE_PLAN" then none else some rows
add_plan_change e rows (some sid) (some from) =
    if str_eq e.action_type "CHANGE_PLAN"
    then some (
        append_list rows (
          (record {
            subscription_id = sid;
            from_plan = from;
            to_plan = or_else (truthy_text (lookup "plan_code" e.payload)) "unknown";
            changed_by = "agent";
          })
          ∷ []))
    else some rows

-- `_provisioning`
unfoldable pub project_provisioning : Effect → Domain → Option Domain
unfolding add_plan_change
project_provisioning e d =
    if resolves (to_uuid e.uuids e.subscription_id) d.subscriptions
      && (resolves (to_uuid e.uuids e.customer_id) d.customers
          && not (
              any (λ (r : ProvisioningRequest). str_eq r.idempotency_key e.idempotency_key)
                d.provisioning))
    then elim (add_plan_change e d.plan_changes (to_uuid e.uuids e.subscription_id)
        (from_plan_of (lookup "from_plan" e.payload))) [
          | none ↦ none
          | some changes ↦ some (record d {
            provisioning = append_list d.provisioning (
                (record {
                  subscription_id = to_uuid e.uuids e.subscription_id;
                  customer_id = to_uuid e.uuids e.customer_id;
                  action_type = e.action_type;
                  status = "completed";
                  idempotency_key = e.idempotency_key;
                  policy_verdict_id = to_uuid e.uuids (some e.policy_verdict_id);
                  parameters = e.payload;
                  completed_at = e.now;
                })
                ∷ []);
            plan_changes = changes;
          })
        ]
    else none
