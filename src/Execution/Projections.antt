-- ===== src/Execution/Projections.antt =====
-- projections.py of the execution service: the durable effect of an action in the domain's
-- tables. `none` is an exception, after which the savepoint is rolled back.
pub mod Mapping
pub mod Billing
pub mod Lines
use Prim.Native.String.{String}
use mathlib.Core.List.{◌++◌ as append_list}
use livekit_agent.Base.{
  ℕ, zero, suc, ◌+◌, ◌*◌, ◌/◌, ◌%◌, Bool, true, false, not, ◌&&◌, ◌||◌, Option, none, some, List,
  [], ◌∷◌, str_eq, or_else, any, member, ltb, leb, ◌==◌, if◌then◌else◌,
}
use livekit_agent.Base.Int.{ℤ, pos, negsuc}
use livekit_agent.Base.Json.{Scalar, null, flag, int, decimal, str, Payload}
use livekit_agent.Base.Dict.{Dict, lookup}
use livekit_agent.Base.Text.{show_ℤ, show_float}
use livekit_agent.Persistence.Uuid.{UuidLib, to_uuid}
use livekit_agent.Persistence.Tables.{
  Domain, Account, Invoice, Payment, PaymentPlan, Recharge, BlockUnblockCase, ProvisioningRequest,
  PlanChangeHistory,
}
use livekit_agent.Execution.Projections.Mapping.{Effect, projection_kind, sim_case_action}
use livekit_agent.Execution.Projections.Billing.{project_payment, project_plan}
use livekit_agent.Execution.Projections.Lines.{project_recharge, add_sim_case, project_provisioning}

-- `project_domain_effect`, by the kind of the projection
unfoldable pub project_kind : Effect → Domain → Option String → Option Domain
unfolding project_payment project_plan project_recharge add_sim_case project_provisioning
project_kind e d none = some d
project_kind e d (some kind) =
    if str_eq kind "payment"
    then project_payment e d
    else if str_eq kind "payment_plan"
    then project_plan e d
    else if str_eq kind "recharge"
    then project_recharge e d
    else if str_eq kind "sim_case"
    then add_sim_case e d (sim_case_action e.action_type) (to_uuid e.uuids e.subscription_id)
    else if str_eq kind "provisioning"
    then project_provisioning e d
    else some d

unfoldable pub project_domain_effect : Effect → Domain → Option Domain
unfolding project_kind projection_kind sim_case_action
project_domain_effect e d = project_kind e d (projection_kind e.action_type)
