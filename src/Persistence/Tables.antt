-- ===== src/Persistence/Tables.antt =====
-- The rows of packages/persistence/src/persistence/models that the services write: policy.py,
-- execution.py, billing.py, ocs.py, sim.py and provisioning.py. Amounts are whole millimes.
use livekit_agent.Base.{ℕ, String, Bool, Option, List, []}
use livekit_agent.Base.Int.{ℤ}
use livekit_agent.Base.Json.{Payload}
use livekit_agent.Audit.Ledger.{Table}

pub record PolicyVerdict : Type 0 where
  pub id : String
  pub session_id : String
  pub customer_id : Option String
  pub requested_action : String
  pub direction : String
  pub verdict : String
  pub rule_id : String
  pub justification : String
  pub inputs_snapshot : Payload

pub data ActionStatus : Type 0 where
  pending succeeded failed retrying : ActionStatus

pub record ActionLedger : Type 0 where
  pub id : String
  pub session_id : String
  pub customer_id : Option String
  pub subscription_id : Option String
  pub action_type : String
  pub target_domain : String
  pub idempotency_key : String
  pub policy_verdict_id : String
  pub parameters : Payload
  pub status : ActionStatus
  pub attempt_count : ℕ
  pub adapter_reference : Option String

pub record Account : Type 0 where
  pub id : String
  pub customer_id : String

pub record Invoice : Type 0 where
  pub id : String
  pub invoice_number : String

pub record Payment : Type 0 where
  pub account_id : String
  pub invoice_id : Option String
  pub customer_id : Option String
  pub amount : ℤ
  pub method : String
  pub gateway_reference : Option String
  pub idempotency_key : String
  pub status : String
  pub paid_at : String

pub record PaymentPlan : Type 0 where
  pub account_id : String
  pub customer_id : Option String
  pub total_amount : ℤ
  pub installment_count : ℕ
  pub installment_amount : ℤ
  pub status : String
  pub policy_verdict_id : Option String

pub record Recharge : Type 0 where
  pub subscription_id : String
  pub customer_id : String
  pub amount : ℤ
  pub channel : String
  pub idempotency_key : String
  pub transaction_reference : Option String
  pub status : String

pub record BlockUnblockCase : Type 0 where
  pub subscription_id : String
  pub action : String
  pub status : String
  pub identity_verified : Bool
  pub policy_verdict_id : Option String
  pub idempotency_key : String

pub record ProvisioningRequest : Type 0 where
  pub subscription_id : Option String
  pub customer_id : Option String
  pub action_type : String
  pub status : String
  pub idempotency_key : String
  pub policy_verdict_id : Option String
  pub parameters : Payload
  pub completed_at : String

pub record PlanChangeHistory : Type 0 where
  pub subscription_id : String
  pub from_plan : Option String
  pub to_plan : String
  pub changed_by : String

-- The tables that the projections read and write.
pub record Domain : Type 0 where
  pub customers : List String
  pub subscriptions : List String
  pub accounts : List Account
  pub invoices : List Invoice
  pub payments : List Payment
  pub payment_plans : List PaymentPlan
  pub recharges : List Recharge
  pub sim_cases : List BlockUnblockCase
  pub provisioning : List ProvisioningRequest
  pub plan_changes : List PlanChangeHistory

pub record Db : Type 0 where
  pub verdicts : List PolicyVerdict
  pub audit : Table
  pub actions : List ActionLedger
  pub domain : Domain

abbrev pub empty_domain : Domain
empty_domain = record {
  customers = [];
  subscriptions = [];
  accounts = [];
  invoices = [];
  payments = [];
  payment_plans = [];
  recharges = [];
  sim_cases = [];
  provisioning = [];
  plan_changes = [];
}

abbrev pub empty_db : Db
empty_db = record { verdicts = []; audit = []; actions = []; domain = empty_domain }
