-- ===== src/Business/Api.antt =====
-- apps/business-api/src/business_api/main.py: the endpoints behind their roles.
pub mod Access
use livekit_agent.Base.{ℕ, String, Bool, true, Option, none, some, List, if◌then◌else◌}
use livekit_agent.Base.Int.{ℤ}
use livekit_agent.Audit.Ledger.{Hasher, pg_verify, pg_count}
use livekit_agent.Persistence.Uuid.{UuidLib}
use livekit_agent.Persistence.Tables.{Account, ActionLedger, PolicyVerdict}
use livekit_agent.Persistence.Crm.{Crm}
use livekit_agent.Persistence.Ticketing.{TicketRow, BusinessRule}
use livekit_agent.Business.Roles.{Minimum, conseiller, superviseur, administrateur, require_role}
use livekit_agent.Business.Kpis.{Kpis, Rounding, kpis}
use livekit_agent.Business.Records.{
  CustomerView, customer_360, EscalationLine, escalations, ActionLine, actions,
}
use livekit_agent.Business.Supervision.{SessionDetail, session_detail, VerdictLine, verdicts}
use livekit_agent.Business.Retention.{RetentionReport, JobEnv, Stores, run_retention}
use livekit_agent.Business.Integrity.{IntegrityReport, Office, run_integrity}

-- What the service reads and writes.
pub record BackOffice : Type 0 where
  pub stores : Stores
  pub crm : Crm
  pub accounts : List Account
  pub tickets : List TicketRow
  pub actions : List ActionLedger
  pub verdicts : List PolicyVerdict
  pub rules : List BusinessRule

-- A request, by its endpoint.
pub data ApiRequest : Type 0 where
  customer_view : String → ApiRequest
  session_view : String → ApiRequest
  escalation_list : String → ApiRequest
  verdict_list : String → ApiRequest
  action_list : String → ApiRequest
  kpi_view : ApiRequest
  audit_check : ApiRequest
  rule_list : ApiRequest
  integrity_job : ApiRequest
  retention_job : ℤ → Bool → ApiRequest

pub data Reply : Type 0 where
  forbidden : Reply
  missing : Reply
  customer : CustomerView → Reply
  session : SessionDetail → Reply
  escalated : List EscalationLine → Reply
  judged : List VerdictLine → Reply
  acted : List ActionLine → Reply
  measured : Kpis → Reply
  verified : Bool → ℕ → Reply
  ruled : List BusinessRule → Reply
  checked : IntegrityReport → Reply
  purged : RetentionReport → Reply

-- The role that the endpoint requires.
abbrev pub minimum : ApiRequest → Minimum
minimum (customer_view id) = conseiller
minimum (session_view id) = conseiller
minimum (escalation_list status) = superviseur
minimum (verdict_list id) = superviseur
minimum (action_list status) = superviseur
minimum kpi_view = superviseur
minimum audit_check = administrateur
minimum rule_list = administrateur
minimum integrity_job = administrateur
minimum (retention_job days dry_run) = administrateur

-- The libraries and the settings. The order of the rules is the database's.
pub record ApiEnv : Type 0 where
  pub uuids : UuidLib
  pub rounding : Rounding
  pub job : JobEnv
  pub by_domain : List BusinessRule → List BusinessRule
  pub default_role : Option String

abbrev pub or_missing {ℓ} : {A : Type ℓ} → (A → Reply) → Option A → Reply
or_missing f none = missing
or_missing f (some a) = f a

abbrev pub office_of : BackOffice → Office
office_of b = record { crm = b.crm; accounts = b.accounts; calls = b.stores.db }

module _ (env : ApiEnv) where
  -- The bodies of the endpoints.
  unfoldable pub respond : ApiRequest → BackOffice → Reply × BackOffice
  respond (customer_view id) b =
      (or_missing customer (customer_360 env.uuids id b.crm b.tickets), b)
  respond (session_view id) b = (or_missing session (session_detail env.uuids id b.stores.db), b)
  respond (escalation_list status) b = (escalated (escalations status b.stores.db.escalations), b)
  respond (verdict_list id) b = (judged (verdicts env.uuids id b.verdicts), b)
  respond (action_list status) b = (acted (actions status b.actions), b)
  respond kpi_view b = (measured (kpis env.rounding b.stores.db.sessions), b)
  respond audit_check b =
      (verified (pg_verify env.job.hasher b.stores.db.audit) (pg_count b.stores.db.audit), b)
  respond rule_list b = (ruled (env.by_domain b.rules), b)
  respond integrity_job b = (checked (run_integrity env.job.hasher (office_of b)), b)
  respond (retention_job days dry_run) b =
      let (report, stores) = run_retention env.job days dry_run b.stores in
      (purged report, record b { stores = stores })

  -- A request with its `X-Role` header.
  unfoldable pub serve : Option String → ApiRequest → BackOffice → Reply × BackOffice
  serve x_role q b =
      if require_role (minimum q) env.default_role x_role then respond q b else (forbidden, b)
