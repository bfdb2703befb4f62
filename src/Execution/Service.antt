-- ===== src/Execution/Service.antt =====
-- service.py of the execution service: at most one dispatch for each idempotency key.
pub mod Idempotent
pub mod Retry
use Prim.Native.String.{String, ◌++◌}
use mathlib.Core.List.{◌++◌ as append_list}
use livekit_agent.Base.{
  Bool, true, false, not, ◌&&◌, ◌||◌, Option, none, some, List, [], ◌∷◌, str_eq, or_else, any,
  if◌then◌else◌,
}
use livekit_agent.Base.Json.{str, Payload}
use livekit_agent.Audit.Ledger.{Hasher, pg_append}
use livekit_agent.Persistence.Uuid.{UuidLib, to_uuid, require_uuid}
use livekit_agent.Persistence.Tables.{PolicyVerdict, ActionLedger, succeeded, Domain, Db}
use livekit_agent.Execution.Executor.{Connector, dispatch, target_domain}
use livekit_agent.Execution.Projections.{project_domain_effect}
use livekit_agent.Execution.Projections.Mapping.{Effect}

pub record ExecuteRequest : Type 0 where
  pub idempotency_key : String
  pub action_type : String
  pub session_id : String
  pub policy_verdict_id : String
  pub customer_id : Option String
  pub subscription_id : Option String
  pub target_domain : Option String
  pub payload : Payload

pub record ExecuteResponse : Type 0 where
  pub status : String
  pub reference : String
  pub action_type : String
  pub replay : Bool

-- What a call takes from outside: the libraries, the clock, the generated ids and the connectors.
pub record ExecEnv : Type 0 where
  pub hasher : Hasher
  pub uuids : UuidLib
  pub now : String
  pub row_id : String
  pub audit_id : String
  pub fresh : String
  pub connector : Connector

-- The response, or the exception that the endpoint surfaces.
pub data Outcome : Type 0 where
  response : ExecuteResponse → Outcome
  raised : Outcome

-- `_by_key`
abbrev pub by_key : String → List ActionLedger → Option ActionLedger
by_key key [] = none
by_key key (row ∷ rows) = if str_eq row.idempotency_key key then some row else by_key key rows

-- `_replay`
unfoldable pub replay : ActionLedger → Outcome
replay row = response (record {
  status = "executed";
  reference = or_else row.adapter_reference "";
  action_type = row.action_type;
  replay = true;
})

-- `req.target_domain or target_domain(req.action_type)`
abbrev pub domain_of : Option String → String → String
domain_of none action_type = target_domain action_type
domain_of (some d) action_type = if str_eq d "" then target_domain action_type else d

abbrev pub is_on_file : String → List PolicyVerdict → Bool
is_on_file id = any (λ (v : PolicyVerdict). str_eq v.id id)

-- The row at the end of the transaction.
unfoldable pub ledger_row : ExecEnv → ExecuteRequest → String → ActionLedger
ledger_row env req reference = record {
  id = env.row_id;
  session_id = require_uuid env.uuids (some req.session_id);
  customer_id = to_uuid env.uuids req.customer_id;
  subscription_id = to_uuid env.uuids req.subscription_id;
  action_type = req.action_type;
  target_domain = domain_of req.target_domain req.action_type;
  idempotency_key = req.idempotency_key;
  policy_verdict_id = require_uuid env.uuids (some req.policy_verdict_id);
  parameters = req.payload;
  status = succeeded;
  attempt_count = 1;
  adapter_reference = some reference;
}

-- The savepoint: an exception of the projection leaves the domain as it was.
unfoldable pub savepoint : ExecEnv → ExecuteRequest → String → Domain → Domain
savepoint env req reference d =
    or_else
      (project_domain_effect
        (record {
          uuids = env.uuids;
          now = env.now;
          action_type = req.action_type;
          customer_id = req.customer_id;
          subscription_id = req.subscription_id;
          policy_verdict_id = req.policy_verdict_id;
          idempotency_key = req.idempotency_key;
          payload = req.payload;
          adapter_reference = some reference;
        })
        d)
      d

-- From the dispatch on: an exception rolls everything back, else the row is marked succeeded,
-- audited, projected and committed.
unfoldable pub finish : ExecEnv → ExecuteRequest → Db → Option String → Outcome × Db
unfolding ledger_row savepoint
finish env req db none = (raised, db)
finish env req db (some reference) =
    let (audit, _) =
      pg_append env.hasher env.now env.audit_id
        (some (require_uuid env.uuids (some req.session_id))) "execution_result"
        (("action_type", str req.action_type)
          ∷ ("reference", str reference)
          ∷ ("idempotency_key", str req.idempotency_key)
          ∷ [])
        (some ("action_ledger:" ++ env.row_id)) db.audit in
    (
      response (record {
        status = "executed";
        reference = reference;
        action_type = req.action_type;
        replay = false;
      }),
      record db {
        actions = append_list db.actions (ledger_row env req reference ∷ []);
        audit = audit;
        domain = savepoint env req reference db.domain;
      },
    )

-- The flush of the pending row: the key is unique and the verdict is on file, or the database
-- refuses, and the row that won the race is replayed if there is one.
unfoldable pub flush : ExecEnv → ExecuteRequest → Db → Option ActionLedger → Outcome × Db
unfolding finish replay
flush env req db (some row) = (replay row, db)
flush env req db none =
    if is_on_file (require_uuid env.uuids (some req.policy_verdict_id)) db.verdicts
    then finish env req db (
        dispatch env.connector env.fresh req.action_type req.payload req.customer_id
          req.idempotency_key)
    else (raised, db)

-- `execute`: the first lookup sees the rows `seen`, and the flush meets the database `db`, into
-- which other calls may have committed in between.
unfoldable pub execute_racing : ExecEnv → ExecuteRequest → List ActionLedger → Db → Outcome × Db
unfolding flush replay
execute_racing env req seen db = elim (by_key req.idempotency_key seen) [
  | some row ↦ (replay row, db)
  | none ↦ flush env req db (by_key req.idempotency_key db.actions)
]

-- A call that nothing overtakes.
unfoldable pub execute : ExecEnv → ExecuteRequest → Db → Outcome × Db
unfolding execute_racing
execute env req db = execute_racing env req db.actions db
