-- ===== src/Policy/Service/Recorded.antt =====
-- Every verdict is recorded and audited, whatever it says.
use Prim.Native.String.{String, ◌++◌ as cat}
use text.Mathlib.TextPositions.{eq_refl}
use livekit_agent.Base.{
  ◌≡◌, refl, Bool, true, false, ◌&&◌, Option, none, some, List, [], ◌∷◌, ◌++◌, str_eq, any, All,
  All-append, any-append, any-append_last,
}
use livekit_agent.Base.Json.{Scalar, str, Payload}
use livekit_agent.Base.Dict.{lookup}
use livekit_agent.Audit.Ledger.{build_link, Hasher, Table, AuditLedgerEntry, pg_append, pg_verify}
use livekit_agent.Audit.Chain.{pg_append-verified}
use livekit_agent.Persistence.Tables.{PolicyVerdict, Db}
use livekit_agent.Policy.Types.{upper, VerdictResult, PolicyThresholds, PolicyContext}
use livekit_agent.Policy.Engine.{evaluate_action}
use livekit_agent.Policy.Outbound.{CharClass}
use livekit_agent.Policy.Service.{
  Env, model_dump, verdict_row, audit_verdict, persist, judge_action, judge_response,
}

abbrev is_text : Option Scalar → String → Bool
is_text (some (str s)) t = str_eq s t
is_text _ t = false

abbrev refers_to : Option String → String → Bool
refers_to none t = false
refers_to (some s) t = str_eq s t

-- The entry is about the row: it has its id in its reference, and its action and rule.
abbrev pub records : PolicyVerdict → AuditLedgerEntry → Bool
records row entry =
    str_eq entry.event_type "policy_verdict"
    && (refers_to entry.entity_reference (cat "policy_verdicts:" row.id)
        && (is_text (lookup "action" entry.payload) row.requested_action
            && is_text (lookup "rule_id" entry.payload) row.rule_id))

-- The chain verifies, and each verdict's row has its audit entry.
pub record IsAudited (hasher : Hasher) (db : Db) : Type 0 where
  pub chain : pg_verify hasher db.audit ≡ true
  pub all_recorded : All (λ (row : PolicyVerdict). any (records row) db.audit ≡ true) db.verdicts

still_recorded :
    (rows : List PolicyVerdict) (audit : Table) (entry : AuditLedgerEntry)
    → All (λ (row : PolicyVerdict). any (records row) audit ≡ true) rows
    → All (λ (row : PolicyVerdict). any (records row) (audit ++ entry ∷ []) ≡ true) rows
still_recorded [] audit entry h = tt
still_recorded (row ∷ rows) audit entry h =
    (any-append (records row) audit (entry ∷ []) h.0, still_recorded rows audit entry h.1)

module _ (env : Env) (session_id : String) (customer_id : Option String) (action direction : String)
    (result : VerdictResult) (inputs : Payload) where
  self_recorded :
      (audit : Table)
      → records
          (verdict_row env session_id customer_id action direction result inputs)
          (audit_verdict env session_id action result audit).1
        ≡ true
  unfolding verdict_row audit_verdict pg_append build_link
  self_recorded audit = simp eq_refl

  persist-IsAudited :
      (db : Db)
      → IsAudited env.hasher db
      → IsAudited env.hasher
          (persist env session_id customer_id action direction result inputs db).1
  unfolding persist pg_append
  persist-IsAudited db s = record {
    chain = (pg_append-verified env.hasher _ _ _ _ _ _ db.audit s.chain).0;
    all_recorded =
        All-append _ db.verdicts _ (still_recorded db.verdicts db.audit _ s.all_recorded) (
          any-append_last
              (records (verdict_row env session_id customer_id action direction result inputs))
              db.audit _ (self_recorded db.audit),
          tt,
        );
  }

-- What judging an action adds: one row under the returned id, with the engine's verdict and rule,
-- and one audit entry about that row.
pub record IsJudged (env : Env) (t : PolicyThresholds) (ctx : PolicyContext) (db : Db)
    (end : VerdictResult × String × Db) : Type 0 where
  pub engine : end.0 ≡ evaluate_action ctx t
  pub row : PolicyVerdict
  pub added : end.2.verdicts ≡ db.verdicts ++ row ∷ []
  pub named : row.id ≡ end.1
  pub says : row.verdict ≡ upper end.0.verdict
  pub ruled : row.rule_id ≡ end.0.rule_id
  pub about : row.requested_action ≡ ctx.action_type
  pub entry : AuditLedgerEntry
  pub audited : end.2.audit ≡ db.audit ++ entry ∷ []
  pub recorded : records row entry ≡ true
  pub trail : IsAudited env.hasher end.2
  pub actions : end.2.actions ≡ db.actions
  pub domain : end.2.domain ≡ db.domain

-- Judging an action on an audited trail returns what the engine says of it, adds one row under the
-- returned id with that verdict and rule, whatever it is, and one audit entry that names the row,
-- its action and its rule, leaves actions and domain alone, and leaves the trail audited: the chain
-- verifies, and every verdict on file has its audit entry.
pub judge_action-IsAudited :
    (env : Env) (t : PolicyThresholds) (ctx : PolicyContext) (db : Db)
    → IsAudited env.hasher db
    → IsJudged env t ctx db (judge_action env t ctx db)
unfolding judge_action verdict_row audit_verdict pg_append
judge_action-IsAudited env t ctx db s =
    let result = evaluate_action ctx t in
    record {
      engine = refl;
      row =
          verdict_row env ctx.session_id ctx.customer_id ctx.action_type "inbound" result
            (model_dump ctx);
      added = refl;
      named = refl;
      says = refl;
      ruled = refl;
      about = refl;
      entry = (audit_verdict env ctx.session_id ctx.action_type result db.audit).1;
      audited = refl;
      recorded =
          self_recorded env ctx.session_id ctx.customer_id ctx.action_type "inbound" result
            (model_dump ctx) db.audit;
      trail = persist-IsAudited env _ _ _ _ _ _ db s;
      actions = refl;
      domain = refl;
    }

-- So does judging a response.
pub judge_response-IsAudited :
    (chars : CharClass) (env : Env) (session_id text : String) (db : Db)
    → IsAudited env.hasher db
    → IsAudited env.hasher (judge_response chars env session_id text db).2
unfolding judge_response
judge_response-IsAudited chars env session_id text db s = persist-IsAudited env _ _ _ _ _ _ db s
