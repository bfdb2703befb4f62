-- ===== src/Execution/Service/Retry.antt =====
-- Retries of an executed action, the invariant of the tables, and what the call does not test.
use livekit_agent.Base.{
  String, ◌≡◌, inl, inr, refl, sym, ◌∙◌, ap, true, false, Option, none, some, List, [], ◌∷◌, ◌++◌,
  All-append, Bool-cases, Option-cases, map, any, str_eq, ◌||◌,
}
use text.Mathlib.TextPositions.{eq_refl}
use livekit_agent.Persistence.Uuid.{require_uuid}
use livekit_agent.Persistence.Tables.{PolicyVerdict, ActionLedger, Domain, Db}
use livekit_agent.Execution.Service.{
  ExecuteRequest, ExecuteResponse, ExecEnv, Outcome, response, by_key, replay, is_on_file,
  ledger_row, finish, flush, execute_racing, execute,
}
use livekit_agent.Execution.Service.Idempotent.{
  UniqueKeys-append, IsSound, Ending, replayed, failed, executed, execute_racing-Ending,
  execute_racing-IsExecuted, by_key-append_new, actions-finish, verdicts-finish, audit-finish,
}

-- A call whose key is found replays the row that has it.
pub execute_found :
    (env : ExecEnv) (req : ExecuteRequest) (db : Db) (row : ActionLedger)
    → by_key req.idempotency_key db.actions ≡ some row
    → execute env req db ≡ (replay row, db)
unfolding execute
execute_found env req db row e = rw (e, execute_racing)

pub by_key-ledger_row :
    (env : ExecEnv) (req : ExecuteRequest) (reference : String) (rows : List ActionLedger)
    → by_key req.idempotency_key rows ≡ none
    → by_key req.idempotency_key (rows ++ ledger_row env req reference ∷ [])
      ≡ some (ledger_row env req reference)
unfolding ledger_row
by_key-ledger_row env req reference rows e =
    by_key-append_new req.idempotency_key rows (ledger_row env req reference) e ∙ rw eq_refl

pub replay-ledger_row :
    (env : ExecEnv) (req : ExecuteRequest) (resp : ExecuteResponse)
    → resp.action_type ≡ req.action_type
    → resp.status ≡ "executed"
    → replay (ledger_row env req resp.reference) ≡ response (record resp { replay = true })
unfolding replay ledger_row
replay-ledger_row env req resp e s = ap response (λ i. record {
  status = sym s i;
  reference = resp.reference;
  action_type = sym e i;
  replay = true;
})

pub by_key-append_found :
    (key : String) (rows more : List ActionLedger) (row : ActionLedger)
    → by_key key rows ≡ some row
    → by_key key (rows ++ more) ≡ some row
by_key-append_found key [] more row e = cc e
by_key-append_found key (r ∷ rows) more row e = elim (Bool-cases (str_eq r.idempotency_key key)) [
  | inl same ↦ rw same (rw same at e)
  | inr other ↦ rw other (by_key-append_found key rows more row (rw other at e))
]

-- No call takes the row of a key away, or puts another one before it.
pub execute_racing_keeps :
    (env : ExecEnv) (req : ExecuteRequest) (seen : List ActionLedger) (db : Db) (key : String)
    (row : ActionLedger)
    → by_key key db.actions ≡ some row
    → by_key key (execute_racing env req seen db).1.actions ≡ some row
execute_racing_keeps env req seen db key row e = go (execute_racing-Ending env req seen db)
  where
    go : {end : Outcome × Db} → Ending env req seen db end → by_key key end.1.actions ≡ some row
    go (replayed row found) = e
    go failed = e
    go (executed reference new filed) =
        rw (actions-finish env req db reference)
          (by_key-append_found key db.actions (ledger_row env req reference ∷ []) row e)

-- A call of the service, with the rows that its first lookup sees.
pub record ServiceCall : Type 0 where
  pub env : ExecEnv
  pub req : ExecuteRequest
  pub seen : List ActionLedger

abbrev pub execute_all : List ServiceCall → Db → Db
execute_all [] db = db
execute_all (c ∷ calls) db = execute_all calls (execute_racing c.env c.req c.seen db).1

execute_all_keeps :
    (calls : List ServiceCall) (db : Db) (key : String) (row : ActionLedger)
    → by_key key db.actions ≡ some row
    → by_key key (execute_all calls db).actions ≡ some row
execute_all_keeps [] db key row e = e
execute_all_keeps (c ∷ calls) db key row e =
    execute_all_keeps calls _ key row (execute_racing_keeps c.env c.req c.seen db key row e)

-- Once an action has executed, and after any calls with any keys since, each racing with others or
-- not, a call with its key, whatever else the call says, has the same answer marked as a replay,
-- and changes nothing.
pub execute_retry :
    (env env' : ExecEnv) (req req' : ExecuteRequest) (seen : List ActionLedger) (db : Db)
    (resp : ExecuteResponse) (since : List ServiceCall)
    → (execute_racing env req seen db).0 ≡ response resp
    → resp.replay ≡ false
    → req'.idempotency_key ≡ req.idempotency_key
    → let db' = execute_all since (execute_racing env req seen db).1 in
      execute env' req' db' ≡ (response (record resp { replay = true }), db')
execute_retry env env' req req' seen db resp since h r k =
    let done = execute_racing-IsExecuted env req seen db resp h r in
    let db' = execute_all since (execute_racing env req seen db).1 in
    let row = ledger_row env req resp.reference in
    execute_found env' req' db' row (
      ap (λ key. by_key key db'.actions) k
      ∙ execute_all_keeps since (execute_racing env req seen db).1 req.idempotency_key row
          (rw done.one_row (by_key-ledger_row env req resp.reference db.actions done.new_key)))
    ∙ ap (λ (o : Outcome). (o, db')) (replay-ledger_row env req resp done.named done.status)

finish-IsSound :
    (env : ExecEnv) (req : ExecuteRequest) (db : Db) (reference : String)
    → by_key req.idempotency_key db.actions ≡ none
    → is_on_file (require_uuid env.uuids (some req.policy_verdict_id)) db.verdicts ≡ true
    → IsSound env.hasher db
    → IsSound env.hasher (finish env req db (some reference)).1
unfolding ledger_row
finish-IsSound env req db reference new filed s = record {
  chain = audit-finish env req db reference s.chain;
  once = rw (actions-finish env req db reference) (UniqueKeys-append db.actions _ s.once new);
  judged =
      rw (actions-finish env req db reference, verdicts-finish env req db reference)
        (All-append _ db.actions _ s.judged (filed, tt));
  finished =
      rw (actions-finish env req db reference)
        (All-append _ db.actions _ s.finished ((refl, reference, refl), tt));
}

-- Whatever it meets, a call keeps the tables sound: the audit chain verifies, no key stands in
-- two rows, every row names a verdict on file, and has succeeded with a reference.
pub execute_racing-IsSound :
    (env : ExecEnv) (req : ExecuteRequest) (seen : List ActionLedger) (db : Db)
    → IsSound env.hasher db
    → IsSound env.hasher (execute_racing env req seen db).1
execute_racing-IsSound env req seen db s = go (execute_racing-Ending env req seen db)
  where
    go : {end : Outcome × Db} → Ending env req seen db end → IsSound env.hasher end.1
    go (replayed row found) = s
    go failed = s
    go (executed reference new filed) = finish-IsSound env req db reference new filed s

-- Verdicts that differ in all but their ids.
abbrev verdict_ids : List PolicyVerdict → List String
verdict_ids = map (λ (v : PolicyVerdict). v.id)

is_on_file-ids :
    (id : String) (vs ws : List PolicyVerdict)
    → verdict_ids vs ≡ verdict_ids ws
    → is_on_file id vs ≡ is_on_file id ws
is_on_file-ids id vs ws e = by_id vs ∙ ap (λ ids. any (λ i. str_eq i id) ids) e ∙ sym (by_id ws)
  where
    by_id : (us : List PolicyVerdict) → is_on_file id us ≡ any (λ i. str_eq i id) (verdict_ids us)
    by_id [] = refl
    by_id (u ∷ us) = ap (λ b. str_eq u.id id || b) (by_id us)

-- The same result with other verdicts on file.
abbrev pub with_verdicts : List PolicyVerdict → Outcome × Db → Outcome × Db
with_verdicts vs (o, db) = (o, record db { verdicts = vs })

finish_unread :
    (env : ExecEnv) (req : ExecuteRequest) (db : Db) (vs : List PolicyVerdict) (o : Option String)
    → finish env req (record db { verdicts = vs }) o ≡ with_verdicts vs (finish env req db o)
unfolding finish
finish_unread env req db vs none = refl
finish_unread env req db vs (some reference) = refl

flush_unread :
    (env : ExecEnv) (req : ExecuteRequest) (db : Db) (vs : List PolicyVerdict)
    (o : Option ActionLedger)
    → verdict_ids vs ≡ verdict_ids db.verdicts
    → flush env req (record db { verdicts = vs }) o ≡ with_verdicts vs (flush env req db o)
unfolding flush
flush_unread env req db vs (some row) e = refl
flush_unread env req db vs none e =
    let id = require_uuid env.uuids (some req.policy_verdict_id) in
    let same = is_on_file-ids id vs db.verdicts e in
    elim (Bool-cases (is_on_file id db.verdicts)) [
      | inl filed ↦ rw (same, filed) (finish_unread env req db vs _)
      | inr missing ↦ rw (same, missing) refl
    ]

-- Whatever the call meets, what the verdicts on file say is not read: with other verdicts under the
-- same ids, be they AUTHORIZED, REFUSED or ESCALATE, of this session and action or not, the call
-- has the same answer and leaves the same actions, audit trail and domain.
pub execute_unread_verdict :
    (env : ExecEnv) (req : ExecuteRequest) (seen : List ActionLedger) (db : Db)
    (vs : List PolicyVerdict)
    → map (λ (v : PolicyVerdict). v.id) vs ≡ map (λ (v : PolicyVerdict). v.id) db.verdicts
    → execute_racing env req seen (record db { verdicts = vs })
      ≡ with_verdicts vs (execute_racing env req seen db)
unfolding execute_racing
execute_unread_verdict env req seen db vs e =
    elim (Option-cases (by_key req.idempotency_key seen)) [
      | inl new ↦ rw (new, execute_racing) (flush_unread env req db vs _ e)
      | inr (row, old) ↦ rw (old, execute_racing) refl
    ]

-- Two results that agree but for the domain's tables.
abbrev pub SameButDomain : Outcome × Db → Outcome × Db → Type 0
SameButDomain (o, a) (o', b) =
    (o ≡ o') × (a.actions ≡ b.actions) × (a.audit ≡ b.audit) × (a.verdicts ≡ b.verdicts)

module _ (env : ExecEnv) (req : ExecuteRequest) (db : Db) (d : Domain) where
  finish_blind :
      (o : Option String)
      → SameButDomain (finish env req db o) (finish env req (record db { domain = d }) o)
  unfolding finish
  finish_blind none = (refl, refl, refl, refl)
  finish_blind (some reference) = (refl, refl, refl, refl)

  flush_blind :
      (o : Option ActionLedger)
      → SameButDomain (flush env req db o) (flush env req (record db { domain = d }) o)
  unfolding flush
  flush_blind (some row) = (refl, refl, refl, refl)
  flush_blind none =
      elim (Bool-cases
        (is_on_file (require_uuid env.uuids (some req.policy_verdict_id)) db.verdicts)) [
          | inl filed ↦ rw filed (finish_blind _)
          | inr missing ↦ rw missing (refl, refl, refl, refl)
        ]

-- The state of the domain's tables, and so a projection that fails, has no influence on the
-- answer, on the ledger, on the audit trail or on the verdicts.
pub execute_domain_blind :
    (env : ExecEnv) (req : ExecuteRequest) (seen : List ActionLedger) (db : Db) (d : Domain)
    → SameButDomain
        (execute_racing env req seen db)
        (execute_racing env req seen (record db { domain = d }))
unfolding execute_racing
execute_domain_blind env req seen db d = elim (Option-cases (by_key req.idempotency_key seen)) [
  | inl new ↦ rw (new, execute_racing) (flush_blind env req db d _)
  | inr (row, old) ↦ rw (old, execute_racing) (refl, refl, refl, refl)
]
