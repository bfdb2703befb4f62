-- ===== src/Execution/Service/Idempotent.antt =====
-- At most one dispatch for each key, whatever overtakes a call; a call that raises changes nothing.
use livekit_agent.Base.{
  ◌+◌, String, ◌≡◌, ◌⊎◌, inl, inr, refl, sym, ◌∙◌, ap, true, false, Option, none, some, List, [],
  ◌∷◌, ◌++◌, arith, eq_iff, str_eq, All, length-append, Bool-cases, Option-cases, or_else,
  if◌then◌else◌,
}
use livekit_agent.Audit.Ledger.{Hasher, pg_verify, pg_append, pg_count}
use livekit_agent.Audit.Chain.{pg_append-verified}
use livekit_agent.Persistence.Uuid.{require_uuid}
use livekit_agent.Persistence.Tables.{ActionLedger, succeeded, Db}
use livekit_agent.Execution.Service.{
  ExecuteRequest, ExecuteResponse, ExecEnv, Outcome, response, raised, by_key, replay, is_on_file,
  ledger_row, finish, flush, execute_racing,
}

-- No key stands in two rows.
abbrev pub UniqueKeys : List ActionLedger → Type 0
UniqueKeys [] = Unit
UniqueKeys (row ∷ rows) = (by_key row.idempotency_key rows ≡ none) × UniqueKeys rows

pub by_key-append_old :
    (key : String) (rows : List ActionLedger) (row old : ActionLedger)
    → by_key key rows ≡ some old
    → by_key key (rows ++ row ∷ []) ≡ some old
by_key-append_old key [] row old e = cc
by_key-append_old key (r ∷ rows) row old e = ground (arith, by_key-append_old key rows row old)

pub by_key-append_new :
    (key : String) (rows : List ActionLedger) (row : ActionLedger)
    → by_key key rows ≡ none
    → by_key key (rows ++ row ∷ []) ≡ (if str_eq row.idempotency_key key then some row else none)
by_key-append_new key [] row e = refl
by_key-append_new key (r ∷ rows) row e = ground (arith, by_key-append_new key rows row)

pub UniqueKeys-append :
    (rows : List ActionLedger) (row : ActionLedger)
    → UniqueKeys rows
    → by_key row.idempotency_key rows ≡ none
    → UniqueKeys (rows ++ row ∷ [])
UniqueKeys-append [] row u e = (refl, tt)
UniqueKeys-append (r ∷ rows) row u e = (
  ground (
    arith,
    by_key-append_new r.idempotency_key rows row u.0,
    eq_iff row.idempotency_key r.idempotency_key,
    eq_iff r.idempotency_key row.idempotency_key,
  ),
  UniqueKeys-append rows row u.1 (ground arith),
)

-- What holds of the ledger's rows: the key is not found among the older rows, the verdict is on
-- file, and the row is finished, with a reference.
abbrev pub IsFinished : ActionLedger → Type 0
IsFinished row = (row.status ≡ succeeded) × (r : String) × (row.adapter_reference ≡ some r)

pub record IsSound (hasher : Hasher) (db : Db) : Type 0 where
  pub chain : pg_verify hasher db.audit ≡ true
  pub once : UniqueKeys db.actions
  pub judged :
      All (λ (row : ActionLedger). is_on_file row.policy_verdict_id db.verdicts ≡ true) db.actions
  pub finished : All IsFinished db.actions

-- The three ways in which a call ends.
pub data Ending (env : ExecEnv) (req : ExecuteRequest) (seen : List ActionLedger) (db : Db)
    : Outcome × Db → Type 0 where
  replayed :
      (row : ActionLedger)
      → (by_key req.idempotency_key seen ≡ some row)
        ⊎ (by_key req.idempotency_key db.actions ≡ some row)
      → Ending env req seen db (replay row, db)
  failed : Ending env req seen db (raised, db)
  executed :
      (reference : String)
      → by_key req.idempotency_key db.actions ≡ none
      → is_on_file (require_uuid env.uuids (some req.policy_verdict_id)) db.verdicts ≡ true
      → Ending env req seen db (finish env req db (some reference))

module _ (env : ExecEnv) (req : ExecuteRequest) where
  finish-Ending :
      (seen : List ActionLedger) (db : Db) (o : Option String)
      → by_key req.idempotency_key db.actions ≡ none
      → is_on_file (require_uuid env.uuids (some req.policy_verdict_id)) db.verdicts ≡ true
      → Ending env req seen db (finish env req db o)
  unfolding finish
  finish-Ending seen db none new filed = failed
  finish-Ending seen db (some reference) new filed = executed reference new filed

  flush-Ending :
      (seen : List ActionLedger) (db : Db) (o : Option ActionLedger)
      → by_key req.idempotency_key db.actions ≡ o
      → Ending env req seen db (flush env req db o)
  unfolding flush
  flush-Ending seen db (some row) e = replayed row (inr e)
  flush-Ending seen db none e =
      elim (Bool-cases
        (is_on_file (require_uuid env.uuids (some req.policy_verdict_id)) db.verdicts)) [
          | inl filed ↦ rw filed (finish-Ending seen db _ e filed)
          | inr missing ↦ rw missing failed
        ]

  pub execute_racing-Ending :
      (seen : List ActionLedger) (db : Db) → Ending env req seen db (execute_racing env req seen db)
  execute_racing-Ending seen db = elim (Option-cases (by_key req.idempotency_key seen)) [
    | inl new ↦
        unfold execute_racing in
        rw (new, execute_racing) (flush-Ending seen db (by_key req.idempotency_key db.actions) refl)
    | inr (row, old) ↦ unfold execute_racing in rw (old, execute_racing) (replayed row (inl old))
  ]

abbrev pub fresh_response : ExecuteRequest → String → ExecuteResponse
fresh_response req reference = record {
  status = "executed";
  reference = reference;
  action_type = req.action_type;
  replay = false;
}

abbrev pub old_response : ActionLedger → ExecuteResponse
old_response row = record {
  status = "executed";
  reference = or_else row.adapter_reference "";
  action_type = row.action_type;
  replay = true;
}

pub replay_lem : (row : ActionLedger) → replay row ≡ response (old_response row)
unfolding replay
replay_lem row = refl

module _ (env : ExecEnv) (req : ExecuteRequest) (db : Db) (reference : String) where
  pub response-finish :
      (finish env req db (some reference)).0 ≡ response (fresh_response req reference)
  unfolding finish
  response-finish = refl

  pub actions-finish :
      (finish env req db (some reference)).1.actions
      ≡ db.actions ++ ledger_row env req reference ∷ []
  unfolding finish
  actions-finish = refl

  pub verdicts-finish : (finish env req db (some reference)).1.verdicts ≡ db.verdicts
  unfolding finish
  verdicts-finish = refl

  pub audit-finish :
      pg_verify env.hasher db.audit ≡ true
      → (pg_verify env.hasher (finish env req db (some reference)).1.audit ≡ true)
  unfolding finish
  audit-finish v = (pg_append-verified env.hasher _ _ _ _ _ _ db.audit v).0

  count-finish : pg_count (finish env req db (some reference)).1.audit ≡ pg_count db.audit + 1
  unfolding finish pg_append pg_count
  count-finish = omega (arith, length-append db.audit)

  key-ledger_row : (ledger_row env req reference).idempotency_key ≡ req.idempotency_key
  unfolding ledger_row
  key-ledger_row = refl

-- The response of a call that did execute, and what it wrote.
response_inj : (a b : ExecuteResponse) → response a ≡ response b → a ≡ b
response_inj a b e = cc

-- A call that does not execute, because it raises or replays, leaves the database as it was.
pub only_execution_writes :
    (env : ExecEnv) (req : ExecuteRequest) (seen : List ActionLedger) (db : Db)
    → ((execute_racing env req seen db).0 ≡ raised)
      ⊎ ((resp : ExecuteResponse) × ((execute_racing env req seen db).0 ≡ response resp)
          × (resp.replay ≡ true))
    → (execute_racing env req seen db).1 ≡ db
only_execution_writes env req seen db h = go (execute_racing-Ending env req seen db) h
  where
    go :
        {end : Outcome × Db}
        → Ending env req seen db end
        → (end.0 ≡ raised)
          ⊎ ((resp : ExecuteResponse) × (end.0 ≡ response resp) × (resp.replay ≡ true))
        → end.1 ≡ db
    go (replayed row found) h = refl
    go failed h = refl
    go (executed reference new filed) (inl h) = cc (h, response-finish env req db reference)
    go (executed reference new filed) (inr (resp, h, r)) =
        cc (h, r, response-finish env req db reference)

-- What a call that executed has done: its key was new, the verdict that it names is on file, and
-- it added one row to the ledger, for its key and with its reference, and one audit entry.
pub record IsExecuted (env : ExecEnv) (req : ExecuteRequest) (db db' : Db) (resp : ExecuteResponse)
    : Type 0 where
  pub new_key : by_key req.idempotency_key db.actions ≡ none
  pub judged : is_on_file (require_uuid env.uuids (some req.policy_verdict_id)) db.verdicts ≡ true
  pub one_row : db'.actions ≡ db.actions ++ ledger_row env req resp.reference ∷ []
  pub verdicts_kept : db'.verdicts ≡ db.verdicts
  pub one_entry : pg_count db'.audit ≡ pg_count db.audit + 1
  pub status : resp.status ≡ "executed"
  pub named : resp.action_type ≡ req.action_type

-- A response that is no replay comes from an execution, also when other calls have committed
-- between the lookup of the key and the flush.
pub execute_racing-IsExecuted :
    (env : ExecEnv) (req : ExecuteRequest) (seen : List ActionLedger) (db : Db)
    (resp : ExecuteResponse)
    → (execute_racing env req seen db).0 ≡ response resp
    → resp.replay ≡ false
    → IsExecuted env req db (execute_racing env req seen db).1 resp
execute_racing-IsExecuted env req seen db resp h r = go (execute_racing-Ending env req seen db) h
  where
    go :
        {end : Outcome × Db}
        → Ending env req seen db end
        → end.0 ≡ response resp
        → IsExecuted env req db end.1 resp
    go (replayed row found) h = cc (h, r, replay_lem row)
    go failed h = cc h
    go (executed reference new filed) h =
        let same : fresh_response req reference ≡ resp =
          response_inj _ _ (sym (response-finish env req db reference) ∙ h) in
        record {
          new_key = new;
          judged = filed;
          one_row =
              actions-finish env req db reference
              ∙ ap (λ (x : ExecuteResponse). db.actions ++ ledger_row env req x.reference ∷ [])
                  same;
          verdicts_kept = verdicts-finish env req db reference;
          one_entry = count-finish env req db reference;
          status = sym (ap (λ (x : ExecuteResponse). x.status) same);
          named = sym (ap (λ (x : ExecuteResponse). x.action_type) same);
        }
