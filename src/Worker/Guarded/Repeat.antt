-- ===== src/Worker/Guarded/Repeat.antt =====
-- A second action of one type in one session: the session keeps one key for each type of action.
use livekit_agent.Base.{
  String, ◌≡◌, ◌≢◌, subst, sym, ap, ◌∙◌, refl, ◌⊎◌, inl, inr, true, false, none, some, List, [],
  ◌∷◌, Option-cases, arith, eq_iff, str_eq,
}
use livekit_agent.Base.Json.{Payload}
use livekit_agent.Base.Dict.{lookup, lookup-insert, lookup-insert_self}
use livekit_agent.Audit.Ledger.{Hasher}
use livekit_agent.Persistence.Tables.{Db, ActionLedger}
use livekit_agent.Execution.Service as Execution
use livekit_agent.Execution.Service.{
  ExecEnv, ExecuteRequest, ExecuteResponse, execute, execute_racing, by_key, replay, ledger_row,
}
use livekit_agent.Execution.Service.Idempotent.{IsExecuted, execute_racing-IsExecuted}
use livekit_agent.Execution.Service.Retry.{execute_found, by_key-ledger_row, execute_racing_keeps}
use livekit_agent.Worker.Session.{SessionUserData, new_idempotency_key}
use livekit_agent.Worker.Outcomes.{ToolOutcome, executed, failed}
use livekit_agent.Worker.Clients.{Call, client_execute, read_outcome}
use livekit_agent.Worker.Guarded.{
  GuardEnv, State, build_context, request_of, execute_authorized, execute_guarded_action,
}
use livekit_agent.Worker.Guarded.Endings.{
  Delivery-cases, IsBlocked, Ending, blocked, sent, execute_guarded_action-Ending,
}

-- The session's key for the type of action is the key of a row, and this is what the row answers.
pub record IsDone (action_type reference : String) (s : State) : Type 0 where
  pub key : String
  pub kept : lookup action_type s.0.idempotency_keys ≡ some key
  pub row : ActionLedger
  pub found : by_key key s.1.actions ≡ some row
  pub named : row.action_type ≡ action_type
  pub answers : row.adapter_reference ≡ some reference

new_idempotency_key_kept :
    (h : Hasher) (fresh action_type : String) (user : SessionUserData)
    → let (key, user') = new_idempotency_key h fresh action_type user in
      lookup action_type user'.idempotency_keys ≡ some key
unfolding new_idempotency_key
new_idempotency_key_kept h fresh action_type user =
    elim (Option-cases (lookup action_type user.idempotency_keys)) [
      | inl e ↦ rw (e, new_idempotency_key) (lookup-insert_self action_type _ user.idempotency_keys)
      | inr (key, e) ↦ rw (e, new_idempotency_key) e
    ]

new_idempotency_key_again :
    (h : Hasher) (fresh action_type key : String) (user : SessionUserData)
    → lookup action_type user.idempotency_keys ≡ some key
    → new_idempotency_key h fresh action_type user ≡ (key, user)
unfolding new_idempotency_key
new_idempotency_key_again h fresh action_type key user e = rw (e, new_idempotency_key) refl

-- A client's outcome that is an execution and no replay.
client_executed :
    (call : Call) (env : ExecEnv) (req : ExecuteRequest) (db : Db) (a r : String)
    → (client_execute call env req db).0 ≡ executed a r false
    → (a ≡ req.action_type)
      × (by_key req.idempotency_key (client_execute call env req db).1.actions
          ≡ some (ledger_row env req r))
unfolding client_execute execute
client_executed call env req db a r h = elim (Delivery-cases call.delivery) [
  | inl e ↦ rw (e, client_execute) (go (execute env req db).0 refl (rw (e, client_execute) at h))
  | inr (inl e) ↦ cc (rw (e, client_execute) at h)
  | inr (inr e) ↦ cc (rw (e, client_execute) at h)
]
  where
    executes :
        (resp : ExecuteResponse)
        → (execute env req db).0 ≡ Execution.response resp
        → resp.replay ≡ false
        → IsExecuted env req db (execute env req db).1 resp
    executes resp e first = execute_racing-IsExecuted env req db.actions db resp e first

    go :
        (o : Execution.Outcome)
        → (execute env req db).0 ≡ o
        → read_outcome call o ≡ executed a r false
        → (a ≡ req.action_type)
          × (by_key req.idempotency_key (execute env req db).1.actions
              ≡ some (ledger_row env req r))
    go (Execution.Outcome.response resp) e p =
        let reference : resp.reference ≡ r = cc p in
        let first : resp.replay ≡ false = cc p in
        let done = executes resp e first in
        (
          cc (p, done.named),
          rw done.one_row (rw reference (by_key-ledger_row env req r db.actions done.new_key)),
        )
    go Execution.Outcome.raised e p = cc p

-- After a first execution the session is done with the type of action.
executed-IsDone :
    (env : GuardEnv) (user : SessionUserData) (action_type : String) (payload : Payload) (db : Db)
    (a r : String)
    → (execute_guarded_action env action_type payload (user, db)).0 ≡ executed a r false
    → (a ≡ action_type)
      × IsDone action_type r (execute_guarded_action env action_type payload (user, db)).1
unfolding execute_authorized ledger_row
executed-IsDone env user action_type payload db a r h =
    go (execute_guarded_action-Ending env user action_type payload db) h
  where
    go :
        {end : ToolOutcome × State}
        → Ending env user action_type payload db end
        → end.0 ≡ executed a r false
        → (a ≡ action_type) × IsDone action_type r end.1
    go (blocked o db' b same) h = elim (subst IsBlocked h b) [ ]
    go (sent id db' c same) h =
        let done = client_executed env.execution_call env.execution_env _ db' a r h in
        (
          done.0,
          record {
            key = (new_idempotency_key env.hasher env.key_uuid action_type user).0;
            kept = new_idempotency_key_kept env.hasher env.key_uuid action_type user;
            row =
                ledger_row env.execution_env
                  (request_of (new_idempotency_key env.hasher env.key_uuid action_type user).0
                    action_type id payload (build_context user action_type payload))
                  r;
            found = done.1;
            named = refl;
            answers = refl;
          },
        )

-- The client's answer when the key is found: the row's, as a replay, or a failure.
client_execute_found :
    (call : Call) (env : ExecEnv) (req : ExecuteRequest) (db : Db) (row : ActionLedger)
    (reference : String)
    → by_key req.idempotency_key db.actions ≡ some row
    → row.adapter_reference ≡ some reference
    → (((client_execute call env req db).0 ≡ executed row.action_type reference true)
        ⊎ ((client_execute call env req db).0 ≡ failed call.error))
      × ((client_execute call env req db).1 ≡ db)
unfolding client_execute replay
client_execute_found call env req db row reference found answers =
    elim (Delivery-cases call.delivery) [
      | inl e ↦
          rw (e, client_execute)
            (rw (execute_found env req db row found) (rw answers (inl refl, refl)))
      | inr (inl e) ↦ rw (e, client_execute) (inr refl, refl)
      | inr (inr e) ↦
          rw (e, client_execute) (rw (execute_found env req db row found) (inr refl, refl))
    ]

-- A key that is drawn for one type leaves the key of every type that has one.
new_idempotency_key_keeps :
    (h : Hasher) (fresh action_type kept_type key : String) (user : SessionUserData)
    → lookup kept_type user.idempotency_keys ≡ some key
    → lookup kept_type (new_idempotency_key h fresh action_type user).1.idempotency_keys ≡ some key
unfolding new_idempotency_key
new_idempotency_key_keeps h fresh action_type kept_type key user e =
    elim (Option-cases (lookup action_type user.idempotency_keys)) [
      | inr (k, old) ↦ rw (old, new_idempotency_key) e
      | inl new ↦
          let other : str_eq action_type kept_type ≡ false =
            ground (arith, eq_iff action_type kept_type, other_type new) in
          rw (new, new_idempotency_key)
            (lookup-insert action_type kept_type _ user.idempotency_keys ∙ rw other e)
    ]
  where
    other_type : lookup action_type user.idempotency_keys ≡ none → action_type ≢ kept_type
    other_type new same =
        let absent : lookup kept_type user.idempotency_keys ≡ none =
          ap (λ t. lookup t user.idempotency_keys) (sym same) ∙ new in
        cc (absent, e)

-- What may come between two actions of a session: a guarded action of any type, anything that
-- changes the session but not its keys, and a call of the execution service by another session.
pub data Between : Type 0 where
  acted : GuardEnv → String → Payload → Between
  changed : SessionUserData → Between
  elsewhere : ExecEnv → ExecuteRequest → List ActionLedger → Between

abbrev pub after_one : Between → State → State
after_one (acted env action_type payload) s = (execute_guarded_action env action_type payload s).1
after_one (changed user) (old, db) = (record user { idempotency_keys = old.idempotency_keys }, db)
after_one (elsewhere env req seen) (user, db) = (user, (execute_racing env req seen db).1)

abbrev pub after_all : List Between → State → State
after_all [] s = s
after_all (b ∷ bs) s = after_all bs (after_one b s)

client_execute_keeps :
    (call : Call) (env : ExecEnv) (req : ExecuteRequest) (db : Db) (key : String)
    (row : ActionLedger)
    → by_key key db.actions ≡ some row
    → by_key key (client_execute call env req db).1.actions ≡ some row
unfolding client_execute execute
client_execute_keeps call env req db key row e = elim (Delivery-cases call.delivery) [
  | inl d ↦ rw (d, client_execute) (execute_racing_keeps env req db.actions db key row e)
  | inr (inl d) ↦ rw (d, client_execute) e
  | inr (inr d) ↦ rw (d, client_execute) (execute_racing_keeps env req db.actions db key row e)
]

module _ {action_type reference : String} where
  acted-IsDone :
      (env : GuardEnv) (other_type : String) (payload : Payload) (s : State)
      → IsDone action_type reference s
      → IsDone action_type reference (execute_guarded_action env other_type payload s).1
  unfolding execute_authorized
  acted-IsDone env other_type payload s d =
      go (execute_guarded_action-Ending env s.0 other_type payload s.1)
    where
      go :
          {end : ToolOutcome × State}
          → Ending env s.0 other_type payload s.1 end
          → IsDone action_type reference end.1
      go (blocked o db' b same) = record {
        key = d.key;
        kept = d.kept;
        row = d.row;
        found = rw same.0 d.found;
        named = d.named;
        answers = d.answers;
      }
      go (sent id db' c same) = record {
        key = d.key;
        kept =
            new_idempotency_key_keeps env.hasher env.key_uuid other_type action_type d.key s.0
              d.kept;
        row = d.row;
        found =
            client_execute_keeps env.execution_call env.execution_env _ db' d.key d.row
              (rw same.0 d.found);
        named = d.named;
        answers = d.answers;
      }

  after_one-IsDone :
      (b : Between) (s : State)
      → IsDone action_type reference s
      → IsDone action_type reference (after_one b s)
  after_one-IsDone (acted env other_type payload) s d = acted-IsDone env other_type payload s d
  after_one-IsDone (changed user) s d = record {
    key = d.key;
    kept = d.kept;
    row = d.row;
    found = d.found;
    named = d.named;
    answers = d.answers;
  }
  after_one-IsDone (elsewhere env req seen) s d = record {
    key = d.key;
    kept = d.kept;
    row = d.row;
    found = execute_racing_keeps env req seen s.1 d.key d.row d.found;
    named = d.named;
    answers = d.answers;
  }

  after_all-IsDone :
      (bs : List Between) (s : State)
      → IsDone action_type reference s
      → IsDone action_type reference (after_all bs s)
  after_all-IsDone [] s d = d
  after_all-IsDone (b ∷ bs) s d = after_all-IsDone bs (after_one b s) (after_one-IsDone b s d)

-- Once a session has executed an action of one type, and after any actions of any types in the
-- session, any changes of the session that leave its keys, and any calls of other sessions, a call
-- for that type in the session, whatever it asks for, adds no action: it is blocked, it fails, or
-- its caller is told that it was done, with the reference of the first.
pub later_action_replayed :
    (env env' : GuardEnv) (user : SessionUserData) (action_type : String)
    (payload payload' : Payload) (db : Db) (a r : String) (between : List Between)
    → (execute_guarded_action env action_type payload (user, db)).0 ≡ executed a r false
    → let s = after_all between (execute_guarded_action env action_type payload (user, db)).1 in
      let (o, s') = execute_guarded_action env' action_type payload' s in
      (IsBlocked o ⊎ (o ≡ executed action_type r true) ⊎ (o ≡ failed env'.execution_call.error))
      × (s'.1.actions ≡ s.1.actions)
unfolding execute_authorized
later_action_replayed env env' user action_type payload payload' db a r between h =
    let first = (execute_guarded_action env action_type payload (user, db)).1 in
    let s = after_all between first in
    go s (after_all-IsDone between first (executed-IsDone env user action_type payload db a r h).1)
      (execute_guarded_action-Ending env' s.0 action_type payload' s.1)
  where
    go :
        (s : State)
        → IsDone action_type r s
        → {end : ToolOutcome × State} → Ending env' s.0 action_type payload' s.1 end
        → (IsBlocked end.0
            ⊎ (end.0 ≡ executed action_type r true)
            ⊎ (end.0 ≡ failed env'.execution_call.error))
          × (end.1.1.actions ≡ s.1.actions)
    go s d (blocked o db' b same) = (inl b, same.0)
    go s d (sent id db' c same) =
        let again =
          new_idempotency_key_again env'.hasher env'.key_uuid action_type d.key s.0 d.kept in
        let (told, unchanged) =
          client_execute_found env'.execution_call env'.execution_env
            (request_of (new_idempotency_key env'.hasher env'.key_uuid action_type s.0).0
              action_type id payload' (build_context s.0 action_type payload'))
            db' d.row r (rw (again, same.0) d.found) d.answers in
        (inr (rw d.named at told), rw unchanged same.0)
