-- ===== src/Worker/Guarded/Safety.antt =====
-- What a guarded action may do: nothing without an authorised verdict.
use livekit_agent.Base.{String, ◌≡◌, refl, inl, inr, ◌≢◌}
use livekit_agent.Base.Json.{Payload}
use livekit_agent.Persistence.Tables.{Db}
use livekit_agent.Policy.Engine.Order.{IsPermitted, evaluate_action-authorized}
use livekit_agent.Execution.Service as Execution
use livekit_agent.Execution.Service.{
  ExecEnv, ExecuteRequest, ExecuteResponse, execute, execute_racing,
}
use livekit_agent.Execution.Service.Idempotent.{only_execution_writes}
use livekit_agent.Worker.Session.{SessionUserData}
use livekit_agent.Worker.Outcomes.{ToolOutcome, refused, escalate, executed, failed}
use livekit_agent.Worker.Clients.{Call, reply_lost, client_execute, read_outcome}
use livekit_agent.Worker.Guarded.{GuardEnv, State, execute_authorized, execute_guarded_action}
use livekit_agent.Worker.Guarded.Endings.{
  Delivery-cases, IsCleared, IsBlocked, SameActions, Ending, blocked, sent,
  execute_guarded_action-Ending,
}

-- The outcome says that the action was done.
abbrev pub IsExecution : ToolOutcome → Type 0
IsExecution (executed action_type reference replay) = Unit
IsExecution _ = ⊥

blocked_or_executed : (o : ToolOutcome) → IsBlocked o → IsExecution o → ⊥
blocked_or_executed (refused rule_id reason) b h = h
blocked_or_executed (escalate rule_id reason) b h = h
blocked_or_executed (executed action_type reference replay) b h = b
blocked_or_executed (failed reason) b h = h

-- A tool tells the caller that an action was done only if the policy service was reached and its
-- rules permit the action in the context that was sent: no mandatory trigger, a verified identity
-- where it is needed, a confirmed payment within the cap, an eligible deferral.
pub executed-IsPermitted :
    (env : GuardEnv) (user : SessionUserData) (action_type : String) (payload : Payload) (db : Db)
    → IsExecution (execute_guarded_action env action_type payload (user, db)).0
    → (c : IsCleared env user action_type payload) × IsPermitted c.ctx env.thresholds
executed-IsPermitted env user action_type payload db h =
    go (execute_guarded_action-Ending env user action_type payload db) h
  where
    go :
        {end : ToolOutcome × State}
        → Ending env user action_type payload db end
        → IsExecution end.0
        → (c : IsCleared env user action_type payload) × IsPermitted c.ctx env.thresholds
    go (blocked o db' b same) h = elim (blocked_or_executed o b h) [ ]
    go (sent id db' c same) h =
        (c, (evaluate_action-authorized c.ctx env.thresholds).0 c.authorised)

-- Whatever the three calls do, lost answers included: where the policy service is not reached, or
-- its engine does not authorise the context that was sent, no action and no domain table changes,
-- the session keeps its keys, and the caller is told of a refusal or an escalation.
pub execute_guarded_action_fail_closed :
    (env : GuardEnv) (user : SessionUserData) (action_type : String) (payload : Payload) (db : Db)
    → ¬ IsCleared env user action_type payload
    → let (o, (user', db')) = execute_guarded_action env action_type payload (user, db) in
      IsBlocked o × (user' ≡ user) × SameActions db' db
execute_guarded_action_fail_closed env user action_type payload db h =
    go (execute_guarded_action-Ending env user action_type payload db)
  where
    go :
        {end : ToolOutcome × State}
        → Ending env user action_type payload db end
        → IsBlocked end.0 × (end.1.0 ≡ user) × SameActions end.1.1 db
    go (blocked o db' b same) = (b, refl, same)
    go (sent id db' c same) = elim (h c) [ ]

module _ (call : Call) (env : ExecEnv) (req : ExecuteRequest) (db : Db) where
  read_unexecuted :
      (o : Execution.Outcome)
      → (execute env req db).0 ≡ o
      → ¬ IsExecution (read_outcome call o)
      → (execute env req db).1 ≡ db
  unfolding execute
  read_unexecuted (Execution.Outcome.response r) e h = elim (h tt) [ ]
  read_unexecuted Execution.Outcome.raised e h = only_execution_writes env req db.actions db (inl e)

  client_execute_unexecuted :
      call.delivery ≢ reply_lost
      → ¬ IsExecution (client_execute call env req db).0
      → (client_execute call env req db).1 ≡ db
  unfolding client_execute
  client_execute_unexecuted k h = elim (Delivery-cases call.delivery) [
    | inl e ↦
        rw (e, client_execute)
          (read_unexecuted (execute env req db).0 refl (rw (e, client_execute) at h))
    | inr (inl e) ↦ rw (e, client_execute) refl
    | inr (inr e) ↦ elim (k e) [ ]
  ]

-- An outcome that does not say that the action was done leaves the actions and the domain's tables
-- as they were, unless it was the answer of the execution service that was lost.
pub execute_guarded_action_unexecuted :
    (env : GuardEnv) (user : SessionUserData) (action_type : String) (payload : Payload) (db : Db)
    → env.execution_call.delivery ≢ reply_lost
    → ¬ IsExecution (execute_guarded_action env action_type payload (user, db)).0
    → SameActions (execute_guarded_action env action_type payload (user, db)).1.1 db
unfolding execute_authorized
execute_guarded_action_unexecuted env user action_type payload db k h =
    go (execute_guarded_action-Ending env user action_type payload db) h
  where
    go :
        {end : ToolOutcome × State}
        → Ending env user action_type payload db end
        → ¬ IsExecution end.0
        → SameActions end.1.1 db
    go (blocked o db' b same) h = same
    go (sent id db' c same) h =
        rw (client_execute_unexecuted env.execution_call env.execution_env _ db' k h) same
