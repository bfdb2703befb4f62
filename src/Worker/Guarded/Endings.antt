-- ===== src/Worker/Guarded/Endings.antt =====
-- The two ways in which a guarded action goes: it stops before the execution service, or it is
-- sent there.
use livekit_agent.Base.{
  String, ◌≡◌, refl, ◌⊎◌, inl, inr, Option, none, some, arith, ltb, Bool-cases,
}
use livekit_agent.Base.Json.{Payload}
use livekit_agent.Base.Dict.{lookup}
use livekit_agent.Persistence.Tables.{Db}
use livekit_agent.Policy.Types.{authorized, Verdict, PolicyContext, PolicyThresholds}
use livekit_agent.Policy.Engine.{evaluate_action}
use livekit_agent.Policy.Service.{Env, judge_action}
use livekit_agent.Worker.Session.{SessionUserData}
use livekit_agent.Worker.Outcomes.{ToolOutcome, refused, escalate}
use livekit_agent.Worker.Clients.{
  Call, Delivery, served, request_lost, reply_lost, ClientVerdict, parse_context, client_recommend,
  client_evaluate, post_evaluate, read_verdict,
}
use livekit_agent.Worker.Guarded.{
  GuardEnv, State, present, is_true, build_context, execute_authorized, follow_verdict,
  execute_guarded_action,
}

-- The policy service was reached, its answer came back, and its engine authorises the context that
-- the schema reads from the request; the decision was confident enough.
pub record IsCleared (env : GuardEnv) (user : SessionUserData) (action_type : String)
    (payload : Payload) : Type 0 where
  pub reached : env.policy_call.delivery ≡ served
  pub ctx : PolicyContext
  pub parsed : parse_context (build_context user action_type payload) ≡ some ctx
  pub authorised : (evaluate_action ctx env.thresholds).verdict ≡ authorized

-- The outcome tells the caller that nothing was done.
abbrev pub IsBlocked : ToolOutcome → Type 0
IsBlocked (refused rule_id reason) = Unit
IsBlocked (escalate rule_id reason) = Unit
IsBlocked _ = ⊥

-- Two databases with the same actions and the same domain tables.
abbrev pub SameActions : Db → Db → Type 0
SameActions a b = (a.actions ≡ b.actions) × (a.domain ≡ b.domain)

pub data Ending (env : GuardEnv) (user : SessionUserData) (action_type : String) (payload : Payload)
    (db : Db) : ToolOutcome × State → Type 0 where
  blocked :
      (o : ToolOutcome) (db' : Db)
      → IsBlocked o
      → SameActions db' db
      → Ending env user action_type payload db (o, (user, db'))
  sent :
      (verdict_id : String) (db' : Db)
      → IsCleared env user action_type payload
      → SameActions db' db
      → Ending env user action_type payload db (
          execute_authorized env action_type payload
            (build_context user action_type payload)
            (some verdict_id)
            (user, db'))

-- A verdict of the client that authorises comes from the engine.
post_evaluate-SameActions :
    (env : Env) (t : PolicyThresholds) (ctx : Option PolicyContext) (db : Db)
    → SameActions (post_evaluate env t ctx db).1 db
unfolding post_evaluate judge_action
post_evaluate-SameActions env t none db = (refl, refl)
post_evaluate-SameActions env t (some ctx) db = (refl, refl)

pub Delivery-cases : (d : Delivery) → (d ≡ served) ⊎ (d ≡ request_lost) ⊎ (d ≡ reply_lost)
Delivery-cases served = inl refl
Delivery-cases request_lost = inr (inl refl)
Delivery-cases reply_lost = inr (inr refl)

client_evaluate-SameActions :
    (call : Call) (env : Env) (t : PolicyThresholds) (body : Payload) (db : Db)
    → SameActions (client_evaluate call env t body db).1 db
unfolding client_evaluate
client_evaluate-SameActions call env t body db = elim (Delivery-cases call.delivery) [
  | inl e ↦ rw (e, client_evaluate) (post_evaluate-SameActions env t (parse_context body) db)
  | inr (inl e) ↦ rw (e, client_evaluate) (refl, refl)
  | inr (inr e) ↦ rw (e, client_evaluate) (post_evaluate-SameActions env t (parse_context body) db)
]

-- A client's answer that authorises comes from the engine.
read_post :
    (call : Call) (env : Env) (t : PolicyThresholds) (body : Payload) (db : Db)
    (o : Option PolicyContext)
    → parse_context body ≡ o
    → (read_verdict call (post_evaluate env t o db).0).verdict ≡ authorized
    → (ctx : PolicyContext) × (parse_context body ≡ some ctx)
      × ((evaluate_action ctx t).verdict ≡ authorized)
unfolding post_evaluate judge_action
read_post call env t body db none p h = ground arith
read_post call env t body db (some ctx) p h = (ctx, p, h)

module _ (env : GuardEnv) (user : SessionUserData) (action_type : String) (payload : Payload)
    (db : Db) where
  abbrev context : Payload
  context = build_context user action_type payload

  abbrev answer : ClientVerdict × Db
  answer = client_evaluate env.policy_call env.policy_env env.thresholds context db

  answer-IsCleared : answer.0.verdict ≡ authorized → IsCleared env user action_type payload
  unfolding client_evaluate
  answer-IsCleared h = elim (Delivery-cases env.policy_call.delivery) [
    | inl e ↦
        let found =
          read_post env.policy_call env.policy_env env.thresholds context db (parse_context context)
            refl (rw (e, client_evaluate) at h) in
        record { reached = e; ctx = found.0; parsed = found.1; authorised = found.2 }
    | inr (inl e) ↦ cc (rw (e, client_evaluate) at h)
    | inr (inr e) ↦ cc (rw (e, client_evaluate) at h)
  ]

  execute_authorized-Ending :
      (id : Option String)
      → IsCleared env user action_type payload
      → Ending env user action_type payload db
          (execute_authorized env action_type payload context id (user, answer.1))
  unfolding execute_authorized
  execute_authorized-Ending none c = blocked _ _ tt (client_evaluate-SameActions _ _ _ _ db)
  execute_authorized-Ending (some id) c = sent id _ c (client_evaluate-SameActions _ _ _ _ db)

  follow_verdict-Ending :
      (v : Verdict)
      → answer.0.verdict ≡ v
      → Ending env user action_type payload db
          (follow_verdict env action_type payload context answer.0 (user, answer.1))
  unfolding follow_verdict
  follow_verdict-Ending Verdict.authorized e =
      rw (e, follow_verdict)
        (execute_authorized-Ending (present answer.0.verdict_id) (answer-IsCleared e))
  follow_verdict-Ending Verdict.refused e =
      rw (e, follow_verdict) (blocked _ _ tt (client_evaluate-SameActions _ _ _ _ db))
  follow_verdict-Ending Verdict.escalate e =
      rw (e, follow_verdict) (blocked _ _ tt (client_evaluate-SameActions _ _ _ _ db))

  pub execute_guarded_action-Ending :
      Ending env user action_type payload db
        (execute_guarded_action env action_type payload (user, db))
  unfolding execute_guarded_action
  execute_guarded_action-Ending =
      let confidence =
        (client_recommend env.decision_call action_type
          (is_true (lookup "identity_verified" context))).confidence in
      elim (Bool-cases (ltb confidence env.confidence_threshold)) [
        | inl e ↦ rw (execute_guarded_action, e) (blocked _ _ tt (refl, refl))
        | inr e ↦ rw (execute_guarded_action, e) (follow_verdict-Ending answer.0.verdict refl)
      ]
