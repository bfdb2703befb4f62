-- ===== src/Worker/Tools/Promised.antt =====
-- What an executed tool promises about its caller.
use livekit_agent.Base.{
  ◌≡◌, refl, sym, ◌∙◌, subst, ◌⊎◌, inl, inr, String, Bool, true, none, some, List, member,
  Bool-cases, Option-cases,
}
use livekit_agent.Base.Int.{ℤ, pos, ◌≤ℤ◌, ◌<ℤ◌}
use livekit_agent.Base.Json.{Payload}
use livekit_agent.Persistence.Tables.{Db}
use livekit_agent.Policy.Types.{PolicyContext}
use livekit_agent.Policy.Engine.{sensitive_actions}
use livekit_agent.Policy.Engine.Order.{IsPermitted, IsClear}
use livekit_agent.Worker.Session.{CustomerContext, SessionUserData}
use livekit_agent.Worker.Clients.{parse_context}
use livekit_agent.Worker.Identity.{ensure_identity_verified}
use livekit_agent.Worker.Guarded.{GuardEnv, age_of, build_context, execute_guarded_action}
use livekit_agent.Worker.Guarded.Safety.{IsExecution, executed-IsPermitted}
use livekit_agent.Worker.Tools.{
  InvoiceRead, gated, payment_payload, make_payment, unpaid_amount, change_plan, top_up,
  toggle_roaming,
}
use livekit_agent.Worker.Tools.Sent.{
  sent_context, payment_context, change_plan_context, roaming_context, top_up_context,
}

some_inj : {A : Type 0} (a b : A) → some a ≡ some b → a ≡ b
some_inj a b e = cc e

-- The rules permit the context that the request is known to be read as.
executed_context :
    (env : GuardEnv) (user : SessionUserData) (action_type : String) (payload : Payload) (db : Db)
    (ctx : PolicyContext)
    → parse_context (build_context user action_type payload) ≡ some ctx
    → IsExecution (execute_guarded_action env action_type payload (user, db)).0
    → IsPermitted ctx env.thresholds
executed_context env user action_type payload db ctx read h =
    let (c, permitted) = executed-IsPermitted env user action_type payload db h in
    subst (λ x. IsPermitted x env.thresholds) (some_inj _ _ (sym c.parsed ∙ read)) permitted

verified_caller :
    (ctx : PolicyContext) (t : _)
    → IsPermitted ctx t
    → member ctx.action_type sensitive_actions ≡ true
    → ctx.identity_verified ≡ true
verified_caller ctx t p s = elim p.known_caller [ inl n ↦ cc (n, s) | inr v ↦ v ]

-- A gated tool that executed has passed the gate.
gated_execution :
    (env : GuardEnv) (verified : Bool) (action_type : String) (payload : Payload)
    (user : SessionUserData) (db : Db)
    → IsExecution (gated env verified action_type payload (user, db)).0
    → IsExecution
        (execute_guarded_action env action_type payload
          ((ensure_identity_verified verified user).1, db)).0
unfolding gated
gated_execution env verified action_type payload user db h =
    elim (Bool-cases (ensure_identity_verified verified user).0) [
      | inl e ↦ rw e at h
      | inr e ↦ elim (rw e at h) [ ]
    ]

-- Why a caller is let through: the session had verified the caller before, or the caller is resolved
-- and the verification task, which completed with `answered`, verified the caller now.
pub record IsVerifiedNow (user : SessionUserData) (answered : Bool) : Type 0 where
  pub customer : CustomerContext
  pub resolved : user.customer_context ≡ some customer
  pub verified : answered ≡ true

abbrev pub IsVerified : SessionUserData → Bool → Type 0
IsVerified user answered = (user.identity_verified ≡ true) ⊎ IsVerifiedNow user answered

-- What the gate leaves verified was verified for one of those reasons.
gate-IsVerified :
    (answered : Bool) (user : SessionUserData)
    → (ensure_identity_verified answered user).1.identity_verified ≡ true
    → IsVerified user answered
unfolding ensure_identity_verified
gate-IsVerified answered user h = elim (Bool-cases user.identity_verified) [
  | inl e ↦ inl e
  | inr e ↦ elim (Option-cases user.customer_context) [
    | inl none_of ↦ cc (rw none_of at (rw e at h), e)
    | inr (c, found) ↦
        inr (record { customer = c; resolved = found; verified = rw found at (rw e at h) })
  ]
]

-- A payment that the caller is told of: it was confirmed, is within the cap, and the caller is
-- verified, and after the gate in no case that a human must take.
pub record IsPayable (env : GuardEnv) (user : SessionUserData) (answered confirmed : Bool)
    (amount : ℤ) : Type 0 where
  pub verified : IsVerified user answered
  pub confirmed_by_caller : confirmed ≡ true
  pub within_cap : amount ≤ℤ env.thresholds.payment_cap
  pub clear : IsClear (sent_context (ensure_identity_verified answered user).1 "EXECUTE_PAYMENT")

-- `make_payment` reports a payment as executed only if the caller confirmed it, it is within the
-- cap, the caller was verified in the session before, or is resolved and was verified by the task
-- now, and the caller meets no mandatory escalation after the gate.
pub make_payment-IsPayable :
    (env : GuardEnv) (verified confirmed : Bool) (amount : ℤ) (user : SessionUserData) (db : Db)
    → IsExecution (make_payment env verified confirmed amount (user, db)).0
    → IsPayable env user verified confirmed amount
unfolding make_payment
make_payment-IsPayable env verified confirmed amount user db h =
    let user' = (ensure_identity_verified verified user).1 in
    let p =
      executed_context env user' "EXECUTE_PAYMENT" (payment_payload amount confirmed) db _
        (payment_context user' amount confirmed)
        (gated_execution env verified "EXECUTE_PAYMENT" (payment_payload amount confirmed) user db
          h) in
    elim p.payment [
      | inl other ↦ elim (other refl) [ ]
      | inr (said, within) ↦ record {
        verified = gate-IsVerified verified user (verified_caller _ _ p refl);
        confirmed_by_caller = said;
        within_cap = within;
        clear = record {
          no_fraud = p.clear.no_fraud;
          no_vip = p.clear.no_vip;
          calm = p.clear.calm;
          understood = p.clear.understood;
          identity = p.clear.identity;
        };
      }
    ]

-- A deferral that the caller is told of. The yearly maximum is only said to be above 0, which is the
-- number of deferrals that the tool sends.
pub record IsDeferrable (env : GuardEnv) (user : SessionUserData) (answered : Bool) (unpaid : ℤ)
    : Type 0 where
  pub verified : IsVerified user answered
  pub old_enough : env.thresholds.deferral_min_age_days ≤ℤ age_of user.customer_context
  pub not_forbidden : pos 0 <ℤ env.thresholds.deferral_max_per_year
  pub owes_little : unpaid ≤ℤ env.thresholds.deferral_unpaid_threshold
  pub clear : IsClear (sent_context (ensure_identity_verified answered user).1 "PAYMENT_DEFERRAL")

-- What the caller owes: nothing for a caller who is not resolved.
abbrev pub owed : SessionUserData → List InvoiceRead → ℤ
owed user invoices = elim user.customer_context [
  | none ↦ pos 0
  | some customer ↦ unpaid_amount invoices
]

-- The three tools that do not pass the identity gate report an execution only for a caller whose
-- identity the session has verified: the engine's own check stands in for the gate.
pub ungated_tools_verified :
    (env : GuardEnv) (code : String) (amount : ℤ) (enable : Bool) (user : SessionUserData) (db : Db)
    → IsExecution (change_plan env code (user, db)).0
      ⊎ IsExecution (top_up env amount (user, db)).0
      ⊎ IsExecution (toggle_roaming env enable (user, db)).0
    → user.identity_verified ≡ true
unfolding change_plan top_up toggle_roaming
ungated_tools_verified env code amount enable user db (inl h) =
    verified_caller _ _ (executed_context env user _ _ db _ (change_plan_context user code) h) refl
ungated_tools_verified env code amount enable user db (inr (inl h)) =
    verified_caller _ _ (executed_context env user _ _ db _ (top_up_context user amount) h) refl
ungated_tools_verified env code amount enable user db (inr (inr h)) =
    verified_caller _ _ (executed_context env user _ _ db _ (roaming_context user enable) h) refl
