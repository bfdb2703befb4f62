-- ===== src/Policy/Engine/Catalogue.antt =====
-- Which verdict each rule id carries.
use livekit_agent.Base.{
  String, ◌≡◌, refl, Bool, true, false, ◌&&◌, Option, none, some, List, [], ◌∷◌, arith, str_eq, any,
  member, Bool-cases, Option-cases, inl, inr,
}
use livekit_agent.Base.{All}
use livekit_agent.Base.Int.{ℤ, ltb_ℤ}
use livekit_agent.Policy.Engine.Order.{
  IdentityClause, evaluate_action_mandatory, evaluate_action_unverified, evaluate_action_rules,
}
use livekit_agent.Policy.Types.{
  Verdict, authorized, refused, escalate, VerdictResult, PolicyThresholds, PolicyContext,
}
use livekit_agent.Policy.Rules.{
  judge_amount, check_mandatory, check_payment, check_deferral, check_sim,
}
use livekit_agent.Policy.Engine.{Rule, sensitive_actions, action_rules, run_rules, evaluate_action}

abbrev same_verdict : Verdict → Verdict → Bool
same_verdict authorized authorized = true
same_verdict refused refused = true
same_verdict escalate escalate = true
same_verdict _ _ = false

-- The rule ids that the engine can return, each with its verdict. `SIM_IDENTITY_REQUIRED` is not
-- among them: the identity backstop answers first.
abbrev pub catalogue : List (String × Verdict)
catalogue =
    ("ESC_FRAUD", escalate)
    ∷ ("ESC_VIP", escalate)
    ∷ ("ESC_FRUSTRATION", escalate)
    ∷ ("ESC_CLARIFICATION", escalate)
    ∷ ("ESC_IDENTITY_FAILURE", escalate)
    ∷ ("IDENTITY_STEP_UP", escalate)
    ∷ ("PAY_NO_CONFIRMATION", refused)
    ∷ ("PAY_ABOVE_CAP", escalate)
    ∷ ("PAY_OK", authorized)
    ∷ ("DEF_MIN_AGE", refused)
    ∷ ("DEF_CAP", refused)
    ∷ ("DEF_UNPAID_REVIEW", escalate)
    ∷ ("DEF_OK", authorized)
    ∷ ("SIM_OK", authorized)
    ∷ ("DEFAULT_ALLOW", authorized)
    ∷ []

abbrev pub is_catalogued : VerdictResult → Bool
is_catalogued r =
    any (λ (entry : String × Verdict). str_eq entry.0 r.rule_id && same_verdict entry.1 r.verdict)
      catalogue

abbrev IsCatalogued : Option VerdictResult → Type 0
IsCatalogued none = Unit
IsCatalogued (some r) = is_catalogued r ≡ true

mandatory-IsCatalogued : (ctx : PolicyContext) → IsCatalogued (check_mandatory ctx)
unfolding check_mandatory
mandatory-IsCatalogued ctx = ground arith

judge-IsCatalogued :
    (amount : Option ℤ) (t : PolicyThresholds) → IsCatalogued (some (judge_amount amount t))
unfolding judge_amount
judge-IsCatalogued none t = refl
judge-IsCatalogued (some a) t = elim (Bool-cases (ltb_ℤ t.payment_cap a)) [
  | inl e ↦ rw e
  | inr e ↦ rw e
]

payment-IsCatalogued :
    (ctx : PolicyContext) (t : PolicyThresholds) → IsCatalogued (check_payment ctx t)
unfolding check_payment
payment-IsCatalogued ctx t = ground (arith, judge-IsCatalogued ctx.amount t)

deferral-IsCatalogued :
    (ctx : PolicyContext) (t : PolicyThresholds) → IsCatalogued (check_deferral ctx t)
unfolding check_deferral
deferral-IsCatalogued ctx t = ground arith

module _ (ctx : PolicyContext) (t : PolicyThresholds) where
  sim-IsCatalogued : IdentityClause ctx t → IsCatalogued (check_sim ctx t)
  unfolding check_sim
  sim-IsCatalogued (inl no_sim) = ground arith
  sim-IsCatalogued (inr known) = ground arith

  run_rules-IsCatalogued :
      (rules : List Rule)
      → All (λ (rule : Rule). IsCatalogued (rule ctx t)) rules
      → is_catalogued (run_rules rules ctx t) ≡ true
  unfolding run_rules
  run_rules-IsCatalogued [] h = refl
  run_rules-IsCatalogued (rule ∷ rules) h = elim (Option-cases (rule ctx t)) [
    | inl silent ↦ rw (silent, run_rules) (run_rules-IsCatalogued rules h.1)
    | inr (r, spoke) ↦ rw (spoke, run_rules) (rw spoke at h.0)
  ]

  after_mandatory :
      check_mandatory ctx ≡ none
      → IdentityClause ctx t
      → is_catalogued (evaluate_action ctx t) ≡ true
  unfolding action_rules
  after_mandatory e known = rw (evaluate_action_rules ctx t e known) (
      run_rules-IsCatalogued action_rules
        (payment-IsCatalogued ctx t, (deferral-IsCatalogued ctx t, (sim-IsCatalogued known, tt))))

-- Every verdict of the engine is one of the fifteen of the catalogue, rule id and verdict
-- together; so a SIM action never meets SIM_IDENTITY_REQUIRED.
pub evaluate_action-catalogued :
    (ctx : PolicyContext) (t : PolicyThresholds) → is_catalogued (evaluate_action ctx t) ≡ true
evaluate_action-catalogued ctx t = elim (Option-cases (check_mandatory ctx)) [
  | inr (r, e) ↦ rw (evaluate_action_mandatory ctx t r e) (rw e at (mandatory-IsCatalogued ctx))
  | inl e ↦ elim (Bool-cases (member ctx.action_type sensitive_actions)) [
    | inr s ↦ after_mandatory ctx t e (inl s)
    | inl s ↦ elim (Bool-cases ctx.identity_verified) [
      | inl v ↦ after_mandatory ctx t e (inr v)
      | inr v ↦ rw (evaluate_action_unverified ctx t e s v)
    ]
  ]
]
