-- ===== src/Policy/Engine/Order.antt =====
-- What an authorised verdict means, and the order of the checks.
use livekit_agent.Base.{
  String, ◌≡◌, refl, subst, ◌≢◌, ◌↔◌, ◌⊎◌, inl, inr, true, false, Option, none, some, List, [], ◌∷◌,
  arith, eq_iff, str_eq, All, member, Bool-cases, Option-cases,
}
use livekit_agent.Base.Int.{ℤ, pos, ◌≤ℤ◌, ◌<ℤ◌}
use livekit_agent.Policy.Types.{
  authorized, escalate, VerdictResult, PolicyThresholds, PolicyContext,
}
use livekit_agent.Policy.Rules.{
  result, judge_amount, check_mandatory, check_payment, check_deferral, check_sim,
}
use livekit_agent.Policy.Engine.{Rule, sensitive_actions, run_rules, action_rules, evaluate_action}

-- The conditions on the caller that no action may violate.
pub record IsClear (ctx : PolicyContext) : Type 0 where
  pub no_fraud : ctx.fraud_suspected ≡ false
  pub no_vip : ctx.is_vip ≡ false
  pub calm : ctx.frustration ≡ false
  pub understood : ctx.clarification_attempts <ℤ pos 2
  pub identity : (ctx.identity_verified ≡ true) ⊎ (ctx.identity_attempts <ℤ pos 3)

check_mandatory-IsClear : (ctx : PolicyContext) → check_mandatory ctx ≡ none → IsClear ctx
unfolding check_mandatory
check_mandatory-IsClear ctx h = record {
  no_fraud = ground arith;
  no_vip = ground arith;
  calm = ground arith;
  understood = ground arith;
  identity = ground arith;
}

IsClear-check_mandatory : (ctx : PolicyContext) → IsClear ctx → check_mandatory ctx ≡ none
unfolding check_mandatory
IsClear-check_mandatory ctx c = ground (arith, c.identity)

-- The amount is under the cap, where there is one.
abbrev pub IsWithin : Option ℤ → ℤ → Type 0
IsWithin none cap = Unit
IsWithin (some amount) cap = amount ≤ℤ cap

-- What the documented rules allow, with no mention of the order in which they are tried.
pub record IsPermitted (ctx : PolicyContext) (t : PolicyThresholds) : Type 0 where
  pub clear : IsClear ctx
  pub known_caller :
      (member ctx.action_type sensitive_actions ≡ false) ⊎ (ctx.identity_verified ≡ true)
  pub payment :
      (ctx.action_type ≢ "EXECUTE_PAYMENT")
      ⊎ ((ctx.payment_confirmed ≡ true) × IsWithin ctx.amount t.payment_cap)
  pub deferral :
      (ctx.action_type ≢ "PAYMENT_DEFERRAL")
      ⊎ ((t.deferral_min_age_days ≤ℤ ctx.account_age_days)
          × (ctx.deferrals_this_year <ℤ t.deferral_max_per_year)
          × (ctx.unpaid_amount ≤ℤ t.deferral_unpaid_threshold))

judge_amount-IsWithin :
    (amount : Option ℤ) (t : PolicyThresholds)
    → ((judge_amount amount t).verdict ≡ authorized) ↔ IsWithin amount t.payment_cap
unfolding judge_amount
judge_amount-IsWithin none t = ground arith
judge_amount-IsWithin (some a) t = ground arith

abbrev Authorizes : VerdictResult → Type 0
Authorizes r = r.verdict ≡ authorized

mandatory-escalates :
    (ctx : PolicyContext) (r : VerdictResult) → check_mandatory ctx ≡ some r → r.verdict ≡ escalate
unfolding check_mandatory
mandatory-escalates ctx r h = ground arith

abbrev pub step_up : VerdictResult
step_up = result escalate "IDENTITY_STEP_UP" "sensitive action requires verified identity"

-- A text equals one name at most.
str_eq_clash : (a k j : String) → str_eq k j ≡ false → str_eq a k ≡ true → str_eq a j ≡ false
str_eq_clash a k j ne e = let p : a ≡ k = (eq_iff a k).0 e in rw p ne

-- A rule that is silent, or that authorises.
abbrev Passes : Option VerdictResult → Type 0
Passes none = Unit
Passes (some r) = Authorizes r

module _ (ctx : PolicyContext) (t : PolicyThresholds) where
  run_rules-Passes :
      (rules : List Rule)
      → All (λ (rule : Rule). Passes (rule ctx t)) rules
      → Authorizes (run_rules rules ctx t)
  unfolding run_rules
  run_rules-Passes [] h = refl
  run_rules-Passes (rule ∷ rules) h = elim (Option-cases (rule ctx t)) [
    | inl silent ↦ rw (silent, run_rules) (run_rules-Passes rules h.1)
    | inr (r, spoke) ↦ rw (spoke, run_rules) (rw spoke at h.0)
  ]

  abbrev PaymentClause : Type 0
  PaymentClause =
      (ctx.action_type ≢ "EXECUTE_PAYMENT")
      ⊎ ((ctx.payment_confirmed ≡ true) × IsWithin ctx.amount t.payment_cap)

  abbrev DeferralClause : Type 0
  DeferralClause =
      (ctx.action_type ≢ "PAYMENT_DEFERRAL")
      ⊎ ((t.deferral_min_age_days ≤ℤ ctx.account_age_days)
          × (ctx.deferrals_this_year <ℤ t.deferral_max_per_year)
          × (ctx.unpaid_amount ≤ℤ t.deferral_unpaid_threshold))

  abbrev pub IdentityClause : Type 0
  IdentityClause =
      (member ctx.action_type sensitive_actions ≡ false) ⊎ (ctx.identity_verified ≡ true)

  payment_clause : Authorizes (run_rules action_rules ctx t) → PaymentClause
  unfolding run_rules action_rules check_payment
  payment_clause h = elim (Bool-cases (str_eq ctx.action_type "EXECUTE_PAYMENT")) [
    | inl e ↦ inr (ground arith, (judge_amount-IsWithin ctx.amount t).0 (ground arith))
    | inr e ↦ inl (ground (arith, eq_iff ctx.action_type "EXECUTE_PAYMENT"))
  ]

  deferral_clause : Authorizes (run_rules action_rules ctx t) → DeferralClause
  unfolding run_rules action_rules check_payment check_deferral
  deferral_clause h = elim (Bool-cases (str_eq ctx.action_type "PAYMENT_DEFERRAL")) [
    | inl e ↦
        inr (ground (arith, str_eq_clash ctx.action_type "PAYMENT_DEFERRAL" "EXECUTE_PAYMENT" refl))
    | inr e ↦ inl (ground (arith, eq_iff ctx.action_type "PAYMENT_DEFERRAL"))
  ]

  payment-Passes : PaymentClause → Passes (check_payment ctx t)
  unfolding check_payment
  payment-Passes (inl ne) = ground (arith, eq_iff ctx.action_type "EXECUTE_PAYMENT")
  payment-Passes (inr (c, w)) = elim (Bool-cases (str_eq ctx.action_type "EXECUTE_PAYMENT")) [
    | inl e ↦ rw (e, c) ((judge_amount-IsWithin ctx.amount t).1 w)
    | inr e ↦ rw e tt
  ]

  deferral-Passes : DeferralClause → Passes (check_deferral ctx t)
  unfolding check_deferral
  deferral-Passes (inl ne) = ground (arith, eq_iff ctx.action_type "PAYMENT_DEFERRAL")
  deferral-Passes (inr w) = ground arith

  sim-Passes : IdentityClause → Passes (check_sim ctx t)
  unfolding check_sim
  sim-Passes (inl no_sim) = ground arith
  sim-Passes (inr known) = ground arith

  pub evaluate_action_mandatory :
      (r : VerdictResult) → check_mandatory ctx ≡ some r → evaluate_action ctx t ≡ r
  unfolding evaluate_action
  evaluate_action_mandatory r e = rw (e, evaluate_action)

  pub evaluate_action_unverified :
      check_mandatory ctx ≡ none
      → member ctx.action_type sensitive_actions ≡ true
      → ctx.identity_verified ≡ false
      → evaluate_action ctx t ≡ step_up
  unfolding evaluate_action
  evaluate_action_unverified e s v = rw (e, evaluate_action) (rw (s, v))

  pub evaluate_action_rules :
      check_mandatory ctx ≡ none
      → IdentityClause
      → evaluate_action ctx t ≡ run_rules action_rules ctx t
  unfolding evaluate_action
  evaluate_action_rules e (inl s) = rw (e, evaluate_action) (rw s)
  evaluate_action_rules e (inr v) =
      rw (e, evaluate_action)
        (rw v (elim (Bool-cases (member ctx.action_type sensitive_actions)) [
          | inl s ↦ rw s
          | inr s ↦ rw s
        ]))

  mandatory_first :
      Authorizes (evaluate_action ctx t) → (check_mandatory ctx ≡ none) × IdentityClause
  mandatory_first h = elim (Option-cases (check_mandatory ctx)) [
    | inr (r, e) ↦ cc (mandatory-escalates ctx r e, evaluate_action_mandatory r e)
    | inl e ↦ elim (Bool-cases (member ctx.action_type sensitive_actions)) [
      | inr s ↦ (e, inl s)
      | inl s ↦ elim (Bool-cases ctx.identity_verified) [
        | inl v ↦ (e, inr v)
        | inr v ↦ cc (evaluate_action_unverified e s v)
      ]
    ]
  ]

-- An action is authorised exactly when the rules permit it: no mandatory trigger, a verified
-- identity for a sensitive action, a confirmed payment within the cap, an eligible deferral.
pub evaluate_action-authorized :
    (ctx : PolicyContext) (t : PolicyThresholds)
    → ((evaluate_action ctx t).verdict ≡ authorized) ↔ IsPermitted ctx t
unfolding action_rules
evaluate_action-authorized ctx t = (sound, complete)
  where
    sound : Authorizes (evaluate_action ctx t) → IsPermitted ctx t
    sound h =
        let (quiet, known) = mandatory_first ctx t h in
        let rest = subst Authorizes (evaluate_action_rules ctx t quiet known) h in
        record {
          clear = check_mandatory-IsClear ctx quiet;
          known_caller = known;
          payment = payment_clause ctx t rest;
          deferral = deferral_clause ctx t rest;
        }

    complete : IsPermitted ctx t → Authorizes (evaluate_action ctx t)
    complete p =
        rw (evaluate_action_rules ctx t (IsClear-check_mandatory ctx p.clear) p.known_caller) (
          run_rules-Passes ctx t action_rules (
            payment-Passes ctx t p.payment,
            (deferral-Passes ctx t p.deferral, (sim-Passes ctx t p.known_caller, tt)),
          ))
