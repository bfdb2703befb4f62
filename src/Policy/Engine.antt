-- ===== src/Policy/Engine.antt =====
-- engine.py of the policy service: the mandatory chain, the identity backstop, then the rules.
pub mod Order
pub mod Catalogue
use livekit_agent.Base.{String, not, ◌&&◌, Option, none, some, List, [], ◌∷◌, member, if◌then◌else◌}
use livekit_agent.Policy.Types.{
  authorized, escalate, VerdictResult, PolicyThresholds, PolicyContext,
}
use livekit_agent.Policy.Rules.{result, check_mandatory, check_payment, check_deferral, check_sim}

abbrev pub sensitive_actions : List String
sensitive_actions =
    "EXECUTE_PAYMENT" ∷ "PAYMENT_DEFERRAL" ∷ "UNBLOCK_SIM" ∷ "REPLACE_SIM" ∷ "REACTIVATE_SIM"
    ∷ "TOP_UP" ∷ "CHANGE_PLAN" ∷ "ACTIVATE_ROAMING" ∷ []

abbrev pub Rule : Type 0
Rule = PolicyContext → PolicyThresholds → Option VerdictResult

unfoldable pub action_rules : List Rule
action_rules = check_payment ∷ check_deferral ∷ check_sim ∷ []

-- `for rule in _ACTION_RULES`, then the default
unfoldable pub run_rules : List Rule → PolicyContext → PolicyThresholds → VerdictResult
run_rules [] ctx thresholds = result authorized "DEFAULT_ALLOW" "no rule objected to this action"
run_rules (rule ∷ rules) ctx thresholds =
    let rest = run_rules rules ctx thresholds in
    elim (rule ctx thresholds) [ none ↦ rest | some verdict ↦ verdict ]

unfoldable pub evaluate_action : PolicyContext → PolicyThresholds → VerdictResult
evaluate_action ctx thresholds = elim (check_mandatory ctx) [
  | some mandatory ↦ mandatory
  | none ↦
      if member ctx.action_type sensitive_actions && not ctx.identity_verified
      then result escalate "IDENTITY_STEP_UP" "sensitive action requires verified identity"
      else run_rules action_rules ctx thresholds
]
