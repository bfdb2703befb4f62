-- ===== src/Policy/Rules.antt =====
-- The rules of the policy service: mandatory_escalation.py, payment.py, deferral.py and sim.py.
use Prim.Native.String.{◌++◌}
use livekit_agent.Base.{
  String, not, ◌&&◌, Option, none, some, List, [], ◌∷◌, str_eq, member, if◌then◌else◌,
}
use livekit_agent.Base.Int.{ℤ, pos, ltb_ℤ, leb_ℤ}
use livekit_agent.Base.Text.{show_ℤ, fixed3}
use livekit_agent.Policy.Types.{
  Verdict, authorized, refused, escalate, VerdictResult, PolicyThresholds, PolicyContext,
}

-- `VerdictResult(verdict, rule_id, justification)`
abbrev pub result : Verdict → String → String → VerdictResult
result v rule why = record { verdict = v; rule_id = rule; justification = why }

abbrev pub identity_max_attempts : ℤ
identity_max_attempts = pos 3

abbrev pub clarification_max_attempts : ℤ
clarification_max_attempts = pos 2

unfoldable pub check_mandatory : PolicyContext → Option VerdictResult
check_mandatory ctx =
    if ctx.fraud_suspected
    then some (result escalate "ESC_FRAUD" "fraud suspicion on the account")
    else if ctx.is_vip
    then some (result escalate "ESC_VIP" "VIP / grand-compte customer (commercial policy)")
    else if ctx.frustration
    then some (result escalate "ESC_FRUSTRATION" "confirmed caller frustration")
    else if leb_ℤ clarification_max_attempts ctx.clarification_attempts
    then some (result escalate "ESC_CLARIFICATION" "two failed clarification attempts")
    else if leb_ℤ identity_max_attempts ctx.identity_attempts && not ctx.identity_verified
    then some (result escalate "ESC_IDENTITY_FAILURE" "repeated identity-verification failure")
    else none

-- `ctx.amount is not None and ctx.amount > thresholds.payment_cap`, with the amount in hand
unfoldable pub judge_amount : Option ℤ → PolicyThresholds → VerdictResult
judge_amount none thresholds = result authorized "PAY_OK" "payment within policy"
judge_amount (some amount) thresholds =
    if ltb_ℤ thresholds.payment_cap amount
    then result escalate "PAY_ABOVE_CAP" (
        "amount "
        ++ (fixed3 amount
            ++ (" above automatic cap " ++ (fixed3 thresholds.payment_cap ++ " TND"))))
    else result authorized "PAY_OK" "payment within policy"

unfoldable pub check_payment : PolicyContext → PolicyThresholds → Option VerdictResult
unfolding judge_amount
check_payment ctx thresholds =
    if not (str_eq ctx.action_type "EXECUTE_PAYMENT")
    then none
    else if not ctx.payment_confirmed
    then some (result refused "PAY_NO_CONFIRMATION" "verbal confirmation required before payment")
    else some (judge_amount ctx.amount thresholds)

unfoldable pub check_deferral : PolicyContext → PolicyThresholds → Option VerdictResult
check_deferral ctx thresholds =
    if not (str_eq ctx.action_type "PAYMENT_DEFERRAL")
    then none
    else if ltb_ℤ ctx.account_age_days thresholds.deferral_min_age_days
    then some (
        result refused "DEF_MIN_AGE" (
          "account age "
          ++ (show_ℤ ctx.account_age_days
              ++ ("d below minimum " ++ (show_ℤ thresholds.deferral_min_age_days ++ "d")))))
    else if leb_ℤ thresholds.deferral_max_per_year ctx.deferrals_this_year
    then some (result refused "DEF_CAP" "yearly payment-deferral cap reached")
    else if ltb_ℤ thresholds.deferral_unpaid_threshold ctx.unpaid_amount
    then some (
        result escalate "DEF_UNPAID_REVIEW" (
          "unpaid "
          ++ (fixed3 ctx.unpaid_amount
              ++ (" above "
                  ++ (fixed3 thresholds.deferral_unpaid_threshold ++ " TND; needs review")))))
    else some (result authorized "DEF_OK" "deferral within policy")

abbrev pub sim_actions : List String
sim_actions = "UNBLOCK_SIM" ∷ "REPLACE_SIM" ∷ "REACTIVATE_SIM" ∷ []

unfoldable pub check_sim : PolicyContext → PolicyThresholds → Option VerdictResult
check_sim ctx thresholds =
    if not (member ctx.action_type sim_actions)
    then none
    else if not ctx.identity_verified
    then some (
        result escalate "SIM_IDENTITY_REQUIRED"
          "SIM operation requires prior identity verification")
    else some (result authorized "SIM_OK" "SIM operation within policy")
