-- ===== src/Tests/Policy.antt =====
-- The policy service at concrete inputs.
use livekit_agent.Base.{◌≡◌, refl, ◌↔◌, ◌⊎◌, true, false, some}
use livekit_agent.Base.Int.{negsuc}
use livekit_agent.Persistence.Tables.{empty_db}
use livekit_agent.Policy.Types.{authorized, refused, default_thresholds, default_context}
use livekit_agent.Policy.Rules.{check_mandatory, check_payment, judge_amount}
use livekit_agent.Policy.Engine.{evaluate_action, run_rules, action_rules}
use livekit_agent.Policy.Engine.Order.{IsPermitted, evaluate_action-authorized}
use livekit_agent.Policy.Engine.Catalogue.{is_catalogued, evaluate_action-catalogued}
use livekit_agent.Policy.Outbound.{codes, check_outbound}
use livekit_agent.Policy.Outbound.Unmasked.{Unmasked, check_outbound-Unmasked}
use livekit_agent.Policy.Service.{judge_action}
use livekit_agent.Policy.Service.Recorded.{IsAudited, IsJudged, judge_action-IsAudited}
use livekit_agent.Audit.Ledger.{pg_verify, verify_from}
use livekit_agent.Tests.Fixtures.{hasher, ascii, policy_env, payment_context}

payment_authorized :
    evaluate_action payment_context default_thresholds
    ≡ record { verdict = authorized; rule_id = "PAY_OK"; justification = "payment within policy" }
unfolding evaluate_action check_mandatory run_rules action_rules check_payment judge_amount
payment_authorized = refl

evaluate_action-authorized_example :
    ((evaluate_action payment_context default_thresholds).verdict ≡ authorized)
    ↔ IsPermitted payment_context default_thresholds
evaluate_action-authorized_example = evaluate_action-authorized payment_context default_thresholds

evaluate_action-catalogued_example :
    is_catalogued (evaluate_action (default_context "UNBLOCK_SIM") default_thresholds) ≡ true
evaluate_action-catalogued_example =
    evaluate_action-catalogued (default_context "UNBLOCK_SIM") default_thresholds

-- An amount below zero is under the cap.
negative_payment :
    (evaluate_action
      (record payment_context { amount = some (negsuc 999) })
      default_thresholds).verdict
    ≡ authorized
unfolding evaluate_action check_mandatory run_rules action_rules check_payment judge_amount
negative_payment = refl

check_outbound-Unmasked_example :
    (((check_outbound ascii "call 20123456 now").verdict ≡ refused)
      ↔ Unmasked ascii false (codes "call 20123456 now"))
    × (((check_outbound ascii "call 20123456 now").verdict ≡ refused)
        ⊎ ((check_outbound ascii "call 20123456 now").verdict ≡ authorized))
check_outbound-Unmasked_example = check_outbound-Unmasked ascii "call 20123456 now"

outbound_refused : (check_outbound ascii "call 20123456 now").verdict ≡ refused
unfolding check_outbound
outbound_refused = refl

outbound_masked : (check_outbound ascii "ending in 3456").verdict ≡ authorized
unfolding check_outbound
outbound_masked = refl

empty_db-IsAudited : IsAudited hasher empty_db
unfolding pg_verify verify_from
empty_db-IsAudited = record { chain = refl; all_recorded = tt }

judge_action-IsAudited_example :
    IsJudged policy_env default_thresholds payment_context empty_db
      (judge_action policy_env default_thresholds payment_context empty_db)
judge_action-IsAudited_example =
    judge_action-IsAudited policy_env default_thresholds payment_context empty_db empty_db-IsAudited
