-- ===== src/Tests/Tools.antt =====
-- The sensitive tools and the identity task at concrete inputs.
use livekit_agent.Base.{
  ◌≡◌, refl, inl, inr, Bool, true, false, String, some, List, [], ◌∷◌, any, str_eq, arith,
}
use livekit_agent.Base.Int.{pos}
use livekit_agent.Persistence.Tables.{empty_db}
use livekit_agent.Persistence.Uuid.{require_uuid}
use livekit_agent.Policy.Rules.{
  check_mandatory, check_payment, check_deferral, check_sim, judge_amount,
}
use livekit_agent.Policy.Engine.{evaluate_action, run_rules, action_rules}
use livekit_agent.Policy.Service.{judge_action, persist, verdict_row}
use livekit_agent.Execution.Executor.{dispatch, mock_reference}
use livekit_agent.Execution.Service.{execute, execute_racing, flush, finish}
use livekit_agent.Decision.{recommend}
use livekit_agent.Worker.Session.{SessionUserData, new_idempotency_key}
use livekit_agent.Worker.Clients.{
  client_recommend, client_evaluate, post_evaluate, parse_context, client_execute,
}
use livekit_agent.Worker.Guarded.{
  build_context, execute_authorized, follow_verdict, execute_guarded_action,
}
use livekit_agent.Worker.Guarded.Safety.{IsExecution}
use livekit_agent.Worker.Identity.{verify_answers, ensure_identity_verified}
use livekit_agent.Worker.Identity.Attempts.{first_answers, verify_answers-completes}
use livekit_agent.Worker.Tools.{InvoiceRead, gated, make_payment, top_up}
use livekit_agent.Worker.Tools.Promised.{IsPayable, make_payment-IsPayable, ungated_tools_verified}
use livekit_agent.Tests.Fixtures.{guard_env, session}

abbrev unverified : SessionUserData
unverified = record session { identity_verified = false }

abbrev is_right : String → Bool
is_right answer = str_eq answer "4321"

abbrev answers : List String
answers = "1111" ∷ "2222" ∷ "4321" ∷ []

verify_answers-completes_example :
    verify_answers is_right 0 answers ≡ some (any is_right (first_answers 3 answers))
verify_answers-completes_example = verify_answers-completes is_right answers (omega arith)

third_time : verify_answers is_right 0 answers ≡ some true
unfolding verify_answers
third_time = refl

paid : IsExecution (make_payment guard_env true true (pos 45000) (unverified, empty_db)).0
unfolding make_payment gated ensure_identity_verified execute_guarded_action build_context
    client_recommend recommend client_evaluate post_evaluate parse_context judge_action persist
    verdict_row evaluate_action check_mandatory run_rules action_rules check_payment judge_amount
    follow_verdict execute_authorized new_idempotency_key client_execute execute execute_racing
    flush finish require_uuid dispatch mock_reference
paid = tt

make_payment-IsPayable_example : IsPayable guard_env unverified true true (pos 45000)
make_payment-IsPayable_example =
    make_payment-IsPayable guard_env true true (pos 45000) unverified empty_db paid

abbrev invoices : List InvoiceRead
invoices =
    (record { amount = pos 30000; status = some "overdue" })
    ∷ (record { amount = pos 90000; status = some "paid" })
    ∷ []

topped_up : IsExecution (top_up guard_env (pos 10000) (session, empty_db)).0
unfolding top_up execute_guarded_action build_context client_recommend recommend client_evaluate
    post_evaluate parse_context judge_action persist verdict_row evaluate_action check_mandatory
    run_rules action_rules check_payment check_deferral check_sim follow_verdict execute_authorized
    new_idempotency_key client_execute execute execute_racing flush finish require_uuid dispatch
    mock_reference
topped_up = tt

ungated_tools_verified_example : session.identity_verified ≡ true
ungated_tools_verified_example =
    ungated_tools_verified guard_env "P1" (pos 10000) true session empty_db (inr (inl topped_up))
