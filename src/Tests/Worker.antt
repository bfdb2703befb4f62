-- ===== src/Tests/Worker.antt =====
-- The guarded path of the agent worker at concrete inputs.
use livekit_agent.Base.{List, subst, sym, ◌≡◌, refl, ◌⊎◌, true, false, [], ◌∷◌}
use livekit_agent.Base.Json.{Payload, decimal, flag}
use livekit_agent.Base.Int.{pos}
use livekit_agent.Persistence.Tables.{empty_db}
use livekit_agent.Persistence.Uuid.{require_uuid}
use livekit_agent.Policy.Types.{default_thresholds}
use livekit_agent.Policy.Rules.{check_mandatory, check_payment, judge_amount}
use livekit_agent.Policy.Engine.{evaluate_action, run_rules, action_rules}
use livekit_agent.Policy.Engine.Order.{IsPermitted}
use livekit_agent.Policy.Service.{judge_action, persist, verdict_row}
use livekit_agent.Execution.Executor.{dispatch, mock_reference}
use livekit_agent.Execution.Service.{execute, execute_racing, flush, finish, ledger_row, replay}
use livekit_agent.Decision.{recommend}
use livekit_agent.Worker.Session.{new_idempotency_key}
use livekit_agent.Worker.Outcomes.{executed, failed}
use livekit_agent.Worker.Clients.{
  client_recommend, client_evaluate, post_evaluate, parse_context, client_execute,
}
use livekit_agent.Worker.Guarded.{
  GuardEnv, build_context, execute_authorized, follow_verdict, execute_guarded_action,
}
use livekit_agent.Worker.Guarded.Endings.{IsCleared, IsBlocked, SameActions}
use livekit_agent.Worker.Guarded.Safety.{
  IsExecution, executed-IsPermitted, execute_guarded_action_fail_closed,
  execute_guarded_action_unexecuted,
}
use livekit_agent.Worker.Guarded.Repeat.{Between, acted, changed, after_all, later_action_replayed}
use livekit_agent.Tests.Fixtures.{guard_env, session, down}

abbrev payment_of : Payload
payment_of = ("amount", decimal (pos 45000)) ∷ ("payment_confirmed", flag true) ∷ []

abbrev larger_payment : Payload
larger_payment = ("amount", decimal (pos 90000)) ∷ ("payment_confirmed", flag true) ∷ []

abbrev unconfirmed : Payload
unconfirmed = ("amount", decimal (pos 45000)) ∷ []

abbrev policy_down : GuardEnv
policy_down = record guard_env { policy_call = down }

paid :
    (execute_guarded_action guard_env "EXECUTE_PAYMENT" payment_of (session, empty_db)).0
    ≡ executed "EXECUTE_PAYMENT" "PAY-00AABBCCDD" false
unfolding execute_guarded_action build_context client_recommend recommend client_evaluate
    post_evaluate parse_context judge_action persist verdict_row evaluate_action check_mandatory
    run_rules action_rules check_payment judge_amount follow_verdict execute_authorized
    new_idempotency_key client_execute execute execute_racing flush finish require_uuid dispatch
    mock_reference
paid = refl

executed-IsPermitted_example :
    (c : IsCleared guard_env session "EXECUTE_PAYMENT" payment_of) × IsPermitted c.ctx
      default_thresholds
executed-IsPermitted_example =
    executed-IsPermitted guard_env session "EXECUTE_PAYMENT" payment_of empty_db
      (subst IsExecution (sym paid) tt)

-- The policy service is down.
policy_down-IsBlocked : ¬ IsCleared policy_down session "EXECUTE_PAYMENT" payment_of
policy_down-IsBlocked c = cc (c.reached)

execute_guarded_action_fail_closed_example :
    let (o, (user', db')) =
      execute_guarded_action policy_down "EXECUTE_PAYMENT" payment_of (session, empty_db) in
    IsBlocked o × (user' ≡ session) × SameActions db' empty_db
execute_guarded_action_fail_closed_example =
    execute_guarded_action_fail_closed policy_down session "EXECUTE_PAYMENT" payment_of empty_db
      policy_down-IsBlocked

unpaid :
    ¬ IsExecution
      (execute_guarded_action guard_env "EXECUTE_PAYMENT" unconfirmed (session, empty_db)).0
unfolding execute_guarded_action build_context client_recommend recommend client_evaluate
    post_evaluate parse_context judge_action persist verdict_row evaluate_action check_mandatory
    run_rules action_rules check_payment judge_amount follow_verdict
unpaid h = h

execute_guarded_action_unexecuted_example :
    SameActions
      (execute_guarded_action guard_env "EXECUTE_PAYMENT" unconfirmed (session, empty_db)).1.1
      empty_db
execute_guarded_action_unexecuted_example =
    execute_guarded_action_unexecuted guard_env session "EXECUTE_PAYMENT" unconfirmed empty_db
      (λ p. cc p) unpaid

-- A top-up in the same session, and then what the caller says next.
abbrev meanwhile : List Between
meanwhile =
    acted guard_env "TOP_UP" (("amount", decimal (pos 10000)) ∷ [])
    ∷ changed (record session { consecutive_negative_turns = 2 })
    ∷ []

later_action_replayed_example :
    let s =
      after_all meanwhile
        (execute_guarded_action guard_env "EXECUTE_PAYMENT" payment_of (session, empty_db)).1 in
    let (o, s') = execute_guarded_action guard_env "EXECUTE_PAYMENT" larger_payment s in
    (IsBlocked o ⊎ (o ≡ executed "EXECUTE_PAYMENT" "PAY-00AABBCCDD" true) ⊎ (o ≡ failed ""))
    × (s'.1.actions ≡ s.1.actions)
later_action_replayed_example =
    later_action_replayed guard_env guard_env session "EXECUTE_PAYMENT" payment_of larger_payment
      empty_db "EXECUTE_PAYMENT" "PAY-00AABBCCDD" meanwhile paid

-- The larger payment is reported as done, with the first one's reference.
larger_payment_replayed :
    let s = (execute_guarded_action guard_env "EXECUTE_PAYMENT" payment_of (session, empty_db)).1 in
    (execute_guarded_action guard_env "EXECUTE_PAYMENT" larger_payment s).0
    ≡ executed "EXECUTE_PAYMENT" "PAY-00AABBCCDD" true
unfolding execute_guarded_action build_context client_recommend recommend client_evaluate
    post_evaluate parse_context judge_action persist verdict_row evaluate_action check_mandatory
    run_rules action_rules check_payment judge_amount follow_verdict execute_authorized
    new_idempotency_key client_execute execute execute_racing flush finish require_uuid dispatch
    mock_reference ledger_row replay
larger_payment_replayed = refl
