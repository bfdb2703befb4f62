-- ===== src/Tests/Execution.antt =====
-- The execution service at concrete inputs.
use livekit_agent.Base.{◌≡◌, refl, inl, true, some, none, List, [], ◌∷◌}
use livekit_agent.Base.Json.{decimal}
use livekit_agent.Base.Int.{pos}
use livekit_agent.Audit.Ledger.{pg_verify, verify_from}
use livekit_agent.Persistence.Uuid.{require_uuid}
use livekit_agent.Persistence.Tables.{PolicyVerdict, Db, Domain, empty_db, empty_domain}
use livekit_agent.Execution.Executor.{mock_reference, dispatch}
use livekit_agent.Execution.Service.{
  ExecuteRequest, ExecuteResponse, response, raised, flush, finish, execute_racing, execute,
}
use livekit_agent.Execution.Service.Idempotent.{
  IsSound, IsExecuted, only_execution_writes, execute_racing-IsExecuted, fresh_response,
}
use livekit_agent.Execution.Service.Retry.{
  ServiceCall, execute_all, with_verdicts, execute_retry, execute_racing-IsSound,
  execute_unread_verdict,
}
use livekit_agent.Tests.Fixtures.{hasher, exec_env}

-- A verdict that refuses.
abbrev refusal : PolicyVerdict
refusal = record {
  id = "v1";
  session_id = "s1";
  customer_id = none;
  requested_action = "EXECUTE_PAYMENT";
  direction = "inbound";
  verdict = "REFUSED";
  rule_id = "PAY_NOT_CONFIRMED";
  justification = "payment requires explicit confirmation";
  inputs_snapshot = [];
}

-- One of another action that authorises, under the same id.
abbrev permission : PolicyVerdict
permission = record refusal { verdict = "AUTHORIZED"; requested_action = "TOP_UP" }

abbrev judged_db : Db
judged_db = record empty_db { verdicts = refusal ∷ [] }

abbrev payment : ExecuteRequest
payment = record {
  idempotency_key = "k1";
  action_type = "EXECUTE_PAYMENT";
  session_id = "s1";
  policy_verdict_id = "v1";
  customer_id = some "c1";
  subscription_id = none;
  target_domain = none;
  payload = ("amount", decimal (pos 45000)) ∷ [];
}

abbrev other_payment : ExecuteRequest
other_payment = record payment { payload = ("amount", decimal (pos 90000)) ∷ [] }

-- A request against a verdict that is not on file.
abbrev unjudged : ExecuteRequest
unjudged = record payment { policy_verdict_id = "v9" }

abbrev paid : ExecuteResponse
paid = fresh_response payment "PAY-00AABBCCDD"

payment_executes : (execute exec_env payment judged_db).0 ≡ response paid
unfolding execute execute_racing flush finish require_uuid dispatch mock_reference
payment_executes = refl

payment_races : (execute_racing exec_env payment [] judged_db).0 ≡ response paid
unfolding execute_racing flush finish require_uuid dispatch mock_reference
payment_races = refl

unjudged_raises : (execute_racing exec_env unjudged [] judged_db).0 ≡ raised
unfolding execute_racing flush require_uuid
unjudged_raises = refl

only_execution_writes_example : (execute_racing exec_env unjudged [] judged_db).1 ≡ judged_db
only_execution_writes_example =
    only_execution_writes exec_env unjudged [] judged_db (inl unjudged_raises)

execute_racing-IsExecuted_example :
    IsExecuted exec_env payment judged_db (execute_racing exec_env payment [] judged_db).1 paid
execute_racing-IsExecuted_example =
    execute_racing-IsExecuted exec_env payment [] judged_db paid payment_races refl

-- A payment with another key, that was on its way when the first one committed.
abbrev since : List ServiceCall
since = (record { env = exec_env; req = record payment { idempotency_key = "k2" }; seen = [] }) ∷ []

execute_retry_example :
    let db' = execute_all since (execute_racing exec_env payment [] judged_db).1 in
    execute exec_env other_payment db' ≡ (response (record paid { replay = true }), db')
execute_retry_example =
    execute_retry exec_env exec_env payment other_payment [] judged_db paid since payment_races refl
      refl

judged_db-IsSound : IsSound hasher judged_db
unfolding pg_verify verify_from
judged_db-IsSound = record { chain = refl; once = tt; judged = tt; finished = tt }

execute_racing-IsSound_example : IsSound hasher (execute_racing exec_env payment [] judged_db).1
execute_racing-IsSound_example =
    execute_racing-IsSound exec_env payment [] judged_db judged_db-IsSound

execute_unread_verdict_example :
    execute_racing exec_env payment [] (record judged_db { verdicts = permission ∷ [] })
    ≡ with_verdicts (permission ∷ []) (execute_racing exec_env payment [] judged_db)
execute_unread_verdict_example =
    execute_unread_verdict exec_env payment [] judged_db (permission ∷ []) refl

abbrev billed : Domain
billed = record empty_domain { accounts = (record { id = "b1"; customer_id = "c1" }) ∷ [] }
