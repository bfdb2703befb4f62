-- ===== src/Worker/Identity.antt =====
-- tasks/identity_verification_task.py and tools/guards.py: the step-up verification of a caller.
pub mod Attempts
use livekit_agent.Base.{
  ℕ, suc, String, Bool, true, false, Option, none, some, List, [], ◌∷◌, leb, or_else, if◌then◌else◌,
}
use livekit_agent.Worker.Session.{SessionUserData}

abbrev pub max_attempts : ℕ
max_attempts = 3

-- `verify_with_known_element` on the caller's answers, from a number of attempts on; `none` while
-- the task has not completed. `verify_fn` is the context service's answer.
unfoldable pub verify_answers : (String → Bool) → ℕ → List String → Option Bool
verify_answers verify_fn attempts [] = none
verify_answers verify_fn attempts (answer ∷ answers) =
    let rest = verify_answers verify_fn (suc attempts) answers in
    if verify_fn answer
    then some true
    else if leb max_attempts (suc attempts)
    then some false
    else rest

-- How a caller meets the gate: resolved or not, and what the task completes with.
unfoldable pub ensure_identity_verified : Bool → SessionUserData → Bool × SessionUserData
ensure_identity_verified verified user =
    if user.identity_verified then (true, user) else elim user.customer_context [
      | none ↦ (false, user)
      | some customer ↦ (
        verified,
        record user {
          identity_verified = verified;
          identity_attempts = suc user.identity_attempts;
        },
      )
    ]
