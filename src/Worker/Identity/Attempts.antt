-- ===== src/Worker/Identity/Attempts.antt =====
-- The task ends within three answers, and ends well on a right one only.
use livekit_agent.Base.{
  ℕ, zero, suc, ◌+◌, ◌≤◌, ◌≡◌, refl, String, Bool, some, List, [], ◌∷◌, length, any, arith,
}
use livekit_agent.Worker.Identity.{verify_answers}

-- The first answers, as many as `n`.
abbrev pub first_answers : ℕ → List String → List String
first_answers zero answers = []
first_answers (suc n) [] = []
first_answers (suc n) (answer ∷ answers) = answer ∷ first_answers n answers

verify_answers_from :
    (verify_fn : String → Bool) (left attempts : ℕ) (answers : List String)
    → attempts + suc left ≡ 3
    → suc left ≤ length answers
    → verify_answers verify_fn attempts answers
      ≡ some (any verify_fn (first_answers (suc left) answers))
unfolding verify_answers
verify_answers_from verify_fn left attempts [] e n = absurd (omega arith)
verify_answers_from verify_fn zero attempts (a ∷ answers) e n = ground arith
verify_answers_from verify_fn (suc left) attempts (a ∷ answers) e n =
    ground
      (arith, verify_answers_from verify_fn left (suc attempts) answers (omega arith) (omega arith))

-- Once three answers are given the task has completed, and its result is whether one of the first
-- three is right.
pub verify_answers-completes :
    (verify_fn : String → Bool) (answers : List String)
    → 3 ≤ length answers
    → verify_answers verify_fn 0 answers ≡ some (any verify_fn (first_answers 3 answers))
verify_answers-completes verify_fn answers n = verify_answers_from verify_fn 2 0 answers refl n
