-- ===== src/Tests/Sentiment.antt =====
-- The turns of a call at concrete inputs.
use livekit_agent.Base.{◌≡◌, refl, true, some, String, List, [], ◌∷◌, ◌++◌, leb}
use livekit_agent.Base.Int.{pos, negsuc}
use livekit_agent.Worker.Sentiment.{value_of, score}
use livekit_agent.Worker.Sentiment.Streak.{
  score_all, last_negatives, values, score_all-last_negatives,
}
use livekit_agent.Base.Json.{flag}
use livekit_agent.Base.Dict.{lookup}
use livekit_agent.Worker.Guarded.{build_context}
use livekit_agent.Tests.Fixtures.{session}

abbrev as_is : String → String
as_is t = t

abbrev turns : List String
turns = "merci" ∷ "this is a scam" ∷ "c'est nul" ∷ []

turn_values : values as_is turns ≡ pos 500 ∷ negsuc 999 ∷ negsuc 999 ∷ []
unfolding value_of
turn_values = refl

offered : (score_all as_is turns session).should_offer_escalation ≡ true
unfolding score
offered = refl

score_all-last_negatives_example :
    let user' = score_all as_is turns session in
    let negatives = last_negatives as_is session.consecutive_negative_turns turns in
    (user'.consecutive_negative_turns ≡ negatives)
    × (user'.sentiment_history ≡ session.sentiment_history ++ values as_is turns)
    × (user'.should_offer_escalation ≡ leb 2 negatives)
    × (lookup "frustration" (build_context user' "TOP_UP" []) ≡ some (flag (leb 3 negatives)))
score_all-last_negatives_example =
    score_all-last_negatives as_is turns session "TOP_UP" [] refl refl
