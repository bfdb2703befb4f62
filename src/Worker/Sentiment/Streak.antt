-- ===== src/Worker/Sentiment/Streak.antt =====
-- The counters of a session are what the turns were.
use livekit_agent.Base.{
  ℕ, suc, ◌≡◌, refl, sym, ◌∙◌, Bool, String, str_eq, none, some, inl, inr, Bool-cases, List, [],
  ◌∷◌, ◌++◌, map, leb, if◌then◌else◌,
}
use livekit_agent.Base.Int.{ℤ, leb_ℤ}
use mathlib.Core.List.{append_assoc, append-nil}
use livekit_agent.Base.Json.{flag, Payload}
use livekit_agent.Base.Dict.{Dict, lookup, insert, update, lookup-insert}
use livekit_agent.Worker.Guarded.{build_context}
use livekit_agent.Worker.Session.{SessionUserData}
use livekit_agent.Worker.Sentiment.{negative_threshold, escalate_after, value_of, score}

-- An update leaves a key that it does not have.
lookup-update :
    {V : Type 0} (k : String) (d e : Dict V)
    → lookup k e ≡ none
    → lookup k (update d e) ≡ lookup k d
lookup-update k d [] n = refl
lookup-update k d ((j, v) ∷ e) n = elim (Bool-cases (str_eq j k)) [
  | inl same ↦ cc (rw same at n)
  | inr other ↦
      lookup-update k (insert j v d) e (rw other at n) ∙ lookup-insert j k v d ∙ rw other refl
]

-- What the request to the policy service says of frustration, whatever payload says nothing of it.
sent_frustration :
    (user : SessionUserData) (action_type : String) (payload : Payload)
    → lookup "frustration" payload ≡ none
    → lookup "frustration" (build_context user action_type payload)
      ≡ some (flag (leb 3 user.consecutive_negative_turns))
unfolding build_context
sent_frustration user action_type payload silent = lookup-update "frustration" _ payload silent

module _ (lower : String → String) where
  -- The turns of a call, in order.
  abbrev pub score_all : List String → SessionUserData → SessionUserData
  score_all [] user = user
  score_all (t ∷ turns) user = score_all turns (score lower t user).1

  abbrev pub is_negative : String → Bool
  is_negative t = leb_ℤ (value_of (lower t)) negative_threshold

  -- The negative turns at the end of a call, `before` being those that ended what came before.
  abbrev pub last_negatives : ℕ → List String → ℕ
  last_negatives before [] = before
  last_negatives before (t ∷ turns) = last_negatives (if is_negative t then suc before else 0) turns

  abbrev pub values : List String → List ℤ
  values = map (λ (t : String). value_of (lower t))

  -- The offer of a human follows the count of negative turns.
  abbrev pub OffersInTime : SessionUserData → Type 0
  OffersInTime user =
      user.should_offer_escalation ≡ leb escalate_after user.consecutive_negative_turns

  -- After the turns of a call, in order, the session's count is the number of negative turns at its
  -- end, its history has the value of each turn, a human is offered exactly after two negative turns
  -- in a row, and the context that is then built for the policy service, with any payload that does
  -- not have the key, says frustration exactly after three.
  pub score_all-last_negatives :
      (turns : List String) (user : SessionUserData) (action_type : String) (payload : Payload)
      → OffersInTime user
      → lookup "frustration" payload ≡ none
      → let user' = score_all turns user in
        let negatives = last_negatives user.consecutive_negative_turns turns in
        (user'.consecutive_negative_turns ≡ negatives)
        × (user'.sentiment_history ≡ user.sentiment_history ++ values turns)
        × (user'.should_offer_escalation ≡ leb 2 negatives)
        × (lookup "frustration" (build_context user' action_type payload)
            ≡ some (flag (leb 3 negatives)))
  unfolding score
  score_all-last_negatives [] user action_type payload offers silent = (
    refl,
    sym (append-nil user.sentiment_history),
    offers,
    sent_frustration user action_type payload silent,
  )
  score_all-last_negatives (t ∷ turns) user action_type payload offers silent =
      let user' = (score lower t user).1 in
      let (count, history, offer, frustration) =
        score_all-last_negatives turns user' action_type payload refl silent in
      (
        count,
        history ∙ append_assoc user.sentiment_history (value_of (lower t) ∷ []) (values turns),
        offer,
        frustration,
      )
