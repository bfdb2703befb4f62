-- ===== src/Worker/Sentiment.antt =====
-- sentiment/sentiment_scorer.py and tools/clarification_tools.py: what the turns of a call leave in
-- the session. Scores are in thousandths.
pub mod Streak
use Prim.Native.Char.{code}
use Prim.Native.String.{String, [] as empty, ◌∷◌ as char_cons}
use mathlib.Core.List.{◌++◌ as append_list}
use livekit_agent.Base.{
  ℕ, suc, Bool, true, false, ◌&&◌, ◌||◌, ◌==◌, List, [], ◌∷◌, any, leb, if◌then◌else◌,
}
use livekit_agent.Base.Int.{ℤ, pos, negsuc, leb_ℤ}
use livekit_agent.Worker.Session.{SessionUserData}

abbrev pub negative_threshold : ℤ
negative_threshold = negsuc 349

abbrev pub escalate_after : ℕ
escalate_after = 2

-- English and French words, then the Arabic ones by their code points.
abbrev pub negative_words : List String
negative_words =
    "angry" ∷ "furious" ∷ "unacceptable" ∷ "terrible" ∷ "ridiculous" ∷ "useless" ∷ "worst"
    ∷ "frustrated" ∷ "frustrating" ∷ "scam" ∷ "cancel" ∷ "hate" ∷ "awful" ∷ "incompetent"
    ∷ "complaint" ∷ "inacceptable" ∷ "ridicule" ∷ "horrible" ∷ "arnaque" ∷ "scandaleux" ∷ "marre"
    ∷ "énervé" ∷ "colère" ∷ "inadmissible" ∷ "résilier" ∷ "honteux" ∷ "incompétent" ∷ "nul"
    ∷ "\u{633}\u{64a}\u{621}" ∷ "\u{63a}\u{627}\u{636}\u{628}"
    ∷ "\u{645}\u{631}\u{641}\u{648}\u{636}" ∷ "\u{641}\u{636}\u{64a}\u{62d}\u{629}"
    ∷ "\u{645}\u{632}\u{639}\u{62c}" ∷ "\u{633}\u{62e}\u{64a}\u{641}" ∷ []

abbrev pub positive_words : List String
positive_words =
    "thanks" ∷ "thank you" ∷ "great" ∷ "perfect" ∷ "helpful" ∷ "appreciate" ∷ "excellent" ∷ "merci"
    ∷ "parfait" ∷ "génial" ∷ "super" ∷ "\u{634}\u{643}\u{631}\u{627}"
    ∷ "\u{645}\u{645}\u{62a}\u{627}\u{632}" ∷ "\u{631}\u{627}\u{626}\u{639}" ∷ []

-- `text.startswith(word)`
abbrev pub starts_with : String → String → Bool
starts_with empty text = true
starts_with (char_cons c word) empty = false
starts_with (char_cons c word) (char_cons d text) = (code c == code d) && starts_with word text

-- `word in text`
abbrev pub occurs_in : String → String → Bool
occurs_in word empty = starts_with word empty
occurs_in word (char_cons c text) = starts_with word (char_cons c text) || occurs_in word text

abbrev pub mentions : List String → String → Bool
mentions words text = any (λ (word : String). occurs_in word text) words

-- The value of a turn, on the text in lower case.
unfoldable pub value_of : String → ℤ
value_of text =
    if mentions negative_words text
    then negsuc 999
    else if mentions positive_words text
    then pos 500
    else pos 0

-- `LexicalSentimentScorer.score`, with `str.lower` as an argument
unfoldable pub score : (String → String) → String → SessionUserData → ℤ × SessionUserData
unfolding value_of
score lower transcript user =
    let value = value_of (lower transcript) in
    let turns = if leb_ℤ value negative_threshold then suc user.consecutive_negative_turns else 0 in
    (
      value,
      record user {
        sentiment_history = append_list user.sentiment_history (value ∷ []);
        consecutive_negative_turns = turns;
        should_offer_escalation = leb escalate_after turns;
      },
    )

-- The answer of `request_clarification`: to ask, or to escalate.
pub data Clarification : Type 0 where
  ask : String → Clarification
  escalate : Clarification

unfoldable pub request_clarification : String → SessionUserData → Clarification × SessionUserData
request_clarification question user =
    let attempts = suc user.clarification_attempts in
    (
      if leb 2 attempts then escalate else ask question,
      record user { clarification_attempts = attempts },
    )
