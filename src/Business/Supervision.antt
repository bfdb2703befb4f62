-- ===== src/Business/Supervision.antt =====
-- apps/business-api/src/business_api/repositories.py: the reads over the call record, the verdicts
-- and the actions. Rows stand in the order of their creation.
pub mod Shown
use mathlib.Core.List.{reverse}
use livekit_agent.Base.{
  ℕ, String, Bool, true, false, not, ◌&&◌, Option, none, some, List, [], ◌∷◌, map, keep, str_eq,
  leb, if◌then◌else◌,
}
use livekit_agent.Base.Int.{ℤ}
use livekit_agent.Base.Json.{Payload}
use livekit_agent.Persistence.Uuid.{UuidLib, to_uuid}
use livekit_agent.Persistence.Tables.{PolicyVerdict}
use livekit_agent.Persistence.Conversation.{
  CallSession, Turn, SentimentSample, EscalationCase, Conversations,
}

pub record TurnLine : Type 0 where
  pub index : ℕ
  pub speaker : String
  pub agent : Option String
  pub text : Option String

pub record SampleLine : Type 0 where
  pub index : ℕ
  pub score : ℤ
  pub label : String

pub record SessionDetail : Type 0 where
  pub session_id : String
  pub disposition : Option String
  pub duration_seconds : Option ℤ
  pub max_frustration : ℤ
  pub turns : List TurnLine
  pub sentiment : List SampleLine

-- `ORDER BY turn_index`; rows of one index in the order of creation.
module _ {A : Type 0} (index : A → ℕ) where
  abbrev pub place : A → List A → List A
  place a [] = a ∷ []
  place a (b ∷ rows) = if leb (index a) (index b) then a ∷ b ∷ rows else b ∷ place a rows

  abbrev pub order_by : List A → List A
  order_by [] = []
  order_by (a ∷ rows) = place a (order_by rows)

-- `session.get(CallSession, id)`
abbrev pub get_session : String → List CallSession → Option CallSession
get_session id [] = none
get_session id (s ∷ sessions) = if str_eq s.id id then some s else get_session id sessions

abbrev pub turn_line : Turn → TurnLine
turn_line t = record {
  index = t.turn_index;
  speaker = t.speaker;
  agent = t.active_agent;
  text = t.transcript_masked;
}

abbrev pub sample_line : SentimentSample → SampleLine
sample_line s = record { index = s.turn_index; score = s.score; label = s.label }

abbrev pub turns_of : String → List Turn → List TurnLine
turns_of id turns =
    map turn_line
      (order_by (λ (t : Turn). t.turn_index) (keep (λ (t : Turn). str_eq t.session_id id) turns))

abbrev pub samples_of : String → List SentimentSample → List SampleLine
samples_of id samples = map sample_line (
    order_by (λ (s : SentimentSample). s.turn_index)
      (keep (λ (s : SentimentSample). str_eq s.session_id id) samples))

abbrev pub detail_of : String → Conversations → CallSession → SessionDetail
detail_of id db call = record {
  session_id = call.id;
  disposition = call.final_disposition;
  duration_seconds = call.duration_seconds;
  max_frustration = call.max_frustration_score;
  turns = turns_of id db.turns;
  sentiment = samples_of id db.sentiments;
}

-- `session_detail`
unfoldable pub session_detail : UuidLib → String → Conversations → Option SessionDetail
session_detail uuids session_id db = elim (to_uuid uuids (some session_id)) [
  | none ↦ none
  | some id ↦ elim (get_session id db.sessions) [
    | none ↦ none
    | some call ↦ some (detail_of id db call)
  ]
]

pub record VerdictLine : Type 0 where
  pub id : String
  pub action : String
  pub verdict : String
  pub rule_id : String
  pub justification : String

abbrev pub verdict_line : PolicyVerdict → VerdictLine
verdict_line v = record {
  id = v.id;
  action = v.requested_action;
  verdict = v.verdict;
  rule_id = v.rule_id;
  justification = v.justification;
}

-- `verdicts`
unfoldable pub verdicts : UuidLib → String → List PolicyVerdict → List VerdictLine
verdicts uuids session_id rows = elim (to_uuid uuids (some session_id)) [
  | none ↦ []
  | some id ↦ map verdict_line (keep (λ (v : PolicyVerdict). str_eq v.session_id id) rows)
]
