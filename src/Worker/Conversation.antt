-- ===== src/Worker/Conversation.antt =====
-- conversation/writer.py: the calls of the writer, which only put items on a queue.
pub mod Drain
pub mod Consistent
pub mod Events
pub mod Recorded
pub mod Dropped
use Prim.Native.String.{String}
use mathlib.Core.List.{◌++◌ as append_list}
use livekit_agent.Base.{
  ℕ, zero, suc, ◌+◌, ◌-◌, ◌/◌, leb, Bool, Option, none, some, List, [], ◌∷◌, or_else, if◌then◌else◌,
}
use livekit_agent.Base.Int.{ℤ, pos, negsuc, leb_ℤ}
use livekit_agent.Base.Json.{Payload}
use livekit_agent.Persistence.Uuid.{UuidLib, to_uuid}
use livekit_agent.Persistence.Conversation.{
  CallSession, Turn, SentimentSample, EscalationCase, CallbackSchedule, ConsentRecord,
}

-- `sentiment_label`
unfoldable pub sentiment_label : ℤ → String
sentiment_label score =
    if leb_ℤ score (negsuc 699)
    then "angry"
    else if leb_ℤ score (negsuc 349)
    then "negative"
    else if leb_ℤ (pos 350) score
    then "positive"
    else "neutral"

-- The item that closes a call record.
pub record SessionFinish : Type 0 where
  pub session_db_id : String
  pub end_time : ℕ
  pub duration : ℤ
  pub disposition : Option String
  pub max_frustration : ℤ
  pub recording_consent : Option Bool

-- The dicts that the queue holds, by their "kind".
pub data Item : Type 0 where
  session_start : CallSession → Item
  turn : Turn → Item
  sentiment : SentimentSample → Item
  escalation : EscalationCase → Item
  callback : CallbackSchedule → Item
  consent : ConsentRecord → Item
  session_finish : SessionFinish → Item

-- The writer, without its task. `none` on the queue is the `None` of `aclose`.
pub record ConversationWriter : Type 0 where
  pub queue : List (Option Item)
  pub session_db_id : Option String
  pub start_time : Option ℕ
  pub turn_index : ℕ

abbrev pub new_writer : ConversationWriter
new_writer = record { queue = []; session_db_id = none; start_time = none; turn_index = 0 }

abbrev pub put : Option Item → ConversationWriter → ConversationWriter
put item w = record w { queue = append_list w.queue (item ∷ []) }

-- A call that needs an open session puts an item, and without one does nothing.
abbrev pub in_session :
    (String → ConversationWriter → ConversationWriter) → ConversationWriter → ConversationWriter
in_session f w = elim w.session_db_id [ none ↦ w | some id ↦ f id w ]

-- What a call to `start_session` is given.
pub record Caller : Type 0 where
  pub customer_id : Option String
  pub subscription_id : Option String
  pub msisdn : Option String
  pub livekit_room : Option String
  pub recording_consent : Option Bool

abbrev pub opening_row : UuidLib → String → ℕ → Caller → CallSession
opening_row uuids id now c = record {
  id = id;
  customer_id = to_uuid uuids c.customer_id;
  subscription_id = to_uuid uuids c.subscription_id;
  msisdn = c.msisdn;
  channel = "voice";
  livekit_room = c.livekit_room;
  start_time = now;
  end_time = none;
  duration_seconds = none;
  final_disposition = none;
  max_frustration_score = pos 0;
  recording_consent = c.recording_consent;
  audio_record_url = none;
}

-- `start_session`, with the UUID that it draws and the time
unfoldable pub start_session :
    UuidLib → String → ℕ → Caller → ConversationWriter → ConversationWriter
start_session uuids id now c w =
    put (some (session_start (opening_row uuids id now c)))
      (record w { session_db_id = some id; start_time = some now })

-- What a call to `record_turn` is given.
pub record Speech : Type 0 where
  pub speaker : String
  pub text : String
  pub active_agent : Option String
  pub language : Option String
  pub intent : Option String

abbrev pub turn_row : (String → String) → String → ℕ → Speech → Turn
turn_row mask id index t = record {
  session_id = id;
  turn_index = index;
  speaker = t.speaker;
  active_agent = t.active_agent;
  detected_language = t.language;
  transcript_masked = some (mask t.text);
  detected_intent = t.intent;
}

-- `record_turn`, with the masker
unfoldable pub record_turn : (String → String) → Speech → ConversationWriter → ConversationWriter
record_turn mask t = in_session λ id w.
    put (some (turn (turn_row mask id (suc w.turn_index) t)))
      (record w { turn_index = suc w.turn_index })

abbrev pub sample_row : String → ℕ → ℤ → String → SentimentSample
sample_row id index score label = record {
  session_id = id;
  turn_index = index;
  score = score;
  label = label;
}

-- `record_sentiment`
unfoldable pub record_sentiment : ℤ → String → ConversationWriter → ConversationWriter
record_sentiment score label =
    in_session λ id w. put (some (sentiment (sample_row id w.turn_index score label))) w

abbrev pub case_row : UuidLib → String → String → String → Payload → Option String → EscalationCase
case_row uuids id trigger target dossier customer_id = record {
  session_id = id;
  customer_id = to_uuid uuids customer_id;
  trigger = trigger;
  target = target;
  dossier = dossier;
  resolution = none;
}

-- `record_escalation`
unfoldable pub record_escalation :
    UuidLib → String → String → Payload → Option String → ConversationWriter → ConversationWriter
record_escalation uuids trigger target dossier customer_id =
    in_session
      λ id w. put (some (escalation (case_row uuids id trigger target dossier customer_id))) w

-- Twenty-four hours.
abbrev pub one_day : ℕ
one_day = 86400000000

abbrev pub callback_row :
    UuidLib → String → ℕ → Option String → Option String → Option ℕ → ℕ → CallbackSchedule
callback_row uuids id now customer_id subscription_id scheduled priority = record {
  session_id = id;
  customer_id = to_uuid uuids customer_id;
  subscription_id = to_uuid uuids subscription_id;
  scheduled_time = or_else scheduled (now + one_day);
  priority_level = priority;
  status = "pending";
}

-- `record_callback`, at a time
unfoldable pub record_callback :
    UuidLib
    → ℕ
    → Option String
    → Option String
    → Option ℕ
    → ℕ
    → ConversationWriter
    → ConversationWriter
record_callback uuids now customer_id subscription_id scheduled priority = in_session λ id w.
    put (some (callback (callback_row uuids id now customer_id subscription_id scheduled priority)))
      w

abbrev pub consent_row : UuidLib → String → Bool → Option String → Option String → ConsentRecord
consent_row uuids id granted language customer_id = record {
  session_id = id;
  customer_id = to_uuid uuids customer_id;
  consent_type = "call_recording";
  granted = granted;
  language = language;
}

-- `record_consent`
unfoldable pub record_consent :
    UuidLib → Bool → Option String → Option String → ConversationWriter → ConversationWriter
record_consent uuids granted language customer_id =
    in_session λ id w. put (some (consent (consent_row uuids id granted language customer_id))) w

-- minus a natural number
abbrev pub minus : ℕ → ℤ
minus zero = pos 0
minus (suc n) = negsuc n

-- `int(d.total_seconds())` for the microseconds from `start` to `end`: towards zero
abbrev pub whole_seconds : ℕ → ℕ → ℤ
whole_seconds start end =
    if leb start end then pos ((end - start) / 1000000) else minus ((start - end) / 1000000)

abbrev pub closing : String → Option ℕ → ℕ → Option String → ℤ → Option Bool → SessionFinish
closing id start now disposition max_frustration recording_consent = record {
  session_db_id = id;
  end_time = now;
  duration = whole_seconds (or_else start now) now;
  disposition = disposition;
  max_frustration = max_frustration;
  recording_consent = recording_consent;
}

-- `finish_session`, at a time
unfoldable pub finish_session :
    ℕ → Option String → ℤ → Option Bool → ConversationWriter → ConversationWriter
finish_session now disposition max_frustration recording_consent = in_session λ id w.
    put
      (some (
        session_finish (closing id w.start_time now disposition max_frustration recording_consent)))
      w

-- `aclose`, as far as the queue goes
unfoldable pub aclose : ConversationWriter → ConversationWriter
aclose w = put none w
