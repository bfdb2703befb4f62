-- ===== src/Persistence/Conversation.antt =====
-- packages/persistence/src/persistence/models/conversation.py, and the consent records of
-- models/crm.py. Times are microseconds; scores are thousandths.
use livekit_agent.Base.{ℕ, String, Bool, Option, List}
use livekit_agent.Base.Int.{ℤ}
use livekit_agent.Base.Json.{Payload}
use livekit_agent.Audit.Ledger.{Table}

pub record CallSession : Type 0 where
  pub id : String
  pub customer_id : Option String
  pub subscription_id : Option String
  pub msisdn : Option String
  pub channel : String
  pub livekit_room : Option String
  pub start_time : ℕ
  pub end_time : Option ℕ
  pub duration_seconds : Option ℤ
  pub final_disposition : Option String
  pub max_frustration_score : ℤ
  pub recording_consent : Option Bool
  pub audio_record_url : Option String

pub record Turn : Type 0 where
  pub session_id : String
  pub turn_index : ℕ
  pub speaker : String
  pub active_agent : Option String
  pub detected_language : Option String
  pub transcript_masked : Option String
  pub detected_intent : Option String

pub record SentimentSample : Type 0 where
  pub session_id : String
  pub turn_index : ℕ
  pub score : ℤ
  pub label : String

pub record EscalationCase : Type 0 where
  pub session_id : String
  pub customer_id : Option String
  pub trigger : String
  pub target : String
  pub dossier : Payload
  pub resolution : Option String

pub record CallbackSchedule : Type 0 where
  pub session_id : String
  pub customer_id : Option String
  pub subscription_id : Option String
  pub scheduled_time : ℕ
  pub priority_level : ℕ
  pub status : String

pub record ConsentRecord : Type 0 where
  pub session_id : String
  pub customer_id : Option String
  pub consent_type : String
  pub granted : Bool
  pub language : Option String

-- The tables that the writer and the back office read and write, with the ids of the customers
-- and subscriptions that foreign keys refer to. A consent record stands with its drawn id.
pub record Conversations : Type 0 where
  pub customers : List String
  pub subscriptions : List String
  pub sessions : List CallSession
  pub turns : List Turn
  pub sentiments : List SentimentSample
  pub escalations : List EscalationCase
  pub callbacks : List CallbackSchedule
  pub consents : List (String × ConsentRecord)
  pub audit : Table
