-- ===== src/Worker/Session.antt =====
-- session/session_state.py and session/customer_context.py. The writer handle and its session
-- id are not kept here.
use Prim.Native.String.{String, ◌++◌}
use livekit_agent.Base.{ℕ, Bool, Option, none, some, List}
use livekit_agent.Base.Int.{ℤ}
use livekit_agent.Base.Dict.{Dict, lookup, insert}
use livekit_agent.Audit.Ledger.{Hasher}

pub record CustomerContext : Type 0 where
  pub customer_id : String
  pub full_name : String
  pub msisdn : String
  pub subscription_type : String
  pub subscription_id : Option String
  pub preferred_language : String
  pub is_vip : Bool
  pub fraud_suspected : Bool
  pub account_age_days : ℤ

pub record SessionUserData : Type 0 where
  pub session_id : String
  pub language : String
  pub customer_context : Option CustomerContext
  pub identity_verified : Bool
  pub identity_attempts : ℕ
  pub recording_consent : Option Bool
  pub sentiment_history : List ℤ
  pub consecutive_negative_turns : ℕ
  pub should_offer_escalation : Bool
  pub clarification_attempts : ℕ
  pub current_persona_skill_tag : String
  pub callback_requested : Bool
  pub callback_when : Option String
  pub idempotency_keys : Dict String

-- `new_idempotency_key`, with the UUID that it may draw as an argument
unfoldable pub new_idempotency_key :
    Hasher → String → String → SessionUserData → String × SessionUserData
new_idempotency_key h fresh action_type user = elim (lookup action_type user.idempotency_keys) [
  | some key ↦ (key, user)
  | none ↦
      let key = h.sha256 (user.session_id ++ (":" ++ (action_type ++ (":" ++ fresh)))) in
      (key, record user { idempotency_keys = insert action_type key user.idempotency_keys })
]
