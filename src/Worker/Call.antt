-- ===== src/Worker/Call.antt =====
-- server.py: a call from the opening of its record to the shutdown callback.
pub mod Queue
pub mod Heard
pub mod Peak
pub mod Ended
pub mod Closed
use livekit_agent.Base.{
  ℕ, suc, String, Bool, Option, none, some, List, [], ◌∷◌, or_else, str_eq, if◌then◌else◌,
}
use livekit_agent.Base.Int.{ℤ, pos, negsuc, ltb_ℤ}
use livekit_agent.Persistence.Uuid.{UuidLib}
use livekit_agent.Worker.Session.{SessionUserData}
use livekit_agent.Worker.Conversation.{
  ConversationWriter, Caller, minus, new_writer, start_session, finish_session, aclose,
}
use livekit_agent.Worker.Hooks.{ChatMessage, Live, Texts, on_writer, on_user_turn_completed}
use livekit_agent.Worker.Handoffs.{
  customer_of, line_of, escalate_to_manager, answer_consent, transfer_to_human,
}
use livekit_agent.Notify.{Outbox}
use livekit_agent.Notify.Clients.{NetEnv}

-- `settings.session_caller_msisdn or (customer.msisdn if customer else None)`
abbrev pub own_msisdn : SessionUserData → Option String
own_msisdn user = elim user.customer_context [ none ↦ none | some c ↦ some c.msisdn ]

abbrev pub msisdn_of : Option String → SessionUserData → Option String
msisdn_of none user = own_msisdn user
msisdn_of (some m) user = if str_eq m "" then own_msisdn user else some m

abbrev pub caller_of : Option String → Option String → SessionUserData → Caller
caller_of setting room user = record {
  customer_id = customer_of user;
  subscription_id = line_of user;
  msisdn = msisdn_of setting user;
  livekit_room = room;
  recording_consent = user.recording_consent;
}

-- `_open_conversation`, with the UUID of the record, the time, the setting and the room's name
unfoldable pub open_conversation :
    UuidLib → String → ℕ → Option String → Option String → SessionUserData → Live
open_conversation uuids id now setting room user = record {
  user = user;
  writer = some (start_session uuids id now (caller_of setting room user) new_writer);
}

-- `min(history)` of a history that begins with a value
abbrev pub lowest : ℤ → List ℤ → ℤ
lowest v [] = v
lowest v (w ∷ vs) = lowest (if ltb_ℤ w v then w else v) vs

abbrev pub negate : ℤ → ℤ
negate (pos n) = minus n
negate (negsuc n) = pos (suc n)

-- `max(0.0, -min(user_data.sentiment_history or [0.0]))`
unfoldable pub peak : List ℤ → ℤ
peak [] = pos 0
peak (v ∷ vs) = let z = negate (lowest v vs) in if ltb_ℤ (pos 0) z then z else pos 0

-- `_finish_conversation`, at a time
unfoldable pub finish_conversation : ℕ → Live → Live
finish_conversation now live = record live {
  writer =
      on_writer
        (λ w. aclose (
          finish_session now none (peak live.user.sentiment_history) live.user.recording_consent w))
        live.writer;
}

-- What happens in a call that its record is about.
pub data Moment : Type 0 where
  turned : String → ChatMessage → Moment
  manager_asked : Moment
  consent_answered : Bool → Moment
  human_asked : Bool → ℕ → Option String → Moment

module _ (texts : Texts) (uuids : UuidLib) (net : NetEnv) where
  abbrev pub live_moment : Moment → Live × Outbox → Live × Outbox
  live_moment (turned agent message) (live, o) =
      ((on_user_turn_completed texts agent message live).1, o)
  live_moment manager_asked (live, o) = (escalate_to_manager uuids live, o)
  live_moment (consent_answered granted) (live, o) = (answer_consent uuids granted live, o)
  live_moment (human_asked sip_works now answer) s =
      (transfer_to_human uuids net sip_works now answer s).1

  abbrev pub live_all : List Moment → Live × Outbox → Live × Outbox
  live_all [] s = s
  live_all (m ∷ ms) s = live_all ms (live_moment m s)
