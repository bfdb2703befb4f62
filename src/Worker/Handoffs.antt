-- ===== src/Worker/Handoffs.antt =====
-- tools/escalation_tools.py, tasks/consent_task.py, tasks/callback_schedule_task.py,
-- clients/routing_client.py and telephony/sip_transfer.py: what the hand-offs of a call leave in the
-- session, on the writer's queue and with the notification service.
use livekit_agent.Base.{ℕ, String, Bool, true, Option, none, some, [], ◌∷◌, leb, if◌then◌else◌}
use livekit_agent.Base.Int.{pos}
use livekit_agent.Base.Json.{flag, int, Payload}
use livekit_agent.Persistence.Uuid.{UuidLib}
use livekit_agent.Worker.Session.{SessionUserData}
use livekit_agent.Worker.Conversation.{record_escalation, record_callback, record_consent}
use livekit_agent.Worker.Hooks.{Live, on_writer}
use livekit_agent.Notify.{Outbox}
use livekit_agent.Notify.Clients.{NetEnv, client_notify}

-- `_trigger_for`
unfoldable pub trigger_for : SessionUserData → String
trigger_for user =
    if user.should_offer_escalation
    then "frustration"
    else if leb 2 user.clarification_attempts
    then "clarify_fail"
    else if leb 3 user.identity_attempts
    then "identity_fail"
    else "hard_failure"

abbrev pub dossier_of : SessionUserData → Payload
dossier_of user =
    ("consecutive_negative_turns", int (pos user.consecutive_negative_turns))
    ∷ ("identity_verified", flag user.identity_verified)
    ∷ ("clarification_attempts", int (pos user.clarification_attempts))
    ∷ []

-- `customer.customer_id if customer else None`, and the same of the line
abbrev pub customer_of : SessionUserData → Option String
customer_of user = elim user.customer_context [ none ↦ none | some c ↦ some c.customer_id ]

abbrev pub line_of : SessionUserData → Option String
line_of user = elim user.customer_context [ none ↦ none | some c ↦ c.subscription_id ]

-- `RoutingClient.resolve_available_advisor`
pub record AdvisorDestination : Type 0 where
  pub participant_identity : String
  pub sip_uri : String
  pub skill_tag : String

abbrev pub resolve_available_advisor : String → Option AdvisorDestination
resolve_available_advisor skill_tag = none

-- The outcome of `transfer_to_human`.
pub data Transfer : Type 0 where
  transferred : String → Transfer
  callback_scheduled : Transfer
  callback_declined : Transfer

module _ (uuids : UuidLib) where
  -- `escalate_to_manager`
  unfoldable pub escalate_to_manager : Live → Live
  escalate_to_manager live = record live {
    writer =
        on_writer
          (record_escalation uuids (trigger_for live.user) "manager_agent" (dossier_of live.user)
            (customer_of live.user))
          live.writer;
  }

  -- `ConsentTask.record_consent`
  unfoldable pub answer_consent : Bool → Live → Live
  answer_consent granted live = record {
    user = record live.user { recording_consent = some granted };
    writer =
        on_writer (record_consent uuids granted (some live.user.language) (customer_of live.user))
          live.writer;
  }

  module _ (net : NetEnv) where
    -- The written confirmation, for a caller who is known.
    abbrev pub confirm_callback : String → SessionUserData → Outbox → Outbox
    confirm_callback preferred_time user o = elim user.customer_context [
      | none ↦ o
      | some c ↦
          (client_notify uuids net c.customer_id "callback_scheduled" user.language
            (("when", preferred_time) ∷ []) "sms" o).1
    ]

    -- `CallbackScheduleTask.record_callback`, at a time, for a record of the priority 1
    unfoldable pub schedule_callback : ℕ → String → Live × Outbox → Live × Outbox
    schedule_callback now preferred_time (live, o) = (
      record {
        user = record live.user { callback_requested = true; callback_when = some preferred_time };
        writer =
            on_writer (record_callback uuids now (customer_of live.user) (line_of live.user) none 1)
              live.writer;
      },
      confirm_callback preferred_time live.user o,
    )

    -- `_offer_callback`, with the caller's preferred time, or none of a caller who declines
    abbrev pub offer_callback : ℕ → Option String → Live × Outbox → Transfer × (Live × Outbox)
    offer_callback now none s = (callback_declined, s)
    offer_callback now (some preferred_time) s =
        (callback_scheduled, schedule_callback now preferred_time s)

    abbrev pub transfer_to :
        Bool
        → ℕ
        → Option String
        → Option AdvisorDestination
        → Live × Outbox
        → Transfer × (Live × Outbox)
    transfer_to sip_works now answer none s = offer_callback now answer s
    transfer_to sip_works now answer (some d) s =
        if sip_works then (transferred d.sip_uri, s) else offer_callback now answer s

    -- `transfer_to_human`, with whether the SIP transfer works
    unfoldable pub transfer_to_human :
        Bool → ℕ → Option String → Live × Outbox → Transfer × (Live × Outbox)
    transfer_to_human sip_works now answer (live, o) =
        transfer_to sip_works now answer
          (resolve_available_advisor live.user.current_persona_skill_tag) (live, o)
