-- ===== src/Worker/Profile.antt =====
-- session/customer_context.py, clients/context_client.py and the prefetch of server.py: how the
-- caller's profile comes from the context service into the session.
pub mod Flagged
use livekit_agent.Base.{ℕ, String, Bool, true, false, Option, none, some, [], str_eq, if◌then◌else◌}
use livekit_agent.Base.Int.{pos}
use livekit_agent.Persistence.Crm.{Crm}
use livekit_agent.Context.{Customer360, ReadEnv, build_customer360, verify_identity}
use livekit_agent.Worker.Session.{CustomerContext, SessionUserData}
use livekit_agent.Worker.Clients.{Call, Delivery, served, request_lost, reply_lost}

-- `from_snapshot` of a response of the context service, which has every field
unfoldable pub from_snapshot : Customer360 → CustomerContext
from_snapshot view = record {
  customer_id = view.customer_id;
  full_name = view.full_name;
  msisdn = view.msisdn;
  subscription_type = view.subscription_type;
  subscription_id = view.subscription_id;
  preferred_language = view.preferred_language;
  is_vip = view.is_vip;
  fraud_suspected = view.fraud_suspected;
  account_age_days = pos view.account_age_days;
}

-- `get_snapshot`
unfoldable pub get_snapshot : Call → ReadEnv → String → Crm → Option CustomerContext
get_snapshot call env msisdn crm = elim call.delivery [
  | served ↦ elim (build_customer360 env msisdn crm) [
    | none ↦ none
    | some view ↦ some (from_snapshot view)
  ]
  | request_lost ↦ none
  | reply_lost ↦ none
]

-- `ContextClient.verify_identity`
unfoldable pub client_verify : Call → ReadEnv → String → String → Crm → Bool
client_verify call env customer_id answer crm = elim call.delivery [
  | served ↦ verify_identity env customer_id answer crm
  | request_lost ↦ false
  | reply_lost ↦ false
]

-- `SessionUserData(language=language)`, with the id that it draws
abbrev pub new_user_data : String → String → SessionUserData
new_user_data session_id language = record {
  session_id = session_id;
  language = language;
  customer_context = none;
  identity_verified = false;
  identity_attempts = 0;
  recording_consent = none;
  sentiment_history = [];
  consecutive_negative_turns = 0;
  should_offer_escalation = false;
  clarification_attempts = 0;
  current_persona_skill_tag = "general";
  callback_requested = false;
  callback_when = none;
  idempotency_keys = [];
}

-- `_prefetch_user_data`, with the setting of the caller's line
unfoldable pub prefetch_user_data :
    Call → ReadEnv → Option String → Crm → String → String → SessionUserData
prefetch_user_data call env none crm session_id language = new_user_data session_id language
prefetch_user_data call env (some msisdn) crm session_id language =
    if str_eq msisdn ""
    then new_user_data session_id language
    else record (new_user_data session_id language) {
      customer_context = get_snapshot call env msisdn crm;
    }
