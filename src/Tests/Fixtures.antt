-- ===== src/Tests/Fixtures.antt =====
-- Concrete libraries, settings and sessions for the tests.
use Prim.Native.String.{String, count}
use livekit_agent.Base.{
  ℕ, ◌≡◌, refl, Bool, true, false, none, some, [], ◌∷◌, leb, ◌&&◌, ◌||◌, ◌==◌, inl, inr, Bool-cases,
  if◌then◌else◌,
}
use livekit_agent.Base.Int.{pos}
use livekit_agent.Base.Json.{Payload}
use livekit_agent.Audit.Ledger.{Hasher, genesis_hash}
use livekit_agent.Persistence.Uuid.{UuidLib}
use livekit_agent.Policy.Types.{PolicyContext, default_context, default_thresholds}
use livekit_agent.Policy.Outbound.{CharClass}
use livekit_agent.Policy.Service.{Env}
use livekit_agent.Execution.Executor.{Connector}
use livekit_agent.Execution.Service.{ExecEnv}
use livekit_agent.Worker.Session.{CustomerContext, SessionUserData}
use livekit_agent.Worker.Clients.{Call, Delivery}
use livekit_agent.Worker.Guarded.{GuardEnv}

abbrev pub other_digest : String
other_digest = "1111111111111111111111111111111111111111111111111111111111111111"

-- A toy digest: it tells short texts from long ones.
abbrev pub toy_digest : String → String
toy_digest x = if leb (count x) 70 then genesis_hash else other_digest

pub toy_digest_length : (x : String) → count (toy_digest x) ≡ 64
toy_digest_length x = elim (Bool-cases (leb (count x) 70)) [ inl e ↦ rw e refl | inr e ↦ rw e refl ]

abbrev pub toy_dumps : Payload → String
toy_dumps [] = "{}"
toy_dumps ((k, v) ∷ d) = k

abbrev pub hasher : Hasher
hasher = record { sha256 = toy_digest; dumps = toy_dumps; digest_length = toy_digest_length }

abbrev pub uuids : UuidLib
uuids = record { parse = λ s. some s; uuid5 = λ s. s }

abbrev pub is_ascii_digit : ℕ → Bool
is_ascii_digit c = leb 48 c && leb c 57

abbrev pub is_ascii_word : ℕ → Bool
is_ascii_word c =
    is_ascii_digit c || ((leb 65 c && leb c 90) || ((leb 97 c && leb c 122) || (c == 95)))

pub digit_word : (c : ℕ) → is_ascii_digit c ≡ true → is_ascii_word c ≡ true
digit_word c h = rw h refl

abbrev pub ascii : CharClass
ascii = record { is_digit = is_ascii_digit; is_word = is_ascii_word; digit-word = digit_word }

abbrev pub policy_env : Env
policy_env = record {
  hasher = hasher;
  uuids = uuids;
  now = "2026-01-01T00:00:00";
  row_id = "v1";
  audit_id = "a1";
}

abbrev pub exec_env : ExecEnv
exec_env = record {
  hasher = hasher;
  uuids = uuids;
  now = "2026-01-01T00:00:01";
  row_id = "r1";
  audit_id = "a2";
  fresh = "00AABBCCDD";
  connector = Connector.mock;
}

-- A confirmed payment of 45 TND by a verified caller.
abbrev pub payment_context : PolicyContext
payment_context = record (default_context "EXECUTE_PAYMENT") {
  session_id = "s1";
  identity_verified = true;
  amount = some (pos 45000);
  payment_confirmed = true;
}

abbrev pub customer : CustomerContext
customer = record {
  customer_id = "c1";
  full_name = "Amel";
  msisdn = "20123456";
  subscription_type = "postpaid";
  subscription_id = some "l1";
  preferred_language = "fr";
  is_vip = false;
  fraud_suspected = false;
  account_age_days = pos 400;
}

abbrev pub session : SessionUserData
session = record {
  session_id = "s1";
  language = "fr";
  customer_context = some customer;
  identity_verified = true;
  identity_attempts = 1;
  recording_consent = some true;
  sentiment_history = [];
  consecutive_negative_turns = 0;
  should_offer_escalation = false;
  clarification_attempts = 0;
  current_persona_skill_tag = "general";
  callback_requested = false;
  callback_when = none;
  idempotency_keys = [];
}

abbrev pub up : Call
up = record { delivery = Delivery.served; error = "" }

abbrev pub down : Call
down = record { delivery = Delivery.request_lost; error = "connection refused" }

abbrev pub guard_env : GuardEnv
guard_env = record {
  hasher = hasher;
  confidence_threshold = 600;
  decision_call = up;
  policy_call = up;
  execution_call = up;
  policy_env = policy_env;
  thresholds = default_thresholds;
  execution_env = exec_env;
  key_uuid = "u1";
}
