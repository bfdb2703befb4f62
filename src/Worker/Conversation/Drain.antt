-- ===== src/Worker/Conversation/Drain.antt =====
-- conversation/writer.py: `_write` and `_drain`, with the constraints of the tables that they
-- write (packages/persistence/src/persistence/models/conversation.py and crm.py).
use Prim.Native.String.{String, count, ◌++◌}
use mathlib.Core.List.{◌++◌ as append_list}
use livekit_agent.Base.{
  ℕ, suc, ◌+◌, ◌*◌, ◌/◌, ltb, leb, ◌==◌, Bool, true, not, ◌&&◌, ◌||◌, Option, none, some, List, [],
  ◌∷◌, any, str_eq, member, if◌then◌else◌,
}
use livekit_agent.Base.Int.{ℤ, pos, negsuc}
use livekit_agent.Base.Json.{flag, str}
use livekit_agent.Audit.Ledger.{Hasher, pg_append}
use livekit_agent.Persistence.Conversation.{
  CallSession, Turn, SentimentSample, EscalationCase, CallbackSchedule, ConsentRecord,
  Conversations,
}
use livekit_agent.Worker.Conversation.{
  SessionFinish, minus, Item, session_start, turn, sentiment, escalation, callback, consent,
  session_finish,
}

-- One write: whether Postgres answers, what it draws, and the clock of the audit trail.
pub record WriteEnv : Type 0 where
  pub is_up : Bool
  pub now : String
  pub audit_id : String
  pub record_id : String

-- A row is added when its constraints hold; else the statement raises.
abbrev pub checked {ℓ} : {A : Type ℓ} → Bool → A → Option A
checked b x = if b then some x else none

abbrev pub has_session : String → List CallSession → Bool
has_session id = any (λ (s : CallSession). str_eq s.id id)

-- A foreign key that may be null.
abbrev pub refers : Option String → List String → Bool
refers none ids = true
refers (some id) ids = member id ids

-- A nullable column with a CHECK of its values, and one of a bounded length.
abbrev pub one_of : Option String → List String → Bool
one_of none values = true
one_of (some v) values = member v values

abbrev pub fits : ℕ → Option String → Bool
fits n none = true
fits n (some s) = leb (count s) n

abbrev pub languages : List String
languages = "fr" ∷ "ar" ∷ "en" ∷ []

-- NUMERIC(5, 2): hundredths, rounded half away from zero, below a thousand.
abbrev pub hundredths : ℕ → ℕ
hundredths n = (n + 5) / 10 * 10

abbrev pub numeric : ℤ → ℤ
numeric (pos n) = pos (hundredths n)
numeric (negsuc n) = minus (hundredths (suc n))

abbrev pub fits_numeric : ℤ → Bool
fits_numeric (pos n) = ltb (hundredths n) 1000000
fits_numeric (negsuc n) = ltb (hundredths (suc n)) 1000000

abbrev pub same_turn : Turn → Turn → Bool
same_turn a b =
    str_eq a.session_id b.session_id && (a.turn_index == b.turn_index && str_eq a.speaker b.speaker)

module _ (db : Conversations) where
  abbrev pub can_start : CallSession → Bool
  can_start r =
      not (has_session r.id db.sessions)
      && (refers r.customer_id db.customers
          && (refers r.subscription_id db.subscriptions
              && (fits 20 r.msisdn && fits 120 r.livekit_room)))

  abbrev pub can_turn : Turn → Bool
  can_turn t =
      has_session t.session_id db.sessions
      && (not (any (same_turn t) db.turns)
          && (member t.speaker ("caller" ∷ "agent" ∷ [])
              && (one_of t.detected_language languages
                  && (fits 40 t.active_agent && fits 80 t.detected_intent))))

  abbrev pub can_sample : SentimentSample → Bool
  can_sample s =
      has_session s.session_id db.sessions
      && (fits_numeric s.score
          && member s.label ("positive" ∷ "neutral" ∷ "negative" ∷ "angry" ∷ []))

  abbrev pub can_escalate : EscalationCase → Bool
  can_escalate c =
      has_session c.session_id db.sessions
      && (refers c.customer_id db.customers
          && (member c.target ("manager_agent" ∷ "human_advisor" ∷ []) && fits 40 (some c.trigger)))

  abbrev pub can_call_back : CallbackSchedule → Bool
  can_call_back c =
      has_session c.session_id db.sessions
      && (refers c.customer_id db.customers
          && (refers c.subscription_id db.subscriptions
              && member c.status ("pending" ∷ "completed" ∷ "cancelled" ∷ [])))

  abbrev pub can_consent : ConsentRecord → Bool
  can_consent c =
      refers c.customer_id db.customers
      && (member c.consent_type ("call_recording" ∷ "data_processing" ∷ "marketing" ∷ [])
          && one_of c.language languages)

  abbrev pub can_finish : SessionFinish → Bool
  can_finish f =
      not (has_session f.session_db_id db.sessions)
      || (one_of f.disposition ("resolved" ∷ "escalated" ∷ "dropped" ∷ "abandoned" ∷ [])
          && fits_numeric f.max_frustration)

abbrev pub stored_sample : SentimentSample → SentimentSample
stored_sample s = record s { score = numeric s.score }

-- The row that `session_finish` finds, updated.
abbrev pub closed : SessionFinish → CallSession → CallSession
closed f s = record s {
  end_time = some f.end_time;
  duration_seconds = some f.duration;
  final_disposition = f.disposition;
  max_frustration_score = numeric f.max_frustration;
  recording_consent = elim f.recording_consent [
    | none ↦ s.recording_consent
    | some answer ↦ some answer
  ];
}

abbrev pub close_found : SessionFinish → List CallSession → List CallSession
close_found f [] = []
close_found f (s ∷ sessions) =
    if str_eq s.id f.session_db_id then closed f s ∷ sessions else s ∷ close_found f sessions

module _ (h : Hasher) (env : WriteEnv) where
  -- The statements of one item in a session that Postgres serves.
  unfoldable pub execute_write : Item → Conversations → Option Conversations
  execute_write (session_start r) db =
      checked (can_start db r) (record db { sessions = append_list db.sessions (r ∷ []) })
  execute_write (turn t) db =
      checked (can_turn db t) (record db { turns = append_list db.turns (t ∷ []) })
  execute_write (sentiment s) db =
      checked (can_sample db s)
        (record db { sentiments = append_list db.sentiments (stored_sample s ∷ []) })
  execute_write (escalation c) db =
      checked (can_escalate db c) (record db { escalations = append_list db.escalations (c ∷ []) })
  execute_write (callback c) db =
      checked (can_call_back db c) (record db { callbacks = append_list db.callbacks (c ∷ []) })
  execute_write (consent c) db = checked (can_consent db c) (record db {
    consents = append_list db.consents ((env.record_id, c) ∷ []);
    audit =
        (pg_append h env.now env.audit_id (some c.session_id) "consent"
          (("granted", flag c.granted) ∷ ("consent_type", str c.consent_type) ∷ [])
          (some ("consent_records:" ++ env.record_id)) db.audit).0;
  })
  execute_write (session_finish f) db =
      checked (can_finish db f) (record db { sessions = close_found f db.sessions })

  -- `_write`: `none` when it raises, and then `session_scope` has rolled back.
  unfoldable pub write : Item → Conversations → Option Conversations
  write item db = if env.is_up then execute_write item db else none

  -- What one turn of the loop leaves: an exception is logged, and the item is gone.
  unfoldable pub write_or_drop : Item → Conversations → Conversations
  write_or_drop item db = elim (write item db) [ none ↦ db | some db' ↦ db' ]

module _ (h : Hasher) where
  -- `_drain`, from a queue that ends or holds a `None`, with what each write meets
  unfoldable pub drain : (ℕ → WriteEnv) → List (Option Item) → Conversations → Conversations
  drain envs [] db = db
  drain envs (none ∷ items) db = db
  drain envs (some item ∷ items) db =
      drain (λ n. envs (suc n)) items (write_or_drop h (envs 0) item db)
