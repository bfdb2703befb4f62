-- ===== src/Worker/Conversation/Consistent.antt =====
-- Whatever the writes meet, the conversation tables stay consistent.
use livekit_agent.Base.{
  ℕ, suc, String, ◌≡◌, refl, ◌∙◌, Bool, true, false, Option, none, some, List, [], ◌∷◌, ◌++◌, arith,
  eq_iff, str_eq, any-append, All, All-append, All-map, Distinct, Distinct-append, if◌then◌else◌,
  Bool-cases, inl, inr,
}
use livekit_agent.Audit.Ledger.{Hasher, pg_verify, pg_append}
use livekit_agent.Audit.Chain.{pg_append-verified}
use livekit_agent.Persistence.Conversation.{
  CallSession, Turn, SentimentSample, EscalationCase, CallbackSchedule, Conversations,
}
use livekit_agent.Worker.Conversation.{
  SessionFinish, Item, session_start, turn, sentiment, escalation, callback, consent,
  session_finish,
}
use livekit_agent.Worker.Conversation.Drain.{
  WriteEnv, checked, has_session, same_turn, close_found, can_start, can_turn, can_sample,
  can_escalate, can_call_back, can_consent, can_finish, stored_sample, execute_write, write,
  write_or_drop, drain,
}

-- Every row is of a call session on file.
abbrev pub Filed : {A : Type 0} → (A → String) → List CallSession → List A → Type 0
Filed of sessions rows = All (λ a. has_session (of a) sessions ≡ true) rows

abbrev pub same_session : CallSession → CallSession → Bool
same_session a b = str_eq b.id a.id

pub record IsConsistent (h : Hasher) (db : Conversations) : Type 0 where
  pub chain : pg_verify h db.audit ≡ true
  pub sessions_once : Distinct same_session db.sessions
  pub turns_once : Distinct same_turn db.turns
  pub turns_filed : Filed (λ (t : Turn). t.session_id) db.sessions db.turns
  pub samples_filed : Filed (λ (s : SentimentSample). s.session_id) db.sessions db.sentiments
  pub cases_filed : Filed (λ (c : EscalationCase). c.session_id) db.sessions db.escalations
  pub callbacks_filed : Filed (λ (c : CallbackSchedule). c.session_id) db.sessions db.callbacks

-- A write keeps what holds before it when, its constraints granted, its rows keep it.
pub write-keeps :
    (P : Conversations → Type 0) (up ok : Bool) (db db' : Conversations)
    → P db
    → (ok ≡ true → P db')
    → P (elim (if up then checked ok db' else none) [ none ↦ db | some d ↦ d ])
write-keeps P false ok db db' p f = p
write-keeps P true false db db' p f = p
write-keeps P true true db db' p f = f refl

pub write-granted :
    (up ok : Bool) (db db' : Conversations)
    → ok ≡ true
    → (elim (if up then checked ok db' else none) [ none ↦ db | some d ↦ d ])
      ≡ (if up then db' else db)
write-granted false ok db db' e = refl
write-granted true false db db' e = cc e
write-granted true true db db' e = refl

Filed-grow :
    {A : Type 0} (of : A → String) (old new : List CallSession) (rows : List A)
    → ((id : String) → has_session id old ≡ true → has_session id new ≡ true)
    → Filed of old rows
    → Filed of new rows
Filed-grow of old new rows grow = All-map _ _ (λ a. grow (of a)) rows

Filed-append :
    {A : Type 0} (of : A → String) (sessions : List CallSession) (rows : List A) (a : A)
    → Filed of sessions rows
    → has_session (of a) sessions ≡ true
    → Filed of sessions (rows ++ a ∷ [])
Filed-append of sessions rows a f h = All-append _ rows (a ∷ []) f (h, tt)

pub same_turn_sym : (a b : Turn) → same_turn a b ≡ same_turn b a
same_turn_sym a b = ground (
  arith,
  eq_iff a.session_id b.session_id,
  eq_iff b.session_id a.session_id,
  eq_iff a.speaker b.speaker,
  eq_iff b.speaker a.speaker,
)

same_session_sym : (a b : CallSession) → same_session a b ≡ same_session b a
same_session_sym a b = ground (arith, eq_iff a.id b.id, eq_iff b.id a.id)

-- Closing a session keeps the ids.
pub has_session-close_found :
    (f : SessionFinish) (id : String) (sessions : List CallSession)
    → has_session id (close_found f sessions) ≡ has_session id sessions
has_session-close_found f id [] = refl
has_session-close_found f id (s ∷ sessions) = ground (arith, has_session-close_found f id sessions)

Distinct-close_found :
    (f : SessionFinish) (sessions : List CallSession)
    → Distinct same_session sessions
    → Distinct same_session (close_found f sessions)
Distinct-close_found f [] d = tt
Distinct-close_found f (s ∷ sessions) d = elim (Bool-cases (str_eq s.id f.session_db_id)) [
  | inl e ↦ rw e d
  | inr e ↦
      rw e (has_session-close_found f s.id sessions ∙ d.0, Distinct-close_found f sessions d.1)
]

module _ (h : Hasher) where
  with_sessions :
      (db : Conversations) (sessions : List CallSession)
      → IsConsistent h db
      → Distinct same_session sessions
      → ((id : String) → has_session id db.sessions ≡ true → has_session id sessions ≡ true)
      → IsConsistent h (record db { sessions = sessions })
  with_sessions db sessions c once grow = record {
    chain = c.chain;
    sessions_once = once;
    turns_once = c.turns_once;
    turns_filed =
        Filed-grow (λ (t : Turn). t.session_id) db.sessions sessions db.turns grow c.turns_filed;
    samples_filed =
        Filed-grow (λ (s : SentimentSample). s.session_id) db.sessions sessions db.sentiments grow
          c.samples_filed;
    cases_filed =
        Filed-grow (λ (s : EscalationCase). s.session_id) db.sessions sessions db.escalations grow
          c.cases_filed;
    callbacks_filed =
        Filed-grow (λ (s : CallbackSchedule). s.session_id) db.sessions sessions db.callbacks grow
          c.callbacks_filed;
  }

  write_or_drop-IsConsistent :
      (env : WriteEnv) (item : Item) (db : Conversations)
      → IsConsistent h db
      → IsConsistent h (write_or_drop h env item db)
  unfolding write_or_drop write execute_write pg_append
  write_or_drop-IsConsistent env (session_start r) db c =
      write-keeps (IsConsistent h) env.is_up (can_start db r) db _ c λ ok.
        with_sessions db (db.sessions ++ r ∷ []) c
          (Distinct-append same_session db.sessions r same_session_sym c.sessions_once
            (ground arith))
          (λ id. any-append (λ (s : CallSession). str_eq s.id id) db.sessions (r ∷ []))
  write_or_drop-IsConsistent env (turn t) db c =
      write-keeps (IsConsistent h) env.is_up (can_turn db t) db _ c λ ok. record {
        chain = c.chain;
        sessions_once = c.sessions_once;
        turns_once = Distinct-append same_turn db.turns t same_turn_sym c.turns_once (ground arith);
        turns_filed =
            Filed-append (λ (t : Turn). t.session_id) db.sessions db.turns t c.turns_filed
              (ground arith);
        samples_filed = c.samples_filed;
        cases_filed = c.cases_filed;
        callbacks_filed = c.callbacks_filed;
      }
  write_or_drop-IsConsistent env (sentiment s) db c =
      write-keeps (IsConsistent h) env.is_up (can_sample db s) db _ c λ ok. record {
        chain = c.chain;
        sessions_once = c.sessions_once;
        turns_once = c.turns_once;
        turns_filed = c.turns_filed;
        samples_filed =
            Filed-append (λ (s : SentimentSample). s.session_id) db.sessions db.sentiments
              (stored_sample s) c.samples_filed (ground arith);
        cases_filed = c.cases_filed;
        callbacks_filed = c.callbacks_filed;
      }
  write_or_drop-IsConsistent env (escalation e) db c =
      write-keeps (IsConsistent h) env.is_up (can_escalate db e) db _ c λ ok. record {
        chain = c.chain;
        sessions_once = c.sessions_once;
        turns_once = c.turns_once;
        turns_filed = c.turns_filed;
        samples_filed = c.samples_filed;
        cases_filed =
            Filed-append (λ (e : EscalationCase). e.session_id) db.sessions db.escalations e
              c.cases_filed (ground arith);
        callbacks_filed = c.callbacks_filed;
      }
  write_or_drop-IsConsistent env (callback r) db c =
      write-keeps (IsConsistent h) env.is_up (can_call_back db r) db _ c λ ok. record {
        chain = c.chain;
        sessions_once = c.sessions_once;
        turns_once = c.turns_once;
        turns_filed = c.turns_filed;
        samples_filed = c.samples_filed;
        cases_filed = c.cases_filed;
        callbacks_filed =
            Filed-append (λ (r : CallbackSchedule). r.session_id) db.sessions db.callbacks r
              c.callbacks_filed (ground arith);
      }
  write_or_drop-IsConsistent env (consent r) db c =
      write-keeps (IsConsistent h) env.is_up (can_consent db r) db _ c λ ok. record {
        chain = (pg_append-verified h _ _ _ _ _ _ db.audit c.chain).0;
        sessions_once = c.sessions_once;
        turns_once = c.turns_once;
        turns_filed = c.turns_filed;
        samples_filed = c.samples_filed;
        cases_filed = c.cases_filed;
        callbacks_filed = c.callbacks_filed;
      }
  write_or_drop-IsConsistent env (session_finish f) db c =
      write-keeps (IsConsistent h) env.is_up (can_finish db f) db _ c λ ok.
        with_sessions db (close_found f db.sessions) c
          (Distinct-close_found f db.sessions c.sessions_once)
          (λ id e. has_session-close_found f id db.sessions ∙ e)

  -- Whatever is on the queue and whichever writes fail, draining it keeps the tables consistent:
  -- the audit chain verifies, no session id and no (session, index, speaker) of a turn stands
  -- twice, and every turn, sample, case and callback is of a session on file.
  pub drain-IsConsistent :
      (envs : ℕ → WriteEnv) (items : List (Option Item)) (db : Conversations)
      → IsConsistent h db
      → IsConsistent h (drain h envs items db)
  unfolding drain
  drain-IsConsistent envs [] db c = c
  drain-IsConsistent envs (none ∷ items) db c = c
  drain-IsConsistent envs (some item ∷ items) db c =
      drain-IsConsistent (λ n. envs (suc n)) items _ (write_or_drop-IsConsistent (envs 0) item db c)
