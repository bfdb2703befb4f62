-- ===== src/Worker/Conversation/Dropped.antt =====
-- A call whose opening row is lost.
use livekit_agent.Base.{
  ℕ, suc, String, ◌≡◌, refl, sym, subst, ◌∙◌, ap, false, Option, some, List, [], ◌∷◌, arith,
}
use livekit_agent.Audit.Ledger.{Hasher}
use livekit_agent.Persistence.Uuid.{UuidLib}
use livekit_agent.Persistence.Conversation.{CallSession, Conversations}
use livekit_agent.Worker.Conversation.{
  SessionFinish, closing, Caller, new_writer, start_session, opening_row, session_start,
}
use livekit_agent.Worker.Conversation.Events.{
  Event, spoke, felt, escalated, called_back, consented, finished, perform_all, item, turns_after,
  items,
}
use livekit_agent.Worker.Conversation.Drain.{
  WriteEnv, has_session, close_found, execute_write, write, write_or_drop, drain,
}
use livekit_agent.Worker.Conversation.Consistent.{write-keeps}
use livekit_agent.Worker.Conversation.Recorded.{call_queue}

-- The five tables of the call record.
abbrev pub SameRecord : Conversations → Conversations → Type 0
SameRecord db db' =
    (db'.sessions ≡ db.sessions)
    × (db'.turns ≡ db.turns)
    × (db'.sentiments ≡ db.sentiments)
    × (db'.escalations ≡ db.escalations)
    × (db'.callbacks ≡ db.callbacks)

abbrev same : (db : Conversations) → SameRecord db db
same db = (refl, refl, refl, refl, refl)

then_same : (a b c : Conversations) → SameRecord a b → SameRecord b c → SameRecord a c
then_same a b c (p0, p1, p2, p3, p4) (q0, q1, q2, q3, q4) =
    (q0 ∙ p0, q1 ∙ p1, q2 ∙ p2, q3 ∙ p3, q4 ∙ p4)

close_found_missing :
    (f : SessionFinish) (sessions : List CallSession)
    → has_session f.session_db_id sessions ≡ false
    → close_found f sessions ≡ sessions
close_found_missing f [] n = refl
close_found_missing f (s ∷ sessions) n = ground (arith, close_found_missing f sessions)

module _ (h : Hasher) (mask : String → String) (uuids : UuidLib) (id : String)
    (start : Option ℕ) where
  item-SameRecord :
      (env : WriteEnv) (n : ℕ) (e : Event) (db : Conversations)
      → has_session id db.sessions ≡ false
      → SameRecord db (write_or_drop h env (item mask uuids id start n e) db)
  unfolding write_or_drop write execute_write
  item-SameRecord env n (spoke s) db missing =
      write-keeps (SameRecord db) env.is_up _ db _ (same db)
        λ ok. absurd (ground (arith, missing, ok))
  item-SameRecord env n (felt score label) db missing =
      write-keeps (SameRecord db) env.is_up _ db _ (same db)
        λ ok. absurd (ground (arith, missing, ok))
  item-SameRecord env n (escalated trigger target dossier customer) db missing =
      write-keeps (SameRecord db) env.is_up _ db _ (same db)
        λ ok. absurd (ground (arith, missing, ok))
  item-SameRecord env n (called_back now customer subscription at priority) db missing =
      write-keeps (SameRecord db) env.is_up _ db _ (same db)
        λ ok. absurd (ground (arith, missing, ok))
  item-SameRecord env n (consented granted language customer) db missing =
      write-keeps (SameRecord db) env.is_up _ db _ (same db) λ ok. same db
  item-SameRecord env n (finished now disposition peak answer) db missing =
      write-keeps (SameRecord db) env.is_up _ db _ (same db) λ ok. (
        close_found_missing (closing id start now disposition peak answer) db.sessions missing,
        refl,
        refl,
        refl,
        refl,
      )

  items-SameRecord :
      (envs : ℕ → WriteEnv) (n : ℕ) (es : List Event) (db : Conversations)
      → has_session id db.sessions ≡ false
      → SameRecord db (drain h envs (items mask uuids id start n es) db)
  unfolding drain
  items-SameRecord envs n [] db missing = same db
  items-SameRecord envs n (e ∷ es) db missing =
      let db' = write_or_drop h (envs 0) (item mask uuids id start n e) db in
      let later : ℕ → WriteEnv = λ i. envs (suc i) in
      let m = turns_after mask uuids id start n e in
      let p = item-SameRecord (envs 0) n e db missing in
      then_same db db' (drain h later (items mask uuids id start m es) db') p
        (items-SameRecord later m es db' (ap (has_session id) p.0 ∙ missing))

-- A call whose opening row meets Postgres down is lost whole, even if every later write meets it
-- up: its turns, samples, cases, callbacks and its end are refused, for want of the session. Only
-- the consents and their audit entries do not depend on it.
pub drain_lost_start :
    (h : Hasher) (mask : String → String) (uuids : UuidLib) (envs : ℕ → WriteEnv) (id : String)
    (now : ℕ) (caller : Caller) (es : List Event) (db : Conversations)
    → has_session id db.sessions ≡ false
    → (envs 0).is_up ≡ false
    → SameRecord db (
        drain h envs
          (perform_all mask uuids es (start_session uuids id now caller new_writer)).queue
          db)
unfolding drain write_or_drop write
drain_lost_start h mask uuids envs id now caller es db missing down =
    let dropped : write_or_drop h (envs 0) (session_start (opening_row uuids id now caller)) db
        ≡ db =
      rw down refl in
    let later : ℕ → WriteEnv = λ i. envs (suc i) in
    subst (λ q. SameRecord db (drain h envs q db)) (sym (call_queue h mask uuids id now caller es))
      (subst (λ d. SameRecord db (drain h later (items mask uuids id (some now) 0 es) d))
        (sym dropped) (items-SameRecord h mask uuids id (some now) later 0 es db missing))
