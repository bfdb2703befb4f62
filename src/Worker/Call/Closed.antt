-- ===== src/Worker/Call/Closed.antt =====
-- The record of a call after its last write.
use text.Mathlib.TextPositions.{eq_refl}
use livekit_agent.Base.{
  ℕ, zero, suc, String, ◌≡◌, refl, sym, ap, subst, ◌∙◌, Bool, true, false, Option, none, some, List,
  [], ◌∷◌, ◌++◌, length, All, All-append, str_eq, arith, Bool-cases, inl, inr, if◌then◌else◌,
}
use livekit_agent.Base.Int.{ℤ}
use livekit_agent.Audit.Ledger.{Hasher}
use livekit_agent.Persistence.Uuid.{UuidLib}
use livekit_agent.Persistence.Conversation.{CallSession, Conversations}
use livekit_agent.Worker.Session.{SessionUserData}
use livekit_agent.Worker.Conversation.{
  ConversationWriter, Item, session_start, session_finish, SessionFinish, Speech, new_writer,
  opening_row, start_session, closing, aclose,
}
use livekit_agent.Worker.Conversation.Drain.{
  WriteEnv, has_session, can_start, can_finish, closed, close_found, execute_write, write,
  write_or_drop, drain,
}
use livekit_agent.Worker.Conversation.Consistent.{write-keeps, write-granted}
use livekit_agent.Worker.Conversation.Events.{
  Event, spoke, felt, escalated, called_back, consented, finished, perform_all, item, items,
  turns_after,
}
use livekit_agent.Worker.Conversation.Recorded.{call_queue, start-written}
use livekit_agent.Worker.Hooks.{extract_text, Texts}
use livekit_agent.Worker.Call.{
  caller_of, open_conversation, peak, finish_conversation, Moment, turned, manager_asked,
  consent_answered, human_asked, live_all,
}
use livekit_agent.Worker.Call.Heard.{drain-aclose}
use livekit_agent.Worker.Call.Queue.{user_after_all, events_of, events, call_events, call_writer}
use livekit_agent.Notify.{Outbox}
use livekit_agent.Notify.Clients.{NetEnv}
use livekit_agent.Worker.Call.Ended.{IsClosedCall, closed-IsClosedCall}
use livekit_agent.Worker.Call.Peak.{IsSmall, peak-fits, user_after_all-HasSmall}

-- No close among the events.
abbrev IsOpen : Event → Type 0
IsOpen (finished now disposition peak answer) = ⊥
IsOpen e = Unit

-- The writes after a number of others.
abbrev pub after : ℕ → (ℕ → WriteEnv) → ℕ → WriteEnv
after zero envs = envs
after (suc n) envs = after n (λ i. envs (suc i))

module _ (h : Hasher) (mask : String → String) (uuids : UuidLib) (id : String)
    (start : Option ℕ) where
  same_sessions :
      (env : WriteEnv) (n : ℕ) (e : Event) (db : Conversations)
      → IsOpen e
      → (write_or_drop h env (item mask uuids id start n e) db).sessions ≡ db.sessions
  unfolding write_or_drop write execute_write
  same_sessions env n (spoke s) db o =
      write-keeps (λ d. d.sessions ≡ db.sessions) env.is_up _ db _ refl λ ok. refl
  same_sessions env n (felt value label) db o =
      write-keeps (λ d. d.sessions ≡ db.sessions) env.is_up _ db _ refl λ ok. refl
  same_sessions env n (escalated trigger target dossier customer) db o =
      write-keeps (λ d. d.sessions ≡ db.sessions) env.is_up _ db _ refl λ ok. refl
  same_sessions env n (called_back now customer subscription scheduled priority) db o =
      write-keeps (λ d. d.sessions ≡ db.sessions) env.is_up _ db _ refl λ ok. refl
  same_sessions env n (consented granted language customer) db o =
      write-keeps (λ d. d.sessions ≡ db.sessions) env.is_up _ db _ refl λ ok. refl
  same_sessions env n (finished now disposition peak answer) db o = absurd o

  -- The drain gets past the items of open events with the sessions as they were.
  past_items :
      (envs : ℕ → WriteEnv) (n : ℕ) (es : List Event) (rest : List (Option Item))
      (db : Conversations)
      → All IsOpen es
      → (db' : Conversations) × (db'.sessions ≡ db.sessions)
        × (drain h envs (items mask uuids id start n es ++ rest) db
            ≡ drain h (after (length es) envs) rest db')
  unfolding drain
  past_items envs n [] rest db o = (db, refl, refl)
  past_items envs n (e ∷ es) rest db o =
      let db1 = write_or_drop h (envs 0) (item mask uuids id start n e) db in
      let (db', same, e') =
        past_items (λ i. envs (suc i)) (turns_after mask uuids id start n e) es rest db1 o.1 in
      (db', same ∙ same_sessions (envs 0) n e db o.0, e')

  items-finished :
      (n : ℕ) (es : List Event) (end : ℕ) (disposition : Option String) (top : ℤ)
      (answer : Option Bool)
      → items mask uuids id start n (es ++ finished end disposition top answer ∷ [])
        ≡ items mask uuids id start n es
          ++ some (session_finish (closing id start end disposition top answer)) ∷ []
  items-finished n [] end disposition top answer = refl
  items-finished n (e ∷ es) end disposition top answer =
      ap (λ (q : List (Option Item)). some (item mask uuids id start n e) ∷ q)
        (items-finished (turns_after mask uuids id start n e) es end disposition top answer)

close_found-last :
    (f : SessionFinish) (sessions : List CallSession) (r : CallSession)
    → has_session f.session_db_id sessions ≡ false
    → r.id ≡ f.session_db_id
    → close_found f (sessions ++ r ∷ []) ≡ sessions ++ closed f r ∷ []
close_found-last f [] r new e =
    let same : str_eq r.id f.session_db_id ≡ true =
      ap (λ i. str_eq i f.session_db_id) e ∙ eq_refl f.session_db_id in
    ap (λ b. if b then closed f r ∷ [] else r ∷ []) same
close_found-last f (s ∷ sessions) r new e = elim (Bool-cases (str_eq s.id f.session_db_id)) [
  | inl same ↦ absurd (ground (arith, same, new))
  | inr other ↦
      ap
        (λ b.
          if b then closed f s ∷ (sessions ++ r ∷ []) else s ∷ close_found f (sessions ++ r ∷ []))
        other
      ∙ ap (λ (t : List CallSession). s ∷ t)
          (close_found-last f sessions r (ground (arith, other, new)) e)
]

module _ (texts : Texts) where
  heard-IsOpen :
      (blank : Bool) (s : Speech) (v : ℤ) (label : String)
      → All IsOpen (if blank then [] else spoke s ∷ felt v label ∷ [])
  heard-IsOpen true s v label = tt
  heard-IsOpen false s v label = (tt, (tt, tt))

  events_of-IsOpen : (m : Moment) (user : SessionUserData) → All IsOpen (events_of texts m user)
  events_of-IsOpen (turned agent m) user =
      heard-IsOpen (str_eq (texts.strip (extract_text m)) "") _ _ _
  events_of-IsOpen manager_asked user = (tt, tt)
  events_of-IsOpen (consent_answered granted) user = (tt, tt)
  events_of-IsOpen (human_asked sip_works now none) user = tt
  events_of-IsOpen (human_asked sip_works now (some time)) user = (tt, tt)

  events-IsOpen : (ms : List Moment) (user : SessionUserData) → All IsOpen (events texts ms user)
  events-IsOpen [] user = tt
  events-IsOpen (m ∷ ms) user =
      All-append IsOpen (events_of texts m user) _ (events_of-IsOpen m user) (events-IsOpen ms _)

finish-written :
    (h : Hasher) (env : WriteEnv) (f : SessionFinish) (db : Conversations)
    → env.is_up ≡ true
    → can_finish db f ≡ true
    → (write_or_drop h env (session_finish f) db).sessions ≡ close_found f db.sessions
unfolding write_or_drop write execute_write
finish-written h env f db up can =
    let db' : Conversations = record db { sessions = close_found f db.sessions } in
    ap (λ d. d.sessions)
      (write-granted env.is_up (can_finish db f) db db' can ∙ ap (λ up. if up then db' else db) up)

-- A call whose user data begins with no score, from the opening of its record to the shutdown
-- callback, with any turns, escalations, answers about consent and callbacks between: if its opening
-- row is written to tables that do not have its id, and the last write meets Postgres up, then,
-- whatever the other writes met, the sessions on file are those from before and one more: the
-- caller's, with the start and the end of the call, the whole seconds between them, no disposition,
-- how far below zero the worst score of its turns was, rounded to the column, the last answer about
-- consent or else the one that it began with, and no recording.
pub call-closed :
    (texts : Texts) (h : Hasher) (uuids : UuidLib) (net : NetEnv) (envs : ℕ → WriteEnv)
    (id : String) (now end : ℕ) (setting room : Option String) (ms : List Moment)
    (user : SessionUserData) (o : Outbox) (db : Conversations)
    → (envs 0).is_up ≡ true
    → can_start db (opening_row uuids id now (caller_of setting room user)) ≡ true
    → user.sentiment_history ≡ []
    → (after (length (events texts ms user)) (λ i. envs (suc i)) 0).is_up ≡ true
    → let live =
        finish_conversation end
          (live_all texts uuids net ms (open_conversation uuids id now setting room user, o)).0 in
      let last = user_after_all texts ms user in
      (w : ConversationWriter) × (live.writer ≡ some w)
      × ((r : CallSession) × ((drain h envs w.queue db).sessions ≡ db.sessions ++ r ∷ [])
          × IsClosedCall uuids id now end
              (caller_of setting room user)
              last.sentiment_history
              last.recording_consent
              r)
unfolding drain aclose
call-closed texts h uuids net envs id now end setting room ms user o db up can empty done =
    let caller = caller_of setting room user in
    let r = opening_row uuids id now caller in
    let es = events texts ms user in
    let last = user_after_all texts ms user in
    let f = closing id (some now) end none (peak last.sentiment_history) last.recording_consent in
    let w =
      perform_all texts.mask uuids (call_events texts ms end user)
        (start_session uuids id now caller new_writer) in
    let db0 : Conversations = record db { sessions = db.sessions ++ r ∷ [] } in
    let rest : ℕ → WriteEnv = λ i. envs (suc i) in
    let (db1, same, past) =
      past_items h texts.mask uuids id (some now) rest 0 es (some (session_finish f) ∷ []) db0
        (events-IsOpen texts ms user) in
    let small = user_after_all-HasSmall texts ms user (subst (All IsSmall) (sym empty) tt) in
    let ends : can_finish db1 f ≡ true = ground (arith, peak-fits last.sentiment_history small) in
    let new : has_session id db.sessions ≡ false = ground (arith, can) in
    (
      aclose w,
      call_writer texts uuids net id now end setting room ms user o,
      (
        closed f r,
        ap (λ d. d.sessions) (drain-aclose h envs w.queue db)
            ∙ ap (λ q. (drain h envs q db).sessions)
                (call_queue h texts.mask uuids id now caller (call_events texts ms end user)
                  ∙ ap (λ q. some (session_start r) ∷ q)
                      (items-finished h texts.mask uuids id (some now) 0 es end none
                        (peak last.sentiment_history) last.recording_consent))
            ∙ ap
                (λ d.
                  (drain h rest
                    (items texts.mask uuids id (some now) 0 es ++ some (session_finish f) ∷ [])
                    d).sessions)
                (start-written h (envs 0) r db up can)
            ∙ ap (λ d. d.sessions) past
            ∙ finish-written h (after (length es) rest 0) f db1 done ends
            ∙ ap (close_found f) same
            ∙ close_found-last f db.sessions r new refl,
        closed-IsClosedCall uuids id now end caller last.sentiment_history last.recording_consent,
      ),
    )
