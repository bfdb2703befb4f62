-- ===== src/Worker/Conversation/Recorded.antt =====
-- What of a call stands in the tables, against what was said.
use mathlib.Core.List.{append_assoc, append-nil}
use mathlib.Core.Bool.{true≢false}
use text.Mathlib.TextPositions.{eq_refl}
use livekit_agent.Base.{
  ℕ, suc, ◌≤◌, String, ◌≡◌, ◌≢◌, refl, ◌∙◌, sym, ap, subst, Bool, true, false, Option, some, List,
  [], ◌∷◌, ◌++◌, arith, eq_iff, str_eq, any, any-append_last, All, All-append, All-map,
  if◌then◌else◌,
}
use livekit_agent.Audit.Ledger.{Hasher}
use livekit_agent.Persistence.Uuid.{UuidLib}
use livekit_agent.Persistence.Conversation.{CallSession, Turn, Conversations}
use livekit_agent.Worker.Conversation.{
  session_start, new_writer, Caller, opening_row, start_session, Speech, turn_row, closing,
}
use livekit_agent.Worker.Conversation.Events.{
  Event, spoke, felt, escalated, called_back, consented, finished, is_storable, Storable,
  perform_all, item, items, queue-perform_all,
}
use livekit_agent.Worker.Conversation.Drain.{
  WriteEnv, has_session, same_turn, can_start, can_turn, execute_write, write, write_or_drop, drain,
}
use livekit_agent.Worker.Conversation.Consistent.{
  Filed, IsConsistent, write-keeps, write-granted, has_session-close_found,
}

-- A turn that was spoken, as it is to stand on file: in its session, under its number, said by its
-- speaker through its persona, with the masked text and no other.
abbrev pub as_spoken : (String → String) → String → ℕ → Speech → Turn
as_spoken mask id number s = record {
  session_id = id;
  turn_index = number;
  speaker = s.speaker;
  active_agent = s.active_agent;
  detected_language = s.language;
  transcript_masked = some (mask s.text);
  detected_intent = s.intent;
}

module _ (mask : String → String) (uuids : UuidLib) where
  module _ (id : String) (start : Option ℕ) where
    -- What of the turns reaches the table when the writes meet Postgres up or down.
    abbrev pub transcript : (ℕ → WriteEnv) → ℕ → List Event → List Turn
    transcript envs n [] = []
    transcript envs n (spoke s ∷ es) =
        let rest = transcript (λ i. envs (suc i)) (suc n) es in
        if (envs 0).is_up then as_spoken mask id (suc n) s ∷ rest else rest
    transcript envs n (e ∷ es) = transcript (λ i. envs (suc i)) n es

    -- The turns of this session on file have smaller numbers.
    abbrev pub Below : ℕ → List Turn → Type 0
    Below n turns = All (λ (t : Turn). t.session_id ≡ id → t.turn_index ≤ n) turns

    Below-suc : (n : ℕ) (turns : List Turn) → Below n turns → Below (suc n) turns
    Below-suc n = All-map _ _ λ t f e. omega (arith, f e)

    Below-new :
        (n : ℕ) (s : Speech) (turns : List Turn)
        → Below n turns
        → any (same_turn (turn_row mask id (suc n) s)) turns ≡ false
    Below-new n s [] b = refl
    Below-new n s (t ∷ turns) b =
        ground (arith, eq_iff id t.session_id, b.0, Below-new n s turns b.1)

    module _ (h : Hasher) where
      -- A write that adds no turn, and takes no session away.
      abbrev pub SameTurns : Conversations → Conversations → Type 0
      SameTurns db db' =
          (db'.turns ≡ db.turns)
          × ((i : String) → has_session i db'.sessions ≡ has_session i db.sessions)

      SameTurns-item :
          (env : WriteEnv) (n : ℕ) (e : Event) (db : Conversations)
          → ((s : Speech) → e ≢ spoke s)
          → SameTurns db (write_or_drop h env (item mask uuids id start n e) db)
      unfolding write_or_drop write execute_write
      SameTurns-item env n (spoke s) db ne = elim (ne s refl) [ ]
      SameTurns-item env n (felt score label) db ne =
          write-keeps (SameTurns db) env.is_up _ db _ (refl, λ i. refl) λ ok. (refl, λ i. refl)
      SameTurns-item env n (escalated trigger target dossier customer) db ne =
          write-keeps (SameTurns db) env.is_up _ db _ (refl, λ i. refl) λ ok. (refl, λ i. refl)
      SameTurns-item env n (called_back now customer subscription scheduled priority) db ne =
          write-keeps (SameTurns db) env.is_up _ db _ (refl, λ i. refl) λ ok. (refl, λ i. refl)
      SameTurns-item env n (consented granted language customer) db ne =
          write-keeps (SameTurns db) env.is_up _ db _ (refl, λ i. refl) λ ok. (refl, λ i. refl)
      SameTurns-item env n (finished now disposition peak answer) db ne =
          write-keeps (SameTurns db) env.is_up _ db _ (refl, λ i. refl)
            λ ok. (
              refl,
              λ i.
                  has_session-close_found (closing id start now disposition peak answer) i
                    db.sessions,
            )

      abbrev with_turn : ℕ → Speech → Conversations → Conversations
      with_turn n s db = record db { turns = db.turns ++ turn_row mask id (suc n) s ∷ [] }

      written_turn :
          (env : WriteEnv) (n : ℕ) (s : Speech) (db : Conversations)
          → has_session id db.sessions ≡ true
          → Below n db.turns
          → is_storable s ≡ true
          → write_or_drop h env (item mask uuids id start n (spoke s)) db
            ≡ (if env.is_up then with_turn n s db else db)
      unfolding write_or_drop write execute_write
      written_turn env n s db o b ok =
          let fresh = Below-new n s db.turns b in
          let can : can_turn db (turn_row mask id (suc n) s) ≡ true =
            ground (arith, o, fresh, ok) in
          write-granted env.is_up (can_turn db (turn_row mask id (suc n) s)) db (with_turn n s db)
            can

      Below-with_turn :
          (n : ℕ) (s : Speech) (db : Conversations)
          → Below n db.turns
          → Below (suc n) (with_turn n s db).turns
      Below-with_turn n s db b =
          All-append _ db.turns _ (Below-suc n db.turns b) ((λ e. omega arith), tt)

      past_other :
          (n : ℕ) (db db' : Conversations) (end rest : List Turn)
          → SameTurns db db'
          → (has_session id db'.sessions ≡ true → Below n db'.turns → end ≡ db'.turns ++ rest)
          → has_session id db.sessions ≡ true
          → Below n db.turns
          → end ≡ db.turns ++ rest
      past_other n db db' end rest same f o b =
          f (same.1 id ∙ o) (subst (Below n) (sym same.0) b) ∙ ap (λ ts. ts ++ rest) same.0

      past_turn :
          (n : ℕ) (s : Speech) (up : Bool) (db db' : Conversations) (end rest : List Turn)
          → db' ≡ (if up then with_turn n s db else db)
          → (has_session id db'.sessions ≡ true → Below (suc n) db'.turns → end ≡ db'.turns ++ rest)
          → has_session id db.sessions ≡ true
          → Below n db.turns
          → end ≡ db.turns ++ (if up then turn_row mask id (suc n) s ∷ rest else rest)
      past_turn n s true db db' end rest e f o b =
          f (rw e o) (rw e (Below-with_turn n s db b))
          ∙ ap (λ d. d.turns ++ rest) e
          ∙ append_assoc db.turns (turn_row mask id (suc n) s ∷ []) rest
      past_turn n s false db db' end rest e f o b =
          f (rw e o) (rw e (Below-suc n db.turns b)) ∙ ap (λ d. d.turns ++ rest) e

      -- From a session on file.
      drain-items :
          (envs : ℕ → WriteEnv) (n : ℕ) (es : List Event) (db : Conversations)
          → All Storable es
          → has_session id db.sessions ≡ true
          → Below n db.turns
          → (drain h envs (items mask uuids id start n es) db).turns
            ≡ db.turns ++ transcript envs n es
      unfolding drain
      drain-items envs n [] db ok o b = sym (append-nil db.turns)
      drain-items envs n (spoke s ∷ es) db ok o b =
          past_turn n s (envs 0).is_up db _ _ _ (written_turn (envs 0) n s db o b ok.0)
            (drain-items (λ i. envs (suc i)) (suc n) es _ ok.1) o b
      drain-items envs n (felt score label ∷ es) db ok o b =
          past_other n db
            (write_or_drop h (envs 0) (item mask uuids id start n (felt score label)) db) _ _
            (SameTurns-item (envs 0) n (felt score label) db (λ s e. cc e))
            (drain-items (λ i. envs (suc i)) n es _ ok.1) o b
      drain-items envs n (escalated trigger target dossier customer ∷ es) db ok o b =
          past_other n db
            (write_or_drop h (envs 0)
              (item mask uuids id start n (escalated trigger target dossier customer)) db)
            _ _
            (SameTurns-item (envs 0) n (escalated trigger target dossier customer) db (λ s e. cc e))
            (drain-items (λ i. envs (suc i)) n es _ ok.1) o b
      drain-items envs n (called_back now customer subscription at priority ∷ es) db ok o b =
          past_other n db
            (write_or_drop h (envs 0)
              (item mask uuids id start n (called_back now customer subscription at priority)) db)
            _ _
            (SameTurns-item (envs 0) n (called_back now customer subscription at priority) db
              (λ s e. cc e))
            (drain-items (λ i. envs (suc i)) n es _ ok.1) o b
      drain-items envs n (consented granted language customer ∷ es) db ok o b =
          past_other n db
            (write_or_drop h (envs 0)
              (item mask uuids id start n (consented granted language customer)) db)
            _ _ (SameTurns-item (envs 0) n (consented granted language customer) db (λ s e. cc e))
            (drain-items (λ i. envs (suc i)) n es _ ok.1) o b
      drain-items envs n (finished now disposition peak answer ∷ es) db ok o b =
          past_other n db
            (write_or_drop h (envs 0)
              (item mask uuids id start n (finished now disposition peak answer)) db)
            _ _ (SameTurns-item (envs 0) n (finished now disposition peak answer) db (λ s e. cc e))
            (drain-items (λ i. envs (suc i)) n es _ ok.1) o b

-- A consistent table has no turn of a session that is not on file.
Below-new_session :
    (id : String) (sessions : List CallSession) (turns : List Turn)
    → has_session id sessions ≡ false
    → Filed (λ (t : Turn). t.session_id) sessions turns
    → All (λ (t : Turn). t.session_id ≡ id → t.turn_index ≤ 0) turns
Below-new_session id sessions [] n f = tt
Below-new_session id sessions (t ∷ turns) n f = (
  (λ e. absurd (true≢false (sym f.0 ∙ ap (λ i. has_session i sessions) e ∙ n))),
  Below-new_session id sessions turns n f.1,
)

pub start-written :
    (h : Hasher) (env : WriteEnv) (r : CallSession) (db : Conversations)
    → env.is_up ≡ true
    → can_start db r ≡ true
    → write_or_drop h env (session_start r) db ≡ record db { sessions = db.sessions ++ r ∷ [] }
unfolding write_or_drop write execute_write
start-written h env r db up can =
    let db' : Conversations = record db { sessions = db.sessions ++ r ∷ [] } in
    write-granted env.is_up (can_start db r) db db' can ∙ ap (λ up. if up then db' else db) up

module _ (h : Hasher) (mask : String → String) (uuids : UuidLib) where
  -- The queue of a call: the opening row, and an item for each call of the agents.
  pub call_queue :
      (id : String) (now : ℕ) (caller : Caller) (es : List Event)
      → (perform_all mask uuids es (start_session uuids id now caller new_writer)).queue
        ≡ some (session_start (opening_row uuids id now caller))
          ∷ items mask uuids id (some now) 0 es
  unfolding start_session
  call_queue id now caller es = queue-perform_all mask uuids id (some now) es _ refl refl

  -- A call whose opening row is written to consistent tables that do not have its id: when the
  -- queue is drained, the turns on file are those from before, and then each turn that was spoken
  -- with a known speaker and language and with labels that fit, in the order spoken, masked, with
  -- its number in the call, except exactly the turns whose own write met Postgres down.
  pub drain-transcript :
      (envs : ℕ → WriteEnv) (id : String) (now : ℕ) (caller : Caller) (es : List Event)
      (db : Conversations)
      → IsConsistent h db
      → (envs 0).is_up ≡ true
      → can_start db (opening_row uuids id now caller) ≡ true
      → All Storable es
      → (drain h envs
          (perform_all mask uuids es (start_session uuids id now caller new_writer)).queue
          db).turns
        ≡ db.turns ++ transcript mask uuids id (some now) (λ i. envs (suc i)) 0 es
  unfolding drain
  drain-transcript envs id now caller es db c up can ok =
      let r = opening_row uuids id now caller in
      let db' : Conversations = record db { sessions = db.sessions ++ r ∷ [] } in
      let new : has_session id db.sessions ≡ false = ground (arith, can) in
      ap (λ q. (drain h envs q db).turns) (call_queue id now caller es)
      ∙ ap (λ d. (drain h (λ i. envs (suc i)) (items mask uuids id (some now) 0 es) d).turns)
          (start-written h (envs 0) r db up can)
      ∙ drain-items mask uuids id (some now) h (λ i. envs (suc i)) 0 es db' ok
          (any-append_last (λ (s : CallSession). str_eq s.id id) db.sessions r (simp eq_refl))
          (Below-new_session id db.sessions db.turns new c.turns_filed)
