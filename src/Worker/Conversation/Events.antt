-- ===== src/Worker/Conversation/Events.antt =====
-- The calls of the agents in one call session, and the items that they put on the queue.
use mathlib.Core.List.{append_assoc, append-nil}
use livekit_agent.Base.{
  ℕ, suc, String, ◌≡◌, refl, ◌∙◌, sym, ap, Bool, true, ◌&&◌, Option, some, List, [], ◌∷◌, ◌++◌,
  member,
}
use livekit_agent.Base.Int.{ℤ}
use livekit_agent.Base.Json.{Payload}
use livekit_agent.Persistence.Uuid.{UuidLib}
use livekit_agent.Worker.Conversation.{
  ConversationWriter, Item, turn, sentiment, escalation, callback, consent, session_finish, Speech,
  turn_row, record_turn, sample_row, record_sentiment, case_row, record_escalation, callback_row,
  record_callback, consent_row, record_consent, closing, finish_session,
}
use livekit_agent.Worker.Conversation.Drain.{one_of, fits, languages}

-- What the agents call while a call session is open.
pub data Event : Type 0 where
  spoke : Speech → Event
  felt : ℤ → String → Event
  escalated : String → String → Payload → Option String → Event
  called_back : ℕ → Option String → Option String → Option ℕ → ℕ → Event
  consented : Bool → Option String → Option String → Event
  finished : ℕ → Option String → ℤ → Option Bool → Event

-- The text of a turn that the tables accept.
abbrev pub is_storable : Speech → Bool
is_storable s =
    member s.speaker ("caller" ∷ "agent" ∷ [])
    && (one_of s.language languages && (fits 40 s.active_agent && fits 80 s.intent))

abbrev pub Storable : Event → Type 0
Storable (spoke s) = is_storable s ≡ true
Storable e = Unit

module _ (mask : String → String) (uuids : UuidLib) where
  unfoldable pub perform : Event → ConversationWriter → ConversationWriter
  unfolding record_turn record_sentiment record_escalation record_callback record_consent
      finish_session
  perform (spoke s) w = record_turn mask s w
  perform (felt score label) w = record_sentiment score label w
  perform (escalated trigger target dossier customer) w =
      record_escalation uuids trigger target dossier customer w
  perform (called_back now customer subscription scheduled priority) w =
      record_callback uuids now customer subscription scheduled priority w
  perform (consented granted language customer) w = record_consent uuids granted language customer w
  perform (finished now disposition peak answer) w = finish_session now disposition peak answer w

  unfoldable pub perform_all : List Event → ConversationWriter → ConversationWriter
  perform_all [] w = w
  perform_all (e ∷ es) w = perform_all es (perform e w)

  module _ (id : String) (start : Option ℕ) where
    -- The item of a call, after a number of turns.
    abbrev pub item : ℕ → Event → Item
    item n (spoke s) = turn (turn_row mask id (suc n) s)
    item n (felt score label) = sentiment (sample_row id n score label)
    item n (escalated trigger target dossier customer) =
        escalation (case_row uuids id trigger target dossier customer)
    item n (called_back now customer subscription scheduled priority) =
        callback (callback_row uuids id now customer subscription scheduled priority)
    item n (consented granted language customer) =
        consent (consent_row uuids id granted language customer)
    item n (finished now disposition peak answer) =
        session_finish (closing id start now disposition peak answer)

    abbrev pub turns_after : ℕ → Event → ℕ
    turns_after n (spoke s) = suc n
    turns_after n e = n

    abbrev pub items : ℕ → List Event → List (Option Item)
    items n [] = []
    items n (e ∷ es) = some (item n e) ∷ items (turns_after n e) es

    abbrev with_item : Event → ConversationWriter → ConversationWriter
    with_item e w = record w {
      queue = w.queue ++ some (item w.turn_index e) ∷ [];
      turn_index = turns_after w.turn_index e;
    }

    perform_one :
        (e : Event) (w : ConversationWriter)
        → w.session_db_id ≡ some id
        → w.start_time ≡ start
        → perform e w ≡ with_item e w
    unfolding perform record_turn record_sentiment record_escalation record_callback record_consent
        finish_session
    perform_one (spoke s) w p q = rw p refl
    perform_one (felt score label) w p q = rw p refl
    perform_one (escalated trigger target dossier customer) w p q = rw p refl
    perform_one (called_back now customer subscription scheduled priority) w p q = rw p refl
    perform_one (consented granted language customer) w p q = rw p refl
    perform_one (finished now disposition peak answer) w p q = rw (p, q) refl

    -- The calls put their items on the queue in their order.
    pub queue-perform_all :
        (es : List Event) (w : ConversationWriter)
        → w.session_db_id ≡ some id
        → w.start_time ≡ start
        → (perform_all es w).queue ≡ w.queue ++ items w.turn_index es
    unfolding perform_all
    queue-perform_all [] w p q = sym (append-nil w.queue)
    queue-perform_all (e ∷ es) w p q =
        ap (λ v. (perform_all es v).queue) (perform_one e w p q)
        ∙ queue-perform_all es (with_item e w) p q
        ∙ append_assoc w.queue (some (item w.turn_index e) ∷ [])
            (items (turns_after w.turn_index e) es)
