-- ===== src/Worker/Hooks/Heard.antt =====
-- What the turns of a call leave in the session, on the queue and on file.
use livekit_agent.Base.{
  ℕ, suc, String, ◌≡◌, refl, ap, ◌∙◌, Bool, true, false, Option, none, some, List, [], ◌∷◌, ◌++◌,
  All, str_eq, member, arith, if◌then◌else◌,
}
use livekit_agent.Base.Int.{ℤ}
use livekit_agent.Audit.Ledger.{Hasher}
use livekit_agent.Persistence.Uuid.{UuidLib}
use livekit_agent.Persistence.Conversation.{Conversations}
use livekit_agent.Worker.Session.{SessionUserData}
use livekit_agent.Worker.Sentiment.{value_of, score}
use livekit_agent.Worker.Sentiment.Streak.{score_all}
use livekit_agent.Worker.Conversation.{
  ConversationWriter, Caller, new_writer, opening_row, start_session, record_turn, record_sentiment,
  sentiment_label,
}
use livekit_agent.Worker.Conversation.Drain.{WriteEnv, can_start, drain, fits, languages}
use livekit_agent.Worker.Conversation.Consistent.{IsConsistent}
use livekit_agent.Worker.Conversation.Events.{Event, spoke, felt, Storable, perform, perform_all}
use livekit_agent.Worker.Conversation.Recorded.{transcript, drain-transcript}
use livekit_agent.Worker.Hooks.{
  ChatMessage, extract_text, Live, on_writer, last_value, caller_speech, Texts, observe,
  on_user_turn_completed,
}

-- A turn of the caller, in front of the persona of a name.
abbrev pub Turns : Type 0
Turns = List (String × ChatMessage)

pub on_writer-on_writer :
    (f g : ConversationWriter → ConversationWriter) (o : Option ConversationWriter)
    → on_writer g (on_writer f o) ≡ on_writer (λ w. g (f w)) o
on_writer-on_writer f g none = refl
on_writer-on_writer f g (some w) = refl

module _ (texts : Texts) where
  -- The hook after each turn.
  abbrev pub hear_all : Turns → Live → Live
  hear_all [] live = live
  hear_all ((agent, m) ∷ turns) live = hear_all turns (on_user_turn_completed texts agent m live).1

  -- The transcripts that are not blank, in their order.
  abbrev pub said : Turns → List String
  said [] = []
  said ((agent, m) ∷ turns) =
      let t = texts.strip (extract_text m) in
      let rest = said turns in if str_eq t "" then rest else t ∷ rest

  -- A turn and its sample for each of them.
  abbrev pub heard : String → Turns → List Event
  heard language [] = []
  heard language ((agent, m) ∷ turns) =
      let t = texts.strip (extract_text m) in
      let value = value_of (texts.lower t) in
      let rest = heard language turns in
      if str_eq t ""
      then rest
      else spoke (caller_speech agent language t) ∷ felt value (sentiment_label value) ∷ rest

  last_value-append : (vs : List ℤ) (v : ℤ) → last_value (vs ++ v ∷ []) ≡ v
  last_value-append [] v = refl
  last_value-append (x ∷ []) v = refl
  last_value-append (x ∷ y ∷ vs) v = last_value-append (y ∷ vs) v

  module _ (uuids : UuidLib) where
    same_writer :
        (o : Option ConversationWriter) → o ≡ on_writer (perform_all texts.mask uuids []) o
    unfolding perform_all
    same_writer none = refl
    same_writer (some w) = refl

    observe-writer :
        (agent t : String) (live : Live)
        → (observe texts agent t live).writer
          ≡ on_writer
              (perform_all texts.mask uuids (
                spoke (caller_speech agent live.user.language t)
                ∷ felt (value_of (texts.lower t)) (sentiment_label (value_of (texts.lower t)))
                ∷ []))
              live.writer
    unfolding perform_all perform score
    observe-writer agent t live =
        ap
          (λ v.
            on_writer
              (λ w.
                record_sentiment v (sentiment_label v)
                  (record_turn texts.mask (caller_speech agent live.user.language t) w))
              live.writer)
          (last_value-append live.user.sentiment_history (value_of (texts.lower t)))

    -- What the hooks have done to a session.
    abbrev Done : Live → String → List String → List Event → Live → Type 0
    Done before language ts es after =
        (after.user ≡ score_all texts.lower ts before.user)
        × (after.writer ≡ on_writer (perform_all texts.mask uuids es) before.writer)

    observe-Done :
        (agent t : String) (turns : Turns) (live : Live)
        → ((l : Live)
            → Done l l.user.language (said turns) (heard l.user.language turns) (hear_all turns l))
        → (blank : Bool)
        → Done live live.user.language
            (if blank then said turns else t ∷ said turns)
            (if blank
              then heard live.user.language turns
              else spoke (caller_speech agent live.user.language t)
                ∷ felt (value_of (texts.lower t)) (sentiment_label (value_of (texts.lower t)))
                ∷ heard live.user.language turns)
            (hear_all turns (if blank then live else observe texts agent t live))
    unfolding perform_all score
    observe-Done agent t turns live rest true = rest live
    observe-Done agent t turns live rest false =
        let (user, writer) = rest (observe texts agent t live) in
        (
          user,
          writer
              ∙ ap (on_writer (perform_all texts.mask uuids (heard live.user.language turns)))
                  (observe-writer agent t live)
              ∙ on_writer-on_writer _ _ live.writer,
        )

    -- The session has scored each turn that is not blank, and the writer was called for each with
    -- the turn and a sample of its value.
    pub hear_all-Done :
        (turns : Turns) (live : Live)
        → Done live live.user.language
            (said turns)
            (heard live.user.language turns)
            (hear_all turns live)
    unfolding on_user_turn_completed perform_all
    hear_all-Done [] live = (refl, same_writer live.writer)
    hear_all-Done ((agent, m) ∷ turns) live =
        let t = texts.strip (extract_text m) in
        observe-Done agent t turns live (hear_all-Done turns) (str_eq t "")

  -- The persona names fit their column.
  abbrev pub Named : Turns → Type 0
  Named = All (λ (turn : String × ChatMessage). fits 40 (some turn.0) ≡ true)

  Storable-if :
      (agent language t : String) (value : ℤ) (blank : Bool) (es : List Event)
      → member language languages ≡ true
      → fits 40 (some agent) ≡ true
      → All Storable es
      → All Storable (
          if blank
          then es
          else spoke (caller_speech agent language t) ∷ felt value (sentiment_label value) ∷ es)
  Storable-if agent language t value true es known named ok = ok
  Storable-if agent language t value false es known named ok =
      (ground (arith, known, named), (tt, ok))

  pub heard-Storable :
      (language : String) (turns : Turns)
      → member language languages ≡ true
      → Named turns
      → All Storable (heard language turns)
  heard-Storable language [] known named = tt
  heard-Storable language ((agent, m) ∷ turns) known named =
      let t = texts.strip (extract_text m) in
      Storable-if agent language t (value_of (texts.lower t)) (str_eq t "") (heard language turns)
        known named.0 (heard-Storable language turns known named.1)

-- After the turns of a call in a supported language, in front of personas whose names fit their
-- column: the session has scored the turns that are not blank, and, if the opening row of the call
-- is written to consistent tables that do not have its id, draining the writer's queue leaves on
-- file exactly those turns, masked, in order and numbered, and their persona, except the turns
-- whose own write met Postgres down.
pub hear_all-transcript :
    (texts : Texts) (h : Hasher) (uuids : UuidLib) (envs : ℕ → WriteEnv) (id : String) (now : ℕ)
    (caller : Caller) (turns : Turns) (user : SessionUserData) (db : Conversations)
    → IsConsistent h db
    → (envs 0).is_up ≡ true
    → can_start db (opening_row uuids id now caller) ≡ true
    → member user.language languages ≡ true
    → Named texts turns
    → let live' =
        hear_all texts turns
          (record { user = user; writer = some (start_session uuids id now caller new_writer) }) in
      (live'.user ≡ score_all texts.lower (said texts turns) user)
      × ((w : ConversationWriter) × (live'.writer ≡ some w)
          × ((drain h envs w.queue db).turns
              ≡ db.turns
                ++ transcript texts.mask uuids id
                    (some now)
                    (λ i. envs (suc i))
                    0
                    (heard texts user.language turns)))
hear_all-transcript texts h uuids envs id now caller turns user db c up can known named =
    let opened = start_session uuids id now caller new_writer in
    let es = heard texts user.language turns in
    let done = hear_all-Done texts uuids turns (record { user = user; writer = some opened }) in
    (
      done.0,
      (
        perform_all texts.mask uuids es opened,
        done.1,
        drain-transcript h texts.mask uuids envs id now caller es db c up can
            (heard-Storable texts user.language turns known named),
      ),
    )
