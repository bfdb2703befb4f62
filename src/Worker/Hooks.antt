-- ===== src/Worker/Hooks.antt =====
-- agents/base_agent.py: the hook that every persona runs after a turn of the caller.
pub mod Heard
use Prim.Native.String.{String, ◌++◌}
use livekit_agent.Base.{ℕ, Bool, Option, none, some, List, [], ◌∷◌, str_eq, if◌then◌else◌}
use livekit_agent.Base.Int.{ℤ, pos}
use livekit_agent.Worker.Session.{SessionUserData}
use livekit_agent.Worker.Sentiment.{score}
use livekit_agent.Worker.Conversation.{
  ConversationWriter, Speech, record_turn, record_sentiment, sentiment_label,
}

-- The `content` of a ChatMessage: a text, a list with texts in it, or something else.
pub data Content : Type 0 where
  text : String → Content
  parts : List (Option String) → Content
  other : Content

pub record ChatMessage : Type 0 where
  pub text_content : Option String
  pub content : Content

-- `" ".join` of the texts among the parts
abbrev pub join : String → List (Option String) → String
join sep [] = ""
join sep (none ∷ ps) = join sep ps
join sep (some s ∷ ps) = sep ++ (s ++ join " " ps)

-- `_extract_text`
unfoldable pub extract_text : ChatMessage → String
extract_text m = elim m.text_content [
  | some s ↦ s
  | none ↦ elim m.content [ text s ↦ s | parts ps ↦ join "" ps | other ↦ "" ]
]

-- The session's user data, with the writer that it holds.
pub record Live : Type 0 where
  pub user : SessionUserData
  pub writer : Option ConversationWriter

-- `if writer is not None`
abbrev pub on_writer :
    (ConversationWriter → ConversationWriter)
    → Option ConversationWriter
    → Option ConversationWriter
on_writer f none = none
on_writer f (some w) = some (f w)

-- `history[-1] if history else 0.0`
abbrev pub last_value : List ℤ → ℤ
last_value [] = pos 0
last_value (v ∷ []) = v
last_value (v ∷ w ∷ vs) = last_value (w ∷ vs)

abbrev pub caller_speech : String → String → String → Speech
caller_speech agent language transcript = record {
  speaker = "caller";
  text = transcript;
  active_agent = some agent;
  language = some language;
  intent = none;
}

-- What Python gives the hook: `str.strip`, `str.lower`, and the masker of the writer.
pub record Texts : Type 0 where
  pub strip : String → String
  pub lower : String → String
  pub mask : String → String

module _ (texts : Texts) where
  -- The part under `if transcript`.
  abbrev pub observe : String → String → Live → Live
  observe agent transcript live =
      let user = (score texts.lower transcript live.user).1 in
      let value = last_value user.sentiment_history in
      record {
        user = user;
        writer =
            on_writer
              (λ w.
                record_sentiment value (sentiment_label value)
                  (record_turn texts.mask (caller_speech agent user.language transcript) w))
              live.writer;
      }

  -- `on_user_turn_completed` of the persona of a name, with whether the note is added
  unfoldable pub on_user_turn_completed : String → ChatMessage → Live → Bool × Live
  on_user_turn_completed agent message live =
      let transcript = texts.strip (extract_text message) in
      let live' = if str_eq transcript "" then live else observe agent transcript live in
      (live'.user.should_offer_escalation, live')
