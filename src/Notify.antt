-- ===== src/Notify.antt =====
-- services/notification-service/src/notification_service: templates.py, get_channel of channels.py,
-- and service.py. The values of the parameters are texts.
pub mod Told
pub mod Clients
pub mod Keyed
use Prim.Native.Char.{code}
use Prim.Native.String.{String, ◌++◌, [] as empty, ◌∷◌ as char_cons}
use mathlib.Core.List.{◌++◌ as append_list}
use livekit_agent.Base.{
  ℕ, Bool, true, false, ◌&&◌, Option, none, some, List, [], ◌∷◌, str_eq, member, ◌==◌, or_else,
  if◌then◌else◌,
}
use livekit_agent.Base.Dict.{Dict, lookup}
use livekit_agent.Persistence.Uuid.{UuidLib, to_uuid}
use livekit_agent.Worker.Conversation.Drain.{refers, fits}

-- The two Arabic texts, which are an argument.
pub record Arabic : Type 0 where
  pub ticket_created : String
  pub callback_scheduled : String

-- `TEMPLATES`
abbrev pub templates : Arabic → Dict (Dict String)
templates arabic =
    (
      "ticket_created",
      (
        "fr",
        "Votre demande a bien été enregistrée. Référence du ticket : {ticket_id}. Tunisie Telecom.",
      )
          ∷ ("ar", arabic.ticket_created)
          ∷ ("en", "Your request has been logged. Ticket reference: {ticket_id}. Tunisie Telecom.")
          ∷ [],
    )
    ∷ (
      "callback_scheduled",
      ("fr", "Nous vous rappellerons {when}. Merci de votre patience. Tunisie Telecom.")
          ∷ ("ar", arabic.callback_scheduled)
          ∷ ("en", "We will call you back {when}. Thank you for your patience. Tunisie Telecom.")
          ∷ [],
    )
    ∷ []

-- What `str.format` comes to, on texts whose braces hold plain names.
pub data Formatted : Type 0 where
  formatted : String → Formatted
  key_error : Formatted
  value_error : Formatted

abbrev pub after_text : String → Formatted → Formatted
after_text s (formatted rest) = formatted (s ++ rest)
after_text s key_error = key_error
after_text s value_error = value_error

abbrev pub after_value : Option String → Formatted → Formatted
after_value none rest = key_error
after_value (some v) rest = after_text v rest

module _ (params : Dict String) where
  -- The text from a position outside of braces (`none`), or within them after some of a name.
  abbrev pub format_from : Option String → String → Formatted
  format_from none empty = formatted ""
  format_from (some name) empty = value_error
  format_from none (char_cons c s) =
      let opened = format_from (some "") s in
      let rest = format_from none s in
      if code c == 123 then opened else after_text (char_cons c empty) rest
  format_from (some name) (char_cons c s) =
      let closed = format_from none s in
      let rest = format_from (some (name ++ char_cons c empty)) s in
      if code c == 125 then after_value (lookup name params) closed else rest

-- `a or b`
abbrev pub or_text : Option String → String → String
or_text none later = later
or_text (some s) later = if str_eq s "" then later else s

abbrev pub by_language : Arabic → String → Dict String
by_language arabic template = or_else (lookup template (templates arabic)) []

abbrev pub text_for : Arabic → String → String → String
text_for arabic template language =
    or_text (lookup language (by_language arabic template))
      (or_text (lookup "en" (by_language arabic template)) "")

abbrev pub rendered : String → Formatted → Option String
rendered text (formatted s) = some s
rendered text key_error = some text
rendered text value_error = none

-- `render`; `none` is an exception.
unfoldable pub render : Arabic → String → String → Dict String → Option String
render arabic template language params =
    let text = text_for arabic template language in rendered text (format_from params none text)

pub record NotifyRequest : Type 0 where
  pub customer_id : String
  pub to : String
  pub channel : String
  pub template : String
  pub language : String
  pub params : Dict String

pub record NotifyResponse : Type 0 where
  pub sent : Bool
  pub reference : String
  pub channel : String

-- `billing.notifications` (packages/persistence/src/persistence/models/billing.py)
pub record Notification : Type 0 where
  pub customer_id : Option String
  pub channel : String
  pub template_code : String
  pub status : String

pub record SentLine : Type 0 where
  pub customer_id : String
  pub channel : String
  pub template : String
  pub reference : String

-- What the service keeps: its list and the table, with the ids that the table refers to.
pub record Outbox : Type 0 where
  pub customers : List String
  pub sent : List SentLine
  pub notifications : List Notification

-- What a channel's `send` returns for a handle and a body; `none` is an exception.
abbrev pub Channel : Type 0
Channel = String → String → Option String

abbrev pub channels : List String
channels = "sms" ∷ "whatsapp" ∷ "email" ∷ []

-- CONNECTOR_MODE, the providers that are configured, what the mock draws, and Postgres.
pub record NotifyEnv : Type 0 where
  pub arabic : Arabic
  pub is_live : Bool
  pub live_channel : String → Option Channel
  pub fresh : String
  pub enabled : Bool
  pub is_up : Bool

abbrev pub mock_channel : String → String → Channel
mock_channel prefix fresh to body = some (prefix ++ ("-" ++ fresh))

-- `self.name.upper()`
abbrev pub upper_name : String → String
upper_name name =
    if str_eq name "whatsapp" then "WHATSAPP" else if str_eq name "email" then "EMAIL" else "SMS"

abbrev pub known_name : String → String
known_name name = if member name channels then name else "sms"

-- `get_channel`
unfoldable pub get_channel : NotifyEnv → String → Channel
get_channel env name =
    let name' = known_name name in
    let mock = mock_channel (upper_name name') env.fresh in
    if env.is_live then or_else (env.live_channel name') mock else mock

abbrev pub notification_row : UuidLib → NotifyRequest → Notification
notification_row uuids req = record {
  customer_id = to_uuid uuids (some req.customer_id);
  channel = req.channel;
  template_code = req.template;
  status = "sent";
}

abbrev pub can_notify : List String → Notification → Bool
can_notify customers n =
    refers n.customer_id customers && (member n.channel channels && fits 80 (some n.template_code))

module _ (uuids : UuidLib) (env : NotifyEnv) where
  -- `_persist`, under its guards
  unfoldable pub persist : NotifyRequest → Outbox → Outbox
  persist req o =
      let n = notification_row uuids req in
      if env.enabled && (env.is_up && can_notify o.customers n)
      then record o { notifications = append_list o.notifications (n ∷ []) }
      else o

  -- What follows the send.
  abbrev pub log_sent : NotifyRequest → Option String → Outbox → Option NotifyResponse × Outbox
  log_sent req none o = (none, o)
  log_sent req (some reference) o =
      let line : SentLine = record {
        customer_id = req.customer_id;
        channel = req.channel;
        template = req.template;
        reference = reference;
      } in
      (
        some (record { sent = true; reference = reference; channel = req.channel }),
        persist req (record o { sent = append_list o.sent (line ∷ []) }),
      )

  abbrev pub send_body : NotifyRequest → Option String → Outbox → Option NotifyResponse × Outbox
  send_body req none o = (none, o)
  send_body req (some body) o =
      log_sent req
        (get_channel env req.channel (if str_eq req.to "" then req.customer_id else req.to) body) o

  -- `notify`; `none` is an exception.
  unfoldable pub notify : NotifyRequest → Outbox → Option NotifyResponse × Outbox
  notify req o = send_body req (render env.arabic req.template req.language req.params) o

-- `_send` of mcp-servers/messaging-gateway/src/messaging_gateway/tools/messaging_ops.py: the request.
unfoldable pub freeform : String → String → String → NotifyRequest
freeform channel to message = record {
  customer_id = to;
  to = to;
  channel = channel;
  template = "freeform";
  language = "fr";
  params = ("body", message) ∷ [];
}
