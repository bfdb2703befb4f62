-- ===== src/Notify/Clients.antt =====
-- The `/notify` endpoint of services/notification-service/src/notification_service/main.py, and its
-- clients: apps/agent-worker/src/clients/notification_client.py, packages/notification-client, and
-- the servers of messages and tickets.
use livekit_agent.Base.{ℕ, String, Bool, false, Option, none, some, [], or_else, if◌then◌else◌}
use livekit_agent.Base.Dict.{Dict, lookup}
use livekit_agent.Auth.{require_internal_key, internal_headers}
use livekit_agent.Persistence.Uuid.{UuidLib}
use livekit_agent.Notify.{NotifyRequest, NotifyResponse, NotifyEnv, Outbox, notify, freeform}
use livekit_agent.Tickets.Tools.{Confirmation, confirmation_sent}

-- What the clients meet: the key of the service's process and of their own, and whether the service
-- is reached.
pub record NetEnv : Type 0 where
  pub service : NotifyEnv
  pub expected : Option String
  pub own : Option String
  pub is_reached : Bool

abbrev pub status_of : Option NotifyResponse → ℕ × Bool
status_of none = (500, false)
status_of (some r) = (200, r.sent)

-- What `ChannelStrategyNotifier.send` takes from its `data`, each with its default.
pub record Data : Type 0 where
  pub customer_id : Option String
  pub language : Option String
  pub params : Dict String

abbrev pub request_to : String → String → String → String → Dict String → NotifyRequest
request_to customer_id channel template language params = record {
  customer_id = customer_id;
  to = customer_id;
  channel = channel;
  template = template;
  language = language;
  params = params;
}

-- What `_send` of messaging_ops.py returns as `sent`; `none` when it raises.
abbrev pub sent_of : Option (ℕ × Bool) → Option Bool
sent_of none = none
sent_of (some answer) = some (confirmation_sent (some answer))

module _ (uuids : UuidLib) (net : NetEnv) where
  -- `POST /notify` with its headers: the status code and `sent`
  unfoldable pub post_notify : Dict String → NotifyRequest → Outbox → (ℕ × Bool) × Outbox
  post_notify headers req o =
      if require_internal_key net.expected "/notify" (lookup "X-API-Key" headers)
      then (let (r, o') = notify uuids net.service req o in (status_of r, o'))
      else ((403, false), o)

  -- The answer that a client gets; `none` is an HTTPError of the connection.
  unfoldable pub send_request : Dict String → NotifyRequest → Outbox → Option (ℕ × Bool) × Outbox
  send_request headers req o =
      if net.is_reached
      then (let (answer, o') = post_notify headers req o in (some answer, o'))
      else (none, o)

  -- `NotificationClient.notify` of the worker, with the `sent` of what it returns
  unfoldable pub client_notify :
      String → String → String → Dict String → String → Outbox → Bool × Outbox
  client_notify customer_id template language params channel o =
      let (answer, o') =
        send_request (internal_headers net.own)
          (request_to customer_id channel template language params) o in
      (confirmation_sent answer, o')

  -- `_send` of messaging_ops.py
  unfoldable pub gateway_send : String → String → String → Outbox → Option Bool × Outbox
  gateway_send channel to message o =
      let (answer, o') = send_request [] (freeform channel to message) o in (sent_of answer, o')

  -- The post of `create_ticket`
  unfoldable pub ticket_post : Confirmation → Outbox → Option (ℕ × Bool) × Outbox
  ticket_post c o =
      send_request []
        (record {
          customer_id = c.customer_id;
          to = c.to;
          channel = c.channel;
          template = c.template;
          language = c.language;
          params = c.params;
        })
        o

  -- `ChannelStrategyNotifier.send`, which returns nothing
  unfoldable pub notifier_send : String → String → String → Data → Outbox → Outbox
  notifier_send channel to template d o =
      (send_request []
        (record {
          customer_id = or_else d.customer_id to;
          to = to;
          channel = channel;
          template = template;
          language = or_else d.language "fr";
          params = d.params;
        })
        o).1
