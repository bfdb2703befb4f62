-- ===== src/Tests/Keyed.antt =====
-- The clients of the notification service, with a key.
use livekit_agent.Base.{◌≡◌, refl, true, false, none, some, [], ◌∷◌}
use livekit_agent.Notify.{notify, render, get_channel}
use livekit_agent.Notify.Clients.{
  client_notify, gateway_send, ticket_post, Data, notifier_send, send_request, post_notify,
}
use livekit_agent.Notify.Keyed.{IsUnsent, keyless_clients}
use livekit_agent.Auth.{require_internal_key, internal_headers}
use livekit_agent.Tickets.Tools.{Confirmation, create_ticket}
use livekit_agent.Tests.Fixtures.{uuids}
use livekit_agent.Tests.Notify.{outbox}
use livekit_agent.Tests.Tickets.{up, opening, desk}
use livekit_agent.Tests.Call.{net}

abbrev nothing : Data
nothing = record { customer_id = none; language = none; params = [] }

health_is_open :
    (require_internal_key (some "k") "/health" none ≡ true)
    × (require_internal_key (some "k") "/notify" none ≡ false)
unfolding require_internal_key
health_is_open = (refl, refl)

confirmed :
    (client_notify uuids net "c1" "callback_scheduled" "fr"
      (("when", "demain") ∷ [])
      "sms"
      outbox).0
    ≡ true
unfolding client_notify send_request post_notify require_internal_key internal_headers notify render
    get_channel
confirmed = refl

keyless_clients_example :
    let post = λ (c : Confirmation). ticket_post uuids net c outbox in
    IsUnsent (gateway_send uuids net "sms" "20123456" "Bonjour" outbox) outbox
    × ((create_ticket uuids up (λ c. (post c).0) (opening "Panne") desk).0.written_confirmation_sent
        ≡ false)
    × ((c : Confirmation) → (post c).1 ≡ outbox)
    × (notifier_send uuids net "sms" "20123456" "ticket_created" nothing outbox ≡ outbox)
keyless_clients_example =
    keyless_clients uuids net "k" outbox "sms" "20123456" "Bonjour" "ticket_created" up
      (opening "Panne") desk nothing refl (λ e. cc e)
