-- ===== src/Notify/Keyed.antt =====
-- What the internal key lets through to the notification service.
use text.Mathlib.TextPositions.{eq_refl}
use livekit_agent.Base.{
  ℕ, String, ◌≡◌, ◌≢◌, refl, sym, ap, ◌∙◌, Bool, true, false, Option, none, some, [], str_eq,
  Bool-cases, inl, inr, arith, eq_iff, if◌then◌else◌,
}
use livekit_agent.Base.Dict.{Dict, lookup}
use livekit_agent.Auth.{require_internal_key, internal_headers}
use livekit_agent.Persistence.Uuid.{UuidLib}
use livekit_agent.Notify.{NotifyRequest, Outbox, notify}
use livekit_agent.Notify.Clients.{
  NetEnv, status_of, post_notify, send_request, request_to, client_notify, sent_of, gateway_send,
  ticket_post, Data, notifier_send,
}
use livekit_agent.Tickets.{MirrorEnv}
use livekit_agent.Tickets.Tools.{Desk, Opening, Confirmation, confirmation_sent, create_ticket}

-- Where both sides have one key, or none, the headers of a client pass at every path.
pub require_internal_key-internal_headers :
    (key : Option String) (path : String)
    → require_internal_key key path (lookup "X-API-Key" (internal_headers key)) ≡ true
unfolding require_internal_key internal_headers
require_internal_key-internal_headers none path = refl
require_internal_key-internal_headers (some key) path = elim (Bool-cases (str_eq key "")) [
  | inl e ↦ ground (arith, e)
  | inr e ↦ rw e (ground (arith, eq_refl key))
]

keyless_refused :
    (uuids : UuidLib) (net : NetEnv) (key : String) (req : NotifyRequest) (o : Outbox)
    → net.expected ≡ some key
    → key ≢ ""
    → send_request uuids net [] req o ≡ ((if net.is_reached then some (403, false) else none), o)
unfolding send_request post_notify require_internal_key
keyless_refused uuids net key req o e filled =
    let refused : require_internal_key net.expected "/notify" none ≡ false =
      ap (λ k. require_internal_key k "/notify" none) e ∙ ground (arith, eq_iff key "", filled) in
    elim (Bool-cases net.is_reached) [ inl up ↦ rw (up, refused) refl | inr down ↦ rw down refl ]

-- Nothing comes of a message without the key.
abbrev pub IsUnsent : Option Bool × Outbox → Outbox → Type 0
IsUnsent (sent, after) before = (sent ≢ some true) × (after ≡ before)

unsent : (reached : Bool) → confirmation_sent (if reached then some (403, false) else none) ≡ false
unsent true = refl
unsent false = refl

gateway_unsent :
    (reached : Bool) → sent_of (if reached then some (403, false) else none) ≢ some true
gateway_unsent true e = cc e
gateway_unsent false e = cc e

-- Where the notification service has a key that is not empty: no message of the messaging tools and
-- no written confirmation of a ticket is sent or logged, whatever it is and whoever opens the
-- ticket, and nothing that the notifier of the domain's port sends changes the service's logs.
pub keyless_clients :
    (uuids : UuidLib) (net : NetEnv) (key : String) (o : Outbox)
    (channel to message template : String) (env : MirrorEnv) (opening : Opening) (desk : Desk)
    (d : Data)
    → net.expected ≡ some key
    → key ≢ ""
    → let post = λ (c : Confirmation). ticket_post uuids net c o in
      IsUnsent (gateway_send uuids net channel to message o) o
      × ((create_ticket uuids env (λ c. (post c).0) opening desk).0.written_confirmation_sent
          ≡ false)
      × ((c : Confirmation) → (post c).1 ≡ o)
      × (notifier_send uuids net channel to template d o ≡ o)
unfolding gateway_send ticket_post notifier_send create_ticket
keyless_clients uuids net key o channel to message template env opening desk d e filled =
    let refused = λ (req : NotifyRequest). keyless_refused uuids net key req o e filled in
    (
      (
        (λ p.
            gateway_unsent net.is_reached
              (sym (ap (λ (r : Option (ℕ × Bool) × Outbox). sent_of r.0) (refused _)) ∙ p)),
        ap (λ (r : Option (ℕ × Bool) × Outbox). r.1) (refused _),
      ),
      ap (λ (r : Option (ℕ × Bool) × Outbox). confirmation_sent r.0) (refused _)
          ∙ unsent net.is_reached,
      λ c. ap (λ (r : Option (ℕ × Bool) × Outbox). r.1) (refused _),
      ap (λ (r : Option (ℕ × Bool) × Outbox). r.1) (refused _),
    )

-- Where the worker has the key of the notification service, or neither has one, and the service is
-- reached, the worker's confirmation is what the service makes of it, and is told so.
pub client_notify-notify :
    (uuids : UuidLib) (net : NetEnv) (customer_id template language channel : String)
    (params : Dict String) (o : Outbox)
    → net.own ≡ net.expected
    → net.is_reached ≡ true
    → let (r, o') =
        notify uuids net.service (request_to customer_id channel template language params) o in
      client_notify uuids net customer_id template language params channel o
      ≡ (confirmation_sent (some (status_of r)), o')
unfolding client_notify send_request post_notify
client_notify-notify uuids net customer_id template language channel params o same up =
    let passes : require_internal_key net.expected "/notify"
          (lookup "X-API-Key" (internal_headers net.own))
        ≡ true =
      ap
        (λ k. require_internal_key net.expected "/notify" (lookup "X-API-Key" (internal_headers k)))
        same
      ∙ require_internal_key-internal_headers net.expected "/notify" in
    rw (up, passes) refl
