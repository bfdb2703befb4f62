-- ===== src/Tests/Notify.antt =====
-- The notification service at concrete inputs.
use livekit_agent.Base.{◌≡◌, refl, true, false, none, some, [], ◌∷◌}
use livekit_agent.Notify.{Arabic, render, NotifyEnv, Outbox, get_channel, notify, freeform}
use livekit_agent.Tests.Fixtures.{uuids}

abbrev arabic : Arabic
arabic = record { ticket_created = "{ticket_id}"; callback_scheduled = "{when}" }

in_french :
    render arabic "callback_scheduled" "fr" (("when", "demain 10h") ∷ [])
    ≡ some "Nous vous rappellerons demain 10h. Merci de votre patience. Tunisie Telecom."
unfolding render
in_french = refl

other_language :
    render arabic "ticket_created" "de" (("ticket_id", "X") ∷ [])
    ≡ some "Your request has been logged. Ticket reference: X. Tunisie Telecom."
unfolding render
other_language = refl

-- A parameter that is missing leaves the text as it stands.
unfilled : render arabic "ticket_created" "ar" [] ≡ some "{ticket_id}"
unfolding render
unfilled = refl

abbrev pub env : NotifyEnv
env = record {
  arabic = arabic;
  is_live = false;
  live_channel = λ name. none;
  fresh = "00AABBCCDD";
  enabled = true;
  is_up = true;
}

abbrev pub outbox : Outbox
outbox = record { customers = []; sent = []; notifications = [] }

answered :
    (notify uuids env (freeform "sms" "20123456" "Bonjour") outbox).0
    ≡ some (record { sent = true; reference = "SMS-00AABBCCDD"; channel = "sms" })
unfolding notify freeform render get_channel
answered = refl
