-- ===== src/Notify/Told.antt =====
-- What reaches the person who is notified.
use livekit_agent.Base.{String, ◌≡◌, refl}
use livekit_agent.Persistence.Uuid.{UuidLib}
use livekit_agent.Notify.{render, NotifyEnv, Outbox, persist, notify, freeform}

-- The message of `send_sms` and `send_whatsapp` does not reach anybody: whatever it is, the service
-- does and answers the same.
pub notify-freeform :
    (uuids : UuidLib) (env : NotifyEnv) (channel to message other : String) (o : Outbox)
    → notify uuids env (freeform channel to message) o
      ≡ notify uuids env (freeform channel to other) o
unfolding notify freeform render persist
notify-freeform uuids env channel to message other o = refl
