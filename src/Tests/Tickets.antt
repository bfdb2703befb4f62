-- ===== src/Tests/Tickets.antt =====
-- The desk of the ticket tools at concrete inputs.
use livekit_agent.Base.{◌≡◌, refl, String, true, false, Option, none, some, List, [], ◌∷◌}
use livekit_agent.Base.Text.{show_ℕ}
use livekit_agent.Persistence.Uuid.{to_uuid}
use livekit_agent.Tickets.{
  new_glpi, ticket_name, create, resolve, MirrorEnv, normalize_category, stored_subject,
  mirror_create, mirror_resolve, TicketView, read_status,
}
use livekit_agent.Tickets.Tools.{Desk, Opening, create_ticket, get_ticket_status, resolve_ticket}
use livekit_agent.Tickets.Shown.{Call, open_call, close_call, run, IsTrue, get_ticket_status-IsTrue}
use livekit_agent.Tests.Fixtures.{uuids}

abbrev pub up : MirrorEnv
up = record { enabled = true; is_up = true; now = 1 }

abbrev down : MirrorEnv
down = record { enabled = true; is_up = false; now = 2 }

abbrev pub opening : String → Opening
opening subject = record {
  customer_id = "c1";
  subject = subject;
  description = "";
  language = "fr";
  category = "weird";
}

abbrev pub desk : Desk
desk = record {
  glpi = new_glpi;
  mirror = record { customers = "c1" ∷ []; subscriptions = []; rows = [] };
}

named : ticket_name 42 ≡ "GLPI-00042"
unfolding ticket_name show_ℕ
named = refl

-- The first ticket is mirrored, the second is not; the first is resolved while Postgres is down.
abbrev calls : List Call
calls =
    open_call up (λ c. none) (opening "Panne")
    ∷ open_call down (λ c. some (200, true)) (opening "Facture")
    ∷ close_call down up "GLPI-00001" "fait"
    ∷ []

abbrev after : Desk
after = (run uuids calls (record { opened = []; closed = [] }, desk)).1

abbrev shown : String → String → Option TicketView
shown id status = some (record { ticket_id = id; status = status; subject = some "Panne" })

-- The mirror still shows the resolved ticket as open.
stale :
    (get_ticket_status uuids up "GLPI-00001" after ≡ shown "GLPI-00001" "open")
    × (get_ticket_status uuids down "GLPI-00001" after ≡ shown "GLPI-00001" "resolved")
unfolding get_ticket_status read_status create_ticket create mirror_create stored_subject
    normalize_category to_uuid ticket_name show_ℕ resolve_ticket resolve mirror_resolve
stale = (refl, refl)

-- A new process counts from one again: its first ticket is shown as the one of the old process.
restarted :
    get_ticket_status uuids up "GLPI-00001"
      (create_ticket uuids up (λ c. none) (opening "Vol") (record after { glpi = new_glpi })).1
    ≡ shown "GLPI-00001" "open"
unfolding get_ticket_status read_status create_ticket create mirror_create stored_subject
    normalize_category to_uuid ticket_name show_ℕ resolve_ticket resolve mirror_resolve
restarted = refl

get_ticket_status-IsTrue_example :
    let (log, desk') = run uuids calls (record { opened = []; closed = [] }, desk) in
    IsTrue uuids log "GLPI-00002" (get_ticket_status uuids up "GLPI-00002" desk')
get_ticket_status-IsTrue_example =
    get_ticket_status-IsTrue uuids ("c1" ∷ []) [] calls up "GLPI-00002"
