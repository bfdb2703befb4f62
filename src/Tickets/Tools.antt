-- ===== src/Tickets/Tools.antt =====
-- mcp-servers/ticketing-glpi/src/ticketing_glpi/tools/glpi_ticket_ops.py, with the mock client.
use livekit_agent.Base.{ℕ, String, Bool, false, ◌&&◌, ◌==◌, Option, none, some, List, [], ◌∷◌, map}
use livekit_agent.Persistence.Uuid.{UuidLib}
use livekit_agent.Tickets.{
  GlpiTicket, MockGlpi, create, get, resolve, list_for, Mirror, MirrorEnv, NewRow, mirror_create,
  mirror_resolve, TicketView, read_status, read_for_customer,
}

-- The client of the server and the mirror.
pub record Desk : Type 0 where
  pub glpi : MockGlpi
  pub mirror : Mirror

-- The request to the notification service.
pub record Confirmation : Type 0 where
  pub customer_id : String
  pub to : String
  pub channel : String
  pub template : String
  pub language : String
  pub params : List (String × String)

abbrev pub confirmation : String → String → String → Confirmation
confirmation customer_id language ticket_id = record {
  customer_id = customer_id;
  to = customer_id;
  channel = "sms";
  template = "ticket_created";
  language = language;
  params = ("ticket_id", ticket_id) ∷ [];
}

-- Its answer: the status code and `sent`; `none` is an HTTPError.
abbrev pub confirmation_sent : Option (ℕ × Bool) → Bool
confirmation_sent none = false
confirmation_sent (some (status_code, sent)) = (status_code == 200) && sent

pub record Opening : Type 0 where
  pub customer_id : String
  pub subject : String
  pub description : String
  pub language : String
  pub category : String

pub record Opened : Type 0 where
  pub ticket_id : String
  pub status : String
  pub written_confirmation_sent : Bool

abbrev pub new_row : Opening → String → NewRow
new_row o ticket_id = record {
  glpi_ticket_id = ticket_id;
  customer_id = some o.customer_id;
  subject = some o.subject;
  category = some o.category;
  subscription_id = none;
  priority = none;
}

module _ (uuids : UuidLib) where
  -- `create_ticket`
  unfoldable pub create_ticket :
      MirrorEnv → (Confirmation → Option (ℕ × Bool)) → Opening → Desk → Opened × Desk
  create_ticket env notify o desk =
      let (t, glpi) = create o.customer_id o.subject o.description desk.glpi in
      let mirror = mirror_create uuids env (new_row o t.ticket_id) desk.mirror in
      (
        record {
          ticket_id = t.ticket_id;
          status = t.status;
          written_confirmation_sent =
              confirmation_sent (notify (confirmation o.customer_id o.language t.ticket_id));
        },
        record { glpi = glpi; mirror = mirror },
      )

  abbrev pub ticket_view : GlpiTicket → TicketView
  ticket_view t = record { ticket_id = t.ticket_id; status = t.status; subject = some t.subject }

  abbrev pub view_ticket : Option GlpiTicket → Option TicketView
  view_ticket none = none
  view_ticket (some t) = some (ticket_view t)

  abbrev pub or_mock : Option TicketView → Option GlpiTicket → Option TicketView
  or_mock (some mirrored) ticket = some mirrored
  or_mock none ticket = view_ticket ticket

  -- `get_ticket_status`; `none` is not found.
  unfoldable pub get_ticket_status : MirrorEnv → String → Desk → Option TicketView
  get_ticket_status env ticket_id desk =
      or_mock (read_status env ticket_id desk.mirror) (get ticket_id desk.glpi)

  abbrev pub resolved_as : String → Option GlpiTicket → Option TicketView → Option (String × String)
  resolved_as ticket_id none none = none
  resolved_as ticket_id none (some mirrored) = some (ticket_id, "resolved")
  resolved_as ticket_id (some t) mirrored = some (t.ticket_id, t.status)

  -- `resolve_ticket`, with the id and the status that it answers; it reads the mirror at a second
  -- transaction.
  unfoldable pub resolve_ticket :
      MirrorEnv → MirrorEnv → String → String → Desk → Option (String × String) × Desk
  resolve_ticket env later ticket_id resolution desk =
      let (t, glpi) = resolve ticket_id resolution desk.glpi in
      let mirror = mirror_resolve env ticket_id desk.mirror in
      (
        resolved_as ticket_id t (read_status later ticket_id mirror),
        record { glpi = glpi; mirror = mirror },
      )

  abbrev pub or_listed : Option (List TicketView) → List GlpiTicket → List TicketView
  or_listed (some mirrored) tickets = mirrored
  or_listed none tickets = map ticket_view tickets

  -- `lookup_tickets`
  unfoldable pub lookup_tickets : MirrorEnv → String → Desk → List TicketView
  lookup_tickets env customer_id desk =
      or_listed (read_for_customer uuids env customer_id desk.mirror)
        (list_for customer_id desk.glpi)
