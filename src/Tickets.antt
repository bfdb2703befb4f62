-- ===== src/Tickets.antt =====
-- mcp-servers/ticketing-glpi/src/ticketing_glpi/adapters: the mock client of GLPI and the mirror of
-- its tickets in Postgres.
pub mod Tools
pub mod Found
pub mod Shown
use Prim.Native.String.{String, count, ◌++◌, [] as empty, ◌∷◌ as char_cons}
use livekit_agent.Base.{
  ℕ, zero, suc, ◌-◌, Bool, true, false, ◌&&◌, Option, none, some, List, [], ◌∷◌, map, keep, str_eq,
  member, or_else, if◌then◌else◌,
}
use mathlib.Core.List.{◌++◌ as append_list}
use livekit_agent.Base.Dict.{Dict, lookup, insert}
use livekit_agent.Base.Text.{show_ℕ}
use livekit_agent.Persistence.Uuid.{UuidLib, to_uuid}
use livekit_agent.Persistence.Ticketing.{TicketRow}
use livekit_agent.Worker.Conversation.Drain.{refers, one_of, fits}

pub record GlpiTicket : Type 0 where
  pub ticket_id : String
  pub customer_id : String
  pub subject : String
  pub description : String
  pub status : String
  pub resolution : Option String

-- `MockGlpiClient`
pub record MockGlpi : Type 0 where
  pub tickets : Dict GlpiTicket
  pub counter : ℕ

abbrev pub new_glpi : MockGlpi
new_glpi = record { tickets = []; counter = 0 }

abbrev pub zeros : ℕ → String
zeros zero = ""
zeros (suc n) = "0" ++ zeros n

-- `f"GLPI-{n:05d}"`
unfoldable pub ticket_name : ℕ → String
ticket_name n = "GLPI-" ++ (zeros (5 - count (show_ℕ n)) ++ show_ℕ n)

abbrev pub new_ticket : String → String → String → String → GlpiTicket
new_ticket id customer_id subject description = record {
  ticket_id = id;
  customer_id = customer_id;
  subject = subject;
  description = description;
  status = "new";
  resolution = none;
}

-- `create`
unfoldable pub create : String → String → String → MockGlpi → GlpiTicket × MockGlpi
create customer_id subject description g =
    let n = suc g.counter in
    let t = new_ticket (ticket_name n) customer_id subject description in
    (t, record { tickets = insert (ticket_name n) t g.tickets; counter = n })

-- `get`
abbrev pub get : String → MockGlpi → Option GlpiTicket
get ticket_id g = lookup ticket_id g.tickets

-- What follows the look in the dict; the ticket in it is changed in its place.
abbrev pub solve : Option GlpiTicket → String → String → MockGlpi → Option GlpiTicket × MockGlpi
solve none ticket_id resolution g = (none, g)
solve (some t) ticket_id resolution g =
    let t' = record t { status = "resolved"; resolution = some resolution } in
    (some t', record g { tickets = insert ticket_id t' g.tickets })

-- `resolve`
unfoldable pub resolve : String → String → MockGlpi → Option GlpiTicket × MockGlpi
resolve ticket_id resolution g = solve (lookup ticket_id g.tickets) ticket_id resolution g

-- `list_for`
abbrev pub values : Dict GlpiTicket → List GlpiTicket
values = map (λ (item : String × GlpiTicket). item.1)

unfoldable pub list_for : String → MockGlpi → List GlpiTicket
list_for customer_id g =
    keep (λ (t : GlpiTicket). str_eq t.customer_id customer_id) (values g.tickets)

-- The table of the mirror, and the ids of the tables that it refers to.
pub record Mirror : Type 0 where
  pub customers : List String
  pub subscriptions : List String
  pub rows : List TicketRow

-- One transaction: whether DATABASE_URL is set, whether Postgres answers, and the clock.
pub record MirrorEnv : Type 0 where
  pub enabled : Bool
  pub is_up : Bool
  pub now : ℕ

abbrev pub works : MirrorEnv → Bool
works env = env.enabled && env.is_up

abbrev pub allowed_categories : List String
allowed_categories =
    "network_complaint" ∷ "formal_complaint" ∷ "technical" ∷ "billing" ∷ "other" ∷ []

-- `normalize_category`
unfoldable pub normalize_category : Option String → String
normalize_category none = "other"
normalize_category (some c) = if member c allowed_categories then c else "other"

-- `s[:n]`
abbrev pub take : ℕ → String → String
take zero s = ""
take (suc n) empty = ""
take (suc n) (char_cons c s) = char_cons c (take n s)

-- `(subject or "")[:255] or None`
unfoldable pub stored_subject : Option String → Option String
stored_subject subject =
    let s = take 255 (or_else subject "") in if str_eq s "" then none else some s

abbrev pub find_row : String → List TicketRow → Option TicketRow
find_row id [] = none
find_row id (r ∷ rows) =
    let rest = find_row id rows in if str_eq r.glpi_ticket_id id then some r else rest

-- The constraints of the table that the row may break.
abbrev pub can_mirror : Mirror → TicketRow → Bool
can_mirror m r =
    fits 40 (some r.glpi_ticket_id)
    && (refers r.customer_id m.customers
        && (refers r.subscription_id m.subscriptions
            && one_of r.priority ("low" ∷ "medium" ∷ "high" ∷ "urgent" ∷ [])))

-- The arguments of `mirror_create`.
pub record NewRow : Type 0 where
  pub glpi_ticket_id : String
  pub customer_id : Option String
  pub subject : Option String
  pub category : Option String
  pub subscription_id : Option String
  pub priority : Option String

abbrev pub mirror_row : UuidLib → ℕ → NewRow → TicketRow
mirror_row uuids now a = record {
  glpi_ticket_id = a.glpi_ticket_id;
  customer_id = to_uuid uuids a.customer_id;
  subscription_id = to_uuid uuids a.subscription_id;
  category = normalize_category a.category;
  subject = stored_subject a.subject;
  status = "open";
  priority = a.priority;
  last_synced_at = now;
}

-- The insertion, unless a row has the id.
abbrev pub add_row : Option TicketRow → TicketRow → Mirror → Mirror
add_row (some old) r m = m
add_row none r m = if can_mirror m r then record m { rows = append_list m.rows (r ∷ []) } else m

-- `mirror_create`: what raises leaves the table as it was.
unfoldable pub mirror_create : UuidLib → MirrorEnv → NewRow → Mirror → Mirror
mirror_create uuids env a m =
    if works env
    then add_row (find_row a.glpi_ticket_id m.rows) (mirror_row uuids env.now a) m
    else m

-- `mirror_resolve`
abbrev pub resolve_row : ℕ → String → TicketRow → TicketRow
resolve_row now id r =
    if str_eq r.glpi_ticket_id id then record r { status = "resolved"; last_synced_at = now } else r

unfoldable pub mirror_resolve : MirrorEnv → String → Mirror → Mirror
mirror_resolve env id m =
    if works env then record m { rows = map (resolve_row env.now id) m.rows } else m

-- A ticket as a tool shows it.
pub record TicketView : Type 0 where
  pub ticket_id : String
  pub status : String
  pub subject : Option String

abbrev pub row_view : TicketRow → TicketView
row_view r = record { ticket_id = r.glpi_ticket_id; status = r.status; subject = r.subject }

abbrev pub view_found : Option TicketRow → Option TicketView
view_found none = none
view_found (some r) = some (row_view r)

-- `read_status`
unfoldable pub read_status : MirrorEnv → String → Mirror → Option TicketView
read_status env id m = if works env then view_found (find_row id m.rows) else none

abbrev pub is_for : String → TicketRow → Bool
is_for id r = elim r.customer_id [ none ↦ false | some x ↦ str_eq x id ]

-- `read_for_customer`
unfoldable pub read_for_customer : UuidLib → MirrorEnv → String → Mirror → Option (List TicketView)
read_for_customer uuids env customer_id m = elim (to_uuid uuids (some customer_id)) [
  | none ↦ none
  | some id ↦ if works env then some (map row_view (keep (is_for id) m.rows)) else none
]
