-- ===== src/Business/Records.antt =====
-- apps/business-api/src/business_api/repositories.py: the customer view and the lists. Rows stand in
-- the order of their creation.
use Prim.Native.String.{String, ◌++◌}
use mathlib.Core.List.{reverse}
use livekit_agent.Base.{
  Bool, true, false, not, ◌&&◌, Option, none, some, List, map, keep, str_eq, if◌then◌else◌,
}
use livekit_agent.Base.Int.{ℤ}
use livekit_agent.Base.Json.{Payload}
use livekit_agent.Persistence.Uuid.{UuidLib, to_uuid}
use livekit_agent.Persistence.Tables.{
  ActionStatus, pending, succeeded, failed, retrying, ActionLedger,
}
use livekit_agent.Persistence.Conversation.{EscalationCase}
use livekit_agent.Persistence.Crm.{Customer, Subscription, InvoiceRow, Crm}
use livekit_agent.Persistence.Ticketing.{TicketRow}
use livekit_agent.Context.{get_customer}

pub record SubscriptionLine : Type 0 where
  pub subscription_id : String
  pub msisdn : String
  pub plan : String
  pub status : String

pub record InvoiceLine : Type 0 where
  pub invoice : String
  pub amount : ℤ
  pub status : String

pub record TicketLine : Type 0 where
  pub glpi_id : String
  pub status : String
  pub subject : Option String

pub record CustomerView : Type 0 where
  pub customer_id : String
  pub name : String
  pub vip : Bool
  pub preferred_language : String
  pub subscriptions : List SubscriptionLine
  pub open_invoices : List InvoiceLine
  pub tickets : List TicketLine

-- `s.plan_code or s.plan_type`
abbrev pub plan_of : Subscription → String
plan_of s = elim s.plan_code [
  | none ↦ s.plan_type
  | some plan ↦ if str_eq plan "" then s.plan_type else plan
]

abbrev pub subscription_line : Subscription → SubscriptionLine
subscription_line s = record {
  subscription_id = s.id;
  msisdn = s.msisdn;
  plan = plan_of s;
  status = s.status;
}

abbrev pub invoice_line : InvoiceRow → InvoiceLine
invoice_line i = record { invoice = i.invoice_number; amount = i.total_amount; status = i.status }

abbrev pub ticket_line : TicketRow → TicketLine
ticket_line t = record { glpi_id = t.glpi_ticket_id; status = t.status; subject = t.subject }

-- A nullable foreign key is the id.
abbrev pub is_of : String → Option String → Bool
is_of id none = false
is_of id (some x) = str_eq x id

abbrev pub view_of : String → Crm → List TicketRow → Customer → CustomerView
view_of id crm tickets c = record {
  customer_id = c.id;
  name = c.first_name ++ (" " ++ c.last_name);
  vip = c.vip_flag;
  preferred_language = c.preferred_language;
  subscriptions =
      map subscription_line
        (keep (λ (s : Subscription). str_eq s.customer_id id) crm.subscriptions);
  open_invoices = map invoice_line (
      keep (λ (i : InvoiceRow). str_eq i.customer_id id && not (str_eq i.status "paid"))
        crm.invoices);
  tickets = map ticket_line (keep (λ (t : TicketRow). is_of id t.customer_id) tickets);
}

-- `customer_360`
unfoldable pub customer_360 : UuidLib → String → Crm → List TicketRow → Option CustomerView
customer_360 uuids customer_id crm tickets = elim (to_uuid uuids (some customer_id)) [
  | none ↦ none
  | some id ↦ elim (get_customer id crm.customers) [
    | none ↦ none
    | some c ↦ some (view_of id crm tickets c)
  ]
]

-- An escalation as it is listed; the cases of this model have no id of their own.
pub record EscalationLine : Type 0 where
  pub session_id : String
  pub trigger : String
  pub target : String
  pub resolution : Option String
  pub dossier : Payload

abbrev pub escalation_line : EscalationCase → EscalationLine
escalation_line c = record {
  session_id = c.session_id;
  trigger = c.trigger;
  target = c.target;
  resolution = c.resolution;
  dossier = c.dossier;
}

abbrev pub is_open : EscalationCase → Bool
is_open c = elim c.resolution [ none ↦ true | some r ↦ false ]

-- `escalations`, the newest first
unfoldable pub escalations : String → List EscalationCase → List EscalationLine
escalations status rows =
    map escalation_line
      (keep (λ (c : EscalationCase). not (str_eq status "open" && not (is_open c))) (reverse rows))

abbrev pub status_text : ActionStatus → String
status_text pending = "pending"
status_text succeeded = "succeeded"
status_text failed = "failed"
status_text retrying = "retrying"

pub record ActionLine : Type 0 where
  pub id : String
  pub action_type : String
  pub status : String
  pub idempotency_key : String
  pub reference : Option String

abbrev pub action_line : ActionLedger → ActionLine
action_line a = record {
  id = a.id;
  action_type = a.action_type;
  status = status_text a.status;
  idempotency_key = a.idempotency_key;
  reference = a.adapter_reference;
}

-- `actions`, the newest first
unfoldable pub actions : String → List ActionLedger → List ActionLine
actions status rows =
    map action_line
      (keep (λ (a : ActionLedger). str_eq (status_text a.status) status) (reverse rows))
