-- ===== src/Persistence/Ticketing.antt =====
-- packages/persistence/src/persistence/models/ticketing.py and reference.py: the mirror of the
-- tickets and the registry of rules. Times are microseconds.
use livekit_agent.Base.{ℕ, String, Bool, Option}
use livekit_agent.Base.Json.{Payload}

pub record TicketRow : Type 0 where
  pub glpi_ticket_id : String
  pub customer_id : Option String
  pub subscription_id : Option String
  pub category : String
  pub subject : Option String
  pub status : String
  pub priority : Option String
  pub last_synced_at : ℕ

pub record BusinessRule : Type 0 where
  pub rule_id : String
  pub domain : String
  pub description : Option String
  pub definition_json : Payload
  pub version : ℕ
  pub active : Bool
