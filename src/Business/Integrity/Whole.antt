-- ===== src/Business/Integrity/Whole.antt =====
-- When the integrity job reports that all is well.
use livekit_agent.Base.{String, ◌≡◌, true, Option, none, some, List, All, member}
use livekit_agent.Audit.Ledger.{Hasher, pg_verify}
use livekit_agent.Business.Integrity.{
  Office, customer_ids, subscription_ids, account_keys, invoice_keys, balance_keys, session_keys,
}

-- Every foreign key that is not null refers to a parent.
abbrev pub Refers : List String → Option String → Type 0
Refers ids none = Unit
Refers ids (some id) = member id ids ≡ true

abbrev pub Resolved : List String → List (Option String) → Type 0
Resolved ids = All (Refers ids)

-- What the job looks at is in order.
pub record IsWhole (h : Hasher) (o : Office) : Type 0 where
  pub accounts : Resolved (customer_ids o) (account_keys o)
  pub invoices : Resolved (customer_ids o) (invoice_keys o)
  pub balances : Resolved (subscription_ids o) (balance_keys o)
  pub sessions : Resolved (customer_ids o) (session_keys o)
  pub chain : pg_verify h o.calls.audit ≡ true
