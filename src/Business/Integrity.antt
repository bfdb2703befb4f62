-- ===== src/Business/Integrity.antt =====
-- apps/business-api/src/business_api/jobs/integrity.py
pub mod Whole
use livekit_agent.Base.{
  ℕ, suc, String, Bool, true, false, not, ◌&&◌, ◌||◌, Option, none, some, List, [], ◌∷◌, map, any,
  member, ◌==◌, if◌then◌else◌,
}
use livekit_agent.Base.Dict.{Dict}
use livekit_agent.Audit.Ledger.{Hasher, pg_verify, pg_count}
use livekit_agent.Persistence.Tables.{Account}
use livekit_agent.Persistence.Crm.{Customer, Subscription, InvoiceRow, BalanceAccount, Crm}
use livekit_agent.Persistence.Conversation.{CallSession, Conversations}

pub record IntegrityReport : Type 0 where
  pub orphans : Dict ℕ
  pub audit_chain_intact : Bool
  pub audit_entries : ℕ

abbrev pub is_positive : String × ℕ → Bool
is_positive (name, count) = not (count == 0)

-- `summarize`, and the property `ok` of a report
unfoldable pub summarize : Dict ℕ → Bool → Bool
summarize orphans intact = intact && not (any is_positive orphans)

abbrev pub is_ok : IntegrityReport → Bool
is_ok report = summarize report.orphans report.audit_chain_intact

-- A foreign key that is not null and not among the ids of the parents.
abbrev pub is_orphan : List String → Option String → Bool
is_orphan ids none = false
is_orphan ids (some id) = not (member id ids)

-- `_orphans`, of the foreign keys of the child rows
unfoldable pub orphans : List String → List (Option String) → ℕ
orphans ids [] = 0
orphans ids (key ∷ keys) =
    let rest = orphans ids keys in if is_orphan ids key then suc rest else rest

-- The tables that the job reads.
pub record Office : Type 0 where
  pub crm : Crm
  pub accounts : List Account
  pub calls : Conversations

module _ (o : Office) where
  abbrev pub customer_ids : List String
  customer_ids = map (λ (c : Customer). c.id) o.crm.customers

  abbrev pub subscription_ids : List String
  subscription_ids = map (λ (s : Subscription). s.id) o.crm.subscriptions

  abbrev pub account_keys : List (Option String)
  account_keys = map (λ (a : Account). some a.customer_id) o.accounts

  abbrev pub invoice_keys : List (Option String)
  invoice_keys = map (λ (i : InvoiceRow). some i.customer_id) o.crm.invoices

  abbrev pub balance_keys : List (Option String)
  balance_keys = map (λ (b : BalanceAccount). some b.subscription_id) o.crm.balances

  abbrev pub session_keys : List (Option String)
  session_keys = map (λ (s : CallSession). s.customer_id) o.calls.sessions

-- `run_integrity`
unfoldable pub run_integrity : Hasher → Office → IntegrityReport
run_integrity h o = record {
  orphans =
      ("billing.accounts->crm.customers", orphans (customer_ids o) (account_keys o))
      ∷ ("billing.invoices->crm.customers", orphans (customer_ids o) (invoice_keys o))
      ∷ ("ocs.balance_accounts->crm.subscriptions", orphans (subscription_ids o) (balance_keys o))
      ∷ ("conversation.call_sessions->crm.customers", orphans (customer_ids o) (session_keys o))
      ∷ [];
  audit_chain_intact = pg_verify h o.calls.audit;
  audit_entries = pg_count o.calls.audit;
}
