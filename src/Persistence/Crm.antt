-- ===== src/Persistence/Crm.antt =====
-- The customers, subscriptions, invoices and balances of packages/persistence models/crm.py,
-- billing.py and ocs.py, as far as the context service reads them. A date is a number of days;
-- invoice amounts are millimes, balances ten-thousandths.
use livekit_agent.Base.{ℕ, String, Bool, Option, List}
use livekit_agent.Base.Int.{ℤ}

pub record Customer : Type 0 where
  pub id : String
  pub national_id : String
  pub first_name : String
  pub last_name : String
  pub preferred_language : String
  pub vip_flag : Bool
  pub fraud_suspected : Bool

pub record Subscription : Type 0 where
  pub id : String
  pub customer_id : String
  pub msisdn : String
  pub plan_type : String
  pub plan_code : Option String
  pub status : String
  pub activation_date : Option ℕ
  pub is_deleted : Bool

pub record InvoiceRow : Type 0 where
  pub customer_id : String
  pub invoice_number : String
  pub total_amount : ℤ
  pub currency_code : String
  pub due_date : ℕ
  pub status : String

pub record BalanceAccount : Type 0 where
  pub subscription_id : String
  pub customer_id : String
  pub balance_type : String
  pub balance_value : ℤ
  pub balance_unit : String
  pub expiry_date : Option ℕ

pub record Crm : Type 0 where
  pub customers : List Customer
  pub subscriptions : List Subscription
  pub invoices : List InvoiceRow
  pub balances : List BalanceAccount
