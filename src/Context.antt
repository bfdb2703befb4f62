-- ===== src/Context.antt =====
-- services/context-service/src/context_service: mapping.py, schemas.py and repositories.py.
pub mod Verify
pub mod Service
use Prim.Native.String.{String, ◌++◌, count, [] as empty, ◌∷◌ as char_cons}
use livekit_agent.Base.{
  ℕ, zero, suc, ◌-◌, ◌*◌, ◌/◌, Bool, true, false, not, ◌&&◌, Option, none, some, List, [], ◌∷◌, map,
  keep, length, str_eq, leb, or_else, if◌then◌else◌,
}
use livekit_agent.Base.Int.{ℤ, pos, negsuc}
use livekit_agent.Persistence.Crm.{Customer, Subscription, InvoiceRow, BalanceAccount, Crm}

-- `invoice_status`
unfoldable pub invoice_status : String → String
invoice_status raw =
    if str_eq raw "paid" then "paid" else if str_eq raw "overdue" then "overdue" else "open"

-- `account_age_days`, with the day of today
unfoldable pub account_age_days : Option ℕ → ℕ → ℕ
account_age_days none today = 0
account_age_days (some activation_date) today = today - activation_date

-- `s[-4:]`
abbrev pub last_four : String → String
last_four empty = empty
last_four (char_cons c s) =
    let rest = last_four s in if leb (count (char_cons c s)) 4 then char_cons c s else rest

-- `verify_answer`, with `str.strip`
unfoldable pub verify_answer : (String → String) → Option String → String → Bool
verify_answer strip none answer = false
verify_answer strip (some national_id) answer =
    if str_eq national_id "" then false else str_eq (strip answer) (last_four national_id)

-- `int(x)` of a number of ten-thousandths: towards zero
abbrev pub minus : ℕ → ℤ
minus zero = pos 0
minus (suc n) = negsuc n

abbrev pub whole : ℕ → ℤ → ℤ
whole factor (pos n) = pos (n * factor / 10000)
whole factor (negsuc n) = minus (suc n * factor / 10000)

-- `to_megabytes`
unfoldable pub to_megabytes : ℤ → String → ℤ
to_megabytes value unit =
    if str_eq unit "GB" then whole 1024 value else if str_eq unit "MB" then whole 1 value else pos 0

pub record Customer360 : Type 0 where
  pub customer_id : String
  pub subscription_id : Option String
  pub full_name : String
  pub msisdn : String
  pub subscription_type : String
  pub preferred_language : String
  pub is_vip : Bool
  pub fraud_suspected : Bool
  pub account_age_days : ℕ
  pub open_invoice_count : ℕ
  pub balance_summary : Option String

pub record Invoice : Type 0 where
  pub invoice_id : String
  pub amount : ℤ
  pub currency : String
  pub due_date : String
  pub status : String

pub record Balance : Type 0 where
  pub customer_id : String
  pub credit : ℤ
  pub currency : String
  pub data_remaining_mb : ℤ
  pub valid_until : Option String

-- What the repository takes from Python: `str.strip`, `date.isoformat`, and `f"{x:.3f}"` of a
-- balance; and the day of today.
pub record ReadEnv : Type 0 where
  pub strip : String → String
  pub isoformat : ℕ → String
  pub fixed3 : ℤ → String
  pub today : ℕ

-- `session.get(Customer, id)`
abbrev pub get_customer : String → List Customer → Option Customer
get_customer id [] = none
get_customer id (c ∷ customers) = if str_eq c.id id then some c else get_customer id customers

-- The first row of the join.
abbrev pub first_line :
    String → List Customer → List Subscription → Option (Customer × Subscription)
first_line msisdn customers [] = none
first_line msisdn customers (s ∷ subscriptions) =
    let rest = first_line msisdn customers subscriptions in
    if str_eq s.msisdn msisdn && not s.is_deleted
    then elim (get_customer s.customer_id customers) [ none ↦ rest | some c ↦ some (c, s) ]
    else rest

-- The loop of `get_balance`, by its four variables.
pub record Reading : Type 0 where
  pub credit : ℤ
  pub currency : String
  pub data_mb : ℤ
  pub valid_until : Option String

abbrev pub no_reading : Reading
no_reading = record { credit = pos 0; currency = "TND"; data_mb = pos 0; valid_until = none }

module _ (env : ReadEnv) where
  -- `resolve_identity`
  unfoldable pub resolve_identity : String → Crm → Option (Customer × Subscription)
  resolve_identity msisdn crm = first_line (env.strip msisdn) crm.customers crm.subscriptions

  -- `_invoice_rows`
  abbrev pub invoice_rows : String → Crm → List InvoiceRow
  invoice_rows id crm = keep (λ (i : InvoiceRow). str_eq i.customer_id id) crm.invoices

  abbrev pub is_main : String → BalanceAccount → Bool
  is_main id b = str_eq b.subscription_id id && str_eq b.balance_type "main"

  abbrev pub summary : BalanceAccount → String
  summary b = env.fixed3 b.balance_value ++ (" " ++ b.balance_unit)

  -- `_balance_summary`
  abbrev pub balance_summary : String → List BalanceAccount → Option String
  balance_summary id [] = none
  balance_summary id (b ∷ balances) =
      if is_main id b then some (summary b) else balance_summary id balances

  abbrev pub open_count : List InvoiceRow → ℕ
  open_count rows =
      length (keep (λ (i : InvoiceRow). not (str_eq (invoice_status i.status) "paid")) rows)

  -- `plan_code or plan_type`
  abbrev pub subscription_type : Subscription → String
  subscription_type s = elim s.plan_code [
    | none ↦ s.plan_type
    | some code ↦ if str_eq code "" then s.plan_type else code
  ]

  abbrev pub snapshot : Crm → Customer → Subscription → Customer360
  snapshot crm c s = record {
    customer_id = c.id;
    subscription_id = some s.id;
    full_name = c.first_name ++ (" " ++ c.last_name);
    msisdn = s.msisdn;
    subscription_type = subscription_type s;
    preferred_language = c.preferred_language;
    is_vip = c.vip_flag;
    fraud_suspected = c.fraud_suspected;
    account_age_days = account_age_days s.activation_date env.today;
    open_invoice_count = open_count (invoice_rows c.id crm);
    balance_summary = balance_summary s.id crm.balances;
  }

  -- `build_customer360`
  unfoldable pub build_customer360 : String → Crm → Option Customer360
  build_customer360 msisdn crm = elim (resolve_identity msisdn crm) [
    | none ↦ none
    | some (c, s) ↦ some (snapshot crm c s)
  ]

  -- `verify_identity`
  unfoldable pub verify_identity : String → String → Crm → Bool
  verify_identity customer_id answer crm = elim (get_customer customer_id crm.customers) [
    | none ↦ false
    | some c ↦ verify_answer env.strip (some c.national_id) answer
  ]

  abbrev pub read_invoice : InvoiceRow → Invoice
  read_invoice i = record {
    invoice_id = i.invoice_number;
    amount = i.total_amount;
    currency = i.currency_code;
    due_date = env.isoformat i.due_date;
    status = invoice_status i.status;
  }

  -- `get_invoices`
  unfoldable pub get_invoices : String → Crm → List Invoice
  get_invoices customer_id crm = map read_invoice (invoice_rows customer_id crm)

  abbrev pub first_expiry : Option String → Option ℕ → Option String
  first_expiry (some date) expiry = some date
  first_expiry none none = none
  first_expiry none (some expiry) = some (env.isoformat expiry)

  abbrev pub read_balance : BalanceAccount → Reading → Reading
  read_balance b r =
      let r' : Reading = record r { valid_until = first_expiry r.valid_until b.expiry_date } in
      if str_eq b.balance_type "main"
      then record r' { credit = b.balance_value; currency = b.balance_unit }
      else if str_eq b.balance_type "data"
      then record r' { data_mb = to_megabytes b.balance_value b.balance_unit }
      else r'

  abbrev pub read_balances : List BalanceAccount → Reading → Reading
  read_balances [] r = r
  read_balances (b ∷ balances) r = read_balances balances (read_balance b r)

  abbrev pub balance_of : String → Reading → Balance
  balance_of customer_id r = record {
    customer_id = customer_id;
    credit = r.credit;
    currency = r.currency;
    data_remaining_mb = r.data_mb;
    valid_until = r.valid_until;
  }

  -- `get_balance`
  unfoldable pub get_balance : String → Crm → Option Balance
  get_balance customer_id crm =
      elim (keep (λ (b : BalanceAccount). str_eq b.customer_id customer_id) crm.balances) [
        | [] ↦ none
        | (b ∷ balances) ↦ some (balance_of customer_id (read_balances (b ∷ balances) no_reading))
      ]
