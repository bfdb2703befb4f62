-- ===== src/Tests/Context.antt =====
-- The context service and the caller's profile at concrete inputs.
use livekit_agent.Base.{◌≡◌, refl, true, false, none, some, [], ◌∷◌, inl}
use livekit_agent.Base.Int.{pos}
use livekit_agent.Persistence.Tables.{empty_db}
use livekit_agent.Persistence.Crm.{Customer, Subscription, Crm}
use livekit_agent.Context.{
  ReadEnv, invoice_status, account_age_days, to_megabytes, resolve_identity, verify_answer,
  verify_identity, get_balance,
}
use livekit_agent.Context.Verify.{IsKnown, verify_identity-IsKnown}
use livekit_agent.Worker.Session.{SessionUserData}
use livekit_agent.Worker.Guarded.Safety.{IsExecution}
use livekit_agent.Worker.Tools.{make_payment}
use livekit_agent.Worker.Profile.{prefetch_user_data}
use livekit_agent.Worker.Profile.Flagged.{flagged_unpaid}
use livekit_agent.Tests.Fixtures.{guard_env, up}

abbrev pub reads : ReadEnv
reads = record { strip = λ s. s; isoformat = λ d. "date"; fixed3 = λ v. "5.000"; today = 400 }

abbrev suspect : Customer
suspect = record {
  id = "c1";
  national_id = "09876543";
  first_name = "Amel";
  last_name = "B";
  preferred_language = "fr";
  vip_flag = false;
  fraud_suspected = true;
}

abbrev line : Subscription
line = record {
  id = "l1";
  customer_id = "c1";
  msisdn = "20123456";
  plan_type = "PREPAID";
  plan_code = none;
  status = "ACTIVE";
  activation_date = some 100;
  is_deleted = false;
}

abbrev pub records : Crm
records = record {
  customers = suspect ∷ [];
  subscriptions = line ∷ [];
  invoices = [];
  balances =
      record {
        subscription_id = "l1";
        customer_id = "c1";
        balance_type = "data";
        balance_value = pos 15000;
        balance_unit = "GB";
        expiry_date = some 500;
      }
      ∷ [];
}

void_is_open : (invoice_status "void" ≡ "open") × (account_age_days (some 500) 400 ≡ 0)
unfolding invoice_status account_age_days
void_is_open = (refl, refl)

read_data :
    get_balance reads "c1" records
    ≡ some (record {
      customer_id = "c1";
      credit = pos 0;
      currency = "TND";
      data_remaining_mb = pos 1536;
      valid_until = some "date";
    })
unfolding get_balance to_megabytes
read_data = refl

known : verify_identity reads "c1" "6543" records ≡ true
unfolding verify_identity verify_answer
known = refl

verify_identity-IsKnown_example : IsKnown reads "c1" "6543" records
verify_identity-IsKnown_example = verify_identity-IsKnown reads "c1" "6543" records known

resolved : resolve_identity reads "20123456" records ≡ some (suspect, line)
unfolding resolve_identity
resolved = refl

abbrev caller : SessionUserData
caller = prefetch_user_data up reads (some "20123456") records "s1" "fr"

flagged_unpaid_example :
    ¬ IsExecution (make_payment guard_env true true (pos 45000) (caller, empty_db)).0
flagged_unpaid_example =
    flagged_unpaid guard_env up reads "20123456" records "s1" "fr" suspect line refl refl resolved
      (inl refl) caller refl true true (pos 45000) empty_db
