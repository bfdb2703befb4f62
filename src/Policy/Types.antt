-- ===== src/Policy/Types.antt =====
-- rules/base.py, config.py and schemas.py of the policy service. Amounts are whole millimes, and
-- the integers of the wire are signed.
use livekit_agent.Base.{String, Bool, false, Option, none}
use livekit_agent.Base.Int.{ℤ, pos}

pub data Verdict : Type 0 where
  authorized refused escalate : Verdict

-- The constants AUTHORIZED, REFUSED and ESCALATE.
unfoldable pub value : Verdict → String
value authorized = "authorized"
value refused = "refused"
value escalate = "escalate"

-- `verdict.upper()`
unfoldable pub upper : Verdict → String
upper authorized = "AUTHORIZED"
upper refused = "REFUSED"
upper escalate = "ESCALATE"

pub record VerdictResult : Type 0 where
  pub verdict : Verdict
  pub rule_id : String
  pub justification : String

pub record PolicyThresholds : Type 0 where
  pub payment_cap : ℤ
  pub deferral_min_age_days : ℤ
  pub deferral_max_per_year : ℤ
  pub deferral_unpaid_threshold : ℤ

-- The defaults of `PolicyThresholds`: 200 TND, 180 days, 2, 150 TND.
abbrev pub default_thresholds : PolicyThresholds
default_thresholds = record {
  payment_cap = pos 200000;
  deferral_min_age_days = pos 180;
  deferral_max_per_year = pos 2;
  deferral_unpaid_threshold = pos 150000;
}

pub record PolicyContext : Type 0 where
  pub session_id : String
  pub customer_id : Option String
  pub subscription_id : Option String
  pub action_type : String
  pub is_vip : Bool
  pub fraud_suspected : Bool
  pub frustration : Bool
  pub identity_verified : Bool
  pub clarification_attempts : ℤ
  pub identity_attempts : ℤ
  pub amount : Option ℤ
  pub requested_days : Option ℤ
  pub account_age_days : ℤ
  pub deferrals_this_year : ℤ
  pub unpaid_amount : ℤ
  pub payment_confirmed : Bool

-- A request that gives the action alone: every other field has its default.
abbrev pub default_context : String → PolicyContext
default_context action = record {
  session_id = "unknown";
  customer_id = none;
  subscription_id = none;
  action_type = action;
  is_vip = false;
  fraud_suspected = false;
  frustration = false;
  identity_verified = false;
  clarification_attempts = pos 0;
  identity_attempts = pos 0;
  amount = none;
  requested_days = none;
  account_age_days = pos 0;
  deferrals_this_year = pos 0;
  unpaid_amount = pos 0;
  payment_confirmed = false;
}
