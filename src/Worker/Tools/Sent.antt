-- ===== src/Worker/Tools/Sent.antt =====
-- What the tools send is what the engine judges.
use livekit_agent.Base.{◌≡◌, refl, String, Bool, false, Option, none, some, [], ◌∷◌, leb}
use livekit_agent.Base.Int.{ℤ, pos}
use livekit_agent.Base.Json.{flag, str, decimal}
use livekit_agent.Policy.Types.{PolicyContext}
use livekit_agent.Worker.Session.{CustomerContext, SessionUserData}
use livekit_agent.Worker.Clients.{parse_context}
use livekit_agent.Worker.Guarded.{frustration_streak, is_vip_of, fraud_of, age_of, build_context}
use livekit_agent.Worker.Tools.{payment_payload, deferral_payload}

abbrev pub sent_customer_id : Option CustomerContext → Option String
sent_customer_id none = none
sent_customer_id (some c) = some c.customer_id

abbrev pub sent_subscription_id : Option CustomerContext → Option String
sent_subscription_id none = none
sent_subscription_id (some c) = c.subscription_id

-- The context of a session for a type of action, before the payload.
abbrev pub sent_context : SessionUserData → String → PolicyContext
sent_context user action_type = record {
  session_id = user.session_id;
  customer_id = sent_customer_id user.customer_context;
  subscription_id = sent_subscription_id user.customer_context;
  action_type = action_type;
  is_vip = is_vip_of user.customer_context;
  fraud_suspected = fraud_of user.customer_context;
  frustration = leb frustration_streak user.consecutive_negative_turns;
  identity_verified = user.identity_verified;
  clarification_attempts = pos user.clarification_attempts;
  identity_attempts = pos user.identity_attempts;
  amount = none;
  requested_days = none;
  account_age_days = age_of user.customer_context;
  deferrals_this_year = pos 0;
  unpaid_amount = pos 0;
  payment_confirmed = false;
}

module _ (user : SessionUserData) where
  abbrev with_customer : Option CustomerContext → SessionUserData
  with_customer c = record user { customer_context = c }

  abbrev with_line : CustomerContext → Option String → SessionUserData
  with_line c line = with_customer (some (record c { subscription_id = line }))

  -- A property of all sessions follows from the three cases of the profile.
  by_profile :
      (P : SessionUserData → Type 0)
      → P (with_customer none)
      → ((c : CustomerContext) → P (with_line c none))
      → ((c : CustomerContext) (s : String) → P (with_line c (some s)))
      → P user
  by_profile P unknown no_line line = whole user.customer_context
    where
      lined : (c : CustomerContext) (o : Option String) → P (with_line c o)
      lined c none = no_line c
      lined c (some s) = line c s

      whole : (o : Option CustomerContext) → P (with_customer o)
      whole none = unknown
      whole (some c) = lined c c.subscription_id

  pub payment_context :
      (amount : ℤ) (confirmed : Bool)
      → parse_context (build_context user "EXECUTE_PAYMENT" (payment_payload amount confirmed))
        ≡ some (record (sent_context user "EXECUTE_PAYMENT") {
          amount = some amount;
          payment_confirmed = confirmed;
        })
  unfolding parse_context build_context
  payment_context amount confirmed =
      by_profile
        (λ u.
          parse_context (build_context u "EXECUTE_PAYMENT" (payment_payload amount confirmed))
          ≡ some (record (sent_context u "EXECUTE_PAYMENT") {
            amount = some amount;
            payment_confirmed = confirmed;
          }))
        refl (λ c. refl) (λ c s. refl)

  pub deferral_context :
      (days unpaid : ℤ)
      → parse_context (build_context user "PAYMENT_DEFERRAL" (deferral_payload days unpaid))
        ≡ some (record (sent_context user "PAYMENT_DEFERRAL") {
          requested_days = some days;
          unpaid_amount = unpaid;
        })
  unfolding parse_context build_context
  deferral_context days unpaid =
      by_profile
        (λ u.
          parse_context (build_context u "PAYMENT_DEFERRAL" (deferral_payload days unpaid))
          ≡ some (record (sent_context u "PAYMENT_DEFERRAL") {
            requested_days = some days;
            unpaid_amount = unpaid;
          }))
        refl (λ c. refl) (λ c s. refl)

  pub change_plan_context :
      (code : String)
      → parse_context (build_context user "CHANGE_PLAN" (("plan_code", str code) ∷ []))
        ≡ some (sent_context user "CHANGE_PLAN")
  unfolding parse_context build_context
  change_plan_context code =
      by_profile
        (λ u.
          parse_context (build_context u "CHANGE_PLAN" (("plan_code", str code) ∷ []))
          ≡ some (sent_context u "CHANGE_PLAN"))
        refl (λ c. refl) (λ c s. refl)

  pub roaming_context :
      (enable : Bool)
      → parse_context (build_context user "ACTIVATE_ROAMING" (("enable", flag enable) ∷ []))
        ≡ some (sent_context user "ACTIVATE_ROAMING")
  unfolding parse_context build_context
  roaming_context enable =
      by_profile
        (λ u.
          parse_context (build_context u "ACTIVATE_ROAMING" (("enable", flag enable) ∷ []))
          ≡ some (sent_context u "ACTIVATE_ROAMING"))
        refl (λ c. refl) (λ c s. refl)

  pub top_up_context :
      (amount : ℤ)
      → parse_context (build_context user "TOP_UP" (("amount", decimal amount) ∷ []))
        ≡ some (record (sent_context user "TOP_UP") { amount = some amount })
  unfolding parse_context build_context
  top_up_context amount =
      by_profile
        (λ u.
          parse_context (build_context u "TOP_UP" (("amount", decimal amount) ∷ []))
          ≡ some (record (sent_context u "TOP_UP") { amount = some amount }))
        refl (λ c. refl) (λ c s. refl)
