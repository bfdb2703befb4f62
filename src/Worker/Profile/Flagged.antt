-- ===== src/Worker/Profile/Flagged.antt =====
-- Callers whom the customer records mark.
use mathlib.Core.Bool.{true≢false}
use livekit_agent.Base.{
  String, ◌≡◌, refl, sym, ap, ◌∙◌, Bool, true, false, Option, none, some, str_eq, ◌⊎◌, inl, inr,
}
use livekit_agent.Base.{arith}
use livekit_agent.Base.Int.{ℤ}
use livekit_agent.Persistence.Tables.{Db}
use livekit_agent.Persistence.Crm.{Customer, Subscription, Crm}
use livekit_agent.Context.{Customer360, ReadEnv, resolve_identity, snapshot, build_customer360}
use livekit_agent.Worker.Session.{SessionUserData}
use livekit_agent.Worker.Clients.{Call, Delivery, served, request_lost, reply_lost}
use livekit_agent.Worker.Guarded.{GuardEnv, fraud_of, is_vip_of}
use livekit_agent.Worker.Guarded.Safety.{IsExecution}
use livekit_agent.Worker.Identity.{ensure_identity_verified}
use livekit_agent.Worker.Tools.{make_payment}
use livekit_agent.Worker.Tools.Promised.{make_payment-IsPayable}
use livekit_agent.Worker.Profile.{from_snapshot, get_snapshot, prefetch_user_data}

-- The prefetch of a line that is on file.
prefetched :
    (call : Call) (env : ReadEnv) (msisdn : String) (crm : Crm) (session_id language : String)
    (c : Customer) (s : Subscription)
    → call.delivery ≡ served
    → str_eq msisdn "" ≡ false
    → resolve_identity env msisdn crm ≡ some (c, s)
    → (prefetch_user_data call env (some msisdn) crm session_id language).customer_context
      ≡ some (from_snapshot (snapshot env crm c s))
unfolding prefetch_user_data get_snapshot build_customer360
prefetched call env msisdn crm session_id language c s up some_line found =
    let built : build_customer360 env msisdn crm ≡ some (snapshot env crm c s) =
      rw (found, build_customer360) refl in
    rw some_line (
      ap
        (λ (d : Delivery). elim d [
          | served ↦ elim (build_customer360 env msisdn crm) [
            | none ↦ none
            | some view ↦ some (from_snapshot view)
          ]
          | request_lost ↦ none
          | reply_lost ↦ none
        ])
        up
      ∙ ap
          (λ (o : Option Customer360). elim o [
            | none ↦ none
            | some view ↦ some (from_snapshot view)
          ])
          built)

-- The gate keeps the profile.
gate_profile :
    (verified : Bool) (user : SessionUserData)
    → (ensure_identity_verified verified user).1.customer_context ≡ user.customer_context
unfolding ensure_identity_verified
gate_profile verified user = ground arith

-- A caller whose line belongs to a customer whom the records mark as suspected of fraud, or as a
-- VIP, and whose profile was prefetched, is never told that a payment was made, whatever has
-- happened in the session since, whatever is confirmed, and however the calls go.
pub flagged_unpaid :
    (guard : GuardEnv) (call : Call) (env : ReadEnv) (msisdn : String) (crm : Crm)
    (session_id language : String) (c : Customer) (s : Subscription)
    → call.delivery ≡ served
    → str_eq msisdn "" ≡ false
    → resolve_identity env msisdn crm ≡ some (c, s)
    → (c.fraud_suspected ≡ true) ⊎ (c.vip_flag ≡ true)
    → (user : SessionUserData)
    → user.customer_context
      ≡ (prefetch_user_data call env (some msisdn) crm session_id language).customer_context
    → (verified confirmed : Bool) (amount : ℤ) (db : Db)
    → ¬ IsExecution (make_payment guard verified confirmed amount (user, db)).0
unfolding from_snapshot
flagged_unpaid guard call env msisdn crm session_id language c s up line found flag user same
      verified confirmed amount db done =
    let p = make_payment-IsPayable guard verified confirmed amount user db done in
    let profile : (ensure_identity_verified verified user).1.customer_context
        ≡ some (from_snapshot (snapshot env crm c s)) =
      gate_profile verified user
      ∙ same
      ∙ prefetched call env msisdn crm session_id language c s up line found in
    elim flag [
      | inl fraud ↦ true≢false (sym fraud ∙ sym (ap fraud_of profile) ∙ p.clear.no_fraud)
      | inr vip ↦ true≢false (sym vip ∙ sym (ap is_vip_of profile) ∙ p.clear.no_vip)
    ]
