-- ===== src/Context/Service.antt =====
-- services/context-service/src/context_service/main.py: the endpoints, and the cache of `resolve`.
pub mod Cached
use Prim.Native.String.{String, ◌++◌}
use livekit_agent.Base.{ℕ, Bool, Option, none, some, List}
use livekit_agent.Persistence.Crm.{Customer, Subscription, Crm}
use livekit_agent.Cache.{Cache}
use livekit_agent.Context.{
  ReadEnv, Customer360, Invoice, Balance, resolve_identity, build_customer360, verify_identity,
  get_invoices, get_balance,
}

pub record ResolveIdentityResponse : Type 0 where
  pub customer_id : String
  pub subscription_id : String
  pub preferred_language : String

-- What an endpoint answers: a model, 404, or 500 after an exception.
pub data Answer {ℓ} (A : Type ℓ) : Type ℓ where
  ok : A → Answer A
  not_found : Answer A
  failed : Answer A

abbrev pub or_404 {ℓ} : {A : Type ℓ} → Option A → Answer A
or_404 none = not_found
or_404 (some a) = ok a

-- `model_dump_json` and `model_validate_json`
pub record ModelJson : Type 0 where
  pub dump : ResolveIdentityResponse → String
  pub validate : String → Option ResolveIdentityResponse

abbrev pub identity_of : Customer × Subscription → ResolveIdentityResponse
identity_of (c, s) = record {
  customer_id = c.id;
  subscription_id = s.id;
  preferred_language = c.preferred_language;
}

abbrev pub cache_key : String → String
cache_key msisdn = "ctx:resolve:" ++ msisdn

abbrev pub answer_of : Option (Customer × Subscription) → Answer ResolveIdentityResponse
answer_of none = not_found
answer_of (some found) = ok (identity_of found)

module _ (env : ReadEnv) where
  -- `resolve_identity` without a cache.
  abbrev pub resolve : String → Crm → Answer ResolveIdentityResponse
  resolve msisdn crm = answer_of (resolve_identity env msisdn crm)

  -- `get_context`, `verify_identity`, `get_invoices` and `get_balance`
  unfoldable pub get_context : String → Crm → Answer Customer360
  get_context msisdn crm = or_404 (build_customer360 env msisdn crm)

  unfoldable pub verify_endpoint : String → String → Crm → Bool
  verify_endpoint customer_id answer crm = verify_identity env customer_id answer crm

  unfoldable pub invoices_endpoint : String → Crm → List Invoice
  invoices_endpoint customer_id crm = get_invoices env customer_id crm

  unfoldable pub balance_endpoint : String → Crm → Answer Balance
  balance_endpoint customer_id crm = or_404 (get_balance env customer_id crm)

  module _ (cache : Cache) (json : ModelJson) (ttl : ℕ) where
    abbrev pub after_set :
        ResolveIdentityResponse
        → cache.State
        → Option cache.State
        → Answer ResolveIdentityResponse × cache.State
    after_set r s none = (failed, s)
    after_set r s (some s') = (ok r, s')

    -- What a miss does with the answer: a found one is put in the cache.
    abbrev pub remember :
        ℕ
        → String
        → Answer ResolveIdentityResponse
        → cache.State
        → Answer ResolveIdentityResponse × cache.State
    remember now msisdn (ok r) s =
        after_set r s (cache.set now (cache_key msisdn) (json.dump r) ttl s)
    remember now msisdn not_found s = (not_found, s)
    remember now msisdn failed s = (failed, s)

    abbrev pub read_cached : Option ResolveIdentityResponse → Answer ResolveIdentityResponse
    read_cached none = failed
    read_cached (some r) = ok r

    -- What follows the read of the cache.
    abbrev pub answer_cached :
        ℕ
        → String
        → Crm
        → cache.State
        → Option (Option String)
        → Answer ResolveIdentityResponse × cache.State
    answer_cached now msisdn crm s none = (failed, s)
    answer_cached now msisdn crm s (some none) = remember now msisdn (resolve msisdn crm) s
    answer_cached now msisdn crm s (some (some cached)) = (read_cached (json.validate cached), s)

    -- `resolve_identity` at a time
    unfoldable pub resolve_endpoint :
        ℕ → String → Crm → cache.State → Answer ResolveIdentityResponse × cache.State
    resolve_endpoint now msisdn crm s =
        answer_cached now msisdn crm s (cache.get now (cache_key msisdn) s)
