-- ===== src/Context/Service/Cached.antt =====
-- What the cache may answer in place of the records.
use Prim.Native.String.{String}
use text.Mathlib.TextLemmas.{append_cancel_left}
use livekit_agent.Base.{
  ℕ, ◌≡◌, refl, sym, ap, subst, ◌∙◌, Option, none, some, List, [], ◌∷◌, ◌⊎◌, inl, inr,
}
use livekit_agent.Persistence.Crm.{Customer, Subscription, Crm}
use livekit_agent.Cache.{Cache, IsFaithful}
use livekit_agent.Context.{ReadEnv}
use livekit_agent.Context.Service.{
  ResolveIdentityResponse, Answer, ok, not_found, failed, ModelJson, cache_key, answer_of, resolve,
  after_set, remember, read_cached, answer_cached, resolve_endpoint,
}

answer_of-ne-failed : (o : Option (Customer × Subscription)) → ¬ (answer_of o ≡ failed)
answer_of-ne-failed none e = cc e
answer_of-ne-failed (some found) e = cc e

-- A request, with the time and the records that it meets.
pub record Request : Type 0 where
  pub now : ℕ
  pub msisdn : String
  pub crm : Crm

-- Something holds of one of the records seen.
abbrev pub OneOf : (Crm → Type 0) → List Crm → Type 0
OneOf P [] = ⊥
OneOf P (crm ∷ seen) = P crm ⊎ OneOf P seen

module _ (env : ReadEnv) (cache : Cache) (json : ModelJson) (ttl : ℕ) where
  -- The records that were seen answer a line so.
  abbrev pub WasTrue : List Crm → String → ResolveIdentityResponse → Type 0
  WasTrue seen msisdn r = OneOf (λ crm. resolve env msisdn crm ≡ ok r) seen

  -- Every text that the cache may answer for a line is the dump of such an answer.
  abbrev pub IsStocked : List Crm → cache.State → Type 0
  IsStocked seen s =
      (now : ℕ) (msisdn found : String)
      → cache.get now (cache_key msisdn) s ≡ some (some found)
      → (r : ResolveIdentityResponse) × (found ≡ json.dump r) × WasTrue seen msisdn r

  -- A call of the cache that the request makes raises.
  abbrev pub Raises : Request → cache.State → Type 0
  Raises q s =
      (cache.get q.now (cache_key q.msisdn) s ≡ none)
      ⊎ ((r : ResolveIdentityResponse) × (cache.set q.now (cache_key q.msisdn) (json.dump r) ttl s
            ≡ none))

  -- An answer is one that the records gave at this or an earlier request; that the line is unknown
  -- only if it is so now; and a failure only if a call of the cache raises.
  abbrev pub IsHonest : List Crm → Request → cache.State → Answer ResolveIdentityResponse → Type 0
  IsHonest seen q s (ok r) = WasTrue seen q.msisdn r
  IsHonest seen q s not_found = resolve env q.msisdn q.crm ≡ not_found
  IsHonest seen q s failed = Raises q s

  set-IsStocked :
      (faithful : IsFaithful cache) (seen : List Crm) (now : ℕ) (msisdn : String)
      (r : ResolveIdentityResponse) (s s' : cache.State)
      → WasTrue seen msisdn r
      → cache.set now (cache_key msisdn) (json.dump r) ttl s ≡ some s'
      → IsStocked seen s
      → IsStocked seen s'
  set-IsStocked faithful seen now msisdn r s s' true_now stored stocked later other found hit =
      elim (faithful.get-set now later ttl (cache_key msisdn) (json.dump r) (cache_key other) found
        s s' stored hit) [
          | inl (same, value) ↦ (
            r,
            sym value,
            subst (λ m. WasTrue seen m r) (append_cancel_left "ctx:resolve:" msisdn other same)
                true_now,
          )
          | inr before ↦ stocked later other found before
        ]

  -- What the endpoint keeps: its answer is honest, and the cache stays stocked.
  abbrev pub Served :
      List Crm → Request → cache.State → Answer ResolveIdentityResponse × cache.State → Type 0
  Served seen q s end = IsHonest seen q s end.0 × IsStocked seen end.1

  weaker :
      (seen : List Crm) (crm : Crm) (s : cache.State) → IsStocked seen s → IsStocked (crm ∷ seen) s
  weaker seen crm s stocked now msisdn found hit =
      let (r, dumped, before) = stocked now msisdn found hit in (r, dumped, inr before)

  module _ (faithful : IsFaithful cache)
      (validate-dump : (r : ResolveIdentityResponse) → json.validate (json.dump r) ≡ some r) where
    after_set-Served :
        (seen : List Crm) (q : Request) (r : ResolveIdentityResponse) (s : cache.State)
        → WasTrue seen q.msisdn r
        → IsStocked seen s
        → (o : Option cache.State) → cache.set q.now (cache_key q.msisdn) (json.dump r) ttl s ≡ o
        → Served seen q s (after_set env cache json ttl r s o)
    after_set-Served seen q r s true_now stocked none e = (inr (r, e), stocked)
    after_set-Served seen q r s true_now stocked (some s') e =
        (true_now, set-IsStocked faithful seen q.now q.msisdn r s s' true_now e stocked)

    remember-Served :
        (seen : List Crm) (q : Request) (s : cache.State)
        → IsStocked (q.crm ∷ seen) s
        → (answer : Answer ResolveIdentityResponse) → resolve env q.msisdn q.crm ≡ answer
        → Served (q.crm ∷ seen) q s (remember env cache json ttl q.now q.msisdn answer s)
    remember-Served seen q s stocked (ok r) e =
        after_set-Served (q.crm ∷ seen) q r s (inl e) stocked _ refl
    remember-Served seen q s stocked not_found e = (e, stocked)
    remember-Served seen q s stocked failed e = absurd (answer_of-ne-failed _ e)

    answer_cached-Served :
        (seen : List Crm) (q : Request) (s : cache.State)
        → IsStocked (q.crm ∷ seen) s
        → (read : Option (Option String)) → cache.get q.now (cache_key q.msisdn) s ≡ read
        → Served (q.crm ∷ seen) q s (answer_cached env cache json ttl q.now q.msisdn q.crm s read)
    answer_cached-Served seen q s stocked none e = (inl e, stocked)
    answer_cached-Served seen q s stocked (some none) e = remember-Served seen q s stocked _ refl
    answer_cached-Served seen q s stocked (some (some found)) e =
        let (r, dumped, before) = stocked q.now q.msisdn found e in
        let read : json.validate found ≡ some r = ap json.validate dumped ∙ validate-dump r in
        (
          subst (λ o. IsHonest (q.crm ∷ seen) q s (read_cached env cache json ttl o)) (sym read)
              before,
          stocked,
        )

    endpoint-Served :
        (seen : List Crm) (q : Request) (s : cache.State)
        → IsStocked seen s
        → Served (q.crm ∷ seen) q s (resolve_endpoint env cache json ttl q.now q.msisdn q.crm s)
    unfolding resolve_endpoint
    endpoint-Served seen q s stocked =
        answer_cached-Served seen q s (weaker seen q.crm s stocked) _ refl

  -- The answers to a sequence of requests are honest, each against the records up to it.
  abbrev pub AllHonest : List Crm → List Request → cache.State → Type 0
  AllHonest seen [] s = Unit
  AllHonest seen (q ∷ qs) s =
      let (answer, s') = resolve_endpoint env cache json ttl q.now q.msisdn q.crm s in
      IsHonest (q.crm ∷ seen) q s answer × AllHonest (q.crm ∷ seen) qs s'

  -- With a cache that answers only what was set under the key, and models that are read back from
  -- their JSON: whatever requests come, at whatever times, while the records change, from a cache
  -- that has nothing, `resolve` answers 404 only for a line that the records do not have now, and
  -- an identity only if the records gave it for that line at this or an earlier request, and fails
  -- only if a call of the cache raises.
  pub resolve_endpoint-AllHonest :
      IsFaithful cache
      → ((r : ResolveIdentityResponse) → json.validate (json.dump r) ≡ some r)
      → (s : cache.State)
      → ((now : ℕ) (key found : String) → ¬ (cache.get now key s ≡ some (some found)))
      → (qs : List Request) → AllHonest [] qs s
  resolve_endpoint-AllHonest faithful validate-dump s nothing qs =
      go [] qs s (λ now msisdn found hit. absurd (nothing now (cache_key msisdn) found hit))
    where
      go :
          (seen : List Crm) (qs : List Request) (s : cache.State)
          → IsStocked seen s
          → AllHonest seen qs s
      go seen [] s stocked = tt
      go seen (q ∷ qs) s stocked =
          let (honest, later) = endpoint-Served faithful validate-dump seen q s stocked in
          (honest, go (q.crm ∷ seen) qs _ later)
