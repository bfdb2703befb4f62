-- ===== src/Tests/Cached.antt =====
-- The cached endpoint of the context service over a toy redis and a toy JSON.
use Prim.Native.Char.{code}
use Prim.Native.String.{String, [] as empty, ◌∷◌ as char_cons}
use text.Mathlib.TextEquality.{eq_iff}
use livekit_agent.Base.{
  ◌≡◌, refl, ap, true, Option, none, some, List, [], ◌∷◌, str_eq, ◌==◌, ◌⊎◌, sym, ◌∙◌, inl, inr,
  Bool-cases, if◌then◌else◌,
}
use livekit_agent.Cache.{RedisClient, redis_cache, IsFaithful}
use livekit_agent.Context.{resolve_identity}
use livekit_agent.Context.Service.{ok, ResolveIdentityResponse, ModelJson, resolve_endpoint}
use livekit_agent.Context.Service.Cached.{Request, AllHonest, resolve_endpoint-AllHonest}
use livekit_agent.Tests.Context.{reads, records}

abbrev Pairs : Type 0
Pairs = List (String × String)

abbrev find : String → Pairs → Option String
find key [] = none
find key ((k, v) ∷ s) = let rest = find key s in if str_eq k key then some v else rest

-- A redis that forgets nothing.
abbrev toy_redis : RedisClient
toy_redis = record {
  State = Pairs;
  get = λ now key s. some (find key s);
  set = λ now key value ttl s. some ((key, value) ∷ s);
  set_nx = λ now key value ttl s. some (true, (key, value) ∷ s);
  delete = λ now key s. some s;
}

find_set :
    (key value other found : String) (s : Pairs)
    → find other ((key, value) ∷ s) ≡ some found
    → ((key ≡ other) × (value ≡ found)) ⊎ (find other s ≡ some found)
find_set key value other found s e = elim (Bool-cases (str_eq key other)) [
  | inl same ↦ inl (
    (eq_iff key other).0 same,
    cc (sym (ap (λ b. if b then some value else find other s) same) ∙ e),
  )
  | inr differ ↦ inr (sym (ap (λ b. if b then some value else find other s) differ) ∙ e)
]

toy_redis-IsFaithful : IsFaithful (redis_cache toy_redis)
toy_redis-IsFaithful = record {
  get-set = λ now later ttl key value other found s s' stored hit.
      let e : (key, value) ∷ s ≡ s' = cc stored in
      let answer : find other s' ≡ some found = cc hit in
      elim (find_set key value other found s (ap (find other) e ∙ answer)) [
        | inl same ↦ inl same
        | inr before ↦ inr (ap (λ (o : Option String). some o) before)
      ];
}

-- A text, with a mark in front of each character and one at the end.
abbrev enc : String → String → String
enc empty rest = char_cons "." rest
enc (char_cons c s) rest = char_cons "x" (char_cons c (enc s rest))

abbrev dec : String → String × String
dec empty = ("", "")
dec (char_cons t empty) = ("", "")
dec (char_cons t (char_cons c s)) =
    let (a, rest) = dec s in if code t == 46 then ("", char_cons c s) else (char_cons c a, rest)

dec-enc : (s rest : String) → dec (enc s rest) ≡ (s, rest)
dec-enc empty empty = refl
dec-enc empty (char_cons c rest) = refl
dec-enc (char_cons c s) rest = ap (λ (p : String × String). (char_cons c p.0, p.1)) (dec-enc s rest)

abbrev toy_json : ModelJson
toy_json = record {
  dump = λ r. enc r.customer_id (enc r.subscription_id (enc r.preferred_language ""));
  validate = λ s.
      let (a, s1) = dec s in
      let (b, s2) = dec s1 in
      some (record { customer_id = a; subscription_id = b; preferred_language = (dec s2).0 });
}

validate-dump : (r : ResolveIdentityResponse) → toy_json.validate (toy_json.dump r) ≡ some r
validate-dump r =
    rw
      (
        dec-enc r.customer_id (enc r.subscription_id (enc r.preferred_language "")),
        dec-enc r.subscription_id (enc r.preferred_language ""),
        dec-enc r.preferred_language "",
      )
      refl

abbrev asked_twice : List Request
asked_twice =
    record { now = 1; msisdn = "20123456"; crm = records }
    ∷ record {
      now = 2;
      msisdn = "20123456";
      crm = record { customers = []; subscriptions = []; invoices = []; balances = [] };
    }
    ∷ []

-- The second answer comes from the cache, although the line is gone.
hit :
    (resolve_endpoint reads
      (redis_cache toy_redis)
      toy_json
      300
      2
      "20123456"
      (record { customers = []; subscriptions = []; invoices = []; balances = [] })
      (resolve_endpoint reads (redis_cache toy_redis) toy_json 300 1 "20123456" records []).1).0
    ≡ ok (record { customer_id = "c1"; subscription_id = "l1"; preferred_language = "fr" })
unfolding resolve_endpoint resolve_identity
hit = refl

resolve_endpoint-AllHonest_example :
    AllHonest reads (redis_cache toy_redis) toy_json 300 [] asked_twice []
resolve_endpoint-AllHonest_example =
    resolve_endpoint-AllHonest reads (redis_cache toy_redis) toy_json 300 toy_redis-IsFaithful
      validate-dump [] (λ now key found e. cc e) asked_twice
