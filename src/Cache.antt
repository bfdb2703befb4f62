-- ===== src/Cache.antt =====
-- packages/cache/src/cache/client.py: the two caches behind one interface. The redis client is an
-- argument; each call is given the time, and may raise.
use livekit_agent.Base.{
  ℕ, String, Bool, true, false, Option, none, some, str_eq, if◌then◌else◌, ◌≡◌, ◌⊎◌,
}

-- The calls of a redis client; `none` is an exception.
pub record RedisClient : Type 1 where
  pub State : Type 0
  pub get : ℕ → String → State → Option (Option String)
  pub set : ℕ → String → String → ℕ → State → Option State
  pub set_nx : ℕ → String → String → ℕ → State → Option (Bool × State)
  pub delete : ℕ → String → State → Option State

-- The `Cache` protocol.
pub record Cache : Type 1 where
  pub State : Type 0
  pub enabled : Bool
  pub get : ℕ → String → State → Option (Option String)
  pub set : ℕ → String → String → ℕ → State → Option State
  pub delete : ℕ → String → State → Option State
  pub add_if_absent : ℕ → String → ℕ → State → Option (Bool × State)

-- `NullCache`
abbrev pub null_cache : Cache
null_cache = record {
  State = Unit;
  enabled = false;
  get = λ now key s. some none;
  set = λ now key value ttl s. some s;
  delete = λ now key s. some s;
  add_if_absent = λ now key ttl s. some (true, s);
}

-- `RedisCache`
abbrev pub redis_cache : RedisClient → Cache
redis_cache client = record {
  State = client.State;
  enabled = true;
  get = client.get;
  set = client.set;
  delete = client.delete;
  add_if_absent = λ now key ttl s. client.set_nx now key "1" ttl s;
}

-- `get_cache`, by the setting of the address and the client that can be made for it
abbrev pub get_cache : Option String → Option RedisClient → Cache
get_cache none client = null_cache
get_cache (some url) none = null_cache
get_cache (some url) (some client) = if str_eq url "" then null_cache else redis_cache client

-- What a cache answers was set under the same key: a set adds no other answer.
pub record IsFaithful (c : Cache) : Type 0 where
  pub get-set :
      (now later ttl : ℕ) (key value other found : String) (s s' : c.State)
      → c.set now key value ttl s ≡ some s'
      → c.get later other s' ≡ some (some found)
      → ((key ≡ other) × (value ≡ found)) ⊎ (c.get later other s ≡ some (some found))
