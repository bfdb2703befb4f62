-- ===== src/Storage.antt =====
-- packages/object-storage/src/object_storage/store.py. The S3 client is an argument; a recording is
-- its text.
pub mod Address
use Prim.Native.Char.{code}
use Prim.Native.String.{String, ◌++◌, [] as empty, ◌∷◌ as char_cons}
use livekit_agent.Base.{
  ℕ, Bool, true, false, Option, none, some, or_else, ◌==◌, str_eq, if◌then◌else◌,
}

-- What follows a text at the front of another.
abbrev pub strip_prefix : String → String → Option String
strip_prefix empty s = some s
strip_prefix (char_cons m ms) empty = none
strip_prefix (char_cons m ms) (char_cons c s) =
    let rest = strip_prefix ms s in if code m == code c then rest else none

abbrev pub or_next : Option String → Option String → Option String
or_next none later = later
or_next (some rest) later = some rest

-- `s.split(marker, 1)[1]`: what follows the first marker; `none` where `marker in s` fails.
abbrev pub after_first : String → String → Option String
after_first marker empty = strip_prefix marker empty
after_first marker (char_cons c s) =
    or_next (strip_prefix marker (char_cons c s)) (after_first marker s)

-- The calls of the client that may raise, on its own state.
pub record S3Client : Type 1 where
  pub State : Type 0
  pub put_object : String → String → String → State → Option State
  pub remove_object : String → String → State → Option State

-- `MinioStore`, without its client
pub record MinioStore : Type 0 where
  pub bucket : String
  pub endpoint : String
  pub secure : Bool

abbrev pub scheme : MinioStore → String
scheme store = if store.secure then "https" else "http"

-- The address that `put` returns.
unfoldable pub address : MinioStore → String → String
address store key =
    scheme store ++ ("://" ++ (store.endpoint ++ ("/" ++ (store.bucket ++ ("/" ++ key)))))

-- The key that `delete` removes.
unfoldable pub key_of : MinioStore → String → String
key_of store key_or_url = or_else (after_first ("/" ++ (store.bucket ++ "/")) key_or_url) key_or_url

abbrev pub with_address {ℓ} : {A : Type ℓ} → String → Option A → Option (String × A)
with_address url none = none
with_address url (some s) = some (url, s)

module _ (client : S3Client) (store : MinioStore) where
  -- `put`, with the address that it returns; `none` is an exception
  unfoldable pub put : String → String → client.State → Option (String × client.State)
  put key content s =
      with_address (address store key) (client.put_object store.bucket key content s)

  -- `delete`
  unfoldable pub delete : String → client.State → Option client.State
  delete key_or_url s = client.remove_object store.bucket (key_of store key_or_url) s
