-- ===== src/Storage/Address.antt =====
-- The address that a store returns leads back to the key.
use Prim.Native.Char.{Char, code}
use Prim.Native.String.{String, ◌++◌, [] as empty, ◌∷◌ as char_cons}
use text.Mathlib.TextEquality.{Char-path}
use text.Mathlib.TextLemmas.{nil-append, cons-append, append_assoc}
use livekit_agent.Base.{
  ◌≡◌, ◌≢◌, refl, sym, ap, ◌∙◌, Bool, true, false, Option, none, some, or_else, ◌==◌, arith,
  if◌then◌else◌, Bool-cases, inl, inr,
}
use livekit_agent.Storage.{
  strip_prefix, or_next, after_first, S3Client, MinioStore, scheme, address, with_address, key_of,
  put, delete,
}

abbrev slash : Char
slash = "/"

-- A text with no slash.
abbrev pub NoSlash : String → Type 0
NoSlash empty = Unit
NoSlash (char_cons c s) = (code c ≢ 47) × NoSlash s

slash-append : (s : String) → "/" ++ s ≡ char_cons slash s
slash-append s = cons-append slash "" s ∙ ap (char_cons slash) (nil-append s)

strip_prefix-append : (m s : String) → strip_prefix m (m ++ s) ≡ some s
strip_prefix-append empty s = ap (λ (x : String). some x) (nil-append s)
strip_prefix-append (char_cons c m) s =
    rw (cons-append c m s) (ground (arith, strip_prefix-append m s))

after_first_here : (m s rest : String) → strip_prefix m s ≡ some rest → after_first m s ≡ some rest
after_first_here m empty rest e = e
after_first_here m (char_cons c s) rest e = ap (λ o. or_next o (after_first m s)) e

after_first_later :
    (m s : String) (c : Char)
    → strip_prefix m (char_cons c s) ≡ none
    → after_first m (char_cons c s) ≡ after_first m s
after_first_later m s c e = ap (λ o. or_next o (after_first m s)) e

-- No marker that begins with a slash begins within a text that has none.
after_first-append :
    (m t s : String)
    → NoSlash t
    → after_first (char_cons slash m) (t ++ s) ≡ after_first (char_cons slash m) s
after_first-append m empty s clean = ap (after_first (char_cons slash m)) (nil-append s)
after_first-append m (char_cons c t) s clean =
    let other : strip_prefix (char_cons slash m) (char_cons c (t ++ s)) ≡ none =
      ground (arith, clean.0) in
    ap (after_first (char_cons slash m)) (cons-append c t s)
    ∙ after_first_later (char_cons slash m) (t ++ s) c other
    ∙ after_first-append m t s clean.1

-- A text without slashes, up to a slash, is the front of another only if it is the same.
strip_prefix_other :
    (b e rest : String)
    → NoSlash b
    → NoSlash e
    → b ≢ e
    → strip_prefix (b ++ "/") (e ++ char_cons slash rest) ≡ none
strip_prefix_other empty empty rest hb he ne = absurd (ne refl)
strip_prefix_other empty (char_cons c e) rest hb he ne =
    rw (cons-append c e (char_cons slash rest)) (ground (arith, he.0))
strip_prefix_other (char_cons c b) empty rest hb he ne =
    rw (cons-append c b "/") (rw (nil-append (char_cons slash rest)) (ground (arith, hb.0)))
strip_prefix_other (char_cons c b) (char_cons d e) rest hb he ne =
    rw (cons-append c b "/", cons-append d e (char_cons slash rest))
      (elim (Bool-cases (code c == code d)) [
        | inl same ↦
            let p : c ≡ d = Char-path c d (ground (arith, same)) in
            rw same (strip_prefix_other b e rest hb.1 he.1 (λ q. ne (λ i. char_cons (p i) (q i))))
        | inr other ↦ rw other refl
      ])

strip_prefix-slash :
    (b s : String) → NoSlash b → b ≢ "" → strip_prefix (b ++ "/") (char_cons slash s) ≡ none
strip_prefix-slash empty s hb some_name = absurd (some_name refl)
strip_prefix-slash (char_cons c b) s hb some_name = rw (cons-append c b "/") (ground (arith, hb.0))

colon-append : (s : String) → "://" ++ s ≡ ":" ++ char_cons slash (char_cons slash s)
colon-append s =
    append_assoc ":" "//" s
    ∙ ap (λ x. ":" ++ x) (cons-append slash "/" s ∙ ap (char_cons slash) (slash-append s))

scheme-NoSlash : (secure : Bool) → NoSlash (if secure then "https" else "http")
scheme-NoSlash true = (omega arith, (omega arith, (omega arith, (omega arith, (omega arith, tt)))))
scheme-NoSlash false = (omega arith, (omega arith, (omega arith, (omega arith, tt))))

module _ (store : MinioStore) (key : String) where
  abbrev rest : String
  rest = store.bucket ++ ("/" ++ key)

  abbrev marker : String
  marker = char_cons slash (store.bucket ++ "/")

  -- What stands behind the scheme.
  address_split :
      address store key
      ≡ scheme store
        ++ (":" ++ char_cons slash (char_cons slash (store.endpoint ++ char_cons slash rest)))
  unfolding address
  address_split =
      ap (λ x. scheme store ++ ("://" ++ (store.endpoint ++ x))) (slash-append rest)
      ∙ ap (λ x. scheme store ++ x) (colon-append (store.endpoint ++ char_cons slash rest))

  -- The first marker is the one before the key.
  after_first-address :
      NoSlash store.bucket
      → NoSlash store.endpoint
      → store.bucket ≢ ""
      → store.bucket ≢ store.endpoint
      → after_first marker (address store key) ≡ some key
  after_first-address hb he some_bucket differ =
      let m = store.bucket ++ "/" in
      let tail = store.endpoint ++ char_cons slash rest in
      ap (after_first marker) address_split
      ∙ after_first-append m (scheme store) (":" ++ char_cons slash (char_cons slash tail))
          (scheme-NoSlash store.secure)
      ∙ after_first-append m ":" (char_cons slash (char_cons slash tail)) (omega arith, tt)
      ∙ after_first_later marker (char_cons slash tail) slash
          (strip_prefix-slash store.bucket tail hb some_bucket)
      ∙ after_first_later marker tail slash
          (strip_prefix_other store.bucket store.endpoint rest hb he differ)
      ∙ after_first-append m store.endpoint (char_cons slash rest) he
      ∙ after_first_here marker (char_cons slash rest) key (
          ap (strip_prefix m) (sym (append_assoc store.bucket "/" key)) ∙ strip_prefix-append m key)

-- The key that `delete` takes from the address of a key is that key, if
-- the names of the bucket and of the endpoint have no slash and differ, and the bucket has a name.
pub key_of-address :
    (store : MinioStore) (key : String)
    → NoSlash store.bucket
    → NoSlash store.endpoint
    → store.bucket ≢ ""
    → store.bucket ≢ store.endpoint
    → key_of store (address store key) ≡ key
unfolding key_of
key_of-address store key hb he some_bucket differ =
    let e : "/" ++ (store.bucket ++ "/") ≡ char_cons slash (store.bucket ++ "/") = slash-append _ in
    ap (λ (m : String). or_else (after_first m (address store key)) (address store key)) e
    ∙ ap (λ (o : Option String). or_else o (address store key))
        (after_first-address store key hb he some_bucket differ)

with_address_lem :
    {A : Type 0} (a url : String) (o : Option A) (after : A)
    → with_address a o ≡ some (url, after)
    → a ≡ url
with_address_lem a url none after e = cc e
with_address_lem a url (some s) after e = cc e

-- Where the names of the bucket and of the endpoint have no slash and differ, and the bucket has a
-- name: deleting, at any later state, the address that a put returned is removing the key of that
-- put from the bucket, and nothing else.
pub delete-put :
    (client : S3Client) (store : MinioStore) (key content url : String)
    (before after later : client.State)
    → NoSlash store.bucket
    → NoSlash store.endpoint
    → store.bucket ≢ ""
    → store.bucket ≢ store.endpoint
    → put client store key content before ≡ some (url, after)
    → delete client store url later ≡ client.remove_object store.bucket key later
unfolding put delete
delete-put client store key content url before after later hb he some_bucket differ stored =
    ap (λ k. client.remove_object store.bucket k later)
      (ap (key_of store) (
          sym (
            with_address_lem (address store key) url
              (client.put_object store.bucket key content before) after stored))
        ∙ key_of-address store key hb he some_bucket differ)
