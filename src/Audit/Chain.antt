-- ===== src/Audit/Chain.antt =====
-- Every ledger that is written by `append` alone verifies.
use livekit_agent.Base.{
  String, ◌≡◌, refl, ◌∙◌, true, Option, List, [], ◌∷◌, ◌++◌, arith, eq_iff, ◌+◌, length-append,
}
use mathlib.Core.List.{map-append}
use text.Mathlib.TextPositions.{eq_refl}
use livekit_agent.Base.Json.{Payload}
use livekit_agent.Audit.Ledger.{
  Hasher, genesis_hash, Link, Table, compute_entry_hash, build_link, build_entry, verify_from,
  verify_chain, last_hash, pg_append, pg_verify, pg_count, AuditLedger, append, verify,
  empty_ledger, entry_links, row_links,
}

last_hash-append :
    (start : String) (es : List Link) (e : Link) → last_hash start (es ++ e ∷ []) ≡ e.entry_hash
last_hash-append start [] e = refl
last_hash-append start (x ∷ es) e = last_hash-append x.entry_hash es e

module _ (h : Hasher) where
  pub verify_from-step :
      (start : String) (e : Link) (es : List Link)
      → verify_from h start (e ∷ es) ≡ true
      → (e.previous_hash ≡ start)
        × (compute_entry_hash h e.previous_hash e.payload e.timestamp ≡ e.entry_hash)
        × (verify_from h e.entry_hash es ≡ true)
  unfolding verify_from
  verify_from-step start e es v = ground (
    arith,
    eq_iff e.previous_hash start,
    eq_iff (compute_entry_hash h e.previous_hash e.payload e.timestamp) e.entry_hash,
  )

  pub verify_from-cons :
      (start : String) (e : Link) (es : List Link)
      → e.previous_hash ≡ start
      → compute_entry_hash h e.previous_hash e.payload e.timestamp ≡ e.entry_hash
      → verify_from h start (e ∷ es) ≡ verify_from h e.entry_hash es
  unfolding verify_from
  verify_from-cons start e es p q = ground (
    arith,
    eq_iff e.previous_hash start,
    eq_iff (compute_entry_hash h e.previous_hash e.payload e.timestamp) e.entry_hash,
  )

  -- A chain verifies in parts.
  pub verify_from-append :
      (start : String) (es fs : List Link)
      → verify_from h start es ≡ true
      → verify_from h start (es ++ fs) ≡ verify_from h (last_hash start es) fs
  verify_from-append start [] fs v = refl
  verify_from-append start (e ∷ es) fs v =
      let (p, q, r) = verify_from-step start e es v in
      verify_from-cons start e (es ++ fs) p q ∙ verify_from-append e.entry_hash es fs r

  pub verify_from-split :
      (start : String) (es fs : List Link)
      → verify_from h start (es ++ fs) ≡ true
      → (verify_from h start es ≡ true) × (verify_from h (last_hash start es) fs ≡ true)
  unfolding verify_from
  verify_from-split start [] fs v = (refl, v)
  verify_from-split start (e ∷ es) fs v =
      let (p, q, r) = verify_from-step start e (es ++ fs) v in
      let (a, b) = verify_from-split e.entry_hash es fs r in
      (verify_from-cons start e es p q ∙ a, b)

  pub verify_from-build :
      (es : List Link) (now : String) (payload : Payload)
      → verify_from h genesis_hash es ≡ true
      → verify_from h genesis_hash (es ++ build_link h now payload (last_hash genesis_hash es) ∷ [])
        ≡ true
  unfolding build_link verify_from
  verify_from-build es now payload v = rw (verify_from-append genesis_hash es _ v) (simp eq_refl)

-- What an `append` call is given.
pub record Event : Type 0 where
  pub now : String
  pub entry_id : String
  pub session_id : String
  pub event_type : String
  pub payload : Payload

module _ (h : Hasher) where
  abbrev pub append_all : List Event → AuditLedger → AuditLedger
  append_all [] ledger = ledger
  append_all (e ∷ es) ledger =
      append_all es (append h e.now e.entry_id e.session_id e.event_type e.payload ledger).0

  -- The ledger verifies, and remembers the hash of its last entry.
  pub record IsChained (ledger : AuditLedger) : Type 0 where
    pub verified : verify h ledger ≡ true
    pub remembered : ledger.last ≡ last_hash genesis_hash (entry_links ledger.entries)

  append-IsChained :
      (e : Event) (ledger : AuditLedger)
      → IsChained ledger
      → IsChained (append h e.now e.entry_id e.session_id e.event_type e.payload ledger).0
  unfolding append verify verify_chain build_entry
  append-IsChained e ledger c = record {
    verified =
        rw (map-append, c.remembered)
          (verify_from-build h (entry_links ledger.entries) e.now e.payload c.verified);
    remembered = rw (map-append, last_hash-append);
  }

  append_all-IsChained :
      (es : List Event) (ledger : AuditLedger) → IsChained ledger → IsChained (append_all es ledger)
  append_all-IsChained [] ledger c = c
  append_all-IsChained (e ∷ es) ledger c = append_all-IsChained es _ (append-IsChained e ledger c)

  -- Whatever is appended to a fresh in-process ledger, in whatever order, it verifies.
  pub verify-append_all : (es : List Event) → verify h (append_all es empty_ledger) ≡ true
  unfolding verify verify_chain verify_from
  verify-append_all es =
      (append_all-IsChained es empty_ledger
        (record { verified = refl; remembered = refl })).verified

  -- An append to a table that verifies leaves a table that verifies, has one row more, and has
  -- every earlier row as it was.
  pub pg_append-verified :
      (now id : String) (session_id : Option String) (event_type : String) (payload : Payload)
      (reference : Option String) (rows : Table)
      → pg_verify h rows ≡ true
      → let (rows', row) = pg_append h now id session_id event_type payload reference rows in
        (pg_verify h rows' ≡ true)
        × (rows' ≡ rows ++ row ∷ [])
        × (pg_count rows' ≡ pg_count rows + 1)
        × (row.previous_hash ≡ last_hash genesis_hash (row_links rows))
  unfolding pg_append pg_verify pg_count build_link
  pg_append-verified now id session_id event_type payload reference rows v = (
    rw map-append (verify_from-build h (row_links rows) now payload v),
    refl,
    omega (arith, length-append rows),
    refl,
  )
