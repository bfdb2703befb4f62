-- ===== src/Audit/Lock.antt =====
-- PgAuditLedger.append of packages/audit-trail/src/audit_trail/ledger.py under concurrency: any
-- number of transactions, of the two services, the worker and the jobs, each append in its three
-- statements, which interleave in any order.
pub mod Rows
pub mod Inside
pub mod Verified
pub mod Grown
use livekit_agent.Base.{
  ℕ, String, ◌≡◌, Bool, true, false, not, ◌||◌, Option, none, some, List, [], ◌∷◌, ◌++◌, ◌⊎◌, map,
  keep, ◌==◌, if◌then◌else◌,
}
use livekit_agent.Base.Json.{Payload}
use livekit_agent.Audit.Ledger.{
  Hasher, genesis_hash, AuditLedgerEntry, Table, row_links, last_hash, build_link,
}

-- A row in the order of `seq`, with the transaction that has not committed it yet.
pub record Stored : Type 0 where
  pub row : AuditLedgerEntry
  pub writer : Option ℕ

-- What an append is given, and what it draws.
pub record Append : Type 0 where
  pub now : String
  pub id : String
  pub session_id : Option String
  pub event_type : String
  pub payload : Payload
  pub reference : Option String

-- Where a transaction is: before or between its appends, or in one, after the lock and after the
-- read of the last row's hash.
pub data Point : Type 0 where
  outside : Point
  locked : Append → Point
  looked : Append → String → Point

-- The table, the holder of the advisory lock, and the transactions.
pub record System : Type 0 where
  pub table : List Stored
  pub lock : Option ℕ
  pub point : ℕ → Point

abbrev pub is_own : ℕ → Option ℕ → Bool
is_own i none = false
is_own i (some j) = i == j

abbrev pub is_committed : Stored → Bool
is_committed s = elim s.writer [ none ↦ true | some j ↦ false ]

-- What a statement of a transaction sees at READ COMMITTED.
abbrev pub is_visible : ℕ → Stored → Bool
is_visible i s = is_committed s || is_own i s.writer

abbrev pub rows_of : List Stored → Table
rows_of = map (λ (s : Stored). s.row)

-- What is on file for everybody.
abbrev pub on_file : System → Table
on_file s = rows_of (keep is_committed s.table)

abbrev pub previous_hash_for : ℕ → List Stored → String
previous_hash_for i table = last_hash genesis_hash (row_links (rows_of (keep (is_visible i) table)))

abbrev pub release : ℕ → Option ℕ → Option ℕ
release i lock = if is_own i lock then none else lock

abbrev pub commit_row : ℕ → Stored → Stored
commit_row i s = if is_own i s.writer then record s { writer = none } else s

abbrev pub is_kept : ℕ → Stored → Bool
is_kept i s = not (is_own i s.writer)

abbrev pub at : ℕ → Point → (ℕ → Point) → ℕ → Point
at i p points j = if i == j then p else points j

abbrev pub init : System
init = record { table = []; lock = none; point = λ i. outside }

module _ (h : Hasher) where
  abbrev pub new_row : Append → String → AuditLedgerEntry
  new_row a previous = record {
    link = build_link h a.now a.payload previous;
    id = a.id;
    session_id = a.session_id;
    event_type = a.event_type;
    entity_reference = a.reference;
  }

  pub data Step (s : System) : System → Type 0 where
    -- `pg_advisory_xact_lock`, which returns when nobody else holds the lock
    take_lock :
        (i : ℕ) (a : Append)
        → s.point i ≡ outside
        → (s.lock ≡ none) ⊎ (s.lock ≡ some i)
        → Step s (record s { lock = some i; point = at i (locked a) s.point })
    -- the select of the last row
    look :
        (i : ℕ) (a : Append)
        → s.point i ≡ locked a
        → Step s (record s { point = at i (looked a (previous_hash_for i s.table)) s.point })
    -- the insert
    insert_row :
        (i : ℕ) (a : Append) (previous : String)
        → s.point i ≡ looked a previous
        → Step s (record s {
          table = s.table ++ record { row = new_row a previous; writer = some i } ∷ [];
          point = at i outside s.point;
        })
    -- the end of the transaction, which also gives back the lock
    commit :
        (i : ℕ)
        → s.point i ≡ outside
        → Step s (record s { table = map (commit_row i) s.table; lock = release i s.lock })
    -- an exception or a lost connection, anywhere
    rollback :
        (i : ℕ)
        → Step s (record s {
          table = keep (is_kept i) s.table;
          lock = release i s.lock;
          point = at i outside s.point;
        })

  pub data Reach : System → Type 0 where
    start : Reach init
    later : {s t : System} → Reach s → Step s t → Reach t
