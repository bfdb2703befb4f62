-- ===== src/Audit/Ledger.antt =====
-- packages/audit-trail/src/audit_trail/ledger.py: the entries, their hashes, the two ledgers, and
-- packages/persistence/src/persistence/models/audit.py: the table's row.
use Prim.Native.String.{count, ◌++◌}
use livekit_agent.Base.{
  ℕ, String, ◌≡◌, Bool, true, false, Option, List, [], ◌∷◌, length, str_eq, not, map, if◌then◌else◌,
}
use livekit_agent.Base.Json.{Payload}
use mathlib.Core.List.{◌++◌ as append_list}

-- What the ledger takes from `hashlib` and `json`: a digest in 64 hexadecimal digits, and the
-- canonical text of a dict.
pub record Hasher : Type 0 where
  pub sha256 : String → String
  pub dumps : Payload → String
  pub digest_length : (x : String) → count (sha256 x) ≡ 64

abbrev pub genesis_hash : String
genesis_hash = "0000000000000000000000000000000000000000000000000000000000000000"

-- The part of an entry that the chain is about.
pub record Link : Type 0 where
  pub payload : Payload
  pub previous_hash : String
  pub timestamp : String
  pub entry_hash : String

pub record AuditEntry : Type 0 where
  pub link : Link
  pub open link use *
  pub entry_id : String
  pub session_id : String
  pub event_type : String

-- A row of audit.audit_ledger; `timestamp` is `created_at.isoformat()`.
pub record AuditLedgerEntry : Type 0 where
  pub link : Link
  pub open link use *
  pub id : String
  pub session_id : Option String
  pub event_type : String
  pub entity_reference : Option String

-- `last.entry_hash if last else GENESIS_HASH`, the last of a list of links
abbrev pub last_hash : String → List Link → String
last_hash start [] = start
last_hash start (link ∷ links) = last_hash link.entry_hash links

abbrev pub entry_links : List AuditEntry → List Link
entry_links = map (λ (e : AuditEntry). e.link)

abbrev pub row_links : List AuditLedgerEntry → List Link
row_links = map (λ (e : AuditLedgerEntry). e.link)

module _ (h : Hasher) where
  -- The text that is hashed: previous_hash|canonical|timestamp.
  abbrev pub digest_input : String → Payload → String → String
  digest_input previous payload timestamp =
      previous ++ ("|" ++ (h.dumps payload ++ ("|" ++ timestamp)))

  unfoldable pub compute_entry_hash : String → Payload → String → String
  compute_entry_hash previous payload timestamp = h.sha256 (digest_input previous payload timestamp)

  -- The link that `build_entry` and `PgAuditLedger.append` make, at the clock's time.
  unfoldable pub build_link : String → Payload → String → Link
  build_link now payload previous = record {
    payload = payload;
    previous_hash = previous;
    timestamp = now;
    entry_hash = compute_entry_hash previous payload now;
  }

  unfoldable pub build_entry : String → String → String → String → Payload → String → AuditEntry
  build_entry now entry_id session_id event_type payload previous = record {
    link = build_link now payload previous;
    entry_id = entry_id;
    session_id = session_id;
    event_type = event_type;
  }

  -- The loop of `verify_chain` and of `PgAuditLedger.verify`, from an expected previous hash.
  unfoldable pub verify_from : String → List Link → Bool
  verify_from expected [] = true
  verify_from expected (link ∷ links) =
      let rest = verify_from link.entry_hash links in
      if not (str_eq link.previous_hash expected)
      then false
      else if not (
          str_eq (compute_entry_hash link.previous_hash link.payload link.timestamp)
            link.entry_hash)
      then false
      else rest

  unfoldable pub verify_chain : List AuditEntry → Bool
  verify_chain entries = verify_from genesis_hash (entry_links entries)

-- The in-process `AuditLedger`.
pub record AuditLedger : Type 0 where
  pub entries : List AuditEntry
  pub last : String

abbrev pub empty_ledger : AuditLedger
empty_ledger = record { entries = []; last = genesis_hash }

module _ (h : Hasher) where
  unfoldable pub append :
      String → String → String → String → Payload → AuditLedger → AuditLedger × AuditEntry
  append now entry_id session_id event_type payload ledger =
      let entry = build_entry h now entry_id session_id event_type payload ledger.last in
      (record { entries = append_list ledger.entries (entry ∷ []); last = entry.entry_hash }, entry)

  unfoldable pub verify : AuditLedger → Bool
  verify ledger = verify_chain h ledger.entries

-- The table of `PgAuditLedger`, in the order of its identity column `seq`. The advisory lock
-- serialises the appends, so each reads the row that the one before it wrote.
abbrev pub Table : Type 0
Table = List AuditLedgerEntry

module _ (h : Hasher) where
  unfoldable pub pg_append :
      String
      → String
      → Option String
      → String
      → Payload
      → Option String
      → Table
      → Table × AuditLedgerEntry
  pg_append now id session_id event_type payload reference rows =
      let row : AuditLedgerEntry = record {
        link = build_link h now payload (last_hash genesis_hash (row_links rows));
        id = id;
        session_id = session_id;
        event_type = event_type;
        entity_reference = reference;
      } in
      (append_list rows (row ∷ []), row)

  unfoldable pub pg_verify : Table → Bool
  pg_verify rows = verify_from h genesis_hash (row_links rows)

unfoldable pub pg_count : Table → ℕ
pg_count rows = length rows
