-- ===== src/Tests/Audit.antt =====
-- The audit trail at concrete inputs.
use livekit_agent.Base.{◌≡◌, refl, ◌⊎◌, true, some, none, [], ◌∷◌, ◌++◌, String, arith, map, ◌+◌}
use livekit_agent.Base.Json.{Payload, str, int}
use livekit_agent.Base.Int.{pos}
use livekit_agent.Audit.Ledger.{
  Table, AuditLedgerEntry, genesis_hash, last_hash, row_links, pg_append, pg_verify, pg_count,
  verify_from, build_link, compute_entry_hash,
}
use livekit_agent.Audit.Chain.{pg_append-verified}
use livekit_agent.Audit.Tamper.{Collision, SameContent, pg_verify_tamper}
use livekit_agent.Tests.Fixtures.{hasher}

abbrev started : Payload
started = ("agent", str "billing") ∷ []

abbrev ended : Payload
ended = ("duration", int (pos 60)) ∷ []

abbrev row_of : String → Payload → Table → AuditLedgerEntry
row_of id payload rows = record {
  link = build_link hasher "2026-01-01T00:00:00" payload (last_hash genesis_hash (row_links rows));
  id = id;
  session_id = some "s1";
  event_type = "lifecycle";
  entity_reference = none;
}

abbrev first : AuditLedgerEntry
first = row_of "a1" started []

abbrev second : AuditLedgerEntry
second = row_of "a2" ended (first ∷ [])

abbrev rows : Table
rows = first ∷ second ∷ []

rows-verified : pg_verify hasher rows ≡ true
unfolding pg_verify verify_from build_link compute_entry_hash
rows-verified = refl

-- The same rows under another session.
abbrev relabelled : AuditLedgerEntry → AuditLedgerEntry
relabelled row = record row { session_id = some "s2" }

pg_append-verified_example :
    let (rows', row) = pg_append hasher "t" "a3" none "lifecycle" ended none rows in
    (pg_verify hasher rows' ≡ true)
    × (rows' ≡ rows ++ row ∷ [])
    × (pg_count rows' ≡ pg_count rows + 1)
    × (row.previous_hash ≡ last_hash genesis_hash (row_links rows))
pg_append-verified_example =
    pg_append-verified hasher "t" "a3" none "lifecycle" ended none rows rows-verified

relabelled-verified : pg_verify hasher (map relabelled rows) ≡ true
unfolding pg_verify verify_from build_link compute_entry_hash
relabelled-verified = refl

pg_verify_tamper_example :
    SameContent hasher (row_links rows) (row_links (map relabelled rows)) ⊎ Collision hasher
unfolding pg_count build_link
pg_verify_tamper_example =
    pg_verify_tamper hasher rows (map relabelled rows) refl rows-verified relabelled-verified refl
      (ground arith) (ground arith)
