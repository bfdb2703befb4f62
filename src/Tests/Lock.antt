-- ===== src/Tests/Lock.antt =====
-- Two transactions at once: the first appends while the second is rolled back.
use livekit_agent.Base.{◌≡◌, refl, true, none, some, [], ◌∷◌, ◌++◌, inl, keep, map}
use livekit_agent.Audit.Ledger.{pg_append, pg_verify, genesis_hash}
use livekit_agent.Audit.Lock.{
  Append, outside, locked, looked, System, is_kept, rows_of, on_file, previous_hash_for, release,
  commit_row, at, new_row, Step, take_lock, look, insert_row, commit, rollback, init, Reach, start,
  later,
}
use livekit_agent.Audit.Lock.Grown.{Extends, Step-IsLedger, insert_row-pg_append}
use livekit_agent.Tests.Fixtures.{hasher}

abbrev entry : Append
entry = record {
  now = "t";
  id = "e";
  session_id = none;
  event_type = "policy_verdict";
  payload = [];
  reference = none;
}

abbrev s1 : System
s1 = record init { lock = some 0; point = at 0 (locked entry) init.point }

abbrev s2 : System
s2 = record s1 { point = at 0 (looked entry (previous_hash_for 0 s1.table)) s1.point }

abbrev s3 : System
s3 = record s2 {
  table = keep (is_kept 1) s2.table;
  lock = release 1 s2.lock;
  point = at 1 outside s2.point;
}

abbrev s4 : System
s4 = record s3 {
  table = s3.table ++ record { row = new_row hasher entry genesis_hash; writer = some 0 } ∷ [];
  point = at 0 outside s3.point;
}

abbrev s5 : System
s5 = record s4 { table = map (commit_row 0) s4.table; lock = release 0 s4.lock }

reached : Reach hasher s3
reached =
    later (later (later start (take_lock 0 entry refl (inl refl))) (look 0 entry refl)) (rollback 1)

inserted : Reach hasher s4
inserted = later reached (insert_row 0 entry genesis_hash refl)

committed : Step hasher s4 s5
committed = commit 0 refl

shown : (on_file s4 ≡ []) × (on_file s5 ≡ new_row hasher entry genesis_hash ∷ [])
shown = (refl, refl)

Step-IsLedger_example : (pg_verify hasher (on_file s5) ≡ true) × Extends (on_file s4) (on_file s5)
Step-IsLedger_example = Step-IsLedger hasher inserted committed

insert_row-pg_append_example :
    rows_of (s3.table ++ record { row = new_row hasher entry genesis_hash; writer = some 0 } ∷ [])
    ≡ (pg_append hasher "t" "e" none "policy_verdict" [] none (rows_of s3.table)).0
insert_row-pg_append_example = insert_row-pg_append hasher 0 entry genesis_hash reached refl
