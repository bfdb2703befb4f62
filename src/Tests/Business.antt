-- ===== src/Tests/Business.antt =====
-- The back office at concrete inputs.
use livekit_agent.Base.{◌≡◌, refl, true, false, none, some, [], ◌∷◌}
use livekit_agent.Base.Int.{pos, negsuc, ◌-ℤ◌}
use livekit_agent.Worker.Conversation.{opening_row}
use livekit_agent.Business.Retention.{JobEnv, Stores, cutoff_date, purge, retain, run_retention}
use livekit_agent.Tests.Fixtures.{hasher, uuids}
use livekit_agent.Tests.Conversation.{no_calls, caller}

abbrev pub job : JobEnv
job = record {
  hasher = hasher;
  now = 864000000000;
  isoformat = λ t. "cutoff";
  audit_now = "t";
  audit_id = "a";
  store = record { enabled = true; delete = λ url blobs. none };
}

-- One session that started at 5 microseconds, with a turn and a recording.
abbrev pub old_call : Stores
old_call = record {
  db = record no_calls {
    sessions = record (opening_row uuids "s1" 5 caller) { audio_record_url = some "minio/a" } ∷ [];
    turns =
        record {
          session_id = "s1";
          turn_index = 1;
          speaker = "caller";
          active_agent = none;
          detected_language = none;
          transcript_masked = some "Bonjour";
          detected_intent = none;
        }
        ∷ [];
  };
  blobs = "a" ∷ [];
}

purged_once : (run_retention job (pos 9) false old_call).0.turns_anonymized ≡ 1
unfolding run_retention retain purge cutoff_date ◌-ℤ◌
purged_once = refl

too_young : (run_retention job (pos 10) false old_call).0.sessions_matched ≡ 0
unfolding run_retention retain purge cutoff_date ◌-ℤ◌
too_young = refl

-- A negative number of days: the cutoff lies in the future, and every call is purged.
young_purged : (run_retention job (negsuc 0) false old_call).0.sessions_matched ≡ 1
unfolding run_retention retain purge cutoff_date ◌-ℤ◌
young_purged = refl
