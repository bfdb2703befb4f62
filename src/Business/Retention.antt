-- ===== src/Business/Retention.antt =====
-- apps/business-api/src/business_api/jobs/retention.py. Times are microseconds.
pub mod Recordings
pub mod Purged
use livekit_agent.Base.{
  ℕ, suc, String, ◌+◌, ◌-◌, ◌*◌, Bool, true, false, not, ◌&&◌, ◌||◌, Option, none, some, List, [],
  ◌∷◌, ◌++◌, length, map, keep, any, str_eq, member, leb, ltb, ◌==◌, if◌then◌else◌,
}
use livekit_agent.Base.Int.{ℤ, pos, negsuc, ◌-ℤ◌, ltb_ℤ}
use livekit_agent.Base.Json.{str, int, Payload}
use livekit_agent.Audit.Ledger.{Hasher, pg_append}
use livekit_agent.Persistence.Conversation.{CallSession, Turn, Conversations}

-- `_PURGED`
abbrev pub purged : String
purged = "[purged]"

pub record RetentionReport : Type 0 where
  pub cutoff : String
  pub sessions_matched : ℕ
  pub turns_anonymized : ℕ
  pub dry_run : Bool

-- The store of recordings: what is in it, and what a deletion leaves, `none` when it raises.
pub record BlobStore : Type 0 where
  pub enabled : Bool
  pub delete : String → List String → Option (List String)

-- What a run meets: the clock, the audit trail's clock and id, and how a time is printed.
pub record JobEnv : Type 0 where
  pub hasher : Hasher
  pub now : ℕ
  pub isoformat : ℤ → String
  pub audit_now : String
  pub audit_id : String
  pub store : BlobStore

abbrev pub day : ℕ
day = 86400000000

-- `timedelta(days=retention_days)`: a negative number of days is a negative time.
abbrev pub time_of : ℤ → ℤ
time_of (pos n) = pos (n * day)
time_of (negsuc n) = negsuc (suc n * day - 1)

-- `cutoff_date`
unfoldable pub cutoff_date : ℤ → ℕ → ℤ
cutoff_date retention_days now = pos now -ℤ time_of retention_days

abbrev pub is_old : ℤ → CallSession → Bool
is_old cutoff s = ltb_ℤ (pos s.start_time) cutoff

abbrev pub ids_of : List CallSession → List String
ids_of = map (λ (s : CallSession). s.id)

-- The ids of the sessions that the first query selects.
abbrev pub old_ids : ℤ → List CallSession → List String
old_ids cutoff sessions = ids_of (keep (is_old cutoff) sessions)

-- A transcript that is there and not yet purged.
abbrev pub has_text : Option String → Bool
has_text none = false
has_text (some text) = not (str_eq text purged)

abbrev pub is_due : List String → Turn → Bool
is_due ids t = member t.session_id ids && has_text t.transcript_masked

-- The two updates of a row.
abbrev pub anonymize : List String → Turn → Turn
anonymize ids t = if is_due ids t then record t { transcript_masked = some purged } else t

abbrev pub forget_audio : List String → CallSession → CallSession
forget_audio ids s = if member s.id ids then record s { audio_record_url = none } else s

-- The recordings that the third query selects.
abbrev pub audio_urls : List String → List CallSession → List String
audio_urls ids [] = []
audio_urls ids (s ∷ sessions) =
    let rest = audio_urls ids sessions in
    if member s.id ids
    then elim s.audio_record_url [ none ↦ rest | some url ↦ url ∷ rest ]
    else rest

-- The loop that deletes them; what raises is passed over.
abbrev pub delete_all : BlobStore → List String → List String → List String
delete_all store [] blobs = blobs
delete_all store (url ∷ urls) blobs = elim (store.delete url blobs) [
  | none ↦ delete_all store urls blobs
  | some blobs' ↦ delete_all store urls blobs'
]

abbrev pub report_payload : String → ℕ → ℕ → Payload
report_payload cutoff matched count =
    ("cutoff", str cutoff)
    ∷ ("sessions", int (pos matched))
    ∷ ("turns_anonymized", int (pos count))
    ∷ []

-- `matched` as a truth value
abbrev pub has_some : List String → Bool
has_some [] = false
has_some (id ∷ ids) = true

-- The database and the recordings.
pub record Stores : Type 0 where
  pub db : Conversations
  pub blobs : List String

module _ (env : JobEnv) where
  -- The part under `if not dry_run and matched`.
  unfoldable pub purge : ℤ → List String → ℕ → Stores → Stores
  purge cutoff ids count s = record {
    db = record s.db {
      turns = map (anonymize ids) s.db.turns;
      sessions = map (forget_audio ids) s.db.sessions;
      audit =
          (pg_append env.hasher env.audit_now env.audit_id none "data_retention"
            (report_payload (env.isoformat cutoff) (length ids) count) (some "retention_job")
            s.db.audit).0;
    };
    blobs =
        if env.store.enabled
        then delete_all env.store (audio_urls ids s.db.sessions) s.blobs
        else s.blobs;
  }

  -- What follows the first query.
  unfoldable pub retain : ℤ → List String → Bool → Stores → RetentionReport × Stores
  retain cutoff ids dry_run s =
      let runs = not dry_run && has_some ids in
      let count = if runs then length (keep (is_due ids) s.db.turns) else 0 in
      (
        record {
          cutoff = env.isoformat cutoff;
          sessions_matched = length ids;
          turns_anonymized = count;
          dry_run = dry_run;
        },
        if runs then purge cutoff ids count s else s,
      )

  -- `run_retention`
  unfoldable pub run_retention : ℤ → Bool → Stores → RetentionReport × Stores
  run_retention retention_days dry_run s =
      let cutoff = cutoff_date retention_days env.now in
      retain cutoff (old_ids cutoff s.db.sessions) dry_run s
