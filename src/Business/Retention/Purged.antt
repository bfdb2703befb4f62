-- ===== src/Business/Retention/Purged.antt =====
-- What a retention run leaves, and what a second one finds.
use livekit_agent.Base.{
  String, ◌≡◌, refl, sym, ap, subst, ◌∙◌, Bool, true, false, none, some, List, [], ◌∷◌, ◌++◌,
  length, map, keep, All, member, arith, if◌then◌else◌, Bool-cases, inl, inr,
}
use livekit_agent.Base.Int.{ℤ}
use livekit_agent.Audit.Ledger.{Table, AuditLedgerEntry, pg_append, pg_verify}
use livekit_agent.Audit.Chain.{pg_append-verified}
use livekit_agent.Persistence.Conversation.{CallSession, Turn}
use livekit_agent.Business.Retention.{
  purged, RetentionReport, JobEnv, audio_urls, report_payload, cutoff_date, old_ids, has_text,
  is_due, anonymize, forget_audio, Stores, purge, retain, run_retention,
}
use livekit_agent.Business.Retention.Recordings.{
  recordings, Deleted, asked_of, audio_urls-recordings, asked-Deleted, nothing-Deleted,
  no_ids-recordings,
}

-- A session of an old id has no recording left, and a turn of one no text.
abbrev pub TurnsPurged : List String → List Turn → Type 0
TurnsPurged ids =
    All (λ (t : Turn). member t.session_id ids ≡ true → has_text t.transcript_masked ≡ false)

abbrev pub AudioPurged : List String → List CallSession → Type 0
AudioPurged ids = All (λ (s : CallSession). member s.id ids ≡ true → s.audio_record_url ≡ none)

abbrev forget : Bool → CallSession → CallSession
forget b s = if b then record s { audio_record_url = none } else s

forget_twice : (b : Bool) (s : CallSession) → forget b (forget b s) ≡ forget b s
forget_twice true s = refl
forget_twice false s = refl

module _ (ids : List String) where
  -- One row is updated once.
  is_due-anonymize : (t : Turn) → is_due ids (anonymize ids t) ≡ false
  is_due-anonymize t = elim (Bool-cases (is_due ids t)) [
    | inl e ↦
        subst
          (λ b. is_due ids (if b then record t { transcript_masked = some purged } else t) ≡ false)
          (sym e) (ground arith)
    | inr e ↦
        subst
          (λ b. is_due ids (if b then record t { transcript_masked = some purged } else t) ≡ false)
          (sym e) e
  ]

  anonymize_undue : (t : Turn) → is_due ids t ≡ false → anonymize ids t ≡ t
  anonymize_undue t e = ap (λ b. if b then record t { transcript_masked = some purged } else t) e

  forget_audio_lem :
      (s : CallSession) → member s.id ids ≡ true → (forget_audio ids s).audio_record_url ≡ none
  forget_audio_lem s e = ap (λ b. (forget b s).audio_record_url) e

  forget_audio_id : (s : CallSession) → (forget_audio ids s).id ≡ s.id
  forget_audio_id s = elim (Bool-cases (member s.id ids)) [
    | inl e ↦ ap (λ b. (forget b s).id) e
    | inr e ↦ ap (λ b. (forget b s).id) e
  ]

  forget_audio_start : (s : CallSession) → (forget_audio ids s).start_time ≡ s.start_time
  forget_audio_start s = elim (Bool-cases (member s.id ids)) [
    | inl e ↦ ap (λ b. (forget b s).start_time) e
    | inr e ↦ ap (λ b. (forget b s).start_time) e
  ]

  TurnsPurged-anonymize : (turns : List Turn) → TurnsPurged ids (map (anonymize ids) turns)
  TurnsPurged-anonymize [] = tt
  TurnsPurged-anonymize (t ∷ turns) =
      ((λ e. ground (arith, is_due-anonymize t, e)), TurnsPurged-anonymize turns)

  AudioPurged-forget :
      (sessions : List CallSession) → AudioPurged ids (map (forget_audio ids) sessions)
  AudioPurged-forget [] = tt
  AudioPurged-forget (s ∷ sessions) = (
    (λ e. forget_audio_lem s (sym (ap (λ i. member i ids) (forget_audio_id s)) ∙ e)),
    AudioPurged-forget sessions,
  )

  -- A second update finds nothing, and changes nothing.
  anonymize-anonymize :
      (turns : List Turn)
      → map (anonymize ids) (map (anonymize ids) turns) ≡ map (anonymize ids) turns
  anonymize-anonymize [] = refl
  anonymize-anonymize (t ∷ turns) =
      λ i. anonymize_undue (anonymize ids t) (is_due-anonymize t) i ∷ anonymize-anonymize turns i

  due-anonymize : (turns : List Turn) → keep (is_due ids) (map (anonymize ids) turns) ≡ []
  due-anonymize [] = refl
  due-anonymize (t ∷ turns) =
      let rest = keep (is_due ids) (map (anonymize ids) turns) in
      ap (λ (b : Bool). elim b [ true ↦ anonymize ids t ∷ rest | false ↦ rest ])
        (is_due-anonymize t)
      ∙ due-anonymize turns

  forget-forget :
      (sessions : List CallSession)
      → map (forget_audio ids) (map (forget_audio ids) sessions) ≡ map (forget_audio ids) sessions
  forget-forget [] = refl
  forget-forget (s ∷ sessions) =
      let once : forget_audio ids (forget_audio ids s) ≡ forget_audio ids s =
        ap (λ i. forget (member i ids) (forget_audio ids s)) (forget_audio_id s)
        ∙ forget_twice (member s.id ids) s in
      λ i. once i ∷ forget-forget sessions i

  old_ids-forget :
      (cutoff : ℤ) (sessions : List CallSession)
      → old_ids cutoff (map (forget_audio ids) sessions) ≡ old_ids cutoff sessions
  old_ids-forget cutoff [] = refl
  old_ids-forget cutoff (s ∷ sessions) =
      ground (arith, forget_audio_id s, forget_audio_start s, old_ids-forget cutoff sessions)

no_ids-TurnsPurged : (turns : List Turn) → TurnsPurged [] turns
no_ids-TurnsPurged [] = tt
no_ids-TurnsPurged (t ∷ turns) = ((λ e. cc e), no_ids-TurnsPurged turns)

no_ids-AudioPurged : (sessions : List CallSession) → AudioPurged [] sessions
no_ids-AudioPurged [] = tt
no_ids-AudioPurged (s ∷ sessions) = ((λ e. cc e), no_ids-AudioPurged sessions)

no_ids-due : (turns : List Turn) → keep (is_due []) turns ≡ []
no_ids-due [] = refl
no_ids-due (t ∷ turns) = no_ids-due turns

-- What the run adds to the audit trail: one entry when it matched a session, else none.
abbrev pub AuditGrown : List String → Table → Table → Type 0
AuditGrown [] before after = after ≡ before
AuditGrown (id ∷ ids) before after =
    (entry : AuditLedgerEntry) × (after ≡ before ++ entry ∷ [])
    × (entry.event_type ≡ "data_retention")

-- What a run leaves of the sessions with these ids, and of all else.
pub record IsPurged (env : JobEnv) (ids : List String) (s : Stores) (end : RetentionReport × Stores)
    : Type 0 where
  pub no_text : TurnsPurged ids end.1.db.turns
  pub no_audio : AudioPurged ids end.1.db.sessions
  pub counted : end.0.turns_anonymized ≡ length (keep (is_due ids) s.db.turns)
  pub chain : pg_verify env.hasher s.db.audit ≡ true → pg_verify env.hasher end.1.db.audit ≡ true
  pub turns : end.1.db.turns ≡ map (anonymize ids) s.db.turns
  pub sessions : end.1.db.sessions ≡ map (forget_audio ids) s.db.sessions
  pub audit : AuditGrown ids s.db.audit end.1.db.audit
  pub customers : end.1.db.customers ≡ s.db.customers
  pub subscriptions : end.1.db.subscriptions ≡ s.db.subscriptions
  pub sentiments : end.1.db.sentiments ≡ s.db.sentiments
  pub escalations : end.1.db.escalations ≡ s.db.escalations
  pub callbacks : end.1.db.callbacks ≡ s.db.callbacks
  pub consents : end.1.db.consents ≡ s.db.consents
  pub blobs :
      Deleted env.store (asked_of env.store (recordings ids s.db.sessions)) s.blobs end.1.blobs

map_none {ℓ} : {A : Type ℓ} (f : A → A) → ((a : A) → f a ≡ a) → (xs : List A) → xs ≡ map f xs
map_none f h [] = refl
map_none f h (x ∷ xs) = λ i. sym (h x) i ∷ map_none f h xs i

retain-IsPurged :
    (env : JobEnv) (cutoff : ℤ) (ids : List String) (s : Stores)
    → IsPurged env ids s (retain env cutoff ids false s)
unfolding retain purge pg_append
retain-IsPurged env cutoff [] s = record {
  no_text = no_ids-TurnsPurged s.db.turns;
  no_audio = no_ids-AudioPurged s.db.sessions;
  counted = sym (ap length (no_ids-due s.db.turns));
  chain = λ v. v;
  turns = map_none (anonymize []) (λ t. refl) s.db.turns;
  sessions = map_none (forget_audio []) (λ t. refl) s.db.sessions;
  audit = refl;
  customers = refl;
  subscriptions = refl;
  sentiments = refl;
  escalations = refl;
  callbacks = refl;
  consents = refl;
  blobs =
      subst (λ urls. Deleted env.store (asked_of env.store urls) s.blobs s.blobs)
        (sym (no_ids-recordings s.db.sessions))
        (nothing-Deleted env.store env.store.enabled s.blobs);
}
retain-IsPurged env cutoff (id ∷ ids) s = record {
  no_text = TurnsPurged-anonymize (id ∷ ids) s.db.turns;
  no_audio = AudioPurged-forget (id ∷ ids) s.db.sessions;
  counted = refl;
  chain = λ v. (pg_append-verified env.hasher _ _ _ _ _ _ s.db.audit v).0;
  turns = refl;
  sessions = refl;
  audit = (
    (pg_append env.hasher env.audit_now env.audit_id none "data_retention"
        (report_payload (env.isoformat cutoff) (length (id ∷ ids))
          (length (keep (is_due (id ∷ ids)) s.db.turns)))
        (some "retention_job") s.db.audit).1,
    refl,
    refl,
  );
  customers = refl;
  subscriptions = refl;
  sentiments = refl;
  escalations = refl;
  callbacks = refl;
  consents = refl;
  blobs =
      subst
        (λ urls.
          Deleted env.store (asked_of env.store urls) s.blobs
            (retain env cutoff (id ∷ ids) false s).1.blobs)
        (audio_urls-recordings (id ∷ ids) s.db.sessions)
        (asked-Deleted env.store env.store.enabled (audio_urls (id ∷ ids) s.db.sessions) s.blobs);
}

pub run_retention-IsPurged :
    (env : JobEnv) (days : ℤ) (s : Stores)
    → IsPurged env
        (old_ids (cutoff_date days env.now) s.db.sessions)
        s
        (run_retention env days false s)
unfolding run_retention
run_retention-IsPurged env days s = retain-IsPurged env _ _ s

-- The end of a second run, against the first one's.
record FindsNothing (first second : RetentionReport × Stores) : Type 0 where
  pub matched : second.0.sessions_matched ≡ first.0.sessions_matched
  pub nothing : second.0.turns_anonymized ≡ 0
  pub turns : second.1.db.turns ≡ first.1.db.turns
  pub sessions : second.1.db.sessions ≡ first.1.db.sessions

retain_matched :
    (env : JobEnv) (cutoff : ℤ) (ids : List String) (s : Stores)
    → (retain env cutoff ids false s).0.sessions_matched ≡ length ids
unfolding retain
retain_matched env cutoff ids s = refl

retain_again :
    (env : JobEnv) (cutoff : ℤ) (ids : List String) (s : Stores) (first : RetentionReport × Stores)
    → IsPurged env ids s first
    → first.0.sessions_matched ≡ length ids
    → FindsNothing first (retain env cutoff ids false first.1)
retain_again env cutoff ids s first p m =
    let q = retain-IsPurged env cutoff ids first.1 in
    record {
      matched = retain_matched env cutoff ids first.1 ∙ sym m;
      nothing =
          q.counted
          ∙ ap (λ ts. length (keep (is_due ids) ts)) p.turns
          ∙ ap length (due-anonymize ids s.db.turns);
      turns =
          q.turns
          ∙ ap (map (anonymize ids)) p.turns
          ∙ anonymize-anonymize ids s.db.turns
          ∙ sym p.turns;
      sessions =
          q.sessions
          ∙ ap (map (forget_audio ids)) p.sessions
          ∙ forget-forget ids s.db.sessions
          ∙ sym p.sessions;
    }

-- A second run at the same time finds the same sessions and no turn to anonymise, and changes no
-- turn and no session.
run_retention_again :
    (env : JobEnv) (days : ℤ) (s : Stores)
    → let first = run_retention env days false s in
      FindsNothing first (run_retention env days false first.1)
unfolding run_retention
run_retention_again env days s =
    let cutoff = cutoff_date days env.now in
    let ids = old_ids cutoff s.db.sessions in
    let first = retain env cutoff ids false s in
    let p = retain-IsPurged env cutoff ids s in
    let same : old_ids cutoff first.1.db.sessions ≡ ids =
      ap (old_ids cutoff) p.sessions ∙ old_ids-forget ids cutoff s.db.sessions in
    subst (λ found. FindsNothing first (retain env cutoff found false first.1)) (sym same)
      (retain_again env cutoff ids s first p (retain_matched env cutoff ids s))
