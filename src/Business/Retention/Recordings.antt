-- ===== src/Business/Retention/Recordings.antt =====
-- What a retention run asks of the store of recordings.
use livekit_agent.Base.{
  String, ◌≡◌, refl, sym, ap, ◌∙◌, Bool, true, false, Option, none, some, List, [], ◌∷◌, keep,
  member, if◌then◌else◌, Bool-cases, inl, inr,
}
use livekit_agent.Persistence.Conversation.{CallSession}
use livekit_agent.Business.Retention.{BlobStore, audio_urls, delete_all}

-- The recordings of the sessions with these ids, in the order of the table.
abbrev pub recorded_at : List CallSession → List String
recorded_at [] = []
recorded_at (s ∷ sessions) =
    let rest = recorded_at sessions in
    elim s.audio_record_url [ none ↦ rest | some url ↦ url ∷ rest ]

abbrev pub recordings : List String → List CallSession → List String
recordings ids sessions = recorded_at (keep (λ (s : CallSession). member s.id ids) sessions)

-- What the store of recordings comes to when it is asked to delete some of them, each once, in
-- order: a deletion that raises changes nothing.
pub data Deleted (store : BlobStore) : List String → List String → List String → Type 0 where
  done : (blobs : List String) → Deleted store [] blobs blobs
  raises :
      (url : String) (urls blobs end : List String)
      → store.delete url blobs ≡ none
      → Deleted store urls blobs end
      → Deleted store (url ∷ urls) blobs end
  deletes :
      (url : String) (urls blobs next end : List String)
      → store.delete url blobs ≡ some next
      → Deleted store urls next end
      → Deleted store (url ∷ urls) blobs end

abbrev pub asked_of : BlobStore → List String → List String
asked_of store urls = if store.enabled then urls else []

pub audio_urls-recordings :
    (ids : List String) (sessions : List CallSession)
    → audio_urls ids sessions ≡ recordings ids sessions
audio_urls-recordings ids [] = refl
audio_urls-recordings ids (s ∷ sessions) =
    let rest = audio_urls-recordings ids sessions in
    let with_url : List String → List String =
      λ urls. elim s.audio_record_url [ none ↦ urls | some url ↦ url ∷ urls ] in
    let kept = keep (λ (s : CallSession). member s.id ids) sessions in
    elim (Bool-cases (member s.id ids)) [
      | inl e ↦
          ap (λ b. if b then with_url (audio_urls ids sessions) else audio_urls ids sessions) e
          ∙ ap with_url rest
          ∙ ap (λ b. recorded_at (elim b [ true ↦ s ∷ kept | false ↦ kept ])) (sym e)
      | inr e ↦
          ap (λ b. if b then with_url (audio_urls ids sessions) else audio_urls ids sessions) e
          ∙ rest
          ∙ ap (λ b. recorded_at (elim b [ true ↦ s ∷ kept | false ↦ kept ])) (sym e)
    ]

delete_all-Deleted :
    (store : BlobStore) (urls blobs : List String)
    → Deleted store urls blobs (delete_all store urls blobs)
delete_all-Deleted store [] blobs = done blobs
delete_all-Deleted store (url ∷ urls) blobs =
    go (store.delete url blobs) refl (λ next. delete_all-Deleted store urls next)
  where
    go :
        (o : Option (List String))
        → store.delete url blobs ≡ o
        → ((next : List String) → Deleted store urls next (delete_all store urls next))
        → Deleted store (url ∷ urls) blobs (elim o [
          | none ↦ delete_all store urls blobs
          | some blobs' ↦ delete_all store urls blobs'
        ])
    go none e rest = raises url urls blobs _ e (rest blobs)
    go (some next) e rest = deletes url urls blobs next _ e (rest next)

pub asked-Deleted :
    (store : BlobStore) (on : Bool) (urls blobs : List String)
    → Deleted store
        (if on then urls else [])
        blobs
        (if on then delete_all store urls blobs else blobs)
asked-Deleted store true urls blobs = delete_all-Deleted store urls blobs
asked-Deleted store false urls blobs = done blobs

pub nothing-Deleted :
    (store : BlobStore) (on : Bool) (blobs : List String)
    → Deleted store (if on then [] else []) blobs blobs
nothing-Deleted store true blobs = done blobs
nothing-Deleted store false blobs = done blobs

pub no_ids-recordings : (sessions : List CallSession) → recordings [] sessions ≡ []
no_ids-recordings [] = refl
no_ids-recordings (s ∷ sessions) = no_ids-recordings sessions
