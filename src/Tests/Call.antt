-- ===== src/Tests/Call.antt =====
-- A call from its opening to its shutdown.
use livekit_agent.Base.{◌≡◌, refl, true, none, some, [], ◌∷◌, ◌++◌, List}
use livekit_agent.Base.Int.{ℤ, pos}
use livekit_agent.Persistence.Uuid.{to_uuid}
use livekit_agent.Worker.Conversation.{ConversationWriter, opening_row}
use livekit_agent.Worker.Conversation.Drain.{can_start, drain}
use livekit_agent.Worker.Hooks.{Content, extract_text}
use livekit_agent.Worker.Handoffs.{trigger_for}
use livekit_agent.Worker.Call.{
  caller_of, open_conversation, peak, finish_conversation, Moment, turned, manager_asked,
  consent_answered, human_asked, live_all,
}
use livekit_agent.Worker.Call.Queue.{user_after_all}
use livekit_agent.Persistence.Conversation.{CallSession}
use livekit_agent.Worker.Call.Ended.{IsClosedCall}
use livekit_agent.Worker.Call.Closed.{call-closed}
use livekit_agent.Notify.Clients.{NetEnv}
use livekit_agent.Tests.Fixtures.{hasher, uuids, session}
use livekit_agent.Tests.Conversation.{no_calls, down_at}
use livekit_agent.Tests.Hooks.{texts}
use livekit_agent.Tests.Notify.{env, outbox}

abbrev pub net : NetEnv
net = record { service = env; expected = some "k"; own = some "k"; is_reached = true }

abbrev moments : List Moment
moments =
    consent_answered true
    ∷ turned "TriageAgent" (record { text_content = some "nul"; content = Content.other })
    ∷ manager_asked
    ∷ human_asked true 7 none
    ∷ human_asked true 8 (some "demain")
    ∷ []

opens :
    can_start no_calls (opening_row uuids "s1" 5 (caller_of none (some "room-1") session)) ≡ true
unfolding to_uuid
opens = refl

triggered :
    (trigger_for session ≡ "hard_failure")
    × (trigger_for (record session { clarification_attempts = 2 }) ≡ "clarify_fail")
unfolding trigger_for
triggered = (refl, refl)

worst : (peak [] ≡ pos 0) × (peak (pos 500 ∷ ℤ.negsuc 999 ∷ pos 0 ∷ []) ≡ pos 1000)
unfolding peak
worst = (refl, refl)

call-closed_example :
    let live =
      finish_conversation 9000000
        (live_all texts uuids net moments
          (open_conversation uuids "s1" 5 none (some "room-1") session, outbox)).0 in
    let last = user_after_all texts moments session in
    (w : ConversationWriter) × (live.writer ≡ some w)
    × ((r : CallSession) × ((drain hasher (down_at 3) w.queue no_calls).sessions ≡ [] ++ r ∷ [])
        × IsClosedCall uuids "s1" 5 9000000
            (caller_of none (some "room-1") session)
            last.sentiment_history
            last.recording_consent
            r)
unfolding extract_text
call-closed_example =
    call-closed texts hasher uuids net (down_at 3) "s1" 5 9000000 none (some "room-1") moments
      session outbox no_calls refl opens refl refl
