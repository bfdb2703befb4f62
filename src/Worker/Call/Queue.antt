-- ===== src/Worker/Call/Queue.antt =====
-- What a whole call puts on the writer's queue.
use livekit_agent.Base.{
  ℕ, String, ◌≡◌, refl, sym, ap, ◌∙◌, true, Option, none, some, List, [], ◌∷◌, ◌++◌,
}
use livekit_agent.Persistence.Uuid.{UuidLib}
use livekit_agent.Worker.Session.{SessionUserData}
use livekit_agent.Worker.Sentiment.Streak.{score_all}
use livekit_agent.Worker.Conversation.{
  ConversationWriter, new_writer, start_session, finish_session, aclose,
}
use livekit_agent.Worker.Conversation.Events.{
  Event, escalated, called_back, consented, finished, perform, perform_all,
}
use livekit_agent.Worker.Hooks.{Live, Texts, on_writer}
use livekit_agent.Worker.Hooks.Heard.{hear_all-Done, said, heard}
use livekit_agent.Worker.Handoffs.{
  trigger_for, dossier_of, customer_of, line_of, escalate_to_manager, answer_consent,
  schedule_callback, transfer_to_human,
}
use livekit_agent.Worker.Call.{
  caller_of, open_conversation, peak, finish_conversation, Moment, turned, manager_asked,
  consent_answered, human_asked, live_moment, live_all,
}
use livekit_agent.Notify.{Outbox}
use livekit_agent.Notify.Clients.{NetEnv}

module _ (texts : Texts) where
  -- What a moment makes of the user data, and the calls of the writer.
  abbrev pub user_after : Moment → SessionUserData → SessionUserData
  user_after (turned agent m) user = score_all texts.lower (said texts ((agent, m) ∷ [])) user
  user_after manager_asked user = user
  user_after (consent_answered granted) user = record user { recording_consent = some granted }
  user_after (human_asked sip_works now none) user = user
  user_after (human_asked sip_works now (some time)) user = record user {
    callback_requested = true;
    callback_when = some time;
  }

  abbrev pub events_of : Moment → SessionUserData → List Event
  events_of (turned agent m) user = heard texts user.language ((agent, m) ∷ [])
  events_of manager_asked user =
      escalated (trigger_for user) "manager_agent" (dossier_of user) (customer_of user) ∷ []
  events_of (consent_answered granted) user =
      consented granted (some user.language) (customer_of user) ∷ []
  events_of (human_asked sip_works now none) user = []
  events_of (human_asked sip_works now (some time)) user =
      called_back now (customer_of user) (line_of user) none 1 ∷ []

  abbrev pub user_after_all : List Moment → SessionUserData → SessionUserData
  user_after_all [] user = user
  user_after_all (m ∷ ms) user = user_after_all ms (user_after m user)

  abbrev pub events : List Moment → SessionUserData → List Event
  events [] user = []
  events (m ∷ ms) user = events_of m user ++ events ms (user_after m user)

  -- The close of the record.
  abbrev pub close_event : ℕ → SessionUserData → Event
  close_event end user = finished end none (peak user.sentiment_history) user.recording_consent

  abbrev pub call_events : List Moment → ℕ → SessionUserData → List Event
  call_events ms end user = events ms user ++ close_event end (user_after_all ms user) ∷ []

  perform_all-append :
      (uuids : UuidLib) (es fs : List Event) (w : ConversationWriter)
      → perform_all texts.mask uuids (es ++ fs) w
        ≡ perform_all texts.mask uuids fs (perform_all texts.mask uuids es w)
  unfolding perform_all
  perform_all-append uuids [] fs w = refl
  perform_all-append uuids (e ∷ es) fs w =
      perform_all-append uuids es fs (perform texts.mask uuids e w)

  module _ (uuids : UuidLib) (net : NetEnv) where
    abbrev Done : Live → SessionUserData → List Event → Live → Type 0
    Done before user es after =
        (after.user ≡ user)
        × (after.writer ≡ on_writer (perform_all texts.mask uuids es) before.writer)

    same_writer :
        (o : Option ConversationWriter) → o ≡ on_writer (perform_all texts.mask uuids []) o
    unfolding perform_all
    same_writer none = refl
    same_writer (some w) = refl

    on_writer-append :
        (es fs : List Event) (o : Option ConversationWriter)
        → on_writer
            (perform_all texts.mask uuids fs)
            (on_writer (perform_all texts.mask uuids es) o)
          ≡ on_writer (perform_all texts.mask uuids (es ++ fs)) o
    on_writer-append es fs none = refl
    on_writer-append es fs (some w) =
        ap (λ (v : ConversationWriter). some v) (sym (perform_all-append uuids es fs w))

    live_moment-Done :
        (m : Moment) (live : Live) (o : Outbox)
        → Done live
            (user_after m live.user)
            (events_of m live.user)
            (live_moment texts uuids net m (live, o)).0
    unfolding escalate_to_manager answer_consent transfer_to_human schedule_callback perform_all
        perform
    live_moment-Done (turned agent m) live o = hear_all-Done texts uuids ((agent, m) ∷ []) live
    live_moment-Done manager_asked live o = (refl, refl)
    live_moment-Done (consent_answered granted) live o = (refl, refl)
    live_moment-Done (human_asked sip_works now none) live o = (refl, same_writer live.writer)
    live_moment-Done (human_asked sip_works now (some time)) live o = (refl, refl)

    live_all-Done :
        (ms : List Moment) (live : Live) (o : Outbox)
        → Done live
            (user_after_all ms live.user)
            (events ms live.user)
            (live_all texts uuids net ms (live, o)).0
    live_all-Done [] live o = (refl, same_writer live.writer)
    live_all-Done (m ∷ ms) live o =
        let s = live_moment texts uuids net m (live, o) in
        let (user, writer) = live_moment-Done m live o in
        let (user', writer') = live_all-Done ms s.0 s.1 in
        (
          user' ∙ ap (user_after_all ms) user,
          writer'
              ∙ ap (λ v. on_writer (perform_all texts.mask uuids (events ms v)) s.0.writer) user
              ∙ ap (on_writer (perform_all texts.mask uuids (events ms (user_after m live.user))))
                  writer
              ∙ on_writer-append (events_of m live.user) (events ms (user_after m live.user))
                  live.writer,
        )

    -- The queue of a whole call: what happened, the close, and the end of the task.
    pub call_writer :
        (id : String) (now end : ℕ) (setting room : Option String) (ms : List Moment)
        (user : SessionUserData) (o : Outbox)
        → (finish_conversation end
            (live_all texts uuids net ms
              (open_conversation uuids id now setting room user, o)).0).writer
          ≡ some (
              aclose (
                perform_all texts.mask uuids
                  (call_events ms end user)
                  (start_session uuids id now (caller_of setting room user) new_writer)))
    unfolding finish_conversation open_conversation perform_all perform
    call_writer id now end setting room ms user o =
        let opened = start_session uuids id now (caller_of setting room user) new_writer in
        let live =
          (live_all texts uuids net ms (open_conversation uuids id now setting room user, o)).0 in
        let (u, w) = live_all-Done ms (record { user = user; writer = some opened }) o in
        ap
          (λ v.
            on_writer
              (λ x.
                aclose (finish_session end none (peak v.sentiment_history) v.recording_consent x))
              live.writer)
          u
        ∙ ap
            (on_writer λ x.
              aclose
                (perform_all texts.mask uuids (close_event end (user_after_all ms user) ∷ []) x))
            w
        ∙ ap (λ x. some (aclose x))
            (sym (
              perform_all-append uuids (events ms user)
                (close_event end (user_after_all ms user) ∷ []) opened))
