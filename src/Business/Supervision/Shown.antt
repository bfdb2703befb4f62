-- ===== src/Business/Supervision/Shown.antt =====
-- What a supervisor is shown of a call that the worker recorded.
use livekit_agent.Base.{ℕ, suc, String, ◌≡◌, Bool, true, some, List, [], ◌∷◌, str_eq, if◌then◌else◌}
use livekit_agent.Audit.Ledger.{Hasher}
use livekit_agent.Persistence.Conversation.{Turn, Conversations}
use livekit_agent.Worker.Conversation.Drain.{WriteEnv, has_session}
use livekit_agent.Worker.Conversation.Events.{Event, spoke}
use livekit_agent.Business.Supervision.{TurnLine}

abbrev of_session : String → Turn → Bool
of_session id t = str_eq t.session_id id

abbrev number : Turn → ℕ
number t = t.turn_index

module _ (h : Hasher) (id : String) where
  -- Once a session is on file it stays there.
  abbrev Kept : Conversations → Type 0
  Kept db = has_session id db.sessions ≡ true

-- The lines that a supervisor is to be shown: each spoken turn whose write met Postgres up, with its
-- number, its speaker, its persona and its masked text.
abbrev pub spoken_lines : (String → String) → (ℕ → WriteEnv) → ℕ → List Event → List TurnLine
spoken_lines mask envs n [] = []
spoken_lines mask envs n (spoke s ∷ es) =
    let rest = spoken_lines mask (λ i. envs (suc i)) (suc n) es in
    if (envs 0).is_up
    then record {
      index = suc n;
      speaker = s.speaker;
      agent = s.active_agent;
      text = some (mask s.text);
    }
      ∷ rest
    else rest
spoken_lines mask envs n (e ∷ es) = spoken_lines mask (λ i. envs (suc i)) n es
