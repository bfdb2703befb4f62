-- ===== src/Worker/Call/Heard.antt =====
-- What a whole call leaves in the transcript.
use livekit_agent.Base.{ℕ, suc, ◌≡◌, refl, true, Option, none, some, List, [], ◌∷◌, ◌++◌}
use livekit_agent.Audit.Ledger.{Hasher}
use livekit_agent.Persistence.Conversation.{Conversations}
use livekit_agent.Worker.Conversation.{Item}
use livekit_agent.Worker.Conversation.Drain.{WriteEnv, drain, fits}
use livekit_agent.Worker.Hooks.{Texts}
use livekit_agent.Worker.Call.{Moment, turned}

module _ (texts : Texts) where
  -- The persona names fit their column.
  abbrev pub IsNamed : Moment → Type 0
  IsNamed (turned agent m) = fits 40 (some agent) ≡ true
  IsNamed m = Unit

-- The `None` at the end of a queue changes nothing.
pub drain-aclose :
    (h : Hasher) (envs : ℕ → WriteEnv) (q : List (Option Item)) (db : Conversations)
    → drain h envs (q ++ none ∷ []) db ≡ drain h envs q db
unfolding drain
drain-aclose h envs [] db = refl
drain-aclose h envs (none ∷ q) db = refl
drain-aclose h envs (some item ∷ q) db = drain-aclose h (λ i. envs (suc i)) q _
