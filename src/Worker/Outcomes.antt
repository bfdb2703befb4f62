-- ===== src/Worker/Outcomes.antt =====
-- tools/outcomes.py: what a sensitive tool returns.
use Prim.Native.String.{String, ◌++◌}
use livekit_agent.Base.{Bool}

pub data ToolOutcome : Type 0 where
  refused : String → String → ToolOutcome
  escalate : String → String → ToolOutcome
  executed : String → String → Bool → ToolOutcome
  failed : String → ToolOutcome

-- The English guidance in the key "message".
unfoldable pub message : ToolOutcome → String
message (refused rule_id reason) =
    "This request cannot be completed because: "
    ++ (reason ++ ". Offer an alternative if one exists.")
message (escalate rule_id reason) =
    "This needs a human specialist ("
    ++ (reason ++ "). Explain briefly, then call escalate_to_manager.")
message (executed action_type reference replay) =
    "The " ++ (action_type ++ (" was completed. Confirmation reference: " ++ (reference ++ ".")))
message (failed reason) =
    "The action could not be completed right now. Apologize briefly and offer to escalate."
