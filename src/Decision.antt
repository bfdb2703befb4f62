-- ===== src/Decision.antt =====
-- The decision service (services/decision-service): a candidate action with a confidence, in
-- thousandths.
use livekit_agent.Base.{ℕ, String, Bool, not, List, [], ◌∷◌, member, if◌then◌else◌}

abbrev pub known_actions : List String
known_actions =
    "EXECUTE_PAYMENT" ∷ "PAYMENT_DEFERRAL" ∷ "UNBLOCK_SIM" ∷ "REPLACE_SIM" ∷ "REACTIVATE_SIM"
    ∷ "TOP_UP" ∷ "CHANGE_PLAN" ∷ "ACTIVATE_ROAMING" ∷ []

pub record Decision : Type 0 where
  pub action : String
  pub confidence : ℕ
  pub rationale : String

-- `recommend`, with the truth of `context.get("identity_verified", False)`; 0.9 less 0.3 rounds
-- to 0.6.
unfoldable pub recommend : String → Bool → Decision
recommend action_type identity_verified =
    if not (member action_type known_actions)
    then record {
      action = action_type;
      confidence = 200;
      rationale = "action not in the catalogue";
    }
    else if not identity_verified
    then record {
      action = action_type;
      confidence = 600;
      rationale = "catalogued action but identity not yet verified";
    }
    else record {
      action = action_type;
      confidence = 900;
      rationale = "catalogued action with sufficient context";
    }
