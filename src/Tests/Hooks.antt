-- ===== src/Tests/Hooks.antt =====
-- The turns of a call through the persona's hook.
use livekit_agent.Base.{◌≡◌, refl, none, some, [], ◌∷◌}
use livekit_agent.Worker.Hooks.{text, parts, other, extract_text, Texts}
use livekit_agent.Worker.Hooks.Heard.{Turns, said}
use livekit_agent.Tests.Conversation.{as_is}

abbrev pub texts : Texts
texts = record { strip = as_is; lower = as_is; mask = as_is }

abbrev three_turns : Turns
three_turns =
    ("Accueil", record { text_content = some "Bonjour"; content = other })
    ∷ ("Accueil", record { text_content = none; content = text "" })
    ∷ (
      "Facturation",
      record { text_content = none; content = parts (some "nul" ∷ none ∷ some "!" ∷ []) },
    )
    ∷ []

joined : said texts three_turns ≡ "Bonjour" ∷ "nul !" ∷ []
unfolding extract_text
joined = refl
