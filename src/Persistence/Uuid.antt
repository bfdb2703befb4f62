-- ===== src/Persistence/Uuid.antt =====
-- packages/persistence/src/persistence/util.py. A UUID is its canonical text.
use livekit_agent.Base.{String, Option, none, some, str_eq, if◌then◌else◌}

-- What the package takes from Python's `uuid`: `UUID(text)`, which may raise, and `uuid5` in the
-- package's namespace.
pub record UuidLib : Type 0 where
  pub parse : String → Option String
  pub uuid5 : String → String

-- `str(value)`
abbrev pub text_of : Option String → String
text_of none = "None"
text_of (some s) = s

module _ (lib : UuidLib) where
  unfoldable pub to_uuid : Option String → Option String
  to_uuid none = none
  to_uuid (some s) = if str_eq s "" then none else lib.parse s

  unfoldable pub require_uuid : Option String → String
  unfolding to_uuid
  require_uuid value = elim (to_uuid value) [
    | some parsed ↦ parsed
    | none ↦ lib.uuid5 (text_of value)
  ]
