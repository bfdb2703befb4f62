-- ===== src/Auth.antt =====
-- packages/service-auth/src/service_auth/__init__.py: the key between the internal services. The
-- setting INTERNAL_API_KEY is an argument.
use livekit_agent.Base.{
  String, Bool, true, false, ◌||◌, Option, none, some, List, [], ◌∷◌, str_eq, member, if◌then◌else◌,
}
use livekit_agent.Base.Dict.{Dict}

abbrev pub health_paths : List String
health_paths = "/health" ∷ "/healthz" ∷ "/livez" ∷ "/readyz" ∷ []

abbrev pub is_key : String → Option String → Bool
is_key expected none = false
is_key expected (some key) = str_eq key expected

-- `require_internal_key`: whether it lets a request to a path through, with its header.
unfoldable pub require_internal_key : Option String → String → Option String → Bool
require_internal_key none path x_api_key = true
require_internal_key (some expected) path x_api_key =
    str_eq expected "" || (member path health_paths || is_key expected x_api_key)

-- `internal_headers`
unfoldable pub internal_headers : Option String → Dict String
internal_headers none = []
internal_headers (some key) = if str_eq key "" then [] else ("X-API-Key", key) ∷ []
