-- ===== src/Business/Roles.antt =====
-- apps/business-api/src/business_api/security.py
use livekit_agent.Base.{ℕ, String, Bool, Option, none, some, str_eq, leb, or_else, if◌then◌else◌}

-- `role_rank`
unfoldable pub role_rank : Option String → ℕ
role_rank role =
    if str_eq (or_else role "") "conseiller"
    then 1
    else if str_eq (or_else role "") "superviseur"
    then 2
    else if str_eq (or_else role "") "administrateur"
    then 3
    else 0

-- The three roles that endpoints ask for.
pub data Minimum : Type 0 where
  conseiller superviseur administrateur : Minimum

abbrev pub minimum_rank : Minimum → ℕ
minimum_rank conseiller = 1
minimum_rank superviseur = 2
minimum_rank administrateur = 3

-- `x_role or os.getenv("BUSINESS_API_DEFAULT_ROLE", "administrateur")`, with the setting
abbrev pub role_of : Option String → Option String → String
role_of setting none = or_else setting "administrateur"
role_of setting (some role) = if str_eq role "" then or_else setting "administrateur" else role

-- The dependency of `require_role`: whether it lets the request through.
unfoldable pub require_role : Minimum → Option String → Option String → Bool
unfolding role_rank
require_role minimum setting x_role =
    leb (minimum_rank minimum) (role_rank (some (role_of setting x_role)))
