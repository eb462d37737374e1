-- ===== src/Auth/Roles.antt =====
-- internal/auth/auth.go: the roles, ordered by privilege, and the principal of a request.
use amankan.Prelude.{ℕ, String, ◌≡◌, refl, Bool, true, false, ◌==◌, if◌then◌else◌}
use amankan.Strings.{to_lower, trim_space}

pub data Role : Type 0 where
  none_role viewer analyst admin : Role

-- The value of the `Role` constant: a higher value has more privilege.
abbrev pub rank : Role → ℕ
rank none_role = 0
rank viewer = 1
rank analyst = 2
rank admin = 3

abbrev pub is_none : Role → Bool
is_none none_role = true
is_none _ = false

-- Role.String
unfoldable pub role_string : Role → String
role_string viewer = "viewer"
role_string analyst = "analyst"
role_string admin = "admin"
role_string none_role = "none"

-- ParseRole: the name is trimmed and lower-cased; an unknown name is RoleNone.
unfoldable pub parse_role : String → Role
unfolding to_lower trim_space
parse_role s =
    let name = to_lower (trim_space s) in
    if name == "viewer"
    then viewer
    else if name == "analyst"
    then analyst
    else if name == "admin"
    then admin
    else none_role

pub record Principal : Type 0 where
  pub id : String
  pub role : Role

-- A role's own name is parsed back, the name of RoleNone included.
pub parse_role-role_string : (r : Role) → parse_role (role_string r) ≡ r
unfolding parse_role role_string
parse_role-role_string none_role = refl
parse_role-role_string viewer = refl
parse_role-role_string analyst = refl
parse_role-role_string admin = refl
