-- ===== src/Auth.antt =====
-- internal/auth/auth.go: API keys, the lookup of a presented secret, and the two middlewares that
-- resolve a caller and enforce a role.
pub mod Roles
pub mod Keys
pub mod Access
pub mod Oidc
pub mod Hardening
mod Tests
use Prim.Native.String.{◌++◌ as append}
use amankan.Prelude.{
  ℕ, ◌+◌, ◌-◌, ◌/◌, code, String, Bool, false, not, ◌||◌, Option, none, some, List, [], ◌∷◌, ◌++◌,
  ◌==◌, ltb, eqb, if◌then◌else◌, length,
}
use amankan.Strings.{has_prefix, trim_prefix, trim_space, split, split_n}
use amankan.Http.{Request, Writer, Handler, set_header, write_header, write_body}
use amankan.Auth.Roles.{
  Role, none_role, viewer, analyst, admin, Principal, rank, role_string, parse_role, is_none,
}

-- The map from secrets to principals, and whether authentication is enforced.
pub record Authenticator : Type 0 where
  pub keys : List (String × Principal)
  pub enabled : Bool

-- a.keys[secret] = p
unfoldable pub set_key : String → Principal → List (String × Principal) → List (String × Principal)
set_key k p [] = (k, p) ∷ []
set_key k p ((j, q) ∷ keys) = if j == k then (k, p) ∷ keys else (j, q) ∷ set_key k p keys

-- What one entry of the specification says.
pub data KeyEntry : Type 0 where
  blank : KeyEntry
  malformed : String → KeyEntry
  key : String → Principal → KeyEntry

abbrev malformed_warning : String
malformed_warning = "ignored malformed API key entry (want label:secret:role)"

abbrev invalid_warning : String
invalid_warning = "ignored API key with empty secret or invalid role: "

abbrev unset_warning : String
unset_warning = "AMANKAN_API_KEYS not set — API authentication is DISABLED (open access)"

-- The checks on the three parts of an entry.
unfoldable pub parse_parts : List String → KeyEntry
unfolding parse_role trim_space
parse_parts (label ∷ secret ∷ role_name ∷ []) =
    let label' = trim_space label in
    let secret' = trim_space secret in
    let role = parse_role role_name in
    if secret' == "" || is_none role
    then malformed (append invalid_warning label')
    else key secret' (record { id = label'; role = role })
parse_parts _ = malformed malformed_warning

unfoldable pub parse_entry : String → KeyEntry
unfolding parse_parts split_n
parse_entry text =
    let entry = trim_space text in if entry == "" then blank else parse_parts (split_n b':' 3 entry)

-- The loop over the entries: the keys and the warnings so far.
unfoldable pub add_entry :
    KeyEntry → List (String × Principal) × List String → List (String × Principal) × List String
unfolding set_key
add_entry blank (keys, warnings) = (keys, warnings)
add_entry (malformed w) (keys, warnings) = (keys, warnings ++ w ∷ [])
add_entry (key k p) (keys, warnings) = (set_key k p keys, warnings)

unfoldable pub parse_entries :
    List String → List (String × Principal) × List String → List (String × Principal) × List String
unfolding parse_entry add_entry
parse_entries [] acc = acc
parse_entries (text ∷ texts) acc = parse_entries texts (add_entry (parse_entry text) acc)

-- ParseKeys
unfoldable pub parse_keys : String → Authenticator × List String
unfolding parse_entries split
parse_keys spec =
    let text = trim_space spec in
    if text == ""
    then (record { keys = []; enabled = false }, unset_warning ∷ [])
    else (let (keys, warnings) = parse_entries (split b',' text) ([], []) in
        (record { keys = keys; enabled = ltb 0 (length keys) }, warnings))

-- The loop of `lookup` over every key, in some order: the last match is kept.
unfoldable pub lookup_from :
    Option Principal → List (String × Principal) → String → Option Principal
lookup_from found [] secret = found
lookup_from found ((k, p) ∷ keys) secret =
    lookup_from (if k == secret then some p else found) keys secret

unfoldable pub lookup : Authenticator → String → Option Principal
unfolding lookup_from
lookup a secret = lookup_from none a.keys secret

-- The key presented in the Authorization header or in X-API-Key.
unfoldable pub bearer : Request → String
unfolding has_prefix trim_prefix trim_space
bearer r =
    let h = r.header "Authorization" in
    if has_prefix h "Bearer "
    then trim_space (trim_prefix h "Bearer ")
    else trim_space (r.header "X-API-Key")

-- The JSON text of a message: quotes and backslashes are escaped.
unfoldable pub escaped : String → String
escaped String.[] = ""
escaped (String.◌∷◌ c s) =
    if eqb (code c) b'"' || eqb (code c) 92
    then String.◌∷◌ "\\" (String.◌∷◌ c (escaped s))
    else String.◌∷◌ c (escaped s)

unfoldable pub quote : String → String
unfolding escaped
quote s = append "\"" (append (escaped s) "\"")

unfoldable pub write_error : Writer → ℕ → String → Writer
unfolding set_header write_header write_body quote
write_error w status msg =
    write_body (write_header (set_header w "Content-Type" "application/json") status)
      (append "{\"error\":" (append (quote msg) "}"))

-- PrincipalFromRequest: without a principal on the context, an anonymous administrator.
unfoldable pub principal_from_request : Request → Principal
principal_from_request r = elim r.principal [
  | none ↦ record { id = "anonymous"; role = admin }
  | some p ↦ p
]

module _ {S : Type 0} where
  -- Authenticate of the API-key authenticator
  unfoldable pub authenticate : Authenticator → Handler S → Handler S
  authenticate a next w r s =
      if not a.enabled
      then next w r s
      else if r.method == "OPTIONS"
      then next w r s
      else elim (lookup a (bearer r)) [
        | none ↦ (write_error w 401 "missing or invalid API key", s)
        | some p ↦ next w (record r { principal = some p }) s
      ]

  -- The role check that both providers make once a request is not a preflight.
  unfoldable pub check_role : Role → Handler S → Handler S
  check_role min next w r s = elim r.principal [
    | none ↦ (write_error w 401 "authentication required", s)
    | some p ↦
        if ltb (rank p.role) (rank min)
        then (
          write_error w 403 (append "insufficient role: " (append (role_string min) " required")),
          s,
        )
        else next w r s
  ]

  -- Require of the API-key authenticator
  unfoldable pub require : Authenticator → Role → Handler S → Handler S
  require a min next w r s =
      if not a.enabled || r.method == "OPTIONS" then next w r s else check_role min next w r s
