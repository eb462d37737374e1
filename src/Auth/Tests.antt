-- ===== src/Auth/Tests.antt =====
-- Runs of the API-key and OIDC authenticators, and the theorems at inputs that meet their hypotheses.
use amankan.Prelude.{
  ℕ, suc, ◌≤◌, ◌<◌, String, ◌≡◌, refl, ◌≢◌, ◌↔◌, ◌⊎◌, inl, inr, false, ◌&&◌, Option, none, some,
  List, [], ◌∷◌, ◌==◌, eq_iff, if◌then◌else◌, All,
}
use amankan.Prelude.Int.{pos}
use amankan.Strings.{has}
use amankan.Http.{Request, fresh_writer, Handler}
use amankan.Auth.Roles.{
  Role, viewer, analyst, admin, none_role, rank, Principal, role_string, parse_role,
  parse_role-role_string,
}
use amankan.Auth.{parse_keys, lookup, lookup_from, bearer}
use amankan.Auth.Keys.{
  Holds, IsUsable, IsMap, parse_keys_sound, lookup_iff, lookup_any_order, parse_keys_fail_open,
}
use amankan.Auth.Access.{
  protected, IsGranted, IsRefused, access_control, no_credential, colonless_keys_open,
}
use amankan.Auth.Oidc.{JwtClaims, single, Jose, Jwk, Verifier, default_role_map, map_roles, verify}
use amankan.Auth.Oidc.Laws.{IsAccepted, verify_sound, Granted, map_roles_highest}
use amankan.Auth.Hardening.{cors}
use amankan.Auth.Hardening.Cors.{Lists, cors_exact}

auth : Unit {0}
unfolding parse_keys lookup bearer verify
auth = tt

abbrev spec : String
spec = " ci : s3cret : Analyst , broken, ops:root:admin,ci2:s3cret:viewer"

abbrev ops : Principal
ops = record { id = "ops"; role = admin }

-- The later entry with one secret replaces the earlier one.
parsed :
    (parse_keys spec).0.keys ≡ ("s3cret", record { id = "ci2"; role = viewer }) ∷ ("root", ops) ∷ []
unfolding auth
parsed = refl

parse_keys_sound_example :
    All IsUsable (parse_keys spec).0.keys
    × IsMap (parse_keys spec).0.keys
    × (((parse_keys spec).0.enabled ≡ false) ↔ ((parse_keys spec).0.keys ≡ []))
parse_keys_sound_example = parse_keys_sound spec

-- The parsed keys in the other order.
abbrev turned : List (String × Principal)
turned = ("root", ops) ∷ ("s3cret", record { id = "ci2"; role = viewer }) ∷ []

turned_bindings :
    (k : String) (q : Principal) → Holds k q turned ↔ Holds k q (parse_keys spec).0.keys
unfolding auth
turned_bindings k q = (
  λ h. elim h [ inl e ↦ inr (inl e) | inr (inl e) ↦ inl e | inr (inr e) ↦ absurd e ],
  λ h. elim h [ inl e ↦ inr (inl e) | inr (inl e) ↦ inl e | inr (inr e) ↦ absurd e ],
)

lookup_iff_example :
    (lookup (record ((parse_keys spec).0) { keys = turned }) "root" ≡ some ops)
    ↔ Holds "root" ops (parse_keys spec).0.keys
lookup_iff_example = lookup_iff spec "root" ops turned ((refl, tt), (tt, tt)) turned_bindings

abbrev two_keys : List (String × Principal)
two_keys = ("a", ops) ∷ ("b", record { id = "ci"; role = viewer }) ∷ []

abbrev turned_keys : List (String × Principal)
turned_keys = ("b", record { id = "ci"; role = viewer }) ∷ ("a", ops) ∷ []

same_bindings : (p : Principal) → Holds "a" p two_keys ↔ Holds "a" p turned_keys
same_bindings p = (
  λ h. elim h [ inl k ↦ inr (inl k) | inr (inl k) ↦ inl k | inr (inr k) ↦ absurd k ],
  λ h. elim h [ inl k ↦ inr (inl k) | inr (inl k) ↦ inl k | inr (inr k) ↦ absurd k ],
)

lookup_any_order_sample : lookup_from none two_keys "a" ≡ lookup_from none turned_keys "a"
lookup_any_order_sample =
    lookup_any_order two_keys turned_keys "a" ((refl, tt), (tt, tt)) ((refl, tt), (tt, tt))
      same_bindings

parse_keys_fail_open_sample :
    ((parse_keys "s3cret").0.enabled ≡ false) × ((parse_keys "s3cret").0.keys ≡ [])
parse_keys_fail_open_sample = parse_keys_fail_open "s3cret" (unfold has in refl)

-- A handler that counts its calls.
abbrev counting : Handler ℕ
counting w r n = (w, suc n)

abbrev request : Request
request = record {
  method = "POST";
  path = "/api/v1/assets";
  header = λ k.
      if k == "X-API-Key" then "root" else if k == "Origin" then "http://localhost:3000" else "";
  query = λ _. "";
  url_param = λ _. "";
  remote_addr = "10.0.0.1:4242";
  principal = none;
}

abbrev bare : Request
bare = record request { header = λ _. "" }

access_control_example :
    ((p : Principal) × IsGranted (parse_keys spec).0 analyst counting fresh_writer request 0 p)
    ⊎ ((lookup (parse_keys spec).0 (bearer request) ≡ none)
        × IsRefused (parse_keys spec).0 analyst counting fresh_writer request 0 401)
    ⊎ ((p : Principal) × (lookup (parse_keys spec).0 (bearer request) ≡ some p)
        × (rank p.role < rank analyst)
        × IsRefused (parse_keys spec).0 analyst counting fresh_writer request 0 403)
access_control_example =
    access_control (parse_keys spec).0 analyst counting fresh_writer request 0 (unfold auth in refl)
      (λ e. cc ((eq_iff "POST" "OPTIONS").1 e)) refl

no_credential_sample : IsRefused (parse_keys spec).0 viewer counting fresh_writer bare 0 401
no_credential_sample =
    no_credential spec viewer counting fresh_writer bare 0 (unfold auth in refl)
      (λ e. cc ((eq_iff "POST" "OPTIONS").1 e)) refl (unfold auth in refl)

colonless_keys_open_example :
    protected (parse_keys "s3cret").0 admin counting fresh_writer bare 0
    ≡ counting fresh_writer bare 0
colonless_keys_open_example =
    colonless_keys_open "s3cret" admin counting fresh_writer bare 0 (unfold has in refl)

-- A decoder that knows one token.
abbrev claims : JwtClaims
claims = record {
  iss = "https://id";
  sub = "u1";
  exp = pos 2000;
  aud = single "amankan";
  roles = "amankan-viewer" ∷ "amankan-admin" ∷ [];
  preferred_username = "alice";
}

abbrev jose : Jose
jose = record {
  decode_header = λ t. if t == "h" then some (record { alg = "RS256"; kid = "k" }) else none;
  decode_claims = λ t. if t == "c" then some claims else none;
  decode_signature = λ t. if t == "s" then some "s" else none;
  decode_number = λ t. if t == "n" then some 3233 else if t == "e" then some 17 else none;
  verify_rs256 = λ key text sig. text == "h.c" && sig == "s";
}

abbrev verifier : Verifier
verifier = record {
  issuer = "https://id";
  audience = "amankan";
  role_map = default_role_map;
  keys = [];
  fetched = false;
}

abbrev answer : Option (List Jwk)
answer = some (record { kty = "RSA"; kid = "k"; n = "n"; e = "e" } ∷ [])

abbrev alice : Principal
alice = record { id = "alice"; role = admin }

verify_sound_example : IsAccepted jose answer 1000 "h.c.s" verifier alice
verify_sound_example = verify_sound jose answer 1000 "h.c.s" verifier alice (unfold auth in refl)

map_roles_highest_example :
    ((r : Role)
      → Granted verifier.role_map claims.roles r
      → rank r ≤ rank (map_roles verifier claims.roles))
    × ((map_roles verifier claims.roles ≡ none_role)
        ⊎ Granted verifier.role_map claims.roles (map_roles verifier claims.roles))
map_roles_highest_example = map_roles_highest verifier claims.roles

abbrev allowed : List String
allowed = " http://localhost:3000 " ∷ []

cors_exact_example :
    ((cors {S = ℕ} allowed (λ w _ t. (w, t)) fresh_writer request 0).0.header
        "Access-Control-Allow-Origin"
      ≢ [])
    ↔ (Lists allowed "*" ⊎ Lists allowed "http://localhost:3000")
cors_exact_example = cors_exact allowed request 0 (λ e. cc e)

parse_role-role_string_sample : parse_role (role_string analyst) ≡ analyst
parse_role-role_string_sample = parse_role-role_string analyst
