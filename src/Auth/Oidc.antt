-- ===== src/Auth/Oidc.antt =====
-- internal/auth/oidc.go: bearer tokens signed by the issuer's keys. Base64, JSON and RSA are Go's
-- and enter as parameters: what they make of a text, or that they fail.
pub mod Laws
use Prim.Native.String.{◌++◌ as append}
use amankan.Prelude.{
  ℕ, zero, suc, ◌+◌, ◌-◌, ◌^◌, String, Bool, true, false, not, ◌&&◌, ◌||◌, Option, none, some, List,
  [], ◌∷◌, ◌++◌, ◌==◌, ltb, leb, if◌then◌else◌,
}
use amankan.Prelude.Int.{ℤ, pos, negsuc}
use amankan.Strings.{split}
use amankan.Http.{Request, Writer, Handler}
use amankan.Auth.Roles.{Role, none_role, viewer, analyst, admin, Principal, rank, is_none}

pub record JwtHeader : Type 0 where
  pub alg : String
  pub kid : String

-- The audience claim: missing, one text, a list of texts, or other JSON.
pub data Audience : Type 0 where
  absent : Audience
  single : String → Audience
  many : List String → Audience
  other : Audience

pub record JwtClaims : Type 0 where
  pub iss : String
  pub sub : String
  pub exp : ℤ
  pub aud : Audience
  pub roles : List String
  pub preferred_username : String

pub record PublicKey : Type 0 where
  pub modulus : ℕ
  pub exponent : ℕ

pub record Jwk : Type 0 where
  pub kty : String
  pub kid : String
  pub n : String
  pub e : String

-- Go's base64, encoding/json and crypto/rsa, as the verifier calls them.
pub record Jose : Type 0 where
  pub decode_header : String → Option JwtHeader
  pub decode_claims : String → Option JwtClaims
  pub decode_signature : String → Option String
  -- the big-endian number of a base64url text
  pub decode_number : String → Option ℕ
  -- the PKCS #1 v1.5 signature over the SHA-256 of the text is valid
  pub verify_rs256 : PublicKey → String → String → Bool

pub record Verifier : Type 0 where
  pub issuer : String
  pub audience : String
  pub role_map : List (String × Role)
  pub keys : List (String × PublicKey)
  pub fetched : Bool

pub data VerifyError : Type 0 where
  malformed_jwt bad_header : VerifyError
  unsupported_alg : String → VerifyError
  fetch_failed : VerifyError
  no_key : String → VerifyError
  bad_signature signature_failed bad_claims token_expired issuer_mismatch : VerifyError
  audience_mismatch no_role : VerifyError

pub data Verdict {ℓ} (A : Type ℓ) : Type ℓ where
  ok : A → Verdict A
  err : VerifyError → Verdict A

-- m[k] on a map kept as a list of pairs
unfoldable pub find : {V : Type 0} → String → List (String × V) → Option V
find k [] = none
find k ((j, v) ∷ m) = if j == k then some v else find k m

-- DefaultRoleMap
abbrev pub default_role_map : List (String × Role)
default_role_map =
    ("amankan-admin", admin) ∷ ("amankan-analyst", analyst) ∷ ("amankan-viewer", viewer) ∷ []

-- mapRoles: the highest role that the token's realm roles are mapped to.
unfoldable pub better : Role → Option Role → Role
better best none = best
better best (some mapped) = if ltb (rank best) (rank mapped) then mapped else best

unfoldable pub map_roles_from : Role → List (String × Role) → List String → Role
unfolding find better
map_roles_from best role_map [] = best
map_roles_from best role_map (r ∷ roles) =
    map_roles_from (better best (find r role_map)) role_map roles

unfoldable pub map_roles : Verifier → List String → Role
unfolding map_roles_from
map_roles v roles = map_roles_from none_role v.role_map roles

-- audienceContains
unfoldable pub contains : String → List String → Bool
contains want [] = false
contains want (a ∷ as') = a == want || contains want as'

unfoldable pub audience_contains : Audience → String → Bool
unfolding contains
audience_contains absent want = false
audience_contains (single a) want = a == want
audience_contains (many as') want = contains want as'
audience_contains other want = false

-- rsaKeyFromJWK: the exponent fits in 63 bits and is at least 2.
abbrev usable_key : Option ℕ → Option ℕ → Option PublicKey
usable_key (some n) (some e) =
    if ltb e (2 ^ 63) && leb 2 e then some (record { modulus = n; exponent = e }) else none
usable_key _ _ = none

unfoldable pub rsa_key_from_jwk : Jose → Jwk → Option PublicKey
rsa_key_from_jwk j k = usable_key (j.decode_number k.n) (j.decode_number k.e)

abbrev add_key : String → Option PublicKey → List (String × PublicKey) → List (String × PublicKey)
add_key kid none keys = keys
add_key kid (some pk) keys = (kid, pk) ∷ keys

-- The loop of refreshKeys: later keys replace earlier ones of the same kid.
unfoldable pub key_set : Jose → List (String × PublicKey) → List Jwk → List (String × PublicKey)
unfolding rsa_key_from_jwk
key_set j keys [] = keys
key_set j keys (k ∷ ks) =
    key_set j (if k.kty == "RSA" then add_key k.kid (rsa_key_from_jwk j k) keys else keys) ks

-- refreshKeys: `answer` is the decoded document of a 200 answer, or none for any failure.
unfoldable pub refresh_keys : Jose → Option (List Jwk) → Verifier → Bool × Verifier
unfolding key_set
refresh_keys j none v = (false, v)
refresh_keys j (some ks) v = (true, record v { keys = key_set j [] ks; fetched = true })

-- keyForKid
abbrev pub or_no_key : String → Option PublicKey → Verdict PublicKey
or_no_key kid none = err (no_key kid)
or_no_key kid (some key) = ok key

abbrev after_refresh : String → Bool × Verifier → Verdict PublicKey × Verifier
after_refresh kid (false, v) = (err fetch_failed, v)
after_refresh kid (true, v) = (or_no_key kid (find kid v.keys), v)

unfoldable pub key_for_kid :
    Jose → Option (List Jwk) → String → Verifier → Verdict PublicKey × Verifier
unfolding find refresh_keys
key_for_kid j answer kid v = elim (find kid v.keys) [
  | some key ↦ (ok key, v)
  | none ↦ if v.fetched then (err (no_key kid), v) else after_refresh kid (refresh_keys j answer v)
]

-- The token has expired: exp is set and the time in seconds has reached it.
abbrev pub is_expired : ℤ → ℕ → Bool
is_expired (pos zero) now = false
is_expired (pos (suc n)) now = leb (suc n) now
is_expired (negsuc n) now = true

-- The checks on the decoded claims.
unfoldable pub check_claims : Verifier → ℕ → JwtClaims → Verdict Principal
unfolding audience_contains map_roles
check_claims v now c =
    let role = map_roles v c.roles in
    let id = if c.preferred_username == "" then c.sub else c.preferred_username in
    if is_expired c.exp now
    then err token_expired
    else if not (v.issuer == "") && not (c.iss == v.issuer)
    then err issuer_mismatch
    else if not (v.audience == "") && not (audience_contains c.aud v.audience)
    then err audience_mismatch
    else if is_none role
    then err no_role
    else ok (record { id = id; role = role })

abbrev on_claims : Verifier → ℕ → Option JwtClaims → Verdict Principal
on_claims v now none = err bad_claims
on_claims v now (some c) = check_claims v now c

-- The signature is checked before the claims are read.
abbrev on_signature :
    Jose → Verifier → ℕ → PublicKey → String → String → Option String → Verdict Principal
on_signature j v now key head body none = err bad_signature
on_signature j v now key head body (some sig) =
    if j.verify_rs256 key (append head (append "." body)) sig
    then on_claims v now (j.decode_claims body)
    else err signature_failed

abbrev on_key :
    Jose
    → ℕ
    → String
    → String
    → String
    → Verdict PublicKey × Verifier
    → Verdict Principal × Verifier
on_key j now head body sig (err e, v) = (err e, v)
on_key j now head body sig (ok key, v) =
    (on_signature j v now key head body (j.decode_signature sig), v)

abbrev on_header :
    Jose
    → Option (List Jwk)
    → ℕ
    → String
    → String
    → String
    → Option JwtHeader
    → Verifier
    → Verdict Principal × Verifier
on_header j answer now head body sig none v = (err bad_header, v)
on_header j answer now head body sig (some h) v =
    if h.alg == "RS256"
    then on_key j now head body sig (key_for_kid j answer h.kid v)
    else (err (unsupported_alg h.alg), v)

abbrev on_parts :
    Jose → Option (List Jwk) → ℕ → List String → Verifier → Verdict Principal × Verifier
on_parts j answer now (head ∷ body ∷ sig ∷ []) v =
    on_header j answer now head body sig (j.decode_header head) v
on_parts j answer now _ v = (err malformed_jwt, v)

-- verify: the principal of a token, and the verifier with the keys that it may have fetched.
unfoldable pub verify :
    Jose → Option (List Jwk) → ℕ → String → Verifier → Verdict Principal × Verifier
unfolding key_for_kid check_claims split
verify j answer now token v = on_parts j answer now (split b'.' token) v
