-- ===== src/Auth/Oidc/Laws.antt =====
-- What a token that `verify` accepts has shown, and which role it gets.
use Prim.Native.String.{◌++◌ as append}
use amankan.Prelude.{
  ℕ, ◌≤◌, String, ◌≡◌, refl, sym, ap, ◌∙◌, subst, ◌≢◌, ◌⊎◌, inl, inr, true, false, Option, none,
  some, List, [], ◌∷◌, arith, eq_iff, Bool-cases, String-cases, Any,
}
use native.Mathlib.Nat.{le_trans}
use amankan.Strings.{split}
use amankan.Auth.Roles.{Role, none_role, Principal, rank}
use amankan.Auth.Oidc.{
  JwtHeader, JwtClaims, Jwk, Jose, PublicKey, Verifier, Verdict, ok, err, find, better,
  map_roles_from, map_roles, audience_contains, key_for_kid, refresh_keys, is_expired, check_claims,
  on_key, on_claims, on_signature, on_header, on_parts, verify,
}

-- What a token has to show for this principal.
pub record IsAccepted (j : Jose) (answer : Option (List Jwk)) (now : ℕ) (token : String)
    (v : Verifier) (p : Principal) : Type 0 where
  pub head : String
  pub body : String
  pub sig : String
  pub header : JwtHeader
  pub key : PublicKey
  pub signature : String
  pub claims : JwtClaims
  pub parts : split b'.' token ≡ head ∷ body ∷ sig ∷ []
  pub header_decoded : j.decode_header head ≡ some header
  pub alg : header.alg ≡ "RS256"
  pub key_found : (key_for_kid j answer header.kid v).0 ≡ ok key
  pub signature_decoded : j.decode_signature sig ≡ some signature
  pub signed : j.verify_rs256 key (append head (append "." body)) signature ≡ true
  pub claims_decoded : j.decode_claims body ≡ some claims
  pub in_time : is_expired claims.exp now ≡ false
  pub issuer : (v.issuer ≡ "") ⊎ (claims.iss ≡ v.issuer)
  pub audience : (v.audience ≡ "") ⊎ (audience_contains claims.aud v.audience ≡ true)
  pub role : p.role ≡ map_roles v claims.roles
  pub granted : p.role ≢ none_role

ok_inj : {A : Type 0} {a b : A} → ◌≡◌ {A = Verdict A} (ok a) (ok b) → a ≡ b
ok_inj e = cc e

-- The checks on the claims, read backwards.
pub record ClaimsPass (v : Verifier) (now : ℕ) (c : JwtClaims) (p : Principal) : Type 0 where
  pub in_time : is_expired c.exp now ≡ false
  pub issuer : (v.issuer ≡ "") ⊎ (c.iss ≡ v.issuer)
  pub audience : (v.audience ≡ "") ⊎ (audience_contains c.aud v.audience ≡ true)
  pub role : p.role ≡ map_roles v c.roles
  pub granted : p.role ≢ none_role

check_claims_sound :
    (v : Verifier) (now : ℕ) (c : JwtClaims) (p : Principal)
    → check_claims v now c ≡ ok p
    → ClaimsPass v now c p
unfolding check_claims
check_claims_sound v now c p e = record {
  in_time = ground arith;
  issuer = ground (arith, eq_iff v.issuer "", eq_iff c.iss v.issuer);
  audience = ground (arith, eq_iff v.audience "");
  role = ground arith;
  granted = λ z. ground arith;
}

on_claims_sound :
    (v : Verifier) (now : ℕ) (o : Option JwtClaims) (p : Principal)
    → on_claims v now o ≡ ok p
    → (c : JwtClaims) × (o ≡ some c) × ClaimsPass v now c p
on_claims_sound v now none p e = cc
on_claims_sound v now (some c) p e = (c, refl, check_claims_sound v now c p e)

-- What the signed part of a token has shown.
record SignaturePass (j : Jose) (v : Verifier) (now : ℕ) (key : PublicKey) (head body : String)
    (o : Option String) (p : Principal) : Type 0 where
  signature : String
  claims : JwtClaims
  decoded : o ≡ some signature
  signed : j.verify_rs256 key (append head (append "." body)) signature ≡ true
  claims_decoded : j.decode_claims body ≡ some claims
  pass : ClaimsPass v now claims p

on_signature_sound :
    (j : Jose) (v : Verifier) (now : ℕ) (key : PublicKey) (head body : String) (o : Option String)
    (p : Principal)
    → on_signature j v now key head body o ≡ ok p
    → SignaturePass j v now key head body o p
on_signature_sound j v now key head body none p e = absurd (cc e)
on_signature_sound j v now key head body (some sig) p e =
    elim (Bool-cases (j.verify_rs256 key (append head (append "." body)) sig)) [
      | inl good ↦
          let (c, found, pass) = on_claims_sound v now (j.decode_claims body) p (rw good at e) in
          record {
            signature = sig;
            claims = c;
            decoded = refl;
            signed = good;
            claims_decoded = found;
            pass = pass;
          }
      | inr bad ↦ absurd (cc (rw bad at e))
    ]

-- Keys are fetched by the lookup of a key, which changes neither the settings nor the roles.
settings_kept :
    (j : Jose) (answer : Option (List Jwk)) (kid : String) (v : Verifier)
    → ((key_for_kid j answer kid v).1.issuer ≡ v.issuer)
      × ((key_for_kid j answer kid v).1.audience ≡ v.audience)
      × ((key_for_kid j answer kid v).1.role_map ≡ v.role_map)
unfolding key_for_kid refresh_keys
settings_kept j none kid v = ground arith
settings_kept j (some ks) kid v = ground arith

claims_transfer :
    (v v' : Verifier) (now : ℕ) (c : JwtClaims) (p : Principal)
    → (v'.issuer ≡ v.issuer) × (v'.audience ≡ v.audience) × (v'.role_map ≡ v.role_map)
    → ClaimsPass v' now c p
    → ClaimsPass v now c p
unfolding map_roles
claims_transfer v v' now c p (i, a, m) h = record {
  in_time = h.in_time;
  issuer = subst (λ t. (t ≡ "") ⊎ (c.iss ≡ t)) i h.issuer;
  audience = subst (λ t. (t ≡ "") ⊎ (audience_contains c.aud t ≡ true)) a h.audience;
  role = h.role ∙ ap (λ r. map_roles_from none_role r c.roles) m;
  granted = h.granted;
}

on_key_sound :
    (j : Jose) (now : ℕ) (head body sig : String) (k : Verdict PublicKey) (v : Verifier)
    (p : Principal)
    → (on_key j now head body sig (k, v)).0 ≡ ok p
    → (key : PublicKey) × (k ≡ ok key)
      × SignaturePass j v now key head body (j.decode_signature sig) p
on_key_sound j now head body sig (ok key) v p e =
    (key, refl, on_signature_sound j v now key head body (j.decode_signature sig) p e)
on_key_sound j now head body sig (err x) v p e = absurd (cc e)

on_header_sound :
    (j : Jose) (answer : Option (List Jwk)) (now : ℕ) (head body sig : String)
    (o : Option JwtHeader) (v : Verifier) (p : Principal)
    → (on_header j answer now head body sig o v).0 ≡ ok p
    → (h : JwtHeader) × (o ≡ some h)
      × (h.alg ≡ "RS256")
      × ((on_key j now head body sig (key_for_kid j answer h.kid v)).0 ≡ ok p)
on_header_sound j answer now head body sig none v p e = absurd (cc e)
on_header_sound j answer now head body sig (some h) v p e = elim (String-cases h.alg "RS256") [
  | inl good ↦ (h, refl, good, rw good at e)
  | inr bad ↦ absurd (cc (rw bad at e))
]

on_parts_sound :
    (j : Jose) (answer : Option (List Jwk)) (now : ℕ) (parts : List String) (v : Verifier)
    (p : Principal)
    → (on_parts j answer now parts v).0 ≡ ok p
    → (head : String) × (body : String) × (sig : String) × (parts ≡ head ∷ body ∷ sig ∷ [])
      × ((on_header j answer now head body sig (j.decode_header head) v).0 ≡ ok p)
on_parts_sound j answer now (head ∷ body ∷ sig ∷ []) v p e = (head, body, sig, refl, e)
on_parts_sound j answer now parts v p e = absurd (cc e)

-- A token that `verify` accepts has three parts; its header names RS256 and a key that the verifier
-- holds or has just fetched; the signature over the first two parts is valid under that key; its
-- claims are in time, from the configured issuer and for the configured audience where these are
-- set; and the principal's role is the one mapped from its realm roles, and not RoleNone.
pub verify_sound :
    (j : Jose) (answer : Option (List Jwk)) (now : ℕ) (token : String) (v : Verifier)
    (p : Principal)
    → (verify j answer now token v).0 ≡ ok p
    → IsAccepted j answer now token v p
unfolding verify
verify_sound j answer now token v p e =
    let (head, body, sig, parts, e1) = on_parts_sound j answer now (split b'.' token) v p e in
    let (h, decoded, alg, e2) =
      on_header_sound j answer now head body sig (j.decode_header head) v p e1 in
    let (key, found, s) =
      on_key_sound j now head body sig (key_for_kid j answer h.kid v).0
        (key_for_kid j answer h.kid v).1 p e2 in
    let c =
      claims_transfer v (key_for_kid j answer h.kid v).1 now s.claims p
        (settings_kept j answer h.kid v) s.pass in
    record {
      head = head;
      body = body;
      sig = sig;
      header = h;
      key = key;
      signature = s.signature;
      claims = s.claims;
      parts = parts;
      header_decoded = decoded;
      alg = alg;
      key_found = found;
      signature_decoded = s.decoded;
      signed = s.signed;
      claims_decoded = s.claims_decoded;
      in_time = c.in_time;
      issuer = c.issuer;
      audience = c.audience;
      role = c.role;
      granted = c.granted;
    }

-- The roles that the realm roles are mapped to.
abbrev pub Granted : List (String × Role) → List String → Role → Type 0
Granted role_map roles r = Any (λ name. find name role_map ≡ some r) roles

better-le : (best : Role) (o : Option Role) → rank best ≤ rank (better best o)
unfolding better
better-le best none = omega arith
better-le best (some r) = ground arith

map_roles_from-le :
    (best : Role) (role_map : List (String × Role)) (roles : List String)
    → rank best ≤ rank (map_roles_from best role_map roles)
unfolding map_roles_from
map_roles_from-le best role_map [] = omega arith
map_roles_from-le best role_map (r ∷ roles) =
    le_trans (better-le best (find r role_map))
      (map_roles_from-le (better best (find r role_map)) role_map roles)

better-some : (best r : Role) → rank r ≤ rank (better best (some r))
unfolding better
better-some best r = ground arith

map_roles_from-upper :
    (best : Role) (role_map : List (String × Role)) (roles : List String) (r : Role)
    → Granted role_map roles r
    → rank r ≤ rank (map_roles_from best role_map roles)
unfolding map_roles_from
map_roles_from-upper best role_map [] r g = absurd g
map_roles_from-upper best role_map (name ∷ roles) r (inl here) =
    rw here
      (le_trans (better-some best r) (map_roles_from-le (better best (some r)) role_map roles))
map_roles_from-upper best role_map (name ∷ roles) r (inr later) =
    map_roles_from-upper (better best (find name role_map)) role_map roles r later

better_cases : (best : Role) (o : Option Role) → (better best o ≡ best) ⊎ (o ≡ some (better best o))
unfolding better
better_cases best none = inl refl
better_cases best (some r) = ground arith

map_roles_from_cases :
    (best : Role) (role_map : List (String × Role)) (roles : List String)
    → (map_roles_from best role_map roles ≡ best)
      ⊎ Granted role_map roles (map_roles_from best role_map roles)
unfolding map_roles_from
map_roles_from_cases best role_map [] = inl refl
map_roles_from_cases best role_map (name ∷ roles) =
    elim (map_roles_from_cases (better best (find name role_map)) role_map roles) [
      | inr later ↦ inr (inr later)
      | inl same ↦ elim (better_cases best (find name role_map)) [
        | inl kept ↦ inl (same ∙ kept)
        | inr won ↦ inr (inl (won ∙ ap some (sym same)))
      ]
    ]

-- The role of a token is the highest one that any of its realm roles is mapped to, and RoleNone
-- when none of them is mapped.
pub map_roles_highest :
    (v : Verifier) (roles : List String)
    → ((r : Role) → Granted v.role_map roles r → rank r ≤ rank (map_roles v roles))
      × ((map_roles v roles ≡ none_role) ⊎ Granted v.role_map roles (map_roles v roles))
unfolding map_roles
map_roles_highest v roles = (
  map_roles_from-upper none_role v.role_map roles,
  map_roles_from_cases none_role v.role_map roles,
)
