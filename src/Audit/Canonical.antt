-- ===== src/Audit/Canonical.antt =====
-- When the canonical form determines the record. The separator is not escaped, so its fields must
-- be free of it; a field that holds it can be moved into the next one.
use Prim.Native.String.{◌++◌}
use text.Mathlib.TextLemmas.{nil-append, cons-append, append_assoc}
use amankan.Prelude.{String, ◌≡◌, sym, ap, ◌∙◌, false, arith}
use amankan.Strings.{has}
use amankan.Strings.Laws.{field_inj}
use amankan.Strconv.Laws.{itoa_inj, has-itoa}
use amankan.Audit.{Platform, Entry, canonical}

bar : (x : String) → "|" ++ x ≡ String.◌∷◌ "|" x
bar x = cons-append "|" "" x ∙ ap (String.◌∷◌ "|") (nil-append x)

-- The texts before and after the first separator, where the text before it has none.
split_bar :
    (a b x y : String)
    → has b'|' a ≡ false
    → has b'|' b ≡ false
    → a ++ "|" ++ x ≡ b ++ "|" ++ y
    → (a ≡ b) × (x ≡ y)
split_bar a b x y ha hb e =
    field_inj "|" a b x y ha hb (sym (ap (λ t. a ++ t) (bar x)) ∙ e ∙ ap (λ t. b ++ t) (bar y))

-- The separator stands in no field before the last one.
pub record IsPlain (p : Platform) (prev : String) (e : Entry) : Type 0 where
  pub link : has b'|' prev ≡ false
  pub ts : has b'|' (p.format_ts e.ts) ≡ false
  pub actor : has b'|' e.actor ≡ false
  pub role : has b'|' e.role ≡ false
  pub method : has b'|' e.method ≡ false
  pub path : has b'|' e.path ≡ false

-- Two records agree in every field that the hash commits to.
pub record SameContent (p : Platform) (e f : Entry) : Type 0 where
  pub ts : p.format_ts e.ts ≡ p.format_ts f.ts
  pub actor : e.actor ≡ f.actor
  pub role : e.role ≡ f.role
  pub method : e.method ≡ f.method
  pub path : e.path ≡ f.path
  pub status : e.status ≡ f.status
  pub remote_ip : e.remote_ip ≡ f.remote_ip

-- For records whose fields have no separator, equal canonical forms mean equal links and equal
-- timestamps, actors, roles, methods, paths, status codes and addresses.
pub canonical_inj :
    (p : Platform) (prev prev' : String) (e f : Entry)
    → IsPlain p prev e
    → IsPlain p prev' f
    → canonical p prev e ≡ canonical p prev' f
    → (prev ≡ prev') × SameContent p e f
unfolding canonical
canonical_inj p prev prev' e f he hf same =
    let (link, r0) = split_bar _ _ _ _ he.link hf.link same in
    let (ts, r1) = split_bar _ _ _ _ he.ts hf.ts r0 in
    let (actor, r2) = split_bar _ _ _ _ he.actor hf.actor r1 in
    let (role, r3) = split_bar _ _ _ _ he.role hf.role r2 in
    let (method, r4) = split_bar _ _ _ _ he.method hf.method r3 in
    let (path, r5) = split_bar _ _ _ _ he.path hf.path r4 in
    let (status, ip) =
      split_bar _ _ _ _ (has-itoa b'|' e.status (omega arith))
        (has-itoa b'|' f.status (omega arith)) r5 in
    (
      link,
      record {
        ts = ts;
        actor = actor;
        role = role;
        method = method;
        path = path;
        status = itoa_inj _ _ status;
        remote_ip = ip;
      },
    )

-- A part of the actor behind a separator can be moved to the front of the role.
pub canonical-shift :
    (p : Platform) (prev : String) (e : Entry) (a b c : String)
    → canonical p prev (record e { actor = a ++ "|" ++ b; role = c })
      ≡ canonical p prev (record e { actor = a; role = b ++ "|" ++ c })
unfolding canonical
canonical-shift p prev e a b c = simp append_assoc
