-- ===== src/Auth/Keys.antt =====
-- What ParseKeys builds: a map of usable keys, in which the lookup is the map's own, and which is
-- empty, so that authentication is off, when every entry is malformed.
use amankan.Prelude.{
  String, ◌≡◌, refl, sym, ap, subst, ◌≢◌, ◌↔◌, inl, inr, false, Option, none, some, List, [], ◌∷◌,
  arith, ◌==◌, eq_iff, eq_refl, ltb, Bool-cases, String-cases, length, All, Any,
}
use mathlib.Core.Option.{some-injective}
use amankan.Strings.{has, trim_space, split, split_n}
use amankan.Strings.Laws.{has-trim_space, split_n-of_not-has, All-split-has}
use amankan.Auth.Roles.{none_role, Principal}
use amankan.Auth.{
  KeyEntry, blank, malformed, key, set_key, parse_parts, parse_entry, add_entry, parse_entries,
  parse_keys, lookup_from, lookup,
}

abbrev pub Keys : Type 0
Keys = List (String × Principal)

-- The map holds the key with this principal.
abbrev pub Holds : String → Principal → Keys → Type 0
Holds k p keys = Any (λ kv. (kv.0 ≡ k) × (kv.1 ≡ p)) keys

abbrev pub IsFresh : String → Keys → Type 0
IsFresh k keys = All (λ kv. (kv.0 == k) ≡ false) keys

-- No key stands twice.
abbrev pub IsMap : Keys → Type 0
IsMap [] = Unit
IsMap ((k, p) ∷ keys) = IsFresh k keys × IsMap keys

-- A key that may be accepted: a secret, and a role above RoleNone.
abbrev pub IsUsable : String × Principal → Type 0
IsUsable kv = (kv.0 ≢ "") × (kv.1.role ≢ none_role)

All-set_key :
    (P : String × Principal → Type 0) (k : String) (p : Principal) (keys : Keys)
    → P (k, p)
    → All P keys
    → All P (set_key k p keys)
unfolding set_key
All-set_key P k p [] new h = (new, tt)
All-set_key P k p ((j, q) ∷ keys) new h = elim (Bool-cases (j == k)) [
  | inl e ↦ rw e (new, h.1)
  | inr e ↦ rw e (h.0, All-set_key P k p keys new h.1)
]

test_sym : (j k : String) → (j == k) ≡ false → (k == j) ≡ false
test_sym j k h = ground (arith, eq_iff j k, eq_iff k j)

IsMap-set_key : (k : String) (p : Principal) (keys : Keys) → IsMap keys → IsMap (set_key k p keys)
unfolding set_key
IsMap-set_key k p [] h = (tt, tt)
IsMap-set_key k p ((j, q) ∷ keys) h = elim (String-cases j k) [
  | inl e ↦ rw (e, eq_refl) (subst (λ i. IsFresh i keys) e h.0, h.1)
  | inr e ↦ rw e (
    All-set_key (λ kv. (kv.0 == j) ≡ false) k p keys (test_sym j k e) h.0,
    IsMap-set_key k p keys h.1,
  )
]

parse_parts-IsUsable :
    (parts : List String) (k : String) (p : Principal)
    → parse_parts parts ≡ key k p
    → IsUsable (k, p)
unfolding parse_parts
parse_parts-IsUsable (l ∷ s ∷ r ∷ []) k p e =
    (λ z. ground (arith, eq_iff (trim_space s) ""), λ z. ground arith)
parse_parts-IsUsable parts k p e = cc

parse_entry-IsUsable :
    (text k : String) (p : Principal) → parse_entry text ≡ key k p → IsUsable (k, p)
unfolding parse_entry
parse_entry-IsUsable text k p e =
    parse_parts-IsUsable (split_n b':' 3 (trim_space text)) k p (ground arith)

-- The state of the loop: a map of usable keys.
abbrev IsGood : Keys → Type 0
IsGood keys = All IsUsable keys × IsMap keys

add_entry-IsGood :
    (entry : KeyEntry) (keys : Keys) (warnings : List String)
    → ((k : String) (p : Principal) → entry ≡ key k p → IsUsable (k, p))
    → IsGood keys
    → IsGood (add_entry entry (keys, warnings)).0
unfolding add_entry
add_entry-IsGood blank keys warnings h good = good
add_entry-IsGood (malformed w) keys warnings h good = good
add_entry-IsGood (key k p) keys warnings h good =
    (All-set_key IsUsable k p keys (h k p refl) good.0, IsMap-set_key k p keys good.1)

parse_entries-IsGood :
    (texts : List String) (acc : Keys × List String)
    → IsGood acc.0
    → IsGood (parse_entries texts acc).0
unfolding parse_entries
parse_entries-IsGood [] acc good = good
parse_entries-IsGood (text ∷ texts) acc good =
    parse_entries-IsGood texts (add_entry (parse_entry text) acc)
      (add_entry-IsGood (parse_entry text) acc.0 acc.1 (parse_entry-IsUsable text) good)

positive_iff : (keys : Keys) → (ltb 0 (length keys) ≡ false) ↔ (keys ≡ [])
positive_iff [] = (λ _. refl, λ _. refl)
positive_iff (kv ∷ keys) = (λ e. absurd (ground arith), λ e. cc e)

-- Whatever the specification says, every key that ParseKeys accepts has a secret that is not empty
-- and a role above RoleNone, no secret stands twice, and authentication is enforced exactly when
-- some key was accepted.
pub parse_keys_sound :
    (spec : String)
    → All IsUsable (parse_keys spec).0.keys
      × IsMap (parse_keys spec).0.keys
      × (((parse_keys spec).0.enabled ≡ false) ↔ ((parse_keys spec).0.keys ≡ []))
unfolding parse_keys
parse_keys_sound spec = elim (Bool-cases (trim_space spec == "")) [
  | inl e ↦ rw e (tt, tt, (λ _. refl, λ _. refl))
  | inr e ↦
      let good = parse_entries-IsGood (split b',' (trim_space spec)) ([], []) (tt, tt) in
      rw e (good.0, good.1, positive_iff _)
]

-- One entry for each secret: the loop of the lookup finds the principal that the map holds.
lookup_from-fresh :
    (found : Option Principal) (keys : Keys) (secret : String)
    → IsFresh secret keys
    → lookup_from found keys secret ≡ found
unfolding lookup_from
lookup_from-fresh found [] secret h = refl
lookup_from-fresh found ((k, p) ∷ keys) secret h = rw h.0 (lookup_from-fresh found keys secret h.1)

test_absurd : (j k : String) → (j == k) ≡ false → j ≡ k → ⊥
test_absurd j k h e = cc (h, (eq_iff j k).1 e)

not_held : (k : String) (p : Principal) (keys : Keys) → IsFresh k keys → ¬ Holds k p keys
not_held k p [] fresh held = held
not_held k p ((j, q) ∷ keys) fresh (inl here) = cc (fresh.0, (eq_iff j k).1 here.0)
not_held k p ((j, q) ∷ keys) fresh (inr later) = not_held k p keys fresh.1 later

lookup_from_iff :
    (keys : Keys) (secret : String) (p : Principal)
    → IsMap keys
    → (lookup_from none keys secret ≡ some p) ↔ Holds secret p keys
unfolding lookup_from
lookup_from_iff [] secret p h = (λ e. cc e, λ held. absurd held)
lookup_from_iff ((k, q) ∷ keys) secret p h = elim (String-cases k secret) [
  | inl e ↦
      let fresh : IsFresh secret keys = subst (λ i. IsFresh i keys) e h.0 in
      rw (e, eq_refl, lookup_from-fresh (some q) keys secret fresh)
        (
          λ same. inl (refl, some-injective q p same),
          λ held. elim held [
            | inl here ↦ ap some here.1
            | inr later ↦ absurd (not_held secret p keys fresh later)
          ],
        )
  | inr e ↦
      let (to, from) = lookup_from_iff keys secret p h.1 in
      rw e (
        λ found. inr (to found),
        λ held. elim held [
          | inl here ↦ absurd (test_absurd k secret e here.0)
          | inr later ↦ from later
        ],
      )
]

pub lookup_own_iff :
    (spec secret : String) (p : Principal)
    → (lookup (parse_keys spec).0 secret ≡ some p) ↔ Holds secret p (parse_keys spec).0.keys
unfolding lookup
lookup_own_iff spec secret p =
    lookup_from_iff (parse_keys spec).0.keys secret p (parse_keys_sound spec).1

-- In whatever order the loop runs over the map of the parsed keys, that is over any list in which no
-- secret stands twice and which has the same bindings, the lookup of a secret gives a principal
-- exactly when the map holds that secret with that principal.
pub lookup_iff :
    (spec secret : String) (p : Principal) (walk : Keys)
    → IsMap walk
    → ((k : String) (q : Principal) → Holds k q walk ↔ Holds k q (parse_keys spec).0.keys)
    → (lookup (record ((parse_keys spec).0) { keys = walk }) secret ≡ some p)
      ↔ Holds secret p (parse_keys spec).0.keys
unfolding lookup
lookup_iff spec secret p walk once same =
    let (to, from) = lookup_from_iff walk secret p once in
    let (out, back) = same secret p in (λ e. out (to e), λ held. from (back held))

-- Two maps with the same bindings, such as one map walked in two orders, answer every lookup alike.
pub lookup_any_order :
    (keys keys' : Keys) (secret : String)
    → IsMap keys
    → IsMap keys'
    → ((p : Principal) → Holds secret p keys ↔ Holds secret p keys')
    → lookup_from none keys secret ≡ lookup_from none keys' secret
lookup_any_order keys keys' secret h h' same =
    options_agree (lookup_from none keys secret) (lookup_from none keys' secret) λ p. (
      λ e.
          (lookup_from_iff keys' secret p h').1
            ((same p).0 ((lookup_from_iff keys secret p h).0 e)),
      λ e.
          (lookup_from_iff keys secret p h).1
            ((same p).1 ((lookup_from_iff keys' secret p h').0 e)),
    )
  where
    options_agree :
        (o o' : Option Principal) → ((p : Principal) → (o ≡ some p) ↔ (o' ≡ some p)) → o ≡ o'
    options_agree none none f = refl
    options_agree none (some q) f = (f q).1 refl
    options_agree (some q) o' f = sym ((f q).0 refl)

-- An entry with no colon adds no key.
unusable :
    (text : String)
    → has b':' text ≡ false
    → (k : String) (p : Principal) → parse_entry text ≢ key k p
unfolding parse_entry parse_parts
unusable text h k p =
    rw (split_n-of_not-has b':' 1 (trim_space text) (has-trim_space b':' text h)) (ground arith)

add_unusable :
    (entry : KeyEntry) (warnings : List String)
    → ((k : String) (p : Principal) → entry ≢ key k p)
    → (add_entry entry ([], warnings)).0 ≡ []
unfolding add_entry
add_unusable blank warnings h = refl
add_unusable (malformed w) warnings h = refl
add_unusable (key k p) warnings h = absurd (h k p refl)

parse_entries-unusable :
    (texts : List String) (acc : Keys × List String)
    → All (λ t. has b':' t ≡ false) texts
    → acc.0 ≡ []
    → (parse_entries texts acc).0 ≡ []
unfolding parse_entries
parse_entries-unusable [] acc h e = e
parse_entries-unusable (text ∷ texts) (keys, warnings) h e =
    parse_entries-unusable texts (add_entry (parse_entry text) (keys, warnings)) h.1
      (rw e (add_unusable (parse_entry text) warnings (unusable text h.0)))

-- A specification without a colon, such as a bare secret, is accepted as a specification of no
-- keys: authentication is switched off.
pub parse_keys_fail_open :
    (spec : String)
    → has b':' spec ≡ false
    → ((parse_keys spec).0.enabled ≡ false) × ((parse_keys spec).0.keys ≡ [])
unfolding parse_keys
parse_keys_fail_open spec h = elim (Bool-cases (trim_space spec == "")) [
  | inl e ↦ rw e (refl, refl)
  | inr e ↦
      let none_kept =
        parse_entries-unusable (split b',' (trim_space spec)) ([], [])
          (All-split-has b':' b',' (trim_space spec) (has-trim_space b':' spec h)) refl in
      rw (e, none_kept) (refl, refl)
]
