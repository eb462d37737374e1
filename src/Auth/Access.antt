-- ===== src/Auth/Access.antt =====
-- What the two middlewares of the API-key authenticator let through.
use amankan.Prelude.{
  ℕ, ◌≤◌, ◌<◌, code, String, ◌≡◌, refl, ◌≢◌, ◌⊎◌, inl, inr, true, false, none, some, List, [], ◌∷◌,
  arith, ◌==◌, ltb, Bool-cases, Option-cases, eq-false_of_ne, ltb→lt, All,
}
use amankan.Strings.{has}
use amankan.Http.{Request, Writer, Handler, set_header, write_header, write_body}
use amankan.Auth.Roles.{Role, Principal, rank}
use amankan.Auth.{
  Authenticator, parse_keys, lookup, bearer, write_error, authenticate, check_role, require,
}
use amankan.Auth.Keys.{Holds, IsUsable, lookup_own_iff, parse_keys_sound, parse_keys_fail_open}

module _ {S : Type 0} where
  -- A handler behind the two middlewares.
  abbrev pub protected : Authenticator → Role → Handler S → Handler S
  protected a min next = authenticate a (require a min next)

-- An error answer carries its status if none was sent before.
pub status-write_error :
    (w : Writer) (code : ℕ) (msg : String)
    → w.status ≡ none
    → (write_error w code msg).status ≡ some code
unfolding write_error set_header write_header write_body
status-write_error w code msg h = rw h refl

module _ {S : Type 0} (a : Authenticator) (min : Role) (next : Handler S) (w : Writer) (r : Request)
    (s : S) where
  -- The handler ran, as this principal.
  pub record IsGranted (p : Principal) : Type 0 where
    pub known : lookup a (bearer r) ≡ some p
    pub enough : rank min ≤ rank p.role
    pub ran : protected a min next w r s ≡ next w (record r { principal = some p }) s

  -- The handler did not run: no state changed, and the answer has this status.
  pub record IsRefused (code : ℕ) : Type 0 where
    pub kept : (protected a min next w r s).1 ≡ s
    pub status : (protected a min next w r s).0.status ≡ some code

module _ {S : Type 0} (a : Authenticator) (min : Role) (next : Handler S) (w : Writer) (r : Request)
    (s : S) where
  protected-unknown :
      a.enabled ≡ true
      → (r.method == "OPTIONS") ≡ false
      → lookup a (bearer r) ≡ none
      → protected a min next w r s ≡ (write_error w 401 "missing or invalid API key", s)
  unfolding authenticate
  protected-unknown on method unknown = simp (on, method, unknown)

  protected-known :
      (p : Principal)
      → a.enabled ≡ true
      → (r.method == "OPTIONS") ≡ false
      → lookup a (bearer r) ≡ some p
      → protected a min next w r s ≡ check_role min next w (record r { principal = some p }) s
  unfolding authenticate require
  protected-known p on method known = simp (on, method, known)

  -- With authentication on, a request that is no preflight either runs the handler as the principal
  -- that its secret names, whose role is at least the required one; or is refused with 401, its
  -- secret being unknown; or with 403, its role being lower. A refusal changes no state.
  pub access_control :
      a.enabled ≡ true
      → r.method ≢ "OPTIONS"
      → w.status ≡ none
      → ((p : Principal) × IsGranted a min next w r s p)
        ⊎ ((lookup a (bearer r) ≡ none) × IsRefused a min next w r s 401)
        ⊎ ((p : Principal) × (lookup a (bearer r) ≡ some p)
            × (rank p.role < rank min)
            × IsRefused a min next w r s 403)
  unfolding check_role
  access_control on preflight clear =
      let method = eq-false_of_ne r.method "OPTIONS" preflight in
      elim (Option-cases (lookup a (bearer r))) [
        | inl unknown ↦
            let is = protected-unknown on method unknown in
            inr (
              inl (
                unknown,
                record { kept = rw is refl; status = rw is (status-write_error w 401 _ clear) },
              ))
        | inr (p, known) ↦
            let is = protected-known p on method known in
            elim (Bool-cases (ltb (rank p.role) (rank min))) [
              | inl low ↦ inr (
                  inr (
                    p,
                    known,
                    ltb→lt _ _ low,
                    record {
                      kept = rw (is, low) refl;
                      status = rw (is, low) (status-write_error w 403 _ clear);
                    },
                  ))
              | inr high ↦
                  inl (p, record { known = known; enough = ground arith; ran = rw (is, high) refl })
            ]
      ]

-- With authentication on, a request that presents no credential at all is refused with 401 and
-- changes no state, whatever the configured keys: no accepted key is the empty text.
pub no_credential :
    {S : Type 0} (spec : String) (min : Role) (next : Handler S) (w : Writer) (r : Request) (s : S)
    → (parse_keys spec).0.enabled ≡ true
    → r.method ≢ "OPTIONS"
    → w.status ≡ none
    → bearer r ≡ ""
    → IsRefused (parse_keys spec).0 min next w r s 401
no_credential spec min next w r s on preflight clear bare =
    let method = eq-false_of_ne r.method "OPTIONS" preflight in
    elim (Option-cases (lookup (parse_keys spec).0 (bearer r))) [
      | inl unknown ↦
          let is = protected-unknown (parse_keys spec).0 min next w r s on method unknown in
          record { kept = rw is refl; status = rw is (status-write_error w 401 _ clear) }
      | inr (p, known) ↦ absurd (
          empty_unusable p (parse_keys spec).0.keys (parse_keys_sound spec).0
            ((lookup_own_iff spec "" p).0 (rw bare at known)))
    ]
  where
    empty_unusable :
        (p : Principal) (keys : List (String × Principal)) → All IsUsable keys → ¬ Holds "" p keys
    empty_unusable p [] good held = held
    empty_unusable p (kv ∷ keys) good (inl here) = good.0.0 here.0
    empty_unusable p (kv ∷ keys) good (inr later) = empty_unusable p keys good.1 later

-- A specification without a colon leaves every handler, those of administrators included, open to
-- every request: it runs on the request as it came.
pub colonless_keys_open :
    {S : Type 0} (spec : String) (min : Role) (next : Handler S) (w : Writer) (r : Request) (s : S)
    → has b':' spec ≡ false
    → protected (parse_keys spec).0 min next w r s ≡ next w r s
unfolding authenticate require
colonless_keys_open spec min next w r s h = let off = (parse_keys_fail_open spec h).0 in rw off
