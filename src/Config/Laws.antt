-- ===== src/Config/Laws.antt =====
-- What a configuration that passes the checks of production mode has, and what it may still lack.
use amankan.Prelude.{
  String, ◌≡◌, refl, ◌≢◌, ◌↔◌, ◌⊎◌, inl, inr, Bool, true, false, not, ◌&&◌, ◌||◌, List, [], ◌∷◌,
  ◌==◌, eq_iff, Bool-cases, eq-false_of_ne, All,
}
use amankan.Float64.{Float64}
use amankan.Config.{
  Config, graph_enabled, is_production, contains, Problem, no_api_keys, wildcard_cors,
  plain_database, default_graph_password, no_tls, no_rate_limit, check, wildcards, validate,
}

-- The settings that production mode asks for.
pub record IsHardened (fl : Float64) (c : Config fl.Carrier) : Type 0 where
  pub keys : c.api_keys ≢ ""
  pub origins : All (λ o. o ≢ "*") c.cors_origins
  pub database : contains c.database_url "sslmode=disable" ≡ false
  pub graph : (c.neo4j_uri ≡ "") ⊎ (c.neo4j_pass ≢ "amankanpass")
  pub certificate : c.tls_cert ≢ ""
  pub private_key : c.tls_key ≢ ""
  pub limited : fl.less_eq c.rate_limit (fl.dec 0 0) ≡ false

check_iff :
    (bad : Bool) (problem : Problem) (rest : List Problem)
    → (check bad problem rest ≡ []) ↔ ((bad ≡ false) × (rest ≡ []))
check_iff true problem rest = (λ e. cc e, λ e. cc e.0)
check_iff false problem rest = (λ e. (refl, e), λ e. e.1)

ne_iff : (s t : String) → ((s == t) ≡ false) ↔ (s ≢ t)
ne_iff s t = (λ e k. cc (e, (eq_iff s t).1 k), eq-false_of_ne s t)

or-false_iff : (a b : Bool) → ((a || b) ≡ false) ↔ ((a ≡ false) × (b ≡ false))
or-false_iff true b = (λ e. cc e, λ e. cc e.0)
or-false_iff false b = (λ e. (refl, e), λ e. e.1)

and-false_iff : (a b : Bool) → ((a && b) ≡ false) ↔ ((a ≡ false) ⊎ (b ≡ false))
and-false_iff true b = (λ e. inr e, λ e. elim e [ inl k ↦ cc k | inr k ↦ k ])
and-false_iff false b = (λ e. inl e, λ e. refl)

not-false_iff : (a : Bool) → (not a ≡ false) ↔ (a ≡ true)
not-false_iff true = (λ _. refl, λ _. refl)
not-false_iff false = (λ e. cc e, λ e. cc e)

wildcards_iff :
    (os : List String) (rest : List Problem)
    → (wildcards os rest ≡ []) ↔ (All (λ o. o ≢ "*") os × (rest ≡ []))
unfolding wildcards
wildcards_iff [] rest = (λ e. (tt, e), λ e. e.1)
wildcards_iff (o ∷ os) rest =
    let (to, from) = check_iff (o == "*") wildcard_cors (wildcards os rest) in
    let (to', from') = wildcards_iff os rest in
    let (ne, eq) = ne_iff o "*" in
    (
      λ e. ((ne (to e).0, (to' (to e).1).0), (to' (to e).1).1),
      λ h. from (eq h.0.0, from' (h.0.1, h.1)),
    )

-- The list of problems is empty exactly outside of production mode and for a configuration with an
-- API key text that is not empty, no CORS origin that is "*", no "sslmode=disable" in the database's
-- address, no graph or a graph password other than the default, the paths of a certificate and of
-- its key, and a rate limit of which the test "<= 0" is false, as it is of NaN.
pub validate_iff :
    (fl : Float64) (c : Config fl.Carrier)
    → (validate fl c ≡ []) ↔ ((is_production c ≡ false) ⊎ IsHardened fl c)
unfolding validate graph_enabled
validate_iff fl c =
    let k1 = check_iff (c.api_keys == "") no_api_keys in
    let k3 = check_iff (contains c.database_url "sslmode=disable") plain_database in
    let k4 = check_iff (graph_enabled c && c.neo4j_pass == "amankanpass") default_graph_password in
    let k5 = check_iff (c.tls_cert == "" || c.tls_key == "") no_tls in
    let k6 = check_iff (fl.less_eq c.rate_limit (fl.dec 0 0)) no_rate_limit in
    elim (Bool-cases (is_production c)) [
      | inr off ↦ rw off (λ _. inl refl, λ _. refl)
      | inl on ↦ rw on (
        λ e.
            let (keys, r1) = (k1 _).0 e in
            let (origins, r2) = (wildcards_iff c.cors_origins _).0 r1 in
            let (database, r3) = (k3 _).0 r2 in
            let (graph, r4) = (k4 _).0 r3 in
            let (tls, r5) = (k5 _).0 r4 in
            let (limited, _) = (k6 _).0 r5 in
            inr (record {
              keys = (ne_iff _ _).0 keys;
              origins = origins;
              database = database;
              graph = elim ((and-false_iff _ _).0 graph) [
                | inl k ↦ inl ((eq_iff _ _).0 ((not-false_iff _).0 k))
                | inr k ↦ inr ((ne_iff _ _).0 k)
              ];
              certificate = (ne_iff _ _).0 ((or-false_iff _ _).0 tls).0;
              private_key = (ne_iff _ _).0 ((or-false_iff _ _).0 tls).1;
              limited = limited;
            }),
        λ h. elim h [
          | inl off ↦ absurd (cc off)
          | inr good ↦ (k1 _).1 (
            (ne_iff _ _).1 good.keys,
            (wildcards_iff c.cors_origins _).1 (
              good.origins,
              (k3 _).1 (
                good.database,
                (k4 _).1 (
                  (and-false_iff _ _).1 (elim good.graph [
                    | inl k ↦ inl ((not-false_iff _).1 ((eq_iff _ _).1 k))
                    | inr k ↦ inr ((ne_iff _ _).1 k)
                  ]),
                  (k5 _).1 (
                    (or-false_iff _ _).1
                        ((ne_iff _ _).1 good.certificate, (ne_iff _ _).1 good.private_key),
                    (k6 []).1 (good.limited, refl),
                  ),
                ),
              ),
            ),
          )
        ],
      )
    ]

-- A configuration that passes still passes with any other API key text that is not empty.
pub validate-api_keys :
    (fl : Float64) (c : Config fl.Carrier) (spec : String)
    → validate fl c ≡ []
    → spec ≢ ""
    → validate fl (record c { api_keys = spec }) ≡ []
unfolding is_production
validate-api_keys fl c spec passes full =
    (validate_iff fl (record c { api_keys = spec })).1 (elim ((validate_iff fl c).0 passes) [
      | inl off ↦ inl off
      | inr good ↦ inr (record {
        keys = full;
        origins = good.origins;
        database = good.database;
        graph = good.graph;
        certificate = good.certificate;
        private_key = good.private_key;
        limited = good.limited;
      })
    ])
