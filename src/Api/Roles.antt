-- ===== src/Api/Roles.antt =====
-- What a principal with the lowest role can do: the handlers of the routes that are open to it read.
use amankan.Prelude.{
  ℕ, ◌≤◌, String, ◌≡◌, refl, sym, subst, ◌⊎◌, inl, inr, true, false, Option, none, some, List, [],
  ◌∷◌, arith, ◌==◌, ltb, Bool-cases, Option-cases, All, Any,
}
use amankan.Float64.{Float64}
use amankan.Http.{Request, Writer, Handler}
use amankan.Auth.Roles.{Role, viewer, analyst, Principal, rank}
use amankan.Auth.{Authenticator, lookup, bearer, authenticate, require, check_role}
use amankan.Audit.{Platform}
use amankan.Audit.Log.{AuditLog, Outcome}
use amankan.Models.{Asset, ScanJob, Finding}
use amankan.Store.{
  Result, done, err, list_assets, get_asset, get_scan_job, list_scan_jobs, list_findings, find_row,
  counted, query,
}
use amankan.Api.{Route, is_mutating, audited, serve}
use amankan.Api.Service.{Backend}
use amankan.Api.Assets.{handle_list_assets, handle_get_asset, list_scans, get_scan}
use amankan.Api.Findings.{found, handle_list_findings, compliance_for_cwe}
use amankan.Api.GraphViews.{
  on_asset, of_asset, handle_list_accounts, attack_paths, handle_export_graph, priv_esc_path,
}
use amankan.Api.Router.{Surface, bindings}

-- Two states with the same rows, queue and graph; the calls of the server are only counted.
pub record SameState {F G : Type 0} (s s' : Backend F G) : Type 0 where
  pub assets : s'.tables.assets ≡ s.tables.assets
  pub jobs : s'.tables.jobs ≡ s.tables.jobs
  pub findings : s'.tables.findings ≡ s.tables.findings
  pub list : s'.list ≡ s.list
  pub graph : s'.graph ≡ s.graph

abbrev counted_only :
    {F G : Type 0} (s : Backend F G) → SameState s (record s { tables = counted s.tables })
counted_only s = record { assets = refl; jobs = refl; findings = refl; list = refl; graph = refl }

abbrev unchanged : {F G : Type 0} (s : Backend F G) → SameState s s
unchanged s = record { assets = refl; jobs = refl; findings = refl; list = refl; graph = refl }

module _ {S : Type 0} (p : Platform) (o : Outcome) (now : ℕ) (a : Authenticator) (min : Role)
    (next : Handler S) (w : Writer) (r : Request) (log : AuditLog) (s : S) (q : Principal) where
  -- A request of a known principal that is no preflight leaves the state alone, or is one of a
  -- principal with the route's role and leaves the state that the handler leaves.
  serve-state :
      a.enabled ≡ true
      → lookup a (bearer r) ≡ some q
      → (r.method == "OPTIONS") ≡ false
      → ((serve p o now a min next w r (log, s)).1.1 ≡ s)
        ⊎ ((w' : Writer) × (rank min ≤ rank q.role)
            × ((serve p o now a min next w r (log, s)).1.1
                ≡ (next w' (record r { principal = some q }) s).1))
  unfolding serve authenticate audited require check_role
  serve-state on known plain = elim (Bool-cases (is_mutating r.method)) [
    | inl m ↦ elim (Bool-cases (ltb (rank q.role) (rank min))) [
      | inl low ↦ inl (simp (on, known, plain, m, low))
      | inr high ↦ inr (record w { recorded = 200 }, ground arith, simp (on, known, plain, m, high))
    ]
    | inr m ↦ elim (Bool-cases (ltb (rank q.role) (rank min))) [
      | inl low ↦ inl (simp (on, known, plain, m, low))
      | inr high ↦ inr (w, ground arith, simp (on, known, plain, m, high))
    ]
  ]

module _ (fl : Float64) {G : Type 0} (x : Surface fl G) where
  abbrev Site : Type 0
  Site = Backend fl.Carrier G

  abbrev Reads : Handler Site → Type 0
  Reads next = (w : Writer) (r : Request) (s : Site) → SameState s (next w r s).1

  handle_list_assets-Reads : Reads (handle_list_assets x.codec x.backing)
  unfolding handle_list_assets list_assets
  handle_list_assets-Reads w r s = elim (Option-cases (x.backing.server.down s.tables.calls)) [
    | inl e ↦ rw e (counted_only s)
    | inr (m, e) ↦ rw e (counted_only s)
  ]

  list_scans-Reads : Reads (list_scans x.codec x.backing)
  unfolding list_scans list_scan_jobs
  list_scans-Reads w r s = elim (Option-cases (x.backing.server.down s.tables.calls)) [
    | inl e ↦ rw e (counted_only s)
    | inr (m, e) ↦ rw e (counted_only s)
  ]

  handle_get_asset-Reads : Reads (handle_get_asset x.codec x.backing)
  unfolding handle_get_asset get_asset
  handle_get_asset-Reads w r s = elim (Option-cases (x.backing.server.down s.tables.calls)) [
    | inr (m, e) ↦ rw e (counted_only s)
    | inl e ↦ elim (Option-cases (find_row Asset.id (r.url_param "id") s.tables.assets)) [
      | inl k ↦ rw (e, k) (counted_only s)
      | inr (y, k) ↦ rw (e, k) (counted_only s)
    ]
  ]

  get_scan-Reads : Reads (get_scan x.codec x.backing)
  unfolding get_scan get_scan_job
  get_scan-Reads w r s = elim (Option-cases (x.backing.server.down s.tables.calls)) [
    | inr (m, e) ↦ rw e (counted_only s)
    | inl e ↦ elim (Option-cases (find_row ScanJob.id (r.url_param "id") s.tables.jobs)) [
      | inl k ↦ rw (e, k) (counted_only s)
      | inr (y, k) ↦ rw (e, k) (counted_only s)
    ]
  ]

  on_asset-SameState :
      (w : Writer) (answer : G → Writer) (g : G) (down : Option String) (res : Result Asset)
      (s : Site)
      → SameState s
          (on_asset fl fl.minus x.codec x.backing x.queries x.parse_float w answer
            (some g)
            (query down res s.tables)
            s).1
  on_asset-SameState w answer g (some e) res s = counted_only s
  on_asset-SameState w answer g none (err e) s = counted_only s
  on_asset-SameState w answer g none (done a) s = counted_only s

  of_asset-SameState :
      (w : Writer) (r : Request) (answer : G → Writer) (g : Option G) (s : Site)
      → SameState s
          (of_asset fl fl.minus x.codec x.backing x.queries x.parse_float w r answer g s).1
  unfolding get_asset
  of_asset-SameState w r answer none s = unchanged s
  of_asset-SameState w r answer (some g) s =
      on_asset-SameState w answer g (x.backing.server.down s.tables.calls) _ s

  handle_list_accounts-Reads :
      Reads (handle_list_accounts fl fl.minus x.codec x.backing x.queries x.parse_float)
  unfolding handle_list_accounts
  handle_list_accounts-Reads w r s = of_asset-SameState w r _ s.graph s

  attack_paths-Reads : Reads (attack_paths fl fl.minus x.codec x.backing x.queries x.parse_float)
  unfolding attack_paths
  attack_paths-Reads w r s = of_asset-SameState w r _ s.graph s

  found-SameState :
      (w : Writer) (down : Option String) (res : Result (List (Finding fl.Carrier))) (s : Site)
      → SameState s
          (found fl x.codec x.backing x.hours x.feed x.now w (query down res s.tables) s).1
  found-SameState w (some e) res s = counted_only s
  found-SameState w none (err e) s = counted_only s
  found-SameState w none (done fs) s = counted_only s

  handle_list_findings-Reads :
      Reads (handle_list_findings fl x.codec x.backing x.hours x.feed x.now)
  unfolding handle_list_findings list_findings
  handle_list_findings-Reads w r s = found-SameState w (x.backing.server.down s.tables.calls) _ s

  handle_export_graph-Reads :
      Reads (handle_export_graph fl fl.minus x.codec x.backing x.queries x.parse_float)
  unfolding handle_export_graph
  handle_export_graph-Reads w r s = unchanged s

  priv_esc_path-Reads : Reads (priv_esc_path fl fl.minus x.codec x.backing x.queries x.parse_float)
  unfolding priv_esc_path
  priv_esc_path-Reads w r s = unchanged s

  compliance_for_cwe-Reads : Reads (compliance_for_cwe x.codec)
  unfolding compliance_for_cwe
  compliance_for_cwe-Reads w r s = unchanged s

  -- A route that is no preflight, and whose handler only reads or which asks for an analyst at least.
  abbrev IsGuarded : Route × Handler Site → Type 0
  IsGuarded u = ((u.0.method == "OPTIONS") ≡ false) × (Reads u.1 ⊎ (rank analyst ≤ rank u.0.min))

  all-IsGuarded : All IsGuarded (bindings fl x)
  all-IsGuarded = (
    (refl, inl handle_list_assets-Reads),
    (
      (refl, inl handle_get_asset-Reads),
      (
        (refl, inl list_scans-Reads),
        (
          (refl, inl get_scan-Reads),
          (
            (refl, inl handle_list_findings-Reads),
            (
              (refl, inl compliance_for_cwe-Reads),
              (
                (refl, inl handle_export_graph-Reads),
                (
                  (refl, inl attack_paths-Reads),
                  (
                    (refl, inl handle_list_accounts-Reads),
                    (
                      (refl, inl priv_esc_path-Reads),
                      (
                        (refl, inr (omega arith)),
                        (
                          (refl, inr (omega arith)),
                          (
                            (refl, inr (omega arith)),
                            (
                              (refl, inr (omega arith)),
                              (
                                (refl, inr (omega arith)),
                                (
                                  (refl, inr (omega arith)),
                                  (
                                    (refl, inr (omega arith)),
                                    (
                                      (refl, inr (omega arith)),
                                      (
                                        (refl, inr (omega arith)),
                                        (
                                          (refl, inr (omega arith)),
                                          (
                                            (refl, inr (omega arith)),
                                            (
                                              (refl, inr (omega arith)),
                                              ((refl, inr (omega arith)), tt),
                                            ),
                                          ),
                                        ),
                                      ),
                                    ),
                                  ),
                                ),
                              ),
                            ),
                          ),
                        ),
                      ),
                    ),
                  ),
                ),
              ),
            ),
          ),
        ),
      ),
    ),
  )

  member-IsGuarded :
      (us : List (Route × Handler Site)) (u : Route × Handler Site)
      → All IsGuarded us
      → Any (λ v. v ≡ u) us
      → IsGuarded u
  member-IsGuarded [] u h k = absurd k
  member-IsGuarded (v ∷ us) u h (inl e) = subst IsGuarded e h.0
  member-IsGuarded (v ∷ us) u h (inr k) = member-IsGuarded us u h.1 k

  -- With authentication on, a request of a principal with at most the role viewer, to any route of
  -- the router with its handler, the routes with GET included, leaves the rows of the tables, the
  -- queue and the graph as they were.
  pub viewer_read_only :
      (p : Platform) (o : Outcome) (now : ℕ) (a : Authenticator) (t : Route) (next : Handler Site)
      (w : Writer) (r : Request) (log : AuditLog) (s : Site) (q : Principal)
      → Any (λ v. v ≡ (t, next)) (bindings fl x)
      → r.method ≡ t.method
      → a.enabled ≡ true
      → lookup a (bearer r) ≡ some q
      → rank q.role ≤ rank viewer
      → SameState s (serve p o now a t.min next w r (log, s)).1.1
  viewer_read_only p o now a t next w r log s q listed same on known low =
      let (plain, guard) = member-IsGuarded (bindings fl x) (t, next) all-IsGuarded listed in
      let plain' : (r.method == "OPTIONS") ≡ false = rw same plain in
      elim (serve-state p o now a t.min next w r log s q on known plain') [
        | inl kept ↦ subst (SameState s) (sym kept) (unchanged s)
        | inr (w', enough, e) ↦ elim guard [
          | inl reads ↦ subst (SameState s) (sym e) (reads w' (record r { principal = some q }) s)
          | inr high ↦ absurd (omega arith)
        ]
      ]
