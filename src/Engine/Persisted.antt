-- ===== src/Engine/Persisted.antt =====
-- internal/engine/processor.go: what the run of the scanners leaves in the tables.
use amankan.Prelude.{
  ℕ, ◌+◌, String, ◌≡◌, refl, sym, ◌∙◌, subst, true, inl, inr, Option, ◌==◌, if◌then◌else◌, none,
  some, List, [], ◌∷◌, ◌++◌, arith, Bool-cases, Option-cases, length, length-append, All,
  All-append,
}
use mathlib.Core.List.{append_assoc, append-nil}
use amankan.Float64.{Float64, FloatLaws, AtMost}
use amankan.Models.{Asset, ScannerType, Finding, open_finding}
use amankan.Scanner.{World, RawResult, ScanResult, scanned, failed_scan}
use amankan.Scanner.Adapters.{scan}
use amankan.Normalize.Enrich.{normalize}
use amankan.Normalize.Laws.{IsEnriched, normalize-IsEnriched}
use amankan.Store.{
  Server, Tables, Error, Result, done, err, create_finding, new_finding, finding_row, has_row,
  list_assets,
}
use amankan.Engine.{Processor, System}
use amankan.Engine.Subnet.{derive_subnet_reachability, derived}
use amankan.Engine.Process.{Progress, persisted, persist_all, take_result, run_scanners}

-- A row of a scan of an asset, open and scored.
pub record IsOf (fl : Float64) (job_id : String) (asset : Asset) (f : Finding fl.Carrier)
    : Type 0 where
  pub job : f.scan_job_id ≡ job_id
  pub owner : f.asset_id ≡ asset.id
  pub state : f.status ≡ open_finding
  pub lower : AtMost fl (fl.dec 0 0) f.risk_score
  pub upper : AtMost fl f.risk_score (fl.dec 10 0)

-- The row of a finding: every column but the identifier and the time of creation is the finding's.
pub record IsRowOf {F : Type 0} (f row : Finding F) : Type 0 where
  pub job : row.scan_job_id ≡ f.scan_job_id
  pub owner : row.asset_id ≡ f.asset_id
  pub scanner : row.scanner ≡ f.scanner
  pub title : row.title ≡ f.title
  pub desc : row.desc ≡ f.desc
  pub severity : row.severity ≡ f.severity
  pub cvss : row.cvss ≡ f.cvss
  pub cve : row.cve ≡ f.cve
  pub cwe : row.cwe ≡ f.cwe
  pub port : row.port ≡ f.port
  pub service : row.service ≡ f.service
  pub evidence : row.evidence ≡ f.evidence
  pub status : row.status ≡ f.status
  pub score : row.risk_score ≡ f.risk_score
  pub exploited : row.known_exploit ≡ f.known_exploit
  pub controls : row.compliance ≡ f.compliance
  pub guide : row.remediation ≡ f.remediation

-- The identifier of the row of a finding, at some call of the server.
abbrev pub IsNamed : {F : Type 0} → Server F → Finding F → String → Type 0
IsNamed sv f i = (call : ℕ) × (i ≡ (if f.id == "" then sv.uuid call else f.id))

-- The rows that a list of findings leaves in a table, in order: one for each finding, but for one
-- whose row would have an identifier that the table already has.
pub data Leaves {F : Type 0} (sv : Server F) (table : List (Finding F))
    : List (Finding F) → List (Finding F) → Type 0 where
  nothing : Leaves sv table [] []
  stored :
      {fs rows : List (Finding F)} (f row : Finding F)
      → Leaves sv table fs rows
      → IsRowOf f row
      → IsNamed sv f row.id
      → Leaves sv table (fs ++ f ∷ []) (rows ++ row ∷ [])
  refused :
      {fs rows : List (Finding F)} (f : Finding F) (i : String)
      → Leaves sv table fs rows
      → IsNamed sv f i
      → has_row Finding.id i (table ++ rows) ≡ true
      → Leaves sv table (fs ++ f ∷ []) rows

-- The tables with new rows of findings, as many as were counted, which the given findings left.
pub record Grown (fl : Float64) (sv : Server fl.Carrier) (job_id : String) (asset : Asset)
    (before after : Tables fl.Carrier) (total : ℕ) (given : List (Finding fl.Carrier))
    : Type 0 where
  pub jobs : after.jobs ≡ before.jobs
  pub assets : after.assets ≡ before.assets
  pub rows : List (Finding fl.Carrier)
  pub findings : after.findings ≡ before.findings ++ rows
  pub count : length rows ≡ total
  pub all_of : All (IsOf fl job_id asset) rows
  pub kept : Leaves sv before.findings given rows

module _ (fl : Float64) (sv : Server fl.Carrier) where
  -- What CreateFinding leaves: a new row where it gives no error.
  abbrev Stored :
      Finding fl.Carrier
      → Tables fl.Carrier
      → Option Error × Finding fl.Carrier × Tables fl.Carrier
      → Type 0
  Stored f db (none, f', db') =
      (db'.jobs ≡ db.jobs)
      × (db'.assets ≡ db.assets)
      × (db'.findings ≡ db.findings ++ finding_row sv (fl.dec 0 0) (new_finding sv db.calls f) ∷ [])
  Stored f db (some e, f', db') =
      (db'.jobs ≡ db.jobs)
      × (db'.assets ≡ db.assets)
      × (db'.findings ≡ db.findings)
      × (has_row Finding.id (new_finding sv db.calls f).id db.findings ≡ true)

  create_finding-Stored :
      (f : Finding fl.Carrier) (db : Tables fl.Carrier)
      → ((n : ℕ) → sv.down n ≡ none)
      → Stored f db (create_finding sv (fl.dec 0 0) f db)
  unfolding create_finding
  create_finding-Stored f db up =
      elim (Bool-cases (has_row Finding.id (new_finding sv db.calls f).id db.findings)) [
        | inl t ↦ rw t (refl, refl, refl, t)
        | inr t ↦ rw (t, up db.calls) (refl, refl, refl)
      ]

module _ (fl : Float64) {G : Type 0} (world : World) (p : Processor fl world G) (asset : Asset)
    (job_id : String) where
  -- The findings that Normalize makes of the results of the scanners.
  abbrev pub found_in : Option (List (Finding fl.Carrier)) → List (Finding fl.Carrier)
  found_in none = []
  found_in (some fs) = fs

  abbrev pub result_findings : ScanResult → List (Finding fl.Carrier)
  result_findings failed_scan = []
  result_findings (scanned raw) = found_in (normalize fl p.decoders p.feed raw asset job_id)

  abbrev pub all_findings : List ScannerType → List (Finding fl.Carrier)
  all_findings [] = []
  all_findings (sc ∷ scs) = result_findings (scan world sc p.opts asset).1 ++ all_findings scs

module _ (fl : Float64) {G : Type 0} (world : World) (p : Processor fl world G) (asset : Asset)
    (job_id : String) (before : Tables fl.Carrier) where
  abbrev pub Growing : Progress fl.Carrier G → List (Finding fl.Carrier) → Type 0
  Growing r given = Grown fl p.server job_id asset before r.system.tables r.total given

  same-rows :
      (db db' : Tables fl.Carrier) (total : ℕ) (given : List (Finding fl.Carrier))
      → Grown fl p.server job_id asset before db total given
      → (db'.jobs ≡ db.jobs) × (db'.assets ≡ db.assets) × (db'.findings ≡ db.findings)
      → Grown fl p.server job_id asset before db' total given
  same-rows db db' total given g (j, a, f) = record {
    jobs = j ∙ g.jobs;
    assets = a ∙ g.assets;
    rows = g.rows;
    findings = f ∙ g.findings;
    count = g.count;
    all_of = g.all_of;
    kept = g.kept;
  }

  -- A finding whose insert was refused.
  no_more :
      (db db' : Tables fl.Carrier) (total call : ℕ) (given : List (Finding fl.Carrier))
      (f : Finding fl.Carrier)
      → Grown fl p.server job_id asset before db total given
      → has_row Finding.id (new_finding p.server call f).id db.findings ≡ true
      → (db'.jobs ≡ db.jobs) × (db'.assets ≡ db.assets) × (db'.findings ≡ db.findings)
      → Grown fl p.server job_id asset before db' total (given ++ f ∷ [])
  no_more db db' total call given f g taken (j, a, e) = record {
    jobs = j ∙ g.jobs;
    assets = a ∙ g.assets;
    rows = g.rows;
    findings = e ∙ g.findings;
    count = g.count;
    all_of = g.all_of;
    kept =
        refused f (new_finding p.server call f).id g.kept (call, refl)
          (subst (λ t. has_row Finding.id (new_finding p.server call f).id t ≡ true) g.findings
            taken);
  }

  one_more :
      (db db' : Tables fl.Carrier) (total : ℕ) (given : List (Finding fl.Carrier))
      (f row : Finding fl.Carrier)
      → Grown fl p.server job_id asset before db total given
      → IsOf fl job_id asset row
      → IsRowOf f row
      → IsNamed p.server f row.id
      → (db'.jobs ≡ db.jobs) × (db'.assets ≡ db.assets) × (db'.findings ≡ db.findings ++ row ∷ [])
      → Grown fl p.server job_id asset before db' (total + 1) (given ++ f ∷ [])
  one_more db db' total given f row g of is named (j, a, e) = record {
    jobs = j ∙ g.jobs;
    assets = a ∙ g.assets;
    rows = g.rows ++ row ∷ [];
    findings = e ∙ (rw g.findings (append_assoc before.findings g.rows (row ∷ [])));
    count = omega (arith, length-append g.rows (row ∷ []), g.count);
    all_of = All-append _ g.rows (row ∷ []) g.all_of (of, tt);
    kept = stored f row g.kept is named;
  }

  persisted-Growing :
      (f : Finding fl.Carrier) (r : Progress fl.Carrier G) (given : List (Finding fl.Carrier))
      (end : Option Error × Finding fl.Carrier × Tables fl.Carrier)
      → IsOf fl job_id asset f
      → Stored fl p.server f r.system.tables end
      → Growing r given
      → Growing (persisted fl world p asset end r) (given ++ f ∷ [])
  persisted-Growing f r given (some e, f', db) of (j, a, same, taken) g =
      no_more r.system.tables db r.total r.system.tables.calls given f g taken (j, a, same)
  persisted-Growing f r given (none, f', db) of new g =
      one_more r.system.tables db r.total given f _ g
        (record {
          job = of.job;
          owner = of.owner;
          state = rw of.state refl;
          lower = of.lower;
          upper = of.upper;
        })
        (record {
          job = refl;
          owner = refl;
          scanner = refl;
          title = refl;
          desc = refl;
          severity = refl;
          cvss = refl;
          cve = refl;
          cwe = refl;
          port = refl;
          service = refl;
          evidence = refl;
          status = rw of.state refl;
          score = refl;
          exploited = refl;
          controls = refl;
          guide = refl;
        })
        (r.system.tables.calls, refl) new

  persist_all-Growing :
      (fs : List (Finding fl.Carrier)) (r : Progress fl.Carrier G)
      (given : List (Finding fl.Carrier))
      → ((n : ℕ) → p.server.down n ≡ none)
      → All (IsOf fl job_id asset) fs
      → Growing r given
      → Growing (persist_all fl world p asset fs r) (given ++ fs)
  unfolding persist_all
  persist_all-Growing [] r given up of g = subst (Growing r) (sym (append-nil given)) g
  persist_all-Growing (f ∷ fs) r given up of g =
      subst (Growing (persist_all fl world p asset (f ∷ fs) r)) (append_assoc given (f ∷ []) fs) (
        persist_all-Growing fs _ (given ++ f ∷ []) up of.1 (
          persisted-Growing f r given _ of.0
            (create_finding-Stored fl p.server f r.system.tables up) g))

  all-IsOf-IsEnriched :
      (sc : ScannerType) (fs : List (Finding fl.Carrier))
      → All (IsEnriched fl p.feed asset job_id sc) fs
      → All (IsOf fl job_id asset) fs
  all-IsOf-IsEnriched sc [] h = tt
  all-IsOf-IsEnriched sc (f ∷ fs) (h, hs) = (
    record { job = h.job; owner = h.owner; state = h.state; lower = h.lower; upper = h.upper },
    all-IsOf-IsEnriched sc fs hs,
  )

  all-IsOf_scan :
      (raw : RawResult) (fs : List (Finding fl.Carrier))
      → FloatLaws fl
      → normalize fl p.decoders p.feed raw asset job_id ≡ some fs
      → All (IsOf fl job_id asset) fs
  all-IsOf_scan raw fs laws e =
      all-IsOf-IsEnriched raw.scanner fs
        (normalize-IsEnriched fl laws p.decoders p.feed raw asset job_id fs e)

  take_result-Growing :
      (sc : ScannerType) (result : ScanResult) (r : Progress fl.Carrier G)
      (given : List (Finding fl.Carrier))
      → ((n : ℕ) → p.server.down n ≡ none)
      → FloatLaws fl
      → Growing r given
      → Growing
          (take_result fl world p asset job_id sc result r)
          (given ++ result_findings fl world p asset job_id result)
  unfolding take_result
  take_result-Growing sc failed_scan r given up laws g =
      subst (Growing (take_result fl world p asset job_id sc failed_scan r))
        (sym (append-nil given)) g
  take_result-Growing sc (scanned raw) r given up laws g =
      elim (Option-cases (normalize fl p.decoders p.feed raw asset job_id)) [
        | inl e ↦ rw (e, append-nil given) g
        | inr (fs, e) ↦ rw e (persist_all-Growing fs _ given up (all-IsOf_scan raw fs laws e) g)
      ]

  pub run_scanners-Growing :
      (scs : List ScannerType) (r : Progress fl.Carrier G) (given : List (Finding fl.Carrier))
      → ((n : ℕ) → p.server.down n ≡ none)
      → FloatLaws fl
      → Growing r given
      → Growing
          (run_scanners fl world p asset job_id scs r)
          (given ++ all_findings fl world p asset job_id scs)
  unfolding run_scanners
  run_scanners-Growing [] r given up laws g = subst (Growing r) (sym (append-nil given)) g
  run_scanners-Growing (sc ∷ scs) r given up laws g =
      let result = (scan world sc p.opts asset).1 in
      subst (Growing (run_scanners fl world p asset job_id (sc ∷ scs) r))
        (append_assoc given (result_findings fl world p asset job_id result)
          (all_findings fl world p asset job_id scs))
        (run_scanners-Growing scs _ (given ++ result_findings fl world p asset job_id result) up
          laws (take_result-Growing sc result r given up laws g))

  derived-Growing :
      (listed : Result (List Asset)) (db : Tables fl.Carrier) (g : Option G) (total : ℕ)
      (given : List (Finding fl.Carrier))
      → Grown fl p.server job_id asset before db total given
      → Grown fl p.server job_id asset before
          (derived fl world p asset (listed, db) g).tables
          total
          given
  derived-Growing (err e) db g total given h = h
  derived-Growing (done assets) db g total given h = h

  pub derive_subnet_reachability-Growing :
      (s : System fl.Carrier G) (total : ℕ) (given : List (Finding fl.Carrier))
      → Grown fl p.server job_id asset before s.tables total given
      → Grown fl p.server job_id asset before
          (derive_subnet_reachability fl world p asset s).tables
          total
          given
  unfolding derive_subnet_reachability list_assets
  derive_subnet_reachability-Growing s total given g =
      elim (Option-cases (p.server.down s.tables.calls)) [
        | inl e ↦ rw e (same-rows _ _ total given g (refl, refl, refl))
        | inr (x, e) ↦ rw e (same-rows _ _ total given g (refl, refl, refl))
      ]
