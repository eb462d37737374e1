-- ===== src/Engine/Outcome.antt =====
-- internal/engine/processor.go: how a job ends.
use Prim.Native.String.{◌++◌ as append}
use amankan.Prelude.{
  ℕ, ◌+◌, String, ◌≡◌, refl, sym, ap, ◌∙◌, ◌≢◌, inl, inr, Bool, true, false, not, ◌&&◌, none, some,
  List, [], eqb, if◌then◌else◌, Bool-cases, length, All,
}
use mathlib.Core.List.{◌++◌, append-nil}
use amankan.Strings.{join}
use amankan.Float64.{Float64, FloatLaws}
use amankan.Models.{Asset, ScanJob, completed, failed, Finding}
use amankan.Scanner.{World, for_profile}
use amankan.Store.{
  Tables, find_row, update_row, map_row, find_row-update_row, find_row-update_row_other,
  get_scan_job, get_asset, mark_running, mark_failed, mark_completed, as_running, as_failed,
  as_completed, counted,
}
use amankan.Engine.{Processor, System, on_graph}
use amankan.Engine.Subnet.{is_ip, derive_subnet_reachability}
use amankan.Engine.Persisted.{
  IsOf, Leaves, nothing, Grown, Growing, all_findings, run_scanners-Growing,
  derive_subnet_reachability-Growing,
}
use amankan.Engine.Process.{
  Progress, has_graph, run_scanners, fresh, work, finish, is_empty, process,
}
use amankan.Engine.Results.{is_failure, is_mock, some_result, results, Noted, run_scanners-Noted}

module _ (fl : Float64) {G : Type 0} (world : World) (p : Processor fl world G) where
  -- The job as it is after its run, and everything else as it was.
  pub record Ended (job : ScanJob) (asset : Asset) (before after : Tables fl.Carrier) : Type 0 where
    pub rows : List (Finding fl.Carrier)
    pub findings : after.findings ≡ before.findings ++ rows
    pub all_of : All (IsOf fl job.id asset) rows
    pub kept :
        Leaves p.server before.findings
          (all_findings fl world p asset job.id (for_profile job.profile))
          rows
    pub row : ScanJob
    pub same_asset : row.asset_id ≡ job.asset_id
    pub found : find_row ScanJob.id job.id after.jobs ≡ some row
    pub status : row.status ≡ (
        if eqb (length rows) 0
          && some_result is_failure (results fl world p asset (for_profile job.profile))
        then failed
        else completed)
    pub used_mock :
        row.status ≡ completed
        → row.used_mock ≡ some_result is_mock (results fl world p asset (for_profile job.profile))
    pub finished : (n : ℕ) × (row.finished_at ≡ some n)
    pub others :
        (k : String)
        → job.id ≢ k
        → find_row ScanJob.id k after.jobs ≡ find_row ScanJob.id k before.jobs
    pub assets : after.assets ≡ before.assets

  module _ (up : (n : ℕ) → p.server.down n ≡ none) where
    -- The tables in which the scanners start.
    abbrev running_tables : ScanJob → Tables fl.Carrier → Tables fl.Carrier
    running_tables job db =
        let db' = counted (counted db) in
        counted (record db' {
          jobs = update_row ScanJob.id job.id (as_running p.server db'.calls) db.jobs;
        })

    process-finish :
        (job : ScanJob) (asset : Asset) (s : System fl.Carrier G)
        → find_row ScanJob.id job.id s.tables.jobs ≡ some job
        → find_row Asset.id job.asset_id s.tables.assets ≡ some asset
        → process fl world p job.id s
          ≡ finish fl world p job.id (
              work fl world p job asset (record {
                tables = running_tables job s.tables;
                graph = on_graph (p.graph.sync_asset asset) s.graph;
              }))
    unfolding process get_scan_job get_asset mark_running
    process-finish job asset s found owned =
        rw (up s.tables.calls, found, up (s.tables.calls + 1), owned, up (s.tables.calls + 1 + 1))
          refl

    derived-keeps :
        (t : Bool) (job_id : String) (asset : Asset) (before : Tables fl.Carrier)
        (bad mocked : Bool) (r : Progress fl.Carrier G) (given : List (Finding fl.Carrier))
        → Growing fl world p asset job_id before r given
        → Noted fl world p bad mocked r
        → let r' =
            if t
            then record r { system = derive_subnet_reachability fl world p asset r.system }
            else r in
          Growing fl world p asset job_id before r' given × Noted fl world p bad mocked r'
    derived-keeps true job_id asset before bad mocked r given g n = (
      derive_subnet_reachability-Growing fl world p asset job_id before r.system r.total given g,
      n,
    )
    derived-keeps false job_id asset before bad mocked r given g n = (g, n)

    if_self : (b : Bool) → (if b then true else false) ≡ b
    if_self true = refl
    if_self false = refl

    start-Grown :
        (job : ScanJob) (asset : Asset) (db : Tables fl.Carrier)
        → Grown fl p.server job.id asset db db 0 []
    start-Grown job asset db = record {
      jobs = refl;
      assets = refl;
      rows = [];
      findings = sym (append-nil db.findings);
      count = refl;
      all_of = tt;
      kept = nothing;
    }

    work-keeps :
        (job : ScanJob) (asset : Asset) (s : System fl.Carrier G)
        → FloatLaws fl
        → Growing fl world p asset job.id s.tables
            (work fl world p job asset s)
            (all_findings fl world p asset job.id (for_profile job.profile))
          × Noted fl world p
              (some_result is_failure (results fl world p asset (for_profile job.profile)))
              (some_result is_mock (results fl world p asset (for_profile job.profile)))
              (work fl world p job asset s)
    work-keeps job asset s laws =
        let scs = for_profile job.profile in
        let r = run_scanners fl world p asset job.id scs (fresh fl world p s) in
        let (e, m) =
          run_scanners-Noted fl world p asset job.id scs false false (fresh fl world p s)
            (refl, refl) in
        derived-keeps (has_graph fl world p r.system.graph && is_ip asset.asset_type) job.id asset
          s.tables _ _ r _
          (run_scanners-Growing fl world p asset job.id s.tables scs (fresh fl world p s) [] up laws
            (start-Grown job asset s.tables))
          (e ∙ ap not (if_self _), m ∙ if_self _)

    not-not : (b : Bool) → not (not b) ≡ b
    not-not true = refl
    not-not false = refl

    -- The row of a job that is set to run and then to its end.
    set-twice :
        (job : ScanJob) (start end : ScanJob → ScanJob) (jobs jobs' : List ScanJob)
        → ((j : ScanJob) → ScanJob.id (start j) ≡ j.id)
        → ((j : ScanJob) → ScanJob.id (end j) ≡ j.id)
        → find_row ScanJob.id job.id jobs ≡ some job
        → jobs' ≡ update_row ScanJob.id job.id start jobs
        → (find_row ScanJob.id job.id (update_row ScanJob.id job.id end jobs')
            ≡ some (end (start job)))
          × ((k : String)
              → job.id ≢ k
              → find_row ScanJob.id k (update_row ScanJob.id job.id end jobs')
                ≡ find_row ScanJob.id k jobs)
    set-twice job start end jobs jobs' hs he found e = rw e (
      find_row-update_row ScanJob.id job.id end _ he
          ∙ ap (map_row end) (find_row-update_row ScanJob.id job.id start jobs hs)
          ∙ ap (λ row. map_row end (map_row start row)) found,
      λ k other.
          find_row-update_row_other ScanJob.id job.id k end _ he other
          ∙ find_row-update_row_other ScanJob.id job.id k start jobs hs other,
    )

    finish-Ended :
        (job : ScanJob) (asset : Asset) (db : Tables fl.Carrier) (r : Progress fl.Carrier G)
        → find_row ScanJob.id job.id db.jobs ≡ some job
        → Growing fl world p asset job.id
            (running_tables job db)
            r
            (all_findings fl world p asset job.id (for_profile job.profile))
        → Noted fl world p
            (some_result is_failure (results fl world p asset (for_profile job.profile)))
            (some_result is_mock (results fl world p asset (for_profile job.profile)))
            r
        → ((finish fl world p job.id r).0 ≡ none)
          × Ended job asset db (finish fl world p job.id r).1.tables
    unfolding mark_failed mark_completed
    finish-Ended job asset db r found g (e, m) =
        let bad = some_result is_failure (results fl world p asset (for_profile job.profile)) in
        let verdict : (eqb (length g.rows) 0 && bad)
            ≡ (eqb r.total 0 && not (is_empty r.scan_errs)) =
          rw (g.count, e, not-not bad) refl in
        elim (Bool-cases (eqb r.total 0 && not (is_empty r.scan_errs))) [
          | inl t ↦
              let end =
                as_failed p.server (append "all scanners failed: " (join "; " r.scan_errs))
                  r.system.tables.calls in
              let (row, others) =
                set-twice job _ end db.jobs r.system.tables.jobs (λ j. refl) (λ j. refl) found
                  g.jobs in
              rw (t, up r.system.tables.calls)
                (
                  refl,
                  record {
                    rows = g.rows;
                    findings = g.findings;
                    all_of = g.all_of;
                    kept = g.kept;
                    row = end (as_running p.server _ job);
                    same_asset = refl;
                    found = row;
                    status = rw (verdict, t) refl;
                    used_mock = λ no. absurd (cc no);
                    finished = (_, refl);
                    others = others;
                    assets = g.assets;
                  },
                )
          | inr t ↦
              let end = as_completed p.server r.used_mock r.system.tables.calls in
              let (row, others) =
                set-twice job _ end db.jobs r.system.tables.jobs (λ j. refl) (λ j. refl) found
                  g.jobs in
              rw (t, up r.system.tables.calls)
                (
                  refl,
                  record {
                    rows = g.rows;
                    findings = g.findings;
                    all_of = g.all_of;
                    kept = g.kept;
                    row = end (as_running p.server _ job);
                    same_asset = refl;
                    found = row;
                    status = rw (verdict, t) refl;
                    used_mock = λ _. m;
                    finished = (_, refl);
                    others = others;
                    assets = g.assets;
                  },
                )
        ]

    pub process-Ended :
        (job : ScanJob) (asset : Asset) (s : System fl.Carrier G)
        → FloatLaws fl
        → find_row ScanJob.id job.id s.tables.jobs ≡ some job
        → find_row Asset.id job.asset_id s.tables.assets ≡ some asset
        → ((process fl world p job.id s).0 ≡ none)
          × Ended job asset s.tables (process fl world p job.id s).1.tables
    process-Ended job asset s laws found owned =
        let s' : System fl.Carrier G = record {
          tables = running_tables job s.tables;
          graph = on_graph (p.graph.sync_asset asset) s.graph;
        } in
        let (g, n) = work-keeps job asset s' laws in
        rw (process-finish job asset s found owned)
          (finish-Ended job asset s.tables (work fl world p job asset s') found g n)
