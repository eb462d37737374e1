-- ===== src/Engine/Production.antt =====
-- internal/engine/processor.go: a job that is processed in production.
use amankan.Prelude.{ℕ, String, ◌≡◌, refl, ◌∙◌, true, false, none, some, List, [], ◌∷◌}
use amankan.Float64.{Float64, FloatLaws}
use amankan.Models.{Asset, ScannerType, ScanJob, completed}
use amankan.Config.{Config, is_production}
use amankan.Scanner.{World, ScanResult, scanned, failed_scan, for_profile}
use amankan.Scanner.Laws.{Unmocked, production_never_mocks}
use amankan.Store.{find_row}
use amankan.Engine.{Processor, System, processor_options}
use amankan.Engine.Process.{process}
use amankan.Engine.Outcome.{process-Ended}
use amankan.Engine.Results.{some_result, is_mock, results}

module _ (fl : Float64) {G : Type 0} (world : World) (p : Processor fl world G) where
  module _ (up : (n : ℕ) → p.server.down n ≡ none) (laws : FloatLaws fl) where
    -- A worker whose configuration is for production completes no job with used_mock set: the job
    -- of the identifier that Process runs has used_mock false if it is completed, provided that the
    -- server fails no call and that the job and its asset are in the tables.
    pub production-process :
        (cfg : Config fl.Carrier) (job : ScanJob) (asset : Asset) (s : System fl.Carrier G)
        → p.opts ≡ processor_options cfg
        → is_production cfg ≡ true
        → find_row ScanJob.id job.id s.tables.jobs ≡ some job
        → find_row Asset.id job.asset_id s.tables.assets ≡ some asset
        → (row : ScanJob) × (find_row ScanJob.id job.id (process fl world p job.id s).1.tables.jobs
            ≡ some row)
          × (row.status ≡ completed → row.used_mock ≡ false)
    unfolding processor_options
    production-process cfg job asset s opts prod found owned =
        let end = (process-Ended fl world p up job asset s laws found owned).1 in
        let live : p.opts.production ≡ true = rw opts prod in
        (end.row, end.found, λ e. end.used_mock e ∙ no_mock live (for_profile job.profile))
      where
        real : (P : String → Type 0) (r : ScanResult) → Unmocked P r → is_mock r ≡ false
        real P (scanned raw) h = h.0
        real P failed_scan h = refl

        no_mock :
            p.opts.production ≡ true
            → (scs : List ScannerType) → some_result is_mock (results fl world p asset scs) ≡ false
        no_mock live [] = refl
        no_mock live (sc ∷ scs) =
            rw (real _ _ (production_never_mocks world p.opts sc asset live)) (no_mock live scs)
