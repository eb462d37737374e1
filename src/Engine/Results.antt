-- ===== src/Engine/Results.antt =====
-- internal/engine/processor.go: what a run notes of the scanners' results.
use amankan.Prelude.{
  String, ◌≡◌, refl, ap, ◌∙◌, Bool, true, false, not, Option, none, some, List, [], ◌∷◌, map,
  if◌then◌else◌,
}
use mathlib.Core.List.{◌++◌}
use amankan.Float64.{Float64}
use amankan.Models.{Asset, ScannerType, Finding}
use amankan.Scanner.{World, ScanResult, scanned, failed_scan}
use amankan.Scanner.Adapters.{scan}
use amankan.Normalize.Enrich.{normalize}
use amankan.Store.{Tables, Error}
use amankan.Engine.{Processor}
use amankan.Engine.Process.{
  Progress, persisted, persist_all, normalized, take_result, run_scanners, is_empty,
}

abbrev pub is_failure : ScanResult → Bool
is_failure failed_scan = true
is_failure (scanned raw) = false

abbrev pub is_mock : ScanResult → Bool
is_mock failed_scan = false
is_mock (scanned raw) = raw.mock

abbrev pub some_result : (ScanResult → Bool) → List ScanResult → Bool
some_result test [] = false
some_result test (r ∷ rs) = let rest = some_result test rs in if test r then true else rest

module _ (fl : Float64) {G : Type 0} (world : World) (p : Processor fl world G) where
  -- The results of the scanners of a job's profile.
  abbrev pub results : Asset → List ScannerType → List ScanResult
  results asset scs = map (λ sc. (scan world sc p.opts asset).1) scs

  -- What a run notes of the results so far.
  abbrev pub Noted : Bool → Bool → Progress fl.Carrier G → Type 0
  Noted bad mocked r = (is_empty r.scan_errs ≡ not bad) × (r.used_mock ≡ mocked)

  persisted-Noted :
      (asset : Asset) (end : Option Error × Finding fl.Carrier × Tables fl.Carrier)
      (bad mocked : Bool) (r : Progress fl.Carrier G)
      → Noted bad mocked r
      → Noted bad mocked (persisted fl world p asset end r)
  persisted-Noted asset (none, f, db) bad mocked r h = h
  persisted-Noted asset (some e, f, db) bad mocked r h = h

  persist_all-Noted :
      (asset : Asset) (fs : List (Finding fl.Carrier)) (bad mocked : Bool)
      (r : Progress fl.Carrier G)
      → Noted bad mocked r
      → Noted bad mocked (persist_all fl world p asset fs r)
  unfolding persist_all
  persist_all-Noted asset [] bad mocked r h = h
  persist_all-Noted asset (f ∷ fs) bad mocked r h =
      persist_all-Noted asset fs bad mocked _ (persisted-Noted asset _ bad mocked r h)

  is_empty-append : (xs : List String) (x : String) → is_empty (xs ++ x ∷ []) ≡ false
  is_empty-append [] x = refl
  is_empty-append (y ∷ xs) x = refl

  normalized-Noted :
      (asset : Asset) (found : Option (List (Finding fl.Carrier))) (bad mocked : Bool)
      (r : Progress fl.Carrier G)
      → Noted bad mocked r
      → Noted bad mocked (normalized fl world p asset found r)
  normalized-Noted asset none bad mocked r h = h
  normalized-Noted asset (some fs) bad mocked r h = persist_all-Noted asset fs bad mocked r h

  take_result-Noted :
      (asset : Asset) (job_id : String) (sc : ScannerType) (result : ScanResult) (bad mocked : Bool)
      (r : Progress fl.Carrier G)
      → Noted bad mocked r
      → Noted
          (if is_failure result then true else bad)
          (if is_mock result then true else mocked)
          (take_result fl world p asset job_id sc result r)
  unfolding take_result
  take_result-Noted asset job_id sc failed_scan bad mocked r (e, m) =
      (is_empty-append r.scan_errs _, m)
  take_result-Noted asset job_id sc (scanned raw) bad mocked r (e, m) =
      normalized-Noted asset (normalize fl p.decoders p.feed raw asset job_id) bad
        (if raw.mock then true else mocked)
        (record r { used_mock = if raw.mock then true else r.used_mock })
        (e, ap (λ (b : Bool). if raw.mock then true else b) m)

  pub run_scanners-Noted :
      (asset : Asset) (job_id : String) (scs : List ScannerType) (bad mocked : Bool)
      (r : Progress fl.Carrier G)
      → Noted bad mocked r
      → Noted
          (if some_result is_failure (results asset scs) then true else bad)
          (if some_result is_mock (results asset scs) then true else mocked)
          (run_scanners fl world p asset job_id scs r)
  unfolding run_scanners
  run_scanners-Noted asset job_id [] bad mocked r h = h
  run_scanners-Noted asset job_id (sc ∷ scs) bad mocked r h =
      let now = (scan world sc p.opts asset).1 in
      let rest =
        run_scanners-Noted asset job_id scs _ _ _
          (take_result-Noted asset job_id sc now bad mocked r h) in
      (rest.0 ∙ ap not (absorb (is_failure now) _ bad), rest.1 ∙ absorb (is_mock now) _ mocked)
    where
      absorb :
          (a b c : Bool)
          → (if b then true else (if a then true else c))
            ≡ (if (if a then true else b) then true else c)
      absorb true true c = refl
      absorb true false c = refl
      absorb false b c = refl
