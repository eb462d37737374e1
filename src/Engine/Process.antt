-- ===== src/Engine/Process.antt =====
-- internal/engine/processor.go: Process, and cmd/worker/main.go: the worker's handling of a job.
use Prim.Native.String.{◌++◌ as append}
use amankan.Prelude.{
  ℕ, ◌+◌, String, Bool, true, false, not, ◌&&◌, Option, none, some, List, [], ◌∷◌, ◌++◌, ◌==◌, eqb,
  if◌then◌else◌,
}
use amankan.Strings.{join}
use amankan.Float64.{Float64}
use amankan.Models.{Asset, ScannerType, ScanJob, Finding}
use amankan.Compliance.{is_priv_esc, is_credential_leak}
use amankan.Scanner.{World, ScanResult, scanned, failed_scan, for_profile}
use amankan.Scanner.Adapters.{scan}
use amankan.Normalize.Enrich.{normalize}
use amankan.Store.{
  Tables, Error, Result, done, err, get_scan_job, get_asset, mark_running, mark_completed,
  mark_failed, create_finding,
}
use amankan.Engine.{Processor, System, on_graph, type_text, error_text}
use amankan.Engine.Subnet.{is_ip, derive_subnet_reachability}

-- The variables of Process while the scanners run.
pub record Progress (F G : Type 0) : Type 0 where
  pub system : System F G
  pub total : ℕ
  pub used_mock : Bool
  pub scan_errs : List String

abbrev pub is_empty : List String → Bool
is_empty [] = true
is_empty (x ∷ xs) = false

module _ (fl : Float64) {G : Type 0} (world : World) (p : Processor fl world G) where
  -- The edges that a persisted finding adds.
  unfoldable pub wire : Asset → Finding fl.Carrier → G → G
  unfolding is_priv_esc is_credential_leak
  wire asset f g =
      let synced = p.graph.sync_finding f g in
      let escalated =
        if is_priv_esc f.cwe
        then p.graph.auto_derive_escalation asset.id f.cwe f.title f.risk_score synced
        else synced in
      if is_credential_leak f.cwe && not (f.cred_fp == "")
      then p.graph.auto_derive_credential_reuse asset.id f.principal f.cred_fp f.title f.risk_score
          escalated
      else escalated

  abbrev pub persisted :
      Asset
      → Option Error × Finding fl.Carrier × Tables fl.Carrier
      → Progress fl.Carrier G
      → Progress fl.Carrier G
  persisted asset (some e, f, db) r = record r {
    system = record { tables = db; graph = r.system.graph };
  }
  persisted asset (none, f, db) r = record r {
    system = record { tables = db; graph = on_graph (wire asset f) r.system.graph };
    total = r.total + 1;
  }

  -- The loop over the findings of one scanner.
  unfoldable pub persist_all :
      Asset → List (Finding fl.Carrier) → Progress fl.Carrier G → Progress fl.Carrier G
  unfolding wire
  persist_all asset [] r = r
  persist_all asset (f ∷ fs) r =
      persist_all asset fs
        (persisted asset (create_finding p.server (fl.dec 0 0) f r.system.tables) r)

  abbrev pub normalized :
      Asset → Option (List (Finding fl.Carrier)) → Progress fl.Carrier G → Progress fl.Carrier G
  normalized asset none r = r
  normalized asset (some fs) r = persist_all asset fs r

  -- The result of one scanner.
  unfoldable pub take_result :
      Asset → String → ScannerType → ScanResult → Progress fl.Carrier G → Progress fl.Carrier G
  unfolding persist_all
  take_result asset job_id sc failed_scan r = record r {
    scan_errs = r.scan_errs ++ append (type_text sc) (append ": " (p.scan_error sc asset)) ∷ [];
  }
  take_result asset job_id sc (scanned raw) r =
      normalized asset (normalize fl p.decoders p.feed raw asset job_id)
        (record r { used_mock = if raw.mock then true else r.used_mock })

  -- The loop over the scanners.
  unfoldable pub run_scanners :
      Asset → String → List ScannerType → Progress fl.Carrier G → Progress fl.Carrier G
  unfolding take_result
  run_scanners asset job_id [] r = r
  run_scanners asset job_id (sc ∷ scs) r =
      run_scanners asset job_id scs (take_result asset job_id sc (scan world sc p.opts asset).1 r)

  abbrev pub has_graph : Option G → Bool
  has_graph none = false
  has_graph (some g) = true

  abbrev pub fresh : System fl.Carrier G → Progress fl.Carrier G
  fresh s = record { system = s; total = 0; used_mock = false; scan_errs = [] }

  -- The work on a job that is marked as running, before its end is recorded.
  abbrev pub work : ScanJob → Asset → System fl.Carrier G → Progress fl.Carrier G
  work job asset s =
      let r = run_scanners asset job.id (for_profile job.profile) (fresh s) in
      if has_graph r.system.graph && is_ip asset.asset_type
      then record r { system = derive_subnet_reachability fl world p asset r.system }
      else r

  abbrev pub told :
      Option Error × Tables fl.Carrier → Option G → Option String × System fl.Carrier G
  told (none, db) g = (none, record { tables = db; graph = g })
  told (some e, db) g = (some (error_text e), record { tables = db; graph = g })

  -- A job of which every scanner that ran failed is recorded as failed.
  abbrev pub finish : String → Progress fl.Carrier G → Option String × System fl.Carrier G
  finish job_id r =
      let msg = append "all scanners failed: " (join "; " r.scan_errs) in
      if eqb r.total 0 && not (is_empty r.scan_errs)
      then told (mark_failed p.server job_id msg r.system.tables) r.system.graph
      else told (mark_completed p.server job_id r.used_mock r.system.tables) r.system.graph

  abbrev pub started :
      ScanJob
      → Asset
      → Option Error × Tables fl.Carrier
      → Option G
      → Option String × System fl.Carrier G
  started job asset (some e, db) g = (some (error_text e), record { tables = db; graph = g })
  started job asset (none, db) g =
      finish job.id
        (work job asset (record { tables = db; graph = on_graph (p.graph.sync_asset asset) g }))

  abbrev pub with_asset :
      ScanJob → Result Asset × Tables fl.Carrier → Option G → Option String × System fl.Carrier G
  with_asset job (err e, db) g =
      (some (append "load asset: " (error_text e)), record { tables = db; graph = g })
  with_asset job (done asset, db) g = started job asset (mark_running p.server job.id db) g

  abbrev pub with_job :
      Result ScanJob × Tables fl.Carrier → Option G → Option String × System fl.Carrier G
  with_job (err e, db) g =
      (some (append "load job: " (error_text e)), record { tables = db; graph = g })
  with_job (done job, db) g = with_asset job (get_asset p.server job.asset_id db) g

  -- Process: its error, and the system afterwards.
  unfoldable pub process : String → System fl.Carrier G → Option String × System fl.Carrier G
  unfolding run_scanners derive_subnet_reachability join
  process scan_job_id s = with_job (get_scan_job p.server scan_job_id s.tables) s.graph

  -- The worker records a job of which Process gives an error as failed.
  abbrev pub recorded : String → Option String × System fl.Carrier G → System fl.Carrier G
  recorded job_id (none, s) = s
  recorded job_id (some e, s) = record s { tables = (mark_failed p.server job_id e s.tables).1 }

  unfoldable pub handle : String → System fl.Carrier G → System fl.Carrier G
  unfolding process
  handle job_id s = if job_id == "" then s else recorded job_id (process job_id s)
