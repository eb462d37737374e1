-- ===== src/Store.antt =====
-- internal/store/store.go: the tables of assets, scan jobs and findings. PostgreSQL is a server
-- outside of the code: a call of it fails with its own error and then changes nothing, or it is
-- executed. Calls are numbered, and the number gives a call its time and its new identifier.
mod Rows
pub mod Jobs
-- pub mod Findings
-- pub mod Assets
mod Tests
use amankan.Prelude.{
  ℕ, zero, suc, ◌+◌, ◌*◌, String, Bool, true, false, ◌&&◌, ◌||◌, Option, none, some, List, [], ◌∷◌,
  ◌++◌, ◌==◌, if◌then◌else◌, take, drop,
}
use amankan.Prelude.Int.{ℤ, pos, negsuc}
use amankan.Models.{
  Asset, ScanJob, queued, running, completed, failed, Finding, FindingStatus, open_finding,
  other_status,
}
pub use Rows.*

-- The error of an operation: ErrNotFound, or an error of the server.
pub data Error : Type 0 where
  not_found : Error
  failure : String → Error

pub data Result (A : Type 0) : Type 0 where
  done : A → Result A
  err : Error → Result A

-- What the server does: the error of the n-th call, if it fails, the time and the identifier that
-- it uses, the precision of a TIMESTAMPTZ column, the errors for a primary key that is
-- taken and for a negative OFFSET, and the three orders: by created_at DESC, and by risk_score DESC, created_at DESC.
pub record Server (F : Type 0) : Type 0 where
  pub down : ℕ → Option String
  pub now : ℕ → ℕ
  pub uuid : ℕ → String
  pub stored_ts : ℕ → ℕ
  pub duplicate_key : String
  pub negative_offset : String
  pub newest_assets : List Asset → List Asset
  pub newest_jobs : List ScanJob → List ScanJob
  pub worst_findings : List (Finding F) → List (Finding F)

pub record Tables (F : Type 0) : Type 0 where
  pub assets : List Asset
  pub jobs : List ScanJob
  pub findings : List (Finding F)
  pub calls : ℕ

abbrev pub empty_tables : {F : Type 0} → Tables F
empty_tables = record { assets = []; jobs = []; findings = []; calls = 0 }

abbrev pub counted : {F : Type 0} → Tables F → Tables F
counted db = record db { calls = db.calls + 1 }

-- A statement with the tables that it makes.
abbrev pub exec : {F : Type 0} → Option String → Tables F → Tables F → Option Error × Tables F
exec (some e) after db = (some (failure e), counted db)
exec none after db = (none, counted after)

-- An INSERT of a row whose primary key is taken or not.
abbrev pub insert : {F : Type 0} → Server F → Bool → Tables F → Tables F → Option Error × Tables F
insert sv true after db = (some (failure sv.duplicate_key), counted db)
insert sv false after db = exec (sv.down db.calls) after db

-- A query with its rows.
abbrev pub query : {A F : Type 0} → Option String → Result A → Tables F → Result A × Tables F
query (some e) r db = (err (failure e), counted db)
query none r db = (r, counted db)

-- The row of a query for one, or ErrNotFound.
abbrev pub one_row : {A : Type 0} → Option A → Result A
one_row none = err not_found
one_row (some a) = done a

-- An UPDATE that is an error where it affects no row.
abbrev pub affecting : {A F : Type 0} → Option A → Option Error × Tables F → Option Error × Tables F
affecting none (none, db) = (some not_found, db)
affecting (some a) (none, db) = (none, db)
affecting row (some e, db) = (some e, db)

module _ {F : Type 0} (sv : Server F) where
  -- CreateAsset: the error, the asset as the caller has it afterwards, and the tables.
  unfoldable pub create_asset : Asset → Tables F → Option Error × Asset × Tables F
  create_asset a db =
      let a' = record a { id = sv.uuid db.calls; created_at = sv.now db.calls } in
      let row = record a' { created_at = sv.stored_ts a'.created_at } in
      let end =
        insert sv (has_row Asset.id a'.id db.assets) (record db { assets = db.assets ++ row ∷ [] })
          db in
      (end.0, a', end.1)

  -- SetAssetAuthorization
  unfoldable pub set_asset_authorization : String → Bool → Tables F → Option Error × Tables F
  set_asset_authorization id authorized db =
      let set = update_row Asset.id id (λ a. record a { scan_authorized = authorized }) db.assets in
      affecting (find_row Asset.id id db.assets)
        (exec (sv.down db.calls) (record db { assets = set }) db)

  -- GetAsset
  unfoldable pub get_asset : String → Tables F → Result Asset × Tables F
  get_asset id db = query (sv.down db.calls) (one_row (find_row Asset.id id db.assets)) db

  -- GetAssetByTarget: one of the rows with the target.
  unfoldable pub get_asset_by_target : String → Tables F → Result Asset × Tables F
  get_asset_by_target target db =
      query (sv.down db.calls) (one_row (find_row Asset.target target db.assets)) db

  -- ListAssets
  unfoldable pub list_assets : Tables F → Result (List Asset) × Tables F
  list_assets db = query (sv.down db.calls) (done (sv.newest_assets db.assets)) db

  -- CreateScanJob
  abbrev pub new_job : ℕ → ScanJob → ScanJob
  new_job call j = record j { id = sv.uuid call; created_at = sv.now call; status = queued }

  -- The row that the columns of the INSERT and the defaults of the others make.
  abbrev pub job_row : ScanJob → ScanJob
  job_row j = record j {
    created_at = sv.stored_ts j.created_at;
    error = "";
    used_mock = false;
    started_at = none;
    finished_at = none;
  }

  unfoldable pub create_scan_job : ScanJob → Tables F → Option Error × ScanJob × Tables F
  create_scan_job j db =
      let j' = new_job db.calls j in
      let end =
        insert sv (has_row ScanJob.id j'.id db.jobs)
          (record db { jobs = db.jobs ++ job_row j' ∷ [] }) db in
      (end.0, j', end.1)

  -- GetScanJob
  unfoldable pub get_scan_job : String → Tables F → Result ScanJob × Tables F
  get_scan_job id db = query (sv.down db.calls) (one_row (find_row ScanJob.id id db.jobs)) db

  -- ListScanJobs
  unfoldable pub list_scan_jobs : Tables F → Result (List ScanJob) × Tables F
  list_scan_jobs db = query (sv.down db.calls) (done (sv.newest_jobs db.jobs)) db

  abbrev pub update_job : String → (ScanJob → ScanJob) → Tables F → Option Error × Tables F
  update_job id set db =
      exec (sv.down db.calls) (record db { jobs = update_row ScanJob.id id set db.jobs }) db

  -- The columns that MarkRunning, MarkCompleted and MarkFailed set, at the n-th call.
  abbrev pub as_running : ℕ → ScanJob → ScanJob
  as_running call j = record j { status = running; started_at = some (sv.stored_ts (sv.now call)) }

  abbrev pub as_completed : Bool → ℕ → ScanJob → ScanJob
  as_completed used_mock call j = record j {
    status = completed;
    finished_at = some (sv.stored_ts (sv.now call));
    used_mock = used_mock;
  }

  abbrev pub as_failed : String → ℕ → ScanJob → ScanJob
  as_failed err_msg call j = record j {
    status = failed;
    finished_at = some (sv.stored_ts (sv.now call));
    error = err_msg;
  }

  -- MarkRunning
  unfoldable pub mark_running : String → Tables F → Option Error × Tables F
  mark_running id db = update_job id (as_running db.calls) db

  -- MarkCompleted
  unfoldable pub mark_completed : String → Bool → Tables F → Option Error × Tables F
  mark_completed id used_mock db = update_job id (as_completed used_mock db.calls) db

  -- MarkFailed
  unfoldable pub mark_failed : String → String → Tables F → Option Error × Tables F
  mark_failed id err_msg db = update_job id (as_failed err_msg db.calls) db

  abbrev or_open : FindingStatus → FindingStatus
  or_open (other_status s) = if s == "" then open_finding else other_status s
  or_open s = s

  -- CreateFinding: the finding as the caller has it afterwards.
  abbrev pub new_finding : ℕ → Finding F → Finding F
  new_finding call f = record f {
    id = if f.id == "" then sv.uuid call else f.id;
    created_at = sv.now call;
    status = or_open f.status;
  }

  -- The row as findingFromRow gives it back: fields without a column have their zero value.
  abbrev pub finding_row : F → Finding F → Finding F
  finding_row zero_float f = record f {
    created_at = sv.stored_ts f.created_at;
    cvss_vector = "";
    epss = zero_float;
    due_date = none;
    sla_breached = false;
    sla_days_left = pos 0;
    principal = "";
    cred_fp = "";
  }

  unfoldable pub create_finding : F → Finding F → Tables F → Option Error × Finding F × Tables F
  create_finding zero_float f db =
      let f' = new_finding db.calls f in
      let end =
        insert sv (has_row Finding.id f'.id db.findings)
          (record db { findings = db.findings ++ finding_row zero_float f' ∷ [] }) db in
      (end.0, f', end.1)

  -- The page of LIMIT and OFFSET; no limit where it is not positive. A negative offset is an
  -- error of the server.
  abbrev pub page : {A : Type 0} → ℤ → ℤ → List A → Result (List A)
  page (pos (suc limit)) (pos offset) rows = done (take (suc limit) (drop offset rows))
  page (pos (suc limit)) (negsuc offset) rows = err (failure sv.negative_offset)
  page (pos zero) offset rows = done rows
  page (negsuc limit) offset rows = done rows

  abbrev pub matches : String → String → Finding F → Bool
  matches asset_id scan_job_id f =
      (asset_id == "" || f.asset_id == asset_id)
      && (scan_job_id == "" || f.scan_job_id == scan_job_id)

  -- ListFindings
  unfoldable pub list_findings :
      String → String → ℤ → ℤ → Tables F → Result (List (Finding F)) × Tables F
  list_findings asset_id scan_job_id limit offset db =
      let rows = sv.worst_findings (keep_rows (matches asset_id scan_job_id) db.findings) in
      query (sv.down db.calls) (page limit offset rows) db

  -- UpdateFindingStatus
  unfoldable pub update_finding_status : String → FindingStatus → Tables F → Option Error × Tables F
  update_finding_status id status db =
      let set = update_row Finding.id id (λ f. record f { status = status }) db.findings in
      affecting (find_row Finding.id id db.findings)
        (exec (sv.down db.calls) (record db { findings = set }) db)
