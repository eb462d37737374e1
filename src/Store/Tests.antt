-- ===== src/Store/Tests.antt =====
-- Scan jobs in a table, with one call that fails.
use Prim.Native.String.{◌++◌ as append}
use amankan.Prelude.{
  ℕ, ◌*◌, ◌≡◌, refl, Bool, true, false, none, some, List, [], ◌∷◌, eqb, if◌then◌else◌,
}
use amankan.Strconv.{itoa}
use amankan.Models.{ScanJob, quick, queued, failed}
use amankan.Store.{
  Server, empty_tables, one_row, get_scan_job, create_scan_job, mark_running, mark_completed,
  mark_failed,
}
use amankan.Store.Jobs.{
  JobCall, create, start, complete, fail, apply_calls, meanings, view, get_scan_job-apply_calls,
}

-- A server that fails the calls of a list.
abbrev pub server_failing : List ℕ → Server ℕ
server_failing calls = record {
  down = λ n. if is_in n calls then some "connection refused" else none;
  now = λ n. 1000 * n;
  uuid = λ n. append "u" (itoa n);
  stored_ts = λ t. t;
  duplicate_key = "duplicate key";
  negative_offset = "OFFSET must not be negative";
  newest_assets = λ rows. rows;
  newest_jobs = λ rows. rows;
  worst_findings = λ rows. rows;
}
  where
    is_in : ℕ → List ℕ → Bool
    is_in n [] = false
    is_in n (m ∷ ms) = let rest = is_in n ms in if eqb n m then true else rest

abbrev pub job : ScanJob
job = record {
  id = "";
  asset_id = "a1";
  profile = quick;
  scanners = [];
  status = queued;
  error = "";
  used_mock = false;
  created_at = 0;
  started_at = none;
  finished_at = none;
}

abbrev sv : Server ℕ
sv = server_failing (3 ∷ [])

-- MarkCompleted is lost, and the job ends as failed.
abbrev calls : List JobCall
calls = create job ∷ create job ∷ start "u1" ∷ complete "u1" true ∷ fail "u1" "no tool" ∷ []

abbrev last : ScanJob
last = record job {
  id = "u1";
  created_at = 1000;
  status = failed;
  error = "no tool";
  started_at = some 2000;
  finished_at = some 4000;
}

run : meanings sv calls 0 (view sv empty_tables) "u1" ≡ some last
unfolding itoa
run = refl

up : sv.down (apply_calls sv calls empty_tables).calls ≡ none
unfolding create_scan_job mark_running mark_completed mark_failed itoa
up = refl

get_scan_job-apply_calls_example :
    (get_scan_job sv "u1" (apply_calls sv calls empty_tables)).0
    ≡ one_row (meanings sv calls 0 (view sv empty_tables) "u1")
get_scan_job-apply_calls_example = get_scan_job-apply_calls sv calls empty_tables "u1" up
