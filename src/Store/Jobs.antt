-- ===== src/Store/Jobs.antt =====
-- internal/store/store.go: the table of scan jobs as a map from identifiers to jobs.
use amankan.Prelude.{
  ℕ, ◌+◌, String, ◌≡◌, refl, sym, ap, subst, ◌≢◌, ◌⊎◌, inl, inr, Bool, true, false, not, ◌&&◌,
  Option, none, some, List, [], ◌∷◌, ◌++◌, ◌==◌, eq_refl, if◌then◌else◌, Bool-cases, Option-cases,
  String-cases,
}
use amankan.Models.{Asset, ScanJob, queued, running, completed, failed}
use amankan.Store.{
  Server, Tables, exec, insert, one_row, update_job, create_scan_job, get_scan_job, mark_running,
  mark_completed, mark_failed, new_job, job_row, as_running, as_completed, as_failed, find_row,
  has_row, map_row, is_row, find_row-update_row, find_row-update_row_other, find_row-append,
  find_row-has_row,
}

-- The calls that write scan jobs.
pub data JobCall : Type 0 where
  create : ScanJob → JobCall
  start : String → JobCall
  complete : String → Bool → JobCall
  fail : String → String → JobCall

-- The table as a map.
abbrev pub JobMap : Type 0
JobMap = String → Option ScanJob

abbrev pub put_new : ScanJob → JobMap → JobMap
put_new j m k = if j.id == k && not (is_row (m k)) then some j else m k

abbrev pub change : String → (ScanJob → ScanJob) → JobMap → JobMap
change id set m k = if id == k then map_row set (m k) else m k

module _ {F : Type 0} (sv : Server F) where
  abbrev pub apply_call : JobCall → Tables F → Tables F
  apply_call (create j) db = (create_scan_job sv j db).2
  apply_call (start id) db = (mark_running sv id db).1
  apply_call (complete id used_mock) db = (mark_completed sv id used_mock db).1
  apply_call (fail id err_msg) db = (mark_failed sv id err_msg db).1

  abbrev pub apply_calls : List JobCall → Tables F → Tables F
  apply_calls [] db = db
  apply_calls (c ∷ cs) db = apply_calls cs (apply_call c db)

  -- What the n-th call means for the map, if the server executes it: a new job under an identifier
  -- that is free, a change of the job with the identifier, and nothing where there is none. Every
  -- field of the job is written out.
  abbrev pub meaning : JobCall → ℕ → JobMap → JobMap
  meaning (create j) call m =
      put_new
        (record {
          id = sv.uuid call;
          asset_id = j.asset_id;
          profile = j.profile;
          scanners = j.scanners;
          status = queued;
          error = "";
          used_mock = false;
          created_at = sv.stored_ts (sv.now call);
          started_at = none;
          finished_at = none;
        })
        m
  meaning (start id) call m =
      change id
        (λ j. record {
          id = j.id;
          asset_id = j.asset_id;
          profile = j.profile;
          scanners = j.scanners;
          status = running;
          error = j.error;
          used_mock = j.used_mock;
          created_at = j.created_at;
          started_at = some (sv.stored_ts (sv.now call));
          finished_at = j.finished_at;
        })
        m
  meaning (complete id used_mock) call m =
      change id
        (λ j. record {
          id = j.id;
          asset_id = j.asset_id;
          profile = j.profile;
          scanners = j.scanners;
          status = completed;
          error = j.error;
          used_mock = used_mock;
          created_at = j.created_at;
          started_at = j.started_at;
          finished_at = some (sv.stored_ts (sv.now call));
        })
        m
  meaning (fail id err_msg) call m =
      change id
        (λ j. record {
          id = j.id;
          asset_id = j.asset_id;
          profile = j.profile;
          scanners = j.scanners;
          status = failed;
          error = err_msg;
          used_mock = j.used_mock;
          created_at = j.created_at;
          started_at = j.started_at;
          finished_at = some (sv.stored_ts (sv.now call));
        })
        m

  abbrev executed : Option String → (JobMap → JobMap) → JobMap → JobMap
  executed none f m = f m
  executed (some e) f m = m

  abbrev pub meanings : List JobCall → ℕ → JobMap → JobMap
  meanings [] call m = m
  meanings (c ∷ cs) call m = meanings cs (call + 1) (executed (sv.down call) (meaning c call) m)

  abbrev pub view : Tables F → JobMap
  view db k = find_row ScanJob.id k db.jobs

  update_job-view :
      (id : String) (set : ScanJob → ScanJob) (db : Tables F) (k : String)
      → ((j : ScanJob) → ScanJob.id (set j) ≡ j.id)
      → view (update_job sv id set db).1 k ≡ executed (sv.down db.calls) (change id set) (view db) k
  update_job-view id set db k h = elim (Option-cases (sv.down db.calls)) [
    | inr (e, down) ↦ rw down refl
    | inl down ↦ elim (String-cases id k) [
      | inl e ↦ rw (down, e, eq_refl k) (find_row-update_row ScanJob.id k set db.jobs h)
      | inr e ↦
          rw (down, e)
            (find_row-update_row_other ScanJob.id id k set db.jobs h
              (λ same. absurd (cc (e, eq_refl k, same))))
    ]
  ]

  -- Once the query's own row is named, the map of the table with a new row.
  inserted :
      (j : ScanJob) (jobs : List ScanJob) (k : String)
      → has_row ScanJob.id j.id jobs ≡ false
      → find_row ScanJob.id k (jobs ++ j ∷ []) ≡ put_new j (λ l. find_row ScanJob.id l jobs) k
  inserted j jobs k free = elim (String-cases j.id k) [
    | inl e ↦
        let free' : has_row ScanJob.id k jobs ≡ false =
          subst (λ l. has_row ScanJob.id l jobs ≡ false) e free in
        rw
          (
            find_row-append ScanJob.id k j jobs,
            free',
            e,
            eq_refl k,
            sym (find_row-has_row ScanJob.id k jobs),
            free',
          )
          refl
    | inr e ↦ elim (Option-cases (find_row ScanJob.id k jobs)) [
      | inl d ↦
          rw (find_row-append ScanJob.id k j jobs, e, find_row-has_row ScanJob.id k jobs, d) refl
      | inr (r, d) ↦
          rw (find_row-append ScanJob.id k j jobs, e, find_row-has_row ScanJob.id k jobs, d) refl
    ]
  ]

  refused :
      (j : ScanJob) (jobs : List ScanJob) (k : String)
      → has_row ScanJob.id j.id jobs ≡ true
      → find_row ScanJob.id k jobs ≡ put_new j (λ l. find_row ScanJob.id l jobs) k
  refused j jobs k taken = elim (String-cases j.id k) [
    | inl e ↦
        let taken' : has_row ScanJob.id k jobs ≡ true =
          subst (λ l. has_row ScanJob.id l jobs ≡ true) e taken in
        rw (e, eq_refl k, sym (find_row-has_row ScanJob.id k jobs), taken') refl
    | inr e ↦ rw e refl
  ]

  create-view :
      (j : ScanJob) (db : Tables F) (k : String)
      → view (create_scan_job sv j db).2 k
        ≡ executed (sv.down db.calls) (meaning (create j) db.calls) (view db) k
  unfolding create_scan_job
  create-view j db k =
      let row = job_row sv (new_job sv db.calls j) in
      elim (Option-cases (sv.down db.calls)) [
        | inr (e, down) ↦ elim (Bool-cases (has_row ScanJob.id row.id db.jobs)) [
          | inl t ↦ rw (t, down) refl
          | inr t ↦ rw (t, down) refl
        ]
        | inl down ↦ elim (Bool-cases (has_row ScanJob.id row.id db.jobs)) [
          | inl t ↦ rw (t, down) (refused row db.jobs k t)
          | inr t ↦ rw (t, down) (inserted row db.jobs k t)
        ]
      ]

  apply_call-view :
      (c : JobCall) (db : Tables F) (k : String)
      → view (apply_call c db) k ≡ executed (sv.down db.calls) (meaning c db.calls) (view db) k
  unfolding mark_running mark_completed mark_failed
  apply_call-view (create j) db k = create-view j db k
  apply_call-view (start id) db k = update_job-view id (as_running sv db.calls) db k (λ j. refl)
  apply_call-view (complete id used_mock) db k =
      update_job-view id (as_completed sv used_mock db.calls) db k (λ j. refl)
  apply_call-view (fail id err_msg) db k =
      update_job-view id (as_failed sv err_msg db.calls) db k (λ j. refl)

  exec-calls :
      (down : Option String) (after db : Tables F)
      → after.calls ≡ db.calls
      → (exec down after db).1.calls ≡ db.calls + 1
  exec-calls none after db h = ap (λ (n : ℕ). n + 1) h
  exec-calls (some e) after db h = refl

  insert-calls :
      (taken : Bool) (after db : Tables F)
      → after.calls ≡ db.calls
      → (insert sv taken after db).1.calls ≡ db.calls + 1
  insert-calls true after db h = refl
  insert-calls false after db h = exec-calls (sv.down db.calls) after db h

  apply_call-calls : (c : JobCall) (db : Tables F) → (apply_call c db).calls ≡ db.calls + 1
  unfolding create_scan_job mark_running mark_completed mark_failed
  apply_call-calls (create j) db = insert-calls _ _ db refl
  apply_call-calls (start id) db = exec-calls _ _ db refl
  apply_call-calls (complete id used_mock) db = exec-calls _ _ db refl
  apply_call-calls (fail id err_msg) db = exec-calls _ _ db refl

  pub apply_calls-view :
      (cs : List JobCall) (db : Tables F)
      → view (apply_calls cs db) ≡ meanings cs db.calls (view db)
  apply_calls-view [] db = refl
  apply_calls-view (c ∷ cs) db =
      let step : view (apply_call c db)
          ≡ executed (sv.down db.calls) (meaning c db.calls) (view db) =
        λ i k. apply_call-view c db k i in
      rw (sym step, sym (apply_call-calls c db)) (apply_calls-view cs (apply_call c db))

  -- The table of scan jobs refines a map from identifiers to jobs: after any sequence of calls of
  -- CreateScanJob, MarkRunning, MarkCompleted and MarkFailed, whichever of them the server fails,
  -- GetScanJob gives exactly the job that the meaning of those calls puts into the map under the
  -- identifier, and ErrNotFound where it puts none, provided that the server does not fail
  -- GetScanJob itself.
  pub get_scan_job-apply_calls :
      (cs : List JobCall) (db : Tables F) (id : String)
      → sv.down (apply_calls cs db).calls ≡ none
      → (get_scan_job sv id (apply_calls cs db)).0 ≡ one_row (meanings cs db.calls (view db) id)
  unfolding get_scan_job
  get_scan_job-apply_calls cs db id up = rw (up, sym (apply_calls-view cs db)) refl

-- An identifier of a job in the table whose asset is in the table.
abbrev pub IsReady : {F : Type 0} → Tables F → String → Type 0
IsReady db id =
    (id ≢ "")
    × ((job : ScanJob) × (asset : Asset) × (find_row ScanJob.id id db.jobs ≡ some job)
        × (find_row Asset.id job.asset_id db.assets ≡ some asset))

-- An identifier of a job that has come to an end.
abbrev pub IsDone : {F : Type 0} → Tables F → String → Type 0
IsDone db id =
    (job : ScanJob) × (find_row ScanJob.id id db.jobs ≡ some job)
    × ((job.status ≡ completed) ⊎ (job.status ≡ failed))
