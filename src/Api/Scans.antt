-- ===== src/Api/Scans.antt =====
-- internal/api/api.go: what startScan leaves for the worker.
use amankan.Prelude.{
  ℕ, String, ◌≡◌, refl, sym, subst, ◌≢◌, inl, inr, false, Option, none, some, List, [], ◌∷◌, ◌++◌,
  eq_refl, Bool-cases, Option-cases, All,
}
use amankan.Models.{Asset, ScanJob}
use amankan.Http.{Request, Writer}
use amankan.Queue.{enqueue}
use amankan.Store.{
  Tables, Error, find_row, find_row-key, find_row-append, find_row-has_row, has_row, get_asset,
  create_scan_job, new_job, job_row, counted,
}
use amankan.Store.Jobs.{IsReady}
use amankan.Api.Service.{Backend, Codec, Backing}
use amankan.Api.Assets.{start_scan, job_created, enqueued, scan_of, with_tables}

module _ {F : Type 0} (c : Codec F) (b : Backing F) (named : (n : ℕ) → b.server.uuid n ≢ "") where
  -- Every identifier in the list is of a job that the worker can process.
  abbrev pub AllReady : {G : Type 0} → Backend F G → Type 0
  AllReady s = All (IsReady s.tables) s.list

  all-kept :
      (db db' : Tables F) (ids : List String)
      → ((k : String) → IsReady db k → IsReady db' k)
      → All (IsReady db) ids
      → All (IsReady db') ids
  all-kept db db' [] keep h = tt
  all-kept db db' (id ∷ ids) keep (r, h) = (keep id r, all-kept db db' ids keep h)

  -- What CreateScanJob leaves for a job whose asset is in the table.
  abbrev Fine : Tables F → Option Error × ScanJob × Tables F → Type 0
  Fine db (e, job, db') =
      ((k : String) → IsReady db k → IsReady db' k) × (e ≡ none → IsReady db' job.id)

  kept :
      (k : String) (job row : ScanJob) (jobs : List ScanJob)
      → find_row ScanJob.id k jobs ≡ some job
      → find_row ScanJob.id k (jobs ++ row ∷ []) ≡ some job
  kept k job row jobs found =
      rw (find_row-append ScanJob.id k row jobs, find_row-has_row ScanJob.id k jobs, found) refl

  new_found :
      (row : ScanJob) (jobs : List ScanJob)
      → has_row ScanJob.id row.id jobs ≡ false
      → find_row ScanJob.id row.id (jobs ++ row ∷ []) ≡ some row
  new_found row jobs free =
      rw (find_row-append ScanJob.id row.id row jobs, free, eq_refl row.id) refl

  create_scan_job-Fine :
      (j : ScanJob) (asset : Asset) (db : Tables F)
      → find_row Asset.id j.asset_id db.assets ≡ some asset
      → Fine db (create_scan_job b.server j db)
  unfolding create_scan_job
  create_scan_job-Fine j asset db owned =
      let row = job_row b.server (new_job b.server db.calls j) in
      elim (Bool-cases (has_row ScanJob.id row.id db.jobs)) [
        | inl t ↦ rw t (λ k r. r, λ no. absurd (cc no))
        | inr t ↦ elim (Option-cases (b.server.down db.calls)) [
          | inr (e, d) ↦ rw (t, d) (λ k r. r, λ no. absurd (cc no))
          | inl d ↦
              rw (t, d)
                (
                  λ k r.
                      let (n, (job, a, found, held)) = r in
                      (n, (job, a, kept k job row db.jobs found, held)),
                  λ _. (named db.calls, (row, asset, new_found row db.jobs t, owned)),
                )
        ]
      ]

  enqueued-AllReady :
      {G : Type 0} (w : Writer) (job : ScanJob) (failure : Option String) (s : Backend F G)
      → IsReady s.tables job.id
      → AllReady s
      → AllReady (enqueued c b w job (enqueue failure job.id s.list) s).1
  unfolding enqueue
  enqueued-AllReady w job none s ready h = (ready, h)
  enqueued-AllReady w job (some e) s ready h = h

  job_created-AllReady :
      {G : Type 0} (w : Writer) (end : Option Error × ScanJob × Tables F) (s : Backend F G)
      (db : Tables F)
      → Fine db end
      → All (IsReady db) s.list
      → AllReady (job_created c b w end s).1
  job_created-AllReady w (some e, job, db') s db fine h = all-kept db db' s.list fine.0 h
  job_created-AllReady w (none, job, db') s db fine h =
      enqueued-AllReady w job _ (with_tables c b db' s) (fine.1 refl)
        (all-kept db db' s.list fine.0 h)

  counted-AllReady :
      (db : Tables F) (ids : List String) → All (IsReady db) ids → All (IsReady (counted db)) ids
  counted-AllReady db ids h = all-kept db (counted db) ids (λ k r. r) h

  -- Every identifier in the Redis list stays one of a job in the table, with its asset in the
  -- table, when startScan handles a request, whatever the request and whichever calls fail, provided
  -- that no new identifier of the server is the empty text.
  pub start_scan-AllReady :
      {G : Type 0} (w : Writer) (r : Request) (s : Backend F G)
      → AllReady s
      → AllReady (start_scan c b w r s).1
  unfolding start_scan get_asset
  start_scan-AllReady w r s h = elim (Option-cases (b.server.down s.tables.calls)) [
    | inr (e, d) ↦ rw d (counted-AllReady s.tables s.list h)
    | inl d ↦ elim (Option-cases (find_row Asset.id (r.url_param "id") s.tables.assets)) [
      | inl e ↦ rw (d, e) (counted-AllReady s.tables s.list h)
      | inr (asset, e) ↦
          let same = find_row-key Asset.id (r.url_param "id") s.tables.assets asset e in
          let fine =
            create_scan_job-Fine (scan_of asset (c.profile r)) asset (counted s.tables)
              (subst (λ k. find_row Asset.id k s.tables.assets ≡ some asset) (sym same) e) in
          rw (d, e)
            (job_created-AllReady w _ (with_tables c b (counted s.tables) s) (counted s.tables) fine
              (counted-AllReady s.tables s.list h))
    ]
  ]
