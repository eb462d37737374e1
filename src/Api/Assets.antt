-- ===== src/Api/Assets.antt =====
-- internal/api/api.go: the handlers of assets and of scans.
use amankan.Prelude.{String, Bool, false, ◌||◌, Option, none, some, List, [], ◌==◌, if◌then◌else◌}
use amankan.Models.{
  Asset, AssetType, domain, other_type, Criticality, crit_medium, other_criticality, ScanJob,
  ScanProfile, quick, other_profile, queued,
}
use amankan.Http.{Request, Writer, Handler}
use amankan.Queue.{enqueue}
use amankan.Store.{
  Tables, Error, Result, done, err, create_asset, set_asset_authorization, get_asset, list_assets,
  create_scan_job, get_scan_job, list_scan_jobs,
}
use amankan.Api.{paginate}
use amankan.Api.Service.{
  Backend, AssetInput, Codec, Backing, Decoded, bad, input, asset_reply, assets_reply,
  authorized_reply, job_reply, jobs_reply, write_json, bad_request, store_error, server_error,
  not_found_or_error,
}

abbrev or_domain : AssetType → AssetType
or_domain (other_type t) = if t == "" then domain else other_type t
or_domain t = t

abbrev or_medium : Criticality → Criticality
or_medium (other_criticality c) = if c == "" then crit_medium else other_criticality c
or_medium c = c

abbrev or_quick : ScanProfile → ScanProfile
or_quick (other_profile p) = if p == "" then quick else other_profile p
or_quick p = p

abbrev new_asset : AssetInput → Asset
new_asset i = record {
  id = "";
  name = i.name;
  asset_type = or_domain i.asset_type;
  target = i.target;
  criticality = or_medium i.criticality;
  tags = i.tags;
  scan_authorized = i.scan_authorized;
  created_at = 0;
}

-- The job that startScan makes, before the store gives it its identifier.
abbrev pub scan_of : Asset → ScanProfile → ScanJob
scan_of asset profile = record {
  id = "";
  asset_id = asset.id;
  profile = or_quick profile;
  scanners = [];
  status = queued;
  error = "";
  used_mock = false;
  created_at = 0;
  started_at = none;
  finished_at = none;
}

module _ {F G : Type 0} (c : Codec F) (b : Backing F) where
  abbrev pub with_tables : Tables F → Backend F G → Backend F G
  with_tables db s = record s { tables = db }

  abbrev created : Writer → Option Error × Asset × Tables F → Backend F G → Writer × Backend F G
  created w (some e, a, db) s = (store_error c w e, with_tables db s)
  created w (none, a, db) s = (write_json c w 201 (asset_reply a), with_tables db s)

  abbrev create_from : Writer → Decoded AssetInput → Backend F G → Writer × Backend F G
  create_from w (bad e) s = (bad_request c w e, s)
  create_from w (input i) s =
      if i.name == "" || i.target == ""
      then (bad_request c w "name and target are required", s)
      else created w (create_asset b.server (new_asset i) s.tables) s

  -- createAsset
  unfoldable pub handle_create_asset : Handler (Backend F G)
  unfolding create_asset write_json
  handle_create_asset w r s = create_from w (c.asset_input r) s

  abbrev listed :
      Writer → Request → Result (List Asset) × Tables F → Backend F G → Writer × Backend F G
  listed w r (err e, db) s = (store_error c w e, with_tables db s)
  listed w r (done assets, db) s =
      let (w', items) = paginate w r assets in
      (write_json c w' 200 (assets_reply items), with_tables db s)

  -- listAssets
  unfoldable pub handle_list_assets : Handler (Backend F G)
  unfolding list_assets paginate write_json
  handle_list_assets w r s = listed w r (list_assets b.server s.tables) s

  abbrev got : Writer → Result Asset × Tables F → Backend F G → Writer × Backend F G
  got w (err e, db) s = (not_found_or_error c w e, with_tables db s)
  got w (done a, db) s = (write_json c w 200 (asset_reply a), with_tables db s)

  -- getAsset
  unfoldable pub handle_get_asset : Handler (Backend F G)
  unfolding get_asset write_json not_found_or_error
  handle_get_asset w r s = got w (get_asset b.server (r.url_param "id") s.tables) s

  abbrev pub authorized :
      Writer → String → Bool → Option Error × Tables F → Backend F G → Writer × Backend F G
  authorized w id flag (some e, db) s = (not_found_or_error c w e, with_tables db s)
  authorized w id flag (none, db) s =
      (write_json c w 200 (authorized_reply id flag), with_tables db s)

  abbrev pub authorize_from : Writer → String → Decoded Bool → Backend F G → Writer × Backend F G
  authorize_from w id (bad e) s = (bad_request c w e, s)
  authorize_from w id (input flag) s =
      authorized w id flag (set_asset_authorization b.server id flag s.tables) s

  -- authorizeAsset
  unfoldable pub authorize_asset : Handler (Backend F G)
  unfolding set_asset_authorization write_json not_found_or_error
  authorize_asset w r s = authorize_from w (r.url_param "id") (c.authorized r) s

  abbrev pub enqueued :
      Writer → ScanJob → Option String × List String → Backend F G → Writer × Backend F G
  enqueued w job (some e, list) s = (server_error c w e, record s { list = list })
  enqueued w job (none, list) s = (write_json c w 202 (job_reply job), record s { list = list })

  abbrev pub job_created :
      Writer → Option Error × ScanJob × Tables F → Backend F G → Writer × Backend F G
  job_created w (some e, job, db) s = (store_error c w e, with_tables db s)
  job_created w (none, job, db) s =
      enqueued w job (enqueue (b.redis_down db.calls) job.id s.list) (with_tables db s)

  abbrev pub scan_asset :
      Writer → Request → Result Asset × Tables F → Backend F G → Writer × Backend F G
  scan_asset w r (err e, db) s = (not_found_or_error c w e, with_tables db s)
  scan_asset w r (done asset, db) s =
      job_created w (create_scan_job b.server (scan_of asset (c.profile r)) db) (with_tables db s)

  -- startScan
  unfoldable pub start_scan : Handler (Backend F G)
  unfolding get_asset create_scan_job enqueue write_json not_found_or_error
  start_scan w r s = scan_asset w r (get_asset b.server (r.url_param "id") s.tables) s

  abbrev scans :
      Writer → Request → Result (List ScanJob) × Tables F → Backend F G → Writer × Backend F G
  scans w r (err e, db) s = (store_error c w e, with_tables db s)
  scans w r (done jobs, db) s =
      let (w', items) = paginate w r jobs in
      (write_json c w' 200 (jobs_reply items), with_tables db s)

  -- listScans
  unfoldable pub list_scans : Handler (Backend F G)
  unfolding list_scan_jobs paginate write_json
  list_scans w r s = scans w r (list_scan_jobs b.server s.tables) s

  abbrev one_scan : Writer → Result ScanJob × Tables F → Backend F G → Writer × Backend F G
  one_scan w (err e, db) s = (not_found_or_error c w e, with_tables db s)
  one_scan w (done j, db) s = (write_json c w 200 (job_reply j), with_tables db s)

  -- getScan
  unfoldable pub get_scan : Handler (Backend F G)
  unfolding get_scan_job write_json not_found_or_error
  get_scan w r s = one_scan w (get_scan_job b.server (r.url_param "id") s.tables) s
