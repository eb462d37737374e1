-- ===== src/Api/Authorization.antt =====
-- internal/api/api.go: what authorizeAsset means for the scans of an asset.
use amankan.Prelude.{
  String, ◌≡◌, refl, sym, ◌∙◌, subst, ◌≢◌, inl, inr, Bool, true, false, Option, none, some, [],
  Bool-cases,
}
use amankan.Models.{Asset, ScannerType, secrets}
use amankan.Http.{Request, Writer}
use amankan.Scanner.{World, Options}
use amankan.Scanner.Adapters.{scan, live_allowed, is_safe_target}
use amankan.Scanner.Laws.{network_scan_allowed}
use amankan.Store.{
  Tables, find_row, update_row, map_row, find_row-update_row, set_asset_authorization, affecting,
}
use amankan.Api.Service.{Backend, Codec, Backing, input}
use amankan.Api.Assets.{authorize_asset, authorized}

-- Without a permission, only a target that is safe is scanned for real.
unpermitted :
    (world : World) (o : Options) (asset : Asset)
    → o.scan_authorized ≡ false
    → asset.scan_authorized ≡ false
    → live_allowed world o asset ≡ true
    → is_safe_target world asset.target ≡ true
unfolding live_allowed
unpermitted world o asset global own allowed = elim (Bool-cases o.allow_live_scan) [
  | inl live ↦
      let step : live_allowed world o asset ≡ is_safe_target world asset.target =
        rw (live, global, own) refl in
      sym step ∙ allowed
  | inr off ↦
      let step : live_allowed world o asset ≡ false = rw off refl in absurd (cc (step, allowed))
]

set-flag :
    (flag : Bool) (row : Option Asset) (asset : Asset)
    → map_row (λ a. record a { scan_authorized = flag }) row ≡ some asset
    → asset.scan_authorized ≡ flag
set-flag flag none asset e = absurd (cc e)
set-flag flag (some a) asset e = sym (cc e)

module _ {F G : Type 0} (c : Codec F) (b : Backing F) where
  -- The assets that authorizeAsset leaves where its call is executed.
  authorized-assets :
      (w : Writer) (id : String) (flag : Bool) (row : Option Asset) (db : Tables F)
      (s : Backend F G)
      → (authorized c b w id flag (affecting row (none, db)) s).1.tables.assets ≡ db.assets
  authorized-assets w id flag none db s = refl
  authorized-assets w id flag (some a) db s = refl

  authorize_asset-flag :
      (w : Writer) (r : Request) (s : Backend F G) (flag : Bool) (asset : Asset)
      → b.server.down s.tables.calls ≡ none
      → c.authorized r ≡ input flag
      → find_row Asset.id (r.url_param "id") (authorize_asset c b w r s).1.tables.assets
        ≡ some asset
      → asset.scan_authorized ≡ flag
  unfolding authorize_asset set_asset_authorization
  authorize_asset-flag w r s flag asset up body found =
      let id = r.url_param "id" in
      let rows =
        update_row Asset.id id (λ a. record a { scan_authorized = flag }) s.tables.assets in
      let step : (authorize_asset c b w r s).1.tables.assets ≡ rows =
        rw (body, up) (authorized-assets w id flag (find_row Asset.id id s.tables.assets) _ s) in
      set-flag flag (find_row Asset.id id s.tables.assets) asset (
        sym (find_row-update_row Asset.id id _ s.tables.assets (λ a. refl))
        ∙ subst (λ assets. find_row Asset.id id assets ≡ some asset) step found)

  -- Once authorizeAsset has withdrawn the permission of an asset, no adapter but that for source
  -- trees does anything in the world for the asset as it is in the table, unless isSafeTarget holds
  -- of its target, provided that the server executes the call and that the
  -- configuration does not permit scans of every asset.
  pub authorize_asset-revokes :
      (world : World) (o : Options) (sc : ScannerType) (w : Writer) (r : Request) (s : Backend F G)
      (asset : Asset)
      → b.server.down s.tables.calls ≡ none
      → c.authorized r ≡ input false
      → o.scan_authorized ≡ false
      → sc ≢ secrets
      → find_row Asset.id (r.url_param "id") (authorize_asset c b w r s).1.tables.assets
        ≡ some asset
      → (scan world sc o asset).0 ≢ []
      → is_safe_target world asset.target ≡ true
  authorize_asset-revokes world o sc w r s asset up body global network found acted =
      unpermitted world o asset global (authorize_asset-flag w r s false asset up body found)
        (network_scan_allowed world o sc asset network acted)
