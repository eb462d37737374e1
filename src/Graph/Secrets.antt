-- ===== src/Graph/Secrets.antt =====
-- internal/graph/graph.go: the edges that shared credentials derive, and the graph that the engine
-- calls.
use Prim.Native.String.{◌++◌ as append}
use amankan.Prelude.{ℕ, ◌+◌, String, true, ◌&&◌, some, List, [], ◌∷◌, ◌==◌, if◌then◌else◌}
use amankan.Float64.{Float64}
use amankan.Engine.{GraphOps}
use amankan.Graph.{
  Graph, AccountNode, Reuse, Secret, Reading, has_host, link, sync_asset, sync_finding,
  upsert_reachability,
}
use amankan.Graph.Accounts.{auto_account_id}
use amankan.Graph.Merge.{merge}
use amankan.Graph.Derive.{with_accounts, round2, between, auto_derive_escalation}

-- The accounts that read a secret, and the accounts that it is valid on.
abbrev readers : String → List Reading → List String
readers fp [] = []
readers fp (r ∷ rs) =
    let rest = readers fp rs in if r.fingerprint == fp then r.account ∷ rest else rest

abbrev logins : String → List (String × String) → List String
logins fp [] = []
logins fp ((f, account) ∷ es) = let rest = logins fp es in if f == fp then account ∷ rest else rest

abbrev asset_of : List AccountNode → String → String
asset_of [] id = ""
asset_of (a ∷ as') id = let rest = asset_of as' id in if a.id == id then a.asset_id else rest

abbrev principal_of : List Secret → String → String
principal_of [] fp = ""
principal_of (s ∷ ss) fp =
    let rest = principal_of ss fp in if s.fingerprint == fp then s.principal else rest

module _ {F : Type 0} where
  -- The merges of the edges from one account to those of other hosts.
  abbrev reuse_from :
      F → String → List AccountNode → String → List String → List (Reuse F) → ℕ × List (Reuse F)
  reuse_from weight principal accounts src [] edges = (0, edges)
  reuse_from weight principal accounts src (dst ∷ dsts) edges =
      let edge : Reuse F = record {
        src = src;
        dst = dst;
        weight = weight;
        principal = some principal;
        via = some (append "shared credential: " principal);
        auto = true;
      } in
      let merged = merge (λ e. Reuse.src e == src && Reuse.dst e == dst) edge (λ e. e) edges in
      let elsewhere = reuse_from weight principal accounts src dsts merged in
      let same = reuse_from weight principal accounts src dsts edges in
      if asset_of accounts src == asset_of accounts dst
      then same
      else (elsewhere.0 + 1, elsewhere.1)

  abbrev reuse_all :
      F
      → String
      → List AccountNode
      → List String
      → List String
      → List (Reuse F)
      → ℕ × List (Reuse F)
  reuse_all weight principal accounts [] dsts edges = (0, edges)
  reuse_all weight principal accounts (src ∷ srcs) dsts edges =
      let (n, edges') = reuse_from weight principal accounts src dsts edges in
      let (m, edges'') = reuse_all weight principal accounts srcs dsts edges' in (n + m, edges'')

module _ (fl : Float64) (minus : fl.Carrier → fl.Carrier → fl.Carrier) where
  -- AutoReuseWeight
  unfoldable pub auto_reuse_weight : fl.Carrier → fl.Carrier
  unfolding round2
  auto_reuse_weight risk =
      round2 fl minus (between fl minus (fl.dec 1 0) (fl.dec 9 0) (minus (fl.dec 11 0) risk))

  -- AutoDeriveCredentialReuse: the number of edges, and the graph. Where the host is missing the
  -- first statement does nothing and the second one still runs.
  unfoldable pub auto_derive_credential_reuse :
      String → String → String → String → fl.Carrier → Graph fl.Carrier → ℕ × Graph fl.Carrier
  unfolding auto_reuse_weight
  auto_derive_credential_reuse asset_id principal fp technique risk g =
      let low = auto_account_id asset_id "foothold" in
      let high = auto_account_id asset_id "root" in
      let reading : Reading = record { account = high; fingerprint = fp; technique = technique } in
      let g' =
        if has_host asset_id g
        then record (with_accounts asset_id g) {
          secrets =
              merge (λ s. Secret.fingerprint s == fp)
                (record { fingerprint = fp; principal = principal }) (λ s. s) g.secrets;
          can_read =
              merge (λ e. Reading.account e == high && Reading.fingerprint e == fp) reading
                (λ _. reading) g.can_read;
          valid_on = link fp low g.valid_on;
        }
        else g in
      let (n, edges) =
        reuse_all (auto_reuse_weight risk) (principal_of g'.secrets fp) g'.accounts
          (readers fp g'.can_read) (logins fp g'.valid_on) g'.credential_reuse in
      (n, record g' { credential_reuse = edges })

  -- What the engine calls
  abbrev pub graph_ops : GraphOps fl.Carrier (Graph fl.Carrier)
  graph_ops = record {
    sync_asset = sync_asset;
    sync_finding = sync_finding;
    auto_derive_escalation = auto_derive_escalation fl minus;
    auto_derive_credential_reuse = λ a principal fp technique risk g.
        (auto_derive_credential_reuse a principal fp technique risk g).1;
    upsert_reachability = upsert_reachability;
  }
