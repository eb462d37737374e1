-- ===== src/Engine/Subnet.antt =====
-- internal/engine/processor.go: reachability between the hosts of a private /24 network.
use Prim.Native.String.{◌++◌ as append}
use amankan.Prelude.{
  ℕ, String, Bool, true, false, not, ◌||◌, Option, none, some, List, [], ◌∷◌, ◌==◌, if◌then◌else◌,
}
use amankan.Prelude.Int.{pos}
use amankan.Strings.{trim_space}
use amankan.Strconv.{itoa}
use amankan.Float64.{Float64}
use amankan.Models.{Asset, AssetType, ip}
use amankan.Scanner.{World}
use amankan.Store.{Tables, Result, done, err, list_assets}
use amankan.Engine.{Processor, System, on_graph}

abbrev pub is_ip : AssetType → Bool
is_ip ip = true
is_ip _ = false

module _ (fl : Float64) {G : Type 0} (world : World) (p : Processor fl world G) where
  abbrev dotted : ℕ × ℕ × ℕ × ℕ → String
  dotted (a, b, c, d) = append (itoa a) (append "." (append (itoa b) (append "." (itoa c))))

  abbrev prefix_of : Option world.Ip → Option String
  prefix_of none = none
  prefix_of (some addr) = elim (p.to4 addr) as (λ _. Option String) [
    | none ↦ none
    | some v4 ↦ if not (world.is_private addr) then none else some (dotted v4)
  ]

  -- privateSubnet24
  unfoldable pub private_subnet24 : String → Option String
  unfolding trim_space itoa
  private_subnet24 target = prefix_of (world.parse_ip (trim_space target))

  abbrev same_text : Option String → String → Bool
  same_text none net = false
  same_text (some s) net = s == net

  -- The peers of an asset, in the order of the list.
  unfoldable pub subnet_peers : Asset → String → List Asset → List Asset
  unfolding private_subnet24
  subnet_peers asset net [] = []
  subnet_peers asset net (peer ∷ peers) =
      let rest = subnet_peers asset net peers in
      if peer.id == asset.id || not (is_ip peer.asset_type)
      then rest
      else if not (same_text (private_subnet24 peer.target) net)
      then rest
      else peer ∷ rest

  abbrev pub link_peers : Asset → List Asset → G → G
  link_peers asset [] g = g
  link_peers asset (peer ∷ peers) g = link_peers asset peers (
      p.graph.upsert_reachability peer.id asset.id (pos 0) "ip"
        (p.graph.upsert_reachability asset.id peer.id (pos 0) "ip" g))

  abbrev linked : Asset → Option String → List Asset → Option G → Option G
  linked asset none assets g = g
  linked asset (some net) assets g = on_graph (link_peers asset (subnet_peers asset net assets)) g

  abbrev pub derived :
      Asset → Result (List Asset) × Tables fl.Carrier → Option G → System fl.Carrier G
  derived asset (err e, db) g = record { tables = db; graph = g }
  derived asset (done assets, db) g = record {
    tables = db;
    graph = linked asset (private_subnet24 asset.target) assets g;
  }

  -- deriveSubnetReachability, which runs where there is a graph.
  unfoldable pub derive_subnet_reachability : Asset → System fl.Carrier G → System fl.Carrier G
  unfolding private_subnet24 subnet_peers
  derive_subnet_reachability asset s = derived asset (list_assets p.server s.tables) s.graph
