-- ===== src/Graph/Derive.antt =====
-- internal/graph/graph.go: the edges that findings derive. `minus` is the subtraction of float64.
use amankan.Prelude.{String, true, ◌&&◌, some, List, ◌==◌, if◌then◌else◌}
use amankan.Float64.{Float64}
use amankan.Graph.{Graph, AccountNode, Escalation, has_host, link}
use amankan.Graph.Accounts.{auto_account_id}
use amankan.Graph.Merge.{merge}

abbrev foothold_node : String → AccountNode
foothold_node asset_id = record {
  id = auto_account_id asset_id "foothold";
  username = "foothold";
  privilege = "user";
  asset_id = asset_id;
  auto = true;
}

abbrev root_node : String → AccountNode
root_node asset_id = record {
  id = auto_account_id asset_id "root";
  username = "root";
  privilege = "root";
  asset_id = asset_id;
  auto = true;
}

abbrev ensure : AccountNode → List AccountNode → List AccountNode
ensure node accounts = merge (λ a. AccountNode.id a == node.id) node (λ a. a) accounts

-- The two accounts of a host, which both derivations merge.
abbrev pub with_accounts : {F : Type 0} → String → Graph F → Graph F
with_accounts asset_id g =
    let low = auto_account_id asset_id "foothold" in
    let high = auto_account_id asset_id "root" in
    record g {
      accounts = ensure (root_node asset_id) (ensure (foothold_node asset_id) g.accounts);
      has_account = link asset_id high (link asset_id low g.has_account);
    }

module _ (fl : Float64) (minus : fl.Carrier → fl.Carrier → fl.Carrier) where
  -- round2, of a number that is not negative
  unfoldable pub round2 : fl.Carrier → fl.Carrier
  round2 f =
      fl.over (fl.of_int (fl.truncated (fl.plus (fl.times f (fl.dec 100 0)) (fl.dec 5 1))))
        (fl.dec 100 0)

  abbrev pub between : fl.Carrier → fl.Carrier → fl.Carrier → fl.Carrier
  between low high w =
      let w' = if fl.less w low then low else w in if fl.less high w' then high else w'

  -- AutoEscalationWeight
  unfoldable pub auto_escalation_weight : fl.Carrier → fl.Carrier
  unfolding round2
  auto_escalation_weight risk =
      round2 (between (fl.dec 3 1) (fl.dec 9 0) (minus (fl.dec 10 0) risk))

  -- The edge from the foothold to the root: a cheaper one replaces its properties.
  unfoldable pub cheapest :
      String → String → fl.Carrier → fl.Carrier → Escalation fl.Carrier → Escalation fl.Carrier
  cheapest technique cwe risk weight e =
      if fl.less weight e.weight
      then record e { technique = technique; cwe = cwe; risk = some risk; weight = weight }
      else e

  abbrev pub derived_edge :
      String → String → String → String → fl.Carrier → fl.Carrier → Escalation fl.Carrier
  derived_edge low high technique cwe risk weight = record {
    src = low;
    dst = high;
    technique = technique;
    cwe = cwe;
    risk = some risk;
    weight = weight;
    auto = true;
  }

  -- AutoDeriveEscalation
  unfoldable pub auto_derive_escalation :
      String → String → String → fl.Carrier → Graph fl.Carrier → Graph fl.Carrier
  unfolding auto_escalation_weight cheapest
  auto_derive_escalation asset_id cwe technique risk g =
      let weight = auto_escalation_weight risk in
      let low = auto_account_id asset_id "foothold" in
      let high = auto_account_id asset_id "root" in
      if has_host asset_id g
      then record (with_accounts asset_id g) {
        can_escalate =
            merge (λ e. Escalation.src e == low && Escalation.dst e == high)
              (derived_edge low high technique cwe risk weight) (cheapest technique cwe risk weight)
              g.can_escalate;
      }
      else g
