-- ===== src/Graph/Tests.antt =====
-- Two weaknesses of one host, and three attack paths, in hundredths.
use amankan.Prelude.{
  ℕ, ◌-◌, ◌≤◌, String, ◌≡◌, refl, true, Option, none, some, List, [], ◌∷◌, map, eqb, if◌then◌else◌,
  All, Any,
}
use mathlib.Core.List.{Perm}
use amankan.Prelude.Int.{pos}
use amankan.Float64.{AtMost}
use amankan.Float64.Hundredths.{hundredths, hundredths_laws}
use amankan.Models.{Asset, ip, crit_high}
use amankan.Graph.{Graph, Escalation, empty_graph, sync_asset}
use amankan.Graph.Accounts.{auto_account_id}
use amankan.Graph.Cheapest.{Weakness, edges, derive_all, weight_of, derive_all-cheapest}
use amankan.Graph.Derive.{auto_derive_escalation}
use amankan.Graph.Paths.{RawPath, RawHop, AttackPath, find_attack_paths, path_of}
use amankan.Graph.Ranking.{IsRanked, find_attack_paths-IsRanked}

abbrev minus : ℕ → ℕ → ℕ
minus a b = a - b

abbrev asset : Asset
asset = record {
  id = "a1";
  name = "host";
  asset_type = ip;
  target = "10.0.0.5";
  criticality = crit_high;
  tags = "public" ∷ [];
  scan_authorized = true;
  created_at = 0;
}

abbrev graph : Graph ℕ
graph = sync_asset asset empty_graph

abbrev mild : Weakness ℕ
mild = record { cwe = "CWE-250"; technique = "setuid"; risk = 620 }

abbrev severe : Weakness ℕ
severe = record { cwe = "CWE-269"; technique = "kernel"; risk = 930 }

abbrev risks : List (Escalation ℕ) → List (String × ℕ)
risks [] = []
risks (e ∷ es) = (e.technique, e.weight) ∷ risks es

-- The second finding is cheaper, and the third one is not.
kept_cheapest :
    risks (
      edges hundredths minus "a1"
        (derive_all hundredths minus "a1" (mild ∷ severe ∷ mild ∷ []) graph))
    ≡ ("kernel", 70) ∷ []
unfolding sync_asset auto_derive_escalation auto_account_id
kept_cheapest = refl

abbrev three : List (Weakness ℕ)
three = mild ∷ severe ∷ mild ∷ []

derive_all-cheapest_example :
    (e : Escalation ℕ) × (edges hundredths minus "a1" (derive_all hundredths minus "a1" three graph)
      ≡ e ∷ [])
    × All (λ x. AtMost hundredths e.weight (weight_of hundredths minus "a1" x)) three
    × Any (λ x. e.weight ≡ weight_of hundredths minus "a1" x) three
unfolding sync_asset
derive_all-cheapest_example =
    derive_all-cheapest hundredths minus "a1" hundredths_laws mild (severe ∷ mild ∷ []) graph refl
      refl

abbrev hop : ℕ → RawHop ℕ
hop risk = record {
  id = "a1";
  name = "host";
  criticality = "high";
  exposure = "external";
  vulns = ("low", "CWE-1", 100) ∷ ("top", "CWE-2", risk) ∷ [];
}

abbrev records : List (RawPath ℕ)
records =
    record { hops = hop 700 ∷ []; length_of = 1 }
    ∷ record { hops = hop 900 ∷ hop 700 ∷ hop 700 ∷ []; length_of = 3 }
    ∷ record { hops = hop 900 ∷ hop 700 ∷ []; length_of = 2 }
    ∷ []

abbrev read : ℕ → Option (List (RawPath ℕ))
read n = if eqb n 8 then some records else none

abbrev shapes : Option (List (AttackPath ℕ)) → List (ℕ × ℕ × ℕ)
shapes none = []
shapes (some ps) =
    map (λ p. (AttackPath.max_risk p, AttackPath.length_of p, AttackPath.path_risk p)) ps

ranked_paths :
    shapes (find_attack_paths hundredths minus read (pos 50))
    ≡ (900, 2, 800) ∷ (900, 3, 766) ∷ (700, 1, 700) ∷ []
unfolding find_attack_paths
ranked_paths = refl

find_attack_paths-IsRanked_example :
    (n : ℕ) × (1 ≤ n)
    × (n ≤ 8)
    × ((read n ≡ none → find_attack_paths hundredths minus read (pos 50) ≡ none)
        × ((rs : List (RawPath ℕ))
            → read n ≡ some rs
            → (paths : List (AttackPath ℕ)) × (find_attack_paths hundredths minus read (pos 50)
                ≡ some paths)
              × Perm paths (map (path_of hundredths minus) rs)
              × IsRanked hundredths paths))
find_attack_paths-IsRanked_example =
    find_attack_paths-IsRanked hundredths minus hundredths_laws read (pos 50)
