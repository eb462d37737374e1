-- ===== src/Graph/Paths.antt =====
-- internal/graph/graph.go: attack paths and privilege-escalation paths from the records that the
-- database gives for the code's queries.
use amankan.Prelude.{
  ℕ, zero, suc, String, Bool, ◌||◌, Option, none, some, List, [], ◌∷◌, map, ltb, if◌then◌else◌,
  length,
}
use amankan.Prelude.Int.{ℤ, pos, negsuc}
use amankan.Float64.{Float64}
use amankan.Graph.Derive.{round2}

-- A record of the query: a node with the title, the CWE and the risk of each vulnerability.
pub record RawHop (F : Type 0) : Type 0 where
  pub id : String
  pub name : String
  pub criticality : String
  pub exposure : String
  pub vulns : List (String × String × F)

pub record RawPath (F : Type 0) : Type 0 where
  pub hops : List (RawHop F)
  pub length_of : ℕ

pub record Hop (F : Type 0) : Type 0 where
  pub asset_id : String
  pub asset_name : String
  pub criticality : String
  pub exposure : String
  pub via_vuln_title : String
  pub via_vuln_cwe : String
  pub via_vuln_risk : F

pub record AttackPath (F : Type 0) : Type 0 where
  pub hops : List (Hop F)
  pub length_of : ℕ
  pub max_risk : F
  pub path_risk : F

-- The bound of maxHops
unfoldable pub bounded_hops : ℤ → ℕ
bounded_hops (negsuc n) = 4
bounded_hops (pos zero) = 4
bounded_hops (pos (suc n)) = if ltb 8 (suc n) then 8 else suc n

module _ (fl : Float64) (minus : fl.Carrier → fl.Carrier → fl.Carrier) where
  -- pickTopVuln, with the best risk so far and its vulnerability
  unfoldable pub top_from :
      fl.Carrier
      → String × String × fl.Carrier
      → List (String × String × fl.Carrier)
      → String × String × fl.Carrier
  top_from best top [] = top
  top_from best top ((title, cwe, risk) ∷ vulns) =
      if fl.less best risk then top_from risk (title, cwe, risk) vulns else top_from best top vulns

  unfoldable pub pick_top_vuln : List (String × String × fl.Carrier) → String × String × fl.Carrier
  unfolding top_from
  pick_top_vuln vulns = top_from (minus (fl.dec 0 0) (fl.dec 1 0)) ("", "", fl.dec 0 0) vulns

  unfoldable pub hop_of : RawHop fl.Carrier → Hop fl.Carrier
  unfolding pick_top_vuln
  hop_of h =
      let (title, cwe, risk) = pick_top_vuln h.vulns in
      record {
        asset_id = h.id;
        asset_name = h.name;
        criticality = h.criticality;
        exposure = h.exposure;
        via_vuln_title = title;
        via_vuln_cwe = cwe;
        via_vuln_risk = risk;
      }

  -- The loop over the hops of a path.
  unfoldable pub max_risk : fl.Carrier → List (Hop fl.Carrier) → fl.Carrier
  max_risk m [] = m
  max_risk m (h ∷ hs) = max_risk (if fl.less m h.via_vuln_risk then h.via_vuln_risk else m) hs

  unfoldable pub sum_risk : fl.Carrier → List (Hop fl.Carrier) → fl.Carrier
  sum_risk s [] = s
  sum_risk s (h ∷ hs) = sum_risk (fl.plus s h.via_vuln_risk) hs

  unfoldable pub path_of : RawPath fl.Carrier → AttackPath fl.Carrier
  unfolding hop_of max_risk sum_risk round2
  path_of p =
      let hops = map hop_of p.hops in
      record {
        hops = hops;
        length_of = p.length_of;
        max_risk = max_risk (fl.dec 0 0) hops;
        path_risk =
            if ltb 0 (length hops)
            then round2 fl minus (fl.over (sum_risk (fl.dec 0 0) hops) (fl.of_int (length hops)))
            else fl.dec 0 0;
      }

  -- The order of the sort.
  unfoldable pub goes_before : AttackPath fl.Carrier → AttackPath fl.Carrier → Bool
  goes_before p q =
      if fl.less p.max_risk q.max_risk || fl.less q.max_risk p.max_risk
      then fl.less q.max_risk p.max_risk
      else ltb p.length_of q.length_of

  -- sort.SliceStable: the stable sort of a list is unique.
  unfoldable pub put_in :
      AttackPath fl.Carrier → List (AttackPath fl.Carrier) → List (AttackPath fl.Carrier)
  unfolding goes_before
  put_in p [] = p ∷ []
  put_in p (q ∷ qs) = let rest = put_in p qs in if goes_before q p then q ∷ rest else p ∷ q ∷ qs

  unfoldable pub sorted : List (AttackPath fl.Carrier) → List (AttackPath fl.Carrier)
  unfolding put_in
  sorted [] = []
  sorted (p ∷ ps) = put_in p (sorted ps)

  -- FindAttackPaths, where the database gives these records for a bound on the hops, or fails.
  unfoldable pub find_attack_paths :
      (ℕ → Option (List (RawPath fl.Carrier))) → ℤ → Option (List (AttackPath fl.Carrier))
  unfolding bounded_hops path_of sorted
  find_attack_paths read max_hops = ranked (read (bounded_hops max_hops))
    where
      ranked : Option (List (RawPath fl.Carrier)) → Option (List (AttackPath fl.Carrier))
      ranked none = none
      ranked (some records) = some (sorted (map path_of records))
