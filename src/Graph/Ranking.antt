-- ===== src/Graph/Ranking.antt =====
-- internal/graph/graph.go: the order of the attack paths that FindAttackPaths gives.
use amankan.Prelude.{
  ℕ, zero, suc, ◌≤◌, ◌≡◌, refl, sym, ◌∙◌, inl, inr, true, false, Option, none, some, List, [], ◌∷◌,
  map, arith, ltb, Bool-cases, ltb→lt, All,
}
use mathlib.Core.List.{Perm}
use mathlib.Core.List.Perm
use amankan.Prelude.Int.{ℤ, pos, negsuc}
use amankan.Float64.{Float64, FloatLaws, AtMost}
use amankan.Graph.Paths.{
  AttackPath, RawPath, bounded_hops, goes_before, put_in, sorted, path_of, find_attack_paths,
}

-- The bound in the query is from 1 to 8 whatever is asked for.
bounded_hops-bounds : (n : ℤ) → (1 ≤ bounded_hops n) × (bounded_hops n ≤ 8)
unfolding bounded_hops
bounded_hops-bounds (negsuc n) = (omega arith, omega arith)
bounded_hops-bounds (pos zero) = (omega arith, omega arith)
bounded_hops-bounds (pos (suc n)) = elim (Bool-cases (ltb 8 (suc n))) [
  | inl e ↦ rw e (omega arith, omega arith)
  | inr e ↦ rw e (omega arith, ground arith)
]

module _ (fl : Float64) where
  -- p is at least as dangerous as q, and of two equally dangerous paths not the longer one.
  abbrev pub IsFirst : AttackPath fl.Carrier → AttackPath fl.Carrier → Type 0
  IsFirst p q =
      AtMost fl q.max_risk p.max_risk
      × (AtMost fl p.max_risk q.max_risk → p.length_of ≤ q.length_of)

  abbrev pub IsRanked : List (AttackPath fl.Carrier) → Type 0
  IsRanked [] = Unit
  IsRanked (p ∷ ps) = All (IsFirst p) ps × IsRanked ps

module _ (fl : Float64) (minus : fl.Carrier → fl.Carrier → fl.Carrier) (laws : FloatLaws fl) where
  IsFirst-trans : (p q r : AttackPath fl.Carrier) → IsFirst fl p q → IsFirst fl q r → IsFirst fl p r
  IsFirst-trans p q r (a, f) (b, g) =
      (laws.order _ _ _ b a, λ e. omega (arith, f (laws.order _ _ _ e b), g (laws.order _ _ _ a e)))

  before-IsFirst : (p q : AttackPath fl.Carrier) → goes_before fl minus p q ≡ true → IsFirst fl p q
  unfolding goes_before
  before-IsFirst p q h = elim (Bool-cases (fl.less p.max_risk q.max_risk)) [
    | inl a ↦
        let step : goes_before fl minus p q ≡ fl.less q.max_risk p.max_risk = rw a refl in
        absurd (cc (step, h, laws.strict _ _ a))
    | inr a ↦ elim (Bool-cases (fl.less q.max_risk p.max_risk)) [
      | inl b ↦ (a, λ e. absurd (cc (e, b)))
      | inr b ↦
          let step : goes_before fl minus p q ≡ ltb p.length_of q.length_of = rw (a, b) refl in
          (a, λ e. below p.length_of q.length_of (sym step ∙ h))
    ]
  ]
    where
      below : (m n : ℕ) → ltb m n ≡ true → m ≤ n
      below m n t = omega (arith, ltb→lt m n t)

  not_before-IsFirst :
      (p q : AttackPath fl.Carrier) → goes_before fl minus p q ≡ false → IsFirst fl q p
  unfolding goes_before
  not_before-IsFirst p q h = elim (Bool-cases (fl.less p.max_risk q.max_risk)) [
    | inl a ↦ (laws.strict _ _ a, λ e. absurd (cc (e, a)))
    | inr a ↦ elim (Bool-cases (fl.less q.max_risk p.max_risk)) [
      | inl b ↦
          let step : goes_before fl minus p q ≡ fl.less q.max_risk p.max_risk = rw (a, b) refl in
          absurd (cc (step, h, b))
      | inr b ↦
          let step : goes_before fl minus p q ≡ ltb p.length_of q.length_of = rw (a, b) refl in
          (b, λ e. above p.length_of q.length_of (sym step ∙ h))
    ]
  ]
    where
      above : (m n : ℕ) → ltb m n ≡ false → n ≤ m
      above m n t = ground arith

  put_in-perm :
      (p : AttackPath fl.Carrier) (qs : List (AttackPath fl.Carrier))
      → Perm (put_in fl minus p qs) (p ∷ qs)
  unfolding put_in
  put_in-perm p [] = Perm.rfl
  put_in-perm p (q ∷ qs) = elim (Bool-cases (goes_before fl minus q p)) [
    | inl e ↦ rw e (Perm.trans (Perm.cons q (put_in-perm p qs)) (Perm.swap p q qs))
    | inr e ↦ rw e Perm.rfl
  ]

  all-put_in :
      (P : AttackPath fl.Carrier → Type 0) (p : AttackPath fl.Carrier)
      (qs : List (AttackPath fl.Carrier))
      → P p
      → All P qs
      → All P (put_in fl minus p qs)
  unfolding put_in
  all-put_in P p [] h hs = (h, tt)
  all-put_in P p (q ∷ qs) h (k, ks) = elim (Bool-cases (goes_before fl minus q p)) [
    | inl e ↦ rw e (k, all-put_in P p qs h ks)
    | inr e ↦ rw e (h, (k, ks))
  ]

  all-IsFirst :
      (p q : AttackPath fl.Carrier) (qs : List (AttackPath fl.Carrier))
      → IsFirst fl p q
      → All (IsFirst fl q) qs
      → All (IsFirst fl p) qs
  all-IsFirst p q [] h hs = tt
  all-IsFirst p q (r ∷ rs) h (k, ks) = (IsFirst-trans p q r h k, all-IsFirst p q rs h ks)

  put_in-IsRanked :
      (p : AttackPath fl.Carrier) (qs : List (AttackPath fl.Carrier))
      → IsRanked fl qs
      → IsRanked fl (put_in fl minus p qs)
  unfolding put_in
  put_in-IsRanked p [] h = (tt, tt)
  put_in-IsRanked p (q ∷ qs) (h, hs) = elim (Bool-cases (goes_before fl minus q p)) [
    | inl e ↦
        rw e (all-put_in (IsFirst fl q) p qs (before-IsFirst q p e) h, put_in-IsRanked p qs hs)
    | inr e ↦
        let first = not_before-IsFirst q p e in rw e ((first, all-IsFirst p q qs first h), (h, hs))
  ]

  sorted-laws :
      (ps : List (AttackPath fl.Carrier))
      → Perm (sorted fl minus ps) ps × IsRanked fl (sorted fl minus ps)
  unfolding sorted
  sorted-laws [] = (Perm.rfl, tt)
  sorted-laws (p ∷ ps) =
      let (perm, ranked) = sorted-laws ps in
      (
        Perm.trans (put_in-perm p (sorted fl minus ps)) (Perm.cons p perm),
        put_in-IsRanked p (sorted fl minus ps) ranked,
      )

  -- FindAttackPaths asks the database for paths of at most a number of hops from 1 to 8, whatever
  -- number the request has, fails only where the database fails, and otherwise gives exactly the
  -- paths of its records, each as often as it has them, by falling highest risk, and paths of the
  -- same highest risk by rising length.
  pub find_attack_paths-IsRanked :
      (read : ℕ → Option (List (RawPath fl.Carrier))) (max_hops : ℤ)
      → (n : ℕ) × (1 ≤ n)
        × (n ≤ 8)
        × ((read n ≡ none → find_attack_paths fl minus read max_hops ≡ none)
            × ((records : List (RawPath fl.Carrier))
                → read n ≡ some records
                → (paths : List (AttackPath fl.Carrier)) × (find_attack_paths fl minus read max_hops
                    ≡ some paths)
                  × Perm paths (map (path_of fl minus) records)
                  × IsRanked fl paths))
  unfolding find_attack_paths
  find_attack_paths-IsRanked read max_hops =
      let (low, high) = bounded_hops-bounds max_hops in
      (
        bounded_hops max_hops,
        low,
        high,
        (
          λ e. rw e refl,
          λ records e.
              let (perm, ranked) = sorted-laws (map (path_of fl minus) records) in
              (sorted fl minus (map (path_of fl minus) records), rw e refl, perm, ranked),
        ),
      )
