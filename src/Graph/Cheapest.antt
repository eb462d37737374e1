-- ===== src/Graph/Cheapest.antt =====
-- internal/graph/graph.go: the weight that the findings of a host leave on its escalation edge.
use amankan.Prelude.{
  String, ◌≡◌, refl, ap, ◌∙◌, ◌⊎◌, inl, inr, Bool, true, ◌&&◌, List, [], ◌∷◌, ◌==◌, eq_refl,
  if◌then◌else◌, Bool-cases, All, Any,
}
use amankan.Float64.{Float64, FloatLaws, AtMost}
use amankan.Graph.{Graph, Escalation, has_host}
use amankan.Graph.Accounts.{auto_account_id}
use amankan.Graph.Derive.{auto_escalation_weight, auto_derive_escalation, cheapest, derived_edge}
use amankan.Graph.Merge.{merge}

-- A finding that lets a user gain privileges.
pub record Weakness (F : Type 0) : Type 0 where
  pub cwe : String
  pub technique : String
  pub risk : F

module _ {A : Type 0} (test : A → Bool) where
  abbrev pub matching : List A → List A
  matching [] = []
  matching (a ∷ as') = let rest = matching as' in if test a then a ∷ rest else rest

  -- What a merge does to the elements that match, of which there is at most one before.
  abbrev pub remerged : A → (A → A) → List A → List A
  remerged new set [] = new ∷ []
  remerged new set (a ∷ as') = set a ∷ as'

  pub matching-merge :
      (new : A) (set : A → A) (rows : List A)
      → test new ≡ true
      → ((a : A) → test a ≡ true → test (set a) ≡ true)
      → matching (merge test new set rows) ≡ remerged new set (matching rows)
  matching-merge new set [] n s = rw n refl
  matching-merge new set (a ∷ rows) n s = elim (Bool-cases (test a)) [
    | inl e ↦ rw (e, s a e) refl
    | inr e ↦ rw (e, e) (matching-merge new set rows n s)
  ]

module _ (fl : Float64) (minus : fl.Carrier → fl.Carrier → fl.Carrier) (asset_id : String) where
  abbrev pub is_edge : Escalation fl.Carrier → Bool
  is_edge e =
      e.src == auto_account_id asset_id "foothold" && e.dst == auto_account_id asset_id "root"

  -- The derivations of the findings of the host, one after another.
  abbrev pub derive_all : List (Weakness fl.Carrier) → Graph fl.Carrier → Graph fl.Carrier
  derive_all [] g = g
  derive_all (f ∷ fs) g =
      derive_all fs (auto_derive_escalation fl minus asset_id f.cwe f.technique f.risk g)

  abbrev pub edges : Graph fl.Carrier → List (Escalation fl.Carrier)
  edges g = matching is_edge g.can_escalate

  abbrev pub weight_of : Weakness fl.Carrier → fl.Carrier
  weight_of f = auto_escalation_weight fl minus f.risk

  abbrev derive_one : Weakness fl.Carrier → Graph fl.Carrier → Graph fl.Carrier
  derive_one f g = auto_derive_escalation fl minus asset_id f.cwe f.technique f.risk g

  abbrev merged : Weakness fl.Carrier → Escalation fl.Carrier → Escalation fl.Carrier
  merged f e = cheapest fl minus f.technique f.cwe f.risk (weight_of f) e

  merged-is_edge :
      (f : Weakness fl.Carrier) (e : Escalation fl.Carrier)
      → is_edge e ≡ true
      → is_edge (merged f e) ≡ true
  unfolding cheapest
  merged-is_edge f e h = elim (Bool-cases (fl.less (weight_of f) e.weight)) [
    | inl l ↦ rw l h
    | inr l ↦ rw l h
  ]

  derive_one-host :
      (f : Weakness fl.Carrier) (g : Graph fl.Carrier)
      → has_host asset_id g ≡ true
      → has_host asset_id (derive_one f g) ≡ true
  unfolding auto_derive_escalation
  derive_one-host f g h = rw h h

  abbrev first_edge : Weakness fl.Carrier → Escalation fl.Carrier
  first_edge f =
      derived_edge fl minus (auto_account_id asset_id "foothold") (auto_account_id asset_id "root")
        f.technique f.cwe f.risk (weight_of f)

  derive_one-edges :
      (f : Weakness fl.Carrier) (g : Graph fl.Carrier)
      → has_host asset_id g ≡ true
      → edges (derive_one f g) ≡ remerged is_edge (first_edge f) (merged f) (edges g)
  unfolding auto_derive_escalation
  derive_one-edges f g h =
      let own : is_edge (first_edge f) ≡ true =
        rw
          (eq_refl (auto_account_id asset_id "foothold"), eq_refl (auto_account_id asset_id "root"))
          refl in
      rw h (matching-merge is_edge (first_edge f) (merged f) g.can_escalate own (merged-is_edge f))

  module _ (laws : FloatLaws fl) where
    AtMost-self : (a : fl.Carrier) → AtMost fl a a
    AtMost-self a = elim (Bool-cases (fl.less a a)) [ inl l ↦ laws.strict a a l | inr l ↦ l ]

    merged-weight :
        (f : Weakness fl.Carrier) (e : Escalation fl.Carrier)
        → AtMost fl (merged f e).weight e.weight
          × AtMost fl (merged f e).weight (weight_of f)
          × (((merged f e).weight ≡ weight_of f) ⊎ ((merged f e).weight ≡ e.weight))
    unfolding cheapest
    merged-weight f e = elim (Bool-cases (fl.less (weight_of f) e.weight)) [
      | inl l ↦ rw l (laws.strict _ _ l, AtMost-self _, inl refl)
      | inr l ↦ rw l (AtMost-self _, l, inr refl)
    ]

    -- The one edge that is left from an edge `e` and findings.
    abbrev Left :
        Escalation fl.Carrier → List (Weakness fl.Carrier) → List (Escalation fl.Carrier) → Type 0
    Left e fs es =
        (e' : Escalation fl.Carrier) × (es ≡ e' ∷ [])
        × AtMost fl e'.weight e.weight
        × All (λ f. AtMost fl e'.weight (weight_of f)) fs
        × ((e'.weight ≡ e.weight) ⊎ Any (λ f. e'.weight ≡ weight_of f) fs)

    derive_all-Left :
        (fs : List (Weakness fl.Carrier)) (g : Graph fl.Carrier) (e : Escalation fl.Carrier)
        → has_host asset_id g ≡ true
        → edges g ≡ e ∷ []
        → Left e fs (edges (derive_all fs g))
    derive_all-Left [] g e host one = (e, one, AtMost-self _, tt, inl refl)
    derive_all-Left (f ∷ fs) g e host one =
        let next = derive_one-edges f g host in
        let (lower, of_f, from) = merged-weight f e in
        let next' : edges (derive_one f g) ≡ merged f e ∷ [] =
          next ∙ ap (remerged is_edge (first_edge f) (merged f)) one in
        let (e', last, least, all, is) =
          derive_all-Left fs (derive_one f g) (merged f e) (derive_one-host f g host) next' in
        (
          e',
          last,
          laws.order _ _ _ least lower,
          (laws.order _ _ _ least of_f, all),
          elim is [
            | inr a ↦ inr (inr a)
            | inl a ↦ elim from [ inl b ↦ inr (inl (a ∙ b)) | inr b ↦ inl (a ∙ b) ]
          ],
        )

    -- However many findings of a host derive its escalation edge, in whatever order and how often,
    -- there is one edge from its foothold to its root, with the weight of one of the findings, which
    -- is at most the weight of each, provided that the host is in the graph and has no such edge
    -- before.
    pub derive_all-cheapest :
        (f : Weakness fl.Carrier) (fs : List (Weakness fl.Carrier)) (g : Graph fl.Carrier)
        → has_host asset_id g ≡ true
        → edges g ≡ []
        → (e : Escalation fl.Carrier) × (edges (derive_all (f ∷ fs) g) ≡ e ∷ [])
          × All (λ x. AtMost fl e.weight (weight_of x)) (f ∷ fs)
          × Any (λ x. e.weight ≡ weight_of x) (f ∷ fs)
    derive_all-cheapest f fs g host none' =
        let next = derive_one-edges f g host in
        let next' : edges (derive_one f g) ≡ first_edge f ∷ [] =
          next ∙ ap (remerged is_edge (first_edge f) (merged f)) none' in
        let (e, last, least, all, is) =
          derive_all-Left fs (derive_one f g) (first_edge f) (derive_one-host f g host) next' in
        (e, last, (least, all), elim is [ inl a ↦ inl a | inr a ↦ inr a ])
