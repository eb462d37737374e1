-- ===== src/Graph/Merge.antt =====
-- Cypher's MERGE on a list: the elements that match are set, and where none does a new one is made.
use amankan.Prelude.{Bool, true, false, List, [], ◌∷◌, if◌then◌else◌}

module _ {A : Type 0} where
  abbrev pub merge : (A → Bool) → A → (A → A) → List A → List A
  merge test new set [] = new ∷ []
  merge test new set (a ∷ as') =
      let rest = merge test new set as' in if test a then set a ∷ as' else a ∷ rest

  abbrev pub exists : (A → Bool) → List A → Bool
  exists test [] = false
  exists test (a ∷ as') = let rest = exists test as' in if test a then true else rest
