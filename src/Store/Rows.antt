-- ===== src/Store/Rows.antt =====
-- Tables as lists of rows: lookup, update and selection by the text of a column.
use amankan.Prelude.{
  eq_iff, String, ◌≡◌, refl, subst, ◌≢◌, ◌⊎◌, inl, inr, Bool, true, false, Option, none, some, List,
  [], ◌∷◌, ◌++◌, ◌==◌, if◌then◌else◌, Bool-cases, String-cases, eq_refl, eq-false_of_ne,
}

module _ {A : Type 0} where
  abbrev pub is_row : Option A → Bool
  is_row none = false
  is_row (some a) = true

  abbrev pub map_row : (A → A) → Option A → Option A
  map_row set none = none
  map_row set (some a) = some (set a)

  which :
      (t : Bool) (b : A) (rest : Option A) (a : A)
      → (if t then some b else rest) ≡ some a
      → ((t ≡ true) × (b ≡ a)) ⊎ (rest ≡ some a)
  which true b rest a e = inl (refl, cc e)
  which false b rest a e = inr e

  module _ (col : A → String) where
    abbrev pub find_row : String → List A → Option A
    find_row k [] = none
    find_row k (a ∷ rows) = let rest = find_row k rows in if col a == k then some a else rest

    abbrev pub has_row : String → List A → Bool
    has_row k [] = false
    has_row k (a ∷ rows) = let rest = has_row k rows in if col a == k then true else rest

    abbrev pub update_row : String → (A → A) → List A → List A
    update_row k set [] = []
    update_row k set (a ∷ rows) =
        let rest = update_row k set rows in (if col a == k then set a else a) ∷ rest

    pub find_row-update_row :
        (k : String) (set : A → A) (rows : List A)
        → ((a : A) → col (set a) ≡ col a)
        → find_row k (update_row k set rows) ≡ map_row set (find_row k rows)
    find_row-update_row k set [] h = refl
    find_row-update_row k set (a ∷ rows) h = elim (Bool-cases (col a == k)) [
      | inl e ↦ rw (e, h a, e) refl
      | inr e ↦ rw (e, e, find_row-update_row k set rows h) refl
    ]

    pub find_row-update_row_other :
        (k l : String) (set : A → A) (rows : List A)
        → ((a : A) → col (set a) ≡ col a)
        → k ≢ l
        → find_row l (update_row k set rows) ≡ find_row l rows
    find_row-update_row_other k l set [] h other = refl
    find_row-update_row_other k l set (a ∷ rows) h other = elim (String-cases (col a) k) [
      | inl e ↦
          rw (e, eq_refl k, h a, e, eq-false_of_ne k l other)
            (find_row-update_row_other k l set rows h other)
      | inr e ↦ elim (Bool-cases (col a == l)) [
        | inl d ↦ rw (e, d) refl
        | inr d ↦ rw (e, d) (find_row-update_row_other k l set rows h other)
      ]
    ]

    pub find_row-key : (k : String) (rows : List A) (a : A) → find_row k rows ≡ some a → col a ≡ k
    find_row-key k [] a e = absurd (cc e)
    find_row-key k (b ∷ rows) a e = elim (which (col b == k) b (find_row k rows) a e) [
      | inl (t, d) ↦ subst (λ c. col c ≡ k) d ((eq_iff (col b) k).0 t)
      | inr d ↦ find_row-key k rows a d
    ]

    pub find_row-append :
        (k : String) (a : A) (rows : List A)
        → find_row k (rows ++ a ∷ [])
          ≡ (if has_row k rows then find_row k rows else if col a == k then some a else none)
    find_row-append k a [] = refl
    find_row-append k a (b ∷ rows) = elim (Bool-cases (col b == k)) [
      | inl e ↦ rw e refl
      | inr e ↦ rw e (find_row-append k a rows)
    ]

    -- A row is found exactly where one has the key.
    pub find_row-has_row : (k : String) (rows : List A) → has_row k rows ≡ is_row (find_row k rows)
    find_row-has_row k [] = refl
    find_row-has_row k (b ∷ rows) = elim (Bool-cases (col b == k)) [
      | inl e ↦ rw e refl
      | inr e ↦ rw e (find_row-has_row k rows)
    ]

  abbrev pub keep_rows : (A → Bool) → List A → List A
  keep_rows test [] = []
  keep_rows test (a ∷ rows) = let rest = keep_rows test rows in if test a then a ∷ rest else rest
