-- ===== src/Strings/Laws.antt =====
-- Laws of the text functions: what trimming and splitting keep, and that a separated text can be
-- read back when its first part has no separator.
use Prim.Native.String.{◌++◌}
use mathlib.Core.Path.{ap₂}
use text.Mathlib.TextLemmas.{nil-append, cons-append, head-eq_of_cons-eq, tail-eq_of_cons-eq}
use amankan.Prelude.{
  ℕ, suc, Char, code, String, ◌≡◌, refl, sym, ap, ◌∙◌, Bool, false, ◌&&◌, ◌||◌, List, arith, eqb,
  ◌==◌, Bool-cases, inl, inr, All,
}
use amankan.Strings.{has, is_space, trim_left, trim_right, trim_space, split, split_n, cons_head}

-- Trimming adds no character.
has-trim_left :
    (p : Char → Bool) (c : ℕ) (s : String) → has c s ≡ false → has c (trim_left p s) ≡ false
unfolding has trim_left
has-trim_left p c String.[] h = refl
has-trim_left p c (String.◌∷◌ d s) h = ground (arith, has-trim_left p c s)

has-trim_right :
    (p : Char → Bool) (c : ℕ) (s : String) → has c s ≡ false → has c (trim_right p s) ≡ false
unfolding has trim_right
has-trim_right p c String.[] h = refl
has-trim_right p c (String.◌∷◌ d s) h = elim (Bool-cases (trim_right p s == "" && p d)) [
  | inl e ↦ rw e refl
  | inr e ↦ rw e (ground (arith, has-trim_right p c s))
]

pub has-trim_space : (c : ℕ) (s : String) → has c s ≡ false → has c (trim_space s) ≡ false
unfolding trim_space
has-trim_space c s h =
    has-trim_left is_space c (trim_right is_space s) (has-trim_right is_space c s h)

-- A text with no separator is its own only part.
pub split-of_not-has : (c : ℕ) (s : String) → has c s ≡ false → split c s ≡ List.◌∷◌ s List.[]
unfolding has split
split-of_not-has c String.[] h = refl
split-of_not-has c (String.◌∷◌ d s) h = ground (arith, split-of_not-has c s)

pub split_n-of_not-has :
    (c n : ℕ) (s : String) → has c s ≡ false → split_n c (suc (suc n)) s ≡ List.◌∷◌ s List.[]
unfolding has split_n
split_n-of_not-has c n String.[] h = refl
split_n-of_not-has c n (String.◌∷◌ d s) h = ground (arith, split_n-of_not-has c n s)

-- No part of a split text holds the separator.
All-cons_head :
    (c : ℕ) (d : Char) (ps : List String)
    → eqb (code d) c ≡ false
    → All (λ p. has c p ≡ false) ps
    → All (λ p. has c p ≡ false) (cons_head d ps)
unfolding has
All-cons_head c d List.[] e h = (ground arith, tt)
All-cons_head c d (List.◌∷◌ p ps) e h = (ground arith, h.1)

pub All-split : (c : ℕ) (s : String) → All (λ p. has c p ≡ false) (split c s)
unfolding has split
All-split c String.[] = (refl, tt)
All-split c (String.◌∷◌ d s) = elim (Bool-cases (eqb (code d) c)) [
  | inl e ↦ rw e (refl, All-split c s)
  | inr e ↦ rw e (All-cons_head c d (split c s) e (All-split c s))
]

differs : (sep c : Char) (b : Bool) → (eqb (code c) (code sep) || b) ≡ false → c ≡ sep → ⊥
differs sep c b h e = ground (arith, ap code e)

-- A character stands in a joined text if it stands in a part.
pub has-append : (c : ℕ) (s t : String) → has c (s ++ t) ≡ has c s || has c t
unfolding has
has-append c String.[] t = rw nil-append refl
has-append c (String.◌∷◌ d s) t = rw cons-append (ground (arith, has-append c s t))

-- Two texts that begin with a part free of the separator agree before and after it.
pub field_inj :
    (sep : Char) (a b x y : String)
    → has (code sep) a ≡ false
    → has (code sep) b ≡ false
    → a ++ String.◌∷◌ sep x ≡ b ++ String.◌∷◌ sep y
    → (a ≡ b) × (x ≡ y)
unfolding has
field_inj sep String.[] String.[] x y ha hb e =
    let e' = simp nil-append at e in (refl, tail-eq_of_cons-eq e')
field_inj sep String.[] (String.◌∷◌ d b) x y ha hb e =
    let e' : String.◌∷◌ sep x ≡ String.◌∷◌ d (b ++ String.◌∷◌ sep y) =
      sym (nil-append _) ∙ e ∙ cons-append d b _ in
    absurd (differs sep d _ hb (sym (head-eq_of_cons-eq e')))
field_inj sep (String.◌∷◌ c a) String.[] x y ha hb e =
    let e' : String.◌∷◌ c (a ++ String.◌∷◌ sep x) ≡ String.◌∷◌ sep y =
      sym (cons-append c a _) ∙ e ∙ nil-append _ in
    absurd (differs sep c _ ha (head-eq_of_cons-eq e'))
field_inj sep (String.◌∷◌ c a) (String.◌∷◌ d b) x y ha hb e =
    let e' : String.◌∷◌ c (a ++ String.◌∷◌ sep x) ≡ String.◌∷◌ d (b ++ String.◌∷◌ sep y) =
      sym (cons-append c a _) ∙ e ∙ cons-append d b _ in
    let (same, rest) =
      field_inj sep a b x y (ground arith) (ground arith) (tail-eq_of_cons-eq e') in
    (ap₂ String.◌∷◌ (head-eq_of_cons-eq e') same, rest)

-- The parts of a text have no character that the text does not have.
pub All-split-has :
    (c sep : ℕ) (s : String) → has c s ≡ false → All (λ p. has c p ≡ false) (split sep s)
unfolding has split
All-split-has c sep String.[] h = (refl, tt)
All-split-has c sep (String.◌∷◌ d s) h =
    let rest = All-split-has c sep s (ground arith) in
    elim (Bool-cases (eqb (code d) sep)) [
      | inl e ↦ rw e (refl, rest)
      | inr e ↦ rw e (All-cons_head c d (split sep s) (ground arith) rest)
    ]
