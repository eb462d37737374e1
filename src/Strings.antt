-- ===== src/Strings.antt =====
-- The parts of Go's `strings` package that the program calls, over native texts. A Go string is
-- read as the text of its code points; strings that are not valid UTF-8 are outside the model.
pub mod Laws
use Prim.Native.String.{◌++◌, char_at}
use amankan.Prelude.{
  ℕ, zero, suc, ◌-◌, Char, code, String, Bool, true, false, ◌&&◌, ◌||◌, List, leb, eqb, ◌==◌,
  if◌then◌else◌,
}

-- Is there a character of this code in the text? (`strings.IndexByte(s, c) >= 0`)
unfoldable pub has : ℕ → String → Bool
has c String.[] = false
has c (String.◌∷◌ d s) = eqb (code d) c || has c s

-- unicode.IsSpace: the code points with the property White_Space.
unfoldable pub is_space : Char → Bool
is_space d =
    let c = code d in
    (leb 9 c && leb c 13)
    || eqb c 32
    || eqb c 0x85
    || eqb c 0xa0
    || eqb c 0x1680
    || (leb 0x2000 c && leb c 0x200a)
    || eqb c 0x2028
    || eqb c 0x2029
    || eqb c 0x202f
    || eqb c 0x205f
    || eqb c 0x3000

-- strings.TrimLeftFunc, TrimRightFunc, TrimSpace
unfoldable pub trim_left : (Char → Bool) → String → String
trim_left p String.[] = String.[]
trim_left p (String.◌∷◌ c s) = if p c then trim_left p s else String.◌∷◌ c s

unfoldable pub trim_right : (Char → Bool) → String → String
trim_right p String.[] = String.[]
trim_right p (String.◌∷◌ c s) =
    let rest = trim_right p s in if rest == "" && p c then String.[] else String.◌∷◌ c rest

unfoldable pub trim_space : String → String
unfolding trim_left trim_right is_space
trim_space s = trim_left is_space (trim_right is_space s)

abbrev pub cons_head : Char → List String → List String
cons_head c List.[] = List.◌∷◌ (String.◌∷◌ c String.[]) List.[]
cons_head c (List.◌∷◌ p ps) = List.◌∷◌ (String.◌∷◌ c p) ps

-- strings.Split(s, sep) for a separator of one character
unfoldable pub split : ℕ → String → List String
split sep String.[] = List.◌∷◌ String.[] List.[]
split sep (String.◌∷◌ c s) =
    let rest = split sep s in if eqb (code c) sep then List.◌∷◌ String.[] rest else cons_head c rest

-- strings.SplitN(s, sep, n): at most n parts, the last one unsplit
unfoldable pub split_n : ℕ → ℕ → String → List String
split_n sep zero s = List.[]
split_n sep (suc zero) s = List.◌∷◌ s List.[]
split_n sep (suc (suc n)) String.[] = List.◌∷◌ String.[] List.[]
split_n sep (suc (suc n)) (String.◌∷◌ c s) = elim (eqb (code c) sep) [
  | true ↦ List.◌∷◌ String.[] (split_n sep (suc n) s)
  | false ↦ cons_head c (split_n sep (suc (suc n)) s)
]

-- strings.Join(parts, sep)
unfoldable pub join : String → List String → String
join sep List.[] = ""
join sep (List.◌∷◌ p List.[]) = p
join sep (List.◌∷◌ p (List.◌∷◌ q ps)) = p ++ sep ++ join sep (List.◌∷◌ q ps)

-- unicode.ToLower on the ASCII letters, and on the two other letters (U+0130 and the Kelvin sign)
-- whose lower case is an ASCII letter; other characters are kept, which no comparison with an
-- ASCII word can tell from their lower case.
unfoldable pub lower : Char → Char
lower c =
    if leb 65 (code c) && leb (code c) 90
    then char_at "abcdefghijklmnopqrstuvwxyz" (code c - 65)
    else if eqb (code c) 0x130
    then "i"
    else if eqb (code c) 0x212a
    then "k"
    else c

unfoldable pub to_lower : String → String
unfolding lower
to_lower String.[] = String.[]
to_lower (String.◌∷◌ c s) = String.◌∷◌ (lower c) (to_lower s)

-- strings.HasPrefix
unfoldable pub has_prefix : String → String → Bool
has_prefix s String.[] = true
has_prefix String.[] (String.◌∷◌ d t) = false
has_prefix (String.◌∷◌ c s) (String.◌∷◌ d t) = eqb (code c) (code d) && has_prefix s t

-- What is left after as many characters as the second text has.
unfoldable pub cut : String → String → String
cut s String.[] = s
cut String.[] (String.◌∷◌ d t) = String.[]
cut (String.◌∷◌ c s) (String.◌∷◌ d t) = cut s t

-- strings.TrimPrefix
unfoldable pub trim_prefix : String → String → String
unfolding has_prefix cut
trim_prefix s t = if has_prefix s t then cut s t else s
