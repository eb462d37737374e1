-- ===== src/Api/Paging.antt =====
-- What a page holds, and that the pages of a list are the whole list.
use amankan.Prelude.{
  ℕ, zero, suc, ◌+◌, ◌-◌, ◌≤◌, ◌≡◌, refl, sym, ap, ◌∙◌, subst, inl, inr, true, List, [], ◌∷◌, arith,
  ltb, leb, if◌then◌else◌, Bool-cases, ltb→lt, leb→le, length, take, drop, length-drop,
}
use amankan.Strconv.{itoa}
use amankan.Http.{Request, Writer}
use amankan.Api.{page_params, paginate}

module _ {T : Type 0} where
  take-all : (n : ℕ) (xs : List T) → length xs ≤ n → take n xs ≡ xs
  take-all zero [] h = refl
  take-all zero (x ∷ xs) h = absurd (omega arith)
  take-all (suc n) [] h = refl
  take-all (suc n) (x ∷ xs) h = ap (λ l. x ∷ l) (take-all n xs (omega arith))

  take-enough : (m n : ℕ) (xs : List T) → length xs ≤ m → length xs ≤ n → take m xs ≡ take n xs
  take-enough m n xs h k = take-all m xs h ∙ sym (take-all n xs k)

  drop-all : (n : ℕ) (xs : List T) → length xs ≤ n → drop n xs ≡ []
  drop-all zero [] h = refl
  drop-all zero (x ∷ xs) h = absurd (omega arith)
  drop-all (suc n) [] h = refl
  drop-all (suc n) (x ∷ xs) h = drop-all n xs (omega arith)

  length-take : (n : ℕ) (xs : List T) → length (take n xs) ≤ n
  length-take zero xs = omega arith
  length-take (suc n) [] = omega arith
  length-take (suc n) (x ∷ xs) = omega (arith, length-take n xs)

  take-nil : (n : ℕ) → ◌≡◌ {A = List T} (take n []) []
  take-nil zero = refl
  take-nil (suc n) = refl

  slice-past :
      (limit offset : ℕ) (items : List T)
      → leb (length items) offset ≡ true
      → [] ≡ take limit (drop offset items)
  slice-past limit offset items h =
      sym (ap (take limit) (drop-all offset items (leb→le _ _ h)) ∙ take-nil limit)

  slice-inside :
      (limit offset : ℕ) (items : List T)
      → take
          ((if ltb (length items) (offset + limit) then length items else offset + limit) - offset)
          (drop offset items)
        ≡ take limit (drop offset items)
  slice-inside limit offset items = elim (Bool-cases (ltb (length items) (offset + limit))) [
    | inl e ↦ rw e (
        take-enough (length items - offset) limit (drop offset items)
          (omega (arith, length-drop offset items))
          (omega (arith, length-drop offset items, ltb→lt _ _ e)))
    | inr e ↦
        let exact : offset + limit - offset ≡ limit = omega arith in
        rw e (ap (λ n. take n (drop offset items)) exact)
  ]

limit-upper : (r : Request) → (page_params r).0 ≤ 1000
unfolding page_params
limit-upper r = ground arith

paginate-slice :
    {T : Type 0} (w : Writer) (r : Request) (items : List T)
    → ((paginate w r items).1 ≡ take (page_params r).0 (drop (page_params r).1 items))
      × ((paginate w r items).0.header "X-Total-Count" ≡ itoa (length items) ∷ [])
unfolding paginate
paginate-slice w r items =
    let limit = (page_params r).0 in
    let offset = (page_params r).1 in
    elim (Bool-cases (leb (length items) offset)) [
      | inl e ↦ rw e (slice-past limit offset items e, refl)
      | inr e ↦ rw e (slice-inside limit offset items, refl)
    ]

-- A page has at most 1000 items, whatever the request asks for; it is the part of the list that
-- starts at the offset and has the length of the limit, as far as the list goes; and the header
-- X-Total-Count is the length of the whole list.
pub paginate-page :
    {T : Type 0} (w : Writer) (r : Request) (items : List T)
    → ((paginate w r items).1 ≡ take (page_params r).0 (drop (page_params r).1 items))
      × (length (paginate w r items).1 ≤ 1000)
      × ((paginate w r items).0.header "X-Total-Count" ≡ itoa (length items) ∷ [])
paginate-page w r items =
    let (slice, header) = paginate-slice w r items in
    let short = length-take (page_params r).0 (drop (page_params r).1 items) in
    (slice, subst (λ l. length l ≤ 1000) (sym slice) (omega (arith, short, limit-upper r)), header)
