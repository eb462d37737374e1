-- ===== src/Auth/Hardening/Cors.antt =====
-- What CORS answers: the allow-list, read back from the header that it sets.
use amankan.Prelude.{
  String, ◌≡◌, refl, sym, ◌∙◌, subst, ◌≢◌, ◌↔◌, ◌⊎◌, inl, inr, Bool, true, false, ◌||◌, List, [],
  ◌∷◌, arith, ◌==◌, eq_iff, eq_refl, Bool-cases, String-cases, eq-false_of_ne, Any,
}
use amankan.Strings.{trim_space}
use amankan.Http.{Request, set_header, add_header, write_header, fresh_writer}
use amankan.Auth.Hardening.{Origins, add_origin, origins_from, origins, member, cors_writer, cors}

-- Is the origin listed, with blanks around it?
abbrev pub Lists : List String → String → Type 0
Lists allowed origin = Any (λ text. trim_space text ≡ origin) allowed

ne_of_false : {a b : String} → (a == b) ≡ false → a ≢ b
ne_of_false {a} {b} e k = cc (e, (eq_iff a b).1 k)

wildcard_iff :
    (o : Origins) (texts : List String)
    → ((origins_from o texts).wildcard ≡ true) ↔ ((o.wildcard ≡ true) ⊎ Lists texts "*")
unfolding origins_from add_origin
wildcard_iff o [] = (λ h. inl h, λ h. elim h [ inl e ↦ e | inr e ↦ absurd e ])
wildcard_iff o (text ∷ texts) =
    let (to, from) = wildcard_iff (add_origin text o) texts in
    elim (String-cases (trim_space text) "*") [
      | inl e ↦ (λ h. inr (inl e), λ h. from (inl (rw e refl)))
      | inr e ↦
          let same : (add_origin text o).wildcard ≡ o.wildcard =
            unfold add_origin in rw e (ground arith) in
          (
            λ h. elim (to h) [ inl k ↦ inl (sym same ∙ k) | inr k ↦ inr (inr k) ],
            λ h. elim h [
              | inl k ↦ from (inl (same ∙ k))
              | inr (inl k) ↦ absurd (ne_of_false e k)
              | inr (inr k) ↦ from (inr k)
            ],
          )
    ]

member_add :
    (s text : String) (o : Origins)
    → member s (add_origin text o).set ≡ true
    → (trim_space text ≡ s) ⊎ (member s o.set ≡ true)
unfolding add_origin member
member_add s text o h = ground (arith, eq_iff s (trim_space text))

member_from :
    (s : String) (o : Origins) (texts : List String)
    → member s (origins_from o texts).set ≡ true
    → (member s o.set ≡ true) ⊎ Lists texts s
unfolding origins_from
member_from s o [] h = inl h
member_from s o (text ∷ texts) h = elim (member_from s (add_origin text o) texts h) [
  | inr later ↦ inr (inr later)
  | inl kept ↦ elim (member_add s text o kept) [ inl here ↦ inr (inl here) | inr old ↦ inl old ]
]

member_keeps :
    (s : String) (o : Origins) (text : String)
    → member s o.set ≡ true
    → member s (add_origin text o).set ≡ true
unfolding add_origin member
member_keeps s o text h = ground arith

member_new :
    (s : String) (o : Origins) (text : String)
    → s ≢ ""
    → s ≢ "*"
    → trim_space text ≡ s
    → member s (add_origin text o).set ≡ true
unfolding add_origin member
member_new s o text full plain e =
    rw (e, eq-false_of_ne s "*" plain, eq-false_of_ne s "" full) (rw eq_refl)

member_complete :
    (s : String) (o : Origins) (texts : List String)
    → s ≢ ""
    → s ≢ "*"
    → (member s o.set ≡ true) ⊎ Lists texts s
    → member s (origins_from o texts).set ≡ true
unfolding origins_from
member_complete s o [] full plain (inl h) = h
member_complete s o [] full plain (inr h) = absurd h
member_complete s o (text ∷ texts) full plain (inl h) =
    member_complete s (add_origin text o) texts full plain (inl (member_keeps s o text h))
member_complete s o (text ∷ texts) full plain (inr (inl h)) =
    member_complete s (add_origin text o) texts full plain (inl (member_new s o text full plain h))
member_complete s o (text ∷ texts) full plain (inr (inr h)) =
    member_complete s (add_origin text o) texts full plain (inr h)

member_none : (s : String) → member s [] ≡ true → ⊥
unfolding member
member_none s e = cc e

-- The answer to a request from an origin, by the allow-list's two parts.
abbrev allowed_by : Origins → String → Bool
allowed_by o origin = o.wildcard || member origin o.set

header-cors_writer :
    (o : Origins) (origin : String)
    → (origin == "") ≡ false
    → ((cors_writer o origin fresh_writer).header "Access-Control-Allow-Origin" ≢ [])
      ↔ (allowed_by o origin ≡ true)
unfolding cors_writer set_header add_header
header-cors_writer o origin h = ground arith

header-cors :
    {S : Type 0} (allowed : List String) (r : Request) (s : S)
    → (cors allowed (λ w _ t. (w, t)) fresh_writer r s).0.header
      ≡ (cors_writer (origins allowed) (r.header "Origin") fresh_writer).header
unfolding cors write_header
header-cors allowed r s = elim (Bool-cases (r.method == "OPTIONS")) [
  | inl e ↦ rw e refl
  | inr e ↦ rw e refl
]

-- A request from an origin gets Access-Control-Allow-Origin, preflight or not, exactly when "*" or
-- that origin is listed.
pub cors_exact :
    {S : Type 0} (allowed : List String) (r : Request) (s : S)
    → r.header "Origin" ≢ ""
    → ((cors allowed (λ w _ t. (w, t)) fresh_writer r s).0.header "Access-Control-Allow-Origin"
        ≢ [])
      ↔ (Lists allowed "*" ⊎ Lists allowed (r.header "Origin"))
unfolding origins
cors_exact allowed r s h =
    let origin = r.header "Origin" in
    let o = origins allowed in
    let start : Origins = record { set = []; wildcard = false } in
    let shown = header-cors_writer o origin (eq-false_of_ne origin "" h) in
    let wild = wildcard_iff start allowed in
    rw (header-cors allowed r s) (
      λ seen. elim (Bool-cases o.wildcard) [
        | inl e ↦ elim (wild.0 e) [ inl k ↦ cc k | inr k ↦ inl k ]
        | inr e ↦ elim (member_from origin start allowed (rw e at (shown.0 seen))) [
          | inl k ↦ absurd (member_none origin k)
          | inr k ↦ inr k
        ]
      ],
      λ listed. shown.1 (elim (Bool-cases o.wildcard) [
        | inl e ↦ rw e refl
        | inr e ↦ elim listed [
          | inl star ↦ cc (e, wild.1 (inr star))
          | inr named ↦ elim (String-cases origin "*") [
            | inl same ↦ cc (e, wild.1 (inr (subst (Lists allowed) same named)))
            | inr other ↦
                rw e (member_complete origin start allowed h (ne_of_false other) (inr named))
          ]
        ]
      ]),
    )
