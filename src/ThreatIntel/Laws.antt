-- ===== src/ThreatIntel/Laws.antt =====
-- What a loaded feed knows, that a failed load leaves the feed as it was, and which score EPSS gives.
use amankan.Prelude.{
  String, ◌≡◌, refl, sym, ◌∙◌, subst, ◌≢◌, ◌↔◌, ◌⊎◌, inl, inr, true, Option, List, [], ◌∷◌, ◌==◌,
  eq_iff, eq_refl, Bool-cases, String-cases, eq-false_of_ne, All, Any,
}
use amankan.Strings.{trim_space, split}
use amankan.Float64.{Float64, FloatLaws, AtMost}
use amankan.ThreatIntel.{
  Feed, default_kev, member, insert, insert_all, decode_kev, LoadResult, loaded, load_failed,
  score_of, highest, epss, Source, skipped, unreadable, contents, load_epss, load,
}

member-head : (s : String) (ts : List String) → member s (s ∷ ts) ≡ true
unfolding member
member-head s ts = rw eq_refl refl

member-insert_iff :
    (s id : String) (kev : List String)
    → (member s (insert id kev) ≡ true) ↔ ((id ≡ s) ⊎ (member s kev ≡ true))
unfolding insert member
member-insert_iff s id kev = elim (Bool-cases (member id kev)) [
  | inl e ↦
      rw e
        (λ h. inr h, λ h. elim h [ inl same ↦ subst (λ t. member t kev ≡ true) same e | inr k ↦ k ])
  | inr e ↦ rw e (elim (String-cases id s) [
    | inl same ↦ (λ _. inl same, λ _. rw (same, eq_refl) refl)
    | inr other ↦
        rw other
          (λ k. inr k, λ h. elim h [ inl same ↦ cc (other, (eq_iff id s).1 same) | inr k ↦ k ])
  ])
]

member-insert_all_iff :
    (s : String) (ids kev : List String)
    → (member s (insert_all ids kev) ≡ true) ↔ (Any (λ id. id ≡ s) ids ⊎ (member s kev ≡ true))
unfolding insert_all
member-insert_all_iff s [] kev = (λ h. inr h, λ h. elim h [ inl k ↦ absurd k | inr k ↦ k ])
member-insert_all_iff s (id ∷ ids) kev =
    let (to, from) = member-insert_all_iff s ids (insert id kev) in
    let (to', from') = member-insert_iff s id kev in
    (
      λ h. elim (to h) [
        | inl later ↦ inl (inr later)
        | inr here ↦ elim (to' here) [ inl same ↦ inl (inl same) | inr old ↦ inr old ]
      ],
      λ h. elim h [
        | inl (inl same) ↦ from (inr (from' (inl same)))
        | inl (inr later) ↦ from (inl later)
        | inr old ↦ from (inr (from' (inr old)))
      ],
    )

-- A document names a CVE: one of its ids is this text with blanks around it.
abbrev pub Names : List String → String → Type 0
Names ids s = (s ≢ "") × Any (λ c. trim_space c ≡ s) ids

decode_kev_iff :
    (s : String) (ids : List String) → Any (λ id. id ≡ s) (decode_kev ids) ↔ Names ids s
unfolding decode_kev
decode_kev_iff s [] = (λ h. absurd h, λ h. absurd h.1)
decode_kev_iff s (c ∷ cs) =
    let (to, from) = decode_kev_iff s cs in
    elim (Bool-cases (trim_space c == "")) [
      | inl blank ↦ rw blank (
        λ h. ((to h).0, inr (to h).1),
        λ h. elim h.1 [
          | inl e ↦ absurd (h.0 (sym e ∙ (eq_iff (trim_space c) "").0 blank))
          | inr k ↦ from (h.0, k)
        ],
      )
      | inr full ↦ rw full (
        λ h. elim h [
          | inl e ↦ ((λ z. cc (full, (eq_iff (trim_space c) "").1 (e ∙ z))), inl e)
          | inr k ↦ ((to k).0, inr (to k).1)
        ],
        λ h. elim h.1 [ inl e ↦ inl e | inr k ↦ inr (from (h.0, k)) ],
      )
    ]

module _ (fl : Float64) (parse_float : String → Option fl.Carrier)
    (to_upper : String → String) where
  -- The ids of a KEV source.
  abbrev pub source_ids : Source fl parse_float to_upper (List String) → List String
  source_ids (contents ids) = ids
  source_ids _ = []

  abbrev pub Loaded : LoadResult → Type 0
  Loaded (loaded m n) = Unit
  Loaded (load_failed e) = ⊥

  load_epss-atomic :
      (kev : List String) (lines : Source fl parse_float to_upper (List String))
      (f : Feed fl.Carrier)
      → ((¬ Loaded (load_epss fl parse_float to_upper kev lines f).1)
          × ((load_epss fl parse_float to_upper kev lines f).0 ≡ f))
        ⊎ (Loaded (load_epss fl parse_float to_upper kev lines f).1
            × ((load_epss fl parse_float to_upper kev lines f).0.kev ≡ kev))
  load_epss-atomic kev skipped f = inr (tt, refl)
  load_epss-atomic kev unreadable f = inl ((λ k. k), refl)
  load_epss-atomic kev (contents lines) f = inr (tt, refl)

  -- A load either fails and leaves the feed as it was, or succeeds, and then the feed knows exactly
  -- the CVEs of the embedded set and those that the KEV document names.
  pub load_atomic :
      (ids lines : Source fl parse_float to_upper (List String)) (f : Feed fl.Carrier)
      → ((¬ Loaded (load fl parse_float to_upper ids lines f).1)
          × ((load fl parse_float to_upper ids lines f).0 ≡ f))
        ⊎ (Loaded (load fl parse_float to_upper ids lines f).1
            × ((s : String)
                → (member s (load fl parse_float to_upper ids lines f).0.kev ≡ true)
                  ↔ ((member s default_kev ≡ true) ⊎ Names (source_ids ids) s)))
  unfolding load
  load_atomic unreadable lines f = inl ((λ k. k), refl)
  load_atomic skipped lines f = elim (load_epss-atomic default_kev lines f) [
    | inl failed ↦ inl failed
    | inr (done, same) ↦
        inr (done, λ s. rw same (λ h. inl h, λ h. elim h [ inl k ↦ k | inr k ↦ absurd k.1 ]))
  ]
  load_atomic (contents ids) lines f =
      elim (load_epss-atomic (insert_all (decode_kev ids) default_kev) lines f) [
        | inl failed ↦ inl failed
        | inr (done, same) ↦ inr (
          done,
          λ s.
              let (to, from) = member-insert_all_iff s (decode_kev ids) default_kev in
              let (to', from') = decode_kev_iff s ids in
              rw same (
                λ h. elim (to h) [ inl k ↦ inr (to' k) | inr k ↦ inl k ],
                λ h. elim h [ inl k ↦ from (inr k) | inr k ↦ from (inl (from' k)) ],
              ),
        )
      ]

module _ (fl : Float64) (laws : FloatLaws fl) where
  AtMost-refl : (a : fl.Carrier) → AtMost fl a a
  AtMost-refl a = elim (Bool-cases (fl.less a a)) [ inl e ↦ laws.strict a a e | inr e ↦ e ]

  -- `top` is the highest of `max` and of the CVEs' scores.
  abbrev IsHighest : List (String × fl.Carrier) → fl.Carrier → List String → fl.Carrier → Type 0
  IsHighest m max cs top =
      AtMost fl max top
      × All (λ c. AtMost fl (score_of fl m (trim_space c)) top) cs
      × ((top ≡ max) ⊎ Any (λ c. score_of fl m (trim_space c) ≡ top) cs)

  highest-bounds :
      (m : List (String × fl.Carrier)) (max : fl.Carrier) (cs : List String)
      → IsHighest m max cs (highest fl m max cs)
  unfolding highest
  highest-bounds m max [] = (AtMost-refl max, tt, inl refl)
  highest-bounds m max (c ∷ cs) = elim (Bool-cases (fl.less max (score_of fl m (trim_space c)))) [
    | inl e ↦
        let (up, all, one) = highest-bounds m (score_of fl m (trim_space c)) cs in
        subst (IsHighest m max (c ∷ cs)) (rw e refl) (
          laws.order _ _ _ (laws.strict _ _ e) up,
          (up, all),
          elim one [ inl k ↦ inr (inl (sym k)) | inr k ↦ inr (inr k) ],
        )
    | inr e ↦
        let (up, all, one) = highest-bounds m max cs in
        subst (IsHighest m max (c ∷ cs)) (rw e refl)
          (up, (laws.order _ _ _ e up, all), elim one [ inl k ↦ inl k | inr k ↦ inr (inr k) ])
  ]

  -- In an order with the laws of float64, EPSS of a text that is not empty is at least the score of
  -- every one of the comma-joined CVEs, and is one of those scores or 0.
  pub epss_highest :
      (f : Feed fl.Carrier) (cve : String)
      → cve ≢ ""
      → All (λ c. AtMost fl (score_of fl f.epss (trim_space c)) (epss fl f cve)) (split b',' cve)
        × ((epss fl f cve ≡ fl.dec 0 0)
            ⊎ Any (λ c. score_of fl f.epss (trim_space c) ≡ epss fl f cve) (split b',' cve))
  unfolding epss
  epss_highest f cve full =
      let (up, all, one) = highest-bounds f.epss (fl.dec 0 0) (split b',' cve) in
      rw (eq-false_of_ne cve "" full) (all, one)
