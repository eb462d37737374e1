-- ===== src/ThreatIntel/Tests.antt =====
-- Loads of a feed, and the scores and the known CVEs that it gives.
use amankan.Prelude.{
  ℕ, String, ◌≡◌, refl, ◌↔◌, ◌⊎◌, true, Option, none, some, List, [], ◌∷◌, ◌==◌, if◌then◌else◌, All,
  Any,
}
use amankan.Strings.{trim_space, split}
use amankan.Float64.{AtMost}
use amankan.Float64.Hundredths.{hundredths, hundredths_laws}
use amankan.ThreatIntel.{
  Feed, default_kev, member, is_kev, epss, score_of, Source, contents, unreadable, load,
}
use amankan.ThreatIntel.Laws.{Loaded, Names, source_ids, load_atomic, epss_highest}

abbrev feed : Feed ℕ
feed = record { kev = default_kev; epss = ("CVE-1", 10) ∷ ("CVE-2", 97) ∷ [] }

-- A reader that knows one number.
abbrev number : String → Option ℕ
number t = if t == "0.97" then some 97 else none

abbrev ids : Source hundredths number (λ t. t) (List String)
ids = contents (" CVE-9 " ∷ "" ∷ [])

abbrev lines : Source hundredths number (λ t. t) (List String)
lines = contents ("#model" ∷ "cve,epss,percentile" ∷ "CVE-7,0.97,0.99" ∷ [])

loads :
    ((load hundredths number (λ t. t) ids lines feed).0.epss ≡ ("CVE-7", 97) ∷ [])
    × (is_kev (load hundredths number (λ t. t) ids lines feed).0 "CVE-8, CVE-9" ≡ true)
    × ((load hundredths number (λ t. t) ids unreadable feed).0 ≡ feed)
unfolding load is_kev
loads = (refl, refl, refl)

load_atomic_example :
    ((¬ Loaded hundredths number (λ t. t) (load hundredths number (λ t. t) ids lines feed).1)
      × ((load hundredths number (λ t. t) ids lines feed).0 ≡ feed))
    ⊎ (Loaded hundredths number (λ t. t) (load hundredths number (λ t. t) ids lines feed).1
        × ((s : String)
            → (member s (load hundredths number (λ t. t) ids lines feed).0.kev ≡ true) ↔ (
                (member s default_kev ≡ true)
                ⊎ Names (source_ids hundredths number (λ t. t) ids) s)))
load_atomic_example = load_atomic hundredths number (λ t. t) ids lines feed

epss_highest_sample :
    All
      (λ c.
        AtMost hundredths
          (score_of hundredths feed.epss (trim_space c))
          (epss hundredths feed "CVE-1, CVE-2"))
      (split b',' "CVE-1, CVE-2")
    × ((epss hundredths feed "CVE-1, CVE-2" ≡ 0)
        ⊎ Any
            (λ c.
              score_of hundredths feed.epss (trim_space c) ≡ epss hundredths feed "CVE-1, CVE-2")
            (split b',' "CVE-1, CVE-2"))
epss_highest_sample = epss_highest hundredths hundredths_laws feed "CVE-1, CVE-2" (λ e. cc e)
