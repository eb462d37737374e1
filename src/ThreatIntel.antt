-- ===== src/ThreatIntel.antt =====
-- internal/threatintel/threatintel.go: the feed of known-exploited CVEs and of EPSS scores. Files,
-- HTTP, gzip and JSON are Go's: a source answers with its decoded contents or fails. The reader of
-- lines fails in the code on a line that is too long; the lines are then a failed source.
pub mod Laws
mod Tests
use amankan.Prelude.{
  ℕ, suc, ◌-◌, String, Bool, false, ◌||◌, Option, none, some, List, [], ◌∷◌, ◌==◌, if◌then◌else◌,
  length,
}
use amankan.Strings.{has_prefix, trim_space, split}
use amankan.Float64.{Float64}

-- defaultKEV
abbrev pub default_kev : List String
default_kev =
    "CVE-2021-44228" ∷ "CVE-2021-4034" ∷ "CVE-2017-0144" ∷ "CVE-2014-0160" ∷ "CVE-2019-0708"
    ∷ "CVE-2020-1472" ∷ "CVE-2021-34527" ∷ "CVE-2022-1388" ∷ "CVE-2023-23397" ∷ "CVE-2023-34362"
    ∷ []

-- The feed: the set of known-exploited CVEs, and the scores, the newest binding of a CVE first.
pub record Feed (F : Type 0) : Type 0 where
  pub kev : List String
  pub epss : List (String × F)

unfoldable pub member : String → List String → Bool
member s [] = false
member s (t ∷ ts) = t == s || member s ts

-- kev[id] = true
unfoldable pub insert : String → List String → List String
unfolding member
insert s ts = if member s ts then ts else s ∷ ts

unfoldable pub any_known : List String → List String → Bool
unfolding member trim_space
any_known kev [] = false
any_known kev (c ∷ cs) = member (trim_space c) kev || any_known kev cs

-- Feed.IsKEV
unfoldable pub is_kev : {F : Type 0} → Feed F → String → Bool
unfolding any_known split
is_kev f cve = if cve == "" then false else any_known f.kev (split b',' cve)

-- The ids of the KEV document that are not blank, trimmed: parseKEV and decodeKEV.
unfoldable pub decode_kev : List String → List String
unfolding trim_space
decode_kev [] = []
decode_kev (c ∷ cs) =
    let rest = decode_kev cs in let id = trim_space c in if id == "" then rest else id ∷ rest

unfoldable pub insert_all : List String → List String → List String
unfolding insert
insert_all [] kev = kev
insert_all (id ∷ ids) kev = insert_all ids (insert id kev)

-- Why a load failed.
pub data LoadError : Type 0 where
  kev_failed epss_failed : LoadError

pub data LoadResult : Type 0 where
  loaded : ℕ → ℕ → LoadResult
  load_failed : LoadError → LoadResult

module _ (fl : Float64) where
  -- m[k], which is 0 for a key with no entry
  unfoldable pub score_of : List (String × fl.Carrier) → String → fl.Carrier
  score_of [] k = fl.dec 0 0
  score_of ((j, v) ∷ m) k = if j == k then v else score_of m k

  unfoldable pub highest : List (String × fl.Carrier) → fl.Carrier → List String → fl.Carrier
  unfolding score_of trim_space
  highest m max [] = max
  highest m max (c ∷ cs) =
      let v = score_of m (trim_space c) in highest m (if fl.less max v then v else max) cs

  -- Feed.EPSS
  unfoldable pub epss : Feed fl.Carrier → String → fl.Carrier
  unfolding highest split
  epss f cve = if cve == "" then fl.dec 0 0 else highest f.epss (fl.dec 0 0) (split b',' cve)

  -- strconv.ParseFloat and strings.ToUpper are Go's.
  module _ (parse_float : String → Option fl.Carrier) (to_upper : String → String) where
    -- out[trim(parts[0])] = v, where the line has a CVE and a number
    abbrev pub add_score :
        String → Option fl.Carrier → List (String × fl.Carrier) → List (String × fl.Carrier)
    add_score cve none m = m
    add_score cve (some v) m = (cve, v) ∷ m

    unfoldable pub add_parts : List String → List (String × fl.Carrier) → List (String × fl.Carrier)
    unfolding has_prefix trim_space
    add_parts (cve ∷ number ∷ rest) m =
        if has_prefix (to_upper cve) "CVE-"
        then add_score (trim_space cve) (parse_float (trim_space number)) m
        else m
    add_parts _ m = m

    unfoldable pub add_line : String → List (String × fl.Carrier) → List (String × fl.Carrier)
    unfolding add_parts split
    add_line text m =
        let line = trim_space text in
        if line == "" || has_prefix line "#" then m else add_parts (split b',' line) m

    -- decodeEPSS, and parseEPSS on a file whose lines can be read
    unfoldable pub decode_epss :
        List String → List (String × fl.Carrier) → List (String × fl.Carrier)
    unfolding add_line
    decode_epss [] m = m
    decode_epss (line ∷ lines) m = decode_epss lines (add_line line m)

    -- The number of keys of the map.
    unfoldable pub size : List (String × fl.Carrier) → ℕ
    size [] = 0
    size ((k, v) ∷ m) = let rest = size m in if has_key k m then rest else suc rest
      where
        has_key : String → List (String × fl.Carrier) → Bool
        has_key k [] = false
        has_key k ((j, v) ∷ m) = j == k || has_key k m

    -- A source: not configured, failed, or its contents.
    pub data Source (A : Type 0) : Type 0 where
      skipped unreadable : Source A
      contents : A → Source A

    abbrev pub install :
        List String → List (String × fl.Carrier) → Feed fl.Carrier → Feed fl.Carrier × LoadResult
    install kev m f = (record { kev = kev; epss = m }, loaded (length kev) (size m))

    abbrev pub load_epss :
        List String → Source (List String) → Feed fl.Carrier → Feed fl.Carrier × LoadResult
    load_epss kev skipped f = install kev [] f
    load_epss kev unreadable f = (f, load_failed epss_failed)
    load_epss kev (contents lines) f = install kev (decode_epss lines []) f

    -- Load and FetchAndLoad: both sources are read before the feed is replaced.
    unfoldable pub load :
        Source (List String) → Source (List String) → Feed fl.Carrier → Feed fl.Carrier × LoadResult
    unfolding decode_kev insert_all decode_epss size
    load skipped epss_source f = load_epss default_kev epss_source f
    load unreadable epss_source f = (f, load_failed kev_failed)
    load (contents ids) epss_source f =
        load_epss (insert_all (decode_kev ids) default_kev) epss_source f
