-- ===== src/Scanner/Laws.antt =====
-- What every adapter keeps to: no fabricated data in production, no failure in development, and no
-- traffic to a target that is not allowed.
use Prim.Native.String.{◌++◌ as append}
use amankan.Prelude.{
  ℕ, String, ◌≡◌, refl, sym, subst, ◌≢◌, ◌⊎◌, ◌∷◌, inl, inr, String-cases, Bool, true, false,
  Option, none, some, List, [], ◌==◌, eqb, Bool-cases, Option-cases,
}
use amankan.Models.{Asset, ScannerType, nmap, nuclei, crypto, secrets}
use amankan.Scanner.{
  RawResult, Options, World, ScanResult, scanned, failed_scan, Exit, clean, exit_code, not_run,
  fallback, is_repo, Action, ran, dialed, strip_scheme,
}
use amankan.Scanner.Adapters.{
  live_allowed, nmap_result, nuclei_result, secrets_result, probe_tls, blank, tool_scan, scan_nmap,
  scan_nuclei, scan_crypto, scan_secrets, scan, nmap_args, nuclei_args, secrets_args, report_of,
  convert_gitleaks,
}

-- The host and port that the TLS probe of a target dials.
abbrev host_of : String → String
host_of target = append (strip_scheme target) ":443"

-- A result that is no mock output, and whose content this holds of.
abbrev pub Unmocked : (String → Type 0) → ScanResult → Type 0
Unmocked P (scanned r) = (r.mock ≡ false) × P r.content
Unmocked P failed_scan = Unit

-- The scan did nothing but run a tool with these arguments, and this holds of the tool's output.
abbrev pub IsToolRun : World → List String → List Action → (String → Type 0) → Type 0
IsToolRun world args acts P = (bin : String) × (acts ≡ ran bin args ∷ []) × P (world.run bin args).0

-- Where the content of a result comes from: the output of a run of nmap, nuclei or gitleaks, the
-- latter converted to credentials; the report on a TLS handshake with the host; and for the secrets
-- of anything but a repository, the empty list, without a run.
abbrev pub IsSource : World → ScannerType → Asset → List Action → String → Type 0
IsSource world nmap asset acts content =
    IsToolRun world (nmap_args world asset.target) acts (λ out. content ≡ out)
IsSource world nuclei asset acts content =
    IsToolRun world (nuclei_args world asset.target) acts (λ out. content ≡ out)
IsSource world crypto asset acts content =
    (state : ℕ × ℕ) × (acts ≡ dialed (host_of asset.target) ∷ [])
    × (world.handshake (host_of asset.target) ≡ some state)
    × (content ≡ world.encode_report (report_of world asset.target state))
IsSource world secrets asset acts content =
    ((is_repo asset.asset_type ≡ false) × (acts ≡ []) × (content ≡ "{\"credentials\":[]}"))
    ⊎ IsToolRun world (secrets_args world asset.target) acts
        (λ out. content ≡ convert_gitleaks world out)

-- A scan that failed, or whose result is unflagged and comes from what the scan did.
abbrev pub IsReal : World → ScannerType → Asset → List Action → ScanResult → Type 0
IsReal world sc asset acts = Unmocked (IsSource world sc asset acts)

abbrev pub IsScanned : ScanResult → Type 0
IsScanned (scanned r) = Unit
IsScanned failed_scan = ⊥

fallback-fails :
    (o : Options) (res : RawResult) (text : String)
    → o.production ≡ true
    → fallback o res text ≡ failed_scan
unfolding fallback
fallback-fails o res text h = rw h refl

fallback-IsScanned :
    (o : Options) (res : RawResult) (text : String)
    → o.production ≡ false
    → IsScanned (fallback o res text)
unfolding fallback
fallback-IsScanned o res text h = rw h tt

module _ (world : World) (o : Options) where
  nmap_result-Unmocked :
      (target : String) (end : String × Exit)
      → o.production ≡ true
      → Unmocked (λ content. content ≡ end.0) (nmap_result world o target end)
  unfolding nmap_result
  nmap_result-Unmocked target (out, clean) h = elim (Bool-cases (out == "")) [
    | inl e ↦ rw (e, h) tt
    | inr e ↦ rw e (refl, refl)
  ]
  nmap_result-Unmocked target (out, exit_code n) h = rw h tt
  nmap_result-Unmocked target (out, not_run) h = rw h tt

  nuclei_result-Unmocked :
      (target : String) (end : String × Exit)
      → o.production ≡ true
      → Unmocked (λ content. content ≡ end.0) (nuclei_result world o target end)
  unfolding nuclei_result
  nuclei_result-Unmocked target (out, clean) h = elim (String-cases out "") [
    | inl e ↦ rw (e, h) (refl, refl)
    | inr e ↦ rw e (refl, refl)
  ]
  nuclei_result-Unmocked target (out, exit_code n) h = rw h tt
  nuclei_result-Unmocked target (out, not_run) h = rw h tt

  secrets_result-Unmocked :
      (end : String × Exit)
      → o.production ≡ true
      → Unmocked (λ content. content ≡ convert_gitleaks world end.0) (secrets_result world o end)
  unfolding secrets_result fallback
  secrets_result-Unmocked (out, clean) h = (refl, refl)
  secrets_result-Unmocked (out, exit_code n) h = elim (Bool-cases (eqb n 1)) [
    | inl e ↦ rw e (refl, refl)
    | inr e ↦ rw (e, h) tt
  ]
  secrets_result-Unmocked (out, not_run) h = rw h tt

  Unmocked-map :
      (P Q : String → Type 0) (result : ScanResult)
      → ((content : String) → P content → Q content)
      → Unmocked P result
      → Unmocked Q result
  Unmocked-map P Q (scanned r) f (m, h) = (m, f r.content h)
  Unmocked-map P Q failed_scan f h = tt

  -- In production, a scan with a tool fails or has the content that a run of it gives.
  tool_scan-Unmocked :
      (P : List Action → String → Type 0) (Q : String → String → Type 0) (bin : Option String)
      (permitted : Bool) (otherwise : ScanResult) (args : List String)
      (result : String × Exit → ScanResult)
      → otherwise ≡ failed_scan
      → ((end : String × Exit) → Unmocked (Q end.0) (result end))
      → ((bin' content : String)
          → Q (world.run bin' args).0 content
          → P (ran bin' args ∷ []) content)
      → let end = tool_scan world bin permitted otherwise args result in Unmocked (P end.0) end.1
  tool_scan-Unmocked P Q none permitted otherwise args result fails shown f =
      subst (Unmocked (P [])) (sym fails) tt
  tool_scan-Unmocked P Q (some bin) true otherwise args result fails shown f =
      Unmocked-map (Q (world.run bin args).0) (P (ran bin args ∷ [])) _ (f bin)
        (shown (world.run bin args))
  tool_scan-Unmocked P Q (some bin) false otherwise args result fails shown f =
      subst (Unmocked (P [])) (sym fails) tt

  -- What holds of the fallback and of every end of a run holds of the scan.
  tool_scan-result :
      (P : ScanResult → Type 0) (bin : Option String) (permitted : Bool) (otherwise : ScanResult)
      (args : List String) (result : String × Exit → ScanResult)
      → P otherwise
      → ((end : String × Exit) → P (result end))
      → P (tool_scan world bin permitted otherwise args result).1
  tool_scan-result P none permitted otherwise args result h k = h
  tool_scan-result P (some bin) true otherwise args result h k = k _
  tool_scan-result P (some bin) false otherwise args result h k = h

  tool_scan-permitted :
      (bin : Option String) (permitted : Bool) (otherwise : ScanResult) (args : List String)
      (result : String × Exit → ScanResult)
      → (tool_scan world bin permitted otherwise args result).0 ≢ []
      → permitted ≡ true
  tool_scan-permitted none permitted otherwise args result acted = absurd (acted refl)
  tool_scan-permitted (some bin) true otherwise args result acted = refl
  tool_scan-permitted (some bin) false otherwise args result acted = absurd (acted refl)

  -- In production every scan fails, or its result is not flagged as mock output and its content is
  -- what the scan found: for nmap and nuclei the output of the one run of a tool that the scan made,
  -- with the adapter's arguments, for gitleaks that output as credentials, for crypto the report on
  -- the handshake with the host that it dialed; for the secrets of anything but a repository it is
  -- the empty list.
  pub production_never_mocks :
      (sc : ScannerType) (asset : Asset)
      → o.production ≡ true
      → IsReal world sc asset (scan world sc o asset).0 (scan world sc o asset).1
  unfolding scan scan_nmap scan_nuclei scan_crypto scan_secrets probe_tls
  production_never_mocks nmap asset h =
      tool_scan-Unmocked (IsSource world nmap asset) (λ out content. content ≡ out) _ _ _ _ _
        (fallback-fails o (blank world nmap "nmap-xml") _ h)
        (λ end. nmap_result-Unmocked asset.target end h) (λ bin content e. (bin, refl, e))
  production_never_mocks nuclei asset h =
      tool_scan-Unmocked (IsSource world nuclei asset) (λ out content. content ≡ out) _ _ _ _ _
        (fallback-fails o (blank world nuclei "nuclei-jsonl") _ h)
        (λ end. nuclei_result-Unmocked asset.target end h) (λ bin content e. (bin, refl, e))
  production_never_mocks crypto asset h = elim (Bool-cases (live_allowed world o asset)) [
    | inr k ↦ rw (k, h) tt
    | inl k ↦ elim (Option-cases (world.handshake (host_of asset.target))) [
      | inl e ↦ rw (k, e, h) tt
      | inr (state, e) ↦ rw (k, e) (refl, (state, refl, e, refl))
    ]
  ]
  production_never_mocks secrets asset h = elim (Bool-cases (is_repo asset.asset_type)) [
    | inr k ↦ rw k (refl, inl (k, refl, refl))
    | inl k ↦ rw k (
        tool_scan-Unmocked (IsSource world secrets asset)
          (λ out content. content ≡ convert_gitleaks world out) _ true _ _ _
          (fallback-fails o (blank world secrets "secrets-json") _ h)
          (λ end. secrets_result-Unmocked end h) (λ bin content e. inr (bin, refl, e)))
  ]

  -- A scan over the network does nothing in the world unless a real scan of the asset is allowed.
  pub network_scan_allowed :
      (sc : ScannerType) (asset : Asset)
      → sc ≢ secrets
      → (scan world sc o asset).0 ≢ []
      → live_allowed world o asset ≡ true
  unfolding scan scan_nmap scan_nuclei scan_crypto
  network_scan_allowed nmap asset h acted = tool_scan-permitted _ _ _ _ _ acted
  network_scan_allowed nuclei asset h acted = tool_scan-permitted _ _ _ _ _ acted
  network_scan_allowed crypto asset h acted = elim (Bool-cases (live_allowed world o asset)) [
    | inl k ↦ k
    | inr k ↦ absurd (acted (rw k refl))
  ]
  network_scan_allowed secrets asset h acted = absurd (h refl)

  nmap_result-IsScanned :
      (target : String) (end : String × Exit)
      → o.production ≡ false
      → IsScanned (nmap_result world o target end)
  unfolding nmap_result
  nmap_result-IsScanned target (out, clean) h = elim (Bool-cases (out == "")) [
    | inl e ↦ rw (e, h) tt
    | inr e ↦ rw e tt
  ]
  nmap_result-IsScanned target (out, exit_code n) h = rw h tt
  nmap_result-IsScanned target (out, not_run) h = rw h tt

  nuclei_result-IsScanned :
      (target : String) (end : String × Exit)
      → o.production ≡ false
      → IsScanned (nuclei_result world o target end)
  unfolding nuclei_result
  nuclei_result-IsScanned target (out, clean) h = elim (Bool-cases (out == "")) [
    | inl e ↦ rw (e, h) tt
    | inr e ↦ rw e tt
  ]
  nuclei_result-IsScanned target (out, exit_code n) h = rw h tt
  nuclei_result-IsScanned target (out, not_run) h = rw h tt

  secrets_result-IsScanned :
      (end : String × Exit) → o.production ≡ false → IsScanned (secrets_result world o end)
  unfolding secrets_result fallback
  secrets_result-IsScanned (out, clean) h = tt
  secrets_result-IsScanned (out, exit_code n) h = elim (Bool-cases (eqb n 1)) [
    | inl e ↦ rw e tt
    | inr e ↦ rw (e, h) tt
  ]
  secrets_result-IsScanned (out, not_run) h = rw h tt

  -- In development every adapter gives a result, whatever the tools and the network do.
  pub development_never_fails :
      (sc : ScannerType) (asset : Asset)
      → o.production ≡ false
      → IsScanned (scan world sc o asset).1
  unfolding scan scan_nmap scan_nuclei scan_crypto scan_secrets
  development_never_fails nmap asset h =
      tool_scan-result IsScanned _ _ _ _ _ (fallback-IsScanned o (blank world nmap "nmap-xml") _ h)
        (λ end. nmap_result-IsScanned asset.target end h)
  development_never_fails nuclei asset h =
      tool_scan-result IsScanned _ _ _ _ _
        (fallback-IsScanned o (blank world nuclei "nuclei-jsonl") _ h)
        (λ end. nuclei_result-IsScanned asset.target end h)
  development_never_fails crypto asset h = elim (Bool-cases (live_allowed world o asset)) [
    | inr k ↦ rw (k, h) tt
    | inl k ↦ elim (Option-cases (probe_tls world asset.target)) [
      | inl e ↦ rw (k, e, h) tt
      | inr (rep, e) ↦ rw (k, e) tt
    ]
  ]
  development_never_fails secrets asset h = elim (Bool-cases (is_repo asset.asset_type)) [
    | inr k ↦ rw k tt
    | inl k ↦ rw k (
        tool_scan-result IsScanned _ true _ _ _
          (fallback-IsScanned o (blank world secrets "secrets-json") _ h)
          (λ end. secrets_result-IsScanned end h))
  ]
