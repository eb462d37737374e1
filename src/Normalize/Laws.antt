-- ===== src/Normalize/Laws.antt =====
-- What every normalized finding has, and which ports give one.
use amankan.Prelude.{
  String, ◌≡◌, refl, ap, ◌∙◌, subst, ◌≢◌, inl, inr, Option, none, some, List, [], ◌∷◌, ◌++◌, map,
  ◌==◌, eq_iff, if◌then◌else◌, Bool-cases, All,
}
use mathlib.Core.Option.{some-injective}
use amankan.Prelude.Int.{ℤ}
use amankan.Float64.{Float64, FloatLaws, AtMost}
use amankan.Models.{Asset, ScannerType, Finding, open_finding}
use amankan.Compliance.{refs, remediation}
use amankan.ThreatIntel.{Feed, is_kev}
use amankan.Risk.{score, severity_to_cvss}
use amankan.Risk.Laws.{score_bounds}
use amankan.Scanner.{RawResult}
use amankan.Normalize.{Decoders, NmapPort}
use amankan.Normalize.Parsers.{nmap_finding, nmap_ports, nmap_hosts, parse_nmap}
use amankan.Normalize.Enrich.{enrich, enrich_all, is_zero, parse, normalize}

-- A finding that is linked to its scan and its asset, open, scored and mapped to its controls.
pub record IsEnriched (fl : Float64) (feed : Feed fl.Carrier) (asset : Asset) (scan_job_id : String)
    (sc : ScannerType) (f : Finding fl.Carrier) : Type 0 where
  pub job : f.scan_job_id ≡ scan_job_id
  pub owner : f.asset_id ≡ asset.id
  pub tool : f.scanner ≡ sc
  pub state : f.status ≡ open_finding
  pub known : f.known_exploit ≡ is_kev feed f.cve
  pub risk : f.risk_score ≡ (score fl feed f.cvss f.cve asset.criticality).0
  pub lower : AtMost fl (fl.dec 0 0) f.risk_score
  pub upper : AtMost fl f.risk_score (fl.dec 10 0)
  pub controls : f.cwe ≢ "" → f.compliance ≡ refs f.cwe
  pub guide : f.cwe ≢ "" → f.remediation ≡ some (remediation f.cwe)

module _ (fl : Float64) (laws : FloatLaws fl) (feed : Feed fl.Carrier) (asset : Asset)
    (scan_job_id : String) (sc : ScannerType) where
  enrich-IsEnriched :
      (f : Finding fl.Carrier)
      → IsEnriched fl feed asset scan_job_id sc (enrich fl feed asset scan_job_id sc f)
  unfolding enrich score
  enrich-IsEnriched f =
      let cvss = if is_zero fl f.cvss then severity_to_cvss fl f.severity else f.cvss in
      let (above, below) = score_bounds fl laws feed cvss f.cve asset.criticality in
      elim (Bool-cases (f.cwe == "")) [
        | inl e ↦ rw e (record {
          job = refl;
          owner = refl;
          tool = refl;
          state = refl;
          known = refl;
          risk = refl;
          lower = above;
          upper = below;
          controls = λ n. absurd (n ((eq_iff f.cwe "").0 e));
          guide = λ n. absurd (n ((eq_iff f.cwe "").0 e));
        })
        | inr e ↦ rw e (record {
          job = refl;
          owner = refl;
          tool = refl;
          state = refl;
          known = refl;
          risk = refl;
          lower = above;
          upper = below;
          controls = λ _. refl;
          guide = λ _. refl;
        })
      ]

  map-IsEnriched :
      (fs : List (Finding fl.Carrier))
      → All (IsEnriched fl feed asset scan_job_id sc) (map (enrich fl feed asset scan_job_id sc) fs)
  map-IsEnriched [] = tt
  map-IsEnriched (f ∷ fs) = (enrich-IsEnriched f, map-IsEnriched fs)

  enrich_all-IsEnriched :
      (parsed : Option (List (Finding fl.Carrier))) (fs : List (Finding fl.Carrier))
      → enrich_all fl feed asset scan_job_id sc parsed ≡ some fs
      → All (IsEnriched fl feed asset scan_job_id sc) fs
  enrich_all-IsEnriched none fs e = absurd (cc e)
  enrich_all-IsEnriched (some gs) fs e =
      subst (All (IsEnriched fl feed asset scan_job_id sc)) (some-injective _ _ e)
        (map-IsEnriched gs)

-- In arithmetic with the laws of float64, every finding that Normalize returns, in any format, is
-- linked to its scan job and asset, is open, has a risk score between 0 and 10 that is the score of
-- its own base score, CVEs and asset, is marked as exploited exactly if the feed knows a CVE of it,
-- and, where it has a weakness class, carries that class's controls and remediation.
pub normalize-IsEnriched :
    (fl : Float64) (laws : FloatLaws fl) (d : Decoders) (feed : Feed fl.Carrier) (raw : RawResult)
    (asset : Asset) (scan_job_id : String) (fs : List (Finding fl.Carrier))
    → normalize fl d feed raw asset scan_job_id ≡ some fs
    → All (IsEnriched fl feed asset scan_job_id raw.scanner) fs
unfolding normalize
normalize-IsEnriched fl laws d feed raw asset scan_job_id fs e =
    enrich_all-IsEnriched fl laws feed asset scan_job_id raw.scanner (parse fl d raw) fs e

-- The numbers of the open ports of the hosts, in order.
abbrev pub open_ports : List NmapPort → List ℤ
open_ports [] = []
open_ports (p ∷ ps) = if p.state == "open" then p.port_id ∷ open_ports ps else open_ports ps

abbrev pub all_open : List (List NmapPort) → List ℤ
all_open [] = []
all_open (h ∷ hs) = open_ports h ++ all_open hs

module _ (fl : Float64) where
  ports-nmap_ports : (ps : List NmapPort) → map (λ f. f.port) (nmap_ports fl ps) ≡ open_ports ps
  unfolding nmap_ports nmap_finding
  ports-nmap_ports [] = refl
  ports-nmap_ports (p ∷ ps) = elim (Bool-cases (p.state == "open")) [
    | inl e ↦ rw (e, ports-nmap_ports ps) refl
    | inr e ↦ rw (e, ports-nmap_ports ps) refl
  ]

  map-append :
      (xs ys : List (Finding fl.Carrier))
      → map (λ f. f.port) (xs ++ ys) ≡ map (λ f. f.port) xs ++ map (λ f. f.port) ys
  map-append [] ys = refl
  map-append (x ∷ xs) ys = ap (λ l. x.port ∷ l) (map-append xs ys)

  ports-nmap_hosts :
      (hs : List (List NmapPort)) → map (λ f. f.port) (nmap_hosts fl hs) ≡ all_open hs
  unfolding nmap_hosts
  ports-nmap_hosts [] = refl
  ports-nmap_hosts (h ∷ hs) =
      map-append (nmap_ports fl h) (nmap_hosts fl hs)
      ∙ rw (ports-nmap_ports h, ports-nmap_hosts hs) refl

  -- A run of nmap gives one finding for each open port of its hosts, in their order, with that port's
  -- number, and none for any other port.
  pub parse_nmap_open :
      (hosts : List (List NmapPort))
      → (fs : List (Finding fl.Carrier)) × (parse_nmap fl (some hosts) ≡ some fs)
        × (map (λ f. f.port) fs ≡ all_open hosts)
  unfolding parse_nmap
  parse_nmap_open hosts = (nmap_hosts fl hosts, refl, ports-nmap_hosts hosts)
