-- ===== src/Models.antt =====
-- internal/models/models.go: the domain schema. The source's enumerations are string types, so each
-- has a constructor for a text that is none of its constants. Times are in nanoseconds since the
-- epoch, and `F` is the type of float64.
use amankan.Prelude.{ℕ, String, Bool, Option, List}
use amankan.Prelude.Int.{ℤ}

pub data AssetType : Type 0 where
  ip domain repo : AssetType
  other_type : String → AssetType

pub data Criticality : Type 0 where
  crit_low crit_medium crit_high crit_critical : Criticality
  other_criticality : String → Criticality

pub record Asset : Type 0 where
  pub id : String
  pub name : String
  pub asset_type : AssetType
  pub target : String
  pub criticality : Criticality
  pub tags : List String
  pub scan_authorized : Bool
  pub created_at : ℕ

pub data ScanProfile : Type 0 where
  quick web critical_profile : ScanProfile
  other_profile : String → ScanProfile

pub data ScannerType : Type 0 where
  nmap nuclei crypto secrets : ScannerType

pub data ScanStatus : Type 0 where
  queued running completed failed : ScanStatus

pub record ScanJob : Type 0 where
  pub id : String
  pub asset_id : String
  pub profile : ScanProfile
  pub scanners : List ScannerType
  pub status : ScanStatus
  pub error : String
  pub used_mock : Bool
  pub created_at : ℕ
  pub started_at : Option ℕ
  pub finished_at : Option ℕ

pub data Severity : Type 0 where
  info low medium high critical : Severity
  other_severity : String → Severity

pub data FindingStatus : Type 0 where
  open_finding validated false_positive remediated : FindingStatus
  other_status : String → FindingStatus

pub record ComplianceRef : Type 0 where
  pub framework : String
  pub control : String
  pub title : String

pub record RemediationGuide : Type 0 where
  pub summary : String
  pub steps : List String
  pub refs : List String

pub record Finding (F : Type 0) : Type 0 where
  pub id : String
  pub scan_job_id : String
  pub asset_id : String
  pub scanner : ScannerType
  pub title : String
  pub desc : String
  pub severity : Severity
  pub cvss : F
  pub cvss_vector : String
  pub cve : String
  pub cwe : String
  pub port : ℤ
  pub service : String
  pub evidence : String
  pub status : FindingStatus
  pub risk_score : F
  pub known_exploit : Bool
  pub compliance : List ComplianceRef
  pub remediation : Option RemediationGuide
  pub epss : F
  pub due_date : Option ℕ
  pub sla_breached : Bool
  pub sla_days_left : ℤ
  pub principal : String
  pub cred_fp : String
  pub created_at : ℕ
