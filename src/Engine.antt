-- ===== src/Engine.antt =====
-- internal/engine/processor.go: the run of one scan job. The graph is optional, and a call of it
-- only changes the graph, since its errors are logged and no more.
pub mod Subnet
pub mod Process
mod Persisted
mod Results
pub mod Outcome
pub mod Worker
pub mod Drain
pub mod Production
mod Tests
use amankan.Prelude.{ℕ, String, not, Option, none, some}
use amankan.Prelude.Int.{ℤ}
use amankan.Float64.{Float64}
use amankan.Models.{Asset, ScannerType, nmap, nuclei, crypto, secrets, Finding}
use amankan.Config.{Config, is_production}
use amankan.ThreatIntel.{Feed}
use amankan.Scanner.{Options, World}
use amankan.Normalize.{Decoders}
use amankan.Store.{Server, Tables, Error, not_found, failure}

-- The graph's operations that the engine calls, over a graph of type G.
pub record GraphOps (F G : Type 0) : Type 0 where
  pub sync_asset : Asset → G → G
  pub sync_finding : Finding F → G → G
  pub auto_derive_escalation : String → String → String → F → G → G
  pub auto_derive_credential_reuse : String → String → String → String → F → G → G
  pub upsert_reachability : String → String → ℤ → String → G → G

-- What the engine works with. `to4` is net.IP.To4, and `scan_error` is the text of the error of a
-- scanner that fails on an asset.
pub record Processor (fl : Float64) (world : World) (G : Type 0) : Type 0 where
  pub server : Server fl.Carrier
  pub graph : GraphOps fl.Carrier G
  pub opts : Options
  pub decoders : Decoders
  pub feed : Feed fl.Carrier
  pub to4 : world.Ip → Option (ℕ × ℕ × ℕ × ℕ)
  pub scan_error : ScannerType → Asset → String

pub record System (F G : Type 0) : Type 0 where
  pub tables : Tables F
  pub graph : Option G

-- The options of NewProcessor
unfoldable pub processor_options : {F : Type 0} → Config F → Options
unfolding is_production
processor_options cfg = record {
  nmap_bin = cfg.nmap_bin;
  nuclei_bin = cfg.nuclei_bin;
  gitleaks_bin = cfg.gitleaks_bin;
  allow_live_scan = cfg.allow_live_scan;
  production = is_production cfg;
  scan_authorized = cfg.scan_authorized;
}

abbrev pub type_text : ScannerType → String
type_text nmap = "nmap"
type_text nuclei = "nuclei"
type_text crypto = "crypto"
type_text secrets = "secrets"

abbrev pub error_text : Error → String
error_text not_found = "not found"
error_text (failure e) = e

-- A call of the graph, where there is one.
abbrev pub on_graph : {G : Type 0} → (G → G) → Option G → Option G
on_graph f none = none
on_graph f (some g) = some (f g)
