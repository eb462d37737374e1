-- ===== src/Graph.antt =====
-- internal/graph/graph.go: the nodes and the edges of the attack graph, and the statements that
-- merge into it. A statement matches first, and does nothing where a node is missing. Its errors
-- are the database's and change nothing.
pub mod Merge
pub mod Accounts
pub mod Derive
pub mod Secrets
pub mod Cheapest
pub mod Paths
pub mod Views
pub mod Ranking
mod Tests
use Prim.Native.String.{◌++◌ as append}
use amankan.Prelude.{
  ◌+◌, String, Bool, true, false, ◌&&◌, ◌||◌, Option, List, [], ◌∷◌, ◌==◌, if◌then◌else◌,
}
use amankan.Prelude.Int.{ℤ}
use amankan.Models.{Asset, Criticality, Severity, Finding}
use amankan.Graph.Merge.{merge, exists}

pub record Host : Type 0 where
  pub id : String
  pub name : String
  pub target : String
  pub criticality : Criticality
  pub exposure : String

pub record Vulnerability (F : Type 0) : Type 0 where
  pub id : String
  pub title : String
  pub cwe : String
  pub cvss : F
  pub risk : F
  pub kev : Bool
  pub severity : Severity

pub record AccountNode : Type 0 where
  pub id : String
  pub username : String
  pub privilege : String
  pub asset_id : String
  pub auto : Bool

pub record Secret : Type 0 where
  pub fingerprint : String
  pub principal : String

-- CAN_REACH, CAN_ESCALATE, CREDENTIAL_REUSE and CAN_READ: edges with properties; one that a
-- statement does not set is none.
pub record Reach : Type 0 where
  pub src : String
  pub dst : String
  pub port : ℤ
  pub proto : String

pub record Escalation (F : Type 0) : Type 0 where
  pub src : String
  pub dst : String
  pub technique : String
  pub cwe : String
  pub risk : Option F
  pub weight : F
  pub auto : Bool

pub record Reuse (F : Type 0) : Type 0 where
  pub src : String
  pub dst : String
  pub weight : F
  pub principal : Option String
  pub via : Option String
  pub auto : Bool

pub record Reading : Type 0 where
  pub account : String
  pub fingerprint : String
  pub technique : String

-- HAS_VULN, HAS_ACCOUNT and VALID_ON are edges without properties.
pub record Graph (F : Type 0) : Type 0 where
  pub hosts : List Host
  pub vulns : List (Vulnerability F)
  pub accounts : List AccountNode
  pub secrets : List Secret
  pub has_vuln : List (String × String)
  pub has_account : List (String × String)
  pub valid_on : List (String × String)
  pub can_reach : List Reach
  pub can_escalate : List (Escalation F)
  pub credential_reuse : List (Reuse F)
  pub can_read : List Reading

abbrev pub empty_graph : {F : Type 0} → Graph F
empty_graph = record {
  hosts = [];
  vulns = [];
  accounts = [];
  secrets = [];
  has_vuln = [];
  has_account = [];
  valid_on = [];
  can_reach = [];
  can_escalate = [];
  credential_reuse = [];
  can_read = [];
}

-- Exposure
abbrev exposed : List String → Bool
exposed [] = false
exposed (t ∷ ts) =
    let rest = exposed ts in
    if t == "public" || t == "external" || t == "internet" then true else rest

unfoldable pub exposure : Asset → String
exposure a = if exposed a.tags then "external" else "internal"

-- MERGE of an edge without properties
abbrev pub link : String → String → List (String × String) → List (String × String)
link a b edges = merge (λ e. e.0 == a && e.1 == b) (a, b) (λ e. e) edges

abbrev pub has_host : {F : Type 0} → String → Graph F → Bool
has_host id g = exists (λ h. Host.id h == id) g.hosts

-- SyncAsset
unfoldable pub sync_asset : {F : Type 0} → Asset → Graph F → Graph F
unfolding exposure
sync_asset a g =
    let node : Host = record {
      id = a.id;
      name = a.name;
      target = a.target;
      criticality = a.criticality;
      exposure = exposure a;
    } in
    record g { hosts = merge (λ h. Host.id h == a.id) node (λ _. node) g.hosts }

-- SyncFinding
unfoldable pub sync_finding : {F : Type 0} → Finding F → Graph F → Graph F
sync_finding {F} f g =
    let node : Vulnerability F = record {
      id = f.id;
      title = f.title;
      cwe = f.cwe;
      cvss = f.cvss;
      risk = f.risk_score;
      kev = f.known_exploit;
      severity = f.severity;
    } in
    if has_host f.asset_id g
    then record g {
      vulns = merge (λ v. Vulnerability.id v == f.id) node (λ _. node) g.vulns;
      has_vuln = link f.asset_id f.id g.has_vuln;
    }
    else g

-- UpsertReachability
unfoldable pub upsert_reachability : {F : Type 0} → String → String → ℤ → String → Graph F → Graph F
upsert_reachability src dst port proto g =
    let edge : Reach = record { src = src; dst = dst; port = port; proto = proto } in
    if has_host src g && has_host dst g
    then record g {
      can_reach =
          merge (λ e. Reach.src e == src && Reach.dst e == dst) edge (λ _. edge) g.can_reach;
    }
    else g
