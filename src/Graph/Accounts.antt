-- ===== src/Graph/Accounts.antt =====
-- internal/graph/graph.go: accounts and the edges between them.
use Prim.Native.String.{◌++◌ as append}
use amankan.Prelude.{String, Bool, true, false, ◌&&◌, none, List, ◌==◌, if◌then◌else◌}
use amankan.Graph.{Graph, AccountNode, Escalation, Reuse, has_host, link}
use amankan.Graph.Merge.{merge, exists}

pub record Account : Type 0 where
  pub id : String
  pub username : String
  pub privilege : String
  pub asset_id : String

-- AutoAccountID
unfoldable pub auto_account_id : String → String → String
auto_account_id asset_id role = append "auto-" (append role (append "-" asset_id))

abbrev pub has_node : {F : Type 0} → String → Graph F → Bool
has_node id g = exists (λ a. AccountNode.id a == id) g.accounts

-- SyncAccount; an account that is there keeps whether it was derived.
unfoldable pub sync_account : {F : Type 0} → Account → Graph F → Graph F
sync_account acc g =
    let node : AccountNode = record {
      id = acc.id;
      username = acc.username;
      privilege = acc.privilege;
      asset_id = acc.asset_id;
      auto = false;
    } in
    if has_host acc.asset_id g
    then record g {
      accounts =
          merge (λ a. AccountNode.id a == acc.id) node (λ a. record node { auto = a.auto })
            g.accounts;
      has_account = link acc.asset_id acc.id g.has_account;
    }
    else g

-- edge: whether both accounts are there, and the edges of the type.
unfoldable pub edge :
    {E F : Type 0} → (E → String) → (E → String) → E → (E → E) → List E → Graph F → Bool × List E
edge src dst new set edges g =
    if has_node (src new) g && has_node (dst new) g
    then (true, merge (λ e. src e == src new && dst e == dst new) new set edges)
    else (false, edges)

-- UpsertEscalation
unfoldable pub upsert_escalation :
    {F : Type 0} → String → String → String → String → F → Graph F → Bool × Graph F
unfolding edge
upsert_escalation {F} src dst technique cwe weight g =
    let new : Escalation F = record {
      src = src;
      dst = dst;
      technique = technique;
      cwe = cwe;
      risk = none;
      weight = weight;
      auto = false;
    } in
    let set : Escalation F → Escalation F =
      λ e. record e { technique = technique; cwe = cwe; weight = weight } in
    let (there, edges) = edge Escalation.src Escalation.dst new set g.can_escalate g in
    (there, record g { can_escalate = edges })

-- UpsertCredentialReuse
unfoldable pub upsert_credential_reuse :
    {F : Type 0} → String → String → F → Graph F → Bool × Graph F
unfolding edge
upsert_credential_reuse {F} src dst weight g =
    let new : Reuse F = record {
      src = src;
      dst = dst;
      weight = weight;
      principal = none;
      via = none;
      auto = false;
    } in
    let set : Reuse F → Reuse F = λ e. record e { weight = weight } in
    let (there, edges) = edge Reuse.src Reuse.dst new set g.credential_reuse g in
    (there, record g { credential_reuse = edges })
