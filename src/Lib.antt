-- ===== src/Lib.antt =====
-- Amankan, a platform for vulnerability management: an HTTP API and a worker in Go that register
-- assets, run scanners on them, turn the output into findings, and keep a tamper-evident audit log.
--
-- A request passes the hardening middlewares, an authentication provider and a role check before a
-- handler runs; a handler stores its data in PostgreSQL, and every mutation appends an audit record
-- that is chained to the one before it by its hash. The worker takes a scan job, runs the adapters
-- of its profile, and normalizes what they give into findings with a risk score and compliance
-- references. The modules, by the code that they model:
--
-- Audit            internal/audit/audit.go: Canonical, Hash, VerifyChain (canonical, hash,
--                  verify_chain). Audit/Log and Audit/Concurrent are internal/store/audit.go:
--                  AppendAudit, ListAudit and AllAuditForVerify on a table of rows, run one after
--                  another, with the failure of each call, and as a step relation of any number of
--                  writers that take the advisory lock.
-- Auth             internal/auth/auth.go: ParseKeys, lookup, bearer, Authenticate, Require.
--                  Auth/Roles has the roles and the principal, Auth/Oidc is internal/auth/oidc.go,
--                  and Auth/Hardening has CORS and the headers of internal/auth/hardening.go.
-- RateLimit        internal/auth/hardening.go: the token buckets in float64, allow and evict;
--                  RateLimit/Isolation has the proof that clients do not share a budget.
-- Models           internal/models/models.go: the schema.
-- Sla, Risk        internal/sla/sla.go and internal/risk/risk.go.
-- Compliance       internal/compliance/compliance.go: the catalog of weakness classes.
-- ThreatIntel      internal/threatintel/threatintel.go: the feed and its load.
-- Config           internal/config/config.go: the environment and the checks of production mode.
-- Scanner          internal/scanner/: the profiles and the mock output; Scanner/Adapters has the gate
--                  liveAllowed and the Scan of the four adapters.
-- Normalize        internal/normalize/normalize.go: the documents; Normalize/Parsers and
--                  Normalize/Enrich have the parsers and Normalize, Normalize/Controls what of
--                  the compliance mapping reaches the findings.
-- Store            internal/store/store.go: the tables and their statements. Store/Rows has lookup and
--                  update in a list of rows, Store/Jobs the scan jobs as a map.
-- Queue            internal/queue/queue.go: Enqueue and Dequeue on the list in Redis; Queue/Fifo has the
--                  queue that it implements.
-- Engine           internal/engine/processor.go: Engine/Process has Process, Engine/Subnet the
--                  derivation of reachability, Engine/Worker the loop of cmd/worker/main.go over the
--                  queue. Engine/Persisted, Engine/Results, Engine/Outcome, Engine/Drain and
--                  Engine/Production are its proofs. The engine's calls of the graph are a record of
--                  operations, which Graph/Secrets fills.
-- Graph            internal/graph/graph.go: nodes and edges as lists, with the statements that merge
--                  into them; Graph/Accounts, Graph/Derive and Graph/Secrets have the accounts and the
--                  derived edges, Graph/Paths the attack paths, and Graph/Views what the other
--                  reading calls make of records. Graph/Cheapest and Graph/Ranking are
--                  its proofs.
-- Api              internal/api/api.go and internal/api/audit.go: the routes with their roles, the pages
--                  of a list, and the audit middleware between authentication and the role check.
--                  Api/Service has the state and the replies of the handlers, and Api/Assets,
--                  Api/Findings, Api/Export, Api/Topology, Api/Accounts and Api/GraphViews the
--                  handlers, which Api/Router binds to the routes. Api/Scans has the proof that the queue holds only jobs of the table, and
--                  Api/Authorization what a withdrawn permission means for scans.
--                  Api/Metrics is internal/api/observability.go.
-- Start            cmd/api/main.go up to the server's listening, Migrate of internal/db/db.go and
--                  NewOIDCVerifier of internal/auth/oidc.go. Start/Open is about a server whose
--                  API keys are unusable.
-- Http             What the middlewares use of net/http: requests, a writer, handlers over a state.
-- Float64          float64 as a parameter with the laws of rounding, which hold without NaN;
--                  Float64/Hundredths has them.
-- Strings, Strconv The functions of Go's strings and strconv that the program calls.
-- Prelude          Shared names, Boolean tests, lists, integers.
--
-- Numbers are natural numbers, and integers where the code can have negative ones; times are in
-- nanoseconds. A Go map is a list of pairs or a function. Errors are values: options, or a type
-- with one constructor for each kind of error.
--
-- Fuel is used in one place, the decimal digits of a number, where a number is more than its own
-- count of digits. All other recursion is structural.
--
-- Parameters stand for what the repository calls and does not contain: SHA-256, RSA, base64, JSON,
-- XML, HTTP, the resolver, the scanner tools, PostgreSQL's precision of a timestamp, float64.
--
-- A call of PostgreSQL, Redis or Neo4j fails with an error and then changes nothing, or is executed;
-- every call of the tables has its number, which decides if it fails, its time and its identifier. A
-- failure that the server has executed in spite of its error is not modelled.
--
-- Not modelled: what Cypher's queries match, the middlewares of chi, MaxBody, the connections of
-- internal/db, the shutdown, and the web console.
pub mod Prelude
pub mod Strings
pub mod Strconv
pub mod Audit
pub mod Http
pub mod Auth
pub mod RateLimit
pub mod Float64
pub mod Models
pub mod Sla
pub mod Risk
pub mod Compliance
pub mod ThreatIntel
pub mod Config
pub mod Scanner
pub mod Normalize
pub mod Api
pub mod Store
pub mod Queue
pub mod Engine
pub mod Graph
pub mod Start
