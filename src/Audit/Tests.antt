-- ===== src/Audit/Tests.antt =====
-- Runs of the audit log on small inputs, and the theorems at inputs that meet their hypotheses.
-- The platform of the examples keeps whole microseconds and hashes a text to a number.
use amankan.Prelude.{
  ℕ, ◌+◌, ◌*◌, ◌/◌, ◌%◌, ◌^◌, ◌≤◌, code, String, ◌≡◌, refl, ◌≢◌, ◌↔◌, ◌⊎◌, true, false, none, some,
  List, [], ◌∷◌, ◌++◌, arith, length, take, drop, All,
}
use Prim.Native.String.{◌++◌ as append}
use amankan.Prelude.Int.{pos}
use amankan.Strings.{has}
use amankan.Strconv.{itoa}
use amankan.Strconv.Laws.{itoa_inj}
use amankan.Audit.Canonical.{canonical_inj}
use amankan.Audit.Log.{list_audit, page_limit, list_audit_bounds}
use amankan.Audit.{Platform, Entry, genesis_hash, IsChain, verify_chain, Collision, last_hash}
use amankan.Audit.Canonical.{IsPlain, SameContent}
use amankan.Audit.Chain.{verify_chain_iff, verify_chain_breaks, verify_chain-truncated, BreaksAt}
use amankan.Audit.Tamper.{tamper_evident, verify_chain-shift, SameContents}
use amankan.Audit.Log.{
  Outcome, fails, commits, insert, append_audit, append_all, empty_log, all_audit_for_verify,
  verify_chain-append_all, append_audit-breaks,
}
use amankan.Audit.Concurrent.{
  System, Reach, start, later, quiet, idle, locked, linked, update, written, acquire, read, commit,
  serial_appends,
}
use native.Mathlib.Decide.{ℕ_discrete}

-- A fingerprint of a text, for the examples.
fold_codes : ℕ → String → ℕ
fold_codes acc String.[] = acc
fold_codes acc (String.◌∷◌ c s) = fold_codes ((acc * 1114112 + code c) % 10 ^ 30) s

fingerprint : String → String
unfolding fold_codes itoa
fingerprint s = itoa (fold_codes 1 s)

abbrev platform : Platform
platform = record {
  format_ts = λ t. itoa t;
  sha256_hex = fingerprint;
  stored_ts = λ t. t / 1000 * 1000;
}

abbrev request : Entry
request = record {
  seq = 0;
  ts = 0;
  actor = "alice";
  role = "admin";
  method = "POST";
  path = "/api/v1/assets";
  status = 201;
  remote_ip = "10.0.0.1:4242";
  prev_hash = "";
  hash = "";
}

abbrev steps : List (Outcome × ℕ × Entry)
steps = (commits, 5000, request) ∷ (fails insert, 6000, request) ∷ (commits, 7000, request) ∷ []

abbrev two_rows : List Entry
two_rows = (append_all platform steps empty_log).rows

audit : Unit {0}
unfolding append_all verify_chain all_audit_for_verify has fingerprint
audit = tt

two_rows_verify : (verify_chain platform two_rows).0 ≡ true
unfolding audit
two_rows_verify = refl

verify_chain-append_all_example :
    (verify_chain platform (all_audit_for_verify (append_all platform steps empty_log))).0 ≡ true
verify_chain-append_all_example = verify_chain-append_all platform steps (refl, (refl, (refl, tt)))

two_rows-IsChain : IsChain platform genesis_hash two_rows
two_rows-IsChain = (verify_chain_iff platform two_rows).0 two_rows_verify

verify_chain_iff_example :
    ((verify_chain platform two_rows).0 ≡ true) ↔ IsChain platform genesis_hash two_rows
verify_chain_iff_example = verify_chain_iff platform two_rows

-- The status of the second record is altered, so the chain breaks at its number, 3: the failed
-- insert used up 2.
abbrev forge : List Entry → List Entry
forge [] = []
forge (e ∷ []) = record e { status = 500 } ∷ []
forge (e ∷ f ∷ es) = e ∷ forge (f ∷ es)

forged_breaks : verify_chain platform (forge two_rows) ≡ (false, 3)
unfolding audit
forged_breaks = refl

verify_chain_breaks_example : BreaksAt platform genesis_hash (forge two_rows) 3
verify_chain_breaks_example = verify_chain_breaks platform (forge two_rows) 3 forged_breaks

split_verifies : (verify_chain platform (take 1 two_rows ++ drop 1 two_rows)).0 ≡ true
unfolding audit
split_verifies = refl

verify_chain-truncated_example : (verify_chain platform (take 1 two_rows)).0 ≡ true
verify_chain-truncated_example =
    verify_chain-truncated platform (take 1 two_rows) (drop 1 two_rows) split_verifies

verify_chain-shift_example :
    verify_chain platform
      (record request { actor = append "ci" (append "|" "alice"); role = "admin" } ∷ [])
    ≡ verify_chain platform
        (record request { actor = "ci"; role = append "alice" (append "|" "admin") } ∷ [])
verify_chain-shift_example = verify_chain-shift platform [] [] request "ci" "alice" "admin"

two_rows-IsPlain : All (λ e. IsPlain platform e.prev_hash e) two_rows
unfolding audit
two_rows-IsPlain = (
  record { link = refl; ts = refl; actor = refl; role = refl; method = refl; path = refl },
  (record { link = refl; ts = refl; actor = refl; role = refl; method = refl; path = refl }, tt),
)

tamper_evident_example : Collision platform ⊎ SameContents platform two_rows two_rows
tamper_evident_example =
    tamper_evident platform two_rows two_rows two_rows-IsPlain two_rows-IsPlain two_rows_verify
      two_rows_verify refl refl

append_audit-breaks_example :
    Collision platform
    ⊎ (verify_chain platform (append_audit platform commits 5001 request empty_log).2.rows
        ≡ (false, 1))
append_audit-breaks_example =
    append_audit-breaks platform 5001 request empty_log (unfold audit in refl)
      (λ e. absurd (omega (arith, itoa_inj 5000 5001 e)))

-- Writer 0 appends a record.
abbrev taken : System
taken = record quiet { holder = some 0; writer = update quiet.writer 0 locked }

abbrev ready : System
ready = record taken { writer = update taken.writer 0 (linked genesis_hash) }

abbrev written_once : System
written_once = record {
  log = record { rows = written platform genesis_hash 1 5000 request ∷ []; next_seq = 1 + 1 };
  holder = none;
  writer = update ready.writer 0 idle;
}

unfoldable written_once_reached : Reach platform quiet written_once
unfolding ℕ_discrete
written_once_reached =
    later (later (later start (acquire 0 refl refl)) (read 0 refl))
      (commit 0 genesis_hash 5000 request refl)

serial_appends_example :
    ((i j : ℕ) → written_once.writer i ≢ idle → written_once.writer j ≢ idle → i ≡ j)
    × ((i : ℕ) (prev : String)
        → written_once.writer i ≡ linked prev
        → prev ≡ last_hash genesis_hash written_once.log.rows)
    × ((verify_chain platform written_once.log.rows).0 ≡ true)
serial_appends_example =
    serial_appends platform written_once written_once_reached
      (unfold written_once_reached in (refl, tt))

plain : IsPlain platform genesis_hash request
unfolding audit
plain = record { link = refl; ts = refl; actor = refl; role = refl; method = refl; path = refl }

canonical_inj_example : (genesis_hash ≡ genesis_hash) × SameContent platform request request
canonical_inj_example =
    canonical_inj platform genesis_hash genesis_hash request request plain plain refl

list_audit_bounds_sample :
    (page_limit (pos 5000) ≤ 1000)
    × (length (list_audit (pos 5000) empty_log) ≤ page_limit (pos 5000))
    × (page_limit (pos 5000) ≤ length empty_log.rows
        → length (list_audit (pos 5000) empty_log) ≡ page_limit (pos 5000))
list_audit_bounds_sample = list_audit_bounds (pos 5000) empty_log
