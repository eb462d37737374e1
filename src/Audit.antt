-- ===== src/Audit.antt =====
-- internal/audit/audit.go: the audit record, its canonical form and its hash chain.
pub mod Canonical
pub mod Chain
pub mod Tamper
pub mod Log
pub mod Concurrent
mod Tests
use Prim.Native.String.{◌++◌}
use amankan.Prelude.{
  ℕ, ◌+◌, String, ◌≡◌, ◌≢◌, Bool, true, false, not, List, [], ◌∷◌, ◌==◌, if◌then◌else◌,
}
use amankan.Strconv.{itoa}

-- What the audit log takes from Go's library and from PostgreSQL. `format_ts` is the RFC 3339 form
-- with nanoseconds of an instant, counted in nanoseconds of Unix time; `sha256_hex` is the hex
-- SHA-256 of a text; `stored_ts` is the instant that a TIMESTAMPTZ column gives back for an
-- instant written to it.
pub record Platform : Type 0 where
  pub format_ts : ℕ → String
  pub sha256_hex : String → String
  pub stored_ts : ℕ → ℕ

abbrev pub genesis_hash : String
genesis_hash = "GENESIS"

pub record Entry : Type 0 where
  pub seq : ℕ
  pub ts : ℕ
  pub actor : String
  pub role : String
  pub method : String
  pub path : String
  pub status : ℕ
  pub remote_ip : String
  pub prev_hash : String
  pub hash : String

module _ (p : Platform) where
  unfoldable pub canonical : String → Entry → String
  unfolding itoa
  canonical prev e =
      prev
      ++ "|"
      ++ p.format_ts e.ts
      ++ "|"
      ++ e.actor
      ++ "|"
      ++ e.role
      ++ "|"
      ++ e.method
      ++ "|"
      ++ e.path
      ++ "|"
      ++ itoa e.status
      ++ "|"
      ++ e.remote_ip

  unfoldable pub hash : String → Entry → String
  unfolding canonical
  hash prev e = p.sha256_hex (canonical prev e)

  -- The loop of VerifyChain: the verdict, and the first sequence number that does not match.
  verify_from : String → List Entry → Bool × ℕ
  verify_from prev [] = (true, 0)
  verify_from prev (e ∷ es) =
      let rest = verify_from e.hash es in
      if not (e.prev_hash == prev)
      then (false, e.seq)
      else if not (hash prev e == e.hash)
      then (false, e.seq)
      else rest

  unfoldable pub verify_chain : List Entry → Bool × ℕ
  unfolding verify_from hash
  verify_chain entries = verify_from genesis_hash entries

  -- The entry links to `prev`, and its hash is its own.
  abbrev pub IsLinked : String → Entry → Type 0
  IsLinked prev e = (e.prev_hash ≡ prev) × (hash prev e ≡ e.hash)

  abbrev pub IsChain : String → List Entry → Type 0
  IsChain prev [] = Unit
  IsChain prev (e ∷ es) = IsLinked prev e × IsChain e.hash es

  -- Two different texts with one hash.
  abbrev pub Collision : Type 0
  Collision = (x : String) × (y : String) × (x ≢ y) × (p.sha256_hex x ≡ p.sha256_hex y)

-- The hash that the next entry links to.
abbrev pub last_hash : String → List Entry → String
last_hash prev [] = prev
last_hash prev (e ∷ es) = last_hash e.hash es
