-- ===== src/RateLimit.antt =====
-- internal/auth/hardening.go: the token bucket of each client. Times are in nanoseconds, and tokens
-- are float64 values. Duration.Seconds is Go's.
pub mod Isolation
mod Tests
use amankan.Http.{Handler, set_header}
use amankan.Auth.{write_error}
use amankan.Auth.Hardening.{client_ip}
use mathlib.Core.Option
use amankan.Prelude.Int.{ℤ, pos, neg}
use amankan.Float64.{Float64}
use amankan.Prelude.{
  ℕ, zero, suc, ◌+◌, ◌-◌, ◌*◌, ◌/◌, ◌%◌, ◌^◌, ◌≤◌, ◌<◌, Char, code, String, ◌≡◌, refl, sym, ap, ◌∙◌,
  subst, ◌≢◌, ◌↔◌, ◌⊎◌, inl, inr, Bool, true, false, not, ◌&&◌, ◌||◌, Option, none, some, List, [],
  ◌∷◌, ◌++◌, map, arith, ◌==◌, eq_iff, eq_refl, ltb, leb, eqb, if◌then◌else◌, Bool-cases,
  Option-cases, String-cases, eq-false_of_ne, ltb→lt, lt→ltb, leb→le, length, take, drop,
  length-append, length-drop, All, Any, All-append,
}

pub record Bucket (F : Type 0) : Type 0 where
  pub tokens : F
  pub last : ℕ

-- The limiter's two maps.
pub record RateLimiter (F : Type 0) : Type 0 where
  pub buckets : String → Option (Bucket F)
  pub last_seen : String → Option ℕ

abbrev pub new_limiter : {F : Type 0} → RateLimiter F
new_limiter = record { buckets = λ _. none; last_seen = λ _. none }

-- m[k] = v
abbrev pub put : {V : Type 0} → (String → Option V) → String → V → String → Option V
put m k v j = if j == k then some v else m j

-- t.Sub(u)
abbrev pub sub : ℕ → ℕ → ℤ
sub t u = if leb u t then pos (t - u) else neg (u - t)

-- More than ten minutes
abbrev pub idle_limit : ℕ
idle_limit = 600 * 10 ^ 9

abbrev pub is_idle : ℕ → Option ℕ → Bool
is_idle t none = false
is_idle t (some seen) = ltb idle_limit (t - seen)

unfoldable pub evict : {F : Type 0} → ℕ → RateLimiter F → RateLimiter F
evict t rl = record {
  buckets = λ ip. if is_idle t (rl.last_seen ip) then none else rl.buckets ip;
  last_seen = λ ip. if is_idle t (rl.last_seen ip) then none else rl.last_seen ip;
}

module _ (fl : Float64) (seconds : ℤ → fl.Carrier) (rate : fl.Carrier) where
  abbrev pub burst : fl.Carrier
  burst = fl.times rate (fl.dec 2 0)

  -- b, or a full bucket where the client has none
  abbrev pub or_full : ℕ → Option (Bucket fl.Carrier) → Bucket fl.Carrier
  or_full t none = record { tokens = burst; last = t }
  or_full t (some b) = b

  unfoldable pub refill : ℕ → Bucket fl.Carrier → Bucket fl.Carrier
  refill t b =
      let elapsed = seconds (sub t b.last) in
      let grown = fl.plus b.tokens (fl.times elapsed rate) in
      if fl.less (fl.dec 0 0) elapsed
      then record { tokens = if fl.less burst grown then burst else grown; last = t }
      else b

  -- allow: may the client make a request at this time? The bucket is a pointer into the map: what
  -- the call does to it after the eviction is seen there if the eviction kept it.
  unfoldable pub allow : String → ℕ → RateLimiter fl.Carrier → RateLimiter fl.Carrier × Bool
  unfolding refill evict
  allow ip t rl =
      let b = refill t (or_full t (rl.buckets ip)) in
      let touched : RateLimiter fl.Carrier = record {
        buckets = put rl.buckets ip b;
        last_seen = put rl.last_seen ip t;
      } in
      let kept = evict t touched in
      if fl.less b.tokens (fl.dec 1 0) then (kept, false) else (
        record kept {
          buckets = λ j.
              if j == ip
              then Option.map (λ _. record b { tokens = fl.minus b.tokens (fl.dec 1 0) })
                  (kept.buckets ip)
              else kept.buckets j;
        },
        true,
      )

  -- A sequence of requests, each of a client at a time: whether each is admitted.
  unfoldable pub run : List (String × ℕ) → RateLimiter fl.Carrier → List (String × Bool)
  unfolding allow
  run [] rl = []
  run ((ip, t) ∷ rest) rl = let (rl', admitted) = allow ip t rl in (ip, admitted) ∷ run rest rl'

  module _ {S : Type 0} (split_host_port : String → Option String) (t : ℕ) where
    -- RateLimit at time t: a preflight is let through, and a rate of 0 or less switches the limit
    -- off.
    unfoldable pub rate_limit : Handler S → Handler (RateLimiter fl.Carrier × S)
    unfolding allow client_ip write_error
    rate_limit next w r (rl, s) =
        let (rl', admitted) = allow (client_ip split_host_port r) t rl in
        if fl.less_eq rate (fl.dec 0 0) || r.method == "OPTIONS"
        then (let (w', s') = next w r s in (w', (rl, s')))
        else if not admitted
        then (write_error (set_header w "Retry-After" "1") 429 "rate limit exceeded", (rl', s))
        else (let (w', s') = next w r s in (w', (rl', s')))
