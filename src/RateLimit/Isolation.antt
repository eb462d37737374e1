-- ===== src/RateLimit/Isolation.antt =====
-- The clients of one limiter do not share their budget.
use amankan.Prelude.{
  ℕ, ◌+◌, ◌-◌, ◌≤◌, String, ◌≡◌, refl, sym, ◌∙◌, subst, inl, inr, false, not, Option, none, some,
  List, [], ◌∷◌, map, arith, ◌==◌, eq_iff, eq_refl, ltb, if◌then◌else◌, Bool-cases, String-cases,
  All,
}
use amankan.Prelude.Int.{ℤ}
use amankan.Float64.{Float64}
use amankan.RateLimit.{
  Bucket, RateLimiter, new_limiter, or_full, refill, idle_limit, is_idle, evict, allow, run,
}

-- What a list says of one client.
abbrev pub of_client : {A : Type 0} → String → List (String × A) → List A
of_client i [] = []
of_client i ((ip, x) ∷ rest) =
    let others = of_client i rest in if ip == i then x ∷ others else others

-- The times lie in ten minutes.
abbrev pub IsShort : ℕ → List (String × ℕ) → Type 0
IsShort t0 trace = All (λ d. (t0 ≤ d.1) × (d.1 ≤ t0 + idle_limit)) trace

abbrev IsRecent : ℕ → Option ℕ → Type 0
IsRecent t0 none = Unit
IsRecent t0 (some s) = t0 ≤ s

not_idle :
    (t0 t : ℕ) (seen : Option ℕ) → t ≤ t0 + idle_limit → IsRecent t0 seen → is_idle t seen ≡ false
not_idle t0 t none h k = refl
not_idle t0 t (some s) h k = ground arith

module _ (fl : Float64) (seconds : ℤ → fl.Carrier) (rate : fl.Carrier) where
  -- The entries of a client in two limiters are the same, and it was not seen before this time.
  abbrev Agree : String → ℕ → RateLimiter fl.Carrier → RateLimiter fl.Carrier → Type 0
  Agree i t0 rl rl' =
      (rl.buckets i ≡ rl'.buckets i)
      × (rl.last_seen i ≡ rl'.last_seen i)
      × IsRecent t0 (rl.last_seen i)

  -- The bucket after a request that finds it refilled.
  abbrev spent : Bucket fl.Carrier → Bucket fl.Carrier
  spent b =
      if fl.less b.tokens (fl.dec 1 0)
      then b
      else record b { tokens = fl.minus b.tokens (fl.dec 1 0) }

  abbrev ready : ℕ → Option (Bucket fl.Carrier) → Bucket fl.Carrier
  ready t o = refill fl seconds rate t (or_full fl seconds rate t o)

  allow_self :
      (i : String) (t : ℕ) (rl : RateLimiter fl.Carrier)
      → let end = allow fl seconds rate i t rl in
        (end.0.buckets i ≡ some (spent (ready t (rl.buckets i))))
        × (end.0.last_seen i ≡ some t)
        × (end.1 ≡ not (fl.less (ready t (rl.buckets i)).tokens (fl.dec 1 0)))
  unfolding allow evict
  allow_self i t rl =
      let now : ltb idle_limit (t - t) ≡ false = ground arith in
      elim (Bool-cases (fl.less (ready t (rl.buckets i)).tokens (fl.dec 1 0))) [
        | inl e ↦ rw (e, eq_refl i, now) (refl, refl, refl)
        | inr e ↦ rw (e, eq_refl i, now) (refl, refl, refl)
      ]

  allow-other :
      (i ip : String) (t : ℕ) (rl : RateLimiter fl.Carrier)
      → (i == ip) ≡ false
      → is_idle t (rl.last_seen i) ≡ false
      → let end = allow fl seconds rate ip t rl in
        (end.0.buckets i ≡ rl.buckets i) × (end.0.last_seen i ≡ rl.last_seen i)
  unfolding allow evict
  allow-other i ip t rl other here =
      elim (Bool-cases (fl.less (ready t (rl.buckets ip)).tokens (fl.dec 1 0))) [
        | inl e ↦ rw (e, other, here) (refl, refl)
        | inr e ↦ rw (e, other, here) (refl, refl)
      ]

  run-cons :
      (ip : String) (t : ℕ) (rest : List (String × ℕ)) (rl : RateLimiter fl.Carrier)
      → let end = allow fl seconds rate ip t rl in
        run fl seconds rate ((ip, t) ∷ rest) rl ≡ (ip, end.1) ∷ run fl seconds rate rest end.0
  unfolding run
  run-cons ip t rest rl = refl

  run-nil : (rl : RateLimiter fl.Carrier) → run fl seconds rate [] rl ≡ []
  unfolding run
  run-nil rl = refl

  run-Agree :
      (i : String) (t0 : ℕ) (trace : List (String × ℕ)) (rl rl' : RateLimiter fl.Carrier)
      → IsShort t0 trace
      → Agree i t0 rl rl'
      → of_client i (run fl seconds rate trace rl)
        ≡ map (λ d. d.1) (run fl seconds rate (map (λ t. (i, t)) (of_client i trace)) rl')
  run-Agree i t0 [] rl rl' short agree = rw (run-nil rl, run-nil rl') refl
  run-Agree i t0 ((ip, t) ∷ rest) rl rl' short (b, seen, recent) = elim (String-cases ip i) [
    | inl e ↦
        let (b1, s1, d1) = allow_self i t rl in
        let (b2, s2, d2) = allow_self i t rl' in
        let next =
          run-Agree i t0 rest (allow fl seconds rate i t rl).0 (allow fl seconds rate i t rl').0
            short.1 (rw (b1, b2, b) refl, s1 ∙ sym s2, subst (IsRecent t0) (sym s1) short.0.0) in
        let same : (allow fl seconds rate i t rl).1 ≡ (allow fl seconds rate i t rl').1 =
          rw (d1, d2, b) refl in
        rw
          (
            run-cons ip t rest rl,
            e,
            eq_refl i,
            run-cons i t (map (λ u. (i, u)) (of_client i rest)) rl',
            next,
            same,
          )
          refl
    | inr e ↦
        let away : (i == ip) ≡ false = ground (arith, eq_iff i ip, eq_iff ip i) in
        let (b1, s1) = allow-other i ip t rl away (not_idle t0 t _ short.0.1 recent) in
        rw (run-cons ip t rest rl, e)
          (run-Agree i t0 rest (allow fl seconds rate ip t rl).0 rl' short.1
            (b1 ∙ b, s1 ∙ seen, subst (IsRecent t0) (sym s1) recent))
  ]

  -- Whatever the rate, and whatever float64 arithmetic does: of a sequence of requests whose times
  -- lie within ten minutes, in any order, a new limiter admits and refuses those of each client
  -- exactly as it would if they were the only ones.
  pub run-alone :
      (i : String) (t0 : ℕ) (trace : List (String × ℕ))
      → IsShort t0 trace
      → of_client i (run fl seconds rate trace new_limiter)
        ≡ map (λ d. d.1) (run fl seconds rate (map (λ t. (i, t)) (of_client i trace)) new_limiter)
  run-alone i t0 trace short = run-Agree i t0 trace new_limiter new_limiter short (refl, refl, tt)
