-- ===== src/Api/Metrics.antt =====
-- internal/api/observability.go: the counters of requests and the middleware that counts them. The
-- counters are atomic; their wrap-around at 2^64 is left out.
use Prim.Native.String.{◌++◌ as append}
use amankan.Prelude.{
  ℕ, suc, ◌+◌, ◌-◌, ◌≤◌, code, String, ◌≡◌, refl, ◌∙◌, ◌↔◌, inl, inr, Bool, true, false, ◌&&◌,
  Option, none, some, arith, leb, if◌then◌else◌, Bool-cases,
}
use amankan.Strconv.{itoa}
use amankan.Http.{Handler, set_header, write_body}
use amankan.Api.Service.{Codec, ready_reply, write_json}

pub record Metrics : Type 0 where
  pub total : ℕ
  pub s2xx : ℕ
  pub s3xx : ℕ
  pub s4xx : ℕ
  pub s5xx : ℕ
  pub in_flight : ℕ

abbrev pub no_requests : Metrics
no_requests = record { total = 0; s2xx = 0; s3xx = 0; s4xx = 0; s5xx = 0; in_flight = 0 }

-- statusClass
unfoldable pub status_class : ℕ → Metrics → Metrics
status_class code m =
    if leb 500 code
    then record m { s5xx = m.s5xx + 1 }
    else if leb 400 code
    then record m { s4xx = m.s4xx + 1 }
    else if leb 300 code
    then record m { s3xx = m.s3xx + 1 }
    else record m { s2xx = m.s2xx + 1 }

-- The first two and the last two statements of observe, around the next handler.
abbrev pub arrive : Metrics → Metrics
arrive m = record m { total = m.total + 1 }

abbrev pub enter : Metrics → Metrics
enter m = record m { in_flight = m.in_flight + 1 }

abbrev pub leave : Metrics → Metrics
leave m = record m { in_flight = m.in_flight - 1 }

-- observe, for one request at a time.
unfoldable pub observe : {S : Type 0} → Handler S → Handler (Metrics × S)
unfolding status_class
observe next w r (m, s) =
    let (w', s') = next (record w { recorded = 200 }) r s in
    (w', (status_class w'.recorded (leave (enter (arrive m))), s'))

-- handleMetrics
unfoldable pub handle_metrics : Handler Metrics
unfolding set_header write_body itoa
handle_metrics w r m =
    let w' = set_header w "Content-Type" "text/plain; version=0.0.4; charset=utf-8" in
    let sample = λ (name : String) (n : ℕ). append name (append " " (append (itoa n) "\n")) in
    (
      write_body w' (
          append "# HELP amankan_http_requests_total Total HTTP requests by status class.\n" (
            append "# TYPE amankan_http_requests_total counter\n" (
              append (sample "amankan_http_requests_total{class=\"2xx\"}" m.s2xx) (
                append (sample "amankan_http_requests_total{class=\"3xx\"}" m.s3xx) (
                  append (sample "amankan_http_requests_total{class=\"4xx\"}" m.s4xx) (
                    append (sample "amankan_http_requests_total{class=\"5xx\"}" m.s5xx) (
                      append "# HELP amankan_http_in_flight In-flight HTTP requests.\n" (
                        append "# TYPE amankan_http_in_flight gauge\n"
                          (sample "amankan_http_in_flight" m.in_flight))))))))),
      m,
    )

abbrev check_text : Option String → String
check_text none = "ok"
check_text (some e) = e

abbrev is_ok : Option String → Bool
is_ok none = true
is_ok (some e) = false

-- handleReadyz, with the errors of the two pings; there may be no queue.
unfoldable pub handle_readyz :
    {F S : Type 0} → Codec F → Option String → Option (Option String) → Handler S
unfolding write_json
handle_readyz c database none w r s =
    let ready = is_ok database in
    (write_json c w (if ready then 200 else 503) (ready_reply ready (check_text database) "ok"), s)
handle_readyz c database (some redis) w r s =
    let ready = is_ok database && is_ok redis in
    (
      write_json c w (if ready then 200 else 503)
          (ready_reply ready (check_text database) (check_text redis)),
      s,
    )

-- The counters with the numbers of requests that are between two statements of observe: before
-- enter, in the next handler, and before statusClass.
pub record Traffic : Type 0 where
  pub metrics : Metrics
  pub arriving : ℕ
  pub inside : ℕ
  pub leaving : ℕ

-- Any request may make the next statement.
pub data Step (t : Traffic) : Traffic → Type 0 where
  arrives : Step t (record t { metrics = arrive t.metrics; arriving = t.arriving + 1 })
  enters :
      (n : ℕ)
      → t.arriving ≡ suc n
      → Step t (record t { metrics = enter t.metrics; arriving = n; inside = t.inside + 1 })
  leaves :
      (n : ℕ)
      → t.inside ≡ suc n
      → Step t (record t { metrics = leave t.metrics; inside = n; leaving = t.leaving + 1 })
  classified :
      (n code : ℕ)
      → t.leaving ≡ suc n
      → Step t (record t { metrics = status_class code t.metrics; leaving = n })

pub data Reach (t : Traffic) : Traffic → Type 0 where
  start : Reach t t
  later : {u v : Traffic} → Reach t u → Step u v → Reach t v

abbrev pub quiet : Traffic
quiet = record { metrics = no_requests; arriving = 0; inside = 0; leaving = 0 }

abbrev pub classes : Metrics → ℕ
classes m = m.s2xx + m.s3xx + m.s4xx + m.s5xx

abbrev Balanced : Traffic → Type 0
Balanced t =
    (t.metrics.total ≡ t.arriving + t.inside + t.leaving + classes t.metrics)
    × (t.metrics.in_flight ≡ t.inside)

status_class-counts :
    (code : ℕ) (m : Metrics)
    → ((status_class code m).total ≡ m.total)
      × ((status_class code m).in_flight ≡ m.in_flight)
      × (classes (status_class code m) ≡ classes m + 1)
unfolding status_class
status_class-counts code m = elim (Bool-cases (leb 500 code)) [
  | inl a ↦ rw a (refl, refl, omega arith)
  | inr a ↦ elim (Bool-cases (leb 400 code)) [
    | inl b ↦ rw (a, b) (refl, refl, omega arith)
    | inr b ↦ elim (Bool-cases (leb 300 code)) [
      | inl d ↦ rw (a, b, d) (refl, refl, omega arith)
      | inr d ↦ rw (a, b, d) (refl, refl, omega arith)
    ]
  ]
]

Step-Balanced : {t u : Traffic} → Step t u → Balanced t → Balanced u
Step-Balanced arrives (b, f) = (omega (arith, b), f)
Step-Balanced (enters n e) (b, f) = (omega (arith, b, e), omega (arith, f))
Step-Balanced (leaves n e) (b, f) = (omega (arith, b, e), omega (arith, f, e))
Step-Balanced {t} (classified n code e) (b, f) =
    let (same, flight, one) = status_class-counts code t.metrics in
    (omega (arith, b, e, same, one), flight ∙ f)

Reach-Balanced : {t u : Traffic} → Reach t u → Balanced t → Balanced u
Reach-Balanced start h = h
Reach-Balanced (later r s) h = Step-Balanced s (Reach-Balanced r h)

-- However the requests that run at once interleave, from counters at zero: amankan_http_in_flight
-- is the number of requests in the next handler, the four classes never add up to more than the
-- total, and they add up to it exactly when no request is in observe.
pub metrics_balanced :
    (t : Traffic)
    → Reach quiet t
    → (t.metrics.in_flight ≡ t.inside)
      × (classes t.metrics ≤ t.metrics.total)
      × (t.arriving + t.inside + t.leaving ≡ 0 ↔ classes t.metrics ≡ t.metrics.total)
metrics_balanced t r =
    let (b, f) = Reach-Balanced r (refl, refl) in
    (f, omega (arith, b), (λ z. omega (arith, b, z), λ z. omega (arith, b, z)))
