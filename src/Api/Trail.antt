-- ===== src/Api/Trail.antt =====
-- What the audit trail keeps of a request to a route under /api/v1.
use amankan.Prelude.{
  ℕ, ◌≤◌, ◌<◌, code, String, ◌≡◌, refl, ap, ◌∙◌, subst, ◌⊎◌, inl, inr, true, false, none, some,
  arith, ◌==◌, ltb, [], ◌∷◌, ◌++◌, Bool-cases, Option-cases, String-cases, ltb→lt,
}
use amankan.Http.{Request, Writer, Handler}
use amankan.Auth.Roles.{Role, Principal, rank, role_string}
use amankan.Auth.{
  Authenticator, lookup, bearer, write_error, authenticate, check_role, require,
  principal_from_request,
}
use amankan.Audit.{Platform, Entry, genesis_hash, last_hash}
use amankan.Audit.Log.{
  AuditLog, Outcome, append_audit, fails, commits, begin, lock, read, insert, commit, row, stamped,
}
use amankan.Api.{is_mutating, entry_of, audited, serve}

preflight-reads : is_mutating "OPTIONS" ≡ false
unfolding is_mutating
preflight-reads = refl

-- An error answer is recorded with its status.
recorded-write_error :
    (w : Writer) (code : ℕ) (msg : String) → (write_error w code msg).recorded ≡ code
unfolding write_error
recorded-write_error w code msg = refl

mutating-not_preflight : (m : String) → is_mutating m ≡ true → (m == "OPTIONS") ≡ false
mutating-not_preflight m h = elim (String-cases m "OPTIONS") [
  | inl e ↦ cc (preflight-reads, subst (λ t. is_mutating t ≡ true) e h)
  | inr e ↦ e
]

module _ {S : Type 0} (p : Platform) (o : Outcome) (now : ℕ) (a : Authenticator) (min : Role)
    (next : Handler S) (w : Writer) (r : Request) (log : AuditLog) (s : S) where
  -- The request as the principal makes it, and a writer whose status is recorded.
  abbrev made_by : Principal → Request
  made_by q = record r { principal = some q }

  abbrev recording : Writer
  recording = record w { recorded = 200 }

  serve-known :
      (q : Principal)
      → a.enabled ≡ true
      → is_mutating r.method ≡ true
      → lookup a (bearer r) ≡ some q
      → serve p o now a min next w r (log, s) ≡ (
          let (w', s') = check_role min next recording (made_by q) s in
          (w', ((append_audit p o now (entry_of (made_by q) w'.recorded) log).2, s')))
  unfolding serve authenticate audited require
  serve-known q on mutating known =
      simp (on, mutating, known, mutating-not_preflight r.method mutating)

  serve-unknown :
      a.enabled ≡ true
      → is_mutating r.method ≡ true
      → lookup a (bearer r) ≡ none
      → serve p o now a min next w r (log, s)
        ≡ (write_error w 401 "missing or invalid API key", (log, s))
  unfolding serve authenticate
  serve-unknown on mutating unknown = simp (on, unknown, mutating-not_preflight r.method mutating)

  check_role-low :
      (q : Principal)
      → ltb (rank q.role) (rank min) ≡ true
      → ((check_role min next recording (made_by q) s).0.recorded ≡ 403)
        × ((check_role min next recording (made_by q) s).1 ≡ s)
  unfolding check_role
  check_role-low q low = rw low (recorded-write_error recording 403 _, refl)

  check_role-high :
      (q : Principal)
      → ltb (rank q.role) (rank min) ≡ false
      → check_role min next recording (made_by q) s ≡ next recording (made_by q) s
  unfolding check_role
  check_role-high q high = rw high refl

  -- The three ways a mutating request can go, with the append that each leads to.
  serve_cases :
      a.enabled ≡ true
      → is_mutating r.method ≡ true
      → ((lookup a (bearer r) ≡ none)
          × (serve p o now a min next w r (log, s)
              ≡ (write_error w 401 "missing or invalid API key", (log, s))))
        ⊎ ((q : Principal) × (lookup a (bearer r) ≡ some q)
            × (rank q.role < rank min)
            × ((serve p o now a min next w r (log, s)).0.recorded ≡ 403)
            × ((serve p o now a min next w r (log, s)).1
                ≡ ((append_audit p o now (entry_of (made_by q) 403) log).2, s)))
        ⊎ ((q : Principal) × (lookup a (bearer r) ≡ some q)
            × (rank min ≤ rank q.role)
            × (serve p o now a min next w r (log, s) ≡ (
                let (w', s') = next recording (made_by q) s in
                (w', ((append_audit p o now (entry_of (made_by q) w'.recorded) log).2, s')))))
  serve_cases on mutating = elim (Option-cases (lookup a (bearer r))) [
    | inl unknown ↦ inl (unknown, serve-unknown on mutating unknown)
    | inr (q, known) ↦ elim (Bool-cases (ltb (rank q.role) (rank min))) [
      | inl low ↦ inr (
          inl (
            q,
            known,
            ltb→lt _ _ low,
            ap (λ out. out.0.recorded) (serve-known q on mutating known) ∙ (check_role-low q low).0,
            (let (code, kept) = check_role-low q low in
                ap (λ out. out.1) (serve-known q on mutating known) ∙ rw (code, kept) refl),
          ))
      | inr high ↦ inr (
          inr (
            q,
            known,
            ground arith,
            serve-known q on mutating known ∙ rw (check_role-high q high) refl,
          ))
    ]
  ]

  -- What the log has after the request: one row more, of the principal and of this request and
  -- status, if the append commits, and no row more if it fails.
  abbrev pub Recorded : Outcome → Principal → ℕ → AuditLog → Type 0
  Recorded (fails stage) q status after = after.rows ≡ log.rows
  Recorded commits q status after =
      (entry : Entry) × (after.rows ≡ log.rows ++ entry ∷ [])
      × (entry.actor ≡ q.id)
      × (entry.role ≡ role_string q.role)
      × (entry.method ≡ r.method)
      × (entry.path ≡ r.path)
      × (entry.status ≡ status)
      × (entry.remote_ip ≡ r.remote_addr)
      × (entry.ts ≡ p.stored_ts now)
      × (entry.prev_hash ≡ last_hash genesis_hash log.rows)

  -- What the request leads to where its principal is known.
  append-Recorded :
      (q : Principal) (status : ℕ)
      → Recorded o q status (append_audit p o now (entry_of (made_by q) status) log).2
  unfolding append_audit row stamped entry_of principal_from_request
  append-Recorded q status =
      elim o
        as (λ o'.
          Recorded o' q status (append_audit p o' now (entry_of (made_by q) status) log).2) [
            | commits ↦ (_, refl, refl, refl, refl, refl, refl, refl, refl, refl)
            | fails begin ↦ refl
            | fails lock ↦ refl
            | fails read ↦ refl
            | fails insert ↦ refl
            | fails commit ↦ refl
          ]

  -- With authentication on, a mutating request goes one of three ways. If its secret is unknown, it
  -- is answered with 401 and changes neither the state nor the log. If its principal's role is below
  -- the route's, it is answered with 403 and changes no state; if not, it has the handler's answer
  -- and state. In the last two the log has exactly one row more if the append commits, with the
  -- principal's identifier and role, the request's method, path and address, and the status that was
  -- recorded of the answer, and no row more if the append fails.
  pub audit_trail :
      a.enabled ≡ true
      → is_mutating r.method ≡ true
      → let end = serve p o now a min next w r (log, s) in
        ((lookup a (bearer r) ≡ none)
          × (end ≡ (write_error w 401 "missing or invalid API key", (log, s))))
        ⊎ ((q : Principal) × (lookup a (bearer r) ≡ some q)
            × (rank q.role < rank min)
            × (end.0.recorded ≡ 403)
            × (end.1.1 ≡ s)
            × Recorded o q 403 end.1.0)
        ⊎ ((q : Principal) × (lookup a (bearer r) ≡ some q)
            × (rank min ≤ rank q.role)
            × (end.0 ≡ (next recording (made_by q) s).0)
            × (end.1.1 ≡ (next recording (made_by q) s).1)
            × Recorded o q end.0.recorded end.1.0)
  audit_trail on mutating = elim (serve_cases on mutating) [
    | inl unknown ↦ inl unknown
    | inr (inl (q, known, low, code, e)) ↦
        inr (inl (q, known, low, code, ap (λ out. out.1) e, rw e (append-Recorded q 403)))
    | inr (inr (q, known, high, e)) ↦ inr (
        inr (
          q,
          known,
          high,
          ap (λ out. out.0) e,
          ap (λ out. out.1.1) e,
          rw e (append-Recorded q (next recording (made_by q) s).0.recorded),
        ))
  ]
