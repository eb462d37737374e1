-- ===== src/Audit/Log.antt =====
-- internal/store/audit.go: the audit table, the append under a transaction, and the listing.
use text.Mathlib.TextLemmas.{append_cancel_left, append_cancel_right}
use amankan.Prelude.{
  ℕ, zero, suc, ◌+◌, ◌-◌, ◌≤◌, String, ◌≡◌, refl, ap, ◌∙◌, ◌≢◌, ◌⊎◌, inl, inr, Bool, true, false,
  Option, none, some, List, [], ◌∷◌, ◌++◌, arith, eq_iff, ltb, if◌then◌else◌, String-cases,
  eq-false_of_ne, length, drop, length-drop, All,
}
use amankan.Prelude.Int.{ℤ, pos, negsuc}
use amankan.Audit.{
  Platform, Entry, genesis_hash, canonical, hash, verify_from, verify_chain, IsChain, Collision,
  last_hash,
}
use amankan.Audit.Chain.{IsChain-append, verify_chain_iff}

-- The table audit_log: its rows by ascending sequence number, and the number that BIGSERIAL gives
-- next.
pub record AuditLog : Type 0 where
  pub rows : List Entry
  pub next_seq : ℕ

abbrev pub empty_log : AuditLog
empty_log = record { rows = []; next_seq = 1 }

-- The call of the transaction that fails.
pub data Stage : Type 0 where
  begin lock read insert commit : Stage

pub data Outcome : Type 0 where
  fails : Stage → Outcome
  commits : Outcome

module _ (p : Platform) where
  -- `e` with its time, its link to the newest row, and its hash.
  unfoldable pub stamped : ℕ → Entry → AuditLog → Entry
  stamped now e log =
      let prev = last_hash genesis_hash log.rows in
      let e' = record e { ts = now; prev_hash = prev } in record e' { hash = hash p prev e' }

  -- The row as the table gives it back: the column keeps its own precision of the time.
  unfoldable pub row : ℕ → Entry → AuditLog → Entry
  unfolding stamped
  row now e log = record (stamped now e log) { seq = log.next_seq; ts = p.stored_ts now }

  -- AppendAudit: the stage whose error is returned, the entry as the caller has it afterwards, and
  -- the table. A failed insert or commit leaves a gap in the sequence numbers.
  unfoldable pub append_audit : Outcome → ℕ → Entry → AuditLog → Option Stage × Entry × AuditLog
  unfolding row stamped
  append_audit (fails begin) now e log = (some begin, e, log)
  append_audit (fails lock) now e log = (some lock, e, log)
  append_audit (fails read) now e log = (some read, e, log)
  append_audit (fails insert) now e log =
      (some insert, stamped now e log, record log { next_seq = log.next_seq + 1 })
  append_audit (fails commit) now e log = (
    some commit,
    record (stamped now e log) { seq = log.next_seq },
    record log { next_seq = log.next_seq + 1 },
  )
  append_audit commits now e log = (
    none,
    record (stamped now e log) { seq = log.next_seq },
    record { rows = log.rows ++ row now e log ∷ []; next_seq = log.next_seq + 1 },
  )

  -- A sequence of appends, each with its outcome and its time.
  unfoldable pub append_all : List (Outcome × ℕ × Entry) → AuditLog → AuditLog
  unfolding append_audit
  append_all [] log = log
  append_all ((o, now, e) ∷ rest) log = append_all rest (append_audit o now e log).2

-- ListAudit: the newest `limit` rows in ascending order.
unfoldable pub page_limit : ℤ → ℕ
page_limit (pos zero) = 200
page_limit (pos (suc n)) = if ltb 1000 (suc n) then 200 else suc n
page_limit (negsuc n) = 200

unfoldable pub list_audit : ℤ → AuditLog → List Entry
unfolding page_limit
list_audit limit log = drop (length log.rows - page_limit limit) log.rows

-- AllAuditForVerify
unfoldable pub all_audit_for_verify : AuditLog → List Entry
all_audit_for_verify log = log.rows

page_limit-le : (limit : ℤ) → page_limit limit ≤ 1000
unfolding page_limit
page_limit-le (pos zero) = omega arith
page_limit-le (pos (suc n)) = ground arith
page_limit-le (negsuc n) = omega arith

-- ListAudit returns the newest rows, as many as there are up to the limit, and never more than
-- 1000 whatever limit is asked for.
pub list_audit_bounds :
    (limit : ℤ) (log : AuditLog)
    → (page_limit limit ≤ 1000)
      × (length (list_audit limit log) ≤ page_limit limit)
      × (page_limit limit ≤ length log.rows → length (list_audit limit log) ≡ page_limit limit)
unfolding list_audit page_limit
list_audit_bounds limit log =
    let cap : page_limit limit ≤ 1000 = page_limit-le limit in
    let size = length-drop (length log.rows - page_limit limit) log.rows in
    (cap, omega (arith, size), λ h. omega (arith, size))

module _ (p : Platform) where
  row-IsChain :
      (now : ℕ) (e : Entry) (log : AuditLog)
      → p.stored_ts now ≡ now
      → IsChain p genesis_hash log.rows
      → IsChain p genesis_hash (log.rows ++ row p now e log ∷ [])
  unfolding row hash canonical
  row-IsChain now e log exact chain =
      IsChain-append p genesis_hash log.rows _ chain ((refl, rw exact refl), tt)

  pub append_audit-IsChain :
      (o : Outcome) (now : ℕ) (e : Entry) (log : AuditLog)
      → p.stored_ts now ≡ now
      → IsChain p genesis_hash log.rows
      → IsChain p genesis_hash (append_audit p o now e log).2.rows
  unfolding append_audit
  append_audit-IsChain (fails begin) now e log exact chain = chain
  append_audit-IsChain (fails lock) now e log exact chain = chain
  append_audit-IsChain (fails read) now e log exact chain = chain
  append_audit-IsChain (fails insert) now e log exact chain = chain
  append_audit-IsChain (fails commit) now e log exact chain = chain
  append_audit-IsChain commits now e log exact chain = row-IsChain now e log exact chain

  append_all-IsChain :
      (steps : List (Outcome × ℕ × Entry)) (log : AuditLog)
      → All (λ s. p.stored_ts s.1 ≡ s.1) steps
      → IsChain p genesis_hash log.rows
      → IsChain p genesis_hash (append_all p steps log).rows
  unfolding append_all
  append_all-IsChain [] log exact chain = chain
  append_all-IsChain ((o, now, e) ∷ rest) log exact chain =
      append_all-IsChain rest (append_audit p o now e log).2 exact.1
        (append_audit-IsChain o now e log exact.0 chain)

  -- From an empty table, after any sequence of appends, whatever stages fail, VerifyChain accepts
  -- what AllAuditForVerify reads back, provided that the time of each append is one that a
  -- TIMESTAMPTZ column keeps exactly.
  pub verify_chain-append_all :
      (steps : List (Outcome × ℕ × Entry))
      → All (λ s. p.stored_ts s.1 ≡ s.1) steps
      → (verify_chain p (all_audit_for_verify (append_all p steps empty_log))).0 ≡ true
  unfolding all_audit_for_verify
  verify_chain-append_all steps exact =
      (verify_chain_iff p (append_all p steps empty_log).rows).1
        (append_all-IsChain steps empty_log exact tt)

  verify_from-append :
      (prev : String) (es fs : List Entry)
      → IsChain p prev es
      → verify_from p prev (es ++ fs) ≡ verify_from p (last_hash prev es) fs
  unfolding verify_from
  verify_from-append prev [] fs chain = refl
  verify_from-append prev (e ∷ es) fs chain = ground (
    arith,
    (eq_iff e.prev_hash prev).1 chain.0.0,
    (eq_iff (hash p prev e) e.hash).1 chain.0.1,
    verify_from-append e.hash es fs chain.1,
  )

  verify_from-unhashed :
      (prev : String) (e : Entry)
      → e.prev_hash ≡ prev
      → hash p prev e ≢ e.hash
      → verify_from p prev (e ∷ []) ≡ (false, e.seq)
  unfolding verify_from
  verify_from-unhashed prev e link other =
      ground (arith, (eq_iff e.prev_hash prev).1 link, eq-false_of_ne (hash p prev e) e.hash other)

  row-differs :
      (now : ℕ) (e : Entry) (log : AuditLog)
      → p.format_ts (p.stored_ts now) ≢ p.format_ts now
      → canonical p (last_hash genesis_hash log.rows) (row p now e log)
        ≢ canonical p
            (last_hash genesis_hash log.rows)
            (record e { ts = now; prev_hash = last_hash genesis_hash log.rows })
  unfolding row canonical
  row-differs now e log other same =
      other (append_cancel_right _ _ _ (append_cancel_left _ _ _ (append_cancel_left _ _ _ same)))

  row-seq : (now : ℕ) (e : Entry) (log : AuditLog) → (row p now e log).seq ≡ log.next_seq
  unfolding row
  row-seq now e log = refl

  -- A record appended to a log that verifies, at a time whose printed form the column does not keep,
  -- is reported as broken at its own number by the next verification, with nobody having touched
  -- the table; or two different texts with one SHA-256 are at hand.
  pub append_audit-breaks :
      (now : ℕ) (e : Entry) (log : AuditLog)
      → (verify_chain p log.rows).0 ≡ true
      → p.format_ts (p.stored_ts now) ≢ p.format_ts now
      → Collision p
        ⊎ (verify_chain p (append_audit p commits now e log).2.rows ≡ (false, log.next_seq))
  unfolding append_audit verify_chain
  append_audit-breaks now e log chain other =
      let prev = last_hash genesis_hash log.rows in
      let sent = record e { ts = now; prev_hash = prev } in
      let kept = row p now e log in
      elim (String-cases (hash p prev kept) kept.hash) [
        | inl same ↦ inl (
          canonical p prev kept,
          canonical p prev sent,
          row-differs now e log other,
          unfold hash row in same,
        )
        | inr wrong ↦ inr (
            verify_from-append genesis_hash log.rows (kept ∷ [])
              ((verify_chain_iff p log.rows).0 chain)
            ∙ verify_from-unhashed prev kept (unfold row in refl)
                (λ t. cc (wrong, (eq_iff (hash p prev kept) kept.hash).1 t))
            ∙ ap (λ (n : ℕ). let r : Bool × ℕ = (false, n) in r) (row-seq now e log))
      ]
