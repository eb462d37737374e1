-- ===== src/Audit/Concurrent.antt =====
-- AppendAudit run by any number of writers at once. A writer takes the advisory lock, reads the
-- newest hash, and inserts and commits its row, which releases the lock; it may also fail at any
-- point, which rolls back and releases the lock.
use mathlib.Core.Option.{some-injective}
use mathlib.Core.Logic.{ite, if_pos, if_neg}
use native.Mathlib.Decide.{ℕ_discrete}
use amankan.Prelude.{
  ℕ, ◌+◌, String, ◌≡◌, refl, sym, ap, ◌∙◌, ◌≢◌, ◌⊎◌, inl, inr, true, Option, none, some, List, [],
  ◌∷◌, ◌++◌,
}
use amankan.Audit.{Platform, Entry, genesis_hash, canonical, hash, verify_chain, IsChain, last_hash}
use amankan.Audit.Chain.{IsChain-append, verify_chain_iff}
use amankan.Audit.Log.{AuditLog, empty_log}

-- Where a writer stands: outside the transaction, holding the lock, or with the hash that it read.
pub data Writer : Type 0 where
  idle locked : Writer
  linked : String → Writer

pub record System : Type 0 where
  pub log : AuditLog
  pub holder : Option ℕ
  pub writer : ℕ → Writer

abbrev pub update : (ℕ → Writer) → ℕ → Writer → ℕ → Writer
update f i w j = ite (ℕ_discrete i j) w (f j)

module _ (p : Platform) where
  -- The row that a writer inserts: its link is the hash that it read, which another writer could
  -- have made stale if the lock did not hold.
  unfoldable pub written : String → ℕ → ℕ → Entry → Entry
  written prev seq now e =
      let e' = record e { ts = now; prev_hash = prev } in
      record e' { hash = hash p prev e'; seq = seq; ts = p.stored_ts now }

  pub data Step (s : System) : System → Type 0 where
    -- pg_advisory_xact_lock, which waits until nobody holds the lock
    acquire :
        (i : ℕ)
        → s.writer i ≡ idle
        → s.holder ≡ none
        → Step s (record s { holder = some i; writer = update s.writer i locked })
    -- SELECT hash … ORDER BY seq DESC LIMIT 1
    read :
        (i : ℕ)
        → s.writer i ≡ locked
        → Step s
            (record s { writer = update s.writer i (linked (last_hash genesis_hash s.log.rows)) })
    -- INSERT, and the commit that makes the row visible and releases the lock
    commit :
        (i : ℕ) (prev : String) (now : ℕ) (e : Entry)
        → s.writer i ≡ linked prev
        → Step s (record {
          log = record {
            rows = s.log.rows ++ written prev s.log.next_seq now e ∷ [];
            next_seq = s.log.next_seq + 1;
          };
          holder = none;
          writer = update s.writer i idle;
        })
    -- a failed call: the transaction is rolled back; it may have used up a sequence number
    rollback :
        (i burnt : ℕ)
        → s.writer i ≢ idle
        → Step s (record {
          log = record (s.log) { next_seq = s.log.next_seq + burnt };
          holder = none;
          writer = update s.writer i idle;
        })

  pub data Reach (s : System) : System → Type 0 where
    start : Reach s s
    later : {t u : System} → Reach s t → Step t u → Reach s u

  -- The time of every record that was committed is one that the TIMESTAMPTZ column keeps exactly.
  abbrev pub AreExact : {s t : System} → Reach s t → Type 0
  AreExact start = Unit
  AreExact (later r (acquire i free none_holds)) = AreExact r
  AreExact (later r (read i held)) = AreExact r
  AreExact (later r (commit i prev now e held)) = (p.stored_ts now ≡ now) × AreExact r
  AreExact (later r (rollback i burnt busy)) = AreExact r

  -- Only the holder is in a transaction, and a hash that it has read is still the newest one.
  pub record IsSerial (s : System) : Type 0 where
    pub exclusive : (i : ℕ) → s.writer i ≢ idle → s.holder ≡ some i
    pub fresh :
        (i : ℕ) (prev : String)
        → s.writer i ≡ linked prev
        → prev ≡ last_hash genesis_hash s.log.rows

update_cases :
    (f : ℕ → Writer) (i : ℕ) (w : Writer) (j : ℕ)
    → ((i ≡ j) × (update f i w j ≡ w)) ⊎ ((i ≢ j) × (update f i w j ≡ f j))
update_cases f i w j = elim (ℕ_discrete i j) [
  | yes e ↦ inl (e, if_pos (ℕ_discrete i j) e w (f j))
  | no n ↦ inr (n, if_neg (ℕ_discrete i j) n w (f j))
]

linked_inj : {a b : String} → linked a ≡ linked b → a ≡ b
linked_inj e = cc e

abbrev pub quiet : System
quiet = record { log = empty_log; holder = none; writer = λ _. idle }

module _ (p : Platform) where
  IsSerial-quiet : IsSerial p quiet
  IsSerial-quiet = record { exclusive = λ i h. absurd (h refl); fresh = λ i prev h. cc }

  written-IsChain :
      (rows : List Entry) (prev : String) (seq now : ℕ) (e : Entry)
      → prev ≡ last_hash genesis_hash rows
      → p.stored_ts now ≡ now
      → IsChain p genesis_hash rows
      → IsChain p genesis_hash (rows ++ written p prev seq now e ∷ [])
  unfolding written hash canonical
  written-IsChain rows prev seq now e fresh exact chain =
      IsChain-append p genesis_hash rows _ chain ((fresh, rw (exact, ← fresh) refl), tt)

  -- Two writers that are both in a transaction are one.
  only : {s : System} → IsSerial p s → (i j : ℕ) → s.writer i ≢ idle → s.writer j ≢ idle → i ≡ j
  only inv i j hi hj = some-injective i j (sym (inv.exclusive i hi) ∙ inv.exclusive j hj)

  -- After a writer has left its transaction every writer is outside.
  all_out :
      {s : System}
      → IsSerial p s
      → (i j : ℕ) → s.writer i ≢ idle
      → update s.writer i idle j ≢ idle
      → ⊥
  all_out {s} inv i j hi h = elim (update_cases s.writer i idle j) [
    | inl (_, out) ↦ h out
    | inr (other, same) ↦ other (only inv i j hi (λ e. h (same ∙ e)))
  ]

  Step-IsSerial : {s t : System} → Step p s t → IsSerial p s → IsSerial p t
  Step-IsSerial {s} (acquire i free none_holds) inv = record {
    exclusive = λ j h. elim (update_cases s.writer i locked j) [
      | inl (e, _) ↦ ap some e
      | inr (_, same) ↦ cc (none_holds, inv.exclusive j (λ e. h (same ∙ e)))
    ];
    fresh = λ j prev h. elim (update_cases s.writer i locked j) [
      | inl (_, now) ↦ cc (now, h)
      | inr (_, same) ↦ inv.fresh j prev (sym same ∙ h)
    ];
  }
  Step-IsSerial {s} (read i held) inv = record {
    exclusive = λ j h.
        elim (update_cases s.writer i (linked (last_hash genesis_hash s.log.rows)) j) [
          | inl (e, _) ↦ inv.exclusive j (λ out. cc (held, out, e))
          | inr (_, same) ↦ inv.exclusive j (λ e. h (same ∙ e))
        ];
    fresh = λ j prev h.
        elim (update_cases s.writer i (linked (last_hash genesis_hash s.log.rows)) j) [
          | inl (_, now) ↦ linked_inj (sym h ∙ now)
          | inr (_, same) ↦ inv.fresh j prev (sym same ∙ h)
        ];
  }
  Step-IsSerial {s} (commit i prev now e held) inv = record {
    exclusive = λ j h. absurd (all_out inv i j (λ out. cc (held, out)) h);
    fresh = λ j prev' h. absurd (all_out inv i j (λ out. cc (held, out)) (λ out. cc (h, out)));
  }
  Step-IsSerial {s} (rollback i burnt busy) inv = record {
    exclusive = λ j h. absurd (all_out inv i j busy h);
    fresh = λ j prev h. absurd (all_out inv i j busy (λ out. cc (h, out)));
  }

  Reach-IsSerial : {s t : System} → IsSerial p s → Reach p s t → IsSerial p t
  Reach-IsSerial inv start = inv
  Reach-IsSerial inv (later r st) = Step-IsSerial st (Reach-IsSerial inv r)

  Reach-IsChain :
      {s t : System} (r : Reach p s t)
      → IsSerial p s
      → IsChain p genesis_hash s.log.rows
      → AreExact p r
      → IsChain p genesis_hash t.log.rows
  Reach-IsChain start inv chain exact = chain
  Reach-IsChain (later r (acquire i free none_holds)) inv chain exact =
      Reach-IsChain r inv chain exact
  Reach-IsChain (later r (read i held)) inv chain exact = Reach-IsChain r inv chain exact
  Reach-IsChain (later {t} r (commit i prev now e held)) inv chain exact =
      written-IsChain t.log.rows prev t.log.next_seq now e
        ((Reach-IsSerial inv r).fresh i prev held) exact.0 (Reach-IsChain r inv chain exact.1)
  Reach-IsChain (later r (rollback i burnt busy)) inv chain exact = Reach-IsChain r inv chain exact

  -- However many writers append at once, and however their calls interleave and fail, no two of
  -- them are in a transaction together, the hash that each has read is still the newest one, and
  -- VerifyChain accepts the table, provided that the time of every committed record is one that
  -- the column keeps exactly.
  pub serial_appends :
      (s : System) (r : Reach p quiet s)
      → AreExact p r
      → ((i j : ℕ) → s.writer i ≢ idle → s.writer j ≢ idle → i ≡ j)
        × ((i : ℕ) (prev : String)
            → s.writer i ≡ linked prev
            → prev ≡ last_hash genesis_hash s.log.rows)
        × ((verify_chain p s.log.rows).0 ≡ true)
  serial_appends s r exact =
      let inv = Reach-IsSerial IsSerial-quiet r in
      (
        only inv,
        inv.fresh,
        (verify_chain_iff p s.log.rows).1 (Reach-IsChain r IsSerial-quiet tt exact),
      )
