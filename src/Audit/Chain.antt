-- ===== src/Audit/Chain.antt =====
-- What VerifyChain decides: its verdict is the chain property, and the number that it reports is
-- that of the first entry that does not link.
use amankan.Prelude.{
  ℕ, String, ◌≡◌, refl, ap, ◌↔◌, inl, inr, Bool, true, false, List, [], ◌∷◌, ◌++◌, arith, eq_iff,
  String-cases,
}
use amankan.Audit.{
  Platform, Entry, genesis_hash, hash, verify_from, verify_chain, IsLinked, IsChain, last_hash,
}

module _ (p : Platform) where
  verify_from_sound :
      (prev : String) (es : List Entry) → (verify_from p prev es).0 ≡ true → IsChain p prev es
  unfolding verify_from
  verify_from_sound prev [] h = tt
  verify_from_sound prev (e ∷ es) h =
      let linked : e.prev_hash ≡ prev = ground (arith, eq_iff e.prev_hash prev) in
      let hashed : hash p prev e ≡ e.hash = ground (arith, eq_iff (hash p prev e) e.hash) in
      ((linked, hashed), verify_from_sound e.hash es (ground arith))

  verify_from_complete :
      (prev : String) (es : List Entry) → IsChain p prev es → verify_from p prev es ≡ (true, 0)
  unfolding verify_from
  verify_from_complete prev [] h = refl
  verify_from_complete prev (e ∷ es) h = ground (
    arith,
    eq_iff e.prev_hash prev,
    eq_iff (hash p prev e) e.hash,
    h.0.0,
    h.0.1,
    verify_from_complete e.hash es h.1,
  )

  -- A run of entries that link, then one that does not.
  abbrev pub BreaksAt : String → List Entry → ℕ → Type 0
  BreaksAt prev es n =
      (front : List Entry) × (e : Entry) × (back : List Entry) × (es ≡ front ++ e ∷ back)
      × IsChain p prev front
      × (¬ IsLinked p (last_hash prev front) e)
      × (e.seq ≡ n)

  verify_from_breaks :
      (prev : String) (es : List Entry) (n : ℕ)
      → verify_from p prev es ≡ (false, n)
      → BreaksAt prev es n
  unfolding verify_from
  verify_from_breaks prev [] n h = cc (ap (λ (r : Bool × ℕ). r.0) h)
  verify_from_breaks prev (e ∷ es) n h = elim (String-cases e.prev_hash prev) [
    | inr other ↦
        ([], e, es, refl, tt, λ l. cc (other, (eq_iff e.prev_hash prev).1 l.0), ground arith)
    | inl linked ↦ elim (String-cases (hash p prev e) e.hash) [
      | inr other ↦ (
        [],
        e,
        es,
        refl,
        tt,
        λ l. cc (other, (eq_iff (hash p prev e) e.hash).1 l.1),
        ground (arith, (eq_iff e.prev_hash prev).1 linked),
      )
      | inl hashed ↦
          let r = verify_from_breaks e.hash es n (
            ground (
              arith,
              (eq_iff e.prev_hash prev).1 linked,
              (eq_iff (hash p prev e) e.hash).1 hashed,
            )) in
          (e ∷ r.0, r.1, r.2, ap (λ (l : List Entry). e ∷ l) r.3, ((linked, hashed), r.4), r.5, r.6)
    ]
  ]

  -- VerifyChain answers true exactly on the logs whose every entry links to the one before it, the
  -- first to GENESIS, and carries the hash of its own content.
  pub verify_chain_iff :
      (es : List Entry) → ((verify_chain p es).0 ≡ true) ↔ IsChain p genesis_hash es
  unfolding verify_chain
  verify_chain_iff es = (
    verify_from_sound genesis_hash es,
    λ h. ap (λ (r : Bool × ℕ). r.0) (verify_from_complete genesis_hash es h),
  )

  -- When VerifyChain answers false with a sequence number, the log is a front that verifies, then
  -- an entry with that number that does not link to the front or does not carry its own hash.
  pub verify_chain_breaks :
      (es : List Entry) (n : ℕ) → verify_chain p es ≡ (false, n) → BreaksAt genesis_hash es n
  unfolding verify_chain
  verify_chain_breaks es n h = verify_from_breaks genesis_hash es n h

pub IsChain-append :
    (p : Platform) (prev : String) (es fs : List Entry)
    → IsChain p prev es
    → IsChain p (last_hash prev es) fs
    → IsChain p prev (es ++ fs)
IsChain-append p prev [] fs h k = k
IsChain-append p prev (e ∷ es) fs h k = (h.0, IsChain-append p e.hash es fs h.1 k)

IsChain-front :
    (p : Platform) (prev : String) (es fs : List Entry)
    → IsChain p prev (es ++ fs)
    → IsChain p prev es
IsChain-front p prev [] fs h = tt
IsChain-front p prev (e ∷ es) fs h = (h.0, IsChain-front p e.hash es fs h.1)

-- Deleting the newest entries of a log that verifies leaves a log that verifies: VerifyChain does
-- not detect truncation.
pub verify_chain-truncated :
    (p : Platform) (es fs : List Entry)
    → (verify_chain p (es ++ fs)).0 ≡ true
    → (verify_chain p es).0 ≡ true
verify_chain-truncated p es fs h =
    (verify_chain_iff p es).1
      (IsChain-front p genesis_hash es fs ((verify_chain_iff p (es ++ fs)).0 h))
