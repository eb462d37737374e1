-- ===== src/Audit/Tamper.antt =====
-- What the hash chain protects: two logs that verify and end in one hash hold the same records,
-- unless SHA-256 collides; and what it does not, since the separator is not escaped.
use Prim.Native.String.{◌++◌ as append}
use amankan.Prelude.{
  String, ◌≡◌, refl, sym, ap, ◌∙◌, subst, ◌⊎◌, inl, inr, true, List, [], ◌∷◌, ◌++◌, arith, eq_iff,
  String-cases, length, All,
}
use amankan.Audit.{
  Platform, Entry, genesis_hash, canonical, hash, verify_from, verify_chain, IsChain, Collision,
  last_hash,
}
use amankan.Audit.Canonical.{IsPlain, SameContent, canonical_inj, canonical-shift}
use amankan.Audit.Chain.{verify_chain_iff}

module _ (p : Platform) where
  -- No field before the last one of any record holds the separator.
  abbrev pub IsPlainLog : List Entry → Type 0
  IsPlainLog es = All (λ e. IsPlain p e.prev_hash e) es

  -- The logs agree record by record.
  abbrev pub SameContents : List Entry → List Entry → Type 0
  SameContents [] [] = Unit
  SameContents [] (f ∷ fs) = ⊥
  SameContents (e ∷ es) [] = ⊥
  SameContents (e ∷ es) (f ∷ fs) = SameContent p e f × SameContents es fs

  chains_agree :
      (prev prev' : String) (es fs : List Entry)
      → IsChain p prev es
      → IsChain p prev' fs
      → IsPlainLog es
      → IsPlainLog fs
      → length es ≡ length fs
      → last_hash prev es ≡ last_hash prev' fs
      → Collision p ⊎ ((prev ≡ prev') × SameContents es fs)
  chains_agree prev prev' [] [] ce cf pe pf n same = inr (same, tt)
  chains_agree prev prev' [] (f ∷ fs) ce cf pe pf n same = absurd (omega arith)
  chains_agree prev prev' (e ∷ es) [] ce cf pe pf n same = absurd (omega arith)
  chains_agree prev prev' (e ∷ es) (f ∷ fs) ce cf pe pf n same =
      elim (chains_agree e.hash f.hash es fs ce.1 cf.1 pe.1 pf.1 (omega arith) same) [
        | inl clash ↦ inl clash
        | inr (hashes, rest) ↦ elim (String-cases (canonical p prev e) (canonical p prev' f)) [
          | inl text ↦
              let (link, content) =
                canonical_inj p prev prev' e f (subst (λ l. IsPlain p l e) ce.0.0 pe.0)
                  (subst (λ l. IsPlain p l f) cf.0.0 pf.0) text in
              inr (link, (content, rest))
          | inr other ↦ inl (
            canonical p prev e,
            canonical p prev' f,
            λ t. cc (other, (eq_iff _ _).1 t),
            unfold hash in ce.0.1 ∙ hashes ∙ sym cf.0.1,
          )
        ]
      ]

  -- Tamper evidence: of two logs of one length that both verify and end in the same hash, with no
  -- separator in any field before the last, every record agrees in timestamp, actor, role, method,
  -- path, status and address, or two different texts with one SHA-256 are at hand.
  pub tamper_evident :
      (es fs : List Entry)
      → IsPlainLog es
      → IsPlainLog fs
      → (verify_chain p es).0 ≡ true
      → (verify_chain p fs).0 ≡ true
      → length es ≡ length fs
      → last_hash genesis_hash es ≡ last_hash genesis_hash fs
      → Collision p ⊎ SameContents es fs
  tamper_evident es fs pe pf ve vf n same =
      elim (chains_agree genesis_hash genesis_hash es fs ((verify_chain_iff p es).0 ve)
        ((verify_chain_iff p fs).0 vf) pe pf n same) [
          | inl clash ↦ inl clash
          | inr (_, content) ↦ inr content
        ]

  verify_from-front :
      (front xs ys : List Entry)
      → ((prev : String) → verify_from p prev xs ≡ verify_from p prev ys)
      → (prev : String) → verify_from p prev (front ++ xs) ≡ verify_from p prev (front ++ ys)
  unfolding verify_from
  verify_from-front [] xs ys h prev = h prev
  verify_from-front (e ∷ front) xs ys h prev = rw (verify_from-front front xs ys h e.hash)

  verify_from-eq :
      (prev : String) (e f : Entry) (back : List Entry)
      → e.prev_hash ≡ f.prev_hash
      → e.hash ≡ f.hash
      → e.seq ≡ f.seq
      → hash p prev e ≡ hash p prev f
      → verify_from p prev (e ∷ back) ≡ verify_from p prev (f ∷ back)
  unfolding verify_from
  verify_from-eq prev e f back link own seq sum = simp (link, own, seq, sum)

  -- Moving a part of one record's actor that stands behind a separator into its role changes
  -- nothing that VerifyChain answers, wherever the record stands in the log.
  pub verify_chain-shift :
      (front back : List Entry) (e : Entry) (a b c : String)
      → verify_chain p (front ++ record e { actor = append a (append "|" b); role = c } ∷ back)
        ≡ verify_chain p (front ++ record e { actor = a; role = append b (append "|" c) } ∷ back)
  unfolding verify_chain
  verify_chain-shift front back e a b c =
      verify_from-front front (record e { actor = append a (append "|" b); role = c } ∷ back)
        (record e { actor = a; role = append b (append "|" c) } ∷ back)
        (λ prev.
          verify_from-eq prev (record e { actor = append a (append "|" b); role = c })
            (record e { actor = a; role = append b (append "|" c) }) back refl refl refl
            (unfold hash in ap p.sha256_hex (canonical-shift p prev e a b c)))
        genesis_hash
