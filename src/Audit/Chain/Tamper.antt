-- ===== src/Audit/Chain/Tamper.antt =====
-- What the last hash of a verified chain says about all of its rows.
use airport_inspection_platf.Prelude.Json.{Json}
use airport_inspection_platf.Audit.Chain.{
  ChainEntry, canonical, compute_entry_hash, genesis_prev_hash, hashed_text, verify_chain,
}
use airport_inspection_platf.Prelude.{
  List, String, [], arith, inl, inr, length, none, refl, str_dec, sym, ◌∙◌, ◌∷◌, ◌≡◌, ◌≢◌, ◌⊎◌,
}
use text.Mathlib.TextLemmas.{append_inj}
use Prim.Native.String.{count}
use airport_inspection_platf.Audit.Chain.Links.{IsChain, tip, verify_from-IsChain}

module _ (sha256 : String → String) (stringify : Json → String) where
  -- The same canonical text and the same hash, row by row.
  abbrev pub SameRows : List ChainEntry → List ChainEntry → Type 0
  SameRows [] [] = Unit
  SameRows [] (f ∷ fs) = ⊥
  SameRows (e ∷ es) [] = ⊥
  SameRows (e ∷ es) (f ∷ fs) =
      (canonical sha256 stringify e.row ≡ canonical sha256 stringify f.row)
      × (e.entry_hash ≡ f.entry_hash)
      × SameRows es fs

  -- At some position the two chains hashed different texts to one digest.
  abbrev pub Collides : String → List ChainEntry → String → List ChainEntry → Type 0
  Collides p [] q fs = ⊥
  Collides p (e ∷ es) q [] = ⊥
  Collides p (e ∷ es) q (f ∷ fs) =
      ((hashed_text sha256 stringify p e.row ≢ hashed_text sha256 stringify q f.row)
        × (sha256 (hashed_text sha256 stringify p e.row)
            ≡ sha256 (hashed_text sha256 stringify q f.row)))
      ⊎ Collides e.entry_hash es f.entry_hash fs

  module _ (digest_length : (s : String) → count (sha256 s) ≡ 64) where
    same_rows :
        (p q : String) (es fs : List ChainEntry)
        → count p ≡ count q
        → IsChain sha256 stringify p es
        → IsChain sha256 stringify q fs
        → length es ≡ length fs
        → tip p es ≡ tip q fs
        → ((p ≡ q) × SameRows es fs) ⊎ Collides p es q fs
    unfolding compute_entry_hash
    same_rows p q [] [] c h k n t = inl (t, tt)
    same_rows p q [] (f ∷ fs) c h k n t = absurd (omega arith)
    same_rows p q (e ∷ es) [] c h k n t = absurd (omega arith)
    same_rows p q (e ∷ es) (f ∷ fs) c (l, h) (m, k) n t =
        let digests : count e.entry_hash ≡ count f.entry_hash =
          rw (l.hashed, m.hashed)
            (digest_length (hashed_text sha256 stringify p e.row)
              ∙ sym (digest_length (hashed_text sha256 stringify q f.row))) in
        elim (same_rows e.entry_hash f.entry_hash es fs digests h k (omega arith) t) [
          | inr z ↦ inr (inr z)
          | inl (d, rest) ↦
              elim (str_dec (hashed_text sha256 stringify p e.row)
                (hashed_text sha256 stringify q f.row)) [
                  | no x ↦ inr (inl (x, sym l.hashed ∙ d ∙ m.hashed))
                  | yes x ↦ let r = append_inj x c in inl (r.0, (r.1, d, rest))
                ]
        ]

    -- Two tables of the same number of rows that `verifyChain` both accepts, and whose last hashes
    -- agree, agree in the canonical text and the hash of every row; or else some row of the first
    -- and the row of the same place in the second are a collision of SHA-256, found by comparing
    -- them. A digest has 64 characters.
    pub tamper_evident :
        (es fs : List ChainEntry)
        → verify_chain sha256 stringify es ≡ none
        → verify_chain sha256 stringify fs ≡ none
        → length es ≡ length fs
        → tip genesis_prev_hash es ≡ tip genesis_prev_hash fs
        → SameRows es fs ⊎ Collides genesis_prev_hash es genesis_prev_hash fs
    unfolding verify_chain
    tamper_evident es fs h k n t =
        elim (same_rows genesis_prev_hash genesis_prev_hash es fs refl
          (verify_from-IsChain sha256 stringify genesis_prev_hash es h)
          (verify_from-IsChain sha256 stringify genesis_prev_hash fs k) n t) [
            | inl r ↦ inl r.1
            | inr z ↦ inr z
          ]
