-- ===== src/Audit/Chain/Links.antt =====
-- What `verifyChain` accepts, and where it says that a chain is broken.
use airport_inspection_platf.Prelude.Json.{Json}
use airport_inspection_platf.Audit.Chain.{
  ChainBreak, ChainEntry, compute_entry_hash, genesis_prev_hash, verify_chain, verify_from,
}
use airport_inspection_platf.Prelude.{
  List, Option, String, [], ap, arith, eq_iff, last?, last?-some, none, or_else, refl, some,
  str_dec, str_eq_ne, sym, ◌++◌, ◌↔◌, ◌∙◌, ◌∷◌, ◌≡◌,
}

module _ (sha256 : String → String) (stringify : Json → String) where
  -- The entry names the hash before it and carries the hash of that and its own row.
  pub record IsLinked (prev : String) (e : ChainEntry) : Type 0 where
    pub names_prev : or_else e.prev_hash genesis_prev_hash ≡ prev
    pub hashed : e.entry_hash ≡ compute_entry_hash sha256 stringify prev e.row

  abbrev pub IsChain : String → List ChainEntry → Type 0
  IsChain prev [] = Unit
  IsChain prev (e ∷ es) = IsLinked prev e × IsChain e.entry_hash es

-- The hash that the next entry has to name.
abbrev pub tip : String → List ChainEntry → String
tip prev [] = prev
tip prev (e ∷ es) = tip e.entry_hash es

module _ (sha256 : String → String) (stringify : Json → String) where
  first-IsLinked :
      (prev : String) (e : ChainEntry) (es : List ChainEntry)
      → verify_from sha256 stringify prev (e ∷ es) ≡ none
      → IsLinked sha256 stringify prev e × (verify_from sha256 stringify e.entry_hash es ≡ none)
  unfolding verify_from
  first-IsLinked prev e es h =
      let seen = or_else e.prev_hash genesis_prev_hash in
      let names : seen ≡ prev = ground (arith, eq_iff seen prev, h) in
      let hashes : e.entry_hash ≡ compute_entry_hash sha256 stringify seen e.row =
        ground (arith, eq_iff (compute_entry_hash sha256 stringify seen e.row) e.entry_hash) in
      (record { names_prev = names; hashed = rw names at hashes }, ground arith)

  skip_linked :
      (prev : String) (e : ChainEntry) (es : List ChainEntry)
      → IsLinked sha256 stringify prev e
      → verify_from sha256 stringify prev (e ∷ es) ≡ verify_from sha256 stringify e.entry_hash es
  unfolding verify_from
  skip_linked prev e es l =
      let seen = or_else e.prev_hash genesis_prev_hash in
      let named = (eq_iff seen prev).1 l.names_prev in
      let hashed : compute_entry_hash sha256 stringify seen e.row ≡ e.entry_hash =
        ap (λ p. compute_entry_hash sha256 stringify p e.row) l.names_prev ∙ sym l.hashed in
      let same = (eq_iff (compute_entry_hash sha256 stringify seen e.row) e.entry_hash).1 hashed in
      ground arith

  pub verify_from-IsChain :
      (prev : String) (es : List ChainEntry)
      → verify_from sha256 stringify prev es ≡ none
      → IsChain sha256 stringify prev es
  verify_from-IsChain prev [] h = tt
  verify_from-IsChain prev (e ∷ es) h =
      let (l, k) = first-IsLinked prev e es h in (l, verify_from-IsChain e.entry_hash es k)

  pub IsChain-verify_from :
      (prev : String) (es : List ChainEntry)
      → IsChain sha256 stringify prev es
      → verify_from sha256 stringify prev es ≡ none
  unfolding verify_from
  IsChain-verify_from prev [] h = refl
  IsChain-verify_from prev (e ∷ es) (l, h) =
      skip_linked prev e es l ∙ IsChain-verify_from e.entry_hash es h

  -- The walk stops at an entry that is not linked to the valid chain before it.
  pub record IsFirstBreak (prev : String) (es : List ChainEntry) (b : ChainBreak) : Type 0 where
    pub before : List ChainEntry
    pub broken : ChainEntry
    pub after : List ChainEntry
    pub split : es ≡ before ++ broken ∷ after
    pub sound_before : IsChain sha256 stringify prev before
    pub not_linked : ¬ IsLinked sha256 stringify (tip prev before) broken
    pub named : b.broken_at_event_id ≡ broken.row.event_id

  broken_here :
      (prev : String) (e : ChainEntry) (es : List ChainEntry) (b : ChainBreak)
      → ¬ IsLinked sha256 stringify prev e
      → verify_from sha256 stringify prev (e ∷ es) ≡ some b
      → b.broken_at_event_id ≡ e.row.event_id
  unfolding verify_from
  broken_here prev e es b n h =
      let seen = or_else e.prev_hash genesis_prev_hash in
      let recomputed = compute_entry_hash sha256 stringify seen e.row in
      elim (str_dec seen prev) [
        | no m ↦ let t = str_eq_ne seen prev m in ground arith
        | yes p ↦
            let t = (eq_iff seen prev).1 p in
            elim (str_dec recomputed e.entry_hash) [
              | no m ↦ let u = str_eq_ne recomputed e.entry_hash m in ground arith
              | yes q ↦ absurd (
                  n (record {
                    names_prev = p;
                    hashed = sym q ∙ ap (λ p. compute_entry_hash sha256 stringify p e.row) p;
                  }))
            ]
      ]

  IsLinked? : (prev : String) (e : ChainEntry) → Dec (IsLinked sha256 stringify prev e)
  IsLinked? prev e = elim (str_dec (or_else e.prev_hash genesis_prev_hash) prev) [
    | no n ↦ no (λ l. n l.names_prev)
    | yes p ↦ elim (str_dec e.entry_hash (compute_entry_hash sha256 stringify prev e.row)) [
      | no n ↦ no (λ l. n l.hashed)
      | yes q ↦ yes (record { names_prev = p; hashed = q })
    ]
  ]

  pub verify_from-IsFirstBreak :
      (prev : String) (es : List ChainEntry) (b : ChainBreak)
      → verify_from sha256 stringify prev es ≡ some b
      → IsFirstBreak prev es b
  unfolding verify_from
  verify_from-IsFirstBreak prev [] b h = absurd (cc)
  verify_from-IsFirstBreak prev (e ∷ es) b h = elim (IsLinked? prev e) [
    | yes l ↦
        let r = verify_from-IsFirstBreak e.entry_hash es b (sym (skip_linked prev e es l) ∙ h) in
        record {
          before = e ∷ r.before;
          broken = r.broken;
          after = r.after;
          split = ap (λ x. e ∷ x) r.split;
          sound_before = (l, r.sound_before);
          not_linked = r.not_linked;
          named = r.named;
        }
    | no n ↦ record {
      before = [];
      broken = e;
      after = es;
      split = refl;
      sound_before = tt;
      not_linked = n;
      named = broken_here prev e es b n h;
    }
  ]

  -- `verifyChain` accepts exactly the lists of entries that each name the hash before them and
  -- carry the hash of that and their own row.
  pub verify_chain_iff :
      (es : List ChainEntry)
      → (verify_chain sha256 stringify es ≡ none) ↔ IsChain sha256 stringify genesis_prev_hash es
  unfolding verify_chain
  verify_chain_iff es =
      (verify_from-IsChain genesis_prev_hash es, IsChain-verify_from genesis_prev_hash es)

  -- When `verifyChain` reports a break, that is at the first entry which is not linked to the valid
  -- chain before it, named by its event id.
  pub verify_chain-IsFirstBreak :
      (es : List ChainEntry) (b : ChainBreak)
      → verify_chain sha256 stringify es ≡ some b
      → IsFirstBreak genesis_prev_hash es b
  unfolding verify_chain
  verify_chain-IsFirstBreak es b h = verify_from-IsFirstBreak genesis_prev_hash es b h

  pub IsChain-append :
      (prev : String) (es : List ChainEntry) (e : ChainEntry)
      → IsChain sha256 stringify prev es
      → IsLinked sha256 stringify (tip prev es) e
      → IsChain sha256 stringify prev (es ++ e ∷ [])
  IsChain-append prev [] e h l = (l, tt)
  IsChain-append prev (d ∷ es) e (k, h) l = (k, IsChain-append d.entry_hash es e h l)

-- `?.entry_hash`
abbrev pub entry_hash_of : Option ChainEntry → Option String
entry_hash_of none = none
entry_hash_of (some e) = some e.entry_hash

pub last?-tip :
    (prev : String) (es : List ChainEntry) → or_else (entry_hash_of (last? es)) prev ≡ tip prev es
last?-tip prev [] = refl
last?-tip prev (e ∷ []) = refl
last?-tip prev (e ∷ f ∷ es) = last?-any _ _ f es ∙ last?-tip e.entry_hash (f ∷ es)
  where
    last?-any :
        (p q : String) (f : ChainEntry) (es : List ChainEntry)
        → or_else (entry_hash_of (last? (f ∷ es))) p ≡ or_else (entry_hash_of (last? (f ∷ es))) q
    last?-any p q f es = let (l, k) = last?-some f es in rw k refl
