-- ===== src/Audit/App/Verify.antt =====
-- services/audit-service/src/app.ts: what `POST /audit/verify` answers about a chain that verifies.
use Prim.Native.Nat.{Ordering}
use airport_inspection_platf.Prelude.{
  All, Bool, Bool-cases, List, Option, Option-cases, String, [], ap, arith, false, filter, fun_ext,
  if_false, if_true, inl, inr, leb, length, ltb, map, none, or_else, refl, some, some_eq, str_eq,
  str_eq_ne, subst, sym, take, take_all, true, ℕ, ◌&&◌, ◌<◌, ◌==◌, ◌∙◌, ◌∷◌, ◌≡◌, ◌≢◌,
}
use airport_inspection_platf.Prelude.Sort.{IsSorted, filter-IsSorted, insert, sort}
use airport_inspection_platf.Prelude.Json.{Json}
use airport_inspection_platf.Audit.Chain.{
  ChainBreak, ChainEntry, compute_entry_hash, genesis_prev_hash, verify_chain, verify_from,
}
use airport_inspection_platf.Audit.Chain.Links.{
  IsChain, IsChain-verify_from, IsLinked, tip, verify_from-IsChain,
}
use airport_inspection_platf.Audit.App.{
  AuditRow, at_least, at_most, oldest_first, range_of, seed_of, seeded, verification, verify_found,
  verify_range,
}

-- The table in the order of its sequence numbers, which only grow.
abbrev pub IsOrdered : List AuditRow → Type 0
IsOrdered = IsSorted oldest_first

abbrev pub entries : List AuditRow → List ChainEntry
entries rows = map (λ (row : AuditRow). row.entry) rows

insert_first :
    (x : AuditRow) (xs : List AuditRow)
    → All (λ y. oldest_first x y ≡ Ordering.lt) xs
    → insert oldest_first x xs ≡ x ∷ xs
unfolding insert
insert_first x [] h = refl
insert_first x (y ∷ ys) (p, h) = rw p refl

-- Sorting a table in its order changes nothing.
sort_ordered : (xs : List AuditRow) → IsOrdered xs → sort oldest_first xs ≡ xs
unfolding sort
sort_ordered [] s = refl
sort_ordered (x ∷ xs) (below, s) =
    ap (insert oldest_first x) (sort_ordered xs s) ∙ insert_first x xs below

pub range_of-filter :
    (from to : Option ℕ) (table : List AuditRow)
    → IsOrdered table
    → range_of from to table ≡ filter (λ row. at_least from row && at_most to row) table
unfolding range_of
range_of-filter from to table s = sort_ordered _ (filter-IsSorted oldest_first _ table s)

abbrev first? : List AuditRow → Option AuditRow
first? [] = none
first? (x ∷ xs) = some x

and_true : (b : Bool) → (b && true) ≡ b
and_true true = refl
and_true false = refl

range_of_later :
    (n : ℕ) (table : List AuditRow)
    → IsOrdered table
    → range_of (some n) none table ≡ filter (λ row. leb n row.seq) table
range_of_later n table s =
    range_of-filter (some n) none table s
    ∙ ap (λ p. filter p table) (fun_ext (λ row. and_true (leb n row.seq)))

module _ (sha256 : String → String) (stringify : Json → String) where
  abbrev pub Chained : String → List AuditRow → Type 0
  Chained prev rows = IsChain sha256 stringify prev (entries rows)

  seeded-IsLinked :
      (prev : String) (row : AuditRow)
      → IsLinked sha256 stringify prev row.entry
      → IsLinked sha256 stringify prev (seeded genesis_prev_hash row)
  seeded-IsLinked prev row l = record { names_prev = l.names_prev; hashed = l.hashed }

  none_at_most :
      (to : Option ℕ) (x : AuditRow) (xs : List AuditRow)
      → at_most to x ≡ false
      → All (λ y. oldest_first x y ≡ Ordering.lt) xs
      → filter (at_most to) xs ≡ []
  none_at_most to x [] e h = refl
  none_at_most none x (y ∷ ys) e h = cc
  none_at_most (some n) x (y ∷ ys) e (p, h) =
      let over : leb y.seq n ≡ false = ground arith in rw over (none_at_most (some n) x ys e h)

  -- Up to a bound, the entries of a chain are a chain.
  Chained-at_most :
      (to : Option ℕ) (prev : String) (rows : List AuditRow)
      → IsOrdered rows
      → Chained prev rows
      → IsChain sha256 stringify prev (map (seeded genesis_prev_hash) (filter (at_most to) rows))
  Chained-at_most to prev [] s c = tt
  Chained-at_most to prev (x ∷ xs) (below, s) (l, c) = elim (Bool-cases (at_most to x)) [
    | inl kept ↦ rw kept (seeded-IsLinked prev x l, Chained-at_most to x.entry.entry_hash xs s c)
    | inr over ↦ rw over (rw (none_at_most to x xs over below) tt)
  ]

  verify_found_few :
      (verify_max : ℕ) (seed : String) (found : List AuditRow)
      → length found < verify_max
      → verify_found sha256 stringify verify_max seed found
        ≡ verification (length found) (verify_chain sha256 stringify (map (seeded seed) found))
  unfolding verify_found
  verify_found_few verify_max seed found few =
      let whole : take verify_max found ≡ found = take_all verify_max found (omega arith) in
      let short : (length found == verify_max) ≡ false = ground arith in rw whole (rw short refl)

  -- A chain that verifies, asked about from its start up to any bound, is answered as verified, with the number of rows in the range, as long as the range has fewer rows than the most that one call scans.
  verify_range_verified :
      (verify_max : ℕ) (to : Option ℕ) (table : List AuditRow)
      → IsOrdered table
      → verify_chain sha256 stringify (entries table) ≡ none
      → length (range_of none to table) < verify_max
      → verify_range sha256 stringify verify_max none to table
        ≡ verification (length (range_of none to table)) none
  unfolding verify_range verify_chain
  verify_range_verified verify_max to table s v few =
      let chain = verify_from-IsChain sha256 stringify genesis_prev_hash (entries table) v in
      verify_found_few verify_max genesis_prev_hash (range_of none to table) few
      ∙ ap (verification (length (range_of none to table))) (
          ap
            (λ found.
              verify_from sha256 stringify genesis_prev_hash (map (seeded genesis_prev_hash) found))
            (range_of-filter none to table s)
          ∙ IsChain-verify_from sha256 stringify genesis_prev_hash _
              (Chained-at_most to genesis_prev_hash table s chain))

  none_before :
      (n : ℕ) (x : AuditRow) (xs : List AuditRow)
      → ltb x.seq n ≡ false
      → All (λ y. oldest_first x y ≡ Ordering.lt) xs
      → filter (λ row. ltb row.seq n) xs ≡ []
  none_before n x [] e h = refl
  none_before n x (y ∷ ys) e (p, h) =
      let later : ltb y.seq n ≡ false = ground arith in rw later (none_before n x ys e h)

  -- The first row at or after a number names the hash that stands last before it.
  first_after :
      (n : ℕ) (prev : String) (rows : List AuditRow) {r : AuditRow} {rest : List AuditRow}
      → IsOrdered rows
      → Chained prev rows
      → filter (λ row. leb n row.seq) rows ≡ r ∷ rest
      → IsLinked sha256 stringify (tip prev (entries (filter (λ row. ltb row.seq n) rows))) r.entry
  first_after n prev [] s c e = cc
  first_after n prev (x ∷ xs) {r} {rest} (below, s) (l, c) e = elim (Bool-cases (ltb x.seq n)) [
    | inl before ↦
        let skipped : leb n x.seq ≡ false = ground arith in
        rw before (first_after n x.entry.entry_hash xs s c (sym (if_false _ _ _ skipped) ∙ e))
    | inr from ↦
        let kept : leb n x.seq ≡ true = ground arith in
        let same : x ≡ r = some_eq (ap first? (sym (if_true _ _ _ kept) ∙ e)) in
        rw from (
          rw (none_before n x xs from below)
            (subst (λ (y : AuditRow). IsLinked sha256 stringify prev y.entry) same l))
  ]

  module _ (digest_nonempty : (s : String) → sha256 s ≢ "") where
    tip_nonempty :
        (prev : String) (x : AuditRow) (xs : List AuditRow)
        → Chained prev (x ∷ xs)
        → tip prev (entries (x ∷ xs)) ≢ ""
    unfolding compute_entry_hash
    tip_nonempty prev x [] (l, c) e = digest_nonempty _ (sym l.hashed ∙ e)
    tip_nonempty prev x (y ∷ ys) (l, c) e = tip_nonempty x.entry.entry_hash y ys c e

    Chained-before :
        (n : ℕ) (prev : String) (rows : List AuditRow)
        → IsOrdered rows
        → Chained prev rows
        → Chained prev (filter (λ row. ltb row.seq n) rows)
    Chained-before n prev [] s c = tt
    Chained-before n prev (x ∷ xs) (below, s) (l, c) = elim (Bool-cases (ltb x.seq n)) [
      | inl before ↦ rw before (l, Chained-before n x.entry.entry_hash xs s c)
      | inr from ↦ rw from (rw (none_before n x xs from below) tt)
    ]

    -- An entry that names another hash than the genesis hash is no beginning of a chain.
    broken_start :
        (seed : String) (r : AuditRow) (rest : List AuditRow)
        → or_else r.entry.prev_hash genesis_prev_hash ≢ ""
        → (b : ChainBreak) × (verify_chain sha256 stringify (map (seeded seed) (r ∷ rest)) ≡ some b)
          × (b.broken_at_event_id ≡ r.entry.row.event_id)
    unfolding verify_chain verify_from
    broken_start seed r rest n = elim (Option-cases r.entry.prev_hash) [
      | inl e ↦ absurd (n (ap (λ p. or_else p genesis_prev_hash) e))
      | inr (t, e) ↦
          let other : str_eq t "" ≡ false =
            str_eq_ne t "" (λ q. n (ap (λ p. or_else p genesis_prev_hash) e ∙ q)) in
          rw e (rw other (_, refl, refl))
    ]

    -- A chain that verifies is answered as broken when it is asked about from a number that leaves out an earlier row: the break is reported at the first row of the range.
    pub verify_range_from_later :
        (verify_max n : ℕ) (table : List AuditRow) {x r : AuditRow} {xs rest : List AuditRow}
        → IsOrdered table
        → verify_chain sha256 stringify (entries table) ≡ none
        → filter (λ row. ltb row.seq n) table ≡ x ∷ xs
        → range_of (some n) none table ≡ r ∷ rest
        → length (range_of (some n) none table) < verify_max
        → (b : ChainBreak) × (verify_range sha256 stringify verify_max (some n) none table
            ≡ verification (length (range_of (some n) none table)) (some b))
          × (b.broken_at_event_id ≡ r.entry.row.event_id)
    unfolding verify_range verify_chain
    verify_range_from_later verify_max n table {x} {r} {xs} {rest} s v earlier range few =
        let chain = verify_from-IsChain sha256 stringify genesis_prev_hash (entries table) v in
        let l =
          first_after n genesis_prev_hash table s chain (sym (range_of_later n table s) ∙ range) in
        let named : or_else r.entry.prev_hash genesis_prev_hash ≢ "" = λ e.
          tip_nonempty genesis_prev_hash x xs
            (subst (Chained genesis_prev_hash) earlier
              (Chained-before n genesis_prev_hash table s chain))
            (ap (λ rows. tip genesis_prev_hash (entries rows)) (sym earlier)
              ∙ sym l.names_prev
              ∙ e) in
        let (b, broken, at) = broken_start (seed_of (some n) table) r rest named in
        (
          b,
          verify_found_few verify_max (seed_of (some n) table) (range_of (some n) none table) few
              ∙ ap (verification (length (range_of (some n) none table))) (
                  ap
                    (λ found.
                      verify_chain sha256 stringify (map (seeded (seed_of (some n) table)) found))
                    range
                  ∙ broken),
          at,
        )
