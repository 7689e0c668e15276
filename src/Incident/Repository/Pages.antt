-- ===== src/Incident/Repository/Pages.antt =====
-- Listing by pages: the order of a page, and what the pages hold together.
use airport_inspection_platf.Prelude.Map
use Prim.Native.Nat.{Ordering}
use mathlib.Core.List.{Perm}
use airport_inspection_platf.Prelude.Sort.{
  All-sort, IsDistinct, IsSorted, drop-IsSorted, filter-last, is_lt, sort, sort-IsSorted, sort-Perm,
  take-IsSorted,
}
use airport_inspection_platf.Prelude.Text.{text_lt_asymm, text_lt_irrefl, text_lt_total}
use airport_inspection_platf.Incident.Repository.{
  CursorCodec, InMemoryIncidentRepository, Incident, ListIncidentsQuery, PageRequest, after_cursor,
  compare_descending, cursor_after, cursor_json, decode_cursor, encode_cursor, from_cursor, list,
  matches,
}
use airport_inspection_platf.Incident.Repository.Order.{
  compare_descending-IsOrder, compare_descending-eq,
}
use airport_inspection_platf.Incident.Repository.Stored.{IsWellFormed}
use airport_inspection_platf.Prelude.{
  All, All-drop, All-filter, All-take, Bool, Bool-cases, List, Option, String, [], ap, append-nil,
  ap₂, arith, drop, drop-drop, eq_iff, filter, fun_ext, if◌then◌else◌, inl, inr, last?, last?-take,
  last?-take-drop, length, length-drop, length-take, ltb, ltb→lt, map, none, refl, some, str_eq_ne,
  suc, sym, take, take-append-drop, take_all, true, truthy, zero, ℕ, ◌++◌, ◌+◌, ◌<◌, ◌∙◌, ◌∷◌, ◌≡◌,
  ◌≢◌, ◌≤◌, ◌⊎◌,
}

values_distinct :
    (e : String × Incident) (m : List (String × Incident))
    → e.1.id ≡ e.0
    → All (λ d. d.0 ≢ e.0) m
    → All (λ d. d.1.id ≡ d.0) m
    → All (λ y. compare_descending e.1 y ≢ Ordering.eq) (map (λ d. d.1) m)
values_distinct e [] p n h = tt
values_distinct e (d ∷ m) p (ne, n) (q, h) =
    (λ same. ne (sym q ∙ sym (compare_descending-eq e.1 d.1 same) ∙ p), values_distinct e m p n h)

values-IsDistinct :
    (m : List (String × Incident))
    → Map.IsNodup m
    → All (λ d. d.1.id ≡ d.0) m
    → IsDistinct compare_descending (map (λ d. d.1) m)
values-IsDistinct [] n h = tt
values-IsDistinct (e ∷ m) (ne, n) (p, h) = (values_distinct e m p ne h, values-IsDistinct m n h)

filter-IsDistinct :
    (p : Incident → Bool) (xs : List Incident)
    → IsDistinct compare_descending xs
    → IsDistinct compare_descending (filter p xs)
filter-IsDistinct p [] d = tt
filter-IsDistinct p (x ∷ xs) (n, d) = elim (Bool-cases (p x)) [
  | inl keep ↦
      rw keep
        (All-filter (λ y. compare_descending x y ≢ Ordering.eq) p xs n, filter-IsDistinct p xs d)
  | inr skip ↦ rw skip (filter-IsDistinct p xs d)
]

-- All the incidents that a query matches, newest first.
abbrev pub matched : ListIncidentsQuery → InMemoryIncidentRepository → List Incident
matched query repo =
    sort compare_descending (filter (λ item. matches item query) (map (λ e. e.1) repo.items))

matched-IsSorted :
    (query : ListIncidentsQuery) (repo : InMemoryIncidentRepository)
    → IsWellFormed repo
    → IsSorted compare_descending (matched query repo)
matched-IsSorted query repo h = sort-IsSorted compare_descending-IsOrder _ (
    filter-IsDistinct (λ item. matches item query) _ (values-IsDistinct repo.items h.nodup h.keyed))

filter-matches :
    (query : ListIncidentsQuery) (xs : List Incident)
    → All (λ item. matches item query ≡ true) (filter (λ item. matches item query) xs)
filter-matches query [] = tt
filter-matches query (x ∷ xs) = elim (Bool-cases (matches x query)) [
  | inl keep ↦ rw keep (keep, filter-matches query xs)
  | inr skip ↦ rw skip (filter-matches query xs)
]

after_cursor-compare :
    (l y : Incident) → after_cursor l.created_at l.id y ≡ is_lt (compare_descending l y)
unfolding compare_descending
after_cursor-compare l y = ground (
  arith,
  eq_iff y.created_at l.created_at,
  text_lt_total y.created_at l.created_at,
  text_lt_asymm l.created_at y.created_at,
  text_lt_irrefl l.created_at,
  text_lt_asymm l.id y.id,
)

-- What the cursor's parts do: `JSON.parse` reads back what `JSON.stringify` printed for a cursor, base64url decodes what it encoded, and a cursor's text is not empty.
pub record IsCodec (codec : CursorCodec) : Type 0 where
  pub parse-stringify :
      (created_at id : String)
      → codec.parse (codec.stringify (cursor_json created_at id)) ≡ some (cursor_json created_at id)
  pub from-to_base64url : (s : String) → codec.from_base64url (codec.to_base64url s) ≡ s
  pub not_empty :
      (created_at id : String)
      → codec.to_base64url (codec.stringify (cursor_json created_at id)) ≢ ""

module _ (codec : CursorCodec) where
  -- A client that asks for page after page, each from the cursor that the page before it gave, on a repository that does not change meanwhile.
  pub walk : ListIncidentsQuery → ℕ → InMemoryIncidentRepository → ℕ → Option String → List Incident
  walk query limit repo zero cursor = []
  walk query limit repo (suc fuel) cursor =
      let result = list codec query (record { cursor = cursor; limit = limit }) repo in
      result.items
      ++ (elim result.next_cursor [ none ↦ [] | some c ↦ walk query limit repo fuel (some c) ])

  walk-none :
      (query : ListIncidentsQuery) (limit : ℕ) (repo : InMemoryIncidentRepository) (fuel : ℕ)
      (cursor : Option String)
      → let result = list codec query (record { cursor = cursor; limit = limit }) repo in
        result.next_cursor ≡ none → walk query limit repo (suc fuel) cursor ≡ result.items ++ []
  unfolding walk
  walk-none query limit repo fuel cursor e = rw (e, walk)

  walk-some :
      (query : ListIncidentsQuery) (limit : ℕ) (repo : InMemoryIncidentRepository) (fuel : ℕ)
      (cursor : Option String) (c : String)
      → let result = list codec query (record { cursor = cursor; limit = limit }) repo in
        result.next_cursor ≡ some c
        → walk query limit repo (suc fuel) cursor
          ≡ result.items ++ walk query limit repo fuel (some c)
  unfolding walk
  walk-some query limit repo fuel cursor c e = rw (e, walk)

module _ (codec : CursorCodec) (laws : IsCodec codec) where
  -- A cursor decodes to the creation time and id that it was made from.
  pub decode-encode :
      (created_at id : String)
      → decode_cursor codec (encode_cursor codec created_at id) ≡ some (created_at, id)
  unfolding decode_cursor encode_cursor
  decode-encode created_at id = rw (laws.from-to_base64url _, laws.parse-stringify created_at id)

  truthy_cursor :
      (l : Incident)
      → truthy (some (encode_cursor codec l.created_at l.id))
        ≡ some (encode_cursor codec l.created_at l.id)
  unfolding encode_cursor
  truthy_cursor l = rw (str_eq_ne _ "" (laws.not_empty l.created_at l.id))

  -- Listing from the cursor of the last item of a page leaves what follows that page.
  from_cursor-encode :
      (l : Incident) (j : ℕ) (xs : List Incident)
      → IsSorted compare_descending xs
      → last? (take j xs) ≡ some l
      → from_cursor codec (truthy (some (encode_cursor codec l.created_at l.id))) xs ≡ drop j xs
  from_cursor-encode l j xs s e =
      rw (truthy_cursor l, decode-encode l.created_at l.id)
        (rw (fun_ext (after_cursor-compare l)) (filter-last compare_descending-IsOrder l j xs s e))

  module _ (query : ListIncidentsQuery) (page : PageRequest)
      (repo : InMemoryIncidentRepository) where
    list-items :
        (rest : List Incident)
        → from_cursor codec (truthy page.cursor) (matched query repo) ≡ rest
        → (list codec query page repo).items ≡ take page.limit rest
    unfolding list
    list-items rest start = ap (take page.limit) start

    list-total : (list codec query page repo).total ≡ length (matched query repo)
    unfolding list
    list-total = refl

    list-next_cursor :
        (rest : List Incident)
        → from_cursor codec (truthy page.cursor) (matched query repo) ≡ rest
        → (list codec query page repo).next_cursor ≡ (
            if ltb (length (take page.limit rest)) (length rest)
            then cursor_after codec (last? (take page.limit rest))
            else none)
    unfolding list
    list-next_cursor rest start =
        ap
          (λ r.
            if ltb (length (take page.limit r)) (length r)
            then cursor_after codec (last? (take page.limit r))
            else none)
          start

    list-next :
        (k : ℕ)
        → IsWellFormed repo
        → 0 < page.limit
        → from_cursor codec (truthy page.cursor) (matched query repo) ≡ drop k (matched query repo)
        → let rest = drop k (matched query repo) in
          (((list codec query page repo).next_cursor ≡ none) × (length rest ≤ page.limit))
          ⊎ ((c : String) × ((list codec query page repo).next_cursor ≡ some c)
              × (page.limit < length rest)
              × (from_cursor codec (truthy (some c)) (matched query repo)
                  ≡ drop (k + page.limit) (matched query repo)))
    list-next k h pos start =
        let rest = drop k (matched query repo) in
        let next = list-next_cursor rest start in
        let count = length-take page.limit rest in
        elim (Bool-cases (ltb (length (take page.limit rest)) (length rest))) [
          | inl more ↦
              let less = ltb→lt (length (take page.limit rest)) (length rest) more in
              let (l, last) = last?-take page.limit rest pos (omega arith) in
              inr (
                encode_cursor codec l.created_at l.id,
                next ∙ rw (more, last),
                omega arith,
                from_cursor-encode l (k + page.limit) (matched query repo)
                    (matched-IsSorted query repo h)
                    (last?-take-drop k page.limit (k + page.limit) (matched query repo) l refl
                      last),
              )
          | inr done ↦ inl (next ∙ rw done, ground (arith, length-take page.limit rest))
        ]

  -- One page: the first `limit` of what follows the cursor, all of which match the query, newest first; and a next cursor exactly when something is left out, from which a listing gives just that.
  pub list_lem :
      (query : ListIncidentsQuery) (page : PageRequest) (repo : InMemoryIncidentRepository) (k : ℕ)
      → IsWellFormed repo
      → 0 < page.limit
      → from_cursor codec (truthy page.cursor) (matched query repo) ≡ drop k (matched query repo)
      → let rest = drop k (matched query repo) in
        let result = list codec query page repo in
        (result.items ≡ take page.limit rest)
        × (result.total ≡ length (matched query repo))
        × IsSorted compare_descending result.items
        × All (λ item. matches item query ≡ true) result.items
        × (((result.next_cursor ≡ none) × (length rest ≤ page.limit))
            ⊎ ((c : String) × (result.next_cursor ≡ some c)
                × (page.limit < length rest)
                × (from_cursor codec (truthy (some c)) (matched query repo)
                    ≡ drop (k + page.limit) (matched query repo))))
  list_lem query page repo k h pos start =
      let rest = drop k (matched query repo) in
      let sorted = drop-IsSorted compare_descending-IsOrder k _ (matched-IsSorted query repo h) in
      let fits =
        All-drop (λ item. matches item query ≡ true) k _
          (All-sort compare_descending (λ item. matches item query ≡ true) _
            (filter-matches query (map (λ e. e.1) repo.items))) in
      let items = list-items query page repo (drop k (matched query repo)) start in
      (
        items,
        list-total query page repo,
        rw items (take-IsSorted compare_descending-IsOrder page.limit rest sorted),
        rw items (All-take (λ item. matches item query ≡ true) page.limit rest fits),
        list-next query page repo k h pos start,
      )

  walk_from :
      (query : ListIncidentsQuery) (limit : ℕ) (repo : InMemoryIncidentRepository) (fuel k : ℕ)
      (cursor : Option String)
      → IsWellFormed repo
      → 0 < limit
      → from_cursor codec (truthy cursor) (matched query repo) ≡ drop k (matched query repo)
      → length (drop k (matched query repo)) < fuel
      → walk codec query limit repo fuel cursor ≡ drop k (matched query repo)
  walk_from query limit repo zero k cursor h pos start enough = absurd (omega arith)
  walk_from query limit repo (suc fuel) k cursor h pos start enough =
      let rest = drop k (matched query repo) in
      let page : PageRequest = record { cursor = cursor; limit = limit } in
      let (items, total, sorted, fits, next) = list_lem query page repo k h pos start in
      elim next [
        | inl (last, short) ↦
            walk-none codec query limit repo fuel cursor last
            ∙ append-nil _
            ∙ items
            ∙ take_all limit rest short
        | inr (c, more, longer, from) ↦
            let shorter = drop-drop k limit (k + limit) (matched query repo) refl in
            walk-some codec query limit repo fuel cursor c more
            ∙ ap₂ (λ x y. x ++ y) items
                (walk_from query limit repo fuel (k + limit) (some c) h pos from
                    (omega (arith, ap length shorter, length-drop limit rest))
                  ∙ sym shorter)
            ∙ take-append-drop limit rest
      ]

  -- On a repository that does not change meanwhile, following the cursors from the first page gives the incidents that the query matches, all of them and each once (a permutation of the stored ones that match), newest first, whatever the page size of at least one.
  pub walk_all :
      (query : ListIncidentsQuery) (limit : ℕ) (repo : InMemoryIncidentRepository)
      → IsWellFormed repo
      → 0 < limit
      → let walked = walk codec query limit repo (suc (length (matched query repo))) none in
        IsSorted compare_descending walked
        × Perm walked (filter (λ item. matches item query) (map (λ e. e.1) repo.items))
  walk_all query limit repo h pos =
      let all_pages =
        walk_from query limit repo (suc (length (matched query repo))) 0 none h pos refl
          (omega arith) in
      rw all_pages (matched-IsSorted query repo h, sort-Perm compare_descending _)
