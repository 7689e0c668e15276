-- ===== src/Broadcaster/Hydrator/Resume.antt =====
-- What a client that reconnects is sent: the rows after its cursor, page by page.
use Prim.Native.Nat.{Ordering}
use airport_inspection_platf.Broadcaster.Hydrator.{
  FrameHydrator, HydrationResult, SensorEventRow, after_row, compare_rows, find_row, hydrate_since,
  limit_of, resumed, rows_after, rows_of,
}
use airport_inspection_platf.Prelude.Sort.{
  All-sort, IsDistinct, IsOrder, IsSorted, filter-IsDistinct, filter-IsSorted, filter-last, is_lt,
  sort-IsSorted,
}
use airport_inspection_platf.Prelude.Text.{
  text_lt_asymm, text_lt_irrefl, text_lt_total, text_lt_trans,
}
use airport_inspection_platf.Prelude.{
  All, All-filter, All-last?, All-take, Bool-cases, List, Option, Option-cases, String, [], ap,
  arith, drop, filter, filter-filter, if_ap, if_false, if◌then◌else◌, inl, inr, kept_pass, last?,
  length, length-take, ltb, none, not, refl, some, str_eq_ne, str_eq_refl, suc, sym, take,
  take-append-drop, take-take, take_all, true, zero, ℕ, ◌++◌, ◌+◌, ◌∙◌, ◌∷◌, ◌≡◌, ◌≢◌, ◌≤◌,
}
use airport_inspection_platf.Incident.Requests.{is_uuid}

compare_rows-lt_trans :
    (x y z : SensorEventRow)
    → compare_rows x y ≡ Ordering.lt
    → compare_rows y z ≡ Ordering.lt
    → compare_rows x z ≡ Ordering.lt
unfolding compare_rows
compare_rows-lt_trans x y z h k = ground (
  arith,
  text_lt_trans x.received_at y.received_at z.received_at,
  text_lt_trans x.event_id y.event_id z.event_id,
  text_lt_total x.received_at y.received_at,
  text_lt_total y.received_at z.received_at,
  text_lt_asymm x.received_at z.received_at,
  text_lt_asymm x.event_id z.event_id,
)

compare_rows-IsOrder : IsOrder compare_rows
unfolding compare_rows
compare_rows-IsOrder = record {
  lt_trans = compare_rows-lt_trans;
  gt_flip = λ x y h.
      ground
        (arith, text_lt_asymm x.received_at y.received_at, text_lt_asymm x.event_id y.event_id);
  lt_flip = λ x y h.
      ground
        (arith, text_lt_asymm x.received_at y.received_at, text_lt_asymm x.event_id y.event_id);
  eq_refl = λ x. ground (arith, text_lt_irrefl x.received_at, text_lt_irrefl x.event_id);
}

compare_rows-eq : (x y : SensorEventRow) → compare_rows x y ≡ Ordering.eq → x.event_id ≡ y.event_id
unfolding compare_rows
compare_rows-eq x y h = text_lt_total x.event_id y.event_id (ground arith) (ground arith)

-- The primary key: no two rows have one event id.
abbrev pub IsKeyed : List SensorEventRow → Type 0
IsKeyed [] = Unit
IsKeyed (r ∷ rows) = All (λ s. s.event_id ≢ r.event_id) rows × IsKeyed rows

All-distinct :
    (r : SensorEventRow) (rows : List SensorEventRow)
    → All (λ s. s.event_id ≢ r.event_id) rows
    → All (λ s. compare_rows r s ≢ Ordering.eq) rows
All-distinct r [] h = tt
All-distinct r (s ∷ rows) (n, h) = (λ e. n (sym (compare_rows-eq r s e)), All-distinct r rows h)

rows-IsDistinct : (table : List SensorEventRow) → IsKeyed table → IsDistinct compare_rows table
rows-IsDistinct [] h = tt
rows-IsDistinct (r ∷ rows) (n, h) = (All-distinct r rows n, rows-IsDistinct rows h)

-- A row is found by its id.
IsFound : List SensorEventRow → SensorEventRow → Type 0
IsFound table r = find_row r.event_id table ≡ some r

IsFound-cons :
    (r : SensorEventRow) (rows qs : List SensorEventRow)
    → All (λ s. s.event_id ≢ r.event_id) qs
    → All (IsFound rows) qs
    → All (IsFound (r ∷ rows)) qs
unfolding IsFound find_row
IsFound-cons r rows [] n h = tt
IsFound-cons r rows (q ∷ qs) (n, ns) (p, h) =
    (rw (str_eq_ne r.event_id q.event_id (λ e. n (sym e))) p, IsFound-cons r rows qs ns h)

table-IsFound : (table : List SensorEventRow) → IsKeyed table → All (IsFound table) table
unfolding IsFound find_row
table-IsFound [] h = tt
table-IsFound (r ∷ rows) (n, h) =
    (rw (str_eq_refl r.event_id) refl, IsFound-cons r rows rows n (table-IsFound rows h))

rows_of-IsSorted :
    (airport_id : String) (table : List SensorEventRow)
    → IsKeyed table
    → IsSorted compare_rows (rows_of airport_id table)
unfolding rows_of
rows_of-IsSorted airport_id table h =
    sort-IsSorted compare_rows-IsOrder _
      (filter-IsDistinct compare_rows _ table (rows-IsDistinct table h))

rows_of-IsFound :
    (airport_id : String) (table : List SensorEventRow)
    → IsKeyed table
    → All (IsFound table) (rows_of airport_id table)
unfolding rows_of
rows_of-IsFound airport_id table h =
    All-sort compare_rows (IsFound table) _
      (All-filter (IsFound table) _ table (table-IsFound table h))

page_lem :
    (n : ℕ) (rows : List SensorEventRow)
    → (if ltb n (length (take (suc n) rows)) then take n (take (suc n) rows) else take (suc n) rows)
      ≡ take n rows
page_lem n rows = elim (Bool-cases (ltb n (length (take (suc n) rows)))) [
  | inl over ↦ rw over (take-take n rows)
  | inr within ↦
      let short : length rows ≤ n = grind (arith, length-take (suc n) rows) in
      rw within (take_all (suc n) rows (omega arith) ∙ sym (take_all n rows short))
]

resumed-frames :
    (h : FrameHydrator) (airport_id : String) (table : List SensorEventRow) (n : ℕ)
    (r : SensorEventRow) (rows : List SensorEventRow)
    → (resumed h airport_id table n (take (suc n) (r ∷ rows))).frames ≡ take n (r ∷ rows)
unfolding resumed
resumed-frames h airport_id table n r rows =
    if_ap (λ (x : HydrationResult). x.frames) (ltb n (length (take (suc n) (r ∷ rows)))) _ _
    ∙ page_lem n (r ∷ rows)

resumed-take :
    (h : FrameHydrator) (airport_id : String) (table : List SensorEventRow) (n : ℕ)
    (rows : List SensorEventRow)
    → rows ≢ []
    → (resumed h airport_id table n (take (suc n) rows)).frames ≡ take n rows
resumed-take h airport_id table n [] some_rows = absurd (some_rows refl)
resumed-take h airport_id table n (r ∷ rows) some_rows = resumed-frames h airport_id table n r rows

-- The frames of a page are the first rows after the cursor.
hydrate_since-take :
    (h : FrameHydrator) (airport_id last_event_id : String) (limit : Option ℕ)
    (table : List SensorEventRow)
    → is_uuid last_event_id ≡ true
    → rows_after airport_id last_event_id table ≢ []
    → (hydrate_since h airport_id last_event_id limit table).frames
      ≡ take (limit_of h limit) (rows_after airport_id last_event_id table)
unfolding hydrate_since
hydrate_since-take h airport_id last_event_id limit table u some_rows =
    ap (λ (x : HydrationResult). x.frames) (if_false (not (is_uuid last_event_id)) _ _ (rw u refl))
    ∙ resumed-take h airport_id table (limit_of h limit) _ some_rows

is_lt-lt : (o : Ordering) → is_lt o ≡ true → o ≡ Ordering.lt
is_lt-lt Ordering.lt h = refl
is_lt-lt Ordering.eq h = absurd (cc)
is_lt-lt Ordering.gt h = absurd (cc)

after_row_trans :
    (c l x : SensorEventRow) → after_row c l ≡ true → after_row l x ≡ true → after_row c x ≡ true
after_row_trans c l x h k =
    ap is_lt
      (compare_rows-lt_trans c l x (is_lt-lt (compare_rows c l) h) (is_lt-lt (compare_rows l x) k))

rows_after-some :
    (airport_id last_event_id : String) (table : List SensorEventRow) (c : SensorEventRow)
    → find_row last_event_id table ≡ some c
    → rows_after airport_id last_event_id table ≡ filter (after_row c) (rows_of airport_id table)
unfolding rows_after
rows_after-some airport_id last_event_id table c found = rw (found, rows_after) refl

rows_after-none :
    (airport_id last_event_id : String) (table : List SensorEventRow)
    → find_row last_event_id table ≡ none
    → rows_after airport_id last_event_id table ≡ []
unfolding rows_after
rows_after-none airport_id last_event_id table found = rw (found, rows_after) refl

-- The row that ends a page is the cursor of the rows that the page left out.
module _ (airport_id : String) (table : List SensorEventRow) (keyed : IsKeyed table)
    (c l : SensorEventRow) (n : ℕ)
    (e : last? (take n (filter (after_row c) (rows_of airport_id table))) ≡ some l) where
  page-IsFound : find_row l.event_id table ≡ some l
  unfolding IsFound
  page-IsFound =
      All-last? (IsFound table) l _
        (All-take (IsFound table) n _
          (All-filter (IsFound table) (after_row c) _ (rows_of-IsFound airport_id table keyed)))
        e

  page-after_row : after_row c l ≡ true
  page-after_row =
      All-last? (λ x. after_row c x ≡ true) l _
        (All-take (λ x. after_row c x ≡ true) n _ (kept_pass (after_row c) _)) e

  page-rest :
      filter (after_row l) (rows_of airport_id table)
      ≡ drop n (filter (after_row c) (rows_of airport_id table))
  page-rest =
      sym (filter-filter (after_row c) (after_row l) _ (λ x. after_row_trans c l x page-after_row))
      ∙ filter-last compare_rows-IsOrder l n _
          (filter-IsSorted compare_rows (after_row c) _ (rows_of-IsSorted airport_id table keyed)) e

  rows_after-last :
      rows_after airport_id l.event_id table
      ≡ drop n (filter (after_row c) (rows_of airport_id table))
  rows_after-last = rows_after-some airport_id l.event_id table l page-IsFound ∙ page-rest

none_left : (n : ℕ) (rows : List SensorEventRow) → rows ≡ [] → All (λ r. ⊥) (take n rows)
none_left n rows e = rw e (All-take (λ (r : SensorEventRow). ⊥) n [] tt)

rows_after-drop :
    (airport_id last_event_id : String) (table : List SensorEventRow) (l : SensorEventRow) (n : ℕ)
    → IsKeyed table
    → last? (take n (rows_after airport_id last_event_id table)) ≡ some l
    → rows_after airport_id l.event_id table ≡ drop n (rows_after airport_id last_event_id table)
rows_after-drop airport_id last_event_id table l n keyed e =
    elim (Option-cases (find_row last_event_id table)) [
      | inl absent ↦
          let none_after = rows_after-none airport_id last_event_id table absent in
          absurd (All-last? (λ r. ⊥) l _ (none_left n _ none_after) e)
      | inr (c, found) ↦
          let after = rows_after-some airport_id last_event_id table c found in
          rows_after-last airport_id table keyed c l n
            (ap (λ xs. last? (take n xs)) (sym after) ∙ e)
          ∙ ap (drop n) (sym after)
    ]

taken_none : (k : ℕ) → take {A = SensorEventRow} k [] ≡ []
taken_none zero = refl
taken_none (suc k) = refl

take-drop : (n m : ℕ) (xs : List SensorEventRow) → take n xs ++ take m (drop n xs) ≡ take (n + m) xs
take-drop zero m xs = let same : m ≡ 0 + m = omega arith in ap (λ k. take k xs) same
take-drop (suc n) m [] = taken_none m ∙ sym (taken_none (suc n + m))
take-drop (suc n) m (x ∷ xs) =
    let more : suc (n + m) ≡ suc n + m = omega arith in
    ap (λ ys. x ∷ ys) (take-drop n m xs) ∙ ap (λ k. take k (x ∷ xs)) more

-- With event ids that are unique in the table, take a client that resumes from a well-formed cursor that
-- rows of its airport follow, and resumes again from the last frame of the answer, whose id is a UUID,
-- while rows are left after that. The frames of the two answers are the first rows after the cursor, in
-- order, as many as the two limits together allow: it misses no row and is sent none twice. What is still
-- owed after the first answer is what comes after its last frame.
pub frames-rows_after :
    (h : FrameHydrator) (airport_id last_event_id : String) (limit next : Option ℕ)
    (table : List SensorEventRow) (l : SensorEventRow)
    → IsKeyed table
    → is_uuid last_event_id ≡ true
    → rows_after airport_id last_event_id table ≢ []
    → last? (hydrate_since h airport_id last_event_id limit table).frames ≡ some l
    → is_uuid l.event_id ≡ true
    → rows_after airport_id l.event_id table ≢ []
    → ((hydrate_since h airport_id last_event_id limit table).frames
          ++ rows_after airport_id l.event_id table
        ≡ rows_after airport_id last_event_id table)
      × ((hydrate_since h airport_id last_event_id limit table).frames
            ++ (hydrate_since h airport_id l.event_id next table).frames
          ≡ take (limit_of h limit + limit_of h next) (rows_after airport_id last_event_id table))
frames-rows_after h airport_id last_event_id limit next table l keyed u some_rows e v left =
    let frames = hydrate_since-take h airport_id last_event_id limit table u some_rows in
    let rest =
      rows_after-drop airport_id last_event_id table l (limit_of h limit) keyed
        (sym (ap last? frames) ∙ e) in
    let page = take (limit_of h limit) (rows_after airport_id last_event_id table) in
    (
      ap (λ xs. xs ++ rows_after airport_id l.event_id table) frames
          ∙ ap (λ xs. page ++ xs) rest
          ∙ take-append-drop (limit_of h limit) (rows_after airport_id last_event_id table),
      ap (λ xs. xs ++ (hydrate_since h airport_id l.event_id next table).frames) frames
          ∙ ap (λ xs. page ++ xs)
              (hydrate_since-take h airport_id l.event_id next table v left
                ∙ ap (take (limit_of h next)) rest)
          ∙ take-drop (limit_of h limit) (limit_of h next)
              (rows_after airport_id last_event_id table),
    )
