-- ===== src/Prelude/Sort.antt =====
-- `Array.prototype.sort` with a comparator, which is stable, and what a strict order makes of it.
use mathlib.Core.List.Perm
use Prim.Native.Nat.{ℕ, zero, suc, Ordering}
use mathlib.Core.Path.{subst, ◌≡◌, refl, ap}
use mathlib.Core.Logic.{◌≢◌, inl, inr}
use mathlib.Core.Bool.{Bool, true, false}
use mathlib.Core.Option.{some}
use mathlib.Core.List.{List, [], ◌∷◌, Perm}
use native.Mathlib.Omega.{arith}
use airport_inspection_platf.Prelude.Tests.{Bool-cases, if◌then◌else◌}
use airport_inspection_platf.Prelude.Lists.{
  All, All-filter, All-take, drop, filter, last?, some_eq, take,
}

abbrev pub is_gt : Ordering → Bool
is_gt Ordering.gt = true
is_gt _ = false

abbrev pub is_lt : Ordering → Bool
is_lt Ordering.lt = true
is_lt _ = false

module _ {A : Type 0} (cmp : A → A → Ordering) where
  -- An element stays before those that compare equal to it.
  unfoldable pub insert : A → List A → List A
  insert x [] = x ∷ []
  insert x (y ∷ ys) = if is_gt (cmp x y) then y ∷ insert x ys else x ∷ y ∷ ys

  unfoldable pub sort : List A → List A
  unfolding insert
  sort [] = []
  sort (x ∷ xs) = insert x (sort xs)

-- The comparator orders strictly, up to what it calls equal.
pub record IsOrder {A : Type 0} (cmp : A → A → Ordering) : Type 0 where
  pub lt_trans : (x y z : A) → cmp x y ≡ Ordering.lt → cmp y z ≡ Ordering.lt → cmp x z ≡ Ordering.lt
  pub gt_flip : (x y : A) → cmp x y ≡ Ordering.gt → cmp y x ≡ Ordering.lt
  pub lt_flip : (x y : A) → cmp x y ≡ Ordering.lt → cmp y x ≡ Ordering.gt
  pub eq_refl : (x : A) → cmp x x ≡ Ordering.eq

module _ {A : Type 0} (cmp : A → A → Ordering) where
  -- Each element comes strictly before all that follow it.
  abbrev pub IsSorted : List A → Type 0
  IsSorted [] = Unit
  IsSorted (x ∷ xs) = All (λ y. cmp x y ≡ Ordering.lt) xs × IsSorted xs

  -- No two elements compare equal.
  abbrev pub IsDistinct : List A → Type 0
  IsDistinct [] = Unit
  IsDistinct (x ∷ xs) = All (λ y. cmp x y ≢ Ordering.eq) xs × IsDistinct xs

module _ {A : Type 0} (cmp : A → A → Ordering) (P : A → Type 0) where
  pub All-insert : (x : A) (xs : List A) → P x → All P xs → All P (insert cmp x xs)
  unfolding insert
  All-insert x [] p h = (p, tt)
  All-insert x (y ∷ ys) p (q, h) = ground (arith, All-insert x ys p h)

  pub All-sort : (xs : List A) → All P xs → All P (sort cmp xs)
  unfolding sort
  All-sort [] h = tt
  All-sort (x ∷ xs) (p, h) = All-insert x (sort cmp xs) p (All-sort xs h)

module _ {A : Type 0} {cmp : A → A → Ordering} (order : IsOrder cmp) where
  All-lt_trans :
      (x y : A) (ys : List A)
      → cmp x y ≡ Ordering.lt
      → All (λ z. cmp y z ≡ Ordering.lt) ys
      → All (λ z. cmp x z ≡ Ordering.lt) ys
  All-lt_trans x y [] p h = tt
  All-lt_trans x y (z ∷ zs) p (q, h) = (order.lt_trans x y z p q, All-lt_trans x y zs p h)

  insert-IsSorted :
      (x : A) (xs : List A)
      → All (λ y. cmp x y ≢ Ordering.eq) xs
      → IsSorted cmp xs
      → IsSorted cmp (insert cmp x xs)
  unfolding insert
  insert-IsSorted x [] d s = (tt, tt)
  insert-IsSorted x (y ∷ ys) (n, d) (below, s) = elim (Bool-cases (is_gt (cmp x y))) [
    | inl after ↦ rw after (
      All-insert cmp (λ z. cmp y z ≡ Ordering.lt) x ys (order.gt_flip x y (ground arith)) below,
      insert-IsSorted x ys d s,
    )
    | inr before ↦
        let less : cmp x y ≡ Ordering.lt = ground arith in
        rw before ((less, All-lt_trans x y ys less below), (below, s))
  ]

  pub sort-IsSorted : (xs : List A) → IsDistinct cmp xs → IsSorted cmp (sort cmp xs)
  unfolding sort
  sort-IsSorted [] d = tt
  sort-IsSorted (x ∷ xs) (n, d) =
      insert-IsSorted x (sort cmp xs) (All-sort cmp (λ y. cmp x y ≢ Ordering.eq) xs n)
        (sort-IsSorted xs d)

module _ {A : Type 0} {cmp : A → A → Ordering} (order : IsOrder cmp) where
  -- All that follow an element of a sorted list are kept by the test for what lies after it.
  filter-All :
      (x : A) (xs : List A)
      → All (λ y. cmp x y ≡ Ordering.lt) xs
      → filter (λ y. is_lt (cmp x y)) xs ≡ xs
  filter-All x [] h = refl
  filter-All x (y ∷ ys) (p, h) = rw p (ap (λ r. y ∷ r) (filter-All x ys h))

  last-lt :
      (x l : A) (n : ℕ) (xs : List A)
      → All (λ y. cmp x y ≡ Ordering.lt) xs
      → last? (take n xs) ≡ some l
      → cmp x l ≡ Ordering.lt
  last-lt x l zero xs h e = cc
  last-lt x l (suc n) [] h e = cc
  last-lt x l (suc zero) (y ∷ ys) (p, h) e = subst (λ z. cmp x z ≡ Ordering.lt) (some_eq e) p
  last-lt x l (suc (suc n)) (y ∷ []) (p, h) e = subst (λ z. cmp x z ≡ Ordering.lt) (some_eq e) p
  last-lt x l (suc (suc n)) (y ∷ z ∷ zs) (p, h) e = last-lt x l (suc n) (z ∷ zs) h e

  -- What lies after the last element of a page is what the page left out.
  pub filter-last :
      (l : A) (n : ℕ) (xs : List A)
      → IsSorted cmp xs
      → last? (take n xs) ≡ some l
      → filter (λ y. is_lt (cmp l y)) xs ≡ drop n xs
  filter-last l zero xs s e = cc
  filter-last l (suc n) [] s e = cc
  filter-last l (suc zero) (x ∷ xs) (below, s) e =
      subst (λ z. filter (λ y. is_lt (cmp z y)) (x ∷ xs) ≡ xs) (some_eq e)
        (rw (order.eq_refl x) (filter-All x xs below))
  filter-last l (suc (suc n)) (x ∷ []) (below, s) e =
      subst (λ z. filter (λ y. is_lt (cmp z y)) (x ∷ []) ≡ []) (some_eq e) (rw (order.eq_refl x))
  filter-last l (suc (suc n)) (x ∷ y ∷ ys) (below, s) e =
      rw (order.lt_flip x l (last-lt x l (suc n) (y ∷ ys) below e))
        (filter-last l (suc n) (y ∷ ys) s e)

  pub drop-IsSorted : (n : ℕ) (xs : List A) → IsSorted cmp xs → IsSorted cmp (drop n xs)
  drop-IsSorted zero xs s = s
  drop-IsSorted (suc n) [] s = tt
  drop-IsSorted (suc n) (x ∷ xs) (below, s) = drop-IsSorted n xs s

  pub take-IsSorted : (n : ℕ) (xs : List A) → IsSorted cmp xs → IsSorted cmp (take n xs)
  take-IsSorted zero xs s = tt
  take-IsSorted (suc n) [] s = tt
  take-IsSorted (suc n) (x ∷ xs) (below, s) =
      (All-take (λ y. cmp x y ≡ Ordering.lt) n xs below, take-IsSorted n xs s)

module _ {A : Type 0} (cmp : A → A → Ordering) where
  insert-Perm : (x : A) (xs : List A) → Perm (insert cmp x xs) (x ∷ xs)
  unfolding insert
  insert-Perm x [] = Perm.refl (x ∷ [])
  insert-Perm x (y ∷ ys) = elim (Bool-cases (is_gt (cmp x y))) [
    | inl after ↦ rw after (Perm.trans (Perm.cons y (insert-Perm x ys)) (Perm.swap x y ys))
    | inr before ↦ rw before (Perm.refl (x ∷ y ∷ ys))
  ]

  -- Sorting keeps the elements.
  pub sort-Perm : (xs : List A) → Perm (sort cmp xs) xs
  unfolding sort
  sort-Perm [] = Perm.refl []
  sort-Perm (x ∷ xs) = Perm.trans (insert-Perm x (sort cmp xs)) (Perm.cons x (sort-Perm xs))

module _ {A : Type 0} (cmp : A → A → Ordering) (p : A → Bool) where
  pub filter-IsSorted : (xs : List A) → IsSorted cmp xs → IsSorted cmp (filter p xs)
  filter-IsSorted [] s = tt
  filter-IsSorted (x ∷ xs) (below, s) = elim (Bool-cases (p x)) [
    | inl keep ↦ rw keep (All-filter (λ y. cmp x y ≡ Ordering.lt) p xs below, filter-IsSorted xs s)
    | inr skip ↦ rw skip (filter-IsSorted xs s)
  ]

  pub filter-IsDistinct : (xs : List A) → IsDistinct cmp xs → IsDistinct cmp (filter p xs)
  filter-IsDistinct [] d = tt
  filter-IsDistinct (x ∷ xs) (n, d) = elim (Bool-cases (p x)) [
    | inl keep ↦ rw keep (All-filter (λ y. cmp x y ≢ Ordering.eq) p xs n, filter-IsDistinct xs d)
    | inr skip ↦ rw skip (filter-IsDistinct xs d)
  ]
