-- ===== src/Prelude/Lists.antt =====
-- Lists measured by native numbers, and predicates over lists by recursion.
use Prim.Native.Nat.{ℕ, zero, suc, ◌+◌, ◌-◌, min, ◌≤◌, ◌<◌}
use mathlib.Core.Path.{◌≡◌, refl, ap, subst}
use mathlib.Core.Bool.{Bool, true, ◌&&◌}
use mathlib.Core.Option.{Option, none, some}
use mathlib.Core.List.{List, [], ◌∷◌, ◌++◌}
use native.Mathlib.Omega.{arith}
use airport_inspection_platf.Prelude.Tests.{if◌then◌else◌}

module _ {ℓ} {A : Type ℓ} where
  abbrev pub length : List A → ℕ
  length [] = 0
  length (x ∷ xs) = suc (length xs)

  abbrev pub take : ℕ → List A → List A
  take zero xs = []
  take (suc n) [] = []
  take (suc n) (x ∷ xs) = x ∷ take n xs

  abbrev pub drop : ℕ → List A → List A
  drop zero xs = xs
  drop (suc n) [] = []
  drop (suc n) (x ∷ xs) = drop n xs

  abbrev pub last? : List A → Option A
  last? [] = none
  last? (x ∷ []) = some x
  last? (x ∷ y ∷ xs) = last? (y ∷ xs)

  -- `xs.filter(p)`
  abbrev pub filter : (A → Bool) → List A → List A
  filter p [] = []
  filter p (x ∷ xs) = if p x then x ∷ filter p xs else filter p xs

  -- `xs.every(p)`
  abbrev pub all : (A → Bool) → List A → Bool
  all p [] = true
  all p (x ∷ xs) = p x && all p xs

  pub length-append : (xs ys : List A) → length (xs ++ ys) ≡ length xs + length ys
  length-append [] ys = omega arith
  length-append (x ∷ xs) ys = omega (arith, length-append xs ys)

  pub length-take : (n : ℕ) (xs : List A) → length (take n xs) ≡ min n (length xs)
  length-take zero xs = omega arith
  length-take (suc n) [] = omega arith
  length-take (suc n) (x ∷ xs) = omega (arith, length-take n xs)

  pub length-drop : (n : ℕ) (xs : List A) → length (drop n xs) ≡ length xs - n
  length-drop zero xs = omega arith
  length-drop (suc n) [] = omega arith
  length-drop (suc n) (x ∷ xs) = omega (arith, length-drop n xs)

  pub take-append-drop : (n : ℕ) (xs : List A) → take n xs ++ drop n xs ≡ xs
  take-append-drop zero xs = refl
  take-append-drop (suc n) [] = refl
  take-append-drop (suc n) (x ∷ xs) = ap (λ r. x ∷ r) (take-append-drop n xs)

module _ {ℓ κ} {A : Type ℓ} (P : A → Type κ) where
  abbrev pub All : List A → Type κ
  All [] = Unit
  All (x ∷ xs) = P x × All xs

  pub All-append : (xs ys : List A) → All xs → All ys → All (xs ++ ys)
  All-append [] ys h k = k
  All-append (x ∷ xs) ys (p, h) k = (p, All-append xs ys h k)

  pub All-filter : (p : A → Bool) (xs : List A) → All xs → All (filter p xs)
  All-filter p [] h = tt
  All-filter p (x ∷ xs) (q, h) = ground (arith, All-filter p xs h)

module _ {ℓ} {A : Type ℓ} where
  pub take_all : (n : ℕ) (xs : List A) → length xs ≤ n → take n xs ≡ xs
  take_all zero [] h = refl
  take_all zero (x ∷ xs) h = absurd (omega arith)
  take_all (suc n) [] h = refl
  take_all (suc n) (x ∷ xs) h = ap (λ r. x ∷ r) (take_all n xs (omega arith))

  pub last?-some : (x : A) (xs : List A) → (l : A) × (last? (x ∷ xs) ≡ some l)
  last?-some x [] = (x, refl)
  last?-some x (y ∷ ys) = last?-some y ys

  pub last?-take :
      (n : ℕ) (xs : List A) → 0 < n → 0 < length xs → (l : A) × (last? (take n xs) ≡ some l)
  last?-take zero xs h k = absurd (omega arith)
  last?-take (suc n) [] h k = absurd (omega arith)
  last?-take (suc n) (x ∷ xs) h k = last?-some x (take n xs)

  pub last?-cons : (x : A) (xs : List A) {l : A} → last? xs ≡ some l → last? (x ∷ xs) ≡ some l
  last?-cons x [] h = cc
  last?-cons x (y ∷ ys) h = h

  pub last?-take-drop :
      (k n j : ℕ) (xs : List A) (l : A)
      → k + n ≡ j
      → last? (take n (drop k xs)) ≡ some l
      → last? (take j xs) ≡ some l
  last?-take-drop zero n j xs l e h = let e' : n ≡ j = omega arith in rw (← e') h
  last?-take-drop (suc k) zero j [] l e h = cc
  last?-take-drop (suc k) (suc n) j [] l e h = cc
  last?-take-drop (suc k) n zero (x ∷ xs) l e h = absurd (omega arith)
  last?-take-drop (suc k) n (suc j) (x ∷ xs) l e h =
      last?-cons x (take j xs) (last?-take-drop k n j xs l (omega arith) h)

  pub drop-drop : (k n j : ℕ) (xs : List A) → k + n ≡ j → drop n (drop k xs) ≡ drop j xs
  drop-drop zero n j xs e = let e' : n ≡ j = omega arith in rw (← e')
  drop-drop (suc k) zero zero [] e = refl
  drop-drop (suc k) (suc n) zero [] e = refl
  drop-drop (suc k) zero (suc j) [] e = refl
  drop-drop (suc k) (suc n) (suc j) [] e = refl
  drop-drop (suc k) n zero (x ∷ xs) e = absurd (omega arith)
  drop-drop (suc k) n (suc j) (x ∷ xs) e = drop-drop k n j xs (omega arith)

module _ {ℓ κ} {A : Type ℓ} (P : A → Type κ) where
  pub All-take : (n : ℕ) (xs : List A) → All P xs → All P (take n xs)
  All-take zero xs h = tt
  All-take (suc n) [] h = tt
  All-take (suc n) (x ∷ xs) (p, h) = (p, All-take n xs h)

  pub All-drop : (n : ℕ) (xs : List A) → All P xs → All P (drop n xs)
  All-drop zero xs h = h
  All-drop (suc n) [] h = tt
  All-drop (suc n) (x ∷ xs) (p, h) = All-drop n xs h

pub some_eq {ℓ} : {A : Type ℓ} {x y : A} → some x ≡ some y → x ≡ y
some_eq e = cc

module _ {ℓ κ} {A : Type ℓ} (P : A → Type κ) where
  pub All-last? : (l : A) (xs : List A) → All P xs → last? xs ≡ some l → P l
  All-last? l [] h e = cc
  All-last? l (x ∷ []) (p, h) e = subst P (some_eq e) p
  All-last? l (x ∷ y ∷ ys) (p, h) e = All-last? l (y ∷ ys) h e

module _ {ℓ} {A : Type ℓ} where
  pub kept_pass : (p : A → Bool) (xs : List A) → All (λ x. p x ≡ true) (filter p xs)
  kept_pass p [] = tt
  kept_pass p (x ∷ xs) = ground (arith, kept_pass p xs)

  -- A filter is not needed before one that keeps less.
  pub filter-filter :
      (p q : A → Bool) (xs : List A)
      → ((x : A) → q x ≡ true → p x ≡ true)
      → filter q (filter p xs) ≡ filter q xs
  filter-filter p q [] h = refl
  filter-filter p q (x ∷ xs) h = ground (arith, filter-filter p q xs h, h x)

  pub take-take : (n : ℕ) (xs : List A) → take n (take (suc n) xs) ≡ take n xs
  take-take zero xs = refl
  take-take (suc n) [] = refl
  take-take (suc n) (x ∷ xs) = ap (λ r. x ∷ r) (take-take n xs)
