-- ===== src/Prelude/Map.antt =====
-- A JavaScript `Map` with text keys: an association list in insertion order.
use Prim.Native.String.{String}
use mathlib.Core.Path.{◌≡◌, refl, sym, subst, subst₂}
use mathlib.Core.Logic.{◌≢◌, inl, inr}
use mathlib.Core.Option.{Option, none, some}
use mathlib.Core.List.{List, [], ◌∷◌}
use airport_inspection_platf.Prelude.Lists.{All}
use native.Mathlib.Omega.{arith}
use text.Mathlib.TextEquality.{eq_iff}
use airport_inspection_platf.Prelude.Tests.{
  Bool-cases, if◌then◌else◌, str_eq, str_eq_ne, str_eq_refl,
}

module _ {ℓ} {V : Type ℓ} where
  -- `m.get(k)`
  unfoldable pub get : String → List (String × V) → Option V
  get k [] = none
  get k ((j, v) ∷ m) = if str_eq j k then some v else get k m

  -- `m.set(k, v)`: an existing key keeps its place
  unfoldable pub set : String → V → List (String × V) → List (String × V)
  set k v [] = (k, v) ∷ []
  set k v ((j, w) ∷ m) = if str_eq j k then (j, v) ∷ m else (j, w) ∷ set k v m

  -- `m.delete(k)`
  unfoldable pub delete : String → List (String × V) → List (String × V)
  delete k [] = []
  delete k ((j, w) ∷ m) = if str_eq j k then delete k m else (j, w) ∷ delete k m

  pub get-set :
      (j k : String) (v : V) (m : List (String × V))
      → get j (set k v m) ≡ (if str_eq k j then some v else get j m)
  unfolding get set
  get-set j k v [] = refl
  get-set j k v ((i, w) ∷ m) = ground (arith, eq_iff k j, eq_iff i k, eq_iff i j, get-set j k v m)

  pub get-delete :
      (j k : String) (m : List (String × V))
      → get j (delete k m) ≡ (if str_eq k j then none else get j m)
  unfolding get delete
  get-delete j k [] = ground arith
  get-delete j k ((i, w) ∷ m) = ground (arith, eq_iff k j, eq_iff i k, eq_iff i j, get-delete j k m)

  pub get-set_self : (k : String) (v : V) (m : List (String × V)) → get k (set k v m) ≡ some v
  get-set_self k v m = rw (get-set k k v m) (rw (str_eq_refl k))

  pub get-set_ne :
      (j k : String) (v : V) (m : List (String × V)) → k ≢ j → get j (set k v m) ≡ get j m
  get-set_ne j k v m h = rw (get-set j k v m) (rw (str_eq_ne k j h))

  -- No two entries have one key.
  abbrev pub IsNodup : List (String × V) → Type 0
  IsNodup [] = Unit
  IsNodup (e ∷ m) = All (λ d. d.0 ≢ e.0) m × IsNodup m

  module _ {κ} (P : String × V → Type κ) where
    pub All-set :
        (k : String) (v : V) (m : List (String × V)) → P (k, v) → All P m → All P (set k v m)
    unfolding set
    All-set k v [] p h = (p, tt)
    All-set k v ((j, w) ∷ m) p (q, h) = elim (Bool-cases (str_eq j k)) [
      | inl same ↦ rw same (subst (λ x. P (x, v)) (sym ((eq_iff j k).0 same)) p, h)
      | inr other ↦ rw other (q, All-set k v m p h)
    ]

    pub get-All :
        (k : String) (v : V) (m : List (String × V)) → All P m → get k m ≡ some v → P (k, v)
    unfolding get
    get-All k v [] h e = cc
    get-All k v ((j, w) ∷ m) (p, h) e = elim (Bool-cases (str_eq j k)) [
      | inl same ↦
          let key : j ≡ k = (eq_iff j k).0 same in
          let value : w ≡ v = ground arith in subst₂ (λ x y. P (x, y)) key value p
      | inr other ↦ get-All k v m h (ground arith)
    ]

    pub All-delete : (k : String) (m : List (String × V)) → All P m → All P (delete k m)
    unfolding delete
    All-delete k [] h = tt
    All-delete k ((j, w) ∷ m) (p, h) = elim (Bool-cases (str_eq j k)) [
      | inl same ↦ rw same (All-delete k m h)
      | inr other ↦ rw other (p, All-delete k m h)
    ]

  pub set-IsNodup : (k : String) (v : V) (m : List (String × V)) → IsNodup m → IsNodup (set k v m)
  unfolding set
  set-IsNodup k v [] h = (tt, tt)
  set-IsNodup k v ((j, w) ∷ m) (n, h) = elim (Bool-cases (str_eq j k)) [
    | inl same ↦ rw same (n, h)
    | inr other ↦
        rw other (All-set (λ d. d.0 ≢ j) k v m (ground (arith, eq_iff j k)) n, set-IsNodup k v m h)
  ]
