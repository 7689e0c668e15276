-- ===== src/Prelude/Text.antt =====
-- The order `<` on texts, by code points.
use Prim.Native.String.compare
use Prim.Native.Nat.{Ordering, compare as compare_ℕ}
use Prim.Native.Char.{Char, code}
use Prim.Native.String.{String, compare, then}
use mathlib.Core.Path.{◌≡◌}
use mathlib.Core.Bool.{Bool, true, false}
use native.Mathlib.Omega.{arith}
use text.Mathlib.TextEquality.{path_by_compare}
use text.Mathlib.TextPositions.{compare_refl}

-- `s < t`
unfoldable pub text_lt : String → String → Bool
text_lt s t = elim (compare s t) [ Ordering.lt ↦ true | _ ↦ false ]

compare-nil_cons : (d : Char) (t : String) → compare String.[] (String.◌∷◌ d t) ≡ Ordering.lt
compare-nil_cons d t = compare.nil-cons d t

compare-cons_nil : (c : Char) (s : String) → compare (String.◌∷◌ c s) String.[] ≡ Ordering.gt
compare-cons_nil c s = compare.cons-nil c s

compare-cons_cons :
    (c d : Char) (s t : String)
    → compare (String.◌∷◌ c s) (String.◌∷◌ d t) ≡ then (compare_ℕ (code c) (code d)) (compare s t)
compare-cons_cons c d s t = compare.cons-cons c d s t

compare-lt_trans :
    (s t u : String)
    → compare s t ≡ Ordering.lt
    → compare t u ≡ Ordering.lt
    → compare s u ≡ Ordering.lt
compare-lt_trans String.[] String.[] u h k = k
compare-lt_trans String.[] (String.◌∷◌ d t) String.[] h k = cc (compare-cons_nil d t)
compare-lt_trans String.[] (String.◌∷◌ d t) (String.◌∷◌ e u) h k = compare-nil_cons e u
compare-lt_trans (String.◌∷◌ c s) String.[] u h k = cc (compare-cons_nil c s)
compare-lt_trans (String.◌∷◌ c s) (String.◌∷◌ d t) String.[] h k = cc (compare-cons_nil d t)
compare-lt_trans (String.◌∷◌ c s) (String.◌∷◌ d t) (String.◌∷◌ e u) h k = ground (
  arith,
  compare-cons_cons c d s t,
  compare-cons_cons d e t u,
  compare-cons_cons c e s u,
  compare-lt_trans s t u,
)

compare-gt_flip : (s t : String) → compare s t ≡ Ordering.gt → compare t s ≡ Ordering.lt
compare-gt_flip String.[] String.[] h = cc (compare_refl String.[])
compare-gt_flip String.[] (String.◌∷◌ d t) h = cc (compare-nil_cons d t)
compare-gt_flip (String.◌∷◌ c s) String.[] h = compare-nil_cons c s
compare-gt_flip (String.◌∷◌ c s) (String.◌∷◌ d t) h =
    ground (arith, compare-cons_cons c d s t, compare-cons_cons d c t s, compare-gt_flip s t)

compare-lt_flip : (s t : String) → compare s t ≡ Ordering.lt → compare t s ≡ Ordering.gt
compare-lt_flip String.[] String.[] h = cc (compare_refl String.[])
compare-lt_flip String.[] (String.◌∷◌ d t) h = compare-cons_nil d t
compare-lt_flip (String.◌∷◌ c s) String.[] h = cc (compare-cons_nil c s)
compare-lt_flip (String.◌∷◌ c s) (String.◌∷◌ d t) h =
    ground (arith, compare-cons_cons c d s t, compare-cons_cons d c t s, compare-lt_flip s t)

pub text_lt_trans : (s t u : String) → text_lt s t ≡ true → text_lt t u ≡ true → text_lt s u ≡ true
unfolding text_lt
text_lt_trans s t u h k = ground (arith, compare-lt_trans s t u)

pub text_lt_irrefl : (s : String) → text_lt s s ≡ false
unfolding text_lt
text_lt_irrefl s = ground (arith, compare_refl s)

pub text_lt_asymm : (s t : String) → text_lt s t ≡ true → text_lt t s ≡ false
unfolding text_lt
text_lt_asymm s t h = ground (arith, compare-lt_flip s t)

pub text_lt_total : (s t : String) → text_lt s t ≡ false → text_lt t s ≡ false → s ≡ t
unfolding text_lt
text_lt_total s t h k = path_by_compare s t (ground (arith, compare-gt_flip s t))
