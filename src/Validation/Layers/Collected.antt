-- ===== src/Validation/Layers/Collected.antt =====
-- The result of a layer by the failures that it collected.
use airport_inspection_platf.Validation.Layers.{LayerFailure, ValidationLayerId, push_if, result_of}
use airport_inspection_platf.Prelude.{
  Bool, List, String, [], arith, eq_iff, false, not, refl, str_eq, true, ◌++◌, ◌∷◌, ◌≡◌,
}

pub push_if-nil : (b : Bool) (f : LayerFailure) → push_if b f ≡ [] → b ≡ false
push_if-nil true f h = absurd (cc)
push_if-nil false f h = refl

pub append-nil : {A : Type 0} (xs ys : List A) → xs ++ ys ≡ [] → (xs ≡ []) × (ys ≡ [])
append-nil [] ys h = (refl, h)
append-nil (x ∷ xs) ys h = absurd (cc)

pub result_of-passed :
    (layer : ValidationLayerId) (fs : List LayerFailure)
    → (result_of layer fs).passed ≡ true
    → fs ≡ []
unfolding result_of
result_of-passed layer [] h = refl
result_of-passed layer (f ∷ fs) h = absurd (cc)

pub passed-result_of :
    (layer : ValidationLayerId) (fs : List LayerFailure)
    → fs ≡ []
    → (result_of layer fs).passed ≡ true
unfolding result_of
passed-result_of layer [] h = refl
passed-result_of layer (f ∷ fs) h = absurd (cc)

pub nil-push_if : (b : Bool) (f : LayerFailure) → b ≡ false → push_if b f ≡ []
nil-push_if true f h = absurd (cc)
nil-push_if false f h = refl

pub equal_of : (s t : String) → not (str_eq s t) ≡ false → s ≡ t
equal_of s t h = ground (arith, eq_iff s t)

pub append_nil : {A : Type 0} (xs ys : List A) → xs ≡ [] → ys ≡ [] → xs ++ ys ≡ []
append_nil xs ys h k = rw (h, k) refl
