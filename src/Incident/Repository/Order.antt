-- ===== src/Incident/Repository/Order.antt =====
-- The order in which incidents are listed.
use Prim.Native.Nat.{Ordering}
use airport_inspection_platf.Prelude.Sort.{IsOrder}
use airport_inspection_platf.Prelude.Text.{
  text_lt_asymm, text_lt_irrefl, text_lt_total, text_lt_trans,
}
use airport_inspection_platf.Incident.Repository.{Incident, compare_descending}
use airport_inspection_platf.Prelude.{arith, ◌≡◌}

compare_descending-lt_trans :
    (x y z : Incident)
    → compare_descending x y ≡ Ordering.lt
    → compare_descending y z ≡ Ordering.lt
    → compare_descending x z ≡ Ordering.lt
unfolding compare_descending
compare_descending-lt_trans x y z h k = ground (
  arith,
  text_lt_trans z.created_at y.created_at x.created_at,
  text_lt_trans z.id y.id x.id,
  text_lt_total x.created_at y.created_at,
  text_lt_total y.created_at z.created_at,
  text_lt_asymm x.created_at z.created_at,
  text_lt_asymm x.id z.id,
)

pub compare_descending-IsOrder : IsOrder compare_descending
unfolding compare_descending
compare_descending-IsOrder = record {
  lt_trans = compare_descending-lt_trans;
  gt_flip =
      λ x y h. ground (arith, text_lt_asymm x.created_at y.created_at, text_lt_asymm x.id y.id);
  lt_flip =
      λ x y h. ground (arith, text_lt_asymm x.created_at y.created_at, text_lt_asymm x.id y.id);
  eq_refl = λ x. ground (arith, text_lt_irrefl x.created_at, text_lt_irrefl x.id);
}

-- Two incidents compare equal only if they have one id.
pub compare_descending-eq : (x y : Incident) → compare_descending x y ≡ Ordering.eq → x.id ≡ y.id
unfolding compare_descending
compare_descending-eq x y h = text_lt_total x.id y.id (ground arith) (ground arith)
