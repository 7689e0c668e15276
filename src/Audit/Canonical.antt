-- ===== src/Audit/Canonical.antt =====
-- services/audit-service/src/chain/hash.ts: canonical JSON, with the keys of every object sorted.
use airport_inspection_platf.Prelude.Json.{
  Fields, Items, Json, arr, bool, cons, end, field, nil, null, num, obj, str,
}
use airport_inspection_platf.Prelude.Text.{text_lt, text_lt_asymm, text_lt_total, text_lt_trans}
use airport_inspection_platf.Prelude.{String, ap, ap₂, arith, if◌then◌else◌, refl, ◌∙◌, ◌≡◌, ◌≢◌}

unfoldable pub insert_field : String → Json → Fields → Fields
insert_field k v end = field k v end
insert_field k v (field j w fs) =
    if text_lt j k then field j w (insert_field k v fs) else field k v (field j w fs)

unfoldable mutual
  unfolding insert_field text_lt

  pub sort_keys_deep : Json → Json
  sort_keys_deep null = null
  sort_keys_deep (bool b) = bool b
  sort_keys_deep (num n) = num n
  sort_keys_deep (str s) = str s
  sort_keys_deep (arr xs) = arr (sort_items xs)
  sort_keys_deep (obj fs) = obj (sort_fields fs)

  -- `value.map(sortKeysDeep)`
  pub sort_items : Items → Items
  sort_items nil = nil
  sort_items (cons x xs) = cons (sort_keys_deep x) (sort_items xs)

  -- the loop over `Object.keys(value).sort()`
  pub sort_fields : Fields → Fields
  sort_fields end = end
  sort_fields (field k v fs) = insert_field k (sort_keys_deep v) (sort_fields fs)

-- `stringify` is `JSON.stringify`.
unfoldable pub canonicalize : (Json → String) → Json → String
unfolding sort_keys_deep
canonicalize stringify value = stringify (sort_keys_deep value)

-- Two values that differ only in the order in which their objects list different keys, at any depth.
mutual
  pub data Same : Json → Json → Type 0 where
    same : {v : Json} → Same v v
    arrays : {xs ys : Items} → SameItems xs ys → Same (arr xs) (arr ys)
    objects : {fs gs : Fields} → SameFields fs gs → Same (obj fs) (obj gs)

  pub data SameItems : Items → Items → Type 0 where
    no_items : SameItems nil nil
    item :
        {x y : Json} {xs ys : Items}
        → Same x y
        → SameItems xs ys
        → SameItems (cons x xs) (cons y ys)

  pub data SameFields : Fields → Fields → Type 0 where
    no_fields : SameFields end end
    keep :
        {k : String} {v w : Json} {fs gs : Fields}
        → Same v w
        → SameFields fs gs
        → SameFields (field k v fs) (field k w gs)
    swap :
        {j k : String} {v w : Json} {fs : Fields}
        → j ≢ k
        → SameFields (field j v (field k w fs)) (field k w (field j v fs))
    chain : {fs gs hs : Fields} → SameFields fs gs → SameFields gs hs → SameFields fs hs

insert_field_comm :
    (j k : String) (v w : Json) (fs : Fields)
    → j ≢ k
    → insert_field j v (insert_field k w fs) ≡ insert_field k w (insert_field j v fs)
unfolding insert_field
insert_field_comm j k v w end ne = ground (arith, text_lt_total j k, text_lt_asymm j k)
insert_field_comm j k v w (field l u fs) ne = ground (
  arith,
  insert_field_comm j k v w fs,
  text_lt_total j k,
  text_lt_asymm j k,
  text_lt_trans l j k,
  text_lt_trans l k j,
  text_lt_asymm l j,
  text_lt_asymm l k,
  text_lt_total l j,
  text_lt_total l k,
)

mutual
  unfolding sort_keys_deep

  Same-sort_keys_deep : {v w : Json} → Same v w → sort_keys_deep v ≡ sort_keys_deep w
  Same-sort_keys_deep same = refl
  Same-sort_keys_deep (arrays h) = ap arr (SameItems-sort_items h)
  Same-sort_keys_deep (objects h) = ap obj (SameFields-sort_fields h)

  SameItems-sort_items : {xs ys : Items} → SameItems xs ys → sort_items xs ≡ sort_items ys
  SameItems-sort_items no_items = refl
  SameItems-sort_items (item h t) = ap₂ cons (Same-sort_keys_deep h) (SameItems-sort_items t)

  SameFields-sort_fields : {fs gs : Fields} → SameFields fs gs → sort_fields fs ≡ sort_fields gs
  SameFields-sort_fields no_fields = refl
  SameFields-sort_fields (keep {k} h t) =
      ap₂ (insert_field k) (Same-sort_keys_deep h) (SameFields-sort_fields t)
  SameFields-sort_fields (swap {j} {k} {v} {w} {fs} ne) =
      insert_field_comm j k (sort_keys_deep v) (sort_keys_deep w) (sort_fields fs) ne
  SameFields-sort_fields (chain h t) = SameFields-sort_fields h ∙ SameFields-sort_fields t

-- Whatever `JSON.stringify` is, two values that differ only in the order of their objects' keys, at any depth, have one canonical text.
pub canonicalize-Same :
    (stringify : Json → String) (v w : Json)
    → Same v w
    → canonicalize stringify v ≡ canonicalize stringify w
unfolding canonicalize
canonicalize-Same stringify v w h = ap stringify (Same-sort_keys_deep h)
