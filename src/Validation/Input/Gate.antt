-- ===== src/Validation/Input/Gate.antt =====
-- What a payload that passes layer 1 is known to be.
use airport_inspection_platf.Prelude.Decimals.{less}
use airport_inspection_platf.Prelude.Json.{Fields, Json, member, num, obj, record_of, str}
use airport_inspection_platf.Incident.Requests.{is_uuid}
use airport_inspection_platf.Validation.Layers.{ValidationContext, input, push_if}
use airport_inspection_platf.Validation.Layers.Collected.{append-nil, push_if-nil, result_of-passed}
use airport_inspection_platf.Validation.Input.{
  CheckContext, check_coordinate, check_event_id, check_event_type, check_geo, check_payload,
  check_skew, check_timestamp, collect_failures, input_run, missing_fields, required_fields,
}
use airport_inspection_platf.Prelude.{
  All, Bool, Bool-cases, List, Option, Option-cases, String, [], ap, arith, false, if_false,
  if_true, inl, inr, is_some, ltb, none, not, refl, some, sym, true, ℕ, ◌++◌, ◌+◌, ◌||◌, ◌∙◌, ◌∷◌,
  ◌≡◌, ◌≢◌, ◌≤◌,
}

abbrev pub IsWithin : String → String → String → Type 0
IsWithin low high n = (less n low ≡ false) × (less high n ≡ false)

-- The coordinates of a position that the payload carries, where they are numbers.
pub record IsPosition (g : Fields) : Type 0 where
  pub lat : (n : String) → member "lat" g ≡ some (num n) → IsWithin "-90" "90" n
  pub lng : (n : String) → member "lng" g ≡ some (num n) → IsWithin "-180" "180" n

-- A timestamp is a date in the window around the clock.
pub record IsTimely (date_parse : String → Option ℕ) (c : CheckContext) (t : String) : Type 0 where
  pub parsed : ℕ
  pub is_date : date_parse t ≡ some parsed
  pub not_future : parsed ≤ c.now + c.max_future
  pub not_old : c.now ≤ parsed + c.max_past

pub record IsAccepted (date_parse : String → Option ℕ) (c : CheckContext) (env : Fields)
    : Type 0 where
  pub present : All (λ name. is_some (member name env) ≡ true) required_fields
  pub event_id : (id : String) → member "event_id" env ≡ some (str id) → is_uuid id ≡ true
  pub timestamp : (t : String) → member "timestamp" env ≡ some (str t) → IsTimely date_parse c t
  pub position :
      (p g : Fields)
      → member "payload" env ≡ some (obj p)
      → member "geo" p ≡ some (obj g)
      → IsPosition g

held : (b : Bool) → not b ≡ false → b ≡ true
held true h = refl
held false h = absurd (cc)

missing_fields-nil :
    (names : List String) (env : Fields)
    → missing_fields names env ≡ []
    → All (λ name. is_some (member name env) ≡ true) names
unfolding missing_fields
missing_fields-nil [] env h = tt
missing_fields-nil (name ∷ names) env h =
    let (first, rest) =
      append-nil (push_if (not (is_some (member name env))) _) (missing_fields names env) h in
    (held _ (push_if-nil _ _ first), missing_fields-nil names env rest)

check_event_id-nil : (id : String) → check_event_id (some (str id)) ≡ [] → is_uuid id ≡ true
unfolding check_event_id
check_event_id-nil id h = held _ (push_if-nil _ _ h)

either : (a b : Bool) → a || b ≡ false → (a ≡ false) × (b ≡ false)
either true b h = absurd (cc)
either false b h = (refl, h)

check_coordinate-nil :
    (code key low high n : String)
    → check_coordinate code key low high (some (num n)) ≡ []
    → IsWithin low high n
unfolding check_coordinate
check_coordinate-nil code key low high n h = either _ _ (push_if-nil _ _ h)

check_geo-nil : (g : Fields) → check_geo (some (obj g)) ≡ [] → IsPosition g
unfolding check_geo
check_geo-nil g h =
    let (lats, lngs) =
      append-nil (check_coordinate "GEO_LAT_OUT_OF_RANGE" "lat" "-90" "90" (member "lat" g))
        (check_coordinate "GEO_LNG_OUT_OF_RANGE" "lng" "-180" "180" (member "lng" g)) h in
    record {
      lat = λ n e.
          check_coordinate-nil "GEO_LAT_OUT_OF_RANGE" "lat" "-90" "90" n
            (sym (ap (check_coordinate "GEO_LAT_OUT_OF_RANGE" "lat" "-90" "90") e) ∙ lats);
      lng = λ n e.
          check_coordinate-nil "GEO_LNG_OUT_OF_RANGE" "lng" "-180" "180" n
            (sym (ap (check_coordinate "GEO_LNG_OUT_OF_RANGE" "lng" "-180" "180") e) ∙ lngs);
    }

check_payload-nil :
    (payload : Option Json) (p g : Fields)
    → check_payload payload ≡ []
    → payload ≡ some (obj p)
    → member "geo" p ≡ some (obj g)
    → IsPosition g
unfolding check_payload
check_payload-nil payload p g h e k =
    check_geo-nil g (sym (ap check_geo k) ∙ sym (ap check_payload e) ∙ h)

cons_ne : {A : Type 0} {x : A} {xs : List A} → x ∷ xs ≡ [] → ⊥
cons_ne h = absurd (cc)

not_below : (a b : ℕ) → ltb a b ≡ false → b ≤ a
not_below a b h = ground arith

module _ (date_parse : String → Option ℕ) (number_text : ℕ → String) where
  check_skew-nil :
      (c : CheckContext) (t : String) (parsed : ℕ)
      → check_skew date_parse number_text c t parsed ≡ []
      → (parsed ≤ c.now + c.max_future) × (c.now ≤ parsed + c.max_past)
  unfolding check_skew
  check_skew-nil c t parsed h = elim (Bool-cases (ltb (c.now + c.max_future) parsed)) [
    | inl future ↦ absurd (cons_ne (sym (if_true _ _ _ future) ∙ h))
    | inr present ↦
        let old = push_if-nil _ _ (sym (if_false _ _ _ present) ∙ h) in
        (not_below _ _ present, not_below _ _ old)
  ]

  check_timestamp-nil :
      (c : CheckContext) (t : String)
      → check_timestamp date_parse number_text c (some (str t)) ≡ []
      → IsTimely date_parse c t
  unfolding check_timestamp
  check_timestamp-nil c t h = elim (Option-cases (date_parse t)) [
    | inl none_parsed ↦ absurd (cons_ne (rw (none_parsed, check_timestamp) at h))
    | inr (parsed, e) ↦
        let (future, old) = check_skew-nil c t parsed (rw (e, check_timestamp) at h) in
        record { parsed = parsed; is_date = e; not_future = future; not_old = old }
  ]

  collect_failures-nil :
      (c : CheckContext) (value : Json) (env : Fields)
      → record_of value ≡ some env
      → collect_failures date_parse number_text value c ≡ []
      → IsAccepted date_parse c env
  unfolding collect_failures
  collect_failures-nil c value env e h =
      let times = check_timestamp date_parse number_text c (member "timestamp" env) in
      let last = check_payload (member "payload" env) in
      let types = check_event_type (member "event_type" env) in
      let ids = check_event_id (member "event_id" env) in
      let (present, from_ids) =
        append-nil (missing_fields required_fields env) (ids ++ (types ++ (times ++ last)))
          (rw (e, collect_failures) at h) in
      let (no_ids, from_types) = append-nil ids (types ++ (times ++ last)) from_ids in
      let (no_types, from_times) = append-nil types (times ++ last) from_types in
      let (no_times, no_payloads) = append-nil times last from_times in
      record {
        present = missing_fields-nil required_fields env present;
        event_id = λ id k. check_event_id-nil id (sym (ap check_event_id k) ∙ no_ids);
        timestamp = λ t k.
            check_timestamp-nil c t
              (sym (ap (check_timestamp date_parse number_text c) k) ∙ no_times);
        position = λ p g k l. check_payload-nil (member "payload" env) p g no_payloads k l;
      }

  not_an_object :
      (c : CheckContext) (value : Json)
      → record_of value ≡ none
      → collect_failures date_parse number_text value c ≢ []
  unfolding collect_failures
  not_an_object c value e h = cons_ne (rw (e, collect_failures) at h)

  -- A payload that passes layer 1 is an object with all the required fields; an event id that is a text
  -- is a UUID; a timestamp that is a text is a date in the window around the clock, its ends included; and
  -- a position in its payload has a latitude and a longitude in range where they are numbers.
  pub input-IsAccepted :
      (c : CheckContext) (ctx : ValidationContext)
      → (input_run date_parse number_text c ctx).passed ≡ true
      → (env : Fields) × (record_of ctx.payload ≡ some env) × IsAccepted date_parse c env
  unfolding input_run
  input-IsAccepted c ctx h =
      let clean =
        result_of-passed input (collect_failures date_parse number_text ctx.payload c) h in
      elim (Option-cases (record_of ctx.payload)) [
        | inl unlike ↦ absurd (not_an_object c ctx.payload unlike clean)
        | inr (env, e) ↦ (env, e, collect_failures-nil c ctx.payload env e clean)
      ]
