-- ===== src/Validation/References/Agreement.antt =====
-- What it means that layers 4 and 5 both pass.
use airport_inspection_platf.Validation.Layers.{
  ValidationContext, ValidationLayerResult, cross_system, push_if, result_of, source_of_truth,
}
use airport_inspection_platf.Validation.Layers.Collected.{
  append-nil, equal_of, push_if-nil, result_of-passed,
}
use airport_inspection_platf.Validation.References.{
  AirportReference, Ids, ReferenceDataClient, SensorReference, checks_of, consistent,
  cross_system_run, extract_ids, is_offline, mismatched, missing_airport, missing_sensor,
  offline_at_capture, sensor_checks, source_of_truth_run,
}
use airport_inspection_platf.Prelude.{
  Option, String, [], ap, false, is_some, none, not, refl, some, sym, true, ◌++◌, ◌∙◌, ◌≡◌,
}

abbrev pub IsKnown : ReferenceDataClient → String → Type 0
IsKnown client id = (a : AirportReference) × (client.get_airport_by_id id ≡ some a)

-- The sensor is registered and not offline, and the airport that is named, if one is, is registered and
-- is the sensor's.
pub record IsConsistent (client : ReferenceDataClient) (ids : Ids) (sensor_id : String)
    : Type 0 where
  pub sensor : SensorReference
  pub registered : client.get_sensor_by_id sensor_id ≡ some sensor
  pub running : is_offline sensor.status ≡ false
  pub same_airport :
      (id : String) → ids.airport_id ≡ some id → (id ≡ sensor.airport_id) × IsKnown client id

found : {A : Type 0} (o : Option A) → not (is_some o) ≡ false → (a : A) × (o ≡ some a)
found none h = absurd (cc)
found (some a) h = (a, refl)

source_of_truth_run-some :
    (client : ReferenceDataClient) (ctx : ValidationContext) (ids : Ids)
    → extract_ids ctx.payload ≡ some ids
    → source_of_truth_run (some client) ctx
      ≡ result_of source_of_truth
          (missing_sensor client ids.sensor_id ++ missing_airport client ids.airport_id)
unfolding source_of_truth_run
source_of_truth_run-some client ctx ids e = rw (e, source_of_truth_run) refl

cross_system_run-some :
    (client : ReferenceDataClient) (ctx : ValidationContext) (ids : Ids)
    → extract_ids ctx.payload ≡ some ids
    → cross_system_run (some client) ctx ≡ consistent client ids
unfolding cross_system_run
cross_system_run-some client ctx ids e = rw (e, cross_system_run) refl

consistent-some :
    (client : ReferenceDataClient) (ids : Ids) (sensor_id : String) (sensor : SensorReference)
    → ids.sensor_id ≡ some sensor_id
    → client.get_sensor_by_id sensor_id ≡ some sensor
    → consistent client ids
      ≡ result_of cross_system (
          mismatched ids.airport_id sensor
          ++ push_if (is_offline sensor.status) (offline_at_capture sensor))
unfolding consistent checks_of sensor_checks
consistent-some client ids sensor_id sensor e k =
    ap (sensor_checks client ids) e ∙ ap (checks_of ids) k

airport-IsKnown :
    (client : ReferenceDataClient) (ids : Ids) (id : String)
    → missing_airport client ids.airport_id ≡ []
    → ids.airport_id ≡ some id
    → IsKnown client id
airport-IsKnown client ids id h e =
    found (client.get_airport_by_id id) (push_if-nil _ _ (sym (ap (missing_airport client) e) ∙ h))

same_airport_of :
    (ids : Ids) (sensor : SensorReference) (id : String)
    → mismatched ids.airport_id sensor ≡ []
    → ids.airport_id ≡ some id
    → id ≡ sensor.airport_id
same_airport_of ids sensor id h e =
    equal_of id sensor.airport_id (push_if-nil _ _ (sym (ap (λ o. mismatched o sensor) e) ∙ h))

-- If a payload names a sensor and layers 4 and 5 both pass it with a reference-data client, then the
-- sensor is registered and is not offline, and the airport that the payload names, if it names one, is
-- registered and is the airport of that sensor.
pub references_agree :
    (client : ReferenceDataClient) (ctx : ValidationContext) (ids : Ids) (sensor_id : String)
    → extract_ids ctx.payload ≡ some ids
    → ids.sensor_id ≡ some sensor_id
    → (source_of_truth_run (some client) ctx).passed ≡ true
    → (cross_system_run (some client) ctx).passed ≡ true
    → IsConsistent client ids sensor_id
references_agree client ctx ids sensor_id e named four five =
    let (sensors, airports) = append-nil _ _ (
      result_of-passed source_of_truth _ (
        sym
          (ap (λ (r : ValidationLayerResult). r.passed) (source_of_truth_run-some client ctx ids e))
        ∙ four)) in
    let (sensor, registered) =
      found (client.get_sensor_by_id sensor_id)
        (push_if-nil _ _ (sym (ap (missing_sensor client) named) ∙ sensors)) in
    let (matching, running) = append-nil _ _ (
      result_of-passed cross_system _ (
        sym (
          ap (λ (r : ValidationLayerResult). r.passed)
            (cross_system_run-some client ctx ids e
              ∙ consistent-some client ids sensor_id sensor named registered))
        ∙ five)) in
    record {
      sensor = sensor;
      registered = registered;
      running = push_if-nil _ _ running;
      same_airport = λ id k.
          (same_airport_of ids sensor id matching k, airport-IsKnown client ids id airports k);
    }
