-- ===== src/Pipeline/Persistence/Once.antt =====
-- What the tables hold after any run of messages.
use airport_inspection_platf.Pipeline.Persistence.{
  Parsed, SensorEventRow, SensorFrameEvent, Tables, frame, has_key, insert_once, key_of,
  not_a_frame, not_json, persist,
}
use airport_inspection_platf.Prelude.{
  Bool, Bool-cases, List, Option, String, [], ap, arith, eq_iff, false, if_false, if_true, inl, inr,
  length, length-append, ok, refl, str_eq, str_eq_refl, subst, sym, true, ◌++◌, ◌+◌, ◌||◌, ◌∙◌, ◌∷◌,
  ◌≡◌,
}

-- No two stored events have one key, and each has one outbox row.
abbrev pub DistinctKeys : List SensorEventRow → Type 0
DistinctKeys [] = Unit
DistinctKeys (r ∷ rows) = (has_key r.row_key rows ≡ false) × DistinctKeys rows

pub record IsOnce (tables : Tables) : Type 0 where
  pub distinct : DistinctKeys tables.sensor_events
  pub paired : length tables.event_outbox ≡ length tables.sensor_events

has_key-append :
    (key : String) (rows : List SensorEventRow) (r : SensorEventRow)
    → has_key key (rows ++ r ∷ []) ≡ (has_key key rows || str_eq r.row_key key)
unfolding has_key
has_key-append key [] r = ground arith
has_key-append key (s ∷ rows) r = ground (arith, has_key-append key rows r)

DistinctKeys-append :
    (rows : List SensorEventRow) (r : SensorEventRow)
    → DistinctKeys rows
    → has_key r.row_key rows ≡ false
    → DistinctKeys (rows ++ r ∷ [])
unfolding has_key
DistinctKeys-append [] r d h = (refl, tt)
DistinctKeys-append (s ∷ rows) r (n, d) h = (
  ground (
    arith,
    has_key-append s.row_key rows r,
    eq_iff s.row_key r.row_key,
    eq_iff r.row_key s.row_key,
  ),
  DistinctKeys-append rows r d (ground arith),
)

-- A message and whether PostgreSQL refuses its transaction.
pub record Message : Type 0 where
  pub refused : Bool
  pub parsed : Parsed
  pub raw_payload : String

module _ (prefix : String) (airport_id : Option String) where
  abbrev pub take_in : Message → Tables → Tables
  take_in m tables = (persist prefix airport_id m.refused m.parsed m.raw_payload tables).1

  abbrev pub take_in_all : List Message → Tables → Tables
  take_in_all [] tables = tables
  take_in_all (m ∷ messages) tables = take_in_all messages (take_in m tables)

  insert_once-IsOnce :
      (raw_payload : String) (event : SensorFrameEvent) (tables : Tables)
      → IsOnce tables
      → IsOnce (insert_once prefix airport_id raw_payload event tables)
  unfolding insert_once
  insert_once-IsOnce raw_payload event tables o =
      elim (Bool-cases (has_key (key_of event) tables.sensor_events)) [
        | inl t ↦ subst IsOnce (sym (if_true _ _ _ t)) o
        | inr t ↦ subst IsOnce (sym (if_false _ _ _ t)) (record {
          distinct = DistinctKeys-append tables.sensor_events _ o.distinct t;
          paired =
              length-append tables.event_outbox _
              ∙ ap (λ n. n + 1) o.paired
              ∙ sym (length-append tables.sensor_events _);
        })
      ]

  persist-IsOnce :
      (refused : Bool) (parsed : Parsed) (raw_payload : String) (tables : Tables)
      → IsOnce tables
      → IsOnce (persist prefix airport_id refused parsed raw_payload tables).1
  unfolding persist
  persist-IsOnce refused not_json raw_payload tables o = o
  persist-IsOnce refused not_a_frame raw_payload tables o = o
  persist-IsOnce true (frame event) raw_payload tables o = o
  persist-IsOnce false (frame event) raw_payload tables o =
      insert_once-IsOnce raw_payload event tables o

  -- Whatever messages arrive, repeated ones and refused transactions included: no two stored events
  -- have one idempotency key, and there are as many outbox rows as stored events.
  pub take_in_all-IsOnce :
      (messages : List Message) (tables : Tables)
      → IsOnce tables
      → IsOnce (take_in_all messages tables)
  take_in_all-IsOnce [] tables o = o
  take_in_all-IsOnce (m ∷ messages) tables o =
      take_in_all-IsOnce messages (take_in m tables)
        (persist-IsOnce m.refused m.parsed m.raw_payload tables o)

  insert_once-has_key :
      (raw_payload : String) (event : SensorFrameEvent) (tables : Tables)
      → has_key
          (key_of event)
          (insert_once prefix airport_id raw_payload event tables).sensor_events
        ≡ true
  unfolding insert_once
  insert_once-has_key raw_payload event tables =
      elim (Bool-cases (has_key (key_of event) tables.sensor_events)) [
        | inl t ↦ ap (λ (x : Tables). has_key (key_of event) x.sensor_events) (if_true _ _ _ t) ∙ t
        | inr t ↦
            ap (λ (x : Tables). has_key (key_of event) x.sensor_events) (if_false _ _ _ t)
            ∙ has_key-append (key_of event) tables.sensor_events _
            ∙ ground (arith, str_eq_refl (key_of event))
      ]

  -- A frame that is taken in is stored under its key, and taking in another with the same key
  -- changes neither table.
  pub persist_again :
      (event again : SensorFrameEvent) (raw_payload raw_again : String) (tables : Tables)
      → key_of again ≡ key_of event
      → let stored = (persist prefix airport_id false (frame event) raw_payload tables).1 in
        (has_key (key_of event) stored.sensor_events ≡ true)
        × (persist prefix airport_id false (frame again) raw_again stored ≡ (ok tt, stored))
  unfolding persist insert_once
  persist_again event again raw_payload raw_again tables k =
      let stored = insert_once prefix airport_id raw_payload event tables in
      let found = insert_once-has_key raw_payload event tables in
      let found_again = ap (λ x. has_key x stored.sensor_events) k ∙ found in
      (found, ap (λ x. (ok tt, x)) (if_true _ _ _ found_again))
