-- ===== src/Pipeline/AiBridge/Airports.antt =====
-- Where a detection is broadcast.
use Prim.Native.String
use airport_inspection_platf.Prelude.Json.{Json, arr, bool, member, null, num, obj, str, string_of}
use airport_inspection_platf.Pipeline.AiBridge.{
  AiDetectionBridge, ParsedAirport, airport, airport_in, airport_of, airport_or, is_detection,
  on_parsed, on_pmessage, parse_airport, type_error, undefined,
}
use airport_inspection_platf.Pipeline.Persistence.{OutboxRow}
use airport_inspection_platf.Prelude.{
  All, All-append, Bool, Bool-cases, List, Option, Option-cases, String, [], arith, eq_iff, false,
  if_false, if_true, inl, inr, none, refl, some, str_eq, subst, sym, true, truthy, ◌∷◌, ◌≡◌, ◌≢◌,
}

-- Every row names an airport behind the prefix.
abbrev pub IsNamed : String → OutboxRow → Type 0
IsNamed prefix row =
    (id : String) × (id ≢ "") × (row.channel ≡ String.◌++◌ prefix (String.◌++◌ "." id))

abbrev pub IsBridge : AiDetectionBridge → Type 0
IsBridge b = (b.default_airport_id ≢ "") × All (IsNamed b.broadcast_channel_prefix) b.event_outbox

IsGood : ParsedAirport → Type 0
IsGood (airport id) = id ≢ ""
IsGood _ = Unit

truthy-IsGood : (d : String) (o : Option String) → d ≢ "" → IsGood (airport_or d (truthy o))
unfolding IsGood
truthy-IsGood d none h = h
truthy-IsGood d (some s) h = elim (Bool-cases (str_eq s "")) [
  | inl empty ↦ subst (λ x. IsGood (airport_or d x)) (sym (if_true _ _ _ empty)) h
  | inr named ↦
      subst (λ x. IsGood (airport_or d x)) (sym (if_false _ _ _ named))
        (λ e. ground (arith, eq_iff s ""))
]

airport_of-IsGood : (d : String) (payload : Option Json) → d ≢ "" → IsGood (airport_of d payload)
unfolding IsGood airport_of
airport_of-IsGood d none h = tt
airport_of-IsGood d (some null) h = tt
airport_of-IsGood d (some (bool b)) h = tt
airport_of-IsGood d (some (num n)) h = tt
airport_of-IsGood d (some (str s)) h = tt
airport_of-IsGood d (some (arr items)) h = h
airport_of-IsGood d (some (obj p)) h = truthy-IsGood d (string_of (member "airport_id" p)) h

airport_in-IsGood : (d : String) (v : Json) → d ≢ "" → IsGood (airport_in d v)
unfolding IsGood airport_in
airport_in-IsGood d null h = tt
airport_in-IsGood d (bool b) h = tt
airport_in-IsGood d (num n) h = tt
airport_in-IsGood d (str s) h = tt
airport_in-IsGood d (arr items) h = tt
airport_in-IsGood d (obj fs) h =
    elim (Bool-cases (is_detection (string_of (member "event_type" fs)))) [
      | inl ai ↦ subst IsGood (sym (if_true _ _ _ ai)) (airport_of-IsGood d (member "payload" fs) h)
      | inr unlike ↦ subst IsGood (sym (if_false _ _ _ unlike)) tt
    ]

module _ (json_parse : String → Option Json) where
  parse_airport-IsGood : (d raw : String) → d ≢ "" → IsGood (parse_airport json_parse d raw)
  unfolding IsGood parse_airport
  parse_airport-IsGood d raw h = elim (Option-cases (json_parse raw)) [
    | inl thrown ↦ rw (thrown, parse_airport) tt
    | inr (v, e) ↦ rw (e, parse_airport) (airport_in-IsGood d v h)
  ]

  on_parsed-IsBridge :
      (refused : Bool) (raw : String) (parsed : ParsedAirport) (b : AiDetectionBridge)
      → IsGood parsed
      → IsBridge b
      → IsBridge (on_parsed json_parse refused raw parsed b)
  unfolding on_parsed IsGood
  on_parsed-IsBridge refused raw undefined b g h = h
  on_parsed-IsBridge refused raw type_error b g h = h
  on_parsed-IsBridge true raw (airport id) b g h = h
  on_parsed-IsBridge false raw (airport id) b g (d, h) =
      (d, All-append (IsNamed b.broadcast_channel_prefix) b.event_outbox _ h ((id, g, refl), tt))

  abbrev pub handle_all : List (Bool × String) → AiDetectionBridge → AiDetectionBridge
  unfolding on_pmessage
  handle_all [] b = b
  handle_all ((refused, raw) ∷ ms) b = handle_all ms (on_pmessage json_parse refused raw b)

  -- Whatever messages arrive, well-formed or not, and whichever rows PostgreSQL refuses, every row that
  -- the bridge has added names a non-empty airport behind its prefix, so that it can be broadcast, if
  -- the rows before did and the default airport is not empty, as the constructor demands.
  pub handle_all-IsBridge :
      (ms : List (Bool × String)) (b : AiDetectionBridge) → IsBridge b → IsBridge (handle_all ms b)
  unfolding handle_all on_pmessage
  handle_all-IsBridge [] b h = h
  handle_all-IsBridge ((refused, raw) ∷ ms) b h =
      handle_all-IsBridge ms (on_pmessage json_parse refused raw b) (
        on_parsed-IsBridge refused raw (parse_airport json_parse b.default_airport_id raw) b
          (parse_airport-IsGood b.default_airport_id raw h.0) h)
