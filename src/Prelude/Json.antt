-- ===== src/Prelude/Json.antt =====
-- JSON values. A number stands by the text that JavaScript prints for it.
use Prim.Native.String.{String}
use mathlib.Core.Bool.{Bool}
use mathlib.Core.Option.{Option, none, some}
use airport_inspection_platf.Prelude.Tests.{if◌then◌else◌, str_eq}

mutual
  pub data Json : Type 0 where
    null : Json
    bool : Bool → Json
    num : String → Json
    str : String → Json
    arr : Items → Json
    obj : Fields → Json

  pub data Items : Type 0 where
    nil : Items
    cons : Json → Items → Items

  pub data Fields : Type 0 where
    end : Fields
    field : String → Json → Fields → Fields

-- `fields[key]`
unfoldable pub member : String → Fields → Option Json
member k end = none
member k (field j v fs) = if str_eq j k then some v else member k fs

-- `typeof v === "string" ? v : undefined`
abbrev pub string_of : Option Json → Option String
string_of none = none
string_of (some (str s)) = some s
string_of (some _) = none

-- The fields of a value that is an object, not null and not an array.
abbrev pub record_of : Json → Option Fields
record_of (obj fs) = some fs
record_of _ = none
