-- ===== src/Prelude/Marked.antt =====
-- A text before another, so that the two can be told apart: each character of the first is marked, and
-- a bar ends it. The tests make codecs of it.
use Prim.Native.String.{String}
use mathlib.Core.Path.{◌≡◌, refl, ap}
use mathlib.Core.Logic.{◌≢◌}
use mathlib.Core.Option.{Option, none, some}
use Prim.Native.Char.{Char, code}
use text.Mathlib.TextLemmas.{cons-ne-nil}
use airport_inspection_platf.Prelude.Tests.{if◌then◌else◌, ◌==◌}

pub mark : String → String → String
mark String.[] id = String.◌∷◌ "|" id
mark (String.◌∷◌ c s) id = String.◌∷◌ "x" (String.◌∷◌ c (mark s id))

abbrev longer : Char → Option (String × String) → Option (String × String)
longer c none = none
longer c (some (s, id)) = some (String.◌∷◌ c s, id)

pub unmark : String → Option (String × String)
unmark String.[] = none
unmark (String.◌∷◌ m String.[]) = if code m == b'|' then some ("", "") else none
unmark (String.◌∷◌ m (String.◌∷◌ c s)) =
    if code m == b'|' then some ("", String.◌∷◌ c s) else longer c (unmark s)

pub unmark-mark : (s id : String) → unmark (mark s id) ≡ some (s, id)
unfolding mark unmark
unmark-mark String.[] String.[] = refl
unmark-mark String.[] (String.◌∷◌ c id) = refl
unmark-mark (String.◌∷◌ c s) id = ap (longer c) (unmark-mark s id)

pub mark-ne-empty : (s id : String) → mark s id ≢ ""
unfolding mark
mark-ne-empty String.[] id = cons-ne-nil "|" id
mark-ne-empty (String.◌∷◌ c s) id = cons-ne-nil "x" (String.◌∷◌ c (mark s id))
