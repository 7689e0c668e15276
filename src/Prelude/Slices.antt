-- ===== src/Prelude/Slices.antt =====
-- `String.prototype.startsWith` with `slice`, `trim` and `split`.
use Prim.Native.String
use Prim.Native.Char.{Char, code}
use Prim.Native.Nat.{ℕ}
use Prim.Native.String.{String}
use text.Mathlib.TextLemmas.{cons-append, nil-append}
use mathlib.Core.Path.{ap, refl, ◌≡◌}
use mathlib.Core.Bool.{Bool, ◌&&◌, ◌||◌}
use mathlib.Core.Option.{Option, none, some}
use mathlib.Core.List.{List, [], ◌∷◌}
use native.Mathlib.Omega.{arith}
use airport_inspection_platf.Prelude.Tests.{if◌then◌else◌, leb, ◌==◌}

-- `s.startsWith(prefix) ? s.slice(prefix.length) : undefined`
unfoldable pub after_prefix : String → String → Option String
after_prefix String.[] s = some s
after_prefix (String.◌∷◌ c prefix) String.[] = none
after_prefix (String.◌∷◌ c prefix) (String.◌∷◌ d s) =
    if code c == code d then after_prefix prefix s else none

-- A text is found again behind what it was appended to.
pub after_prefix-append : (prefix s : String) → after_prefix prefix (String.◌++◌ prefix s) ≡ some s
unfolding after_prefix
after_prefix-append String.[] s = ap some (nil-append s)
after_prefix-append (String.◌∷◌ c prefix) s =
    rw (cons-append c prefix s) (ground (arith, after_prefix-append prefix s))

-- A text does not start with itself and one more character.
pub after_prefix-longer :
    (prefix : String) (c : Char) → after_prefix (String.◌++◌ prefix (String.◌∷◌ c "")) prefix ≡ none
unfolding after_prefix
after_prefix-longer String.[] c = rw (nil-append (String.◌∷◌ c "")) refl
after_prefix-longer (String.◌∷◌ d prefix) c =
    rw (cons-append d prefix (String.◌∷◌ c "")) (ground (arith, after_prefix-longer prefix c))

-- White space and line ends, as the language lists them.
abbrev is_space : ℕ → Bool
is_space c =
    leb 9 c && leb c 13
    || c == 32
    || c == 160
    || c == 5760
    || leb 8192 c && leb c 8202
    || c == 8232
    || c == 8233
    || c == 8239
    || c == 8287
    || c == 12288
    || c == 65279

trim_start : String → String
trim_start String.[] = ""
trim_start (String.◌∷◌ c s) =
    let rest = trim_start s in if is_space (code c) then rest else String.◌∷◌ c s

abbrev before_spaces : Char → String → String
before_spaces c String.[] = if is_space (code c) then "" else String.◌∷◌ c ""
before_spaces c (String.◌∷◌ d s) = String.◌∷◌ c (String.◌∷◌ d s)

trim_end : String → String
trim_end String.[] = ""
trim_end (String.◌∷◌ c s) = before_spaces c (trim_end s)

-- `s.trim()`
unfoldable pub trim : String → String
unfolding trim_start trim_end
trim s = trim_end (trim_start s)

abbrev add_first : Char → List String → List String
add_first c [] = String.◌∷◌ c "" ∷ []
add_first c (piece ∷ pieces) = String.◌∷◌ c piece ∷ pieces

-- `s.split(",")`
unfoldable pub split_comma : String → List String
split_comma String.[] = "" ∷ []
split_comma (String.◌∷◌ c s) =
    let pieces = split_comma s in if code c == b',' then "" ∷ pieces else add_first c pieces

split_protocols : split_comma "chat,,bearer.t" ≡ "chat" ∷ "" ∷ "bearer.t" ∷ []
unfolding split_comma
split_protocols = refl

trim_both : trim "  a b " ≡ "a b"
unfolding trim
trim_both = refl
