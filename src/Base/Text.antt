-- ===== src/Base/Text.antt =====
-- The functions of Go's `strings` and `slices` packages that the program calls, on texts of
-- Unicode code points.
pub mod Laws
use Prim.Native.Nat.{ℕ, suc, ◌+◌}
use Prim.Native.Char.{code}
use Prim.Native.String.{String}
use mathlib.Core.Bool.{Bool, true, false, not, ◌&&◌, ◌||◌}
use mathlib.Core.Option.{Option, none, some}
use mathlib.Core.List.{List, [], ◌∷◌}
use text.Mathlib.Text.{◌==◌}
use mlops.Base.Tests.{ltb, leb, eqb, if◌then◌else◌}

abbrev pub is_empty : String → Bool
is_empty String.[] = true
is_empty (String.◌∷◌ c s) = false

-- The bytes of a code point in UTF-8.
utf8_width : ℕ → ℕ
utf8_width n = if ltb n 0x80 then 1 else if ltb n 0x800 then 2 else if ltb n 0x10000 then 3 else 4

-- `len(s)`, which counts bytes.
unfoldable pub byte_length : String → ℕ
unfolding utf8_width
byte_length String.[] = 0
byte_length (String.◌∷◌ c s) = utf8_width (code c) + byte_length s

-- `strings.HasPrefix(s, prefix)`
unfoldable pub has_prefix : String → String → Bool
has_prefix s String.[] = true
has_prefix String.[] (String.◌∷◌ c p) = false
has_prefix (String.◌∷◌ d s) (String.◌∷◌ c p) = eqb (code d) (code c) && has_prefix s p

-- `strings.HasSuffix(s, suffix)`
unfoldable pub has_suffix : String → String → Bool
has_suffix String.[] t = is_empty t
has_suffix (String.◌∷◌ c s) t = String.◌∷◌ c s == t || has_suffix s t

-- `strings.Contains(s, part)`
unfoldable pub has_part : String → String → Bool
unfolding has_prefix
has_part String.[] t = is_empty t
has_part (String.◌∷◌ c s) t = has_prefix (String.◌∷◌ c s) t || has_part s t

-- `unicode.IsSpace`: the code points with Unicode's property White_Space.
abbrev pub is_space : ℕ → Bool
is_space n =
    (leb 9 n && leb n 13)
    || eqb n 32
    || eqb n 0x85
    || eqb n 0xA0
    || eqb n 0x1680
    || (leb 0x2000 n && leb n 0x200A)
    || eqb n 0x2028
    || eqb n 0x2029
    || eqb n 0x202F
    || eqb n 0x205F
    || eqb n 0x3000

trim_left : String → String
trim_left String.[] = String.[]
trim_left (String.◌∷◌ c s) = if is_space (code c) then trim_left s else String.◌∷◌ c s

trim_right : String → String
trim_right String.[] = String.[]
trim_right (String.◌∷◌ c s) =
    let r = trim_right s in if is_empty r && is_space (code c) then String.[] else String.◌∷◌ c r

-- `strings.TrimSpace`
unfoldable pub trim_space : String → String
unfolding trim_left trim_right
trim_space s = trim_right (trim_left s)

-- What follows a prefix, where the text has it.
strip_prefix : String → String → Option String
strip_prefix s String.[] = some s
strip_prefix String.[] (String.◌∷◌ c p) = none
strip_prefix (String.◌∷◌ d s) (String.◌∷◌ c p) =
    let rest = strip_prefix s p in if eqb (code d) (code c) then rest else none

-- `strings.TrimPrefix(s, prefix)`
unfoldable pub trim_prefix : String → String → String
unfolding strip_prefix
trim_prefix s p = elim (strip_prefix s p) [ none ↦ s | some rest ↦ rest ]

-- `slices.Contains`
unfoldable pub contains : List String → String → Bool
contains [] s = false
contains (x ∷ xs) s = x == s || contains xs s

-- Whether some character of the text has a property of code points.
abbrev pub any_code : (ℕ → Bool) → String → Bool
any_code p String.[] = false
any_code p (String.◌∷◌ c s) = p (code c) || any_code p s

-- `len(strings.Fields(s))`, the number of maximal parts without white space. The flag says that the
-- text goes on in such a part.
fields_from : Bool → String → ℕ
fields_from inside String.[] = 0
fields_from inside (String.◌∷◌ c s) =
    let space = is_space (code c) in
    let rest = fields_from (not space) s in if space || inside then rest else suc rest

unfoldable pub count_fields : String → ℕ
unfolding fields_from
count_fields = fields_from false

-- `strings.Split(s, sep)` for a separator of one code point: the text up to the first separator, and
-- the parts after it.
split_from : ℕ → String → String × List String
split_from sep String.[] = (String.[], [])
split_from sep (String.◌∷◌ c s) =
    let (part, parts) = split_from sep s in
    if eqb (code c) sep then (String.[], part ∷ parts) else (String.◌∷◌ c part, parts)

unfoldable pub split : ℕ → String → List String
unfolding split_from
split sep s = let (part, parts) = split_from sep s in part ∷ parts
