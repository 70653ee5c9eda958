-- ===== src/Base/Slug.antt =====
-- `slug` of go/internal/store/store.go, and the shape of what it returns. `to_lower` stands for
-- `strings.ToLower`.
use Prim.Native.Char.{code}
use Prim.Native.Nat.{ℕ}
use Prim.Native.String.{String}
use mathlib.Core.Path.{◌≡◌, refl}
use mathlib.Core.Bool.{Bool, true, false, not, ◌&&◌, ◌||◌}
use native.Mathlib.Omega.{arith}
use mlops.Base.Tests.{leb, eqb, if◌then◌else◌}
use mlops.Base.Text.{is_empty, trim_space, any_code}

-- A lower-case letter of ASCII or a digit.
abbrev pub is_plain : ℕ → Bool
is_plain r = (leb 97 r && leb r 122) || (leb 48 r && leb r 57)

-- The loop: what is written from here on, where `some` says that something has been written and
-- `dash` that it ends in a dash of the loop.
slug_from : Bool → Bool → String → String
slug_from started dash String.[] = String.[]
slug_from started dash (String.◌∷◌ r s) =
    let plain = is_plain (code r) in
    let rest = slug_from (started || plain) (if plain then false else dash || started) s in
    if plain then String.◌∷◌ r rest else if not dash && started then String.◌∷◌ "-" rest else rest

abbrev is_dash : ℕ → Bool
is_dash r = eqb r 45

drop_dashes : String → String
drop_dashes String.[] = String.[]
drop_dashes (String.◌∷◌ r s) = if is_dash (code r) then drop_dashes s else String.◌∷◌ r s

drop_last_dashes : String → String
drop_last_dashes String.[] = String.[]
drop_last_dashes (String.◌∷◌ r s) =
    let rest = drop_last_dashes s in
    if is_empty rest && is_dash (code r) then String.[] else String.◌∷◌ r rest

-- `strings.Trim(s, "-")`
unfoldable pub trim_dashes : String → String
unfolding drop_dashes drop_last_dashes
trim_dashes s = drop_last_dashes (drop_dashes s)

unfoldable pub slug : (String → String) → String → String
unfolding slug_from drop_dashes drop_last_dashes
slug to_lower value =
    drop_last_dashes (drop_dashes (slug_from false false (to_lower (trim_space value))))

-- Plain characters and dashes, each dash between two plain characters. The flag says that a plain
-- character stands before the text.
abbrev pub is_slug_after : Bool → String → Bool
is_slug_after plain String.[] = plain
is_slug_after plain (String.◌∷◌ r s) =
    (is_plain (code r) && is_slug_after true s)
    || (is_dash (code r) && plain && is_slug_after false s)

abbrev pub is_slug : String → Bool
is_slug s = is_empty s || is_slug_after false s

-- The same, but for a dash that may stand at the end.
abbrev is_open_slug : Bool → String → Bool
is_open_slug plain String.[] = true
is_open_slug plain (String.◌∷◌ r s) =
    (is_plain (code r) && is_open_slug true s)
    || (is_dash (code r) && plain && is_open_slug false s)

slug_from-open :
    (started dash : Bool) (s : String)
    → is_open_slug (started && not dash) (slug_from started dash s) ≡ true
unfolding slug_from
slug_from-open started dash String.[] = refl
slug_from-open started dash (String.◌∷◌ r s) = ground (
  arith,
  slug_from-open true false s,
  slug_from-open started (dash || started) s,
  slug_from-open started true s,
)

drop_dashes-open : (s : String) → is_open_slug false s ≡ true → drop_dashes s ≡ s
unfolding drop_dashes
drop_dashes-open String.[] h = refl
drop_dashes-open (String.◌∷◌ r s) h = ground arith

slug_of_empty : (s : String) → is_empty s ≡ true → is_slug_after true s ≡ true
slug_of_empty String.[] h = refl
slug_of_empty (String.◌∷◌ r s) h = ground arith

drop_last_dashes-slug :
    (plain : Bool) (s : String)
    → is_open_slug plain s ≡ true
    → (is_empty (drop_last_dashes s) || is_slug_after plain (drop_last_dashes s)) ≡ true
unfolding drop_last_dashes
drop_last_dashes-slug plain String.[] h = refl
drop_last_dashes-slug plain (String.◌∷◌ r s) h = ground (
  arith,
  slug_of_empty (drop_last_dashes s),
  drop_last_dashes-slug true s,
  drop_last_dashes-slug false s,
)

-- A slug has lower-case letters of ASCII, digits, and single dashes between those.
pub slug-is_slug :
    (to_lower : String → String) (value : String) → is_slug (slug to_lower value) ≡ true
unfolding slug
slug-is_slug to_lower value =
    let open_slug = slug_from-open false false (to_lower (trim_space value)) in
    rw (drop_dashes-open (slug_from false false (to_lower (trim_space value))) open_slug)
      (drop_last_dashes-slug false (slug_from false false (to_lower (trim_space value))) open_slug)

slug_from-plain : (s : String) → any_code is_plain s ≡ false → slug_from false false s ≡ String.[]
unfolding slug_from
slug_from-plain String.[] h = refl
slug_from-plain (String.◌∷◌ r s) h = ground (arith, slug_from-plain s)

-- A text with no letter of ASCII and no digit has the empty slug.
pub slug-eq-empty :
    (to_lower : String → String) (value : String)
    → any_code is_plain (to_lower (trim_space value)) ≡ false
    → slug to_lower value ≡ String.[]
unfolding slug drop_dashes drop_last_dashes
slug-eq-empty to_lower value h = rw (slug_from-plain (to_lower (trim_space value)) h)
