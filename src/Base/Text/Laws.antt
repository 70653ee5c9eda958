-- ===== src/Base/Text/Laws.antt =====
-- Laws of the text functions: trimming, prefixes, membership.
use Prim.Native.Char.{code}
use mathlib.Core.Path.{◌≡◌, refl, ap, ◌∙◌}
use mathlib.Core.Bool.{Bool, true, false, not, ◌&&◌, ◌||◌}
use mathlib.Core.Logic.{inl, inr}
use native.Mathlib.Omega.{arith}
use Prim.Native.String.{String}
use mlops.Base.Tests.{Bool-cases}
use mlops.Base.Text.{is_empty, is_space, trim_left, trim_right, trim_space, has_prefix}

-- A text that does not begin with white space.
abbrev starts_solid : String → Bool
starts_solid String.[] = true
starts_solid (String.◌∷◌ c s) = not (is_space (code c))

starts_solid-trim_left : (s : String) → starts_solid (trim_left s) ≡ true
unfolding trim_left
starts_solid-trim_left String.[] = refl
starts_solid-trim_left (String.◌∷◌ c s) = elim (Bool-cases (is_space (code c))) [
  | inl e ↦ rw e (starts_solid-trim_left s)
  | inr e ↦ rw e (rw e)
]

trim_left_of_solid : (s : String) → starts_solid s ≡ true → trim_left s ≡ s
unfolding trim_left
trim_left_of_solid String.[] h = refl
trim_left_of_solid (String.◌∷◌ c s) h = elim (Bool-cases (is_space (code c))) [
  | inl e ↦ cc (rw e at h)
  | inr e ↦ rw e
]

starts_solid-trim_right : (s : String) → starts_solid s ≡ true → starts_solid (trim_right s) ≡ true
unfolding trim_right
starts_solid-trim_right String.[] h = refl
starts_solid-trim_right (String.◌∷◌ c s) h = elim (Bool-cases (is_empty (trim_right s))) [
  | inl e ↦ ground arith
  | inr e ↦ rw e h
]

trim_right_idem : (s : String) → trim_right (trim_right s) ≡ trim_right s
unfolding trim_right
trim_right_idem String.[] = refl
trim_right_idem (String.◌∷◌ c s) =
    elim (Bool-cases (is_empty (trim_right s) && is_space (code c))) [
      | inl e ↦ rw e
      | inr e ↦ rw e (rw (trim_right_idem s, e))
    ]

-- A trimmed text stays as it is when it is trimmed again.
pub trim_space_idem : (s : String) → trim_space (trim_space s) ≡ trim_space s
unfolding trim_space
trim_space_idem s =
    let u = trim_left s in
    let solid = starts_solid-trim_right u (starts_solid-trim_left s) in
    ap trim_right (trim_left_of_solid (trim_right u) solid) ∙ trim_right_idem u

-- Of two prefixes of one text, one is a prefix of the other.
has_prefix_comparable :
    (s p q : String)
    → has_prefix s p ≡ true
    → has_prefix s q ≡ true
    → (has_prefix p q || has_prefix q p) ≡ true
unfolding has_prefix
has_prefix_comparable s String.[] String.[] h k = refl
has_prefix_comparable s String.[] (String.◌∷◌ d q) h k = refl
has_prefix_comparable s (String.◌∷◌ c p) String.[] h k = refl
has_prefix_comparable String.[] (String.◌∷◌ c p) (String.◌∷◌ d q) h k = cc
has_prefix_comparable (String.◌∷◌ b s) (String.◌∷◌ c p) (String.◌∷◌ d q) h k =
    ground (arith, has_prefix_comparable s p q)

has_prefix_trans :
    (s p q : String) → has_prefix s p ≡ true → has_prefix p q ≡ true → has_prefix s q ≡ true
unfolding has_prefix
has_prefix_trans s p String.[] h k = refl
has_prefix_trans s String.[] (String.◌∷◌ d q) h k = cc
has_prefix_trans String.[] (String.◌∷◌ c p) (String.◌∷◌ d q) h k = cc
has_prefix_trans (String.◌∷◌ b s) (String.◌∷◌ c p) (String.◌∷◌ d q) h k =
    ground (arith, has_prefix_trans s p q)

-- A text with one prefix does not have another that neither extends it nor is extended by it.
pub has_prefix_apart :
    (s p q : String)
    → has_prefix s p ≡ true
    → (has_prefix p q || has_prefix q p) ≡ false
    → has_prefix s q ≡ false
has_prefix_apart s p q h k = elim (Bool-cases (has_prefix s q)) [
  | inl e ↦ cc (has_prefix_comparable s p q h e)
  | inr e ↦ e
]
