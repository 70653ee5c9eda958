-- ===== src/Base/Member.antt =====
-- Lists of texts as sets: membership, inclusion, and lists without repetition.
use Prim.Native.String.{String}
use Prim.Native.Nat.{suc, ◌≤◌}
use mathlib.Core.Path.{◌≡◌, refl}
use mathlib.Core.Bool.{true, false, ◌||◌}
use mathlib.Core.Logic.{inl, inr}
use mathlib.Core.List.{List, [], ◌∷◌, ◌++◌}
use native.Mathlib.Omega.{arith}
use text.Mathlib.Text.{◌==◌}
use text.Mathlib.TextEquality.{eq_iff}
use text.Mathlib.TextPositions.{eq_refl}
use mlops.Base.Tests.{Bool-cases, if◌then◌else◌}
use mlops.Base.Lists.{length}
use mlops.Base.Text.{contains}

-- The list without the first member equal to a text.
abbrev erase : List String → String → List String
erase [] s = []
erase (x ∷ xs) s = if x == s then xs else x ∷ erase xs s

-- No text stands twice in the list.
abbrev pub IsDistinct : List String → Type 0
IsDistinct [] = Unit
IsDistinct (x ∷ xs) = (contains xs x ≡ false) × IsDistinct xs

abbrev pub IsSubset : List String → List String → Type 0
IsSubset xs ys = (s : String) → contains xs s ≡ true → contains ys s ≡ true

pub contains-cons_self : (x : String) (xs : List String) → contains (x ∷ xs) x ≡ true
unfolding contains
contains-cons_self x xs = rw (eq_refl x)

pub contains-append :
    (xs ys : List String) (s : String) → contains (xs ++ ys) s ≡ (contains xs s || contains ys s)
unfolding contains
contains-append [] ys s = refl
contains-append (x ∷ xs) ys s = ground (arith, contains-append xs ys s)

contains-erase :
    (xs : List String) (s t : String)
    → (s == t) ≡ false
    → contains xs t ≡ true
    → contains (erase xs s) t ≡ true
unfolding contains
contains-erase [] s t h k = cc
contains-erase (x ∷ xs) s t h k =
    ground (arith, contains-erase xs s t h, eq_iff x s, eq_iff x t, eq_iff s t)

length-erase :
    (xs : List String) (s : String) → contains xs s ≡ true → suc (length (erase xs s)) ≡ length xs
unfolding contains
length-erase [] s h = cc
length-erase (x ∷ xs) s h = ground (arith, length-erase xs s)

-- A list of distinct texts is no longer than a list that has them all.
pub length-le_of_subset :
    (xs ys : List String) → IsDistinct xs → IsSubset xs ys → length xs ≤ length ys
unfolding contains
length-le_of_subset [] ys d sub = omega arith
length-le_of_subset (x ∷ xs) ys (fresh, d) sub =
    let here : contains ys x ≡ true = sub x (contains-cons_self x xs) in
    omega (arith, length-erase ys x here, length-le_of_subset xs (erase ys x) d later)
  where
    later : IsSubset xs (erase ys x)
    later s m = elim (Bool-cases (x == s)) [
      | inl e ↦ let same : x ≡ s = (eq_iff x s).0 e in cc
      | inr e ↦ contains-erase ys x s e (sub s (rw e m))
    ]
