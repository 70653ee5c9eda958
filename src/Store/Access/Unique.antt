-- ===== src/Store/Access/Unique.antt =====
-- `unique` of go/internal/store/access.go.
use mlops.Base.{
  ◌≡◌, refl, ap, String, Bool, true, false, List, [], ◌∷◌, ◌&&◌, not, All, inl, inr, Bool-cases,
  eq_iff, arith, map, ◌∙◌, eq_refl,
}
use mlops.Base.Text.{is_empty, trim_space, contains}
use mlops.Base.Text.Laws.{trim_space_idem}
use mlops.Base.Member.{IsDistinct}
use mlops.Store.Access.{unique_from, unique}

-- Texts that are trimmed, not empty, and stand once each.
abbrev IsTrimmed : String → Type 0
IsTrimmed t = (is_empty t ≡ false) × (trim_space t ≡ t)

abbrev pub IsClean : List String → Type 0
IsClean xs = All IsTrimmed xs × IsDistinct xs

-- The test of the loop.
abbrev is_fresh : List String → String → Bool
is_fresh seen t = not (is_empty t) && not (contains seen t)

unique_from-keep :
    (seen : List String) (v : String) (vs : List String)
    → is_fresh seen (trim_space v) ≡ true
    → unique_from seen (v ∷ vs) ≡ trim_space v ∷ unique_from (trim_space v ∷ seen) vs
unfolding unique_from
unique_from-keep seen v vs e = rw (e, unique_from)

unique_from-skip :
    (seen : List String) (v : String) (vs : List String)
    → is_fresh seen (trim_space v) ≡ false
    → unique_from seen (v ∷ vs) ≡ unique_from seen vs
unfolding unique_from
unique_from-skip seen v vs e = rw (e, unique_from)

unique_from-IsTrimmed : (seen values : List String) → All IsTrimmed (unique_from seen values)
unique_from-IsTrimmed seen [] = unfold unique_from in tt
unique_from-IsTrimmed seen (v ∷ vs) = elim (Bool-cases (is_fresh seen (trim_space v))) [
  | inl e ↦
      rw (unique_from-keep seen v vs e)
        ((ground arith, trim_space_idem v), unique_from-IsTrimmed (trim_space v ∷ seen) vs)
  | inr e ↦ rw (unique_from-skip seen v vs e) (unique_from-IsTrimmed seen vs)
]

-- Which texts the loop returns.
contains-unique_from :
    (seen values : List String) (t : String)
    → contains (unique_from seen values) t ≡ (is_fresh seen t && contains (map trim_space values) t)
unfolding contains
contains-unique_from seen [] t = unfold unique_from in ground arith
contains-unique_from seen (v ∷ vs) t = elim (Bool-cases (is_fresh seen (trim_space v))) [
  | inl e ↦
      rw (unique_from-keep seen v vs e)
        (ground (arith, eq_iff (trim_space v) t, contains-unique_from (trim_space v ∷ seen) vs t))
  | inr e ↦
      rw (unique_from-skip seen v vs e)
        (ground (arith, eq_iff (trim_space v) t, contains-unique_from seen vs t))
]

unique_from-IsDistinct : (seen values : List String) → IsDistinct (unique_from seen values)
unique_from-IsDistinct seen [] = unfold unique_from in tt
unique_from-IsDistinct seen (v ∷ vs) = elim (Bool-cases (is_fresh seen (trim_space v))) [
  | inl e ↦ rw (unique_from-keep seen v vs e) (
    contains-unique_from (trim_space v ∷ seen) vs (trim_space v)
        ∙ unfold contains in ground (arith, eq_refl (trim_space v)),
    unique_from-IsDistinct (trim_space v ∷ seen) vs,
  )
  | inr e ↦ rw (unique_from-skip seen v vs e) (unique_from-IsDistinct seen vs)
]

absent-All :
    (seen xs : List String) (t : String)
    → contains xs t ≡ false
    → All (λ x. contains seen x ≡ false) xs
    → All (λ x. contains (t ∷ seen) x ≡ false) xs
unfolding contains
absent-All seen [] t h k = tt
absent-All seen (x ∷ xs) t h k =
    (ground (arith, eq_iff x t, eq_iff t x), absent-All seen xs t (ground arith) k.1)

unique_from_of_clean :
    (seen xs : List String)
    → IsClean xs
    → All (λ x. contains seen x ≡ false) xs
    → unique_from seen xs ≡ xs
unique_from_of_clean seen [] c k = unfold unique_from in refl
unique_from_of_clean seen (x ∷ xs) ((trimmed, ts), (once, ds)) k =
    unique_from-keep seen x xs (rw trimmed.1 (ground arith))
    ∙ rw trimmed.1
        (ap (◌∷◌ x) (unique_from_of_clean (x ∷ seen) xs (ts, ds) (absent-All seen xs x once k.1)))

-- `unique` returns trimmed texts that are not empty, each once: those that the given texts trim to.
pub unique-IsClean :
    (values : List String) (t : String)
    → IsClean (unique values)
      × (contains (unique values) t ≡ (not (is_empty t) && contains (map trim_space values) t))
unfolding unique
unique-IsClean values t = (
  (unique_from-IsTrimmed [] values, unique_from-IsDistinct [] values),
  contains-unique_from [] values t ∙ unfold contains in ground arith,
)

none_seen : (xs : List String) → All (λ x. contains [] x ≡ false) xs
unfolding contains
none_seen [] = tt
none_seen (x ∷ xs) = (refl, none_seen xs)

-- Applied to its own result, `unique` changes nothing.
unique_idem : (values : List String) → unique (unique values) ≡ unique values
unfolding unique
unique_idem values =
    unique_from_of_clean [] (unique_from [] values) (unique-IsClean values "").0
      (none_seen (unique_from [] values))
