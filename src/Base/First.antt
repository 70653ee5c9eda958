-- ===== src/Base/First.antt =====
-- A loop that acts on the first member to pass a test and then returns, and what such loops keep.
use mlops.Base.Tests.{if◌then◌else◌, Bool-cases}
use mlops.Base.Lists.{length, count, All}
use Prim.Native.Nat.{◌≤◌}
use mathlib.Core.Path.{◌≡◌, refl, ap, subst}
use mathlib.Core.Bool.{Bool, true, false}
use mathlib.Core.Logic.{◌⊎◌, inl, inr}
use mathlib.Core.Option.{Option, none, some}
use mathlib.Core.List.{List, [], ◌∷◌}
use native.Mathlib.Omega.{arith}

module _ {ℓ} {A : Type ℓ} where
  -- `for _, v := range xs { if p(v) { return v } }`
  abbrev pub find_first : (A → Bool) → List A → Option A
  find_first p [] = none
  find_first p (x ∷ xs) = if p x then some x else find_first p xs

  -- `for i := range xs { if p(xs[i]) { xs[i] = f(xs[i]); return } }`
  abbrev pub update_first : (A → Bool) → (A → A) → List A → List A
  update_first p f [] = []
  update_first p f (x ∷ xs) = if p x then f x ∷ xs else x ∷ update_first p f xs

  -- `for i := range xs { if p(xs[i]) { xs = append(xs[:i], xs[i+1:]...); return } }`
  abbrev pub remove_first : (A → Bool) → List A → List A
  remove_first p [] = []
  remove_first p (x ∷ xs) = if p x then xs else x ∷ remove_first p xs

  -- Two updates of the same member are one.
  pub update_first-update_first :
      (p : A → Bool) (f g : A → A)
      → ((x : A) → p (f x) ≡ p x)
      → (xs : List A) → update_first p g (update_first p f xs) ≡ update_first p (λ x. g (f x)) xs
  update_first-update_first p f g same [] = refl
  update_first-update_first p f g same (x ∷ xs) = elim (Bool-cases (p x)) [
    | inl e ↦ rw (e, same x, e) refl
    | inr e ↦ rw (e, e) (ap (λ ys. x ∷ ys) (update_first-update_first p f g same xs))
  ]

  pub find_first_passes :
      (p : A → Bool) (xs : List A) {x : A} → find_first p xs ≡ some x → p x ≡ true
  find_first_passes p [] h = cc
  find_first_passes p (y ∷ ys) {x} h = ground (arith, find_first_passes p ys {x = x})

  pub find_first-update_first :
      (p : A → Bool) (f : A → A) (xs : List A) {x : A}
      → find_first p xs ≡ some x
      → p (f x) ≡ true
      → find_first p (update_first p f xs) ≡ some (f x)
  find_first-update_first p f [] h k = cc
  find_first-update_first p f (y ∷ ys) {x} h k =
      ground (arith, find_first-update_first p f ys {x = x})

  -- A search after an update that does not change whom the search is for.
  pub find_first_after_update :
      (p q : A → Bool) (f : A → A)
      → ((x : A) → q (f x) ≡ q x)
      → (xs : List A) {r : A} → find_first q xs ≡ some r
      → (r' : A) × (find_first q (update_first p f xs) ≡ some r')
        × ((r' ≡ r) ⊎ ((r' ≡ f r) × (find_first p xs ≡ some r)))
  find_first_after_update p q f same [] h = cc
  find_first_after_update p q f same (x ∷ xs) {r} h = elim (Bool-cases (p x)) [
    | inl e ↦ elim (Bool-cases (q x)) [
      | inl k ↦
          let here : x ≡ r = ground arith in
          (f x, ground (arith, same x), inr (ap f here, ground arith))
      | inr k ↦ (r, ground (arith, same x), inl refl)
    ]
    | inr e ↦ elim (Bool-cases (q x)) [
      | inl k ↦ (r, ground arith, inl refl)
      | inr k ↦
          let (r', found, how) = find_first_after_update p q f same xs (rw k at h) in
          (r', ground arith, rw e how)
    ]
  ]

  -- A change or a removal of a member that a search passes over.
  pub find_first-update_first_apart :
      (p q : A → Bool) (f : A → A)
      → ((x : A) → p x ≡ true → q x ≡ false)
      → ((x : A) → q (f x) ≡ false)
      → (xs : List A) → find_first q (update_first p f xs) ≡ find_first q xs
  find_first-update_first_apart p q f apart after [] = refl
  find_first-update_first_apart p q f apart after (x ∷ xs) = elim (Bool-cases (p x)) [
    | inl e ↦ rw (e, after x, apart x e) refl
    | inr e ↦ elim (Bool-cases (q x)) [
      | inl k ↦ rw (e, k) refl
      | inr k ↦ rw (e, k) (find_first-update_first_apart p q f apart after xs)
    ]
  ]

  pub find_first-remove_first_apart :
      (p q : A → Bool)
      → ((x : A) → p x ≡ true → q x ≡ false)
      → (xs : List A) → find_first q (remove_first p xs) ≡ find_first q xs
  find_first-remove_first_apart p q apart [] = refl
  find_first-remove_first_apart p q apart (x ∷ xs) = elim (Bool-cases (p x)) [
    | inl e ↦ rw (e, apart x e) refl
    | inr e ↦ elim (Bool-cases (q x)) [
      | inl k ↦ rw (e, k) refl
      | inr k ↦ rw (e, k) (find_first-remove_first_apart p q apart xs)
    ]
  ]

  length-update_first :
      (p : A → Bool) (f : A → A) (xs : List A) → length (update_first p f xs) ≡ length xs
  length-update_first p f [] = refl
  length-update_first p f (x ∷ xs) = ground (arith, length-update_first p f xs)

  pub count-eq_zero : (q : A → Bool) (xs : List A) → find_first q xs ≡ none → count q xs ≡ 0
  count-eq_zero q [] h = refl
  count-eq_zero q (x ∷ xs) h = ground (arith, count-eq_zero q xs)

  -- Where an update turns no member into one that passes `q`, it adds none.
  pub count-update_first-le :
      (p q : A → Bool) (f : A → A)
      → ((x : A) → p x ≡ true → q (f x) ≡ true → q x ≡ true)
      → (xs : List A) → count q (update_first p f xs) ≤ count q xs
  count-update_first-le p q f h [] = omega arith
  count-update_first-le p q f h (x ∷ xs) = ground (arith, h x, count-update_first-le p q f h xs)

  pub count-remove_first-le :
      (p q : A → Bool) (xs : List A) → count q (remove_first p xs) ≤ count q xs
  count-remove_first-le p q [] = omega arith
  count-remove_first-le p q (x ∷ xs) = ground (arith, count-remove_first-le p q xs)

module _ {ℓ κ} {A : Type ℓ} (P : A → Type κ) where
  pub All-find_first :
      (p : A → Bool) (xs : List A) {x : A} → All P xs → find_first p xs ≡ some x → P x
  All-find_first p [] h e = cc
  All-find_first p (y ∷ ys) {x} h e = elim (Bool-cases (p y)) [
    | inl t ↦ let same : y ≡ x = ground arith in subst P same h.0
    | inr t ↦ All-find_first p ys h.1 (rw t at e)
  ]

  pub All-update_first :
      (p : A → Bool) (f : A → A) (xs : List A)
      → ((x : A) → p x ≡ true → P x → P (f x))
      → All P xs
      → All P (update_first p f xs)
  All-update_first p f [] k h = tt
  All-update_first p f (x ∷ xs) k h = elim (Bool-cases (p x)) [
    | inl e ↦ rw e (k x e h.0, h.1)
    | inr e ↦ rw e (h.0, All-update_first p f xs k h.1)
  ]

  -- It is enough that the change keeps the property of the member that it is applied to.
  pub All-update_found :
      (p : A → Bool) (f : A → A) (xs : List A) {found : A}
      → find_first p xs ≡ some found
      → (P found → P (f found))
      → All P xs
      → All P (update_first p f xs)
  All-update_found p f [] e k h = tt
  All-update_found p f (x ∷ xs) {found} e k h = elim (Bool-cases (p x)) [
    | inl t ↦
        let same : found ≡ x = ground arith in rw t (subst (λ y. P y → P (f y)) same k h.0, h.1)
    | inr t ↦ rw t (h.0, All-update_found p f xs {found = found} (rw t at e) k h.1)
  ]
