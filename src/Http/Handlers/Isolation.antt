-- ===== src/Http/Handlers/Isolation.antt =====
-- What a user may not access, and handlers that leave it as it is.
pub mod Stored
pub mod Resources
pub mod Projects
pub mod Dispatch
pub mod Runs
pub mod Models
pub mod Workloads
pub mod Calls
use mlops.Base.{
  ◌≡◌, refl, ap, ◌∙◌, String, Bool, true, not, List, [], ◌∷◌, Option, some, filter, inl, inr,
  Bool-cases, arith,
}
use mlops.Base.First.{find_first, update_first, remove_first}
use mlops.Auth.{Principal}
use mlops.Store.{State}
use mlops.Http.Access.{allowed_project_ids, permits}

-- The members that stand in projects outside a set.
abbrev pub foreign {ℓ} : {A : Type ℓ} → Option (List String) → (A → String) → List A → List A
foreign allowed key xs = filter (λ x. not (permits allowed (key x))) xs

-- The caller may access the same projects in both states, and all that stands in other projects is
-- the same.
abbrev pub IsIsolated : Principal → State → State → Type 0
IsIsolated p s s' =
    let allowed = allowed_project_ids s p in
    (allowed_project_ids s' p ≡ allowed)
    × (foreign allowed (λ x. x.project_id) s'.runs ≡ foreign allowed (λ x. x.project_id) s.runs)
    × (foreign allowed (λ x. x.project_id) s'.models ≡ foreign allowed (λ x. x.project_id) s.models)
    × (foreign allowed (λ x. x.project_id) s'.agents ≡ foreign allowed (λ x. x.project_id) s.agents)
    × (foreign allowed (λ x. x.project_id) s'.functions
        ≡ foreign allowed (λ x. x.project_id) s.functions)
    × (foreign allowed (λ x. x.project_id) s'.definitions
        ≡ foreign allowed (λ x. x.project_id) s.definitions)
    × (foreign allowed (λ x. x.id) s'.projects ≡ foreign allowed (λ x. x.id) s.projects)

pub IsIsolated-refl : (p : Principal) (s : State) → IsIsolated p s s
IsIsolated-refl p s = (refl, refl, refl, refl, refl, refl, refl)

pub IsIsolated-trans :
    (p : Principal) (s s' s'' : State)
    → IsIsolated p s s'
    → IsIsolated p s' s''
    → IsIsolated p s s''
IsIsolated-trans p s s' s'' (a, b, c, d, e, f, g) h =
    let (a', b', c', d', e', f', g') = rw a at h in
    (a', b' ∙ b, c' ∙ c, d' ∙ d, e' ∙ e, f' ∙ f, g' ∙ g)

module _ {ℓ} {A : Type ℓ} (allowed : Option (List String)) (key : A → String) where
  pub foreign-cons :
      (x : A) (xs : List A)
      → permits allowed (key x) ≡ true
      → foreign allowed key (x ∷ xs) ≡ foreign allowed key xs
  foreign-cons x xs h = rw h

  pub foreign-update_first :
      (p : A → Bool) (f : A → A) (xs : List A) {found : A}
      → find_first p xs ≡ some found
      → permits allowed (key found) ≡ true
      → key (f found) ≡ key found
      → foreign allowed key (update_first p f xs) ≡ foreign allowed key xs
  foreign-update_first p f [] e h same = cc
  foreign-update_first p f (x ∷ xs) {found} e h same = elim (Bool-cases (p x)) [
    | inl t ↦
        let here : x ≡ found = ground arith in
        rw t (ground (arith, ap f here, ap key here, ap (λ y. key (f y)) here))
    | inr t ↦ rw t (ground (arith, foreign-update_first p f xs {found = found} (rw t at e) h same))
  ]

  pub foreign-remove_first :
      (p : A → Bool) (xs : List A) {found : A}
      → find_first p xs ≡ some found
      → permits allowed (key found) ≡ true
      → foreign allowed key (remove_first p xs) ≡ foreign allowed key xs
  foreign-remove_first p [] e h = cc
  foreign-remove_first p (x ∷ xs) {found} e h = elim (Bool-cases (p x)) [
    | inl t ↦ let here : x ≡ found = ground arith in rw t (ground (arith, ap key here))
    | inr t ↦ rw t (ground (arith, foreign-remove_first p xs {found = found} (rw t at e) h))
  ]
