-- ===== src/Store/Definitions/Search.antt =====
-- The search of `validatePipelineDefinition` on any graph: the marks that a call leaves, and the
-- fuel that it needs.
use mlops.Base.{
  ℕ, zero, suc, ◌+◌, ◌<◌, ◌≡◌, ◌≢◌, refl, sym, ◌∙◌, eq_refl, String, true, false, List, [], ◌∷◌,
  ◌==◌, not, ◌⊎◌, inl, inr, Bool-cases, eq_iff, filter, length, All, arith, ap,
}
use mlops.Base.Text.{contains}
use mlops.Base.Member.{IsDistinct, IsSubset, contains-cons_self, length-le_of_subset}
use mlops.Store.Definitions.{Marks, Walk, exhausted, cyclic, clear, visit_all, enter, leave, visit}

pub Walk-cases : (w : Walk) → (w ≡ exhausted) ⊎ ((w ≡ cyclic) ⊎ ((m : Marks) × (w ≡ clear m)))
Walk-cases exhausted = inl refl
Walk-cases cyclic = inr (inl refl)
Walk-cases (clear m) = inr (inr (m, refl))

filter_absent :
    (xs : List String) (name : String)
    → contains xs name ≡ false
    → filter (λ other. not (other == name)) xs ≡ xs
unfolding contains
filter_absent [] name h = refl
filter_absent (x ∷ xs) name h = ground (arith, filter_absent xs name)

pub enter-visiting : (name : String) (m : Marks) → (enter name m).visiting ≡ name ∷ m.visiting
unfolding enter
enter-visiting name m = refl

leave-visiting :
    (name : String) (m n : Marks)
    → contains m.visiting name ≡ false
    → n.visiting ≡ name ∷ m.visiting
    → (leave name n).visiting ≡ m.visiting
unfolding leave
leave-visiting name m n absent inner =
    rw (inner, eq_refl name) (filter_absent m.visiting name absent)

pub All-of_contains {κ} :
    {P : String → Type κ} (xs : List String)
    → ((x : String) → contains xs x ≡ true → P x)
    → All P xs
unfolding contains
All-of_contains [] h = tt
All-of_contains (x ∷ xs) h =
    (h x (contains-cons_self x xs), All-of_contains xs (λ y m. h y (ground arith)))

IsSubset-cons :
    (x : String) (xs ys : List String)
    → contains ys x ≡ true
    → IsSubset xs ys
    → IsSubset (x ∷ xs) ys
unfolding contains
IsSubset-cons x xs ys here sub s m = elim (Bool-cases (x == s)) [
  | inl e ↦ rw (← (eq_iff x s).0 e) here
  | inr e ↦ sub s (ground arith)
]

-- A call that does not end the search leaves `visiting` as it was.
abbrev pub Keeps : (String → Marks → Walk) → Type 0
Keeps call = (name : String) (m m' : Marks) → call name m ≡ clear m' → m'.visiting ≡ m.visiting

module _ (parents : String → List String) where
  -- The calls of a loop all leave `visiting` as it was.
  visit_all-visiting :
      (call : String → Marks → Walk)
      → Keeps call
      → (names : List String) (m : Marks) {m' : Marks} → visit_all call names m ≡ clear m'
      → m'.visiting ≡ m.visiting
  unfolding visit_all
  visit_all-visiting call keeps [] m h = cc
  visit_all-visiting call keeps (name ∷ names) m {m'} h = elim (Walk-cases (call name m)) [
    | inl e ↦ ground arith
    | inr (inl e) ↦ ground arith
    | inr (inr (n, e)) ↦
        visit_all-visiting call keeps names n {m' = m'} (rw (e, visit_all) at h) ∙ keeps name m n e
  ]

  pub visit-visiting : (fuel : ℕ) → Keeps (visit parents fuel)
  unfolding visit
  visit-visiting zero name m m' h = cc
  visit-visiting (suc fuel) name m m' h = elim (Bool-cases (contains m.visiting name)) [
    | inl a ↦ ground arith
    | inr a ↦ elim (Bool-cases (contains m.visited name)) [
      | inl b ↦ ground arith
      | inr b ↦ elim (Walk-cases (visit_all (visit parents fuel) (parents name) (enter name m))) [
        | inl e ↦ ground arith
        | inr (inl e) ↦ ground arith
        | inr (inr (n, e)) ↦
            let inner : n.visiting ≡ name ∷ m.visiting =
              visit_all-visiting (visit parents fuel) (visit-visiting fuel) (parents name)
                (enter name m) e
              ∙ unfold enter in refl in
            let left : leave name n ≡ m' = ground arith in
            sym (ap (λ x. x.visiting) left) ∙ leave-visiting name m n a inner
      ]
    ]
  ]

  -- A result that no call of a loop gives is not given by the loop.
  pub visit_all-avoids :
      (call : String → Marks → Walk) (w : Walk) (v : List String)
      → Keeps call
      → ((m : Marks) → clear m ≢ w)
      → (names : List String) (m : Marks) → m.visiting ≡ v
      → All (λ name. (m : Marks) → m.visiting ≡ v → call name m ≢ w) names
      → visit_all call names m ≢ w
  unfolding visit_all
  visit_all-avoids call w v keeps other [] m e never h = other m h
  visit_all-avoids call w v keeps other (name ∷ names) m e never h =
      elim (Walk-cases (call name m)) [
        | inl c ↦ never.0 m e (c ∙ rw (c, visit_all) at h)
        | inr (inl c) ↦ never.0 m e (c ∙ rw (c, visit_all) at h)
        | inr (inr (n, c)) ↦
            visit_all-avoids call w v keeps other names n (keeps name m n c ∙ e) never.1
              (rw (c, visit_all) at h)
      ]

  module _ (names : List String)
      (closed : (n p : String) → contains (parents n) p ≡ true → contains names p ≡ true) where
    -- The names that are being visited are distinct names of jobs, so that there are no more of
    -- them than jobs: a call that is as deep ends the search.
    pub visit-ne-exhausted :
        (fuel : ℕ) (name : String) (m : Marks)
        → contains names name ≡ true
        → IsDistinct m.visiting
        → IsSubset m.visiting names
        → length names < length m.visiting + fuel
        → visit parents fuel name m ≢ exhausted
    unfolding visit
    visit-ne-exhausted zero name m known d sub deep h =
        absurd (omega (arith, deep, length-le_of_subset m.visiting names d sub))
    visit-ne-exhausted (suc fuel) name m known d sub deep h =
        elim (Bool-cases (contains m.visiting name)) [
          | inl a ↦ ground arith
          | inr a ↦ elim (Bool-cases (contains m.visited name)) [
            | inl b ↦ ground arith
            | inr b ↦
                visit_all-avoids (visit parents fuel) exhausted (name ∷ m.visiting)
                  (visit-visiting fuel) (λ n e. cc) (parents name) (enter name m)
                  (enter-visiting name m)
                  (All-of_contains (parents name) (λ p member n e.
                    visit-ne-exhausted fuel p n (closed name p member) (rw e (a, d))
                      (rw e (IsSubset-cons name m.visiting names known sub))
                      (rw e (omega (arith, deep)))))
                  (ground arith)
          ]
        ]
