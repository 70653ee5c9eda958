-- ===== src/Store/Definitions/Schedule.antt =====
-- The search of `validatePipelineDefinition` against what it looks for: an order in which the jobs can
-- run.
use mlops.Base.{
  ℕ, zero, suc, ◌<◌, ◌≤◌, if◌then◌else◌, ◌≡◌, ◌≢◌, ◌↔◌, refl, String, true, false, List, [], ◌∷◌,
  ◌==◌, inl, inr, Bool-cases, eq_iff, length, arith,
}
use mlops.Base.Text.{contains}
use mlops.Base.Member.{IsSubset, contains-cons_self}
use mlops.Store.Definitions.{
  Marks, Walk, exhausted, cyclic, clear, visit_all, enter, leave, visit, no_marks,
}
use mlops.Store.Definitions.Search.{
  Walk-cases, Keeps, visit-visiting, visit_all-avoids, enter-visiting, visit-ne-exhausted,
  All-of_contains,
}

module _ (parents : String → List String) where
  -- Read from its end, the list has each name once, and after all the names that it depends on.
  abbrev pub IsSchedule : List String → Type 0
  IsSchedule [] = Unit
  IsSchedule (x ∷ xs) = (contains xs x ≡ false) × IsSubset (parents x) xs × IsSchedule xs

  abbrev IsApart : List String → List String → Type 0
  IsApart v xs = (s : String) → contains v s ≡ true → contains xs s ≡ false

  -- What a call, or a loop of calls, does to the names that have been visited.
  record Extends (v : List String) (m m' : Marks) : Type 0 where
    pub ordered : IsSchedule m'.visited
    pub grows : IsSubset m.visited m'.visited
    pub apart : IsApart v m'.visited

  abbrev CallExtends : (String → Marks → Walk) → Type 0
  CallExtends call =
      (name : String) (m m' : Marks)
      → IsSchedule m.visited
      → IsApart m.visiting m.visited
      → call name m ≡ clear m'
      → Extends m.visiting m m' × (contains m'.visited name ≡ true)

  visit_all-Extends :
      (call : String → Marks → Walk)
      → Keeps call
      → CallExtends call
      → (names : List String) (m m' : Marks) → IsSchedule m.visited
      → IsApart m.visiting m.visited
      → visit_all call names m ≡ clear m'
      → Extends m.visiting m m' × IsSubset names m'.visited
  unfolding visit_all contains
  visit_all-Extends call keeps extends [] m m' o a h =
      let same : m ≡ m' = ground arith in
      (rw (← same) (record { ordered = o; grows = λ s k. k; apart = a }), λ s k. cc)
  visit_all-Extends call keeps extends (name ∷ names) m m' o a h = elim (Walk-cases (call name m)) [
    | inl e ↦ ground arith
    | inr (inl e) ↦ ground arith
    | inr (inr (n, e)) ↦
        let first = extends name m n o a e in
        let kept = keeps name m n e in
        let rest =
          visit_all-Extends call keeps extends names n m' first.0.ordered (rw kept first.0.apart)
            (rw (e, visit_all) at h) in
        (
          record {
            ordered = rest.0.ordered;
            grows = λ s k. rest.0.grows s (first.0.grows s k);
            apart = rw kept at rest.0.apart;
          },
          λ s k. elim (Bool-cases (name == s)) [
            | inl q ↦ rw (← (eq_iff name s).0 q) (rest.0.grows name first.1)
            | inr q ↦ rest.1 s (ground arith)
          ],
        )
  ]

  enter-IsApart :
      (name : String) (m : Marks)
      → contains m.visited name ≡ false
      → IsApart m.visiting m.visited
      → IsApart (enter name m).visiting (enter name m).visited
  unfolding enter contains
  enter-IsApart name m fresh a s k = elim (Bool-cases (name == s)) [
    | inl e ↦ rw (← (eq_iff name s).0 e) fresh
    | inr e ↦ a s (ground arith)
  ]

  enter-visited : (name : String) (m : Marks) → (enter name m).visited ≡ m.visited
  unfolding enter
  enter-visited name m = refl

  leave-Extends :
      (name : String) (m n : Marks)
      → contains m.visiting name ≡ false
      → Extends (enter name m).visiting (enter name m) n
      → IsSubset (parents name) n.visited
      → Extends m.visiting m (leave name n) × (contains (leave name n).visited name ≡ true)
  unfolding enter leave contains
  leave-Extends name m n absent inner all_before = (
    record {
      ordered = (inner.apart name (contains-cons_self name m.visiting), all_before, inner.ordered);
      grows = λ s k. ground (arith, inner.grows s k);
      apart = λ s k. elim (Bool-cases (name == s)) [
        | inl e ↦ cc ((eq_iff name s).0 e)
        | inr e ↦ rw e (inner.apart s (rw e k))
      ];
    },
    contains-cons_self name n.visited,
  )

  visit-Extends : (fuel : ℕ) → CallExtends (visit parents fuel)
  unfolding visit
  visit-Extends zero name m m' o a h = cc
  visit-Extends (suc fuel) name m m' o a h = elim (Bool-cases (contains m.visiting name)) [
    | inl p ↦ ground arith
    | inr p ↦ elim (Bool-cases (contains m.visited name)) [
      | inl q ↦
          let same : m ≡ m' = ground arith in
          (rw (← same) (record { ordered = o; grows = λ s k. k; apart = a }), rw (← same) q)
      | inr q ↦ elim (Walk-cases (visit_all (visit parents fuel) (parents name) (enter name m))) [
        | inl e ↦ ground arith
        | inr (inl e) ↦ ground arith
        | inr (inr (n, e)) ↦
            let inner =
              visit_all-Extends (visit parents fuel) (visit-visiting parents fuel)
                (visit-Extends fuel) (parents name) (enter name m) n (rw (enter-visited name m) o)
                (enter-IsApart name m q a) e in
            let left : leave name n ≡ m' = ground arith in
            rw left at (leave-Extends name m n p inner.0 inner.1)
      ]
    ]
  ]

  -- The place of a name in a list, counted from the end, and 0 where it is not in it.
  rank : List String → String → ℕ
  rank [] s = 0
  rank (x ∷ xs) s = if x == s then suc (length xs) else rank xs s

  rank-le : (xs : List String) (s : String) → rank xs s ≤ length xs
  unfolding rank
  rank-le [] s = omega arith
  rank-le (x ∷ xs) s = ground (arith, rank-le xs s)

  -- With a name, a schedule has what it depends on.
  IsSchedule-closed :
      (xs : List String) (n p : String)
      → IsSchedule xs
      → contains xs n ≡ true
      → contains (parents n) p ≡ true
      → contains xs p ≡ true
  unfolding contains
  IsSchedule-closed [] n p o known parent = cc
  IsSchedule-closed (x ∷ xs) n p (fresh, before, o) known parent = elim (Bool-cases (x == n)) [
    | inl e ↦
        let same : x ≡ n = (eq_iff x n).0 e in
        let earlier : contains xs p ≡ true = before p (rw same parent) in ground arith
    | inr e ↦ ground (arith, IsSchedule-closed xs n p o)
  ]

  rank_falls :
      (xs : List String) (n p : String)
      → IsSchedule xs
      → contains xs n ≡ true
      → contains (parents n) p ≡ true
      → rank xs p < rank xs n
  unfolding rank contains
  rank_falls [] n p o known parent = cc
  rank_falls (x ∷ xs) n p (fresh, before, o) known parent = elim (Bool-cases (x == n)) [
    | inl e ↦
        let same : x ≡ n = (eq_iff x n).0 e in
        let earlier : contains xs p ≡ true = before p (rw same parent) in
        ground (arith, rank-le xs p, eq_iff x p)
    | inr e ↦
        let member : contains xs n ≡ true = ground arith in
        let later : rank xs p < rank xs n = rank_falls xs n p o member parent in
        let earlier : contains xs p ≡ true = IsSchedule-closed xs n p o member parent in
        ground (arith, eq_iff x p)
  ]

  module _ (xs : List String) (scheduled : IsSchedule xs) where
    abbrev IsAbove : String → List String → Type 0
    IsAbove name v = (s : String) → contains v s ≡ true → rank xs name < rank xs s

    IsAbove-cons :
        (p name : String) (v : List String)
        → rank xs p < rank xs name
        → IsAbove name v
        → IsAbove p (name ∷ v)
    unfolding contains
    IsAbove-cons p name v lower above s k = elim (Bool-cases (name == s)) [
      | inl e ↦ rw (← (eq_iff name s).0 e) lower
      | inr e ↦ omega (arith, lower, above s (rw e at k))
    ]

    -- The names that are being visited stand later in a schedule than the name that is visited
    -- next, so that none of them is met again.
    visit-ne-cyclic :
        (fuel : ℕ) (name : String) (m : Marks)
        → contains xs name ≡ true
        → IsAbove name m.visiting
        → visit parents fuel name m ≢ cyclic
    unfolding visit
    visit-ne-cyclic zero name m known above h = cc
    visit-ne-cyclic (suc fuel) name m known above h = elim (Bool-cases (contains m.visiting name)) [
      | inl a ↦ absurd (omega (arith, above name a))
      | inr a ↦ elim (Bool-cases (contains m.visited name)) [
        | inl b ↦ ground arith
        | inr b ↦
            visit_all-avoids parents (visit parents fuel) cyclic (name ∷ m.visiting)
              (visit-visiting parents fuel) (λ n e. cc) (parents name) (enter name m)
              (enter-visiting name m)
              (All-of_contains (parents name) (λ p member n e.
                visit-ne-cyclic fuel p n (IsSchedule-closed xs name p scheduled known member) (
                  rw e (
                    IsAbove-cons p name m.visiting (rank_falls xs name p scheduled known member)
                      above))))
              (ground arith)
      ]
    ]

  module _ (names order : List String)
      (closed : (n p : String) → contains (parents n) p ≡ true → contains names p ≡ true)
      (each : IsSubset names order) (only : IsSubset order names) where
    abbrev search : Walk
    search = visit_all (visit parents (suc (length names))) order no_marks

    -- The search of a graph ends with the fuel of one call for each name and one more, if every name
    -- depends only on names of the graph and the iteration yields exactly these.
    pub search-ne-exhausted : search ≢ exhausted
    unfolding contains
    search-ne-exhausted =
        visit_all-avoids parents (visit parents (suc (length names))) exhausted []
          (visit-visiting parents (suc (length names))) (λ m e. cc) order no_marks refl
          (All-of_contains order (λ name member m e.
            visit-ne-exhausted parents names closed (suc (length names)) name m (only name member)
              (rw e tt) (rw e (λ s k. cc)) (rw e (omega arith))))

    -- It finds no cycle exactly when there is an order in which each job comes after those that it
    -- depends on; the order of the iteration plays no part.
    pub search-IsSchedule :
        ((m : Marks) × (search ≡ clear m))
        ↔ ((xs : List String) × IsSchedule xs × IsSubset names xs)
    unfolding contains
    search-IsSchedule = (
      λ found.
          let (extends, all_visited) =
            visit_all-Extends (visit parents (suc (length names)))
              (visit-visiting parents (suc (length names))) (visit-Extends (suc (length names)))
              order no_marks found.0 tt (λ s k. cc) found.1 in
          (found.0.visited, extends.ordered, λ s k. all_visited s (each s k)),
      λ schedule. elim (Walk-cases search) [
        | inl e ↦ absurd (search-ne-exhausted e)
        | inr (inl e) ↦ absurd (
            visit_all-avoids parents (visit parents (suc (length names))) cyclic []
              (visit-visiting parents (suc (length names))) (λ m e. cc) order no_marks refl
              (All-of_contains order (λ name member m e.
                visit-ne-cyclic schedule.0 schedule.1 (suc (length names)) name m
                  (schedule.2 name (only name member)) (rw e (λ s k. cc))))
              e)
        | inr (inr found) ↦ found
      ],
    )
