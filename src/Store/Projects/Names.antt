-- ===== src/Store/Projects/Names.antt =====
-- The names and namespaces of projects.
use Prim.Native.String.{String}
use mlops.Base.{
  ◌≤◌, ◌≡◌, refl, true, false, List, [], ◌∷◌, none, inl, inr, Bool-cases, Option-cases, count, any,
  ltb, All, arith,
}
use mlops.Base.First.{find_first, count-update_first-le, All-update_first}
use mlops.Base.Slug.{is_plain, is_slug, slug-is_slug, slug-eq-empty}
use mlops.Base.Text.{trim_space, any_code, byte_length}
use mlops.Base.Text.Laws.{trim_space_idem}
use mlops.Api.Project.{Project, CreateProjectRequest, SetProjectRepositoryRequest}
use mlops.Store.{State, Clock, Outcome-cases, returned, record_event}
use mlops.Store.Projects.{
  Library, validate_git_repository, initial_repository, new_project, is_named, create_project,
  is_project, set_repository, set_project_repository,
}

-- A call of a method that changes the projects.
pub data Call : Type 0 where
  create : Clock → CreateProjectRequest → List String → Call
  connect : Clock → String → SetProjectRepositoryRequest → String → Call

module _ (lib : Library) where
  unfoldable pub perform : Call → State → State
  perform (create clock req actor) s = (create_project lib clock req actor s).0
  perform (connect clock project_id req actor) s =
      (set_project_repository lib clock project_id req actor s).0

  unfoldable pub perform_all : List Call → State → State
  perform_all [] s = s
  perform_all (c ∷ cs) s = perform_all cs (perform c s)

  -- No two projects share a name, whatever its case, and each namespace is a slug.
  abbrev pub NamesHold : State → Type 0
  NamesHold s =
      ((k : String) → count (is_named lib k) s.projects ≤ 1)
      × All (λ p. is_slug p.namespace ≡ true) s.projects

  connect-NamesHold :
      (clock : Clock) (project_id : String) (req : SetProjectRepositoryRequest) (actor : String)
      (s : State)
      → NamesHold s
      → NamesHold (set_project_repository lib clock project_id req actor s).0
  unfolding set_project_repository record_event
  connect-NamesHold clock project_id req actor s h =
      elim (Outcome-cases (validate_git_repository lib req)) [
        | inl (e, p) ↦ rw (p, set_project_repository) h
        | inr (repository, p) ↦
            elim (Option-cases (find_first (is_project lib project_id) s.projects)) [
              | inl f ↦ rw (p, set_project_repository, f) h
              | inr (found, f) ↦
                  rw (p, set_project_repository, f)
                    (
                      λ k. omega (
                        arith,
                        h.0 k,
                        count-update_first-le (is_project lib project_id) (is_named lib k)
                            (set_repository lib (clock 0) repository)
                            (unfold set_repository in λ x a b. b) s.projects,
                      ),
                      All-update_first (λ p. is_slug p.namespace ≡ true) (is_project lib project_id)
                          (set_repository lib (clock 0) repository) s.projects
                          (unfold set_repository in λ x a b. b) h.1,
                    )
            ]
      ]

  module _ (fold_sym : (a b : String) → lib.equal_fold a b ≡ true → lib.equal_fold b a ≡ true)
      (fold_trans : (a b c : String)
        → lib.equal_fold a b ≡ true
        → lib.equal_fold b c ≡ true
        → lib.equal_fold a c ≡ true) where
    no_project :
        (a k : String) (xs : List Project)
        → lib.equal_fold a k ≡ true
        → any (is_named lib a) xs ≡ false
        → count (is_named lib k) xs ≡ 0
    no_project a k [] same h = refl
    no_project a k (x ∷ xs) same h =
        ground (arith, no_project a k xs, fold_sym a k same, fold_trans x.name k a)

    create-NamesHold :
        (clock : Clock) (req : CreateProjectRequest) (actor : List String) (s : State)
        → NamesHold s
        → NamesHold (create_project lib clock req actor s).0
    unfolding create_project record_event
    create-NamesHold clock req actor s h =
        elim (Bool-cases (ltb (byte_length (trim_space req.name)) 3)) [
          | inl e ↦ rw (e, create_project) h
          | inr e ↦ elim (Bool-cases (any (is_named lib (trim_space req.name)) s.projects)) [
            | inl d ↦ rw (e, create_project, d) h
            | inr d ↦ elim (Outcome-cases (initial_repository lib req)) [
              | inl (err, p) ↦ rw (e, create_project, d, p) h
              | inr (repository, p) ↦
                  rw (e, create_project, d, p)
                    (
                      λ k.
                          unfold new_project in
                          ground (arith, h.0 k, no_project (trim_space req.name) k s.projects),
                      (unfold new_project in slug-is_slug lib.to_lower (trim_space req.name), h.1),
                    )
            ]
          ]
        ]

    -- Where `strings.EqualFold` is symmetric and transitive: whatever calls are made, no two
    -- projects come to share a name up to case, and each namespace consists of lower-case letters,
    -- digits and single dashes between those, if this holds of the store at first.
    pub perform_all-NamesHold :
        (cs : List Call) (s : State) → NamesHold s → NamesHold (perform_all cs s)
    unfolding perform_all perform
    perform_all-NamesHold [] s h = h
    perform_all-NamesHold (create clock req actor ∷ cs) s h =
        perform_all-NamesHold cs _ (create-NamesHold clock req actor s h)
    perform_all-NamesHold (connect clock project_id req actor ∷ cs) s h =
        perform_all-NamesHold cs _ (connect-NamesHold clock project_id req actor s h)

  -- A name of at least three bytes with no letter of ASCII and no digit, which no project has, makes
  -- a project whose namespace is empty.
  pub create_project_no_namespace :
      (clock : Clock) (req : CreateProjectRequest) (actor : List String) (s : State)
      → ltb (byte_length (trim_space req.name)) 3 ≡ false
      → any_code is_plain (lib.to_lower (trim_space req.name)) ≡ false
      → any (is_named lib (trim_space req.name)) s.projects ≡ false
      → initial_repository lib req ≡ returned none
      → (p : Project) × ((create_project lib clock req actor s).1 ≡ returned p) × (p.namespace ≡ "")
  unfolding create_project
  create_project_no_namespace clock req actor s long exotic free bare = (
    new_project lib clock req none,
    rw (long, create_project, free, bare) refl,
    unfold new_project in
        slug-eq-empty lib.to_lower (trim_space req.name) (rw (trim_space_idem req.name) exotic),
  )
