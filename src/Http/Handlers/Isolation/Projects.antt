-- ===== src/Http/Handlers/Isolation/Projects.antt =====
-- `SetProjectRepository` on a project that the caller may access.
use mlops.Base.{
  ◌≡◌, refl, ap, String, Bool, true, List, [], ◌∷◌, ◌++◌, map, filter, some, inl, inr, Bool-cases,
  Option-cases, none, ◌==◌, eq_iff, if◌then◌else◌,
}
use mlops.Base.First.{find_first, find_first_passes, update_first}
use mlops.Api.Project.{Project, SetProjectRepositoryRequest}
use mlops.Auth.{Principal}
use mlops.Store.{State, Clock, record_event, Outcome-cases}
use mlops.Store.Projects.{
  Library, is_project, set_repository, set_project_repository, validate_git_repository,
}
use mlops.Http.Access.{allowed_project_ids, permits, owned_by, exempt}
use mlops.Http.Handlers.Isolation.{IsIsolated, IsIsolated-refl, foreign-update_first}

-- A change of a project that keeps its id and its owner keeps which projects a principal owns.
owned-update_first :
    (p : Principal) (q : Project → Bool) (f : Project → Project)
    → ((x : Project) → (f x).id ≡ x.id)
    → ((x : Project) → (f x).owner_subject ≡ x.owner_subject)
    → (xs : List Project)
    → map (λ (x : Project). x.id) (filter (owned_by p) (update_first q f xs))
      ≡ map (λ (x : Project). x.id) (filter (owned_by p) xs)
owned-update_first p q f same_id same_owner [] = refl
owned-update_first p q f same_id same_owner (x ∷ xs) = elim (Bool-cases (q x)) [
  | inl e ↦ elim (Bool-cases (owned_by p x)) [
    | inl o ↦ rw (e, same_owner x, o, same_id x) refl
    | inr o ↦ rw (e, same_owner x, o) refl
  ]
  | inr e ↦ elim (Bool-cases (owned_by p x)) [
    | inl o ↦ rw (e, o) (ap (◌∷◌ x.id) (owned-update_first p q f same_id same_owner xs))
    | inr o ↦ rw (e, o) (owned-update_first p q f same_id same_owner xs)
  ]
]

module _ (lib : Library) (p : Principal) (s : State) where
  pub set_project_repository-IsIsolated :
      (clock : Clock) (project_id : String) (req : SetProjectRepositoryRequest) (actor : String)
      → permits (allowed_project_ids s p) project_id ≡ true
      → IsIsolated p s (set_project_repository lib clock project_id req actor s).0
  unfolding set_project_repository record_event set_repository allowed_project_ids
  set_project_repository-IsIsolated clock project_id req actor h =
      elim (Outcome-cases (validate_git_repository lib req)) [
        | inl (_, bad) ↦ rw (bad, set_project_repository) (IsIsolated-refl p s)
        | inr (repository, valid) ↦
            elim (Option-cases (find_first (is_project lib project_id) s.projects)) [
              | inl e ↦ rw (valid, e, set_project_repository) (IsIsolated-refl p s)
              | inr (found, e) ↦
                  rw (valid, e, set_project_repository)
                    (
                      ap
                          (λ ids.
                            if exempt p
                            then none
                            else if p.credential == "api_token"
                            then some p.project_ids
                            else some (p.project_ids ++ ids))
                          (owned-update_first p (is_project lib project_id)
                            (set_repository lib (clock 0) repository) (λ _. refl) (λ _. refl)
                            s.projects),
                      refl,
                      refl,
                      refl,
                      refl,
                      refl,
                      foreign-update_first (allowed_project_ids s p) (λ x. x.id)
                          (is_project lib project_id) (set_repository lib (clock 0) repository)
                          s.projects e
                          (let same : found.id ≡ project_id =
                              (eq_iff found.id project_id).0
                                (find_first_passes (is_project lib project_id) s.projects e) in
                            rw same h)
                          refl,
                    )
            ]
      ]
