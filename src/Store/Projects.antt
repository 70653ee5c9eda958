-- ===== src/Store/Projects.antt =====
-- go/internal/store/store.go and workloads.go: projects and their Git repositories.
pub mod Names
use mlops.Base.{
  ℕ, String, Bool, true, false, List, [], ◌∷◌, Option, none, some, ◌==◌, ◌||◌, ◌&&◌, not, any, ltb,
  eqb, if◌then◌else◌,
}
use mlops.Base.First.{find_first, update_first}
use mlops.Base.Slug.{slug}
use mlops.Base.Text.{is_empty, trim_space, has_prefix, has_part, any_code, byte_length}
use mlops.Api.Value.{Time, text}
use mlops.Api.Project.{Project, GitRepository, CreateProjectRequest, SetProjectRepositoryRequest}
use mlops.Store.{
  State, Outcome, refused, returned, not_found, conflict, message, Clock, id, record_event, first,
}

-- What the program reads of a `url.URL`: the scheme, the host, and whether `User` is set.
pub record Url : Type 0 where
  pub scheme : String
  pub host : String
  pub has_user : Bool

-- `strings.ToLower`, `strings.EqualFold`, and `url.Parse`, which gives `none` for an error.
pub record Library : Type 0 where
  pub to_lower : String → String
  pub equal_fold : String → String → Bool
  pub parse_url : String → Option Url

-- "\n\r\t ", and " ~^:?*[\\"
abbrev is_blank : ℕ → Bool
is_blank c = eqb c 10 || eqb c 13 || eqb c 9 || eqb c 32

abbrev is_reserved : ℕ → Bool
is_reserved c =
    eqb c 32 || eqb c 126 || eqb c 94 || eqb c 58 || eqb c 63 || eqb c 42 || eqb c 91 || eqb c 92

module _ (lib : Library) where
  -- The test of the URL in `validateGitRepository`.
  unfoldable pub url_error : String → Option String
  url_error raw =
      if has_prefix raw "git@"
      then if not (has_part raw ":") || any_code is_blank raw
        then some "invalid SSH repository URL"
        else none
      else elim (lib.parse_url raw) [
        | none ↦ some "repository URL must use HTTPS or the git@host:path SSH form"
        | some parsed ↦
            if not (parsed.scheme == "https") || is_empty parsed.host
            then some "repository URL must use HTTPS or the git@host:path SSH form"
            else if parsed.has_user
            then some "repository credentials must not be embedded in the URL"
            else none
      ]

  unfoldable pub provider_of : String → String
  provider_of raw =
      let lower = lib.to_lower raw in
      if has_part lower "github.com"
      then "github"
      else if has_part lower "gitlab.com"
      then "gitlab"
      else if has_part lower "bitbucket.org"
      then "bitbucket"
      else "git"

  -- `validateGitRepository`
  unfoldable pub validate_git_repository : SetProjectRepositoryRequest → Outcome GitRepository
  validate_git_repository req =
      let raw = trim_space req.url in
      let named = trim_space req.default_branch in
      let branch = if is_empty named then "main" else named in
      if is_empty raw
      then refused (message "repository URL is required")
      else elim (url_error raw) [
        | some e ↦ refused (message e)
        | none ↦
            if any_code is_reserved branch || has_prefix branch "-" || has_part branch ".."
            then refused (message "invalid default branch")
            else returned (record {
              url = raw;
              provider = provider_of raw;
              default_branch = branch;
              last_commit = trim_space req.last_commit;
              synced_at = none;
            })
      ]

  -- The repository that `CreateProject` gives the project.
  unfoldable pub initial_repository : CreateProjectRequest → Outcome (Option GitRepository)
  initial_repository req =
      if is_empty (trim_space req.repository_url)
      then returned none
      else elim (validate_git_repository (record {
        url = req.repository_url;
        default_branch = req.default_branch;
        last_commit = "";
      })) [ refused e ↦ refused e | returned repository ↦ returned (some repository) ]

  -- The project that `CreateProject` makes.
  unfoldable pub new_project : Clock → CreateProjectRequest → Option GitRepository → Project
  new_project clock req repository = record {
    id = id "prj" (clock 0);
    name = trim_space req.name;
    description = trim_space req.description;
    template = if is_empty req.template then "tabular-classification" else req.template;
    namespace = slug lib.to_lower (trim_space req.name);
    status = "ready";
    created_at = clock 1;
    owner_subject = req.owner_subject;
    repository = repository;
  }

  abbrev pub is_named : String → Project → Bool
  is_named name v = lib.equal_fold v.name name

  -- `CreateProject`
  unfoldable pub create_project :
      Clock → CreateProjectRequest → List String → State → State × Outcome Project
  create_project clock req actor s =
      if ltb (byte_length (trim_space req.name)) 3
      then (s, refused (message "name must contain at least 3 characters"))
      else if any (is_named (trim_space req.name)) s.projects
      then (s, refused conflict)
      else elim (initial_repository req) [
        | refused e ↦ (s, refused e)
        | returned repository ↦
            let p = new_project clock req repository in
            (
              record_event (clock 2) (clock 3) "project.created" "project" p.id (first actor) []
                  (record s { projects = p ∷ s.projects }),
              returned p,
            )
      ]

  abbrev pub is_project : String → Project → Bool
  is_project project_id project = project.id == project_id

  -- `Project`
  unfoldable pub project_of : String → State → Outcome Project
  project_of project_id s = elim (find_first (is_project project_id) s.projects) [
    | none ↦ refused not_found
    | some found ↦ returned found
  ]

  -- What `SetProjectRepository` does to the project that it finds.
  unfoldable pub set_repository : Time → GitRepository → Project → Project
  set_repository now repository p = record p {
    repository = some (record repository { synced_at = some now });
  }

  -- `SetProjectRepository`
  unfoldable pub set_project_repository :
      Clock → String → SetProjectRepositoryRequest → String → State → State × Outcome Project
  set_project_repository clock project_id req actor s = elim (validate_git_repository req) [
    | refused e ↦ (s, refused e)
    | returned repository ↦ elim (find_first (is_project project_id) s.projects) [
      | none ↦ (s, refused not_found)
      | some found ↦
          let change = set_repository (clock 0) repository in
          (
            record_event (clock 1) (clock 2) "project.repository_updated" "project" project_id actor
                (("provider", text repository.provider) ∷ [])
                (record s { projects = update_first (is_project project_id) change s.projects }),
            returned (change found),
          )
    ]
  ]
