-- ===== src/Store/Access.antt =====
-- go/internal/store/access.go and store.go: access profiles, their validation, and their upkeep.
pub mod Unique
pub mod Valid
pub mod Subjects
use mlops.Base.{
  ℕ, String, Bool, true, false, List, [], ◌∷◌, Option, none, some, ◌==◌, ◌||◌, ◌&&◌, not, all,
  if◌then◌else◌,
}
use mlops.Base.First.{find_first, update_first, remove_first}
use mlops.Base.Int.{ℤ, pos, ltb_ℤ}
use mlops.Base.Text.{is_empty, trim_space, contains}
use mlops.Api.Access.{
  UserAccess, UpsertUserAccessRequest, ResourceProfile, ComputeGrant, StorageGrant,
}
use mlops.Store.{
  State, Outcome, refused, returned, Error, not_found, message, unknown_service, unknown_profile,
  Clock, record_event,
}

-- `validServices`
abbrev pub valid_services : List String
valid_services =
    "overview" ∷ "projects" ∷ "pipelines" ∷ "models" ∷ "agents" ∷ "features" ∷ "storage"
    ∷ "realtime" ∷ "catalog" ∷ "platform" ∷ "functions" ∷ "git" ∷ "workbench" ∷ "ide" ∷ []

-- The loop of `unique`, with the texts seen so far.
unfoldable pub unique_from : List String → List String → List String
unique_from seen [] = []
unique_from seen (value ∷ values) =
    let t = trim_space value in
    elim (not (is_empty t) && not (contains seen t)) [
      | true ↦ t ∷ unique_from (t ∷ seen) values
      | false ↦ unique_from seen values
    ]

-- `unique`
unfoldable pub unique : List String → List String
unique values = unique_from [] values

abbrev grant : String → ℤ → ℤ → ℤ → String → ℤ → ℤ → ℤ → ℤ → ComputeGrant
grant profile vcpus memory_gb gpus gpu_type max_vms max_projects max_runs max_functions = record {
  profile = profile;
  vcpus = vcpus;
  memory_gb = memory_gb;
  gpus = gpus;
  gpu_type = gpu_type;
  max_vms = max_vms;
  max_projects = max_projects;
  max_runs = max_runs;
  max_functions = max_functions;
}

abbrev preset : String → String → String → ComputeGrant → ℤ → ResourceProfile
preset name label description compute storage_gb = record {
  name = name;
  label = label;
  description = description;
  compute = compute;
  storage_gb = storage_gb;
}

-- `ResourceProfiles`
unfoldable pub resource_profiles : List ResourceProfile
resource_profiles =
    preset "starter" "Starter" "Notebook exploration and small development runs"
      (grant "starter" (pos 2) (pos 4) (pos 0) "" (pos 1) (pos 2) (pos 1) (pos 3)) (pos 25)
    ∷ preset "team" "Team" "Daily model development and shared pipelines"
        (grant "team" (pos 4) (pos 8) (pos 0) "" (pos 2) (pos 5) (pos 3) (pos 10)) (pos 100)
    ∷ preset "power" "Power" "Large training runs and production delivery"
        (grant "power" (pos 8) (pos 16) (pos 0) "" (pos 4) (pos 10) (pos 6) (pos 25)) (pos 250)
    ∷ preset "gpu" "GPU" "Accelerated model and generative AI development"
        (grant "gpu" (pos 8) (pos 32) (pos 1) "nvidia.com/gpu" (pos 2) (pos 10) (pos 4) (pos 15))
        (pos 500)
    ∷ preset "custom" "Custom" "Set each resource boundary explicitly"
        (grant "custom" (pos 0) (pos 0) (pos 0) "" (pos 0) (pos 0) (pos 0) (pos 0)) (pos 0)
    ∷ []

-- `applyResourceProfile`: the compute and storage grants that it leaves in the request.
unfoldable pub apply_resource_profile :
    ComputeGrant → StorageGrant → Outcome (ComputeGrant × StorageGrant)
apply_resource_profile compute storage =
    let named = trim_space compute.profile in
    let profile = if is_empty named then "custom" else named in
    let compute' = if is_empty named then record compute { profile = "custom" } else compute in
    elim (find_first (λ candidate. candidate.name == profile) resource_profiles) [
      | none ↦ refused (unknown_profile profile)
      | some candidate ↦ returned (
          if profile == "custom"
          then (compute', storage)
          else (candidate.compute, record storage { size_gb = candidate.storage_gb }))
    ]

-- The last test of `validateAccess`: some limit is negative.
unfoldable pub has_negative : ComputeGrant → StorageGrant → Bool
has_negative compute storage =
    ltb_ℤ storage.size_gb (pos 0)
    || ltb_ℤ compute.vcpus (pos 0)
    || ltb_ℤ compute.memory_gb (pos 0)
    || ltb_ℤ compute.gpus (pos 0)
    || ltb_ℤ compute.max_vms (pos 0)
    || ltb_ℤ compute.max_projects (pos 0)
    || ltb_ℤ compute.max_runs (pos 0)
    || ltb_ℤ compute.max_functions (pos 0)

-- `slices.Contains(validServices, service)` for each service in turn: the first that is unknown.
abbrev pub unknown_of : List String → Option String
unknown_of services = find_first (λ service. not (contains valid_services service)) services

-- `validateAccess`. The times of the profile are those of a zero `time.Time` until the store sets
-- them: `zero_time`.
unfoldable pub validate_access : ℕ → String → UpsertUserAccessRequest → Outcome UserAccess
validate_access zero_time raw req =
    let subject = trim_space raw in
    let role = if is_empty req.role then "user" else req.role in
    let services = unique req.services in
    let storage : StorageGrant = record (req.storage) { buckets = unique req.storage.buckets } in
    if is_empty subject
    then refused (message "subject is required")
    else if not (role == "admin") && not (role == "user")
    then refused (message "role must be admin or user")
    else elim (unknown_of services) [
      | some service ↦ refused (unknown_service service)
      | none ↦ elim (apply_resource_profile req.compute storage) [
        | refused e ↦ refused e
        | returned (compute, storage') ↦
            if has_negative compute storage'
            then refused (message "resource limits cannot be negative")
            else returned (record {
              subject = subject;
              email = trim_space req.email;
              role = role;
              services = services;
              project_ids = unique req.project_ids;
              storage = storage';
              compute = compute;
              disabled = req.disabled;
              created_at = zero_time;
              updated_at = zero_time;
            })
      ]
    ]

abbrev pub for_subject : String → UserAccess → Bool
for_subject subject access = access.subject == subject

-- `AccessFor`
unfoldable pub access_for : String → State → Outcome UserAccess
access_for subject s = elim (find_first (for_subject subject) s.user_access) [
  | none ↦ refused not_found
  | some access ↦ returned access
]

-- The part of `UpsertUserAccess` after the validation. The search is by the subject as it was
-- given, while the profile holds the trimmed one.
unfoldable pub put_access :
    Clock → String → UserAccess → String → State → State × Outcome UserAccess
put_access clock subject valid actor s = elim (find_first (for_subject subject) s.user_access) [
  | some old ↦
      let access : UserAccess = record valid {
        updated_at = clock 0;
        created_at = old.created_at;
      } in
      (
        record_event (clock 1) (clock 2) "access.updated" "user_access" subject actor [] (record s {
          user_access = update_first (for_subject subject) (λ _. access) s.user_access;
        }),
        returned access,
      )
  | none ↦
      let access : UserAccess = record valid { updated_at = clock 0; created_at = clock 0 } in
      (
        record_event (clock 1) (clock 2) "access.created" "user_access" subject actor []
            (record s { user_access = access ∷ s.user_access }),
        returned access,
      )
]

-- `UpsertUserAccess`
unfoldable pub upsert_user_access :
    Clock → ℕ → String → UpsertUserAccessRequest → String → State → State × Outcome UserAccess
upsert_user_access clock zero_time subject req actor s =
    elim (validate_access zero_time subject req) [
      | refused e ↦ (s, refused e)
      | returned valid ↦ put_access clock subject valid actor s
    ]

-- `DeleteUserAccess`
unfoldable pub delete_user_access : Clock → String → String → State → State × Outcome (Unit {0})
delete_user_access clock subject actor s = elim (find_first (for_subject subject) s.user_access) [
  | none ↦ (s, refused not_found)
  | some _ ↦ (
    record_event (clock 0) (clock 1) "access.deleted" "user_access" subject actor []
        (record s { user_access = remove_first (for_subject subject) s.user_access }),
    returned tt,
  )
]
