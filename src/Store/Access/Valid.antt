-- ===== src/Store/Access/Valid.antt =====
-- What `validateAccess` lets through.
use mlops.Base.{ℕ, ◌≡◌, String, true, false, List, [], ◌∷◌, ◌==◌, ◌||◌, none, All, arith}
use mlops.Base.Int.{ℤ, pos, ◌≤ℤ◌}
use mlops.Base.Text.{is_empty, trim_space, contains}
use mlops.Base.Text.Laws.{trim_space_idem}
use mlops.Api.Access.{UserAccess, UpsertUserAccessRequest, ComputeGrant, StorageGrant}
use mlops.Store.{returned}
use mlops.Store.Access.{valid_services, unique, unknown_of, has_negative, validate_access}
use mlops.Store.Access.Unique.{IsClean, unique-IsClean}

-- Every limit of a profile.
abbrev pub limits_of : ComputeGrant → StorageGrant → List ℤ
limits_of compute storage =
    storage.size_gb ∷ compute.vcpus ∷ compute.memory_gb ∷ compute.gpus ∷ compute.max_vms
    ∷ compute.max_projects ∷ compute.max_runs ∷ compute.max_functions ∷ []

-- A profile as the rest of the program expects it.
pub record IsValid (access : UserAccess) : Type 0 where
  pub named : is_empty access.subject ≡ false
  pub trimmed : trim_space access.subject ≡ access.subject
  pub role : (access.role == "admin" || access.role == "user") ≡ true
  pub services : All (λ service. contains valid_services service ≡ true) access.services
  pub services_clean : IsClean access.services
  pub projects_clean : IsClean access.project_ids
  pub limits : All (λ limit. pos 0 ≤ℤ limit) (limits_of access.compute access.storage)

limits_not_negative :
    (compute : ComputeGrant) (storage : StorageGrant)
    → has_negative compute storage ≡ false
    → All (λ limit. pos 0 ≤ℤ limit) (limits_of compute storage)
unfolding has_negative
limits_not_negative compute storage h = (
  ground arith,
  (
    ground arith,
    (
      ground arith,
      (ground arith, (ground arith, (ground arith, (ground arith, (ground arith, tt))))),
    ),
  ),
)

unknown_of-none :
    (services : List String)
    → unknown_of services ≡ none
    → All (λ service. contains valid_services service ≡ true) services
unknown_of-none [] h = tt
unknown_of-none (x ∷ xs) h = (ground arith, unknown_of-none xs (ground arith))

validated_lists :
    (zero_time : ℕ) (subject : String) (req : UpsertUserAccessRequest) {access : UserAccess}
    → validate_access zero_time subject req ≡ returned access
    → (access.services ≡ unique req.services)
      × (access.project_ids ≡ unique req.project_ids)
      × (unknown_of (unique req.services) ≡ none)
unfolding validate_access
validated_lists zero_time subject req h = (ground arith, ground arith, ground arith)

-- Every profile that the validation lets through is valid: its subject is trimmed and not empty, its
-- role is admin or user, each of its services is a service of the platform, its services and
-- projects are trimmed and stand once each, and no limit is negative.
pub validate_access-IsValid :
    (zero_time : ℕ) (subject : String) (req : UpsertUserAccessRequest) {access : UserAccess}
    → validate_access zero_time subject req ≡ returned access
    → IsValid access
unfolding validate_access
validate_access-IsValid zero_time subject req {access} h =
    let (services, projects, all_known) = validated_lists zero_time subject req h in
    record {
      named = ground arith;
      trimmed = ground (arith, trim_space_idem subject);
      role = ground arith;
      services = rw services (unknown_of-none (unique req.services) all_known);
      services_clean = rw services (unique-IsClean req.services "").0;
      projects_clean = rw projects (unique-IsClean req.project_ids "").0;
      limits = limits_not_negative access.compute access.storage (ground arith);
    }
