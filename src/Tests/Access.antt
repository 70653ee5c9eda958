-- ===== src/Tests/Access.antt =====
-- Access profiles and requests for access.
use mlops.Base.{◌≡◌, refl, ℕ, ◌+◌, String, List, [], ◌∷◌, false, arith}
use mlops.Base.Int.{pos}
use mlops.Base.Text.{trim_space, contains}
use mlops.Api.Access.{UserAccess, UpsertUserAccessRequest}
use mlops.Store.{State, Clock, zero_state, returned, record_event}
use mlops.Store.Access.{
  unique, unique_from, resource_profiles, apply_resource_profile, has_negative, validate_access,
  put_access, upsert_user_access, delete_user_access, access_for,
}
use mlops.Store.Access.Valid.{IsValid, validate_access-IsValid}
use mlops.Store.Access.Subjects.{SubjectsDiffer, upsert_user_access-SubjectsDiffer}
use mlops.Store.Requests.Pending.{
  PendingOnce, Call, create, decide, perform_all, perform_all-PendingOnce,
}

access_code : Unit {0}
unfolding trim_space contains unique unique_from resource_profiles apply_resource_profile
    has_negative validate_access put_access upsert_user_access delete_user_access access_for
    record_event
access_code = tt

abbrev clock : ℕ → Clock
clock base i = base + i

abbrev wish : UpsertUserAccessRequest
wish = record {
  email = " ann@example.org";
  role = "";
  services = "models" ∷ " models " ∷ "git" ∷ [];
  project_ids = [];
  storage = record { size_gb = pos 1; buckets = [] };
  compute = record {
    profile = "team";
    vcpus = pos 64;
    memory_gb = pos 0;
    gpus = pos 0;
    gpu_type = "";
    max_vms = pos 0;
    max_projects = pos 0;
    max_runs = pos 0;
    max_functions = pos 0;
  };
  disabled = false;
}

-- The profile of `wish`: the preset replaces its limits.
abbrev granted : String → UserAccess
granted subject = record {
  subject = subject;
  email = "ann@example.org";
  role = "user";
  services = "models" ∷ "git" ∷ [];
  project_ids = [];
  storage = record { size_gb = pos 100; buckets = [] };
  compute = record {
    profile = "team";
    vcpus = pos 4;
    memory_gb = pos 8;
    gpus = pos 0;
    gpu_type = "";
    max_vms = pos 2;
    max_projects = pos 5;
    max_runs = pos 3;
    max_functions = pos 10;
  };
  disabled = false;
  created_at = 0;
  updated_at = 0;
}

wish-granted : validate_access 0 " ann" wish ≡ returned (granted "ann")
unfolding access_code
wish-granted = refl

validate_access-IsValid_example : IsValid (granted "ann")
validate_access-IsValid_example = validate_access-IsValid 0 " ann" wish wish-granted

unique_runs : unique (" b" ∷ "a" ∷ "b " ∷ "" ∷ []) ≡ "b" ∷ "a" ∷ []
unfolding access_code
unique_runs = refl

abbrev with_ann : State
with_ann = record zero_state { user_access = granted "ann" ∷ [] }

one_ann : SubjectsDiffer with_ann
one_ann k = ground arith

upsert_user_access-SubjectsDiffer_example :
    SubjectsDiffer (upsert_user_access (clock 7) 0 "ann" wish "root" with_ann).0
    × SubjectsDiffer (delete_user_access (clock 7) "ann" "root" with_ann).0
unfolding trim_space
upsert_user_access-SubjectsDiffer_example =
    upsert_user_access-SubjectsDiffer (clock 7) 0 "ann" wish "root" with_ann refl one_ann

abbrev asks : List Call
asks =
    create (clock 0) "ann" ""
      (record { reason = "to train models"; requested_services = "models" ∷ [] })
    ∷ decide (clock 9) "access-request-1" (record { status = "approved"; note = "" }) "root"
    ∷ []

none_pending : PendingOnce zero_state
none_pending k = omega arith

perform_all-PendingOnce_example : PendingOnce (perform_all asks zero_state)
perform_all-PendingOnce_example = perform_all-PendingOnce asks zero_state none_pending
