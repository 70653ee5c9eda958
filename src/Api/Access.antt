-- ===== src/Api/Access.antt =====
-- pkg/api/types.go: people, their grants, access requests and API tokens.
use mlops.Base.{String, Bool, Option, List}
use mlops.Base.Int.{ℤ}
use mlops.Api.Value.{Time}

pub record StorageGrant : Type 0 where
  pub size_gb : ℤ
  pub buckets : List String

pub record ComputeGrant : Type 0 where
  pub profile : String
  pub vcpus : ℤ
  pub memory_gb : ℤ
  pub gpus : ℤ
  pub gpu_type : String
  pub max_vms : ℤ
  pub max_projects : ℤ
  pub max_runs : ℤ
  pub max_functions : ℤ

pub record UserAccess : Type 0 where
  pub subject : String
  pub email : String
  pub role : String
  pub services : List String
  pub project_ids : List String
  pub storage : StorageGrant
  pub compute : ComputeGrant
  pub disabled : Bool
  pub created_at : Time
  pub updated_at : Time

pub record ResourceProfile : Type 0 where
  pub name : String
  pub label : String
  pub description : String
  pub compute : ComputeGrant
  pub storage_gb : ℤ

pub record UpsertUserAccessRequest : Type 0 where
  pub email : String
  pub role : String
  pub services : List String
  pub project_ids : List String
  pub storage : StorageGrant
  pub compute : ComputeGrant
  pub disabled : Bool

pub record AccessRequest : Type 0 where
  pub id : String
  pub subject : String
  pub email : String
  pub reason : String
  pub requested_services : List String
  pub status : String
  pub reviewer : String
  pub review_note : String
  pub created_at : Time
  pub updated_at : Time

pub record CreateAccessRequest : Type 0 where
  pub reason : String
  pub requested_services : List String

pub record ReviewAccessRequest : Type 0 where
  pub status : String
  pub note : String

pub record ApiToken : Type 0 where
  pub id : String
  pub subject : String
  pub name : String
  pub prefix : String
  pub secret_hash : String
  pub services : List String
  pub project_ids : List String
  pub created_at : Time
  pub expires_at : Time
  pub last_used_at : Option Time
  pub revoked_at : Option Time

pub record CreateApiTokenRequest : Type 0 where
  pub name : String
  pub services : List String
  pub project_ids : List String
  pub expires_in_days : ℤ

pub record CreatedApiToken : Type 0 where
  pub token : ApiToken
  pub secret : String
