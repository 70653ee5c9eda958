-- ===== src/Api/Project.antt =====
-- pkg/api/types.go: projects, blog posts, connections and audit events.
use mlops.Base.{String, Option, List}
use mlops.Api.Value.{Time, Any}

pub record GitRepository : Type 0 where
  pub url : String
  pub provider : String
  pub default_branch : String
  pub last_commit : String
  pub synced_at : Option Time

pub record Project : Type 0 where
  pub id : String
  pub name : String
  pub description : String
  pub template : String
  pub namespace : String
  pub status : String
  pub created_at : Time
  pub owner_subject : String
  pub repository : Option GitRepository

pub record CreateProjectRequest : Type 0 where
  pub name : String
  pub description : String
  pub template : String
  pub repository_url : String
  pub default_branch : String
  pub owner_subject : String

pub record SetProjectRepositoryRequest : Type 0 where
  pub url : String
  pub default_branch : String
  pub last_commit : String

pub record BlogPost : Type 0 where
  pub id : String
  pub slug : String
  pub title : String
  pub summary : String
  pub content : String
  pub author : String
  pub tags : List String
  pub status : String
  pub created_at : Time
  pub updated_at : Time
  pub published_at : Option Time

pub record UpsertBlogPostRequest : Type 0 where
  pub slug : String
  pub title : String
  pub summary : String
  pub content : String
  pub author : String
  pub tags : List String
  pub status : String

pub record Connection : Type 0 where
  pub id : String
  pub name : String
  pub type : String
  pub endpoint : String
  pub secret_ref : String
  pub status : String
  pub created_at : Time
  pub checked_at : Option Time
  pub message : String

pub record CreateConnectionRequest : Type 0 where
  pub name : String
  pub type : String
  pub endpoint : String
  pub secret_ref : String

pub record AuditEvent : Type 0 where
  pub id : String
  pub action : String
  pub resource : String
  pub resource_id : String
  pub actor : String
  pub metadata : List (String × Any)
  pub created_at : Time
