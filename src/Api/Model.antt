-- ===== src/Api/Model.antt =====
-- pkg/api/types.go: models, feature views and tools.
use mlops.Base.{String, Option, List}
use mlops.Base.Int.{ℤ}
use mlops.Api.Value.{Time, Float64, Any}

pub record Model : Type 0 where
  pub id : String
  pub project_id : String
  pub name : String
  pub version : String
  pub stage : String
  pub artifact_uri : String
  pub metrics : List (String × Float64)
  pub created_at : Time
  pub gate_status : String
  pub deployment_status : String
  pub canary_weight : ℤ
  pub endpoint_url : String
  pub previous_stage : String

pub record RegisterModelRequest : Type 0 where
  pub project_id : String
  pub name : String
  pub version : String
  pub artifact_uri : String
  pub metrics : List (String × Float64)

pub record FeatureField : Type 0 where
  pub name : String
  pub type : String

pub record FeatureView : Type 0 where
  pub id : String
  pub name : String
  pub entity : String
  pub fields : List FeatureField
  pub tags : List String
  pub source : String
  pub ttl_seconds : ℤ
  pub status : String
  pub online_entity_count : ℤ
  pub materialized_at : Option Time
  pub created_at : Time

pub record ApplyFeatureViewRequest : Type 0 where
  pub name : String
  pub entity : String
  pub fields : List FeatureField
  pub tags : List String
  pub source : String
  pub ttl_seconds : ℤ

pub record Tool : Type 0 where
  pub id : String
  pub name : String
  pub version : String
  pub description : String
  pub tags : List String
  pub input_schema : List (String × Any)
  pub status : String
  pub created_at : Time

pub record RegisterToolRequest : Type 0 where
  pub name : String
  pub version : String
  pub description : String
  pub tags : List String
  pub input_schema : List (String × Any)
