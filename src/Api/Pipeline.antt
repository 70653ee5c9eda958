-- ===== src/Api/Pipeline.antt =====
-- pkg/api/types.go: pipelines, their runs, and functions.
use mlops.Base.{String, List}
use mlops.Base.Int.{ℤ}
use mlops.Api.Value.{Time, Any}

pub record PipelineStep : Type 0 where
  pub name : String
  pub status : String
  pub image : String
  pub depends_on : List String
  pub progress : ℤ

pub record RunLog : Type 0 where
  pub timestamp : Time
  pub step : String
  pub level : String
  pub message : String

pub record PipelineRun : Type 0 where
  pub id : String
  pub project_id : String
  pub name : String
  pub status : String
  pub progress : ℤ
  pub created_at : Time
  pub updated_at : Time
  pub parent_run_id : String
  pub engine_run_id : String
  pub definition_id : String
  pub execution_mode : String
  pub parameters : List (String × Any)
  pub steps : List PipelineStep
  pub logs : List RunLog

pub record UpdateRunStepRequest : Type 0 where
  pub step : String
  pub status : String
  pub message : String

pub record SubmitPipelineRequest : Type 0 where
  pub project_id : String
  pub name : String
  pub definition_id : String
  pub parameters : List (String × Any)

pub record JobResources : Type 0 where
  pub cpu : String
  pub memory : String
  pub gpu : ℤ

pub record PipelineJob : Type 0 where
  pub name : String
  pub kind : String
  pub function : String
  pub image : String
  pub command : List String
  pub depends_on : List String
  pub environment : List (String × String)
  pub resources : JobResources
  pub retries : ℤ

pub record PipelineDefinition : Type 0 where
  pub id : String
  pub project_id : String
  pub name : String
  pub version : String
  pub execution_mode : String
  pub jobs : List PipelineJob
  pub repository_url : String
  pub commit_sha : String
  pub created_at : Time
  pub updated_at : Time

pub record UpsertPipelineDefinitionRequest : Type 0 where
  pub project_id : String
  pub name : String
  pub version : String
  pub execution_mode : String
  pub jobs : List PipelineJob
  pub repository_url : String
  pub commit_sha : String

pub record Function : Type 0 where
  pub name : String
  pub project_id : String
  pub image : String
  pub status : String
  pub replicas : ℤ
  pub env_vars : List (String × String)
  pub labels : List (String × String)
  pub annotations : List (String × String)
  pub cpu : String
  pub memory : String
  pub owner_subject : String
  pub created_at : Time
  pub updated_at : Time

pub record DeployFunctionRequest : Type 0 where
  pub project_id : String
  pub name : String
  pub image : String
  pub env_vars : List (String × String)
  pub labels : List (String × String)
  pub annotations : List (String × String)
  pub cpu : String
  pub memory : String
