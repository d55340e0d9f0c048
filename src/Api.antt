-- ===== src/Api.antt =====
-- api/v1alpha1: the pipeline objects, as far as the operator's logic reads them. A VectorPipeline
-- and a ClusterVectorPipeline have the same fields and the same methods, and differ by their kind.
use vector_operator.Prelude.{ℕ, Bool, true, false, Option, none, some}
use vector_operator.Prelude.Int.{ℤ}
use vector_operator.Dict.{Dict}
use vector_operator.Text.{Text}

pub data Kind : Type 0 where
  vector_pipeline cluster_vector_pipeline : Kind

pub data Role : Type 0 where
  agent aggregator unknown : Role

-- PipelineSecretBackend
pub record Backend : Type 0 where
  pub type : Text
  pub name : Text
  pub namespace : Text

-- VectorPipelineSpec; the three raw extensions are JSON texts
pub record Spec : Type 0 where
  pub sources : Option Text
  pub transforms : Option Text
  pub sinks : Option Text
  pub secret : Dict Text Backend

pub record Status : Type 0 where
  pub role : Option Role
  pub config_check_result : Option Bool
  pub reason : Option Text
  pub last_applied_pipeline_hash : Option ℤ
  pub related_secrets_hash : Option ℤ

-- Times are seconds, and `none` is the zero time.
pub record Pipeline : Type 0 where
  pub kind : Kind
  pub namespace : Text
  pub name : Text
  pub creation_timestamp : ℕ
  pub deletion_timestamp : Option ℕ
  pub labels : Dict Text Text
  pub annotations : Dict Text Text
  pub spec : Spec
  pub status : Status

-- the type assertion `p.(*v1alpha1.VectorPipeline)`
abbrev pub is_vp_kind : Kind → Bool
is_vp_kind vector_pipeline = true
is_vp_kind cluster_vector_pipeline = false

abbrev pub is_vp : Pipeline → Bool
is_vp p = is_vp_kind p.kind

unfoldable pub is_valid : Pipeline → Bool
is_valid p = elim p.status.config_check_result [ none ↦ false | some b ↦ b ]

unfoldable pub is_deleted : Pipeline → Bool
is_deleted p = elim p.deletion_timestamp [ none ↦ false | some _ ↦ true ]

unfoldable pub get_role : Pipeline → Role
get_role p = elim p.status.role [ none ↦ unknown | some r ↦ r ]

unfoldable pub set_config_check : Bool → Pipeline → Pipeline
set_config_check b p = record p { status = record p.status { config_check_result = some b } }

unfoldable pub set_reason : Option Text → Pipeline → Pipeline
set_reason r p = record p { status = record p.status { reason = r } }

unfoldable pub set_last_applied_pipeline : Option ℤ → Pipeline → Pipeline
set_last_applied_pipeline h p = record p {
  status = record p.status { last_applied_pipeline_hash = h };
}

unfoldable pub set_related_secrets_hash : Option ℤ → Pipeline → Pipeline
set_related_secrets_hash h p = record p { status = record p.status { related_secrets_hash = h } }

unfoldable pub set_role : Option Role → Pipeline → Pipeline
set_role r p = record p { status = record p.status { role = r } }
