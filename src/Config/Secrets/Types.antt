-- ===== src/Config/Secrets/Types.antt =====
-- The data of internal/config/secrets.go, and what it takes from libraries.
use vector_operator.Prelude.{ℕ}
use vector_operator.Prelude.Result.{Result}
use vector_operator.Dict.{Dict}
use vector_operator.Text.{Text}
use vector_operator.Api.{Spec}
use vector_operator.Config.Types.{PipelineConfig}

-- corev1.Secret: `meta` stands for everything but `Data`
pub record Secret : Type 0 where
  pub meta : Text
  pub data_map : Dict Text Text

-- the getter's `(*corev1.Secret, error)` at a namespace and a name, the error as a text
abbrev pub Getter : Type 0
Getter = Text → Text → Result Text Secret

-- What the module calls in libraries that are not part of the repository.
pub record Library : Type 0 where
  -- validation.DNS1123SubdomainMaxLength
  pub dns1123_subdomain_max_length : ℕ
  -- corev1.MaxSecretSize
  pub max_secret_size : ℕ
  -- apivalidation.TotalAnnotationSizeLimitB
  pub total_annotation_size_limit : ℕ
  -- the JSON and mapstructure decoding of `UnmarshalJson`, with the text of an error
  pub unmarshal_json : Spec → Result Text PipelineConfig
  -- the generated protobuf `Size` of a Secret
  pub secret_size : Secret → ℕ

pub record SecretRef : Type 0 where
  pub alias : Text
  pub key : Text

pub record PendingSecretRef : Type 0 where
  pub flat : Text
  pub resolve_ns : Text
  pub secret_name : Text
  pub key : Text
  pub pipeline : Text

-- The errors of the module, each with the values that its message carries. `in_pipeline`,
-- `secret_resolve` and `secret_size_data` wrap another error.
pub data SecretError : Type 0 where
  not_declared : Text → Text → SecretError
  bad_key : Text → Text → SecretError
  key_too_long : Text → Text → Text → Text → SecretError
  namespace_not_allowed : Text → Text → SecretError
  namespace_required : Text → Text → SecretError
  not_supported : Text → SecretError
  unmarshal : Text → Text → SecretError
  in_pipeline : Text → SecretError → SecretError
  flat_collision : Text → Text → Text → SecretError
  get_failed : Text → Text → Text → SecretError
  key_not_found : Text → Text → Text → SecretError
  value_unsafe : Text → Text → Text → SecretError
  secret_resolve : SecretError → SecretError
  secret_size_data : SecretError → SecretError
