-- ===== src/Config/Build.antt =====
-- What the builds of internal/config/agent.go and aggregator.go share: the configuration of
-- internal/config/types.go, `newVectorConfig` and `isExporterSinkExists` of config.go, default.go, and
-- the prefixing of a pipeline's components.
use vector_operator.Prelude.{
  ℕ, Bool, false, not, ◌&&◌, Option, none, List, [], ◌∷◌, map, any, codes, ◌==◌, if◌then◌else◌,
}
use vector_operator.Prelude.Int.{ℤ}
use vector_operator.Dict.{Dict, insert}
use vector_operator.Text.{Text, text_eq}
use vector_operator.Api.{Pipeline}
use vector_operator.Config.Types.{
  Fields, end, field, str, other, Source, Transform, Sink, PipelineConfig,
}
use vector_operator.Config.Names.{add_prefix}
use vector_operator.Config.Secrets.Types.{Getter, SecretError}

pub record ApiSpec : Type 0 where
  pub address : Text
  pub enabled : Bool
  pub playground : Bool

-- VectorConfigParams
pub record VectorConfigParams : Type 0 where
  pub aggregator_name : Text
  pub api_enabled : Bool
  pub playground_enabled : Bool
  pub use_api_server_cache : Bool
  pub internal_metrics : Bool
  pub expire_metrics_secs : Option ℤ
  pub optimize_sources : Bool
  pub pipeline_secret_getter : Option Getter

-- VectorConfig; `secret_assets` is there when the secret section is
pub record VectorConfig : Type 0 where
  pub data_dir : Text
  pub expire_metrics_secs : Option ℤ
  pub api : ApiSpec
  pub components : PipelineConfig
  pub optimized_sources : ℕ
  pub source_groups : ℕ
  pub secret_assets : Option (Dict Text Text)

-- the errors of the builds, each with what its message carries
pub data BuildFailure : Type 0 where
  unmarshal_failed : Text → Text → BuildFailure
  not_allowed_source_type : BuildFailure
  invalid_pod_selector : Text → Text → BuildFailure
  invalid_namespace_selector : Text → Text → BuildFailure
  cluster_scope_not_allowed : BuildFailure
  second_kubernetes_events : BuildFailure
  parse_port_failed : Text → BuildFailure
  duplicate_port : Text → Text → Text → BuildFailure
  secrets_failed : SecretError → BuildFailure

unfoldable pub new_vector_config : VectorConfigParams → VectorConfig
new_vector_config p = record {
  data_dir = codes "/vector-data-dir";
  expire_metrics_secs = p.expire_metrics_secs;
  api = record {
    address = codes "[::]:8686";
    enabled = p.api_enabled;
    playground = p.playground_enabled;
  };
  components = record { sources = []; transforms = []; sinks = [] };
  optimized_sources = 0;
  source_groups = 0;
  secret_assets = none;
}

unfoldable pub is_exporter_sink_exists : Dict Text Sink → Bool
is_exporter_sink_exists sinks =
    any (λ (kv : Text × Sink). kv.1.type == codes "prometheus_exporter") sinks

-- the names and the objects of default.go
abbrev pub default_source_name : Text
default_source_name = codes "defaultSource"

abbrev pub default_sink_name : Text
default_sink_name = codes "defaultSink"

abbrev pub default_internal_metrics_source_name : Text
default_internal_metrics_source_name = codes "internalMetricsSource"

abbrev pub default_internal_metrics_sink_name : Text
default_internal_metrics_sink_name = codes "internalMetricsSink"

abbrev pub kubernetes_logs_type : Text
kubernetes_logs_type = codes "kubernetes_logs"

abbrev pub source_of : Text → Text → Fields → Source
source_of name type options = record {
  name = name;
  type = type;
  extra_namespace_label_selector = [];
  extra_label_selector = [];
  extra_field_selector = [];
  use_api_server_cache = false;
  options = options;
}

unfoldable pub default_agent_source : Source
default_agent_source = source_of default_source_name kubernetes_logs_type end

unfoldable pub default_aggregator_source : Source
default_aggregator_source =
    source_of default_source_name (codes "vector")
      (field (codes "address") (str (codes "[::]:8989")) end)

unfoldable pub default_sink : Sink
default_sink = record {
  name = default_sink_name;
  type = codes "blackhole";
  inputs = default_source_name ∷ [];
  options =
      field (codes "rate") (other (codes "100"))
        (field (codes "print_interval_secs") (other (codes "60")) end);
}

unfoldable pub default_internal_metrics_source : Source
default_internal_metrics_source =
    source_of default_internal_metrics_source_name (codes "internal_metrics") end

unfoldable pub default_internal_metrics_sink : Sink
default_internal_metrics_sink = record {
  name = default_internal_metrics_sink_name;
  type = codes "prometheus_exporter";
  inputs = default_internal_metrics_source_name ∷ [];
  options = field (codes "address") (str (codes "[::]:9598")) end;
}

unfoldable pub default_pipeline_config : Source → PipelineConfig
unfolding default_sink
default_pipeline_config source = record {
  sources = (default_source_name, source) ∷ [];
  transforms = [];
  sinks = (default_sink_name, default_sink) ∷ [];
}

-- "Add exporter pipeline"
unfoldable pub add_exporter : Bool → PipelineConfig → PipelineConfig
unfolding is_exporter_sink_exists insert default_internal_metrics_source
    default_internal_metrics_sink
add_exporter internal_metrics c =
    if internal_metrics && not (is_exporter_sink_exists c.sinks)
    then record c {
      sources =
          insert default_internal_metrics_source_name default_internal_metrics_source c.sources;
      sinks = insert default_internal_metrics_sink_name default_internal_metrics_sink c.sinks;
    }
    else c

-- the default configuration, when no source and no sink is there
unfoldable pub or_default : Source → PipelineConfig → PipelineConfig
unfolding default_pipeline_config
or_default source c = elim c.sources as (λ _. PipelineConfig) [
  | _ ∷ _ ↦ c
  | [] ↦ elim c.sinks as (λ _. PipelineConfig) [ _ ∷ _ ↦ c | [] ↦ default_pipeline_config source ]
]

-- The options that the rewriting of references left, given back to their components in the order in
-- which these were collected.
unfoldable pub next_options : Fields → List Fields → Fields × List Fields
next_options own [] = (own, [])
next_options own (opts ∷ rest) = (opts, rest)

-- the name of a pipeline's component
unfoldable pub prefixed : Pipeline → Text → Text
unfolding add_prefix
prefixed p k = add_prefix p.namespace p.name k

-- the loop over the transforms
unfoldable pub add_transforms :
    Pipeline
    → Dict Text Transform
    → List Fields
    → Dict Text Transform
    → Dict Text Transform × List Fields
unfolding next_options prefixed insert
add_transforms p [] rewritten acc = (acc, rewritten)
add_transforms p ((k, t) ∷ ts) rewritten acc =
    let (opts, rest) = next_options t.options rewritten in
    add_transforms p ts rest (
      insert (prefixed p k)
        (record {
          name = prefixed p k;
          type = t.type;
          inputs = map (prefixed p) t.inputs;
          options = opts;
        })
        acc)

-- the loop over the sinks
unfoldable pub add_sinks : Pipeline → Dict Text Sink → List Fields → Dict Text Sink → Dict Text Sink
unfolding next_options prefixed insert
add_sinks p [] rewritten acc = acc
add_sinks p ((k, s) ∷ ss) rewritten acc =
    let (opts, rest) = next_options s.options rewritten in
    add_sinks p ss rest (
      insert (prefixed p k)
        (record {
          name = prefixed p k;
          type = s.type;
          inputs = map (prefixed p) s.inputs;
          options = opts;
        })
        acc)
