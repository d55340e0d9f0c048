-- ===== src/Config/Agent.antt =====
-- `buildAgentConfig` of internal/config/agent.go. The parsing of a label selector is a parameter. The
-- rewriting of references happens in place in the code, after a component has been added and before
-- anything reads it; here it comes first. Collapsing of sources is a parameter of the build, which
-- Config/Optimize gives.
pub mod Tenancy
use vector_operator.Prelude.{
  Bool, true, false, ◌&&◌, ◌||◌, not, Option, none, some, List, [], ◌∷◌, ◌++◌, codes, ◌==◌,
  if◌then◌else◌,
}
use vector_operator.Prelude.Result.{Result, ok, err, ◌>>=◌}
use vector_operator.Dict.{Dict, insert}
use vector_operator.Text.{Text, text_eq}
use vector_operator.Sets.{add}
use vector_operator.Api.{Pipeline, is_vp}
use vector_operator.Pipeline.Labels.{label_at}
use vector_operator.Pipeline.Status.{annotation_config_optimization}
use vector_operator.Config.Types.{Fields, Source, PipelineConfig}
use vector_operator.Config.Secrets.Types.{Library, Getter, PendingSecretRef, SecretError}
use vector_operator.Config.Secrets.Process.{components, process_pipeline_secrets, text_is_empty}
use vector_operator.Config.Secrets.Resolve.{resolve_pending_secrets}
use vector_operator.Config.Build.{
  VectorConfigParams, VectorConfig, BuildFailure, unmarshal_failed, not_allowed_source_type,
  invalid_pod_selector, invalid_namespace_selector, cluster_scope_not_allowed, secrets_failed,
  new_vector_config, kubernetes_logs_type, next_options, prefixed, add_transforms, add_sinks,
  add_exporter, or_default, default_agent_source,
}

-- `k8s.NamespaceNameToLabel`
unfoldable pub namespace_name_to_label : Text → Text
namespace_name_to_label namespace = codes "kubernetes.io/metadata.name=" ++ namespace

unfoldable pub opted_out : Pipeline → Bool
unfolding label_at
opted_out p = label_at annotation_config_optimization p.annotations == codes "disabled"

-- the selector that a source of a VectorPipeline ends up with
unfoldable pub own_selector : Pipeline → Source → Text
unfolding namespace_name_to_label
own_selector p s =
    if text_is_empty s.extra_namespace_label_selector
    then namespace_name_to_label p.namespace
    else s.extra_namespace_label_selector

module _ (parse : Text → Option Text) where
  -- "Validate source", for a VectorPipeline
  unfoldable pub validate : Pipeline → Text → Source → Result BuildFailure Source
  unfolding own_selector namespace_name_to_label
  validate p k s =
      let selectors = elim (parse s.extra_label_selector) as (λ _. Result BuildFailure Source) [
        | some e ↦ err (invalid_pod_selector k e)
        | none ↦
            elim (parse s.extra_namespace_label_selector) as (λ _. Result BuildFailure Source) [
              | some e ↦ err (invalid_namespace_selector k e)
              | none ↦
                  if own_selector p s == namespace_name_to_label p.namespace
                  then ok (record s { extra_namespace_label_selector = own_selector p s })
                  else err cluster_scope_not_allowed
            ]
      ] in
      if s.type == kubernetes_logs_type then selectors else err not_allowed_source_type

  unfoldable pub checked_source :
      VectorConfigParams → Pipeline → Text → Source → Result BuildFailure Source
  unfolding validate
  checked_source params p k s =
      let valid = validate p k s in
      (if is_vp p then valid else ok s) >>= λ v. ok (
        if v.type == kubernetes_logs_type && params.use_api_server_cache
        then record v { use_api_server_cache = true }
        else v)

  unfoldable pub checked_sources :
      VectorConfigParams → Pipeline → Dict Text Source → Result BuildFailure (Dict Text Source)
  unfolding checked_source
  checked_sources params p [] = ok []
  checked_sources params p ((k, s) ∷ ss) = checked_source params p k s >>= λ v.
      checked_sources params p ss >>= λ rest. ok ((k, v) ∷ rest)

-- the rest of the loop over the sources
unfoldable pub add_sources :
    Pipeline → Dict Text Source → List Fields → Dict Text Source → Dict Text Source × List Fields
unfolding next_options prefixed insert
add_sources p [] rewritten acc = (acc, rewritten)
add_sources p ((k, s) ∷ ss) rewritten acc =
    let (opts, rest) = next_options s.options rewritten in
    add_sources p ss rest
      (insert (prefixed p k) (record s { name = prefixed p k; options = opts }) acc)

-- `optOutSources`, with the names of the pipeline's sources
unfoldable pub opt_out_all : Pipeline → Dict Text Source → List Text → List Text
unfolding add prefixed
opt_out_all p [] names = names
opt_out_all p ((k, s) ∷ ss) names = opt_out_all p ss (add (prefixed p k) names)

pub record AgentBuild : Type 0 where
  pub built : PipelineConfig
  pub opt_out : List Text
  pub pending : List PendingSecretRef

unfoldable pub add_components :
    Pipeline → PipelineConfig → List Fields → PipelineConfig → PipelineConfig
unfolding add_sources add_transforms add_sinks
add_components p c rewritten acc =
    let sources = add_sources p c.sources rewritten acc.sources in
    let transforms = add_transforms p c.transforms sources.1 acc.transforms in
    record {
      sources = sources.0;
      transforms = transforms.0;
      sinks = add_sinks p c.sinks transforms.1 acc.sinks;
    }

unfoldable pub wrap_secrets : {A : Type 0} → Result SecretError A → Result BuildFailure A
wrap_secrets (ok a) = ok a
wrap_secrets (err e) = err (secrets_failed e)

unfoldable pub wrap_unmarshal :
    Text → Result Text PipelineConfig → Result BuildFailure PipelineConfig
wrap_unmarshal name (ok c) = ok c
wrap_unmarshal name (err e) = err (unmarshal_failed name e)

-- `resolvePendingSecrets`, on the getter when there is one; without one, nothing is pending
unfoldable pub resolve_assets :
    Option Getter → List PendingSecretRef → Result SecretError (Option (Dict Text Text))
unfolding resolve_pending_secrets
resolve_assets none pending = ok none
resolve_assets (some getter) pending = resolve_pending_secrets getter pending

module _ (lib : Library) (parse : Text → Option Text) (params : VectorConfigParams) where
  unfoldable pub add_pipeline : Pipeline → AgentBuild → Result BuildFailure AgentBuild
  unfolding wrap_unmarshal checked_sources wrap_secrets process_pipeline_secrets components
      add_components opt_out_all opted_out
  add_pipeline p b = wrap_unmarshal p.name (lib.unmarshal_json p.spec) >>= λ c.
      checked_sources parse params p c.sources >>= λ sources.
      wrap_secrets (
        process_pipeline_secrets lib p params.pipeline_secret_getter
          (components (record c { sources = sources })) b.pending)
      >>= λ r. ok (record {
        built = add_components p (record c { sources = sources }) r.0 b.built;
        opt_out = if opted_out p then opt_out_all p sources b.opt_out else b.opt_out;
        pending = r.1;
      })

  unfoldable pub add_pipelines : List Pipeline → AgentBuild → Result BuildFailure AgentBuild
  unfolding add_pipeline
  add_pipelines [] b = ok b
  add_pipelines (p ∷ ps) b = add_pipeline p b >>= λ b'. add_pipelines ps b'

  -- the sources as they are collapsed, when that is on
  unfoldable pub collapsed : (List Text → VectorConfig → VectorConfig) → AgentBuild → VectorConfig
  unfolding new_vector_config
  collapsed optimize b =
      let cfg = record (new_vector_config params) { components = b.built } in
      if params.optimize_sources then optimize b.opt_out cfg else cfg

  unfoldable pub build_agent_config :
      (List Text → VectorConfig → VectorConfig) → List Pipeline → Result BuildFailure VectorConfig
  unfolding add_pipelines collapsed add_exporter or_default default_agent_source resolve_assets
      wrap_secrets
  build_agent_config optimize pipelines =
      add_pipelines pipelines (record {
        built = record { sources = []; transforms = []; sinks = [] };
        opt_out = [];
        pending = [];
      })
      >>= λ b. wrap_secrets (resolve_assets params.pipeline_secret_getter b.pending) >>= λ assets.
          ok (record (collapsed optimize b) {
            components =
                or_default default_agent_source
                  (add_exporter params.internal_metrics (collapsed optimize b).components);
            secret_assets = assets;
          })
