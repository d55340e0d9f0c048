-- ===== src/Config/Aggregator.antt =====
-- `BuildAggregatorConfig` of internal/config/aggregator.go. As in the build of an agent, the rewriting
-- of references comes before a component is added.
pub mod Ports
pub mod Served
use vector_operator.Prelude.{
  ℕ, ◌+◌, Bool, true, false, ◌&&◌, not, Option, none, some, List, [], ◌∷◌, ◌++◌, ltb, leb, codes,
  ◌==◌, Eq, if◌then◌else◌,
}
use vector_operator.Prelude.Int.{ℤ, pos, negsuc}
use vector_operator.Prelude.Result.{Result, ok, err, ◌>>=◌}
use vector_operator.Dict.{Dict, lookup, insert}
use vector_operator.Text.{Text, text_eq}
use vector_operator.Api.{Pipeline}
use vector_operator.Pipeline.Labels.{label_at}
use vector_operator.Pipeline.Status.{annotation_service_name}
use vector_operator.Config.Types.{
  Value, str, other, arr, obj, Fields, end, field, Source, PipelineConfig,
}
use vector_operator.Config.Secrets.Types.{Library, PendingSecretRef, SecretError}
use vector_operator.Config.Secrets.Process.{components, process_pipeline_secrets}
use vector_operator.Config.Build.{
  VectorConfigParams, VectorConfig, BuildFailure, second_kubernetes_events, parse_port_failed,
  duplicate_port, new_vector_config, source_of, next_options, prefixed, add_transforms, add_sinks,
  add_exporter, or_default, default_aggregator_source, default_internal_metrics_source_name,
}
use vector_operator.Config.ServicePorts.{
  ServicePort, Protocol, tcp, Net, field_at, string_of, parse_port, extract_protocol,
  get_service_name, add_service_port,
}
use vector_operator.Config.Agent.{wrap_secrets, wrap_unmarshal, resolve_assets}

-- `kubernetesEventsAlreadyExists`, `kubernetesEventsPort` and `cfg.internal.servicePort`
pub record PortState : Type 0 where
  pub events_exist : Bool
  pub events_port : ℕ
  pub ports : Dict Text ServicePort

module _ (net : Net) (aggregator_name : Text) (p : Pipeline) where
  unfoldable pub port_of : Bool → Text → ℕ → Protocol → ServicePort
  unfolding get_service_name label_at
  port_of events k port protocol = record {
    is_kubernetes_events = events;
    pipeline_name = p.name;
    source_name = k;
    namespace = p.namespace;
    port = port;
    protocol = protocol;
    service_name =
        get_service_name net (label_at annotation_service_name p.annotations) aggregator_name
          p.name;
  }

  -- a source of the type kubernetes_events becomes one of the type vector
  unfoldable pub events_source : Text → PortState → Result BuildFailure (Source × PortState)
  unfolding port_of add_service_port source_of
  events_source k st =
      let added = add_service_port net (port_of true k st.events_port tcp) st.ports >>= λ ports.
      ok (
        source_of k (codes "vector")
            (field (codes "address") (str (codes "0.0.0.0:" ++ net.decimal st.events_port)) end),
        record { events_exist = true; events_port = st.events_port + 1; ports = ports },
      ) in
      if st.events_exist then err second_kubernetes_events else added

  -- the port of an address, where there is one
  unfoldable pub address_port :
      Text → Source → Option Text → PortState → Result BuildFailure PortState
  unfolding port_of add_service_port parse_port extract_protocol
  address_port k s none st = ok st
  address_port k s (some text) st = parse_port net text >>= λ port.
      add_service_port net (port_of false k port (extract_protocol net s.options)) st.ports
      >>= λ ports. ok (record st { ports = ports })

  unfoldable pub listens_at : Source → Option Text
  unfolding field_at
  listens_at s = elim (field_at (codes "address") s.options) [
    | none ↦ none
    | some v ↦ net.split_host_port (string_of v)
  ]

  unfoldable pub settle_source :
      Text → Source → PortState → Result BuildFailure (Source × PortState)
  unfolding events_source address_port listens_at prefixed
  settle_source k s st =
      let plain =
        address_port k s (listens_at s) st >>= λ st'. ok (record s { name = prefixed p k }, st') in
      if s.type == codes "kubernetes_events" then events_source k st else plain

  -- the loop over the sources
  unfoldable pub settle_sources :
      Dict Text Source → PortState → Result BuildFailure (Dict Text Source × PortState)
  unfolding settle_source
  settle_sources [] st = ok ([], st)
  settle_sources ((k, s) ∷ ss) st =
      settle_source k s st >>= λ r. settle_sources ss r.1 >>= λ rest. ok ((k, r.0) ∷ rest.0, rest.1)

unfoldable pub add_settings :
    Pipeline → Dict Text Source → List Fields → Dict Text Source → Dict Text Source × List Fields
unfolding next_options prefixed insert
add_settings p [] rewritten acc = (acc, rewritten)
add_settings p ((k, s) ∷ ss) rewritten acc =
    let (opts, rest) = next_options s.options rewritten in
    add_settings p ss rest (insert (prefixed p k) (record s { options = opts }) acc)

pub record AggregatorBuild : Type 0 where
  pub built : PipelineConfig
  pub events_port : ℕ
  pub ports : Dict Text ServicePort
  pub pending : List PendingSecretRef

unfoldable pub add_settled :
    Pipeline → PipelineConfig → List Fields → PipelineConfig → PipelineConfig
unfolding add_settings add_transforms add_sinks
add_settled p c rewritten acc =
    let sources = add_settings p c.sources rewritten acc.sources in
    let transforms = add_transforms p c.transforms sources.1 acc.transforms in
    record {
      sources = sources.0;
      transforms = transforms.0;
      sinks = add_sinks p c.sinks transforms.1 acc.sinks;
    }

abbrev pub port_state : AggregatorBuild → PortState
port_state b = record { events_exist = false; events_port = b.events_port; ports = b.ports }

abbrev pub empty_build : AggregatorBuild
empty_build = record {
  built = record { sources = []; transforms = []; sinks = [] };
  events_port = 42000;
  ports = [];
  pending = [];
}

module _ (lib : Library) (net : Net) (params : VectorConfigParams) where
  unfoldable pub aggregate_pipeline :
      Pipeline → AggregatorBuild → Result BuildFailure AggregatorBuild
  unfolding wrap_unmarshal settle_sources wrap_secrets process_pipeline_secrets components
      add_settled
  aggregate_pipeline p b = wrap_unmarshal p.name (lib.unmarshal_json p.spec) >>= λ c.
      settle_sources net params.aggregator_name p c.sources (port_state b) >>= λ r.
      wrap_secrets (
        process_pipeline_secrets lib p params.pipeline_secret_getter
          (components (record c { sources = r.0 })) b.pending)
      >>= λ q. ok (record {
        built = add_settled p (record c { sources = r.0 }) q.0 b.built;
        events_port = r.1.events_port;
        ports = r.1.ports;
        pending = q.1;
      })

  unfoldable pub aggregate_pipelines :
      List Pipeline → AggregatorBuild → Result BuildFailure AggregatorBuild
  unfolding aggregate_pipeline
  aggregate_pipelines [] b = ok b
  aggregate_pipelines (p ∷ ps) b = aggregate_pipeline p b >>= λ b'. aggregate_pipelines ps b'

  unfoldable pub default_port : ServicePort
  unfolding get_service_name
  default_port = record {
    is_kubernetes_events = false;
    pipeline_name = codes "default-pipeline";
    source_name = default_internal_metrics_source_name;
    namespace = codes "default";
    port = 8989;
    protocol = tcp;
    service_name = get_service_name net [] params.aggregator_name (codes "default-pipeline");
  }

  -- whether the default configuration is taken
  unfoldable pub is_bare : PipelineConfig → Bool
  is_bare c = elim c.sources as (λ _. Bool) [
    | _ ∷ _ ↦ false
    | [] ↦ elim c.sinks as (λ _. Bool) [ [] ↦ true | _ ∷ _ ↦ false ]
  ]

  unfoldable pub final_ports :
      PipelineConfig → Dict Text ServicePort → Result BuildFailure (Dict Text ServicePort)
  unfolding is_bare add_service_port default_port
  final_ports c ports =
      let added = add_service_port net default_port ports in if is_bare c then added else ok ports

  unfoldable pub build_aggregator_config :
      List Pipeline → Result BuildFailure (VectorConfig × Dict Text ServicePort)
  unfolding new_vector_config aggregate_pipelines add_exporter or_default final_ports
      default_aggregator_source wrap_secrets resolve_assets
  build_aggregator_config pipelines = aggregate_pipelines pipelines empty_build >>= λ b.
      final_ports (add_exporter params.internal_metrics b.built) b.ports >>= λ ports.
      wrap_secrets (resolve_assets params.pipeline_secret_getter b.pending) >>= λ assets. ok (
        record (new_vector_config params) {
          components =
              or_default default_aggregator_source (add_exporter params.internal_metrics b.built);
          secret_assets = assets;
        },
        ports,
      )
