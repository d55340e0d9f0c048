-- ===== src/Tests/Builds.antt =====
-- The builds at concrete pipelines.
use vector_operator.Prelude.{
  ◌≡◌, refl, true, false, ◌&&◌, Option, none, some, List, [], ◌∷◌, map, any, In, inl, inr, All,
  Distinct, codes, ◌==◌,
}
use vector_operator.Prelude.Int.{pos}
use vector_operator.Prelude.Result.{ok, err}
use vector_operator.Dict.{Dict, has}
use vector_operator.Sets.{contains}
use vector_operator.Text.{Text, text_eq, text_beq_iff}
use vector_operator.Config.Types.{PipelineConfig, Source, Sink, end, field, str}
use vector_operator.Config.Secrets.Types.{Library}
use vector_operator.Config.Build.{VectorConfigParams, VectorConfig}
use vector_operator.Config.Agent.{build_agent_config}
use vector_operator.Config.Agent.Tenancy.{AllSources, Scoped, build_agent_config-Scoped}
use vector_operator.Config.ServicePorts.{ServicePort, Net, port_key}
use vector_operator.Config.Aggregator.{build_aggregator_config}
use vector_operator.Config.Aggregator.Served.{AllServed}
use vector_operator.Config.Aggregator.Ports.{build_aggregator_config-UniquePorts}
use vector_operator.Config.Optimize.Collapse.{
  Formats, namespace_of, collapsed_name, dashed, ns_output, collapse_source_group,
}
use vector_operator.Config.Optimize.Groups.{fresh_gid, fresh_gid-free}
use vector_operator.Config.Optimize.Reads.{IsDotless, collapse_source_group-Reads}
use vector_operator.Tests.Data.{lib, getter, first, options}

abbrev params : VectorConfigParams
params = record {
  aggregator_name = codes "agg";
  api_enabled = false;
  playground_enabled = false;
  use_api_server_cache = true;
  internal_metrics = true;
  expire_metrics_secs = none;
  optimize_sources = false;
  pipeline_secret_getter = some getter;
}

abbrev logs : Text → Text → Source
logs name selector = record {
  name = name;
  type = codes "kubernetes_logs";
  extra_namespace_label_selector = selector;
  extra_label_selector = [];
  extra_field_selector = [];
  use_api_server_cache = false;
  options = end;
}

abbrev out_sink : List Text → Sink
out_sink inputs = record { name = []; type = codes "http"; inputs = inputs; options = options }

abbrev agent_lib : Library
agent_lib = record lib {
  unmarshal_json = λ s. ok (record {
    sources = (codes "in", logs [] []) ∷ [];
    transforms = [];
    sinks = (codes "out", out_sink (codes "in" ∷ [])) ∷ [];
  });
}

abbrev parse : Text → Option Text
parse s = none

abbrev built_agent : VectorConfig
built_agent =
    elim (build_agent_config agent_lib parse params (λ names cfg. cfg) (first ∷ []))
      as (λ _. VectorConfig) [
        | ok cfg ↦ cfg
        | err e ↦ vector_operator.Config.Build.new_vector_config params
      ]

build_agent_config-Scoped_example :
    AllSources (Scoped agent_lib (first ∷ [])) built_agent.components.sources
unfolding build_agent_config has vector_operator.Dict.lookup
    vector_operator.Config.Secrets.Safety.secret_value_safe_for_json_text
    vector_operator.Config.Secrets.Safety.utf8_valid
    vector_operator.Config.Secrets.Safety.no_json_special
build_agent_config-Scoped_example =
    build_agent_config-Scoped agent_lib parse params (λ names cfg. cfg) (first ∷ []) built_agent
      refl refl

-- a source that listens
abbrev socket_lib : Library
socket_lib = record lib {
  unmarshal_json = λ s. ok (record {
    sources =
        (
          codes "in",
          record (logs [] []) {
            type = codes "socket";
            options = field (codes "address") (str (codes "0.0.0.0:9000")) end;
          },
        )
        ∷ [];
    transforms = [];
    sinks = (codes "out", out_sink (codes "in" ∷ [])) ∷ [];
  });
}

abbrev net : Net
net = record {
  split_host_port = λ address. some (codes "9000");
  parse_int = λ port. ok (pos 9000);
  to_lower = λ s. s;
  kebab_case = λ s. s;
  decimal = λ n. n ∷ [];
}

abbrev built_ports : Dict Text ServicePort
built_ports =
    elim (build_aggregator_config socket_lib net params (first ∷ []))
      as (λ _. Dict Text ServicePort) [ ok r ↦ r.1 | err e ↦ [] ]

abbrev built_aggregator : VectorConfig
built_aggregator =
    elim (build_aggregator_config socket_lib net params (first ∷ [])) as (λ _. VectorConfig) [
      | ok r ↦ r.0
      | err e ↦ vector_operator.Config.Build.new_vector_config params
    ]

build_aggregator_config-UniquePorts_example :
    Distinct (map (λ (kv : Text × ServicePort). port_key net kv.1) built_ports)
    × All (AllServed socket_lib net params built_ports) (first ∷ [])
unfolding build_aggregator_config vector_operator.Dict.lookup has
    vector_operator.Config.Secrets.Safety.secret_value_safe_for_json_text
    vector_operator.Config.Secrets.Safety.utf8_valid
    vector_operator.Config.Secrets.Safety.no_json_special
build_aggregator_config-UniquePorts_example =
    build_aggregator_config-UniquePorts socket_lib net params (first ∷ []) built_aggregator
      built_ports refl

-- the name of the group is taken, and the loop appends to it
abbrev taken : Dict Text Source
taken = (codes "optimizedSource-ab", logs (codes "optimizedSource-ab") []) ∷ []

fresh_gid-free_example :
    (has (collapsed_name (fresh_gid taken (codes "ab"))) taken ≡ false)
    × (has (dashed (collapsed_name (fresh_gid taken (codes "ab"))) (codes "0")) taken ≡ false)
fresh_gid-free_example = fresh_gid-free taken (codes "ab")

abbrev formats : Formats
formats = record {
  source_signature = λ s. s.type;
  hash_hex = λ s. codes "ab";
  md5_byte = λ s. 7;
  decimal = λ n. codes "7";
  quoted = λ s. s;
}

formats-IsDotless : IsDotless formats
formats-IsDotless n = refl

abbrev one : Source
one = logs (codes "a-p-in") (codes "kubernetes.io/metadata.name=a")

abbrev two : Source
two = logs (codes "b-q-in") (codes "kubernetes.io/metadata.name=b")

abbrev pair : PipelineConfig
pair = record {
  sources = (codes "a-p-in", one) ∷ (codes "b-q-in", two) ∷ [];
  transforms = [];
  sinks = (codes "a-p-out", out_sink (codes "a-p-in" ∷ [])) ∷ [];
}

abbrev spaces : List Text
spaces = codes "a" ∷ codes "b" ∷ []

collapse_source_group-Reads_example :
    (after : Sink) × In
      (codes "a-p-out", after)
      (collapse_source_group formats pair (codes "ab") spaces one (two ∷ [])).sinks
    × (contains (ns_output formats (codes "ab") spaces (codes "a")) after.inputs
        ≡ any
            (λ s. contains s.name (codes "a-p-in" ∷ []) && namespace_of s == codes "a")
            (one ∷ two ∷ []))
unfolding contains ns_output
collapse_source_group-Reads_example =
    collapse_source_group-Reads formats pair (codes "ab") spaces one (two ∷ []) (codes "a-p-out")
      (out_sink (codes "a-p-in" ∷ [])) (codes "a") formats-IsDotless
      (
        (λ m. elim m [ inl e ↦ cc ((text_beq_iff one.name two.name).1 e) | inr f ↦ f ]),
        ((λ m. m), tt),
      )
      refl refl (inl refl)
