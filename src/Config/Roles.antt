-- ===== src/Config/Roles.antt =====
-- `VectorRole` of internal/config/config.go, over the tables of internal/config/vector_source_types.go,
-- and `rewriteInputs` and `bucketCount` of internal/config/agent_optimize.go.
use vector_operator.Prelude.{
  ℕ, ◌+◌, ◌≤◌, ◌≡◌, refl, Bool, true, ◌||◌, List, [], ◌∷◌, ltb, nat_beq, codes, arith, ap, ◌∙◌,
  length, all, if◌then◌else◌, inl, inr, Bool-cases,
}
use vector_operator.Prelude.Result.{Result, ok, err, ◌>>=◌}
use vector_operator.Dict.{Dict}
use vector_operator.Sets.{contains}
use vector_operator.Text.{Text, text_eq}
use vector_operator.Api.{Role, agent, aggregator}
use vector_operator.Config.Types.{Source, PipelineConfig}

unfoldable pub aggregator_types : List Text
aggregator_types =
    codes "amqp"
    ∷ codes "aws_s3"
    ∷ codes "aws_sqs"
    ∷ codes "aws_kinesis_firehose"
    ∷ codes "datadog_agent"
    ∷ codes "fluent"
    ∷ codes "gcp_pubsub"
    ∷ codes "http_client"
    ∷ codes "http_server"
    ∷ codes "heroku_logs"
    ∷ codes "internal_logs"
    ∷ codes "internal_metrics"
    ∷ codes "kafka"
    ∷ codes "logstash"
    ∷ codes "nats"
    ∷ codes "opentelemetry"
    ∷ codes "pulsar"
    ∷ codes "redis"
    ∷ codes "socket"
    ∷ codes "splunk_hec"
    ∷ codes "statsd"
    ∷ codes "syslog"
    ∷ codes "vector"
    ∷ codes "kubernetes_events"
    ∷ []

unfoldable pub agent_types : List Text
agent_types =
    codes "apache_metrics"
    ∷ codes "dnstap"
    ∷ codes "demo_logs"
    ∷ codes "docker_logs"
    ∷ codes "eventstoredb_metrics"
    ∷ codes "file"
    ∷ codes "http_client"
    ∷ codes "host_metrics"
    ∷ codes "internal_logs"
    ∷ codes "internal_metrics"
    ∷ codes "journald"
    ∷ codes "kubernetes_logs"
    ∷ codes "mongodb_metrics"
    ∷ codes "nginx_metrics"
    ∷ codes "opentelemetry"
    ∷ codes "postgresql_metrics"
    ∷ codes "prometheus_pushgateway"
    ∷ codes "prometheus_remote_write"
    ∷ codes "prometheus_scrape"
    ∷ []

unfoldable pub is_aggregator : Text → Bool
is_aggregator name = contains name aggregator_types

unfoldable pub is_agent : Text → Bool
is_agent name = contains name agent_types

pub data RoleError : Type 0 where
  sources_list_is_empty : RoleError
  unsupported_source_type : Text → RoleError
  unknown_vector_role : RoleError

pub record Counts : Type 0 where
  pub agent_count : ℕ
  pub aggregator_count : ℕ

-- the loop over the sources: a type of an agent counts for both, by the `fallthrough`
unfoldable pub count_roles : Dict Text Source → Counts → Result RoleError Counts
count_roles [] c = ok c
count_roles ((k, s) ∷ sources) c =
    let both =
      count_roles sources
        (record { agent_count = c.agent_count + 1; aggregator_count = c.aggregator_count + 1 }) in
    let one = count_roles sources (record c { aggregator_count = c.aggregator_count + 1 }) in
    if is_agent s.type
    then both
    else if is_aggregator s.type
    then one
    else err (unsupported_source_type s.type)

unfoldable pub role_of_counts : ℕ → Counts → Result RoleError Role
role_of_counts n c =
    if nat_beq n c.agent_count
    then ok agent
    else if nat_beq n c.aggregator_count
    then ok aggregator
    else err unknown_vector_role

unfoldable pub vector_role : PipelineConfig → Result RoleError Role
unfolding count_roles role_of_counts
vector_role c =
    let counted =
      count_roles c.sources (record { agent_count = 0; aggregator_count = 0 })
      >>= role_of_counts (length c.sources) in
    if nat_beq (length c.sources) 0 then err sources_list_is_empty else counted

-- what decides the role: every source's type is known, and whether each is an agent's
abbrev pub supported : Text × Source → Bool
supported s = is_agent s.1.type || is_aggregator s.1.type

abbrev pub runs_on_agent : Text × Source → Bool
runs_on_agent s = is_agent s.1.type

counts_eq :
    {a b x y : ℕ}
    → a ≡ b
    → x ≡ y
    → Path Counts
        (record { agent_count = a; aggregator_count = x })
        (record { agent_count = b; aggregator_count = y })
counts_eq e f = cc

count_roles_lem :
    (sources : Dict Text Source) (c : Counts)
    → (all supported sources ≡ true)
    → (n : ℕ) × (count_roles sources c
        ≡ ok (record {
          agent_count = c.agent_count + n;
          aggregator_count = c.aggregator_count + length sources;
        }))
      × (n ≤ length sources)
      × (nat_beq (length sources) n ≡ all runs_on_agent sources)
unfolding count_roles
count_roles_lem [] c h = (0, ap ok (counts_eq (omega arith) (omega arith)), omega arith, refl)
count_roles_lem ((k, s) ∷ sources) c h = elim (Bool-cases (is_agent s.type)) [
  | inl y ↦
      let (n, e, l, a) =
        count_roles_lem sources
          (record { agent_count = c.agent_count + 1; aggregator_count = c.aggregator_count + 1 })
          (ground arith) in
      (n + 1, rw y (e ∙ ap ok (counts_eq (omega arith) (omega arith))), omega arith, ground arith)
  | inr n ↦
      let (m, e, l, a) =
        count_roles_lem sources (record c { aggregator_count = c.aggregator_count + 1 })
          (ground arith) in
      let known : is_aggregator s.type ≡ true = ground arith in
      (
        m,
        rw (n, known) (e ∙ ap ok (counts_eq (omega arith) (omega arith))),
        omega arith,
        ground arith,
      )
]

-- When there is a source and every source's type is known, the role is agent if all of them run on an
-- agent, and aggregator otherwise; it is never unknown.
pub vector_role_lem :
    (c : PipelineConfig)
    → ltb 0 (length c.sources) ≡ true
    → all supported c.sources ≡ true
    → vector_role c ≡ ok (if all runs_on_agent c.sources then agent else aggregator)
unfolding vector_role role_of_counts
vector_role_lem c p h =
    let (n, e, l, q) =
      count_roles_lem c.sources (record { agent_count = 0; aggregator_count = 0 }) h in
    ground arith
