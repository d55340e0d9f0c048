-- ===== src/Config/ServicePorts.antt =====
-- The ports of an aggregator's sources: `parsePort`, `extractProtocol` and `getServiceName` of
-- internal/config/aggregator.go, `addServicePort` of types.go, and `GetSourcesServicePorts` and
-- `GetEventCollectorConfig` of config.go. The record `Net` has what these take from libraries.
use vector_operator.Prelude.{
  ℕ, ◌≡◌, ◌↔◌, Bool, true, false, ◌&&◌, Option, none, some, List, [], ◌∷◌, ◌++◌, map, keep, leb,
  codes, ◌==◌, Eq, if◌then◌else◌, arith,
}
use vector_operator.Prelude.Int.{ℤ, pos, negsuc}
use vector_operator.Prelude.Result.{Result, ok, err}
use vector_operator.Dict.{Dict, lookup, insert}
use vector_operator.Text.{Text, text_beq, text_eq, text_beq_iff}
use vector_operator.Config.Types.{Value, str, Fields, end, field}
use vector_operator.Config.Build.{BuildFailure, parse_port_failed, duplicate_port}

pub data Protocol : Type 0 where
  tcp udp : Protocol

pub record ServicePort : Type 0 where
  pub is_kubernetes_events : Bool
  pub pipeline_name : Text
  pub source_name : Text
  pub namespace : Text
  pub port : ℕ
  pub protocol : Protocol
  pub service_name : Text

-- `net.SplitHostPort` gives the port, `strconv.ParseInt(s, 10, 32)` the number
pub record Net : Type 0 where
  pub split_host_port : Text → Option Text
  pub parse_int : Text → Result Text ℤ
  pub to_lower : Text → Text
  pub kebab_case : Text → Text
  pub decimal : ℕ → Text

unfoldable pub in_port_range : ℤ → Option ℕ
in_port_range (pos n) = if leb n 65535 then some n else none
in_port_range (negsuc n) = none

-- `v.Options[k]`
unfoldable pub field_at : Text → Fields → Option Value
field_at k end = none
field_at k (field j v rest) = let later = field_at k rest in if j == k then some v else later

-- a type assertion to `string`; the zero value where it fails
abbrev pub string_of : Value → Text
string_of (str s) = s
string_of _ = []

abbrev pub protocol_text : Protocol → Text
protocol_text tcp = codes "TCP"
protocol_text udp = codes "UDP"

module _ (net : Net) where
  unfoldable pub parse_port : Text → Result BuildFailure ℕ
  unfolding in_port_range
  parse_port port = elim (net.parse_int port) as (λ _. Result BuildFailure ℕ) [
    | err e ↦ err (parse_port_failed port)
    | ok p ↦ elim (in_port_range p) as (λ _. Result BuildFailure ℕ) [
      | none ↦ err (parse_port_failed port)
      | some n ↦ ok n
    ]
  ]

  abbrev is_udp : Value → Bool
  is_udp (str s) = net.to_lower s == codes "udp"
  is_udp _ = false

  unfoldable pub extract_protocol : Fields → Protocol
  unfolding field_at
  extract_protocol opts = elim (field_at (codes "mode") opts) [
    | none ↦ tcp
    | some v ↦ if is_udp v then udp else tcp
  ]

  unfoldable pub get_service_name : Text → Text → Text → Text
  get_service_name [] aggregator_name pipeline_name =
      net.kebab_case (aggregator_name ++ (codes "-aggregator-" ++ pipeline_name))
  get_service_name (c ∷ name) aggregator_name pipeline_name = c ∷ name

  -- the key of `servicePort`
  unfoldable pub port_key : ServicePort → Text
  port_key sp = net.decimal sp.port ++ (b'/' ∷ protocol_text sp.protocol)

  unfoldable pub add_service_port :
      ServicePort → Dict Text ServicePort → Result BuildFailure (Dict Text ServicePort)
  unfolding port_key
  add_service_port sp ports = elim (lookup (port_key sp) ports) [
    | none ↦ ok (insert (port_key sp) sp ports)
    | some old ↦ err (duplicate_port (port_key sp) old.pipeline_name sp.pipeline_name)
  ]

-- SPGroup
pub record SpGroup : Type 0 where
  pub pipeline_name : Text
  pub namespace : Text
  pub service_name : Text

abbrev pub group_beq : SpGroup → SpGroup → Bool
group_beq a b =
    text_beq a.pipeline_name b.pipeline_name
    && (text_beq a.namespace b.namespace && text_beq a.service_name b.service_name)

pub group_beq_iff : (a b : SpGroup) → (group_beq a b ≡ true) ↔ (a ≡ b)
group_beq_iff a b = ground (
  arith,
  text_beq_iff a.pipeline_name b.pipeline_name,
  text_beq_iff a.namespace b.namespace,
  text_beq_iff a.service_name b.service_name,
)

instance abbrev pub group_eq : Eq SpGroup
group_eq = record { beq = group_beq; beq_iff = group_beq_iff }

abbrev pub group_of : ServicePort → SpGroup
group_of sp = record {
  pipeline_name = sp.pipeline_name;
  namespace = sp.namespace;
  service_name = sp.service_name;
}

-- `m[spg]`, where a missing key reads as nil
unfoldable pub ports_at : SpGroup → Dict SpGroup (List ServicePort) → List ServicePort
ports_at g m = elim (lookup g m) [ none ↦ [] | some ports ↦ ports ]

unfoldable pub group_ports :
    Dict Text ServicePort → Dict SpGroup (List ServicePort) → Dict SpGroup (List ServicePort)
unfolding insert ports_at
group_ports [] m = m
group_ports ((k, sp) ∷ ports) m =
    group_ports ports (insert (group_of sp) (ports_at (group_of sp) m ++ sp ∷ []) m)

unfoldable pub get_sources_service_ports : Dict Text ServicePort → Dict SpGroup (List ServicePort)
unfolding group_ports
get_sources_service_ports ports = group_ports ports []

-- evcollector.ReceiverParams
pub record ReceiverParams : Type 0 where
  pub service_namespace : Text
  pub service_name : Text
  pub watched_namespace : Text
  pub port : Text

module _ (net : Net) (namespace : Text) where
  unfoldable pub receiver_of : Text × ServicePort → ReceiverParams
  receiver_of ksp = record {
    service_namespace = namespace;
    service_name = ksp.1.service_name;
    watched_namespace = ksp.1.namespace;
    port = net.decimal ksp.1.port;
  }

  -- nil when no source is one of kubernetes_events
  unfoldable pub get_event_collector_config : Dict Text ServicePort → Option (List ReceiverParams)
  unfolding receiver_of
  get_event_collector_config ports =
      elim (keep (λ (ksp : Text × ServicePort). ksp.1.is_kubernetes_events) ports)
        as (λ _. Option (List ReceiverParams)) [
          | [] ↦ none
          | item ∷ items ↦ some (map receiver_of (item ∷ items))
        ]
