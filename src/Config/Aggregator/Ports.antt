-- ===== src/Config/Aggregator/Ports.antt =====
-- Every source of an aggregator that listens has a port, and no two have the same.
use vector_operator.Prelude.{
  ◌≡◌, refl, subst, inl, inr, true, false, Option, none, some, List, [], ◌∷◌, map, All, Distinct,
  ◌==◌, Bool-cases, Option-cases, codes,
}
use vector_operator.Prelude.Result.{ok, >>=-eq-ok, ok_injective}
use vector_operator.Dict.{Dict, lookup, insert, keys, insert-Distinct}
use vector_operator.Text.{Text, text_eq}
use vector_operator.Api.{Pipeline}
use vector_operator.Config.Types.{Source, PipelineConfig}
use vector_operator.Config.Secrets.Types.{Library}
use vector_operator.Config.Secrets.Process.{components, process_pipeline_secrets}
use vector_operator.Config.Build.{VectorConfigParams, VectorConfig, add_exporter}
use vector_operator.Config.ServicePorts.{
  ServicePort, Net, tcp, port_key, add_service_port, parse_port, extract_protocol,
}
use vector_operator.Config.Agent.{wrap_secrets, wrap_unmarshal, resolve_assets}
use vector_operator.Config.Aggregator.Served.{
  AllServed, aggregate_pipelines-AllServed, final_ports-AllServed,
}
use vector_operator.Config.Aggregator.{
  PortState, port_of, events_source, address_port, listens_at, settle_source, settle_sources,
  AggregatorBuild, port_state, empty_build, aggregate_pipeline, aggregate_pipelines, default_port,
  is_bare, final_ports, build_aggregator_config,
}

module _ (net : Net) where
  -- every entry is under the key of its port and protocol, and every key is there once
  pub record HasUniquePorts (ports : Dict Text ServicePort) : Type 0 where
    pub keyed : All (λ (kv : Text × ServicePort). kv.0 ≡ port_key net kv.1) ports
    pub distinct : Distinct (keys ports)

  no_ports-HasUniquePorts : HasUniquePorts []
  unfolding keys
  no_ports-HasUniquePorts = record { keyed = tt; distinct = tt }

  insert-keyed :
      (sp : ServicePort) (ports : Dict Text ServicePort)
      → All (λ (kv : Text × ServicePort). kv.0 ≡ port_key net kv.1) ports
      → All
          (λ (kv : Text × ServicePort). kv.0 ≡ port_key net kv.1)
          (insert (port_key net sp) sp ports)
  unfolding insert
  insert-keyed sp [] a = (refl, tt)
  insert-keyed sp ((k, old) ∷ ports) a = elim (Bool-cases (k == port_key net sp)) [
    | inl y ↦ rw y (refl, a.1)
    | inr n ↦ rw n (a.0, insert-keyed sp ports a.1)
  ]

  add_service_port-HasUniquePorts :
      (sp : ServicePort) (ports ports' : Dict Text ServicePort)
      → HasUniquePorts ports
      → add_service_port net sp ports ≡ ok ports'
      → HasUniquePorts ports'
  unfolding add_service_port
  add_service_port-HasUniquePorts sp ports ports' u e =
      elim (Option-cases (lookup (port_key net sp) ports)) [
        | inr (old, h) ↦ absurd (let e' = rw (add_service_port, h) at e in cc e')
        | inl h ↦ subst HasUniquePorts (ok_injective (rw (add_service_port, h) at e)) (record {
          keyed = insert-keyed sp ports u.keyed;
          distinct = insert-Distinct (port_key net sp) sp ports u.distinct;
        })
      ]

module _ (net : Net) (aggregator_name : Text) (p : Pipeline) where
  address_port-HasUniquePorts :
      (k : Text) (s : Source) (text : Option Text) (st st' : PortState)
      → HasUniquePorts net st.ports
      → address_port net aggregator_name p k s text st ≡ ok st'
      → HasUniquePorts net st'.ports
  unfolding address_port
  address_port-HasUniquePorts k s none st st' u e =
      subst (λ (x : PortState). HasUniquePorts net x.ports) (ok_injective e) u
  address_port-HasUniquePorts k s (some text) st st' u e =
      let (port, i, rest) = >>=-eq-ok (parse_port net text) _ e in
      let sp = port_of net aggregator_name p false k port (extract_protocol net s.options) in
      let (ports, j, last) = >>=-eq-ok (add_service_port net sp st.ports) _ rest in
      subst (λ (x : PortState). HasUniquePorts net x.ports) (ok_injective last)
        (add_service_port-HasUniquePorts net sp st.ports ports u j)

  events_source-HasUniquePorts :
      (k : Text) (st : PortState) (r : Source × PortState)
      → HasUniquePorts net st.ports
      → events_source net aggregator_name p k st ≡ ok r
      → HasUniquePorts net r.1.ports
  unfolding events_source
  events_source-HasUniquePorts k st r u e = elim (Bool-cases st.events_exist) [
    | inl y ↦ absurd (let e' = rw y at e in cc e')
    | inr n ↦
        let sp = port_of net aggregator_name p true k st.events_port tcp in
        let (ports, i, last) = >>=-eq-ok (add_service_port net sp st.ports) _ (rw n at e) in
        subst (λ (x : Source × PortState). HasUniquePorts net x.1.ports) (ok_injective last)
          (add_service_port-HasUniquePorts net sp st.ports ports u i)
  ]

  settle_source-HasUniquePorts :
      (k : Text) (s : Source) (st : PortState) (r : Source × PortState)
      → HasUniquePorts net st.ports
      → settle_source net aggregator_name p k s st ≡ ok r
      → HasUniquePorts net r.1.ports
  unfolding settle_source
  settle_source-HasUniquePorts k s st r u e =
      elim (Bool-cases (s.type == codes "kubernetes_events")) [
        | inl y ↦ events_source-HasUniquePorts k st r u (rw y at e)
        | inr n ↦
            let text = listens_at net aggregator_name p s in
            let (st', i, last) =
              >>=-eq-ok (address_port net aggregator_name p k s text st) _ (rw n at e) in
            subst (λ (x : Source × PortState). HasUniquePorts net x.1.ports) (ok_injective last)
              (address_port-HasUniquePorts k s text st st' u i)
      ]

  settle_sources-HasUniquePorts :
      (ss : Dict Text Source) (st : PortState) (r : Dict Text Source × PortState)
      → HasUniquePorts net st.ports
      → settle_sources net aggregator_name p ss st ≡ ok r
      → HasUniquePorts net r.1.ports
  unfolding settle_sources
  settle_sources-HasUniquePorts [] st r u e =
      subst (λ (x : Dict Text Source × PortState). HasUniquePorts net x.1.ports) (ok_injective e) u
  settle_sources-HasUniquePorts ((k, s) ∷ ss) st r u e =
      let (one, i, more) = >>=-eq-ok (settle_source net aggregator_name p k s st) _ e in
      let (rest, j, last) = >>=-eq-ok (settle_sources net aggregator_name p ss one.1) _ more in
      subst (λ (x : Dict Text Source × PortState). HasUniquePorts net x.1.ports) (ok_injective last)
        (settle_sources-HasUniquePorts ss one.1 rest (settle_source-HasUniquePorts k s st one u i)
          j)

HasUniquePorts-Distinct :
    (net : Net) (ports : Dict Text ServicePort)
    → All (λ (kv : Text × ServicePort). kv.0 ≡ port_key net kv.1) ports
    → keys ports ≡ map (λ (kv : Text × ServicePort). port_key net kv.1) ports
unfolding keys
HasUniquePorts-Distinct net [] a = refl
HasUniquePorts-Distinct net ((k, sp) ∷ ports) a =
    let rest = HasUniquePorts-Distinct net ports a.1 in cc (rest, a.0)

module _ (lib : Library) (net : Net) (params : VectorConfigParams) where
  aggregate_pipelines-HasUniquePorts :
      (ps : List Pipeline) (b b' : AggregatorBuild)
      → HasUniquePorts net b.ports
      → aggregate_pipelines lib net params ps b ≡ ok b'
      → HasUniquePorts net b'.ports
  unfolding aggregate_pipelines aggregate_pipeline
  aggregate_pipelines-HasUniquePorts [] b b' u e =
      subst (λ (x : AggregatorBuild). HasUniquePorts net x.ports) (ok_injective e) u
  aggregate_pipelines-HasUniquePorts (p ∷ ps) b b' u e =
      let (mid, i, more) = >>=-eq-ok (aggregate_pipeline lib net params p b) _ e in
      let (c, d, rest) = >>=-eq-ok (wrap_unmarshal p.name (lib.unmarshal_json p.spec)) _ i in
      let (r, f, rest') =
        >>=-eq-ok (settle_sources net params.aggregator_name p c.sources (port_state b)) _ rest in
      let (q, g, last) =
        >>=-eq-ok
          (wrap_secrets (
            process_pipeline_secrets lib p params.pipeline_secret_getter
              (components (record c { sources = r.0 })) b.pending))
          _ rest' in
      let settled =
        settle_sources-HasUniquePorts net params.aggregator_name p c.sources (port_state b) r u f in
      aggregate_pipelines-HasUniquePorts ps mid b'
        (subst (λ (x : AggregatorBuild). HasUniquePorts net x.ports) (ok_injective last) settled)
        more

  final_ports-HasUniquePorts :
      (c : PipelineConfig) (ports ports' : Dict Text ServicePort)
      → HasUniquePorts net ports
      → final_ports lib net params c ports ≡ ok ports'
      → HasUniquePorts net ports'
  unfolding final_ports
  final_ports-HasUniquePorts c ports ports' u e = elim (Bool-cases (is_bare lib net params c)) [
    | inl y ↦
        add_service_port-HasUniquePorts net (default_port lib net params) ports ports' u (rw y at e)
    | inr n ↦ subst (HasUniquePorts net) (ok_injective (rw n at e)) u
  ]

  -- When an aggregator's configuration is built, no two of its service ports have the same port and
  -- protocol; and every source of every listed pipeline that is of the type kubernetes_events or has
  -- an address with a port has a service port of its own there, with its names, the number its address
  -- gives and its protocol.
  pub build_aggregator_config-UniquePorts :
      (pipelines : List Pipeline) (cfg : VectorConfig) (ports : Dict Text ServicePort)
      → build_aggregator_config lib net params pipelines ≡ ok (cfg, ports)
      → Distinct (map (λ (kv : Text × ServicePort). port_key net kv.1) ports)
        × All (AllServed lib net params ports) pipelines
  unfolding build_aggregator_config
  build_aggregator_config-UniquePorts pipelines cfg ports e =
      let (b, i, rest) = >>=-eq-ok (aggregate_pipelines lib net params pipelines empty_build) _ e in
      let c = add_exporter params.internal_metrics b.built in
      let (ports', j, rest') = >>=-eq-ok (final_ports lib net params c b.ports) _ rest in
      let (assets, k, last) =
        >>=-eq-ok (wrap_secrets (resolve_assets params.pipeline_secret_getter b.pending)) _ rest' in
      let built =
        aggregate_pipelines-HasUniquePorts pipelines empty_build b (no_ports-HasUniquePorts net)
          i in
      let unique : HasUniquePorts net ports =
        subst (λ (x : VectorConfig × Dict Text ServicePort). HasUniquePorts net x.1)
          (ok_injective last) (final_ports-HasUniquePorts c b.ports ports' built j) in
      let (served, kept) = aggregate_pipelines-AllServed lib net params pipelines empty_build b i in
      (
        subst Distinct (HasUniquePorts-Distinct net ports unique.keyed) unique.distinct,
        subst
            (λ (x : VectorConfig × Dict Text ServicePort).
              All (AllServed lib net params x.1) pipelines)
            (ok_injective last)
            (final_ports-AllServed lib net params c b.ports ports' pipelines served j),
      )
