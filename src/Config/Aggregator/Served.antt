-- ===== src/Config/Aggregator/Served.antt =====
-- Every source of an aggregator that listens has a port of its own.
use vector_operator.Prelude.{
  ℕ, ◌≡◌, refl, sym, subst, ◌∙◌, ◌⊎◌, inl, inr, true, false, Option, none, some, List, [], ◌∷◌, All,
  All-map, ◌==◌, beq_refl, Bool-cases, Option-cases, codes,
}
use vector_operator.Prelude.Result.{ok, >>=-eq-ok, ok_injective}
use vector_operator.Dict.{Dict, lookup, lookup-insert}
use vector_operator.Text.{Text, text_eq, text_beq_iff}
use vector_operator.Api.{Pipeline}
use vector_operator.Config.Types.{Source, PipelineConfig}
use vector_operator.Config.Secrets.Types.{Library}
use vector_operator.Config.Secrets.Process.{components, process_pipeline_secrets}
use vector_operator.Config.Build.{VectorConfigParams}
use vector_operator.Config.ServicePorts.{
  ServicePort, Net, tcp, port_key, add_service_port, parse_port, extract_protocol,
}
use vector_operator.Config.Agent.{wrap_secrets, wrap_unmarshal}
use vector_operator.Config.Agent.Tenancy.{wrap_unmarshal-ok}
use vector_operator.Config.Aggregator.{
  PortState, port_of, events_source, address_port, listens_at, settle_source, settle_sources,
  AggregatorBuild, port_state, aggregate_pipeline, aggregate_pipelines, default_port, is_bare,
  final_ports,
}

-- the ports that are there stay
abbrev pub Kept : Dict Text ServicePort → Dict Text ServicePort → Type 0
Kept ports ports' =
    (key : Text) (sp : ServicePort) → lookup key ports ≡ some sp → lookup key ports' ≡ some sp

Kept-trans : (a b c : Dict Text ServicePort) → Kept a b → Kept b c → Kept a c
Kept-trans a b c f g key sp h = g key sp (f key sp h)

module _ (net : Net) where
  -- the port is under its own key
  abbrev pub Holds : ServicePort → Dict Text ServicePort → Type 0
  Holds sp ports = lookup (port_key net sp) ports ≡ some sp

  add_service_port-Kept :
      (sp : ServicePort) (ports ports' : Dict Text ServicePort)
      → add_service_port net sp ports ≡ ok ports'
      → Holds sp ports' × Kept ports ports'
  unfolding add_service_port
  add_service_port-Kept sp ports ports' e = elim (Option-cases (lookup (port_key net sp) ports)) [
    | inr (old, h) ↦ absurd (let e' = rw (add_service_port, h) at e in cc e')
    | inl h ↦
        subst (λ m. Holds sp m × Kept ports m) (ok_injective (rw (add_service_port, h) at e))
          (
            lookup-insert (port_key net sp) (port_key net sp) sp ports
                ∙ rw (beq_refl (port_key net sp)) refl,
            λ key old there. elim (Bool-cases (port_key net sp == key)) [
              | inl y ↦ absurd (
                  let same : lookup (port_key net sp) ports ≡ some old =
                    subst (λ k. lookup k ports ≡ some old)
                      (sym ((text_beq_iff (port_key net sp) key).0 y)) there in
                  cc (same, h))
              | inr n ↦ lookup-insert (port_key net sp) key sp ports ∙ rw n there
            ],
          )
  ]

  module _ (aggregator_name : Text) (p : Pipeline) where
    -- a source with an address that has a port
    pub ServedAt : Text → Source → Option Text → Dict Text ServicePort → Type 0
    ServedAt k s none ports = Unit
    ServedAt k s (some text) ports =
        (port : ℕ) × (parse_port net text ≡ ok port)
        × Holds (port_of net aggregator_name p false k port (extract_protocol net s.options)) ports

    -- a source of either kind
    abbrev pub Served : Dict Text ServicePort → Text × Source → Type 0
    Served ports ks =
        (((ks.1.type == codes "kubernetes_events") ≡ true)
          × ((port : ℕ) × Holds (port_of net aggregator_name p true ks.0 port tcp) ports))
        ⊎ (((ks.1.type == codes "kubernetes_events") ≡ false)
            × ServedAt ks.0 ks.1 (listens_at net aggregator_name p ks.1) ports)

    ServedAt-Kept :
        (k : Text) (s : Source) (text : Option Text) (ports ports' : Dict Text ServicePort)
        → Kept ports ports'
        → ServedAt k s text ports
        → ServedAt k s text ports'
    unfolding ServedAt
    ServedAt-Kept k s none ports ports' f h = tt
    ServedAt-Kept k s (some text) ports ports' f (port, e, h) = (port, e, f _ _ h)

    Served-Kept :
        (ports ports' : Dict Text ServicePort) (ks : Text × Source)
        → Kept ports ports'
        → Served ports ks
        → Served ports' ks
    Served-Kept ports ports' ks f (inl (e, (port, h))) = inl (e, (port, f _ _ h))
    Served-Kept ports ports' ks f (inr (e, h)) =
        inr (e, ServedAt-Kept ks.0 ks.1 (listens_at net aggregator_name p ks.1) ports ports' f h)

    address_port-ServedAt :
        (k : Text) (s : Source) (text : Option Text) (st st' : PortState)
        → address_port net aggregator_name p k s text st ≡ ok st'
        → ServedAt k s text st'.ports × Kept st.ports st'.ports
    unfolding address_port ServedAt
    address_port-ServedAt k s none st st' e =
        (tt, subst (λ (x : PortState). Kept st.ports x.ports) (ok_injective e) (λ key sp h. h))
    address_port-ServedAt k s (some text) st st' e =
        let (port, i, rest) = >>=-eq-ok (parse_port net text) _ e in
        let sp = port_of net aggregator_name p false k port (extract_protocol net s.options) in
        let (ports, j, last) = >>=-eq-ok (add_service_port net sp st.ports) _ rest in
        let (there, kept) = add_service_port-Kept sp st.ports ports j in
        subst (λ (x : PortState). ServedAt k s (some text) x.ports × Kept st.ports x.ports)
          (ok_injective last) ((port, i, there), kept)

    events_source-Holds :
        (k : Text) (st : PortState) (r : Source × PortState)
        → events_source net aggregator_name p k st ≡ ok r
        → ((port : ℕ) × Holds (port_of net aggregator_name p true k port tcp) r.1.ports)
          × Kept st.ports r.1.ports
    unfolding events_source
    events_source-Holds k st r e = elim (Bool-cases st.events_exist) [
      | inl y ↦ absurd (let e' = rw y at e in cc e')
      | inr n ↦
          let sp = port_of net aggregator_name p true k st.events_port tcp in
          let (ports, i, last) = >>=-eq-ok (add_service_port net sp st.ports) _ (rw n at e) in
          let (there, kept) = add_service_port-Kept sp st.ports ports i in
          subst
            (λ (x : Source × PortState).
              ((port : ℕ) × Holds (port_of net aggregator_name p true k port tcp) x.1.ports)
              × Kept st.ports x.1.ports)
            (ok_injective last) ((st.events_port, there), kept)
    ]

    settle_source-Served :
        (k : Text) (s : Source) (st : PortState) (r : Source × PortState)
        → settle_source net aggregator_name p k s st ≡ ok r
        → Served r.1.ports (k, s) × Kept st.ports r.1.ports
    unfolding settle_source
    settle_source-Served k s st r e = elim (Bool-cases (s.type == codes "kubernetes_events")) [
      | inl y ↦ let (there, kept) = events_source-Holds k st r (rw y at e) in (inl (y, there), kept)
      | inr n ↦
          let text = listens_at net aggregator_name p s in
          let (st', i, last) =
            >>=-eq-ok (address_port net aggregator_name p k s text st) _ (rw n at e) in
          let (there, kept) = address_port-ServedAt k s text st st' i in
          subst (λ (x : Source × PortState). Served x.1.ports (k, s) × Kept st.ports x.1.ports)
            (ok_injective last) (inr (n, there), kept)
    ]

    settle_sources-Served :
        (ss : Dict Text Source) (st : PortState) (r : Dict Text Source × PortState)
        → settle_sources net aggregator_name p ss st ≡ ok r
        → All (Served r.1.ports) ss × Kept st.ports r.1.ports
    unfolding settle_sources
    settle_sources-Served [] st r e = (
      tt,
      subst (λ (x : Dict Text Source × PortState). Kept st.ports x.1.ports) (ok_injective e)
          (λ key sp h. h),
    )
    settle_sources-Served ((k, s) ∷ ss) st r e =
        let (one, i, more) = >>=-eq-ok (settle_source net aggregator_name p k s st) _ e in
        let (rest, j, last) = >>=-eq-ok (settle_sources net aggregator_name p ss one.1) _ more in
        let (here, kept) = settle_source-Served k s st one i in
        let (later, kept') = settle_sources-Served ss one.1 rest j in
        subst
          (λ (x : Dict Text Source × PortState).
            All (Served x.1.ports) ((k, s) ∷ ss) × Kept st.ports x.1.ports)
          (ok_injective last)
          (
            (Served-Kept one.1.ports rest.1.ports (k, s) kept' here, later),
            Kept-trans st.ports one.1.ports rest.1.ports kept kept',
          )

module _ (lib : Library) (net : Net) (params : VectorConfigParams) where
  -- the sources of a pipeline
  abbrev pub AllServed : Dict Text ServicePort → Pipeline → Type 0
  AllServed ports p =
      (c : PipelineConfig) × (lib.unmarshal_json p.spec ≡ ok c)
      × All (Served net params.aggregator_name p ports) c.sources

  AllServed-Kept :
      (ports ports' : Dict Text ServicePort) (p : Pipeline)
      → Kept ports ports'
      → AllServed ports p
      → AllServed ports' p
  AllServed-Kept ports ports' p f (c, e, a) = (
    c,
    e,
    All-map (Served net params.aggregator_name p ports) (Served net params.aggregator_name p ports')
        c.sources (λ ks h. Served-Kept net params.aggregator_name p ports ports' ks f h) a,
  )

  pub aggregate_pipelines-AllServed :
      (ps : List Pipeline) (b b' : AggregatorBuild)
      → aggregate_pipelines lib net params ps b ≡ ok b'
      → All (AllServed b'.ports) ps × Kept b.ports b'.ports
  unfolding aggregate_pipelines aggregate_pipeline
  aggregate_pipelines-AllServed [] b b' e =
      (tt, subst (λ (x : AggregatorBuild). Kept b.ports x.ports) (ok_injective e) (λ key sp h. h))
  aggregate_pipelines-AllServed (p ∷ ps) b b' e =
      let (mid, i, more) = >>=-eq-ok (aggregate_pipeline lib net params p b) _ e in
      let (c, d, rest) = >>=-eq-ok (wrap_unmarshal p.name (lib.unmarshal_json p.spec)) _ i in
      let (r, f, rest') =
        >>=-eq-ok (settle_sources net params.aggregator_name p c.sources (port_state b)) _ rest in
      let (q, g, last) =
        >>=-eq-ok
          (wrap_secrets (
            process_pipeline_secrets lib p params.pipeline_secret_getter
              (components (record c { sources = r.0 })) b.pending))
          _ rest' in
      let (served, kept) =
        settle_sources-Served net params.aggregator_name p c.sources (port_state b) r f in
      let (here, kept_mid) =
        subst (λ (x : AggregatorBuild). AllServed x.ports p × Kept b.ports x.ports)
          (ok_injective last)
          ((c, wrap_unmarshal-ok p.name (lib.unmarshal_json p.spec) c d, served), kept) in
      let (later, kept') = aggregate_pipelines-AllServed ps mid b' more in
      (
        (AllServed-Kept mid.ports b'.ports p kept' here, later),
        Kept-trans b.ports mid.ports b'.ports kept_mid kept',
      )

  final_ports-Kept :
      (c : PipelineConfig) (ports ports' : Dict Text ServicePort)
      → final_ports lib net params c ports ≡ ok ports'
      → Kept ports ports'
  unfolding final_ports
  final_ports-Kept c ports ports' e = elim (Bool-cases (is_bare lib net params c)) [
    | inl y ↦ (add_service_port-Kept net (default_port lib net params) ports ports' (rw y at e)).1
    | inr n ↦ subst (Kept ports) (ok_injective (rw n at e)) (λ key sp h. h)
  ]

  pub final_ports-AllServed :
      (c : PipelineConfig) (ports ports' : Dict Text ServicePort) (ps : List Pipeline)
      → All (AllServed ports) ps
      → final_ports lib net params c ports ≡ ok ports'
      → All (AllServed ports') ps
  final_ports-AllServed c ports ports' ps a e =
      All-map (AllServed ports) (AllServed ports') ps
        (λ p h. AllServed-Kept ports ports' p (final_ports-Kept c ports ports' e) h) a
