-- ===== src/Config/Agent/Tenancy.antt =====
-- An agent reads for a VectorPipeline only logs of the pipeline's own namespace.
use vector_operator.Prelude.{
  ◌≡◌, refl, sym, ap, subst, ◌⊎◌, inl, inr, Bool, true, false, not, ◌&&◌, Option, List, [], ◌∷◌, In,
  All, All-map, ◌==◌, Bool-cases, Option-cases, if◌then◌else◌,
}
use vector_operator.Prelude.Result.{Result, ok, err, ◌>>=◌, >>=-eq-ok, ok_injective}
use vector_operator.Dict.{Dict, insert}
use vector_operator.Text.{Text, text_eq, text_beq_iff}
use vector_operator.Api.{Pipeline, is_vp}
use vector_operator.Config.Types.{Fields, Source, Sink, PipelineConfig}
use vector_operator.Config.Secrets.Types.{Library}
use vector_operator.Config.Secrets.Process.{components, process_pipeline_secrets}
use vector_operator.Config.Build.{
  VectorConfigParams, VectorConfig, kubernetes_logs_type, next_options, prefixed, add_exporter,
  or_default, default_agent_source, default_internal_metrics_source,
  default_internal_metrics_source_name, is_exporter_sink_exists, default_pipeline_config,
  new_vector_config,
}
use vector_operator.Config.Agent.{
  namespace_name_to_label, own_selector, validate, checked_source, checked_sources, add_sources,
  add_components, AgentBuild, add_pipeline, add_pipelines, build_agent_config, wrap_secrets,
  wrap_unmarshal, resolve_assets, collapsed,
}

-- a source that watches the logs of the pipeline's namespace
abbrev pub OwnLogs : Pipeline → Source → Type 0
OwnLogs p s =
    (s.type ≡ kubernetes_logs_type)
    × (s.extra_namespace_label_selector ≡ namespace_name_to_label p.namespace)

-- what the sources of a pipeline are held to
abbrev pub Permitted : Pipeline → Source → Type 0
Permitted p s = (is_vp p ≡ false) ⊎ OwnLogs p s

-- every source of a map
abbrev pub AllSources : (Source → Type 0) → Dict Text Source → Type 0
AllSources P = All (λ (kv : Text × Source). P kv.1)

insert-AllSources :
    (P : Source → Type 0) (k : Text) (s : Source) (m : Dict Text Source)
    → P s
    → AllSources P m
    → AllSources P (insert k s m)
unfolding insert
insert-AllSources P k s [] h a = (h, tt)
insert-AllSources P k s ((j, t) ∷ m) h a = elim (Bool-cases (j == k)) [
  | inl y ↦ rw y (h, a.1)
  | inr n ↦ rw n (a.0, insert-AllSources P k s m h a.1)
]

AllSources-map :
    (P Q : Source → Type 0) (m : Dict Text Source)
    → ((s : Source) → P s → Q s)
    → AllSources P m
    → AllSources Q m
AllSources-map P Q m f a =
    All-map (λ (kv : Text × Source). P kv.1) (λ (kv : Text × Source). Q kv.1) m (λ kv h. f kv.1 h) a

-- a checked source under a declared key
abbrev Held : Pipeline → Dict Text Source → Text × Source → Type 0
Held p declared kv = ((s : Source) × In (kv.0, s) declared) × Permitted p kv.1

module _ (parse : Text → Option Text) (params : VectorConfigParams) (p : Pipeline) where
  validate-OwnLogs : (k : Text) (s v : Source) → validate parse p k s ≡ ok v → OwnLogs p v
  unfolding validate
  validate-OwnLogs k s v e = elim (Bool-cases (s.type == kubernetes_logs_type)) [
    | inr n ↦ absurd (let e' = rw n at e in cc e')
    | inl y ↦
        let e1 = rw y at e in
        elim (Option-cases (parse s.extra_label_selector)) [
          | inr (x, q) ↦ absurd (let e' = rw q at e1 in cc e')
          | inl q ↦
              let e2 = rw q at e1 in
              elim (Option-cases (parse s.extra_namespace_label_selector)) [
                | inr (x, q2) ↦ absurd (let e' = rw q2 at e2 in cc e')
                | inl q2 ↦
                    let e3 = rw q2 at e2 in
                    elim (Bool-cases (own_selector p s == namespace_name_to_label p.namespace)) [
                      | inr n ↦ absurd (let e' = rw n at e3 in cc e')
                      | inl own ↦
                          let same : record s { extra_namespace_label_selector = own_selector p s }
                              ≡ v =
                            ok_injective (rw own at e3) in
                          subst (OwnLogs p) same (
                            (text_beq_iff s.type kubernetes_logs_type).0 y,
                            (text_beq_iff (own_selector p s)
                                  (namespace_name_to_label p.namespace)).0
                                own,
                          )
                    ]
              ]
        ]
  ]

  checked_source-Permitted :
      (k : Text) (s v : Source) → checked_source parse params p k s ≡ ok v → Permitted p v
  unfolding checked_source
  checked_source-Permitted k s v e =
      let valid = validate parse p k s in
      let (w, i, j) =
        >>=-eq-ok (if is_vp p then valid else ok s)
          (λ w. ok (
            if w.type == kubernetes_logs_type && params.use_api_server_cache
            then record w { use_api_server_cache = true }
            else w))
          e in
      let permitted : Permitted p w = elim (Bool-cases (is_vp p)) [
        | inr n ↦ inl n
        | inl y ↦ inr (validate-OwnLogs k s w (rw y at i))
      ] in
      elim (Bool-cases (w.type == kubernetes_logs_type && params.use_api_server_cache)) [
        | inl y ↦ subst (Permitted p) (ok_injective (rw y at j)) permitted
        | inr n ↦ subst (Permitted p) (ok_injective (rw n at j)) permitted
      ]

  -- each source under a declared key
  checked_sources-Permitted :
      (declared ss vs : Dict Text Source)
      → ((kv : Text × Source) → In kv ss → In kv declared)
      → checked_sources parse params p ss ≡ ok vs
      → All (Held p declared) vs
  unfolding checked_sources
  checked_sources-Permitted declared [] vs f e = subst (All (Held p declared)) (ok_injective e) tt
  checked_sources-Permitted declared ((k, s) ∷ ss) vs f e =
      let (v, i, j) =
        >>=-eq-ok (checked_source parse params p k s)
          (λ v. checked_sources parse params p ss >>= λ rest. ok ((k, v) ∷ rest)) e in
      let (rest, a, b) =
        >>=-eq-ok (checked_sources parse params p ss) (λ rest. ok ((k, v) ∷ rest)) j in
      subst (All (Held p declared)) (ok_injective b) (
        ((s, f (k, s) (inl refl)), checked_source-Permitted k s v i),
        checked_sources-Permitted declared ss rest (λ kv m. f kv (inr m)) a,
      )

-- adding a pipeline's sources to others, each under its name
add_sources-AllSources :
    (P : Source → Type 0) (p : Pipeline) (ss : Dict Text Source) (rewritten : List Fields)
    (acc : Dict Text Source)
    → All
        (λ (kv : Text × Source).
          (opts : Fields) → P (record kv.1 { name = prefixed p kv.0; options = opts }))
        ss
    → AllSources P acc
    → AllSources P (add_sources p ss rewritten acc).0
unfolding add_sources
add_sources-AllSources P p [] rewritten acc h a = a
add_sources-AllSources P p ((k, s) ∷ ss) rewritten acc h a =
    let (opts, rest) = next_options s.options rewritten in
    let s' = record s { name = prefixed p k; options = opts } in
    add_sources-AllSources P p ss rest (insert (prefixed p k) s' acc) h.1
      (insert-AllSources P (prefixed p k) s' acc (h.0 opts) a)

-- a source that one of the pipelines declares under the key in the source's name, and that is held to
-- what that same pipeline may read
pub record Origin (lib : Library) (pipelines : List Pipeline) (s : Source) : Type 0 where
  pub owner : Pipeline
  pub listed : In owner pipelines
  pub decoded : PipelineConfig
  pub decodes : lib.unmarshal_json owner.spec ≡ ok decoded
  pub key : Text
  pub declared : (t : Source) × In (key, t) decoded.sources
  pub named : s.name ≡ prefixed owner key
  pub permitted : Permitted owner s

pub wrap_unmarshal-ok :
    (name : Text) (r : Result Text PipelineConfig) (c : PipelineConfig)
    → wrap_unmarshal name r ≡ ok c
    → r ≡ ok c
unfolding wrap_unmarshal
wrap_unmarshal-ok name (ok d) c e = ap ok (ok_injective e)
wrap_unmarshal-ok name (err x) c e = cc e

module _ (lib : Library) (parse : Text → Option Text) (params : VectorConfigParams)
    (all_pipelines : List Pipeline) where
  add_pipeline-Origin :
      (p : Pipeline) (b b' : AgentBuild)
      → In p all_pipelines
      → AllSources (Origin lib all_pipelines) b.built.sources
      → add_pipeline lib parse params p b ≡ ok b'
      → AllSources (Origin lib all_pipelines) b'.built.sources
  unfolding add_pipeline add_components
  add_pipeline-Origin p b b' m a e =
      let (c, i, rest) = >>=-eq-ok (wrap_unmarshal p.name (lib.unmarshal_json p.spec)) _ e in
      let (sources, j, rest') = >>=-eq-ok (checked_sources parse params p c.sources) _ rest in
      let (r, k, last) =
        >>=-eq-ok
          (wrap_secrets (
            process_pipeline_secrets lib p params.pipeline_secret_getter
              (components (record c { sources = sources })) b.pending))
          _ rest' in
      let declared =
        checked_sources-Permitted parse params p c.sources c.sources sources (λ kv i. i) j in
      let origins =
        All-map (Held p c.sources)
          (λ (kv : Text × Source).
            (opts : Fields)
            → Origin lib all_pipelines (record kv.1 { name = prefixed p kv.0; options = opts }))
          sources
          (λ kv h opts. record {
            owner = p;
            listed = m;
            decoded = c;
            decodes = wrap_unmarshal-ok p.name (lib.unmarshal_json p.spec) c i;
            key = kv.0;
            declared = h.0;
            named = refl;
            permitted = h.1;
          })
          declared in
      subst (λ (x : AgentBuild). AllSources (Origin lib all_pipelines) x.built.sources)
        (ok_injective last)
        (add_sources-AllSources (Origin lib all_pipelines) p sources r.0 b.built.sources origins a)

  add_pipelines-Origin :
      (ps : List Pipeline) (b b' : AgentBuild)
      → ((p : Pipeline) → In p ps → In p all_pipelines)
      → AllSources (Origin lib all_pipelines) b.built.sources
      → add_pipelines lib parse params ps b ≡ ok b'
      → AllSources (Origin lib all_pipelines) b'.built.sources
  unfolding add_pipelines
  add_pipelines-Origin [] b b' f a e =
      subst (λ (x : AgentBuild). AllSources (Origin lib all_pipelines) x.built.sources)
        (ok_injective e) a
  add_pipelines-Origin (p ∷ ps) b b' f a e =
      let (mid, i, rest) =
        >>=-eq-ok (add_pipeline lib parse params p b) (λ x. add_pipelines lib parse params ps x)
          e in
      add_pipelines-Origin ps mid b' (λ q m. f q (inr m))
        (add_pipeline-Origin p b mid (f p (inl refl)) a i) rest

-- a source of an agent's configuration: the default one, that of the agent's own metrics, or one of
-- the pipelines
abbrev pub Scoped : Library → List Pipeline → Source → Type 0
Scoped lib pipelines s =
    (s ≡ default_agent_source) ⊎ ((s ≡ default_internal_metrics_source) ⊎ Origin lib pipelines s)

add_exporter-Scoped :
    (lib : Library) (pipelines : List Pipeline) (on : Bool) (c : PipelineConfig)
    → AllSources (Scoped lib pipelines) c.sources
    → AllSources (Scoped lib pipelines) (add_exporter on c).sources
unfolding add_exporter
add_exporter-Scoped lib pipelines on c a =
    elim (Bool-cases (on && not (is_exporter_sink_exists c.sinks))) [
      | inl y ↦ rw y (
          insert-AllSources (Scoped lib pipelines) default_internal_metrics_source_name
            default_internal_metrics_source c.sources (inr (inl refl)) a)
      | inr n ↦ rw n a
    ]

or_default-Scoped :
    (lib : Library) (pipelines : List Pipeline) (c : PipelineConfig) (sources : Dict Text Source)
    (sinks : Dict Text Sink)
    → c.sources ≡ sources
    → c.sinks ≡ sinks
    → AllSources (Scoped lib pipelines) c.sources
    → AllSources (Scoped lib pipelines) (or_default default_agent_source c).sources
unfolding or_default default_pipeline_config
or_default-Scoped lib pipelines c [] [] e f a = rw (e, f) (inl refl, tt)
or_default-Scoped lib pipelines c [] (s ∷ sinks) e f a = rw (e, f) (rw e at a)
or_default-Scoped lib pipelines c (s ∷ sources) sinks e f a = rw e (rw e at a)

components-collapsed :
    (lib : Library) (parse : Text → Option Text) (params : VectorConfigParams)
    (optimize : List Text → VectorConfig → VectorConfig) (b : AgentBuild)
    → params.optimize_sources ≡ false
    → (collapsed lib parse params optimize b).components ≡ b.built
unfolding collapsed new_vector_config
components-collapsed lib parse params optimize b off = rw off refl

-- In an agent's configuration that is built without collapsing, every source is the default one, the
-- source of the agent's own metrics, or one that a listed pipeline declares: its name is that of the
-- pipeline and the declared key, and if that pipeline is a VectorPipeline, the source reads Kubernetes
-- logs, selected by the pipeline's own namespace.
pub build_agent_config-Scoped :
    (lib : Library) (parse : Text → Option Text) (params : VectorConfigParams)
    (optimize : List Text → VectorConfig → VectorConfig) (pipelines : List Pipeline)
    (cfg : VectorConfig)
    → params.optimize_sources ≡ false
    → build_agent_config lib parse params optimize pipelines ≡ ok cfg
    → AllSources (Scoped lib pipelines) cfg.components.sources
unfolding build_agent_config
build_agent_config-Scoped lib parse params optimize pipelines cfg off e =
    let (b, i, rest) = >>=-eq-ok (add_pipelines lib parse params pipelines _) _ e in
    let (assets, j, last) =
      >>=-eq-ok (wrap_secrets (resolve_assets params.pipeline_secret_getter b.pending)) _ rest in
    let origins = add_pipelines-Origin lib parse params pipelines pipelines _ b (λ p m. m) tt i in
    let same = components-collapsed lib parse params optimize b off in
    let raw = (collapsed lib parse params optimize b).components in
    let scoped : AllSources (Scoped lib pipelines) raw.sources =
      subst (λ (c : PipelineConfig). AllSources (Scoped lib pipelines) c.sources) (sym same)
        (AllSources-map (Origin lib pipelines) (Scoped lib pipelines) b.built.sources
          (λ s h. inr (inr h)) origins) in
    let c = add_exporter params.internal_metrics raw in
    subst (λ (x : VectorConfig). AllSources (Scoped lib pipelines) x.components.sources)
      (ok_injective last)
      (or_default-Scoped lib pipelines c c.sources c.sinks refl refl
        (add_exporter-Scoped lib pipelines params.internal_metrics raw scoped))
