-- ===== src/Controller/Pipeline/Index.antt =====
-- The index of Secrets after a round, and the requests that a changed Secret gives.
use vector_operator.Prelude.{
  ◌≡◌, refl, sym, ap, subst, ◌&&◌, ◌∙◌, Bool, true, false, ◌↔◌, Option, none, some, List, [], ◌∷◌,
  arith, if◌then◌else◌,
}
use vector_operator.Prelude.Result.{ok}
use vector_operator.Dict.{Dict}
use vector_operator.Text.{Text, text_eq}
use vector_operator.Sets.{contains}
use vector_operator.Api.{Backend, Pipeline, is_vp}
use vector_operator.Pipeline.SecretIndex.{NamespacedName, SecretIndex, name_eq, set}
use vector_operator.Pipeline.SecretIndex.Laws.{IsConsistent, pipelines_for-set}
use vector_operator.Config.Secrets.Process.Used.{used_secret_backends}
use vector_operator.Controller.Secrets.{object_key}
use vector_operator.Controller.Secrets.Related.{
  Reader, ref_of, check_shapes, declared_aliases, resolve_declared, resolve_related_secrets,
}
use vector_operator.Controller.Secrets.Related.Refs.{
  Used, contains-In, refs-resolve_related_secrets,
}
use vector_operator.Controller.Pipeline.{
  Reconciler, Workloads, Workload, idle, get_pipeline, list_workloads, all_events,
}
use vector_operator.Controller.Pipeline.Reconcile.{
  is_nil, no_workloads, index_set, after_resolve, with_used, with_workloads, with_pipeline,
  reconcile_body, map_secret_to_pipelines,
}

-- whether a change of the Secret requeues the pipeline
abbrev pub requeues : Option SecretIndex → NamespacedName → NamespacedName → Bool
requeues index secret key = contains key (map_secret_to_pipelines index secret)

requeues-set :
    (si : SecretIndex) (key : NamespacedName) (refs : List NamespacedName) (secret : NamespacedName)
    → IsConsistent si
    → requeues (some (set si key refs)) secret key ≡ contains secret refs
unfolding map_secret_to_pipelines
requeues-set si key refs secret valid =
    ground (arith, pipelines_for-set valid key refs secret key, name_eq.beq_iff key key)

module _ (r : Reconciler) (p : Pipeline) (used : List Text) (si : SecretIndex) where
  -- the Secrets that a round sets in the index
  abbrev set_refs : List NamespacedName
  set_refs = (resolve_related_secrets r.sha256 r.api_reader p used).refs

  index-with_used :
      (declared : Dict Text Backend)
      → declared ≡ p.spec.secret
      → (with_used r p (some si) declared (ok used)).1 ≡ some (set si (object_key p) set_refs)
  unfolding with_used after_resolve index_set resolve_related_secrets resolve_declared
  index-with_used [] e =
      ap (λ refs. some (set si (object_key p) refs))
        (subst (λ d. [] ≡ (resolve_declared r.sha256 r.api_reader p used d).refs) e refl)
  index-with_used (d ∷ declared) e = refl

events_of_none :
    (ws : Workloads) (a b c : List Workload)
    → a ≡ ws.agents
    → b ≡ ws.aggregators
    → c ≡ ws.cluster_aggregators
    → (if is_nil a && is_nil b && is_nil c
        then idle
        else record idle { events = all_events ws }).events
      ≡ all_events ws
unfolding all_events
events_of_none ws [] [] [] e f g = rw (sym e, sym f, sym g) refl
events_of_none ws (x ∷ a) b c e f g = refl
events_of_none ws [] (y ∷ b) c e f g = refl
events_of_none ws [] [] (z ∷ c) e f g = refl

-- Whatever a round ends in, when a pipeline is read whose references decode and whose backends have
-- the namespaces that they have to have, the index then requeues it for the Secrets of its used
-- aliases, and for no other.
pub reconcile_body-Indexed :
    (r : Reconciler) (req : NamespacedName) (p : Pipeline) (used : List Text) (get : Reader)
    (si : SecretIndex) (secret : NamespacedName)
    → get_pipeline r req ≡ ok (some p)
    → used_secret_backends r.lib p ≡ ok used
    → r.api_reader ≡ some get
    → check_shapes (is_vp p) p.spec.secret (declared_aliases p) ≡ none
    → IsConsistent si
    → (requeues (reconcile_body r req (some si)).1 secret (object_key p) ≡ true)
      ↔ ((alias : Text) × Used p used alias × (secret ≡ ref_of p alias))
unfolding reconcile_body with_pipeline
reconcile_body-Indexed r req p used get si secret found decoded reader shapes valid =
    let index : (reconcile_body r req (some si)).1
        ≡ some (set si (object_key p) (set_refs r p used si)) =
      rw (found, decoded) (index-with_used r p used si p.spec.secret refl) in
    let (of_secrets, each_once) = refs-resolve_related_secrets r.sha256 get p used shapes in
    let (into, back) = of_secrets secret in
    let same : requeues (reconcile_body r req (some si)).1 secret (object_key p)
        ≡ contains secret (resolve_related_secrets r.sha256 (some get) p used).refs =
      ap (λ i. requeues i secret (object_key p)) index
      ∙ (requeues-set si (object_key p) (set_refs r p used si) secret valid
          ∙ ap (λ reads. contains secret (resolve_related_secrets r.sha256 reads p used).refs)
              reader) in
    let (member, test) =
      contains-In secret (resolve_related_secrets r.sha256 (some get) p used).refs in
    (λ h. into (member (sym same ∙ h)), λ m. same ∙ test (back m))

-- When the pipeline is gone, the index requeues nothing for it any more, and every workload is woken.
pub reconcile_body-Deleted :
    (r : Reconciler) (req : NamespacedName) (si : SecretIndex) (ws : Workloads)
    (secret : NamespacedName)
    → get_pipeline r req ≡ ok none
    → list_workloads r ≡ ok ws
    → IsConsistent si
    → (requeues (reconcile_body r req (some si)).1 secret req ≡ false)
      × ((reconcile_body r req (some si)).0.events ≡ all_events ws)
unfolding reconcile_body with_pipeline index_set with_workloads no_workloads all_events contains
reconcile_body-Deleted r req si ws secret gone listed valid =
    rw (gone, listed)
      (
        requeues-set si req [] secret valid,
        events_of_none ws ws.agents ws.aggregators ws.cluster_aggregators refl refl refl,
      )
