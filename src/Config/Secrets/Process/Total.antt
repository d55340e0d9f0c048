-- ===== src/Config/Secrets/Process/Total.antt =====
-- When `process_pipeline_secrets` succeeds, by the shape of the pipeline, and what it queues, by the
-- backends that the pipeline declares.
use vector_operator.Prelude.{
  ◌≡◌, ◌≢◌, refl, ◌⊎◌, inl, inr, ◌↔◌, Bool-cases, Bool, true, false, not, Option, none, some, List,
  [], ◌∷◌, ◌++◌, map, All, arith, sym, ap, subst, if◌then◌else◌, ◌==◌,
}
use vector_operator.Prelude.Result.{ok, fails}
use vector_operator.Dict.{Dict, lookup, has}
use vector_operator.Text.{Text, text_eq}
use vector_operator.Api.{
  Backend, Kind, vector_pipeline, cluster_vector_pipeline, Pipeline, is_vp_kind,
}
use vector_operator.Config.Types.{Fields}
use vector_operator.Config.Names.{flat_key}
use vector_operator.Config.Secrets.Types.{Library, Getter, SecretRef, PendingSecretRef}
use vector_operator.Config.Secrets.Scan.Exact.{acceptable, substitute_fields}
use vector_operator.Config.Secrets.Process.{
  text_is_empty, check_backends, pipeline_id, declared_backend, to_pending, unsupported,
  process_pipeline_secrets,
}
use vector_operator.Config.Secrets.Process.Laws.{
  all_occurrences, accepts, passes, processable, process_pipeline_secrets_exact,
}

-- a VectorPipeline names no namespace, and a ClusterVectorPipeline names one
abbrev pub Shape : Kind → Backend → Type 0
Shape vector_pipeline b = b.namespace ≡ []
Shape cluster_vector_pipeline b = b.namespace ≢ []

-- the namespace that a reference through the backend is read from
abbrev pub ReadFrom : Kind → Pipeline → Backend → Text → Type 0
ReadFrom vector_pipeline p b ns = ns ≡ p.namespace
ReadFrom cluster_vector_pipeline p b ns = ns ≡ b.namespace

abbrev Shaped : Kind → Dict Text Backend → Type 0
Shaped k = All (λ (kv : Text × Backend). Shape k kv.1)

text_is_empty-eq : (s : Text) → text_is_empty s ≡ true → s ≡ []
text_is_empty-eq [] e = refl
text_is_empty-eq (c ∷ s) e = cc e

text_is_empty-full : (s : Text) → s ≢ [] → text_is_empty s ≡ false
text_is_empty-full [] e = absurd (e refl)
text_is_empty-full (c ∷ s) e = refl

check_backends-Shaped :
    (k : Kind) (name : Text) (declared : Dict Text Backend)
    → (passes (check_backends (is_vp_kind k) name declared) ≡ true) ↔ Shaped k declared
unfolding check_backends
check_backends-Shaped k name [] = (λ h. tt, λ h. refl)
check_backends-Shaped vector_pipeline name ((alias, b) ∷ rest) =
    let later = check_backends-Shaped vector_pipeline name rest in
    (
      λ h. (text_is_empty-eq b.namespace (ground arith), later.0 (ground arith)),
      λ h. let e = later.1 h.1 in let n : text_is_empty b.namespace ≡ true = rw h.0 refl in rw n e,
    )
check_backends-Shaped cluster_vector_pipeline name ((alias, b) ∷ rest) =
    let later = check_backends-Shaped cluster_vector_pipeline name rest in
    (
      λ h. (
        λ e. let n : text_is_empty b.namespace ≡ true = rw e refl in ground arith,
        later.0 (ground arith),
      ),
      λ h. let e = later.1 h.1 in rw (text_is_empty-full b.namespace h.0) e,
    )

none_declared :
    (d : Dict Text Backend)
    → (not (elim d as (λ _. Bool) [ [] ↦ false | _ ∷ _ ↦ true ]) ≡ true) ↔ (d ≡ [])
none_declared [] = (λ h. refl, λ h. refl)
none_declared (x ∷ d) = (λ h. cc h, λ h. cc h)

-- a getter is given, or no backend is declared
unsupported-Given :
    (lib : Library) (p : Pipeline) (getter : Option Getter)
    → (not (unsupported lib p getter) ≡ true) ↔ ((getter ≢ none) ⊎ (p.spec.secret ≡ []))
unfolding unsupported
unsupported-Given lib p (some g) = (λ h. inl (λ e. cc e), λ h. refl)
unsupported-Given lib p none = (
  λ h. inr ((none_declared p.spec.secret).0 h),
  λ h. elim h [ inl x ↦ absurd (x refl) | inr e ↦ (none_declared p.spec.secret).1 e ],
)

has-lookup :
    (alias : Text) (d : Dict Text Backend)
    → has alias d ≡ true
    → (b : Backend) × (lookup alias d ≡ some b)
unfolding has lookup
has-lookup alias [] h = cc h
has-lookup alias ((a, b) ∷ d) h = elim (Bool-cases (a == alias)) [
  | inl y ↦ (b, rw y refl)
  | inr n ↦ let (c, e) = has-lookup alias d (ground arith) in (c, rw n e)
]

ReadFrom-by_kind :
    (k : Kind) (p : Pipeline) (b : Backend)
    → ReadFrom k p b (if is_vp_kind k then p.namespace else b.namespace)
ReadFrom-by_kind vector_pipeline p b = refl
ReadFrom-by_kind cluster_vector_pipeline p b = refl

-- what is queued for a reference
pub record Queued (p : Pipeline) (r : SecretRef) (q : PendingSecretRef) : Type 0 where
  pub flat_at : q.flat ≡ flat_key p.namespace p.name r.alias r.key
  pub key_at : q.key ≡ r.key
  pub owner_at : q.pipeline ≡ pipeline_id p
  pub backend : Backend
  pub declared_at : lookup r.alias p.spec.secret ≡ some backend
  pub name_at : q.secret_name ≡ backend.name
  pub namespace_at : ReadFrom p.kind p backend q.resolve_ns

module _ (lib : Library) (p : Pipeline) where
  -- one entry for each reference, in order
  abbrev pub Queues : List SecretRef → List PendingSecretRef → Type 0
  Queues [] [] = Unit
  Queues (r ∷ rs) (q ∷ qs) = Queued p r q × Queues rs qs
  Queues _ _ = ⊥

  abbrev pub Processable : Option Getter → List Fields → Type 0
  Processable getter comps =
      Shaped p.kind p.spec.secret
      × ((getter ≢ none) ⊎ (p.spec.secret ≡ []))
      × (accepts lib p (all_occurrences comps) ≡ true)

  processable-Processable :
      (getter : Option Getter) (comps : List Fields)
      → (processable lib p getter comps ≡ true) ↔ Processable getter comps
  unfolding processable
  processable-Processable getter comps =
      let shape = check_backends-Shaped p.kind p.name p.spec.secret in
      let given = unsupported-Given lib p getter in
      (
        λ h. (shape.0 (ground arith), given.0 (ground arith), ground arith),
        λ h. let (i, j, k) = h in let s = shape.1 i in let g = given.1 j in ground arith,
      )

  to_pending-Queued :
      (r : SecretRef)
      → acceptable lib p.namespace p.name p.spec.secret r ≡ true
      → Queued p r (to_pending p r)
  unfolding to_pending acceptable declared_backend
  to_pending-Queued r a =
      let (b, e) = has-lookup r.alias p.spec.secret (ground arith) in
      let same : declared_backend r.alias p.spec.secret ≡ b = rw (declared_backend, e) refl in
      record {
        flat_at = refl;
        key_at = refl;
        owner_at = refl;
        backend = b;
        declared_at = e;
        name_at = ap (λ (x : Backend). x.name) same;
        namespace_at =
            subst
              (λ (x : Backend).
                ReadFrom p.kind p b (if is_vp_kind p.kind then p.namespace else x.namespace))
              (sym same) (ReadFrom-by_kind p.kind p b);
      }

  to_pending-Queues :
      (rs : List SecretRef) → accepts lib p rs ≡ true → Queues rs (map (to_pending p) rs)
  to_pending-Queues [] h = tt
  to_pending-Queues (r ∷ rs) h =
      (to_pending-Queued r (ground arith), to_pending-Queues rs (ground arith))

  -- Processing succeeds exactly when each backend that the pipeline declares names a namespace if the
  -- pipeline is a ClusterVectorPipeline, and none if it is a VectorPipeline; when there is a getter, or
  -- no backend is declared; and when every reference in the components is acceptable. It then keeps
  -- what was pending, queues behind it one entry for each reference, in order, and replaces the
  -- references in the options. The entry has the reference's flat key and key, the pipeline, the Secret
  -- that the reference's backend declares, and the namespace to read it from: the pipeline's own for
  -- a VectorPipeline, the backend's for a ClusterVectorPipeline.
  pub process_pipeline_secrets-total :
      (getter : Option Getter) (comps : List Fields) (pending : List PendingSecretRef)
      → (Processable getter comps
          × ((new : List PendingSecretRef) × (process_pipeline_secrets lib p getter comps pending
                ≡ ok (
                  map (substitute_fields lib p.namespace p.name p.spec.secret) comps,
                  pending ++ new,
                ))
              × Queues (all_occurrences comps) new))
        ⊎ ((¬ Processable getter comps)
            × (fails (process_pipeline_secrets lib p getter comps pending) ≡ true))
  process_pipeline_secrets-total getter comps pending =
      let cases = process_pipeline_secrets_exact lib p getter comps pending in
      elim (Bool-cases (processable lib p getter comps)) [
        | inl good ↦
            let there = (processable-Processable getter comps).0 good in
            let (shaped, given, taken) = there in
            inl (
              there,
              (
                map (to_pending p) (all_occurrences comps),
                cases.0 good,
                to_pending-Queues (all_occurrences comps) taken,
              ),
            )
        | inr bad ↦ inr (
          λ there. let g = (processable-Processable getter comps).1 there in cc (g, bad),
          cases.1 bad,
        )
      ]
