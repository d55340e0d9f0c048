-- ===== src/Config/Secrets/Process/Tenancy.antt =====
-- The namespaces that Secrets are read from: a VectorPipeline reaches only its own.
use vector_operator.Prelude.{
  ◌≡◌, Bool, true, false, Option, List, [], ◌∷◌, ◌++◌, map, All, Bool-cases, arith, inl, inr,
}
use vector_operator.Prelude.Result.{ok}
use vector_operator.Dict.{Dict, lookup, has}
use vector_operator.Text.{Text, text_eq}
use vector_operator.Api.{Backend, Pipeline, is_vp}
use vector_operator.Config.Types.{Fields}
use vector_operator.Config.Secrets.Types.{Library, Getter, SecretRef, PendingSecretRef}
use vector_operator.Config.Secrets.Scan.Exact.{acceptable}
use vector_operator.Config.Secrets.Process.{
  text_is_empty, check_backends, declared_backend, to_pending, process_pipeline_secrets,
}
use vector_operator.Config.Secrets.Process.Laws.{
  all_occurrences, accepts, passes, processable, process_pipeline_secrets_exact,
}

-- where a queued reference may be read from: the pipeline's own namespace for a VectorPipeline, a
-- named one for a ClusterVectorPipeline
abbrev pub InScope : Pipeline → PendingSecretRef → Type 0
InScope p r =
    (is_vp p ≡ true → r.resolve_ns ≡ p.namespace)
    × (is_vp p ≡ false → text_is_empty r.resolve_ns ≡ false)

-- a declared backend of a pipeline that passed the check has the shape of its kind
check_backends-declared :
    (vp : Bool) (name alias : Text) (declared : Dict Text Backend)
    → passes (check_backends vp name declared) ≡ true
    → has alias declared ≡ true
    → vp ≡ false
    → text_is_empty (declared_backend alias declared).namespace ≡ false
unfolding check_backends has lookup declared_backend
check_backends-declared vp name alias [] h k v = cc
check_backends-declared vp name alias ((a, b) ∷ rest) h k v =
    ground (arith, check_backends-declared vp name alias rest)

module _ (lib : Library) (p : Pipeline) where
  to_pending-InScope :
      (r : SecretRef)
      → passes (check_backends (is_vp p) p.name p.spec.secret) ≡ true
      → acceptable lib p.namespace p.name p.spec.secret r ≡ true
      → InScope p (to_pending p r)
  unfolding to_pending acceptable
  to_pending-InScope r h a = (
    λ v. ground arith,
    λ v. ground (arith, check_backends-declared (is_vp p) p.name r.alias p.spec.secret),
  )

  map-to_pending-InScope :
      (refs : List SecretRef)
      → passes (check_backends (is_vp p) p.name p.spec.secret) ≡ true
      → accepts lib p refs ≡ true
      → All (InScope p) (map (to_pending p) refs)
  map-to_pending-InScope [] h a = tt
  map-to_pending-InScope (r ∷ refs) h a =
      (to_pending-InScope r h (ground arith), map-to_pending-InScope refs h (ground arith))

  -- When processing succeeds, it has only appended to what was pending, and every new entry is
  -- read from the pipeline's own namespace if the pipeline is a VectorPipeline, and from a
  -- namespace that is named explicitly if it is cluster-scoped.
  pub process_pipeline_secrets-InScope :
      (getter : Option Getter) (comps comps' : List Fields)
      (pending pending' : List PendingSecretRef)
      → process_pipeline_secrets lib p getter comps pending ≡ ok (comps', pending')
      → (new : List PendingSecretRef) × (pending' ≡ pending ++ new) × All (InScope p) new
  process_pipeline_secrets-InScope getter comps comps' pending pending' h =
      elim (Bool-cases (processable lib p getter comps)) [
        | inl good ↦ (
          map (to_pending p) (all_occurrences comps),
          ground (arith, (process_pipeline_secrets_exact lib p getter comps pending).0 good),
          unfold processable in
              map-to_pending-InScope (all_occurrences comps) (ground arith) (ground arith),
        )
        | inr bad ↦
            absurd
              (ground (arith, (process_pipeline_secrets_exact lib p getter comps pending).1 bad))
      ]
