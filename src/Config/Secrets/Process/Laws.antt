-- ===== src/Config/Secrets/Process/Laws.antt =====
-- What `process_pipeline_secrets` queues, and from which namespace it will be read.
use vector_operator.Prelude.{
  ◌≡◌, refl, Bool, true, false, not, ◌&&◌, Option, none, some, List, [], ◌∷◌, ◌++◌, map, all,
  append_assoc, append-nil, arith, ap,
}
use vector_operator.Prelude.Result.{ok, fails}
use vector_operator.Text.{text_eq}
use vector_operator.Api.{Pipeline, is_vp}
use vector_operator.Config.Types.{Fields, end, field}
use vector_operator.Config.Secrets.Types.{Library, Getter, SecretRef, PendingSecretRef, SecretError}
use vector_operator.Config.Secrets.Scan.Exact.{
  acceptable, occurrences_fields, substitute_fields, scan_and_rewrite_secret_refs_exact,
}
use vector_operator.Config.Secrets.Process.{
  check_backends, to_pending, process_component, process_components, unsupported,
  process_pipeline_secrets,
}

-- every reference of a list of option maps
unfoldable pub all_occurrences : List Fields → List SecretRef
all_occurrences [] = []
all_occurrences (opts ∷ rest) = occurrences_fields opts ++ all_occurrences rest

map_distrib {ℓ κ} :
    {A : Type ℓ} {B : Type κ} (f : A → B) (xs ys : List A) → map f (xs ++ ys) ≡ map f xs ++ map f ys
map_distrib f [] ys = refl
map_distrib f (x ∷ xs) ys = ap (◌∷◌ (f x)) (map_distrib f xs ys)

abbrev pub passes : Option SecretError → Bool
passes none = true
passes (some e) = false

module _ (lib : Library) (p : Pipeline) where
  abbrev pub accepts : List SecretRef → Bool
  accepts = all (acceptable lib p.namespace p.name p.spec.secret)

  accepts-append : (xs ys : List SecretRef) → accepts (xs ++ ys) ≡ (accepts xs && accepts ys)
  accepts-append [] ys = refl
  accepts-append (x ∷ xs) ys = ground (arith, accepts-append xs ys)

  process_component-accepted :
      (opts : Fields) (pending : List PendingSecretRef)
      → accepts (occurrences_fields opts) ≡ true
      → process_component lib p opts pending
        ≡ ok (
          substitute_fields lib p.namespace p.name p.spec.secret opts,
          pending ++ map (to_pending p) (occurrences_fields opts),
        )
  unfolding process_component occurrences_fields substitute_fields
  process_component-accepted end pending h = rw append-nil
  process_component-accepted (field k x fs) pending h =
      rw (
        (scan_and_rewrite_secret_refs_exact lib p.namespace p.name p.spec.secret (field k x fs)).0
          h)

  process_component-refused :
      (opts : Fields) (pending : List PendingSecretRef)
      → accepts (occurrences_fields opts) ≡ false
      → fails (process_component lib p opts pending) ≡ true
  unfolding process_component occurrences_fields
  process_component-refused end pending h = cc
  process_component-refused (field k x fs) pending h = ground (
    arith,
    (scan_and_rewrite_secret_refs_exact lib p.namespace p.name p.spec.secret (field k x fs)).1,
  )

  process_components-accepted :
      (comps : List Fields) (pending : List PendingSecretRef)
      → accepts (all_occurrences comps) ≡ true
      → process_components lib p comps pending
        ≡ ok (
          map (substitute_fields lib p.namespace p.name p.spec.secret) comps,
          pending ++ map (to_pending p) (all_occurrences comps),
        )
  unfolding process_components all_occurrences
  process_components-accepted [] pending h = rw append-nil
  process_components-accepted (opts ∷ rest) pending h = ground (
    arith,
    accepts-append (occurrences_fields opts) (all_occurrences rest),
    process_component-accepted opts pending,
    process_components-accepted rest (pending ++ map (to_pending p) (occurrences_fields opts)),
    map_distrib (to_pending p) (occurrences_fields opts) (all_occurrences rest),
    append_assoc pending (map (to_pending p) (occurrences_fields opts))
        (map (to_pending p) (all_occurrences rest)),
  )

  process_components-refused :
      (comps : List Fields) (pending : List PendingSecretRef)
      → accepts (all_occurrences comps) ≡ false
      → fails (process_components lib p comps pending) ≡ true
  unfolding process_components all_occurrences
  process_components-refused [] pending h = cc
  process_components-refused (opts ∷ rest) pending h = ground (
    arith,
    accepts-append (occurrences_fields opts) (all_occurrences rest),
    process_component-accepted opts pending,
    process_component-refused opts pending,
    process_components-refused rest (pending ++ map (to_pending p) (occurrences_fields opts)),
  )

  -- the conditions under which `process_pipeline_secrets` succeeds
  unfoldable pub processable : Option Getter → List Fields → Bool
  processable getter comps =
      passes (check_backends (is_vp p) p.name p.spec.secret)
      && (not (unsupported lib p getter) && accepts (all_occurrences comps))

  -- the two cases of the processing, each by its condition
  pub process_pipeline_secrets_exact :
      (getter : Option Getter) (comps : List Fields) (pending : List PendingSecretRef)
      → (processable getter comps ≡ true
          → process_pipeline_secrets lib p getter comps pending
            ≡ ok (
              map (substitute_fields lib p.namespace p.name p.spec.secret) comps,
              pending ++ map (to_pending p) (all_occurrences comps),
            ))
        × (processable getter comps ≡ false
            → fails (process_pipeline_secrets lib p getter comps pending) ≡ true)
  unfolding process_pipeline_secrets processable
  process_pipeline_secrets_exact getter comps pending = (
    λ h. ground (arith, process_components-accepted comps pending),
    λ h. ground (arith, process_components-refused comps pending),
  )
