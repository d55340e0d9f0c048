-- ===== src/Config/Secrets/Process.antt =====
-- `processPipelineSecrets` and `UsedSecretBackends` of internal/config/secrets.go.
pub mod Laws
pub mod Tenancy
pub mod Total
pub mod Used
use vector_operator.Prelude.{
  Bool, true, false, ◌&&◌, not, Option, none, some, List, [], ◌∷◌, ◌++◌, map, if◌then◌else◌,
}
use vector_operator.Prelude.Result.{Result, ok, err, ◌>>=◌, map_err}
use vector_operator.Dict.{Dict, lookup}
use vector_operator.Text.{Text, text_eq}
use vector_operator.Api.{Backend, Pipeline, is_vp}
use vector_operator.Config.Types.{Fields, end, field, PipelineConfig, Source, Transform, Sink}
use vector_operator.Config.Names.{flat_key}
use vector_operator.Config.Secrets.Types.{
  Library, Getter, SecretRef, PendingSecretRef, SecretError, namespace_not_allowed,
  namespace_required, not_supported, in_pipeline,
}
use vector_operator.Config.Secrets.Scan.{qualified, scan_and_rewrite_secret_refs}

unfoldable pub pipeline_id : Pipeline → Text
unfolding qualified
pipeline_id p = qualified p.namespace p.name

abbrev pub text_is_empty : Text → Bool
text_is_empty [] = true
text_is_empty (c ∷ s) = false

-- the loop over `declared`: a namespace is forbidden on a VectorPipeline, and required otherwise
unfoldable pub check_backends : Bool → Text → Dict Text Backend → Option SecretError
check_backends vp name [] = none
check_backends vp name ((alias, backend) ∷ rest) =
    let later = check_backends vp name rest in
    if vp && not (text_is_empty backend.namespace)
    then some (namespace_not_allowed name alias)
    else if not vp && text_is_empty backend.namespace
    then some (namespace_required name alias)
    else later

-- the zero value that a missing key of a map reads as
abbrev zero_backend : Backend
zero_backend = record { type = []; name = []; namespace = [] }

unfoldable pub declared_backend : Text → Dict Text Backend → Backend
declared_backend alias declared = elim (lookup alias declared) [ none ↦ zero_backend | some b ↦ b ]

-- the entry that the inner loop appends for one reference
unfoldable pub to_pending : Pipeline → SecretRef → PendingSecretRef
unfolding declared_backend pipeline_id flat_key
to_pending p r =
    let backend = declared_backend r.alias p.spec.secret in
    record {
      flat = flat_key p.namespace p.name r.alias r.key;
      resolve_ns = if is_vp p then p.namespace else backend.namespace;
      secret_name = backend.name;
      key = r.key;
      pipeline = pipeline_id p;
    }

module _ (lib : Library) (p : Pipeline) where
  unfoldable pub process_component :
      Fields → List PendingSecretRef → Result SecretError (Fields × List PendingSecretRef)
  unfolding to_pending scan_and_rewrite_secret_refs
  process_component end pending = ok (end, pending)
  process_component (field k x fs) pending =
      map_err (in_pipeline p.name)
        (scan_and_rewrite_secret_refs lib p.namespace p.name p.spec.secret (field k x fs))
      >>= λ r. ok (r.0, pending ++ map (to_pending p) r.1)

  unfoldable pub process_components :
      List Fields → List PendingSecretRef → Result SecretError (List Fields × List PendingSecretRef)
  unfolding process_component
  process_components [] pending = ok ([], pending)
  process_components (opts ∷ rest) pending = process_component opts pending >>= λ r.
      process_components rest r.1 >>= λ q. ok (r.0 ∷ q.0, q.1)

  unfoldable pub unsupported : Option Getter → Bool
  unsupported (some g) = false
  unsupported none = elim p.spec.secret [ [] ↦ false | _ ∷ _ ↦ true ]

  -- the components' options as rewritten, and `pending` with the new references
  unfoldable pub process_pipeline_secrets :
      Option Getter
      → List Fields
      → List PendingSecretRef
      → Result SecretError (List Fields × List PendingSecretRef)
  unfolding check_backends process_components unsupported
  process_pipeline_secrets getter comps pending =
      let processed = process_components comps pending in
      elim (check_backends (is_vp p) p.name p.spec.secret) [
        | some e ↦ err e
        | none ↦ if unsupported getter then err (not_supported p.name) else processed
      ]

-- the loops that collect the option maps of a decoded pipeline
unfoldable pub components : PipelineConfig → List Fields
components cfg =
    map (λ (kv : Text × Source). kv.1.options) cfg.sources
    ++ (map (λ (kv : Text × Transform). kv.1.options) cfg.transforms
        ++ map (λ (kv : Text × Sink). kv.1.options) cfg.sinks)
