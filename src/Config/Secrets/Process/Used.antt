-- ===== src/Config/Secrets/Process/Used.antt =====
-- `UsedSecretBackends` of internal/config/secrets.go: the declared aliases that a reference uses.
use vector_operator.Prelude.{
  ◌≡◌, refl, Bool, ◌&&◌, ◌||◌, List, [], ◌∷◌, ◌++◌, any, arith, if◌then◌else◌,
}
use vector_operator.Prelude.Result.{Result, ok, err}
use vector_operator.Dict.{Dict, has}
use vector_operator.Sets.{contains, add, contains-add}
use vector_operator.Text.{Text, text_eq, text_beq, text_beq_iff}
use vector_operator.Api.{Backend, Pipeline}
use vector_operator.Config.Types.{
  Value, Items, Fields, str, other, arr, obj, nil, cons, end, field, PipelineConfig,
}
use vector_operator.Config.Secrets.Types.{Library, SecretRef, SecretError, unmarshal}
use vector_operator.Config.Secrets.Scan.Segments.{Segment, lit, ref, segments}
use vector_operator.Config.Secrets.Scan.Exact.{
  refs_of, occurrences, occurrences_items, occurrences_fields,
}
use vector_operator.Config.Secrets.Process.{pipeline_id, components}
use vector_operator.Config.Secrets.Process.Laws.{all_occurrences}

module _ (declared : Dict Text Backend) where
  -- the `string` case of `walk`: the loop over the submatches
  unfoldable pub used_segments : List Segment → List Text → List Text
  used_segments [] used = used
  used_segments (lit c ∷ rest) used = used_segments rest used
  used_segments (ref alias key ∷ rest) used =
      used_segments rest (if has alias declared then add alias used else used)

  unfoldable mutual
    unfolding used_segments segments

    pub used_value : Value → List Text → List Text
    used_value (str s) used = used_segments (segments s) used
    used_value (other s) used = used
    used_value (arr xs) used = used_items xs used
    used_value (obj fs) used = used_fields fs used

    pub used_items : Items → List Text → List Text
    used_items nil used = used
    used_items (cons x xs) used = used_items xs (used_value x used)

    pub used_fields : Fields → List Text → List Text
    used_fields end used = used
    used_fields (field k x fs) used = used_fields fs (used_value x used)

  unfoldable pub used_components : List Fields → List Text → List Text
  unfolding used_fields
  used_components [] used = used
  used_components (c ∷ rest) used = used_components rest (used_fields c used)

  -- whether one of the references names the alias, and the alias is declared
  abbrev pub uses : Text → List SecretRef → Bool
  uses alias refs = has alias declared && any (λ r. text_beq r.alias alias) refs

  uses-append :
      (alias : Text) (xs ys : List SecretRef)
      → uses alias (xs ++ ys) ≡ (uses alias xs || uses alias ys)
  uses-append alias [] ys = ground arith
  uses-append alias (x ∷ xs) ys = ground (arith, uses-append alias xs ys)

  contains-used_segments :
      (alias : Text) (segs : List Segment) (used : List Text)
      → contains alias (used_segments segs used)
        ≡ (uses alias (refs_of segs) || contains alias used)
  unfolding used_segments refs_of
  contains-used_segments alias [] used = ground arith
  contains-used_segments alias (lit c ∷ rest) used = contains-used_segments alias rest used
  contains-used_segments alias (ref a k ∷ rest) used = ground (
    arith,
    contains-used_segments alias rest used,
    contains-used_segments alias rest (add a used),
    contains-add a alias used,
    text_beq_iff a alias,
  )

  mutual
    unfolding used_value occurrences

    contains-used_value :
        (alias : Text) (v : Value) (used : List Text)
        → contains alias (used_value v used) ≡ (uses alias (occurrences v) || contains alias used)
    contains-used_value alias (str s) used = contains-used_segments alias (segments s) used
    contains-used_value alias (other s) used = ground arith
    contains-used_value alias (arr xs) used = contains-used_items alias xs used
    contains-used_value alias (obj fs) used = contains-used_fields alias fs used

    contains-used_items :
        (alias : Text) (xs : Items) (used : List Text)
        → contains alias (used_items xs used)
          ≡ (uses alias (occurrences_items xs) || contains alias used)
    contains-used_items alias nil used = ground arith
    contains-used_items alias (cons x xs) used = ground (
      arith,
      contains-used_items alias xs (used_value x used),
      contains-used_value alias x used,
      uses-append alias (occurrences x) (occurrences_items xs),
    )

    contains-used_fields :
        (alias : Text) (fs : Fields) (used : List Text)
        → contains alias (used_fields fs used)
          ≡ (uses alias (occurrences_fields fs) || contains alias used)
    contains-used_fields alias end used = ground arith
    contains-used_fields alias (field k x fs) used = ground (
      arith,
      contains-used_fields alias fs (used_value x used),
      contains-used_value alias x used,
      uses-append alias (occurrences x) (occurrences_fields fs),
    )

  pub contains-used_components :
      (alias : Text) (comps : List Fields) (used : List Text)
      → contains alias (used_components comps used)
        ≡ (uses alias (all_occurrences comps) || contains alias used)
  unfolding used_components all_occurrences
  contains-used_components alias [] used = ground arith
  contains-used_components alias (c ∷ rest) used = ground (
    arith,
    contains-used_components alias rest (used_fields c used),
    contains-used_fields alias c used,
    uses-append alias (occurrences_fields c) (all_occurrences rest),
  )

-- the aliases that a decoded pipeline uses; with nothing declared the answer is the nil map
unfoldable pub used_declared :
    Text → Dict Text Backend → Result Text PipelineConfig → Result SecretError (List Text)
unfolding used_components components
used_declared id [] decoded = ok []
used_declared id (d ∷ declared) (err e) = err (unmarshal id e)
used_declared id (d ∷ declared) (ok cfg) = ok (used_components (d ∷ declared) (components cfg) [])

unfoldable pub used_secret_backends : Library → Pipeline → Result SecretError (List Text)
unfolding used_declared pipeline_id
used_secret_backends lib p = used_declared (pipeline_id p) p.spec.secret (lib.unmarshal_json p.spec)

used_declared_exact :
    (id : Text) (declared : Dict Text Backend) (cfg : PipelineConfig)
    → (used : List Text) × (used_declared id declared (ok cfg) ≡ ok used)
      × ((alias : Text)
          → contains alias used ≡ uses declared alias (all_occurrences (components cfg)))
unfolding used_declared contains has
used_declared_exact id [] cfg = ([], refl, λ alias. refl)
used_declared_exact id (d ∷ declared) cfg = (
  used_components (d ∷ declared) (components cfg) [],
  refl,
  λ alias. ground (arith, contains-used_components (d ∷ declared) alias (components cfg) []),
)

-- When the pipeline decodes, `used_secret_backends` returns exactly the declared aliases that some
-- reference in a source, a transform or a sink names.
pub used_secret_backends_exact :
    (lib : Library) (p : Pipeline) (cfg : PipelineConfig)
    → lib.unmarshal_json p.spec ≡ ok cfg
    → (used : List Text) × (used_secret_backends lib p ≡ ok used)
      × ((alias : Text)
          → contains alias used ≡ uses p.spec.secret alias (all_occurrences (components cfg)))
unfolding used_secret_backends
used_secret_backends_exact lib p cfg h =
    rw h (used_declared_exact (pipeline_id p) p.spec.secret cfg)
