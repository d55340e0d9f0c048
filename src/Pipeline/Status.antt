-- ===== src/Pipeline/Status.antt =====
-- `SetSuccessStatus` and `SetFailedStatus` of internal/pipeline/pipeline.go, and
-- internal/pipeline/hash.go. The JSON encoding, the CRC and the patch of the API server are parameters.
use vector_operator.Prelude.{
  ap, subst, sym, ◌∙◌, inl, inr, Option-cases, ℕ, ◌≡◌, refl, Bool, true, false, Option, none, some,
  [], codes, arith,
}
use vector_operator.Prelude.Int.{ℤ, pos}
use vector_operator.Prelude.Result.{Result, ok, err, ◌>>=◌, >>=-eq-ok}
use vector_operator.Dict.{Dict}
use vector_operator.Text.{Text, text_eq}
use vector_operator.Api.{
  Pipeline, Spec, Status, is_valid, set_config_check, set_reason, set_last_applied_pipeline,
}
use vector_operator.Pipeline.Labels.{label_at}
use vector_operator.Pipeline.Merge.{
  int_beq, int_beq_refl, merge_status, status_there, merge_status-same, merge_field-cleared,
  merge_field-blamed,
}

-- `tmp`, the part of a pipeline that is hashed
pub record Tmp : Type 0 where
  pub spec : Spec
  pub labels : Dict Text Text
  pub service_name : Text
  pub config_optimization : Text
  pub force_config_check : Text

pub record Hashing : Type 0 where
  pub marshal : Tmp → Result Text Text
  pub crc32 : Text → ℕ

abbrev pub annotation_service_name : Text
annotation_service_name = codes "observability.kaasops.io/service-name"

abbrev pub annotation_config_optimization : Text
annotation_config_optimization = codes "vector-operator.kaasops.io/config-optimization"

abbrev annotation_force_config_check : Text
annotation_force_config_check = codes "vector-operator.kaasops.io/force-configcheck"

-- The status patch on the API server: its error, if it has one, on the object and its base; and the
-- reason that the server may have for a pipeline that was read without one. The operator owns the
-- fields of the status, so what was read is there.
pub record Patch : Type 0 where
  pub error : Pipeline → Pipeline → Option Text
  pub reason_there : Pipeline → Option Text

module _ (h : Hashing) where
  unfoldable pub get_pipeline_hash : Pipeline → Result Text ℤ
  unfolding label_at
  get_pipeline_hash p =
      h.marshal (record {
        spec = p.spec;
        labels = p.labels;
        service_name = label_at annotation_service_name p.annotations;
        config_optimization = label_at annotation_config_optimization p.annotations;
        force_config_check = label_at annotation_force_config_check p.annotations;
      })
      >>= λ a. ok (pos (h.crc32 a))

  -- true if the hash is the one that was applied last
  unfoldable pub is_pipeline_changed : Pipeline → Result Text Bool
  unfolding get_pipeline_hash
  is_pipeline_changed p = get_pipeline_hash p >>= λ hash.
      ok (elim p.status.last_applied_pipeline_hash [ none ↦ false | some old ↦ int_beq hash old ])

  module _ (patch : Patch) where
    -- on the status there, the pipeline and its base: the pipeline with the status that the server has
    -- after the patch
    unfoldable pub patched : Status → Pipeline → Pipeline → Result Text Pipeline
    unfolding merge_status
    patched there p base = elim (patch.error p base) [
      | none ↦ ok (record p { status = merge_status there p.status base.status })
      | some e ↦ err e
    ]

    unfoldable pub set_success_status : Pipeline → Pipeline → Result Text Pipeline
    unfolding patched get_pipeline_hash set_reason set_config_check set_last_applied_pipeline
        status_there
    set_success_status p base =
        let cleared = set_reason none (set_config_check true p) in
        get_pipeline_hash cleared >>= λ hash.
        patched (status_there patch.reason_there base)
          (set_last_applied_pipeline (some hash) cleared) (set_reason (some []) base)

    unfoldable pub set_failed_status : Pipeline → Text → Pipeline → Result Text Pipeline
    unfolding patched get_pipeline_hash set_reason set_config_check set_last_applied_pipeline
        status_there
    set_failed_status p reason base =
        let failed = set_reason (some reason) (set_config_check false p) in
        get_pipeline_hash failed >>= λ hash.
        patched (status_there patch.reason_there base)
          (set_last_applied_pipeline (some hash) failed) base

    patched-ok :
        (there : Status) (p base p' : Pipeline)
        → merge_status there p.status base.status ≡ p.status
        → patched there p base ≡ ok p'
        → p ≡ p'
    unfolding patched
    patched-ok there p base p' same e = elim (Option-cases (patch.error p base)) [
      | inr (x, q) ↦ absurd (ground arith)
      | inl q ↦
          let done : record p { status = merge_status there p.status base.status } ≡ p' =
            ground arith in
          sym (ap (λ (t : Status). record p { status = t }) same) ∙ done
    ]

    -- a patch that writes no reason, against a base that has one
    pub patched-cleared :
        (p base p' : Pipeline)
        → p.status.reason ≡ none
        → patched (status_there patch.reason_there base) p (set_reason (some []) base) ≡ ok p'
        → p ≡ p'
    unfolding set_reason status_there
    patched-cleared p base p' cleared =
        patched-ok (status_there patch.reason_there base) p (set_reason (some []) base) p' (
          merge_status-same (status_there patch.reason_there base) p.status
            (set_reason (some []) base).status refl refl refl refl
            (merge_field-cleared (status_there patch.reason_there base).reason p.status.reason []
              cleared))

    -- a patch that writes a reason
    pub patched-blamed :
        (p base p' : Pipeline) (reason : Text)
        → p.status.reason ≡ some reason
        → patched (status_there patch.reason_there base) p base ≡ ok p'
        → p ≡ p'
    unfolding status_there
    patched-blamed p base p' reason blamed =
        patched-ok (status_there patch.reason_there base) p base p' (
          merge_status-same (status_there patch.reason_there base) p.status base.status refl refl
            refl refl
            (merge_field-blamed (patch.reason_there base) reason p.status.reason base.status.reason
              blamed))

    -- what a status write leaves: the verdict, the reason, the spec, and a hash that is up to date
    abbrev pub Written : Bool → Option Text → Pipeline → Pipeline → Type 0
    Written verdict reason p p' =
        (is_valid p' ≡ verdict)
        × (p'.status.reason ≡ reason)
        × (p'.spec ≡ p.spec)
        × (is_pipeline_changed p' ≡ ok true)

    stored-Written :
        (verdict : Bool) (reason : Option Text) (p p' : Pipeline) (hash : ℤ)
        → get_pipeline_hash (set_reason reason (set_config_check verdict p)) ≡ ok hash
        → set_last_applied_pipeline (some hash) (set_reason reason (set_config_check verdict p))
          ≡ p'
        → Written verdict reason p p'
    unfolding is_valid is_pipeline_changed get_pipeline_hash set_reason set_config_check
        set_last_applied_pipeline
    stored-Written verdict reason p p' hash i same =
        subst (Written verdict reason p) same (refl, refl, refl, rw i (ap ok (int_beq_refl hash)))

    -- the object as it was written
    pub set_failed_status-stored :
        (p : Pipeline) (reason : Text) (base p' : Pipeline)
        → set_failed_status p reason base ≡ ok p'
        → (hash : ℤ) × (get_pipeline_hash (set_reason (some reason) (set_config_check false p))
            ≡ ok hash)
          × (set_last_applied_pipeline
                (some hash)
                (set_reason (some reason) (set_config_check false p))
              ≡ p')
    unfolding set_failed_status set_reason set_config_check set_last_applied_pipeline
    set_failed_status-stored p reason base p' e =
        let q = set_reason (some reason) (set_config_check false p) in
        let (hash, i, j) =
          >>=-eq-ok (get_pipeline_hash q)
            (λ hash.
              patched (status_there patch.reason_there base)
                (set_last_applied_pipeline (some hash) q) base)
            e in
        (hash, i, patched-blamed (set_last_applied_pipeline (some hash) q) base p' reason refl j)

    pub set_success_status-stored :
        (p base p' : Pipeline)
        → set_success_status p base ≡ ok p'
        → (hash : ℤ) × (get_pipeline_hash (set_reason none (set_config_check true p)) ≡ ok hash)
          × (set_last_applied_pipeline (some hash) (set_reason none (set_config_check true p)) ≡ p')
    unfolding set_success_status set_reason set_config_check set_last_applied_pipeline
    set_success_status-stored p base p' e =
        let q = set_reason none (set_config_check true p) in
        let (hash, i, j) =
          >>=-eq-ok (get_pipeline_hash q)
            (λ hash.
              patched (status_there patch.reason_there base)
                (set_last_applied_pipeline (some hash) q) (set_reason (some []) base))
            e in
        (hash, i, patched-cleared (set_last_applied_pipeline (some hash) q) base p' refl j)

    -- A pipeline whose failure was written is invalid, has that reason and the spec it had, and
    -- `IsPipelineChanged` says that the stored hash is its hash.
    pub set_failed_status-Written :
        (p : Pipeline) (reason : Text) (base p' : Pipeline)
        → set_failed_status p reason base ≡ ok p'
        → Written false (some reason) p p'
    set_failed_status-Written p reason base p' e =
        let (hash, i, same) = set_failed_status-stored p reason base p' e in
        stored-Written false (some reason) p p' hash i same

    -- A pipeline whose success was written is valid, has no reason and the spec it had, and
    -- `IsPipelineChanged` says that the stored hash is its hash.
    pub set_success_status-Written :
        (p base p' : Pipeline) → set_success_status p base ≡ ok p' → Written true none p p'
    set_success_status-Written p base p' e =
        let (hash, i, same) = set_success_status-stored p base p' e in
        stored-Written true none p p' hash i same
