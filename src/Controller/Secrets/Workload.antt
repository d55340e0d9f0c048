-- ===== src/Controller/Secrets/Workload.antt =====
-- `resolveWorkloadPipelines`, `markWaitingPipelines` and `reinstatePipelines` of
-- internal/controller/secrets.go. The status writes are returned in their order.
use vector_operator.Prelude.{
  Bool, true, false, not, Option, none, some, List, [], ◌∷◌, ◌++◌, ◌==◌, if◌then◌else◌, keep,
}
use vector_operator.Prelude.Result.{Result, ok, err, ◌>>=◌}
use vector_operator.Dict.{Dict, lookup, insert}
use vector_operator.Text.{Text, text_eq}
use vector_operator.Api.{Pipeline, is_valid, set_related_secrets_hash}
use vector_operator.Sets.{contains}
use vector_operator.Pipeline.SecretIndex.{NamespacedName, name_eq}
use vector_operator.Pipeline.Status.{
  Hashing, Patch, is_pipeline_changed, set_success_status, set_failed_status,
}
use vector_operator.Config.Secrets.Types.{Library, Getter, Secret}
use vector_operator.Config.Secrets.Collisions.{SecretCollision, detect_secret_collisions}
use vector_operator.Config.Secrets.Size.{SecretSizeExclusion, detect_secret_size_overflow}
use vector_operator.Controller.Secrets.{
  is_secret_attribution_reason, secret_collision_reason_prefix, secret_size_exclusion_reason_prefix,
  secret_object_size_exclusion_reason_prefix, secret_assets_waiting_reason_prefix, object_key,
  keys_of, is_data_error,
}

-- the text of each reason after its prefix, for one workload
pub record Wording : Type 0 where
  pub collision : SecretCollision → Text
  pub size : SecretSizeExclusion → Text
  pub waiting : Text

unfoldable pub secret_collision_reason : Wording → SecretCollision → Text
secret_collision_reason w c = secret_collision_reason_prefix ++ w.collision c

unfoldable pub secret_size_exclusion_reason : Wording → SecretSizeExclusion → Text
secret_size_exclusion_reason w e =
    (if e.object_budget
      then secret_object_size_exclusion_reason_prefix
      else secret_size_exclusion_reason_prefix)
    ++ w.size e

unfoldable pub secret_assets_waiting_reason : Wording → Text
secret_assets_waiting_reason w = secret_assets_waiting_reason_prefix ++ w.waiting

abbrev pub has_reason : Text → Option Text → Bool
has_reason reason none = false
has_reason reason (some r) = r == reason

abbrev pub attributed : Pipeline → Bool
attributed p = elim p.status.reason [ none ↦ false | some r ↦ is_secret_attribution_reason r ]

-- what a workload builds with, what may be reinstated later, and the statuses written
pub record Resolved : Type 0 where
  pub pipelines : List Pipeline
  pub reinstate : List Pipeline
  pub written : List Pipeline

unfoldable pub pool_of : List Pipeline → List Pipeline
unfolding is_valid
pool_of all = keep (λ p. if is_valid p then true else attributed p) all

unfoldable pub retry_candidates : List Pipeline → List NamespacedName
unfolding is_valid keys_of
retry_candidates pool = keys_of (keep (λ p. not (is_valid p)) pool)

unfoldable pub individually_valid : List Pipeline → List Pipeline
unfolding is_valid
individually_valid pool = keep is_valid pool

unfoldable pub collision_victims :
    List SecretCollision → Dict NamespacedName SecretCollision → Dict NamespacedName SecretCollision
collision_victims [] m = m
collision_victims (c ∷ cs) m =
    collision_victims cs (elim c.victim as (λ _. Dict NamespacedName SecretCollision) [
      | none ↦ m
      | some p ↦ insert (object_key p) c m
    ])

unfoldable pub size_victims :
    List SecretSizeExclusion
    → Dict NamespacedName SecretSizeExclusion
    → Dict NamespacedName SecretSizeExclusion
size_victims [] m = m
size_victims (e ∷ es) m =
    size_victims es (elim e.victim as (λ _. Dict NamespacedName SecretSizeExclusion) [
      | none ↦ m
      | some p ↦ insert (object_key p) e m
    ])

abbrev pub spared : {V : Type 0} → Dict NamespacedName V → Pipeline → Bool
spared m p = elim (lookup (object_key p) m) as (λ _. Bool) [ none ↦ true | some _ ↦ false ]

module _ (h : Hashing) (patch : Patch) where
  -- the pipelines written: none when the reason is there already
  unfoldable pub write_attribution_reason_if_changed : Pipeline → Text → Result Text (List Pipeline)
  unfolding set_failed_status set_related_secrets_hash
  write_attribution_reason_if_changed p reason =
      let write = set_failed_status h patch (set_related_secrets_hash none p) reason p >>= λ p'.
      ok (p' ∷ []) in
      if has_reason reason p.status.reason then ok [] else write

  unfoldable pub mark_waiting_pipelines : Wording → List Pipeline → Result Text (List Pipeline)
  unfolding write_attribution_reason_if_changed secret_assets_waiting_reason
  mark_waiting_pipelines w [] = ok []
  mark_waiting_pipelines w (p ∷ ps) =
      write_attribution_reason_if_changed p (secret_assets_waiting_reason w) >>= λ a.
      mark_waiting_pipelines w ps >>= λ b. ok (a ++ b)

  unfoldable pub reinstate_pipelines : List Pipeline → Result Text (List Pipeline)
  unfolding set_success_status
  reinstate_pipelines [] = ok []
  reinstate_pipelines (p ∷ ps) =
      set_success_status h patch p p >>= λ p'. reinstate_pipelines ps >>= λ rest. ok (p' ∷ rest)

  module _ (w : Wording) (collided : Dict NamespacedName SecretCollision)
      (oversized : Dict NamespacedName SecretSizeExclusion) (retry : List NamespacedName) where
    -- a pipeline that is no victim: a retry candidate only joins with the spec it failed with
    unfoldable pub admit : Pipeline → Resolved → Result Text Resolved
    unfolding is_pipeline_changed
    admit p r =
        let retried = is_pipeline_changed h p >>= λ unchanged. ok (
          if unchanged
          then record r { pipelines = r.pipelines ++ p ∷ []; reinstate = r.reinstate ++ p ∷ [] }
          else r) in
        if contains (object_key p) retry
        then retried
        else ok (record r { pipelines = r.pipelines ++ p ∷ [] })

    unfoldable pub attribute : Pipeline → Resolved → Result Text Resolved
    unfolding admit write_attribution_reason_if_changed secret_collision_reason
        secret_size_exclusion_reason
    attribute p r = elim (lookup (object_key p) collided) [
      | some c ↦ write_attribution_reason_if_changed p (secret_collision_reason w c) >>= λ ps.
          ok (record r { written = r.written ++ ps })
      | none ↦ elim (lookup (object_key p) oversized) [
        | some e ↦
            write_attribution_reason_if_changed p (secret_size_exclusion_reason w e) >>= λ ps.
            ok (record r { written = r.written ++ ps })
        | none ↦ admit p r
      ]
    ]

    unfoldable pub attribute_all : List Pipeline → Resolved → Result Text Resolved
    unfolding attribute
    attribute_all [] r = ok r
    attribute_all (p ∷ ps) r = attribute p r >>= λ r'. attribute_all ps r'

abbrev pub nothing_resolved : Resolved
nothing_resolved = record { pipelines = []; reinstate = []; written = [] }

abbrev pub fall_back : List Pipeline → Resolved
fall_back pool = record nothing_resolved { pipelines = individually_valid pool }

module _ (h : Hashing) (patch : Patch) (lib : Library) (getter : Getter) (prototype : Option Secret)
    (w : Wording) where
  unfoldable pub resolve_sizes : List Pipeline → List SecretCollision → Result Text Resolved
  unfolding attribute_all collision_victims size_victims retry_candidates individually_valid
  resolve_sizes pool collisions =
      let collided = collision_victims collisions [] in
      let survivors = keep (spared collided) pool in
      elim (detect_secret_size_overflow lib getter prototype survivors) [
        | err e ↦
            if is_data_error e
            then attribute_all h patch w collided [] (retry_candidates pool) pool nothing_resolved
            else ok (fall_back pool)
        | ok es ↦
            attribute_all h patch w collided (size_victims es []) (retry_candidates pool) pool
              nothing_resolved
      ]

  -- on the pipelines that `GetAllPipelines` lists
  unfoldable pub resolve_workload_pipelines : List Pipeline → Result Text Resolved
  unfolding pool_of resolve_sizes individually_valid
  resolve_workload_pipelines all =
      let pool = pool_of all in
      elim (detect_secret_collisions lib (some getter) pool) [
        | err e ↦ ok (fall_back pool)
        | ok collisions ↦ resolve_sizes pool collisions
      ]
