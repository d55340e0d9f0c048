-- ===== src/Controller/Pipeline/Reconcile.antt =====
-- `reconcile` and `Reconcile` of internal/controller/pipeline_controller.go. Each function is the rest of
-- the body from one point on. A nil `SecretIndex` is `none`.
use vector_operator.Prelude.{
  ℕ, Bool, true, false, ◌&&◌, ◌||◌, not, Option, none, some, List, [], ◌∷◌, if◌then◌else◌,
}
use vector_operator.Prelude.Int.{ℤ}
use vector_operator.Prelude.Result.{Result, ok, err}
use vector_operator.Dict.{Dict}
use vector_operator.Text.{Text}
use vector_operator.Api.{Backend, Role, Pipeline, is_valid, set_related_secrets_hash, set_role}
use vector_operator.Pipeline.SecretIndex.{NamespacedName, SecretIndex, set, pipelines_for}
use vector_operator.Pipeline.Status.{is_pipeline_changed, set_success_status, set_failed_status}
use vector_operator.Config.Types.{PipelineConfig}
use vector_operator.Config.Roles.{RoleError, vector_role}
use vector_operator.Config.Secrets.Types.{SecretError}
use vector_operator.Config.Secrets.Process.Used.{used_secret_backends}
use vector_operator.Controller.Secrets.{object_key}
use vector_operator.Controller.Secrets.Related.{
  Related, is_shape_error, resolve_related_secrets, related_secrets_hash_equal,
}
use vector_operator.Controller.Pipeline.{
  Reconciler, Workload, Workloads, CheckError, Round, idle, stopped, all_events, list_workloads,
  get_pipeline,
}
use vector_operator.Controller.Pipeline.Checks.{outcomes, is_secret_resolve, is_build_config_failed}
use vector_operator.Controller.Pipeline.Poll.{arm_secret_rotation_poll}

abbrev pub related_secrets_resolve_retry_delay : ℕ
related_secrets_resolve_retry_delay = 10000

-- the round that a failure's status write ends
unfoldable pub failed_round : ℕ → Result Text Pipeline → Round
failed_round requeue (err e) = stopped e
failed_round requeue (ok q) = record { written = some q; events = []; result = ok requeue }

unfoldable pub success_round : Workloads → Result Text Pipeline → Round
unfolding all_events
success_round ws (err e) = stopped e
success_round ws (ok q) = record { written = some q; events = all_events ws; result = ok 0 }

abbrev pub is_nil : List Workload → Bool
is_nil [] = true
is_nil (_ ∷ _) = false

unfoldable pub no_workloads : Workloads → Bool
no_workloads ws = is_nil ws.agents && is_nil ws.aggregators && is_nil ws.cluster_aggregators

module _ (r : Reconciler) where
  unfoldable pub fail : ℕ → Pipeline → Text → Pipeline → Round
  unfolding failed_round set_failed_status
  fail requeue p reason base =
      failed_round requeue (set_failed_status r.hashing r.patch p reason base)

  unfoldable pub requeue_after_check : CheckError → ℕ
  unfolding is_build_config_failed is_secret_resolve
  requeue_after_check e =
      if is_secret_resolve e
      then related_secrets_resolve_retry_delay
      else if is_build_config_failed e
      then 0
      else if r.enable_reconciliation_invalid_pipelines
      then r.retry_delay
      else 0

  -- after `eg.Wait`; `base` is the pipeline as it was read
  unfoldable pub after_wait : Pipeline → Pipeline → Workloads → Option CheckError → Round
  unfolding fail success_round set_success_status set_related_secrets_hash is_secret_resolve
      requeue_after_check
  after_wait base p ws none = success_round ws (set_success_status r.hashing r.patch p base)
  after_wait base p ws (some e) =
      fail (requeue_after_check e)
        (if is_secret_resolve e then set_related_secrets_hash none p else p) (r.messages.check e)
        base

  unfoldable pub after_role : Pipeline → Pipeline → Workloads → Result RoleError Role → Round
  unfolding fail after_wait set_role outcomes
  after_role base p ws (err e) = fail 0 p (r.messages.role e) base
  after_role base p ws (ok role) =
      let q = set_role (some role) p in after_wait base q ws (r.wait (outcomes r role q ws))

  unfoldable pub after_unmarshal :
      Pipeline → Pipeline → Workloads → Result Text PipelineConfig → Round
  unfolding fail after_role vector_role
  after_unmarshal base p ws (err e) = fail 0 p (r.messages.unmarshal e) base
  after_unmarshal base p ws (ok cfg) = after_role base p ws (vector_role cfg)

  -- a round that is not skipped
  unfoldable pub checked : Pipeline → Option ℤ → Workloads → Round
  unfolding after_unmarshal set_related_secrets_hash
  checked base token ws =
      after_unmarshal base (set_related_secrets_hash token base) ws (r.lib.unmarshal_json base.spec)

  -- on the result of `IsPipelineChanged`, which is true when the hash is the stored one
  unfoldable pub unless_unchanged : Pipeline → Option ℤ → Workloads → Result Text Bool → Round
  unfolding checked related_secrets_hash_equal
  unless_unchanged base token ws (err e) = stopped e
  unless_unchanged base token ws (ok unchanged) =
      if unchanged && related_secrets_hash_equal base.status.related_secrets_hash token
      then idle
      else checked base token ws

  unfoldable pub decide : Pipeline → Option ℤ → Workloads → Round
  unfolding is_valid unless_unchanged checked is_pipeline_changed
  decide base token ws =
      if not r.enable_reconciliation_invalid_pipelines || is_valid base
      then unless_unchanged base token ws (is_pipeline_changed r.hashing base)
      else checked base token ws

  -- on the listed workloads and the pipeline with the token of its Secrets, if it is there
  unfoldable pub with_workloads : Option (Pipeline × Option ℤ) → Result Text Workloads → Round
  unfolding no_workloads decide all_events
  with_workloads target (err e) = idle
  with_workloads none (ok ws) =
      if no_workloads ws then idle else record idle { events = all_events ws }
  with_workloads (some target) (ok ws) =
      if no_workloads ws then idle else decide target.0 target.1 ws

  -- the index is kept when there is one
  unfoldable pub index_set :
      NamespacedName → List NamespacedName → Option SecretIndex → Option SecretIndex
  unfolding set
  index_set key refs none = none
  index_set key refs (some si) = some (set si key refs)

  unfoldable pub after_resolve :
      Pipeline → Option SecretIndex → Related → Round × Option SecretIndex
  unfolding index_set object_key with_workloads list_workloads fail is_shape_error
      set_related_secrets_hash
  after_resolve p index related = (
    elim related.error [
      | none ↦ with_workloads (some (p, related.token)) (list_workloads r)
      | some e ↦
          fail (if is_shape_error e then 0 else related_secrets_resolve_retry_delay)
            (set_related_secrets_hash none p) (r.messages.related e) p
    ],
    index_set (object_key p) related.refs index,
  )

  -- on the result of `UsedSecretBackends`
  unfoldable pub with_used :
      Pipeline
      → Option SecretIndex
      → Dict Text Backend
      → Result SecretError (List Text)
      → Round × Option SecretIndex
  unfolding after_resolve index_set object_key with_workloads list_workloads resolve_related_secrets
  with_used p index declared (err e) =
      (with_workloads (some (p, none)) (list_workloads r), index_set (object_key p) [] index)
  with_used p index [] (ok used) =
      (with_workloads (some (p, none)) (list_workloads r), index_set (object_key p) [] index)
  with_used p index (d ∷ declared) (ok used) =
      after_resolve p index (resolve_related_secrets r.sha256 r.api_reader p used)

  unfoldable pub with_pipeline :
      NamespacedName
      → Option SecretIndex
      → Result Text (Option Pipeline)
      → Round × Option SecretIndex
  unfolding with_used with_workloads list_workloads index_set used_secret_backends
  with_pipeline req index (err e) = (stopped e, index)
  with_pipeline req index (ok none) =
      (with_workloads none (list_workloads r), index_set req [] index)
  with_pipeline req index (ok (some p)) =
      with_used p index p.spec.secret (used_secret_backends r.lib p)

  -- the body
  unfoldable pub reconcile_body : NamespacedName → Option SecretIndex → Round × Option SecretIndex
  unfolding with_pipeline get_pipeline
  reconcile_body req index = with_pipeline req index (get_pipeline r req)

  unfoldable pub arm : Result Text (Option Pipeline) → Round → Round
  unfolding arm_secret_rotation_poll
  arm read round = record round {
    result = elim round.result [
      | err e ↦ err e
      | ok requeue ↦ ok (arm_secret_rotation_poll r read requeue)
    ];
  }

  -- `Reconcile`: `read` is what the second `getPipeline` gives, after the body
  unfoldable pub reconcile :
      NamespacedName
      → Result Text (Option Pipeline)
      → Option SecretIndex
      → Round × Option SecretIndex
  unfolding reconcile_body arm
  reconcile req read index =
      let (round, index') = reconcile_body req index in (arm read round, index')

-- `mapSecretToPipelines`
unfoldable pub map_secret_to_pipelines : Option SecretIndex → NamespacedName → List NamespacedName
unfolding pipelines_for
map_secret_to_pipelines none secret = []
map_secret_to_pipelines (some si) secret = pipelines_for si secret
