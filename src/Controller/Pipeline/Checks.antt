-- ===== src/Controller/Pipeline/Checks.antt =====
-- The goroutines of `reconcile` in internal/controller/pipeline_controller.go: the workloads that
-- select a pipeline, and what each of them finds.
use vector_operator.Prelude.{
  Bool, true, false, ◌&&◌, Option, none, some, List, [], ◌∷◌, ◌++◌, map, keep, ◌==◌, if◌then◌else◌,
}
use vector_operator.Prelude.Result.{Result, ok, err}
use vector_operator.Dict.{Dict}
use vector_operator.Text.{Text, text_eq}
use vector_operator.Api.{Pipeline, Role, agent}
use vector_operator.Pipeline.Labels.{match_labels}
use vector_operator.Config.Secrets.Types.{
  SecretError, secret_resolve, in_pipeline, secret_size_data,
}
use vector_operator.Config.Secrets.Process.{text_is_empty}
use vector_operator.Controller.Pipeline.{
  Reconciler, Workload, Workloads, BuildError, secret_error, Built, Draft, RunError,
  configcheck_skipped, run_error, CheckError, build_config_failed, marshal_failed,
  config_check_failed, check_error, optimize_sources,
}

-- the selector of a workload matches the pipeline's labels; without a selector it always does
unfoldable pub selects : Pipeline → Workload → Bool
unfolding match_labels
selects p w = match_labels (elim w.selector [ none ↦ [] | some labels ↦ labels ]) p.labels

-- the workloads that a pipeline of this role is checked for
unfoldable pub checked_agents : Role → Pipeline → Workloads → List Workload
unfolding selects
checked_agents agent p ws = keep (selects p) ws.agents
checked_agents _ p ws = []

unfoldable pub checked_aggregators : Role → Pipeline → Workloads → List Workload
unfolding selects
checked_aggregators agent p ws = []
checked_aggregators _ p ws =
    if text_is_empty p.namespace
    then keep (selects p) ws.cluster_aggregators
    else keep (λ w. w.namespace == p.namespace && selects p w) ws.aggregators

-- what the goroutine makes of the two results of `Run`
unfoldable pub outcome_of_run : Workload → Text → Option RunError → Option CheckError
outcome_of_run w reason (some configcheck_skipped) = none
outcome_of_run w [] none = none
outcome_of_run w [] (some (run_error e)) = some (check_error e)
outcome_of_run w (c ∷ reason) _ = some (config_check_failed w (c ∷ reason))

module _ (r : Reconciler) where
  unfoldable pub run_check : Workload → Built → Option CheckError
  unfolding outcome_of_run
  run_check w built = outcome_of_run w (r.run w built).reason (r.run w built).error

  unfoldable pub check_built : Workload → Result BuildError Built → Option CheckError
  unfolding run_check
  check_built w (err e) = some (build_config_failed w e)
  check_built w (ok built) = run_check w built

  unfoldable pub check_json : Workload → Dict Text Text → Result Text Text → Option CheckError
  unfolding run_check
  check_json w assets (err e) = some (marshal_failed e)
  check_json w assets (ok json) = run_check w (record { bytes = json; secret_assets = assets })

  unfoldable pub check_draft : Workload → Result BuildError Draft → Option CheckError
  unfolding check_json
  check_draft w (err e) = some (build_config_failed w e)
  check_draft w (ok draft) = check_json w draft.assets draft.json

  -- the goroutine of a Vector
  unfoldable pub check_agent : Pipeline → Workload → Option CheckError
  unfolding check_built optimize_sources
  check_agent p w =
      check_built w (r.build_agent (optimize_sources r.enable_config_optimization w) w p)

  -- the goroutine of an aggregator of either kind
  unfoldable pub check_aggregator : Pipeline → Workload → Option CheckError
  unfolding check_draft
  check_aggregator p w = check_draft w (r.build_aggregator w p)

  unfoldable pub outcomes : Role → Pipeline → Workloads → List (Option CheckError)
  unfolding checked_agents checked_aggregators check_agent check_aggregator
  outcomes role p ws =
      map (check_agent p) (checked_agents role p ws)
      ++ map (check_aggregator p) (checked_aggregators role p ws)

-- `errors.As(err, &secretErr)` for a SecretResolveError, through the errors that wrap another
unfoldable pub resolve_inside : SecretError → Bool
resolve_inside (secret_resolve e) = true
resolve_inside (in_pipeline name e) = resolve_inside e
resolve_inside (secret_size_data e) = resolve_inside e
resolve_inside _ = false

unfoldable pub is_secret_resolve : CheckError → Bool
unfolding resolve_inside
is_secret_resolve (build_config_failed w (secret_error e)) = resolve_inside e
is_secret_resolve _ = false

-- `errors.Is(err, ErrBuildConfigFailed)`
unfoldable pub is_build_config_failed : CheckError → Bool
is_build_config_failed (build_config_failed w e) = true
is_build_config_failed _ = false
