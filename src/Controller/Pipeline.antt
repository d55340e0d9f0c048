-- ===== src/Controller/Pipeline.antt =====
-- internal/controller/pipeline_controller.go: what a round of the pipeline reconciler reads and does.
-- Reconcile has the round itself. The texts of reasons, the builds of a configuration, the run of
-- its check and the client are parameters; times are milliseconds.
pub mod Poll
pub mod Checks
pub mod Reconcile
pub mod Retry
pub mod Quiet
pub mod Index
use vector_operator.Prelude.{
  ℕ, Bool, true, false, ◌&&◌, not, Option, none, some, List, [], ◌∷◌, ◌++◌, map, keep, codes, ◌==◌,
  ◌≡◌, In, All,
}
use vector_operator.Prelude.Result.{Result, ok, err, ◌>>=◌}
use vector_operator.Dict.{Dict}
use vector_operator.Text.{Text, text_eq}
use vector_operator.Api.{Pipeline}
use vector_operator.Pipeline.Labels.{label_at}
use vector_operator.Pipeline.SecretIndex.{NamespacedName}
use vector_operator.Pipeline.Status.{Hashing, Patch, annotation_config_optimization}
use vector_operator.Config.Roles.{RoleError}
use vector_operator.Config.Secrets.Types.{Library, SecretError}
use vector_operator.Controller.Secrets.Related.{Reader, RelatedError}

-- a Vector, a VectorAggregator or a ClusterVectorAggregator, as far as this reconciler reads it
pub record Workload : Type 0 where
  pub namespace : Text
  pub name : Text
  pub deletion_timestamp : Option ℕ
  pub annotations : Dict Text Text
  pub selector : Option (Dict Text Text)

pub record Workloads : Type 0 where
  pub agents : List Workload
  pub aggregators : List Workload
  pub cluster_aggregators : List Workload

-- the error of a `Get`
pub data GetError : Type 0 where
  not_found : GetError
  get_error : Text → GetError

-- the error of a build: one of internal/config/secrets.go, or another
pub data BuildError : Type 0 where
  secret_error : SecretError → BuildError
  other_error : Text → BuildError

-- a configuration that was built for a check
pub record Built : Type 0 where
  pub bytes : Text
  pub secret_assets : Dict Text Text

-- an aggregator's configuration: what `MarshalJSON` gives on it, and its assets
pub record Draft : Type 0 where
  pub json : Result Text Text
  pub assets : Dict Text Text

pub data RunError : Type 0 where
  configcheck_skipped : RunError
  run_error : Text → RunError

-- what `ConfigCheck.Run` returns
pub record Checked : Type 0 where
  pub reason : Text
  pub error : Option RunError

-- the error of one goroutine of the group
pub data CheckError : Type 0 where
  build_config_failed : Workload → BuildError → CheckError
  marshal_failed : Text → CheckError
  config_check_failed : Workload → Text → CheckError
  check_error : Text → CheckError

-- `Error()` of each error that becomes a reason
pub record Messages : Type 0 where
  pub related : RelatedError → Text
  pub unmarshal : Text → Text
  pub role : RoleError → Text
  pub check : CheckError → Text

pub record Reconciler : Type 0 where
  pub enable_reconciliation_invalid_pipelines : Bool
  pub retry_delay : ℕ
  pub enable_config_optimization : Bool
  pub poll_secret_rotation : Bool
  pub lib : Library
  pub hashing : Hashing
  pub sha256 : Text → Text
  pub fnv32a : Text → ℕ
  pub api_reader : Option Reader
  pub messages : Messages
  -- the client, for each kind
  pub get_vector_pipeline : NamespacedName → Result GetError Pipeline
  pub get_cluster_vector_pipeline : NamespacedName → Result GetError Pipeline
  pub vectors : Result Text (List Workload)
  pub vector_aggregators : Result Text (List Workload)
  pub cluster_vector_aggregators : Result Text (List Workload)
  pub patch : Patch
  -- the builds and the check
  pub build_agent : Bool → Workload → Pipeline → Result BuildError Built
  pub build_aggregator : Workload → Pipeline → Result BuildError Draft
  pub run : Workload → Built → Checked
  -- `errgroup.Group.Wait`: the error that is first in time, of what the goroutines return
  pub wait : List (Option CheckError) → Option CheckError

-- what the group promises: an error of one of them, and none only if each of them has none
pub record IsWaiting (wait : List (Option CheckError) → Option CheckError) : Type 0 where
  pub of_one :
      (outcomes : List (Option CheckError)) (e : CheckError)
      → wait outcomes ≡ some e
      → In (some e) outcomes
  pub of_none :
      (outcomes : List (Option CheckError)) → wait outcomes ≡ none → All (λ o. o ≡ none) outcomes

pub data Event : Type 0 where
  agent_event : Workload → Event
  aggregator_event : Workload → Event
  cluster_aggregator_event : Workload → Event

-- What a round leaves behind: the pipeline as its status was written, the events sent, and the
-- requeue, where 0 is none. An error stands without the text that is put in front of it.
pub record Round : Type 0 where
  pub written : Option Pipeline
  pub events : List Event
  pub result : Result Text ℕ

abbrev pub idle : Round
idle = record { written = none; events = []; result = ok 0 }

abbrev pub stopped : Text → Round
stopped e = record { written = none; events = []; result = err e }

unfoldable pub all_events : Workloads → List Event
all_events ws =
    map agent_event ws.agents
    ++ (map aggregator_event ws.aggregators ++ map cluster_aggregator_event ws.cluster_aggregators)

abbrev is_deleted_workload : Workload → Bool
is_deleted_workload w = elim w.deletion_timestamp [ none ↦ false | some _ ↦ true ]

-- `listVectorAgents`, which leaves out what is being deleted
unfoldable pub list_vector_agents : Reconciler → Result Text (List Workload)
list_vector_agents r = r.vectors >>= λ ws. ok (keep (λ w. not (is_deleted_workload w)) ws)

unfoldable pub list_workloads : Reconciler → Result Text Workloads
unfolding list_vector_agents
list_workloads r = list_vector_agents r >>= λ a. r.vector_aggregators >>= λ b.
    r.cluster_vector_aggregators >>= λ c.
    ok (record { agents = a; aggregators = b; cluster_aggregators = c })

unfoldable pub ignore_not_found : Result GetError Pipeline → Result Text (Option Pipeline)
ignore_not_found (ok p) = ok (some p)
ignore_not_found (err not_found) = ok none
ignore_not_found (err (get_error e)) = err e

unfoldable pub get_pipeline : Reconciler → NamespacedName → Result Text (Option Pipeline)
unfolding ignore_not_found
get_pipeline r req = elim req.namespace [
  | [] ↦ ignore_not_found (r.get_cluster_vector_pipeline req)
  | _ ∷ _ ↦ ignore_not_found (r.get_vector_pipeline req)
]

abbrev annotation_value_disabled : Text
annotation_value_disabled = codes "disabled"

unfoldable pub optimize_sources : Bool → Workload → Bool
unfolding label_at
optimize_sources enabled w =
    enabled
    && not (label_at annotation_config_optimization w.annotations == annotation_value_disabled)
