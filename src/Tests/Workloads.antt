-- ===== src/Tests/Workloads.antt =====
-- Listing, status writes and attribution at concrete pipelines.
use vector_operator.Prelude.{
  ◌≡◌, ◌↔◌, refl, Bool, true, false, Option, none, some, [], ◌∷◌, In, inl, codes,
}
use vector_operator.Prelude.Int.{pos}
use vector_operator.Prelude.Result.{ok}
use vector_operator.Dict.{lookup, has, insert}
use vector_operator.Sets.{contains}
use vector_operator.Config.Optimize.{rewrite_inputs, contains-rewrite_inputs}
use vector_operator.Text.{Text, text_eq}
use vector_operator.Api.{Pipeline, aggregator, unknown}
use vector_operator.Config.Types.{Source, PipelineConfig, end}
use vector_operator.Config.Roles.{vector_role, vector_role_lem, is_agent, is_aggregator}
use vector_operator.Pipeline.Labels.{merge_labels, lookup-merge_labels}
use vector_operator.Pipeline.Listing.{FilterPipelines, all_pipelines, list_pipelines}
use vector_operator.Pipeline.Listing.Exact.{Selected, In-list_pipelines}
use vector_operator.Pipeline.Status.{
  Hashing, Patch, set_failed_status, set_success_status, Written, set_failed_status-Written,
  set_success_status-Written,
}
use vector_operator.Controller.Secrets.{assets_would_drop_a_key}
use vector_operator.Controller.Secrets.Plan.{assets_would_drop_a_key_lem}
use vector_operator.Controller.Secrets.Workload.{Wording, Resolved, resolve_workload_pipelines}
use vector_operator.Controller.Secrets.Eligible.{Eligible, resolve_workload_pipelines-Eligible}
use vector_operator.Tests.Data.{lib, getter, first, second}

abbrev hashing : Hashing
hashing = record { marshal = λ t. ok t.service_name; crc32 = λ s. 5 }

abbrev patch : Patch
patch = record { error = λ p base. none; reason_there = λ base. some (codes "earlier") }

abbrev status_of : Bool → Option Text → Pipeline
status_of verdict reason = record first {
  status = record first.status {
    config_check_result = some verdict;
    reason = reason;
    last_applied_pipeline_hash = some (pos 5);
  };
}

set_failed_status-Written_example :
    Written hashing patch false (some (codes "bad")) first (status_of false (some (codes "bad")))
unfolding set_failed_status
set_failed_status-Written_example =
    set_failed_status-Written hashing patch first (codes "bad") first
      (status_of false (some (codes "bad"))) refl

set_success_status-Written_example : Written hashing patch true none first (status_of true none)
unfolding set_success_status
set_success_status-Written_example =
    set_success_status-Written hashing patch first first (status_of true none) refl

abbrev everything : FilterPipelines
everything = record { scope = all_pipelines; selector = none; role = unknown; namespace = [] }

In-list_pipelines_example :
    In first (first ∷ second ∷ []) ↔ Selected everything true (first ∷ second ∷ []) [] first
unfolding list_pipelines
In-list_pipelines_example =
    In-list_pipelines everything true (first ∷ second ∷ []) [] (first ∷ second ∷ []) first refl

lookup-merge_labels_example :
    lookup
      (codes "app")
      (merge_labels ((codes "app", codes "x") ∷ []) ((codes "app", codes "y") ∷ []))
    ≡ some (codes "x")
unfolding has lookup
lookup-merge_labels_example =
    lookup-merge_labels (codes "app") ((codes "app", codes "x") ∷ [])
      ((codes "app", codes "y") ∷ [])

assets_would_drop_a_key_lem_example :
    has (codes "a") ((codes "b", []) ∷ (codes "a", codes "2") ∷ []) ≡ true
unfolding assets_would_drop_a_key has
assets_would_drop_a_key_lem_example =
    assets_would_drop_a_key_lem (codes "a") ((codes "a", codes "1") ∷ [])
      ((codes "b", []) ∷ (codes "a", codes "2") ∷ []) refl refl

abbrev wording : Wording
wording = record { collision = λ c. c.flat_key; size = λ e. []; waiting = [] }

-- the younger pipeline with the collision in its status
abbrev failed : Pipeline
failed = record second {
  status = record second.status {
    config_check_result = some false;
    reason = some (codes "secret flat key collision: a_b_c_db_pass");
    last_applied_pipeline_hash = some (pos 5);
  };
}

abbrev resolved : Resolved
resolved = record { pipelines = first ∷ []; reinstate = []; written = failed ∷ [] }

resolve_workload_pipelines-Eligible_example : Eligible hashing (first ∷ second ∷ []) first
unfolding resolve_workload_pipelines
    vector_operator.Config.Secrets.Collisions.detect_secret_collisions
    vector_operator.Config.Secrets.Gather.gather_pending_secrets_by_pipeline
    vector_operator.Config.Secrets.Process.process_pipeline_secrets
    vector_operator.Config.Secrets.Process.components has
    vector_operator.Config.Secrets.Size.detect_secret_size_overflow lookup insert
    vector_operator.Sets.contains vector_operator.Config.Secrets.Resolve.value_of
    vector_operator.Config.Secrets.Safety.secret_value_safe_for_json_text
    vector_operator.Config.Secrets.Safety.utf8_valid
    vector_operator.Config.Secrets.Safety.no_json_special
resolve_workload_pipelines-Eligible_example =
    resolve_workload_pipelines-Eligible hashing patch lib getter none wording (first ∷ second ∷ [])
      resolved first refl (inl refl)

abbrev source : Text → Source
source type = record {
  name = [];
  type = type;
  extra_namespace_label_selector = [];
  extra_label_selector = [];
  extra_field_selector = [];
  use_api_server_cache = false;
  options = end;
}

-- one source that only an agent runs, and one that only an aggregator runs
abbrev mixed : PipelineConfig
mixed = record {
  sources = (codes "a", source (codes "file")) ∷ (codes "b", source (codes "kafka")) ∷ [];
  transforms = [];
  sinks = [];
}

vector_role_lem_example : vector_role mixed ≡ ok aggregator
unfolding is_agent is_aggregator vector_operator.Sets.contains
    vector_operator.Config.Roles.agent_types vector_operator.Config.Roles.aggregator_types
vector_role_lem_example = vector_role_lem mixed refl refl

contains-rewrite_inputs_example :
    contains (codes "r.a") (
      rewrite_inputs
        (codes "s1" ∷ codes "s2" ∷ [])
        ((codes "s1", codes "r.a") ∷ (codes "s2", codes "r.a") ∷ []))
    ≡ true
unfolding contains lookup vector_operator.Config.Optimize.redirect
contains-rewrite_inputs_example =
    contains-rewrite_inputs (codes "r.a") (codes "s1" ∷ codes "s2" ∷ [])
      ((codes "s1", codes "r.a") ∷ (codes "s2", codes "r.a") ∷ [])
