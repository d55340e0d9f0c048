-- ===== src/Tests/Rounds.antt =====
-- Rounds of the pipeline reconciler at concrete pipelines and workloads.
use vector_operator.Prelude.{
  ℕ, ◌≤◌, ◌<◌, ◌≡◌, refl, ◌↔◌, ◌⊎◌, true, false, Option, none, some, List, [], ◌∷◌, In, All, inl,
  inr, codes,
}
use vector_operator.Prelude.Int.{pos}
use vector_operator.Prelude.Result.{ok, err}
use vector_operator.Dict.{Dict}
use vector_operator.Text.{Text}
use vector_operator.Api.{Pipeline, agent, is_valid}
use vector_operator.Config.Types.{PipelineConfig, end}
use vector_operator.Pipeline.SecretIndex.{NamespacedName, new_secret_index}
use vector_operator.Pipeline.SecretIndex.Laws.{new_secret_index-IsConsistent}
use vector_operator.Controller.Secrets.{object_key}
use vector_operator.Controller.Secrets.Related.{Reader, Related, unsupported_context, ref_of}
use vector_operator.Controller.Secrets.Related.Refs.{Used}
use vector_operator.Controller.Pipeline.{
  Reconciler, Workload, Workloads, CheckError, IsWaiting, Messages, idle, all_events, not_found,
  secret_error,
}
use vector_operator.Controller.Pipeline.Poll.{
  arm_secret_rotation_poll, arm_secret_rotation_poll-Wakes,
}
use vector_operator.Controller.Pipeline.Checks.{outcomes}
use vector_operator.Controller.Pipeline.Reconcile.{checked, decide, reconcile_body}
use vector_operator.Controller.Pipeline.Retry.{unresolved, SecretFailure-Retried}
use vector_operator.Controller.Pipeline.Quiet.{candidate, checked-Rests, checked-Verdict}
use vector_operator.Controller.Pipeline.Index.{
  requeues, reconcile_body-Indexed, reconcile_body-Deleted,
}
use vector_operator.Tests.Data.{lib, first, options}

first_error : List (Option CheckError) → Option CheckError
first_error [] = none
first_error (some e ∷ outcomes) = some e
first_error (none ∷ outcomes) = first_error outcomes

first_error-of_one :
    (outcomes : List (Option CheckError)) (e : CheckError)
    → first_error outcomes ≡ some e
    → In (some e) outcomes
unfolding first_error
first_error-of_one [] e h = cc
first_error-of_one (some x ∷ outcomes) e h = inl (cc h)
first_error-of_one (none ∷ outcomes) e h = inr (first_error-of_one outcomes e h)

first_error-of_none :
    (outcomes : List (Option CheckError))
    → first_error outcomes ≡ none
    → All (λ o. o ≡ none) outcomes
unfolding first_error
first_error-of_none [] h = tt
first_error-of_none (some x ∷ outcomes) h = cc
first_error-of_none (none ∷ outcomes) h = (refl, first_error-of_none outcomes h)

first_error-IsWaiting : IsWaiting first_error
first_error-IsWaiting = record { of_one = first_error-of_one; of_none = first_error-of_none }

-- a source of an agent, and the sink that reads a Secret
abbrev agent_config : PipelineConfig
agent_config = record {
  sources =
      (
        codes "in",
        record {
          name = [];
          type = codes "kubernetes_logs";
          extra_namespace_label_selector = [];
          extra_label_selector = [];
          extra_field_selector = [];
          use_api_server_cache = false;
          options = end;
        },
      )
      ∷ [];
  transforms = [];
  sinks =
      (codes "out", record { name = []; type = codes "http"; inputs = []; options = options }) ∷ [];
}

abbrev reader : Reader
reader ref = ok (record {
  namespace = ref.namespace;
  name = ref.name;
  uid = codes "u1";
  resource_version = codes "7";
})

abbrev node : Workload
node = record {
  namespace = codes "vector";
  name = codes "node";
  deletion_timestamp = none;
  annotations = [];
  selector = none;
}

abbrev workloads : Workloads
workloads = record { agents = node ∷ []; aggregators = []; cluster_aggregators = [] }

abbrev messages : Messages
messages = record {
  related = λ e. codes "related";
  unmarshal = λ e. e;
  role = λ e. codes "role";
  check = λ e. codes "check";
}

abbrev reconciler : Option Reader → Reconciler
reconciler get = record {
  enable_reconciliation_invalid_pipelines = true;
  retry_delay = 15000;
  enable_config_optimization = true;
  poll_secret_rotation = true;
  lib = record lib { unmarshal_json = λ s. ok agent_config };
  hashing = record { marshal = λ t. ok t.service_name; crc32 = λ s. 5 };
  sha256 = λ s. s;
  fnv32a = λ s. 4000000000;
  api_reader = get;
  messages = messages;
  get_vector_pipeline = λ key. ok first;
  get_cluster_vector_pipeline = λ key. err not_found;
  vectors = ok (node ∷ []);
  vector_aggregators = ok [];
  cluster_vector_aggregators = ok [];
  patch = record { error = λ p base. none; reason_there = λ base. none };
  build_agent = λ optimize w p. ok (record { bytes = []; secret_assets = [] });
  build_aggregator = λ w p. ok (record { json = ok []; assets = [] });
  run = λ w built. record { reason = []; error = none };
  wait = first_error;
}

abbrev tester : Reconciler
tester = reconciler (some reader)

abbrev key : NamespacedName
key = object_key first

arm_secret_rotation_poll-Wakes_example :
    (0 < arm_secret_rotation_poll tester (ok (some first)) 0)
    × (arm_secret_rotation_poll tester (ok (some first)) 0 < 300000)
    × ((Path ℕ 0 0) ⊎ (arm_secret_rotation_poll tester (ok (some first)) 0 ≤ 0))
    × ((arm_secret_rotation_poll tester (ok (some first)) 0 ≡ 0)
        ⊎ (240000 ≤ arm_secret_rotation_poll tester (ok (some first)) 0))
unfolding vector_operator.Controller.Pipeline.Poll.uses_secrets
    vector_operator.Config.Secrets.Process.Used.used_secret_backends vector_operator.Dict.has
    vector_operator.Sets.add
arm_secret_rotation_poll-Wakes_example = arm_secret_rotation_poll-Wakes tester first 0 refl refl

-- the pipeline as its status is written by a failure over its Secrets, and by a success
abbrev failed : Pipeline
failed = record first {
  status = record first.status {
    config_check_result = some false;
    reason = some (codes "related");
    last_applied_pipeline_hash = some (pos 5);
  };
}

abbrev succeeded : Pipeline
succeeded = record first {
  status = record first.status {
    role = some agent;
    config_check_result = some true;
    last_applied_pipeline_hash = some (pos 5);
  };
}

abbrev unsupported : Related
unsupported = record { refs = []; token = none; error = some (unsupported_context (codes "b-c")) }

SecretFailure-Retried_example :
    decide tester failed (some (pos 3)) workloads ≡ checked tester failed (some (pos 3)) workloads
unfolding vector_operator.Controller.Pipeline.Reconcile.after_resolve
SecretFailure-Retried_example =
    SecretFailure-Retried (reconciler none) tester failed (pos 3) workloads refl
      (unresolved first none unsupported (unsupported_context (codes "b-c")) refl refl)

checked-Rests_example : decide tester succeeded none workloads ≡ idle
unfolding checked vector_operator.Config.Roles.is_agent vector_operator.Sets.contains
    vector_operator.Config.Roles.agent_types first_error is_valid
checked-Rests_example =
    checked-Rests tester first workloads succeeded tester none workloads refl refl refl

checked-Verdict_example :
    (All
        (λ o. o ≡ none)
        (outcomes tester agent (candidate tester first workloads succeeded none agent) workloads)
      × (is_valid succeeded ≡ true)
      × ((checked tester first none workloads).events ≡ all_events workloads))
    ⊎ ((e : CheckError) × In
          (some e)
          (outcomes tester agent (candidate tester first workloads succeeded none agent) workloads)
        × ((is_valid succeeded ≡ false)
            × (succeeded.status.reason ≡ some (codes "check"))
            × ((checked tester first none workloads).events ≡ [])))
unfolding vector_operator.Config.Roles.vector_role vector_operator.Config.Roles.is_agent
    vector_operator.Sets.contains vector_operator.Config.Roles.agent_types checked first_error
checked-Verdict_example =
    checked-Verdict tester first workloads succeeded none agent_config agent first_error-IsWaiting
      refl refl refl

reconcile_body-Indexed_example :
    (requeues (reconcile_body tester key (some new_secret_index)).1 (ref_of first (codes "db")) key
      ≡ true)
    ↔ ((alias : Text) × Used first (codes "db" ∷ []) alias
        × (ref_of first (codes "db") ≡ ref_of first alias))
unfolding vector_operator.Controller.Pipeline.get_pipeline
    vector_operator.Config.Secrets.Process.Used.used_secret_backends vector_operator.Dict.has
    vector_operator.Sets.add vector_operator.Controller.Secrets.Related.check_shapes
    vector_operator.Controller.Secrets.Related.declared_aliases vector_operator.Dict.lookup
reconcile_body-Indexed_example =
    reconcile_body-Indexed tester key first (codes "db" ∷ []) reader new_secret_index
      (ref_of first (codes "db")) refl refl refl refl new_secret_index-IsConsistent

abbrev gone : NamespacedName
gone = record { namespace = []; name = codes "gone" }

reconcile_body-Deleted_example :
    (requeues
        (reconcile_body tester gone (some new_secret_index)).1
        (ref_of first (codes "db"))
        gone
      ≡ false)
    × ((reconcile_body tester gone (some new_secret_index)).0.events ≡ all_events workloads)
unfolding vector_operator.Controller.Pipeline.get_pipeline
    vector_operator.Controller.Pipeline.list_workloads
reconcile_body-Deleted_example =
    reconcile_body-Deleted tester gone new_secret_index workloads (ref_of first (codes "db")) refl
      refl new_secret_index-IsConsistent
