-- ===== src/Controller/Secrets.antt =====
-- internal/controller/secrets.go: the pruning decision, the plan of the bridge over the variants of the
-- assets Secret, and the attribution of conflicts to pipelines. A reason is the prefix that names its
-- class and a text that the model leaves open.
pub mod Plan
pub mod Workload
pub mod Eligible
pub mod Related
pub mod Cached
use vector_operator.Prelude.{
  ℕ, ◌-◌, Bool, true, false, ◌||◌, not, Option, none, some, List, [], ◌∷◌, ◌++◌, ltb, codes, ◌==◌,
  if◌then◌else◌, keep,
}
use vector_operator.Prelude.Int.{ℤ, pos, ◌-ℤ◌, ltb_ℤ}
use vector_operator.Prelude.Result.{Result, ok, err, ◌>>=◌}
use vector_operator.Dict.{Dict, lookup, has, insert, keys}
use vector_operator.Text.{Text, text_eq, has_prefix}
use vector_operator.Api.{Pipeline, is_valid, set_related_secrets_hash}
use vector_operator.Pipeline.SecretIndex.{NamespacedName, name_eq}
use vector_operator.Sets.{contains}
use vector_operator.Pipeline.Status.{
  Hashing, Patch, is_pipeline_changed, set_success_status, set_failed_status,
}
use vector_operator.Config.Secrets.Types.{Library, Getter, Secret, SecretError, secret_size_data}
use vector_operator.Config.Secrets.Collisions.{SecretCollision, detect_secret_collisions}
use vector_operator.Config.Secrets.Size.{SecretSizeExclusion, detect_secret_size_overflow}
use vector_operator.Config.Secrets.Bridge.{Assets, bridge_assets}

abbrev pub secret_collision_reason_prefix : Text
secret_collision_reason_prefix = codes "secret flat key collision: "

abbrev pub secret_size_exclusion_reason_prefix : Text
secret_size_exclusion_reason_prefix = codes "secret assets size limit: "

abbrev pub secret_object_size_exclusion_reason_prefix : Text
secret_object_size_exclusion_reason_prefix = codes "secret assets object size limit: "

abbrev pub secret_assets_waiting_reason_prefix : Text
secret_assets_waiting_reason_prefix = codes "secret assets waiting for room: "

unfoldable pub is_secret_attribution_reason : Text → Bool
unfolding has_prefix
is_secret_attribution_reason reason =
    has_prefix reason secret_collision_reason_prefix
    || (has_prefix reason secret_size_exclusion_reason_prefix
        || (has_prefix reason secret_object_size_exclusion_reason_prefix
            || has_prefix reason secret_assets_waiting_reason_prefix))

-- seconds
abbrev pub secret_assets_prune_grace_period : ℕ
secret_assets_prune_grace_period = 90

-- The clock is read as `now`; the answer is whether to prune, and how long to wait otherwise.
unfoldable pub secret_assets_prune_decision : ℕ → Bool → Option ℕ → Bool × ℤ
secret_assets_prune_decision now false published_at = (false, pos 0)
secret_assets_prune_decision now true none = (false, pos secret_assets_prune_grace_period)
secret_assets_prune_decision now true (some at) =
    let elapsed = pos now -ℤ pos at in
    if ltb_ℤ elapsed (pos secret_assets_prune_grace_period)
    then (false, pos secret_assets_prune_grace_period -ℤ elapsed)
    else (true, pos 0)

-- a key that the published data has and the target has not
unfoldable pub assets_would_drop_a_key : Assets → Assets → Bool
assets_would_drop_a_key [] target = false
assets_would_drop_a_key ((k, v) ∷ existing) target =
    let rest = assets_would_drop_a_key existing target in if has k target then rest else true

-- `client.ObjectKeyFromObject`
abbrev pub object_key : Pipeline → NamespacedName
object_key p = record { namespace = p.namespace; name = p.name }

unfoldable pub keys_of : List Pipeline → List NamespacedName
keys_of [] = []
keys_of (p ∷ ps) = object_key p ∷ keys_of ps

unfoldable pub intersect_pipelines_by_key : List Pipeline → List Pipeline → List Pipeline
unfolding keys_of
intersect_pipelines_by_key pipelines include =
    keep (λ p. contains (object_key p) (keys_of include)) pipelines

-- the pipelines that a bridge returns as waiting are among those it was given
unfoldable pub waiting_keys_of : List (Option Pipeline) → List NamespacedName
waiting_keys_of [] = []
waiting_keys_of (none ∷ ps) = waiting_keys_of ps
waiting_keys_of (some p ∷ ps) = object_key p ∷ waiting_keys_of ps

-- `errors.As(err, &dataErr)` for `*config.SecretSizeDataError`
abbrev pub is_data_error : SecretError → Bool
is_data_error (secret_size_data e) = true
is_data_error _ = false

pub record BridgePlan : Type 0 where
  pub bridge_data_per_variant : List Assets
  pub bridge_pipelines : List Pipeline
  pub waiting_pipelines : List Pipeline

module _ (lib : Library) (getter : Getter) (prototype : Option Secret) where
  -- the first pass
  unfoldable pub pass_1 : List Pipeline → List Assets → Result SecretError (List NamespacedName)
  unfolding bridge_assets waiting_keys_of
  pass_1 ps [] = ok []
  pass_1 ps (existing ∷ variants) = bridge_assets lib getter prototype existing ps >>= λ r.
      pass_1 ps variants >>= λ ks. ok (waiting_keys_of r.1 ++ ks)

  -- the second pass, which drops what would wait
  unfoldable pub pass_2 : List Pipeline → List Assets → Result SecretError (List Assets)
  unfolding bridge_assets
  pass_2 ps [] = ok []
  pass_2 ps (existing ∷ variants) = bridge_assets lib getter prototype existing ps >>= λ r.
      pass_2 ps variants >>= λ ds. ok (r.0 ∷ ds)

  unfoldable pub split_waiting :
      List NamespacedName → List Pipeline → List Assets → Result SecretError BridgePlan
  unfolding pass_2
  split_waiting waiting ps variants =
      let staying = keep (λ p. not (contains (object_key p) waiting)) ps in
      pass_2 staying variants >>= λ ds. ok (record {
        bridge_data_per_variant = ds;
        bridge_pipelines = staying;
        waiting_pipelines = keep (λ p. contains (object_key p) waiting) ps;
      })

  unfoldable pub plan_secret_assets_bridge :
      List Pipeline → List Assets → Result SecretError BridgePlan
  unfolding pass_1 split_waiting
  plan_secret_assets_bridge ps [] =
      ok (record { bridge_data_per_variant = []; bridge_pipelines = ps; waiting_pipelines = [] })
  plan_secret_assets_bridge ps (v ∷ vs) = elim (pass_1 ps (v ∷ vs)) [
    | err e ↦
        if is_data_error e
        then ok (record {
          bridge_data_per_variant = v ∷ vs;
          bridge_pipelines = ps;
          waiting_pipelines = [];
        })
        else err e
    | ok waiting ↦ split_waiting waiting ps (v ∷ vs)
  ]
