-- ===== src/Controller/Pipeline/Poll.antt =====
-- `secretRotationPollInterval` and `armSecretRotationPoll` of internal/controller/pipeline_controller.go.
use vector_operator.Prelude.{
  ℕ, ◌+◌, ◌%◌, ◌≤◌, ◌<◌, ◌≡◌, Bool, true, false, ◌||◌, ◌⊎◌, Option, none, some, List, [], ◌∷◌, ◌++◌,
  ltb, nat_beq, if◌then◌else◌, arith,
}
use vector_operator.Prelude.Result.{Result, ok, err}
use vector_operator.Text.{Text}
use vector_operator.Api.{Backend, Pipeline}
use vector_operator.Dict.{Dict}
use vector_operator.Config.Secrets.Types.{SecretError}
use vector_operator.Config.Secrets.Process.Used.{used_secret_backends}
use vector_operator.Controller.Pipeline.{Reconciler}

abbrev pub secret_rotation_poll_base : ℕ
secret_rotation_poll_base = 240000

abbrev pub secret_rotation_poll_spread : ℕ
secret_rotation_poll_spread = 60000

module _ (r : Reconciler) where
  -- the sum of the namespace, a zero byte and the name
  unfoldable pub secret_rotation_poll_interval : Text → Text → ℕ
  secret_rotation_poll_interval namespace name =
      secret_rotation_poll_base + r.fnv32a (namespace ++ (0 ∷ name)) % secret_rotation_poll_spread

  unfoldable pub lower : ℕ → ℕ → ℕ
  lower poll requeue_after =
      if nat_beq requeue_after 0 || ltb poll requeue_after then poll else requeue_after

  -- whether a Secret of the pipeline can change
  unfoldable pub uses_secrets : Dict Text Backend → Result SecretError (List Text) → Bool
  uses_secrets [] used = false
  uses_secrets (d ∷ declared) (err e) = false
  uses_secrets (d ∷ declared) (ok []) = false
  uses_secrets (d ∷ declared) (ok (alias ∷ aliases)) = true

  unfoldable pub arm_pipeline : Pipeline → ℕ → ℕ
  unfolding uses_secrets lower secret_rotation_poll_interval
  arm_pipeline p requeue_after =
      if uses_secrets p.spec.secret (used_secret_backends r.lib p)
      then lower (secret_rotation_poll_interval p.namespace p.name) requeue_after
      else requeue_after

  -- on what `getPipeline` gives this time
  unfoldable pub armed : Result Text (Option Pipeline) → ℕ → ℕ
  unfolding arm_pipeline
  armed (err e) requeue_after = requeue_after
  armed (ok none) requeue_after = requeue_after
  armed (ok (some p)) requeue_after = arm_pipeline p requeue_after

  unfoldable pub arm_secret_rotation_poll : Result Text (Option Pipeline) → ℕ → ℕ
  unfolding armed
  arm_secret_rotation_poll read requeue_after =
      if r.poll_secret_rotation then armed read requeue_after else requeue_after

  secret_rotation_poll_interval_lem :
      (namespace name : Text)
      → (240000 ≤ secret_rotation_poll_interval namespace name)
        × (secret_rotation_poll_interval namespace name < 300000)
  unfolding secret_rotation_poll_interval
  secret_rotation_poll_interval_lem namespace name = (omega arith, omega arith)

  -- In scoped mode a pipeline that uses a Secret is always woken again, within five minutes and at
  -- most as late as the round asked; the poll alone does not wake it in less than four minutes.
  pub arm_secret_rotation_poll-Wakes :
      (p : Pipeline) (requeue_after : ℕ)
      → r.poll_secret_rotation ≡ true
      → uses_secrets p.spec.secret (used_secret_backends r.lib p) ≡ true
      → (0 < arm_secret_rotation_poll (ok (some p)) requeue_after)
        × (arm_secret_rotation_poll (ok (some p)) requeue_after < 300000)
        × ((requeue_after ≡ 0)
            ⊎ (arm_secret_rotation_poll (ok (some p)) requeue_after ≤ requeue_after))
        × ((arm_secret_rotation_poll (ok (some p)) requeue_after ≡ requeue_after)
            ⊎ (240000 ≤ arm_secret_rotation_poll (ok (some p)) requeue_after))
  unfolding arm_secret_rotation_poll armed arm_pipeline lower
  arm_secret_rotation_poll-Wakes p requeue_after on uses =
      let (low, high) = secret_rotation_poll_interval_lem p.namespace p.name in
      rw (on, uses) (ground arith, ground arith, ground arith, ground arith)
