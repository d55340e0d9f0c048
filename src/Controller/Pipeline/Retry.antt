-- ===== src/Controller/Pipeline/Retry.antt =====
-- A pipeline that failed over its Secrets is looked at again when they resolve, and a pipeline that
-- succeeded is left alone.
use vector_operator.Prelude.{
  ℕ, ◌≡◌, refl, sym, ap, subst, inl, inr, true, false, not, ◌||◌, Option, none, some, [],
  Bool-cases, if◌then◌else◌,
}
use vector_operator.Prelude.Int.{ℤ}
use vector_operator.Prelude.Result.{Result, ok, err}
use vector_operator.Text.{Text}
use vector_operator.Api.{
  Pipeline, is_valid, set_config_check, set_reason, set_last_applied_pipeline,
  set_related_secrets_hash,
}
use vector_operator.Pipeline.SecretIndex.{SecretIndex}
use vector_operator.Pipeline.Status.{
  Hashing, Patch, is_pipeline_changed, set_failed_status-stored, set_success_status-stored,
  set_success_status, set_failed_status, Written, set_failed_status-Written,
}
use vector_operator.Controller.Secrets.Related.{Related, RelatedError, related_secrets_hash_equal}
use vector_operator.Controller.Pipeline.{Reconciler, Workloads, CheckError, idle, all_events}
use vector_operator.Controller.Pipeline.Checks.{is_secret_resolve}
use vector_operator.Controller.Pipeline.Reconcile.{
  failed_round, success_round, fail, after_wait, checked, unless_unchanged, decide, after_resolve,
}

module _ (h : Hashing) (patch : Patch) where
  -- a status write keeps the hash of the related Secrets
  pub related-set_failed_status :
      (p : Pipeline) (reason : Text) (base q : Pipeline)
      → set_failed_status h patch p reason base ≡ ok q
      → q.status.related_secrets_hash ≡ p.status.related_secrets_hash
  unfolding set_config_check set_reason set_last_applied_pipeline
  related-set_failed_status p reason base q e =
      let (hash, i, same) = set_failed_status-stored h patch p reason base q e in
      ap (λ (x : Pipeline). x.status.related_secrets_hash) (sym same)

  pub related-set_success_status :
      (p base q : Pipeline)
      → set_success_status h patch p base ≡ ok q
      → q.status.related_secrets_hash ≡ p.status.related_secrets_hash
  unfolding set_config_check set_reason set_last_applied_pipeline
  related-set_success_status p base q e =
      let (hash, i, same) = set_success_status-stored h patch p base q e in
      ap (λ (x : Pipeline). x.status.related_secrets_hash) (sym same)

failed_round-written :
    (requeue : ℕ) (w : Result Text Pipeline) (q : Pipeline)
    → (failed_round requeue w).written ≡ some q
    → w ≡ ok q
unfolding failed_round
failed_round-written requeue (ok p) q e = cc
failed_round-written requeue (err x) q e = cc

pub success_round-written :
    (ws : Workloads) (w : Result Text Pipeline) (q : Pipeline)
    → (success_round ws w).written ≡ some q
    → (w ≡ ok q) × ((success_round ws w).events ≡ all_events ws)
unfolding success_round
success_round-written ws (ok p) q e = (cc, refl)
success_round-written ws (err x) q e = cc

pub failed_round-events :
    (requeue : ℕ) (w : Result Text Pipeline) → (failed_round requeue w).events ≡ []
unfolding failed_round
failed_round-events requeue (ok p) = refl
failed_round-events requeue (err x) = refl

module _ (r : Reconciler) (q : Pipeline) (token : Option ℤ) (ws : Workloads) where
  -- with a hash that is up to date, the tokens decide
  pub decide-differs :
      is_pipeline_changed r.hashing q ≡ ok true
      → related_secrets_hash_equal q.status.related_secrets_hash token ≡ false
      → decide r q token ws ≡ checked r q token ws
  unfolding decide unless_unchanged
  decide-differs h d =
      elim (Bool-cases (not r.enable_reconciliation_invalid_pipelines || is_valid q)) [
        | inl y ↦
            subst
              (λ b.
                (if b
                  then unless_unchanged r q token ws (is_pipeline_changed r.hashing q)
                  else checked r q token ws)
                ≡ checked r q token ws)
              (sym y)
              (subst (λ u. unless_unchanged r q token ws u ≡ checked r q token ws) (sym h)
                (rw d refl))
        | inr n ↦
            subst
              (λ b.
                (if b
                  then unless_unchanged r q token ws (is_pipeline_changed r.hashing q)
                  else checked r q token ws)
                ≡ checked r q token ws)
              (sym n) refl
      ]

  pub decide-same :
      is_pipeline_changed r.hashing q ≡ ok true
      → related_secrets_hash_equal q.status.related_secrets_hash token ≡ true
      → (not r.enable_reconciliation_invalid_pipelines || is_valid q) ≡ true
      → decide r q token ws ≡ idle
  unfolding decide unless_unchanged
  decide-same h d y =
      subst
        (λ b.
          (if b
            then unless_unchanged r q token ws (is_pipeline_changed r.hashing q)
            else checked r q token ws)
          ≡ idle)
        (sym y) (subst (λ u. unless_unchanged r q token ws u ≡ idle) (sym h) (rw d refl))

module _ (r : Reconciler) where
  -- what a failing round writes
  abbrev pub Failed : Pipeline → Text → Pipeline → Type 0
  Failed p reason q =
      (q.status.related_secrets_hash ≡ p.status.related_secrets_hash)
      × Written r.hashing r.patch false (some reason) p q

  pub fail-Failed :
      (requeue : ℕ) (p : Pipeline) (reason : Text) (base q : Pipeline)
      → (fail r requeue p reason base).written ≡ some q
      → Failed p reason q
  unfolding fail
  fail-Failed requeue p reason base q e =
      let w =
        failed_round-written requeue (set_failed_status r.hashing r.patch p reason base) q e in
      (
        related-set_failed_status r.hashing r.patch p reason base q w,
        set_failed_status-Written r.hashing r.patch p reason base q w,
      )

  -- a failure over Secrets: those of the pipeline do not resolve, or a build cannot read one
  pub data SecretFailure : Pipeline → Type 0 where
    unresolved :
        (p : Pipeline) (index : Option SecretIndex) (related : Related) (e : RelatedError)
        {q : Pipeline}
        → related.error ≡ some e
        → (after_resolve r p index related).0.written ≡ some q
        → SecretFailure q
    unreadable :
        (base p : Pipeline) (ws : Workloads) (e : CheckError) {q : Pipeline}
        → is_secret_resolve e ≡ true
        → (after_wait r base p ws (some e)).written ≡ some q
        → SecretFailure q

  SecretFailure-forgets :
      (q : Pipeline)
      → SecretFailure q
      → (q.status.related_secrets_hash ≡ none) × (is_pipeline_changed r.hashing q ≡ ok true)
  unfolding after_resolve after_wait set_related_secrets_hash
  SecretFailure-forgets q (unresolved p index related e f w) =
      let w' = rw f at w in
      let (a, (b, c, d, g)) =
        fail-Failed _ (set_related_secrets_hash none p) (r.messages.related e) p q w' in
      (a, g)
  SecretFailure-forgets q (unreadable base p ws e f w) =
      let w' = rw f at w in
      let (a, (b, c, d, g)) =
        fail-Failed _ (set_related_secrets_hash none p) (r.messages.check e) base q w' in
      (a, g)

  -- After a failure over its Secrets a pipeline is not skipped in a later round in which they
  -- resolve to a token, whatever the workloads are then: it is built and checked again.
  pub SecretFailure-Retried :
      (later : Reconciler) (q : Pipeline) (t : ℤ) (ws : Workloads)
      → later.hashing ≡ r.hashing
      → SecretFailure q
      → decide later q (some t) ws ≡ checked later q (some t) ws
  unfolding decide unless_unchanged related_secrets_hash_equal
  SecretFailure-Retried later q t ws same failure =
      let (forgot, unchanged) = SecretFailure-forgets q failure in
      let unchanged' : is_pipeline_changed later.hashing q ≡ ok true =
        subst (λ h. is_pipeline_changed h q ≡ ok true) (sym same) unchanged in
      decide-differs later q (some t) ws unchanged' (rw forgot refl)
