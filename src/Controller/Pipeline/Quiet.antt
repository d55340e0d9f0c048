-- ===== src/Controller/Pipeline/Quiet.antt =====
-- What a round that is not skipped finds out, and that its success is the end of it.
use vector_operator.Prelude.{
  ℕ, ◌≡◌, refl, sym, subst, ◌⊎◌, inl, inr, true, false, Option, none, some, List, [], In, All,
  arith, if◌then◌else◌,
}
use vector_operator.Prelude.Int.{ℤ}
use vector_operator.Prelude.Result.{Result, ok, err}
use vector_operator.Text.{Text}
use vector_operator.Api.{Role, Pipeline, is_valid, set_related_secrets_hash, set_role}
use vector_operator.Pipeline.Status.{
  is_pipeline_changed, set_success_status, set_failed_status, set_success_status-Written,
}
use vector_operator.Pipeline.Merge.{int_beq_refl}
use vector_operator.Config.Types.{PipelineConfig}
use vector_operator.Config.Roles.{RoleError, vector_role}
use vector_operator.Controller.Secrets.Related.{related_secrets_hash_equal}
use vector_operator.Controller.Pipeline.{
  Reconciler, Workloads, CheckError, Round, IsWaiting, idle, all_events,
}
use vector_operator.Controller.Pipeline.Checks.{outcomes, is_secret_resolve}
use vector_operator.Controller.Pipeline.Reconcile.{
  fail, requeue_after_check, after_wait, after_role, after_unmarshal, checked, decide,
}
use vector_operator.Controller.Pipeline.Retry.{
  related-set_success_status, success_round-written, failed_round-events, fail-Failed, decide-same,
}

related_secrets_hash_equal_refl : (t : Option ℤ) → related_secrets_hash_equal t t ≡ true
unfolding related_secrets_hash_equal
related_secrets_hash_equal_refl none = refl
related_secrets_hash_equal_refl (some n) = int_beq_refl n

module _ (r : Reconciler) (base : Pipeline) (ws : Workloads) (q : Pipeline) where
  -- a success as it is written
  abbrev Succeeded : Pipeline → Round → Type 0
  Succeeded p round =
      (is_valid q ≡ true)
      × (round.events ≡ all_events ws)
      × (q.status.related_secrets_hash ≡ p.status.related_secrets_hash)
      × (is_pipeline_changed r.hashing q ≡ ok true)

  -- a failure as it is written, for a reason
  abbrev FailedFor : Text → Round → Type 0
  FailedFor reason round =
      (is_valid q ≡ false) × (q.status.reason ≡ some reason) × (round.events ≡ [])

  after_wait-Succeeded :
      (p : Pipeline)
      → (after_wait r base p ws none).written ≡ some q
      → Succeeded p (after_wait r base p ws none)
  unfolding after_wait
  after_wait-Succeeded p w =
      let (done, events) =
        success_round-written ws (set_success_status r.hashing r.patch p base) q w in
      let (valid, a, b, current) = set_success_status-Written r.hashing r.patch p base q done in
      (valid, events, related-set_success_status r.hashing r.patch p base q done, current)

  fail-FailedFor :
      (requeue : ℕ) (p : Pipeline) (reason : Text)
      → (fail r requeue p reason base).written ≡ some q
      → FailedFor reason (fail r requeue p reason base)
  unfolding fail
  fail-FailedFor requeue p reason w =
      let (a, (b, c, d, e)) = fail-Failed r requeue p reason base q w in
      (b, c, failed_round-events requeue (set_failed_status r.hashing r.patch p reason base))

  after_wait-FailedFor :
      (p : Pipeline) (e : CheckError)
      → (after_wait r base p ws (some e)).written ≡ some q
      → FailedFor (r.messages.check e) (after_wait r base p ws (some e))
  unfolding after_wait
  after_wait-FailedFor p e w =
      fail-FailedFor (requeue_after_check r e)
        (if is_secret_resolve e then set_related_secrets_hash none p else p) (r.messages.check e) w

  -- only the success of every check writes a valid pipeline
  valid-after_wait :
      (p : Pipeline) (o : Option CheckError)
      → (after_wait r base p ws o).written ≡ some q
      → is_valid q ≡ true
      → Succeeded p (after_wait r base p ws o)
  valid-after_wait p none w v = after_wait-Succeeded p w
  valid-after_wait p (some e) w v = absurd (cc (v, (after_wait-FailedFor p e w).0))

  valid-after_role :
      (p : Pipeline) (role : Result RoleError Role)
      → (after_role r base p ws role).written ≡ some q
      → is_valid q ≡ true
      → Succeeded p (after_role r base p ws role)
  unfolding after_role set_role
  valid-after_role p (ok role) w v =
      valid-after_wait (set_role (some role) p)
        (r.wait (outcomes r role (set_role (some role) p) ws)) w v
  valid-after_role p (err e) w v = absurd (cc (v, (fail-FailedFor 0 p (r.messages.role e) w).0))

  valid-after_unmarshal :
      (p : Pipeline) (cfg : Result Text PipelineConfig)
      → (after_unmarshal r base p ws cfg).written ≡ some q
      → is_valid q ≡ true
      → Succeeded p (after_unmarshal r base p ws cfg)
  unfolding after_unmarshal
  valid-after_unmarshal p (ok cfg) w v = valid-after_role p (vector_role cfg) w v
  valid-after_unmarshal p (err e) w v =
      absurd (cc (v, (fail-FailedFor 0 p (r.messages.unmarshal e) w).0))

  -- After a round that wrote a success, a later round that resolves the same token does nothing,
  -- whatever the workloads are then.
  pub checked-Rests :
      (later : Reconciler) (token : Option ℤ) (ws' : Workloads)
      → later.hashing ≡ r.hashing
      → (checked r base token ws).written ≡ some q
      → is_valid q ≡ true
      → decide later q token ws' ≡ idle
  unfolding checked set_related_secrets_hash
  checked-Rests later token ws' same w v =
      let (a, b, kept, current) =
        valid-after_unmarshal (set_related_secrets_hash token base) (r.lib.unmarshal_json base.spec)
          w v in
      decide-same later q token ws'
        (subst (λ h. is_pipeline_changed h q ≡ ok true) (sym same) current)
        (subst (λ t. related_secrets_hash_equal t token ≡ true) (sym kept)
          (related_secrets_hash_equal_refl token))
        (ground arith)

  -- the pipeline that the workloads are asked about
  abbrev pub candidate : Option ℤ → Role → Pipeline
  candidate token role = set_role (some role) (set_related_secrets_hash token base)

  -- a success when none of the workloads objects, and the failure of one otherwise
  abbrev Verdict : List (Option CheckError) → Round → Type 0
  Verdict found round =
      (All (λ o. o ≡ none) found × (is_valid q ≡ true) × (round.events ≡ all_events ws))
      ⊎ ((e : CheckError) × In (some e) found × FailedFor (r.messages.check e) round)

  after_wait-Verdict :
      (p : Pipeline) (found : List (Option CheckError)) (first : Option CheckError)
      → IsWaiting r.wait
      → r.wait found ≡ first
      → (after_wait r base p ws first).written ≡ some q
      → Verdict found (after_wait r base p ws first)
  after_wait-Verdict p found none waiting h w =
      let (valid, events, a, b) = after_wait-Succeeded p w in
      inl (waiting.of_none found h, valid, events)
  after_wait-Verdict p found (some e) waiting h w =
      inr (e, waiting.of_one found e h, after_wait-FailedFor p e w)

  -- A round that is not skipped and writes a status of a pipeline with a role writes a success, and
  -- wakes every workload, if no workload that the pipeline is checked for objects; otherwise it
  -- writes the failure of one that does, and wakes none.
  pub checked-Verdict :
      (token : Option ℤ) (cfg : PipelineConfig) (role : Role)
      → IsWaiting r.wait
      → r.lib.unmarshal_json base.spec ≡ ok cfg
      → vector_role cfg ≡ ok role
      → (checked r base token ws).written ≡ some q
      → (All (λ o. o ≡ none) (outcomes r role (candidate token role) ws)
          × (is_valid q ≡ true)
          × ((checked r base token ws).events ≡ all_events ws))
        ⊎ ((e : CheckError) × In (some e) (outcomes r role (candidate token role) ws)
            × FailedFor (r.messages.check e) (checked r base token ws))
  unfolding checked after_unmarshal after_role
  checked-Verdict token cfg role waiting decoded has_role w =
      let p = candidate token role in
      let found = outcomes r role p ws in
      let same : checked r base token ws ≡ after_wait r base p ws (r.wait found) =
        rw (decoded, has_role) refl in
      subst (Verdict found) (sym same) (
        after_wait-Verdict p found (r.wait found) waiting refl
          (subst (λ (x : Round). x.written ≡ some q) same w))
