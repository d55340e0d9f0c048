-- ===== src/Config/Secrets/Collisions/Promise.antt =====
-- The two promises of `detect_secret_collisions`, in terms of its result.
use vector_operator.Prelude.{
  ◌≡◌, ◌≢◌, true, false, Option, none, some, List, ◌∷◌, In, arith, sym, ap, ◌∙◌, subst,
  Option-cases, inl, inr,
}
use vector_operator.Prelude.Result.{ok}
use vector_operator.Dict.{lookup, keys, In-keys}
use vector_operator.Text.{Text, text_eq, text_lt}
use vector_operator.Sort.{sort_texts}
use vector_operator.Sort.Laws.{In-sort_by}
use vector_operator.Api.{Pipeline}
use vector_operator.Config.Secrets.Types.{Library, Getter, PendingSecretRef}
use vector_operator.Config.Secrets.Process.{pipeline_id}
use vector_operator.Config.Secrets.Resolve.{same_tuple}
use vector_operator.Config.Secrets.Gather.{
  Scan, scan_pipelines, arrange, empty_scan, gather_pending_secrets_by_pipeline,
}
use vector_operator.Config.Secrets.Gather.Laws.{In-arranged, IsScan, scan_pipelines-IsScan}
use vector_operator.Config.Secrets.Collisions.{
  SecretCollision, collect, find_victims, detect_secret_collisions,
}
use vector_operator.Config.Secrets.Collisions.Exact.{
  In-collect, collect-In, IsVictim, OwnOneSource, final-Visited, find_victims-OneSource,
}

module _ (lib : Library) (getter : Option Getter) (p q : Pipeline) (ps : List Pipeline) (s : Scan)
    (cols : List SecretCollision) (consistent : OwnOneSource s.pending)
    (scanned : scan_pipelines lib getter (p ∷ q ∷ ps) empty_scan ≡ ok s)
    (detected : detect_secret_collisions lib getter (p ∷ q ∷ ps) ≡ ok cols) where
  cols_lem :
      cols ≡ collect (sort_texts (keys (find_victims (arrange s)))) (find_victims (arrange s))
  unfolding detect_secret_collisions gather_pending_secrets_by_pipeline
  cols_lem = ground arith

  victim_listed :
      (id : Text) (c : SecretCollision) → lookup id (find_victims (arrange s)) ≡ some c → In c cols
  unfolding sort_texts
  victim_listed id c h = subst (In c) (sym cols_lem) (
      In-collect (sort_texts (keys (find_victims (arrange s)))) (find_victims (arrange s)) id c
        ((In-sort_by text_lt id (keys (find_victims (arrange s)))).1
          (In-keys id (find_victims (arrange s)) {v = c} h))
        h)

  is_scan : IsScan s
  is_scan = scan_pipelines-IsScan lib getter (p ∷ q ∷ ps) s scanned

  not_listed :
      (a : PendingSecretRef)
      → In a s.pending
      → ¬ IsVictim cols a.pipeline
      → lookup a.pipeline (find_victims (arrange s)) ≡ none
  unfolding find_victims arrange
  not_listed a m n = elim (Option-cases (lookup a.pipeline (find_victims (arrange s)))) [
    | inl e ↦ e
    | inr (c, e) ↦
        let (i, j, b) = (final-Visited s consistent).blamed a.pipeline c e in
        let (x, k) = is_scan.known a m in
        absurd
          (n (c, victim_listed a.pipeline c e, (x, b.object ∙ k, is_scan.under_id a.pipeline x k)))
  ]

  listed_victim : (id : Text) → IsVictim cols id → lookup id (find_victims (arrange s)) ≢ none
  unfolding find_victims arrange
  listed_victim id (c, m, w) h =
      let (x, e, f) = w in
      let (j, l) =
        collect-In (sort_texts (keys (find_victims (arrange s)))) (find_victims (arrange s)) c
          (subst (In c) cols_lem m) in
      let (i, k, b) = (final-Visited s consistent).blamed j c l in
      let g : pipeline_id x ≡ j = is_scan.under_id j x (sym b.object ∙ e) in
      let same : j ≡ id = sym g ∙ f in
      let taken : lookup id (find_victims (arrange s)) ≡ some c =
        subst (λ y. lookup y (find_victims (arrange s)) ≡ some c) same l in
      cc (taken, h)

  -- Take the pending references of two or more pipelines, where no pipeline uses one flat key for
  -- two values. References of pipelines that `detect_secret_collisions` does not name read the
  -- same key of the same Secret whenever they have the same flat key.
  pub detect_secret_collisions-OneSource :
      (a b : PendingSecretRef)
      → In a s.pending
      → In b s.pending
      → ¬ IsVictim cols a.pipeline
      → ¬ IsVictim cols b.pipeline
      → a.flat ≡ b.flat
      → same_tuple a b ≡ true
  detect_secret_collisions-OneSource a b ma mb na nb =
      find_victims-OneSource s consistent a b ma mb (not_listed a ma na) (not_listed b mb nb)

  -- the evidence against a named victim
  pub record Justified (c : SecretCollision) : Type 0 where
    pub victim_ref : PendingSecretRef
    pub survivor_ref : PendingSecretRef
    pub victim_pending : In victim_ref s.pending
    pub survivor_pending : In survivor_ref s.pending
    pub victim_flat : victim_ref.flat ≡ c.flat_key
    pub survivor_flat : survivor_ref.flat ≡ c.flat_key
    pub differs : same_tuple survivor_ref victim_ref ≡ false
    pub survivor_of : survivor_ref.pipeline ≡ c.survivor
    pub victim_of : (x : Pipeline) × (c.victim ≡ some x) × (pipeline_id x ≡ victim_ref.pipeline)
    pub survives : ¬ IsVictim cols c.survivor

  -- Take the pending references of two or more pipelines, where no pipeline uses one flat key for
  -- two values. Every collision that `detect_secret_collisions` reports is real: the victim has a
  -- reference whose flat key a reference of the survivor has too, for another key or Secret, and the
  -- survivor is itself no victim.
  pub detect_secret_collisions-Justified : (c : SecretCollision) → In c cols → Justified c
  unfolding find_victims arrange
  detect_secret_collisions-Justified c m =
      let (id, e) =
        collect-In (sort_texts (keys (find_victims (arrange s)))) (find_victims (arrange s)) c
          (subst (In c) cols_lem m) in
      let (i, j, b) = (final-Visited s consistent).blamed id c e in
      let (vp, ve) = (In-arranged s id b.victim_ref).0 b.of_victim in
      let (sp, se) = (In-arranged s c.survivor b.survivor_ref).0 b.of_survivor in
      let (x, k) = is_scan.known b.victim_ref vp in
      record {
        victim_ref = b.victim_ref;
        survivor_ref = b.survivor_ref;
        victim_pending = vp;
        survivor_pending = sp;
        victim_flat = b.victim_flat;
        survivor_flat = b.survivor_flat;
        differs = b.differs;
        survivor_of = se;
        victim_of = (
          x,
          b.object ∙ (ap (λ (y : Text). lookup y s.by_id) (sym ve) ∙ k),
          is_scan.under_id b.victim_ref.pipeline x k,
        );
        survives = λ v. listed_victim c.survivor v b.survives;
      }
