-- ===== src/Controller/Secrets/Eligible.antt =====
-- Which pipelines a workload builds with.
use vector_operator.Prelude.{
  ◌≡◌, refl, true, false, not, Option, some, List, [], ◌∷◌, ◌++◌, arith, ap, sym, subst, inl, inr,
  ◌⊎◌, Bool-cases, Option-cases, In, In-append, keep, In-keep, if◌then◌else◌,
}
use vector_operator.Prelude.Result.{Result, ok, ◌>>=◌, >>=-eq-ok, Result-cases}
use vector_operator.Dict.{Dict, lookup}
use vector_operator.Text.{Text}
use vector_operator.Sets.{contains}
use vector_operator.Api.{Pipeline, is_valid}
use vector_operator.Pipeline.SecretIndex.{NamespacedName, name_eq, name_beq_iff}
use vector_operator.Pipeline.Status.{Hashing, Patch, is_pipeline_changed}
use vector_operator.Config.Secrets.Types.{Library, Getter, Secret}
use vector_operator.Config.Secrets.Collisions.{SecretCollision, detect_secret_collisions}
use vector_operator.Config.Secrets.Size.{SecretSizeExclusion, detect_secret_size_overflow}
use vector_operator.Controller.Secrets.{object_key, keys_of, is_data_error}
use vector_operator.Controller.Secrets.Workload.{
  Wording, Resolved, attributed, pool_of, retry_candidates, individually_valid, collision_victims,
  size_victims, write_attribution_reason_if_changed, secret_collision_reason,
  secret_size_exclusion_reason, admit, attribute, attribute_all, nothing_resolved, fall_back,
  spared, resolve_sizes, resolve_workload_pipelines,
}

contains-keys_of :
    (p : Pipeline) (l : List Pipeline) → In p l → contains (object_key p) (keys_of l) ≡ true
unfolding contains keys_of
contains-keys_of p [] m = absurd m
contains-keys_of p (x ∷ l) (inl e) =
    rw e (ground (arith, name_beq_iff (object_key x) (object_key x)))
contains-keys_of p (x ∷ l) (inr m) = ground (arith, contains-keys_of p l m)

module _ (h : Hashing) where
  -- valid, or failed for a conflict over secrets only and not edited since
  abbrev pub Eligible : List Pipeline → Pipeline → Type 0
  Eligible all p =
      In p all
      × ((is_valid p ≡ true) ⊎ ((attributed p ≡ true) × (is_pipeline_changed h p ≡ ok true)))

  module _ (patch : Patch) (w : Wording) (collided : Dict NamespacedName SecretCollision)
      (oversized : Dict NamespacedName SecretSizeExclusion) (all : List Pipeline) where
    abbrev Sound : Resolved → Type 0
    Sound r = (p : Pipeline) → In p r.pipelines → Eligible all p

    abbrev retry : List NamespacedName
    retry = retry_candidates (pool_of all)

    out_of : {a b : Resolved} → Path (Result Text Resolved) (ok a) (ok b) → a ≡ b
    out_of e = ground arith

    snoc :
        (ps : List Pipeline) (p : Pipeline) (qs : List Pipeline)
        → ps ++ p ∷ [] ≡ qs
        → ((x : Pipeline) → In x ps → Eligible all x)
        → Eligible all p
        → (x : Pipeline) → In x qs
        → Eligible all x
    snoc ps p qs same old new x m = elim (In-append x ps (p ∷ []) (subst (In x) (sym same) m)) [
      | inl i ↦ old x i
      | inr i ↦ elim i [ inl e ↦ subst (Eligible all) (sym e) new | inr z ↦ absurd z ]
    ]

    pooled :
        (p : Pipeline)
        → In p (pool_of all)
        → In p all × ((is_valid p ≡ true) ⊎ (attributed p ≡ true))
    unfolding pool_of
    pooled p m =
        let (i, t) = (In-keep (λ x. if is_valid x then true else attributed x) p all).0 m in
        (i, elim (Bool-cases (is_valid p)) [ inl v ↦ inl v | inr n ↦ inr (rw n at t) ])

    never :
        (p : Pipeline)
        → In p (pool_of all)
        → is_valid p ≡ false
        → ¬ (contains (object_key p) retry ≡ false)
    unfolding retry_candidates
    never p m n fresh =
        let k : contains (object_key p) retry ≡ true =
          contains-keys_of p (keep (λ x. not (is_valid x)) (pool_of all))
            ((In-keep (λ x. not (is_valid x)) p (pool_of all)).1 (m, rw n refl)) in
        cc (k, fresh)

    admit-Sound :
        (p : Pipeline) (r r' : Resolved)
        → In p (pool_of all)
        → Sound r
        → admit h patch w collided oversized retry p r ≡ ok r'
        → Sound r'
    unfolding admit
    admit-Sound p r r' m s e =
        let (known, kept) = pooled p m in
        elim (Bool-cases (contains (object_key p) retry)) [
          | inl again ↦
              let (u, i, j) =
                >>=-eq-ok (is_pipeline_changed h p)
                  (λ unchanged. ok (
                    if unchanged
                    then record r {
                      pipelines = r.pipelines ++ p ∷ [];
                      reinstate = r.reinstate ++ p ∷ [];
                    }
                    else r))
                  (rw again at e) in
              elim (Bool-cases u) [
                | inl same ↦
                    let out : r.pipelines ++ p ∷ [] ≡ r'.pipelines =
                      ap (λ x. x.pipelines) (out_of (rw same at j)) in
                    snoc r.pipelines p r'.pipelines out s
                      (known, elim kept [ inl v ↦ inl v | inr a ↦ inr (a, rw same at i) ])
                | inr edited ↦ subst Sound (out_of (rw edited at j)) s
              ]
          | inr fresh ↦
              let out : r.pipelines ++ p ∷ [] ≡ r'.pipelines =
                ap (λ x. x.pipelines) (out_of (rw fresh at e)) in
              snoc r.pipelines p r'.pipelines out s (
                known,
                elim (Bool-cases (is_valid p)) [
                  | inl v ↦ inl v
                  | inr n ↦ absurd (never p m n fresh)
                ],
              )
        ]

    write-Sound :
        (r r' : Resolved)
        → Sound r
        → (out : Result Text (List Pipeline))
        → (out >>= λ ps. ok (record r { written = r.written ++ ps })) ≡ ok r'
        → Sound r'
    write-Sound r r' s out e =
        let (ps, i, j) = >>=-eq-ok out (λ ps. ok (record r { written = r.written ++ ps })) e in
        let same : r.pipelines ≡ r'.pipelines = ap (λ x. x.pipelines) (out_of j) in
        subst (λ l. (p : Pipeline) → In p l → Eligible all p) same s

    attribute-Sound :
        (p : Pipeline) (r r' : Resolved)
        → In p (pool_of all)
        → Sound r
        → attribute h patch w collided oversized retry p r ≡ ok r'
        → Sound r'
    unfolding attribute
    attribute-Sound p r r' m s e = elim (Option-cases (lookup (object_key p) collided)) [
      | inr (c, q) ↦
          write-Sound r r' s
            (write_attribution_reason_if_changed h patch p (secret_collision_reason w c))
            (ground arith)
      | inl q ↦ elim (Option-cases (lookup (object_key p) oversized)) [
        | inr (x, o) ↦
            write-Sound r r' s
              (write_attribution_reason_if_changed h patch p (secret_size_exclusion_reason w x))
              (ground arith)
        | inl o ↦ admit-Sound p r r' m s (ground arith)
      ]
    ]

    attribute_all-Sound :
        (ps : List Pipeline) (r r' : Resolved)
        → ((p : Pipeline) → In p ps → In p (pool_of all))
        → Sound r
        → attribute_all h patch w collided oversized retry ps r ≡ ok r'
        → Sound r'
    unfolding attribute_all
    attribute_all-Sound [] r r' m s e = subst Sound (out_of e) s
    attribute_all-Sound (p ∷ ps) r r' m s e =
        let (k, i, j) =
          >>=-eq-ok (attribute h patch w collided oversized retry p r)
            (attribute_all h patch w collided oversized retry ps) e in
        attribute_all-Sound ps k r' (λ x n. m x (inr n))
          (attribute-Sound p r k (m p (inl refl)) s i) j

  fall_back-Eligible :
      (all : List Pipeline) (p : Pipeline)
      → In p (individually_valid (pool_of all))
      → Eligible all p
  unfolding individually_valid pool_of
  fall_back-Eligible all p m =
      let (i, v) = (In-keep is_valid p (pool_of all)).0 m in
      let (j, t) = (In-keep (λ x. if is_valid x then true else attributed x) p all).0 i in
      (j, inl v)

-- A workload builds only with pipelines that were listed and are valid, or that failed for a conflict
-- over secrets and whose spec is still the one that failed.
pub resolve_workload_pipelines-Eligible :
    (h : Hashing) (patch : Patch) (lib : Library) (getter : Getter) (prototype : Option Secret)
    (w : Wording) (all : List Pipeline) (r : Resolved) (p : Pipeline)
    → resolve_workload_pipelines h patch lib getter prototype w all ≡ ok r
    → In p r.pipelines
    → Eligible h all p
unfolding resolve_workload_pipelines resolve_sizes
resolve_workload_pipelines-Eligible h patch lib getter prototype w all r p e m =
    let pool = pool_of all in
    let fell = λ (q : Path (Result Text Resolved) (ok (fall_back pool)) (ok r)).
      let same : fall_back pool ≡ r = ground arith in
      fall_back-Eligible h all p (subst (λ x. In p x.pipelines) (sym same) m) in
    elim (Result-cases (detect_secret_collisions lib (some getter) pool)) [
      | inr (x, i) ↦ fell (ground arith)
      | inl (cs, i) ↦
          let collided = collision_victims cs [] in
          elim (Result-cases
            (detect_secret_size_overflow lib getter prototype (keep (spared collided) pool))) [
              | inl (es, j) ↦
                  attribute_all-Sound h patch w collided (size_victims es []) all pool
                    nothing_resolved r (λ x n. n) (λ x n. absurd n) (ground arith) p m
              | inr (x, j) ↦ elim (Bool-cases (is_data_error x)) [
                | inl d ↦
                    attribute_all-Sound h patch w collided [] all pool nothing_resolved r (λ x n. n)
                      (λ x n. absurd n) (ground arith) p m
                | inr d ↦ fell (ground arith)
              ]
            ]
    ]
