-- ===== src/Config/Secrets/Gather/Laws.antt =====
-- What gathering keeps: every pending reference is found under its pipeline, every pipeline that
-- has one is visited once, and IDs are those of the scanned pipelines.
use vector_operator.Prelude.{
  ◌≡◌, refl, Option, some, List, [], ◌∷◌, ◌++◌, map, In, Distinct, In-append, In-append_left,
  In-append_right, arith, ap, ◌∙◌, subst, Option-cases, Bool-cases, inl, inr, ◌⊎◌, ◌==◌,
  if◌then◌else◌,
}
use vector_operator.Prelude.Result.{ok, Result-cases, >>=-eq-ok}
use vector_operator.Dict.{Dict, lookup, insert, keys, lookup-insert, In-keys, insert-Distinct}
use vector_operator.Text.{Text, text_eq, text_beq, text_beq_iff}
use vector_operator.Sort.Laws.{In-sort_by, sort_by-Distinct}
use vector_operator.Api.{Pipeline}
use vector_operator.Config.Types.{Fields}
use vector_operator.Config.Secrets.Types.{Library, Getter, SecretRef, PendingSecretRef}
use vector_operator.Config.Secrets.Process.{
  pipeline_id, to_pending, components, process_pipeline_secrets,
}
use vector_operator.Config.Secrets.Process.Laws.{
  all_occurrences, processable, process_pipeline_secrets_exact,
}
use vector_operator.Config.Secrets.Gather.{
  Scan, scan_pipeline, scan_pipelines, refs_at, group, older, arrange, empty_scan,
}

abbrev Groups : Type 0
Groups = Dict Text (List PendingSecretRef)

abbrev grown : PendingSecretRef → Groups → Groups
grown ref m = insert ref.pipeline (refs_at ref.pipeline m ++ ref ∷ []) m

refs_at-grown :
    (id : Text) (ref : PendingSecretRef) (m : Groups)
    → refs_at id (grown ref m)
      ≡ (if ref.pipeline == id then refs_at id m ++ ref ∷ [] else refs_at id m)
unfolding refs_at
refs_at-grown id ref m = ground (
  arith,
  lookup-insert ref.pipeline id (refs_at ref.pipeline m ++ ref ∷ []) m,
  text_beq_iff ref.pipeline id,
)

-- what a group holds after the loop
pub In-group :
    (id : Text) (r : PendingSecretRef) (pending : List PendingSecretRef) (m : Groups)
    → (In r (refs_at id (group pending m))
        → In r (refs_at id m) ⊎ (In r pending × (r.pipeline ≡ id)))
      × (In r (refs_at id m) ⊎ (In r pending × (r.pipeline ≡ id))
          → In r (refs_at id (group pending m)))
unfolding group
In-group id r [] m = (inl, λ h. elim h [ inl a ↦ a | inr b ↦ absurd b.0 ])
In-group id r (ref ∷ rest) m = elim (Bool-cases (ref.pipeline == id)) [
  | inr other ↦
      let old : refs_at id (grown ref m) ≡ refs_at id m = refs_at-grown id ref m ∙ rw other refl in
      (
        λ h. elim ((In-group id r rest (grown ref m)).0 h) [
          | inl a ↦ inl (rw old at a)
          | inr (b, e) ↦ inr (inr b, e)
        ],
        λ h. (In-group id r rest (grown ref m)).1 (elim h [
          | inl a ↦ inl (rw (← old) at a)
          | inr (b, e) ↦ elim b [
            | inl q ↦ absurd (ground (arith, text_beq_iff ref.pipeline id))
            | inr c ↦ inr (c, e)
          ]
        ]),
      )
  | inl same ↦
      let new : refs_at id (grown ref m) ≡ refs_at id m ++ ref ∷ [] =
        refs_at-grown id ref m ∙ rw same refl in
      let here : ref.pipeline ≡ id = (text_beq_iff ref.pipeline id).0 same in
      (
        λ h. elim ((In-group id r rest (grown ref m)).0 h) [
          | inl a ↦ elim (In-append r (refs_at id m) (ref ∷ []) (rw new at a)) [
            | inl b ↦ inl b
            | inr c ↦ elim c [
              | inl q ↦ inr (inl q, ap (λ (x : PendingSecretRef). x.pipeline) q ∙ here)
              | inr z ↦ absurd z
            ]
          ]
          | inr (b, e) ↦ inr (inr b, e)
        ],
        λ h. (In-group id r rest (grown ref m)).1 (elim h [
          | inl a ↦ inl (rw (← new) at (In-append_left r (refs_at id m) (ref ∷ []) a))
          | inr (b, e) ↦ elim b [
            | inl q ↦ inl (rw (← new) at (In-append_right r (refs_at id m) (ref ∷ []) (inl q)))
            | inr c ↦ inr (c, e)
          ]
        ]),
      )
]

group-Distinct :
    (pending : List PendingSecretRef) (m : Groups)
    → Distinct (keys m)
    → Distinct (keys (group pending m))
unfolding group
group-Distinct [] m d = d
group-Distinct (ref ∷ rest) m d =
    group-Distinct rest (grown ref m)
      (insert-Distinct ref.pipeline (refs_at ref.pipeline m ++ ref ∷ []) m d)

In-nil-refs_at : (r : PendingSecretRef) (id : Text) → ¬ In r (refs_at id [])
unfolding refs_at lookup
In-nil-refs_at r id h = h

In-refs_at-keys :
    (r : PendingSecretRef) (id : Text) (m : Groups) → In r (refs_at id m) → In id (keys m)
unfolding refs_at
In-refs_at-keys r id m h = elim (Option-cases (lookup id m)) [
  | inl e ↦ let none_there : refs_at id m ≡ [] = ground arith in absurd (subst (In r) none_there h)
  | inr (refs, e) ↦ In-keys id m {v = refs} e
]

module _ (s : Scan) where
  -- the references of a pipeline are the pending ones with its ID
  pub In-arranged :
      (id : Text) (r : PendingSecretRef)
      → (In r (refs_at id (arrange s).by_pipeline) → In r s.pending × (r.pipeline ≡ id))
        × (In r s.pending × (r.pipeline ≡ id) → In r (refs_at id (arrange s).by_pipeline))
  unfolding arrange
  In-arranged id r = (
    λ h. elim ((In-group id r s.pending []).0 h) [
      | inl a ↦ absurd (In-nil-refs_at r id a)
      | inr b ↦ b
    ],
    λ h. (In-group id r s.pending []).1 (inr h),
  )

  -- the pipeline of a pending reference is visited
  pub In-ordered_ids :
      (r : PendingSecretRef) → In r s.pending → In r.pipeline (arrange s).ordered_ids
  unfolding arrange
  In-ordered_ids r m = (In-sort_by (older s.by_id) r.pipeline (keys (group s.pending []))).1 (
      In-refs_at-keys r r.pipeline (group s.pending [])
        ((In-group r.pipeline r s.pending []).1 (inr (m, refl))))

  pub ordered_ids-Distinct : Distinct (arrange s).ordered_ids
  unfolding arrange keys
  ordered_ids-Distinct =
      sort_by-Distinct (older s.by_id) (keys (group s.pending [])) (group-Distinct s.pending [] tt)

-- each entry of the map of pipelines is under its own ID, and every pending reference has one
pub record IsScan (s : Scan) : Type 0 where
  pub under_id : (id : Text) (p : Pipeline) → lookup id s.by_id ≡ some p → pipeline_id p ≡ id
  pub known :
      (r : PendingSecretRef)
      → In r s.pending
      → (p : Pipeline) × (lookup r.pipeline s.by_id ≡ some p)

In-map-to_pending :
    (p : Pipeline) (r : PendingSecretRef) (refs : List SecretRef)
    → In r (map (to_pending p) refs)
    → r.pipeline ≡ pipeline_id p
In-map-to_pending p r [] h = elim h [ ]
In-map-to_pending p r (x ∷ refs) (inl e) =
    unfold to_pending in ap (λ (y : PendingSecretRef). y.pipeline) e
In-map-to_pending p r (x ∷ refs) (inr m) = In-map-to_pending p r refs m

module _ (lib : Library) (getter : Option Getter) where
  -- processing only appends, and what it appends belongs to the pipeline
  pub process-appends :
      (p : Pipeline) (comps comps' : List Fields) (pending pending' : List PendingSecretRef)
      → process_pipeline_secrets lib p getter comps pending ≡ ok (comps', pending')
      → pending' ≡ pending ++ map (to_pending p) (all_occurrences comps)
  process-appends p comps comps' pending pending' h =
      elim (Bool-cases (processable lib p getter comps)) [
        | inl good ↦
            ground (arith, (process_pipeline_secrets_exact lib p getter comps pending).0 good)
        | inr bad ↦
            absurd
              (ground (arith, (process_pipeline_secrets_exact lib p getter comps pending).1 bad))
      ]

  insert-IsScan :
      (p : Pipeline) (refs : List SecretRef) (s : Scan)
      → IsScan s
      → IsScan (record {
        by_id = insert (pipeline_id p) p s.by_id;
        pending = s.pending ++ map (to_pending p) refs;
      })
  insert-IsScan p refs s inv = record {
    under_id = λ id q h. ground (
      arith,
      lookup-insert (pipeline_id p) id p s.by_id,
      text_beq_iff (pipeline_id p) id,
      inv.under_id id q,
    );
    known = λ r m. elim (In-append r s.pending (map (to_pending p) refs) m) [
      | inr new ↦ (
        p,
        rw (In-map-to_pending p r refs new) (
            ground (
              arith,
              lookup-insert (pipeline_id p) (pipeline_id p) p s.by_id,
              text_beq_iff (pipeline_id p) (pipeline_id p),
            )),
      )
      | inl old ↦
          let (q, e) = inv.known r old in
          elim (Bool-cases (text_beq (pipeline_id p) r.pipeline)) [
            | inl same ↦ (p, ground (arith, lookup-insert (pipeline_id p) r.pipeline p s.by_id))
            | inr other ↦ (q, ground (arith, lookup-insert (pipeline_id p) r.pipeline p s.by_id))
          ]
    ];
  }

  scan_pipeline-IsScan :
      (p : Pipeline) (s s' : Scan) → scan_pipeline lib getter p s ≡ ok s' → IsScan s → IsScan s'
  unfolding scan_pipeline
  scan_pipeline-IsScan p s s' h inv = elim (Result-cases (lib.unmarshal_json p.spec)) [
    | inr (e, u) ↦ absurd (ground arith)
    | inl (cfg, u) ↦
        elim (Result-cases (process_pipeline_secrets lib p getter (components cfg) s.pending)) [
          | inr (e, k) ↦ absurd (ground arith)
          | inl ((c, pending), k) ↦
              let grown = process-appends p (components cfg) c s.pending pending k in
              let new : Scan = record {
                by_id = insert (pipeline_id p) p s.by_id;
                pending = s.pending ++ map (to_pending p) (all_occurrences (components cfg));
              } in
              let same : new ≡ s' = ground arith in
              subst IsScan same (insert-IsScan p (all_occurrences (components cfg)) s inv)
        ]
  ]

  scan_loop-IsScan :
      (ps : List Pipeline) (s s' : Scan)
      → scan_pipelines lib getter ps s ≡ ok s'
      → IsScan s
      → IsScan s'
  unfolding scan_pipelines
  scan_loop-IsScan [] s s' h inv = let same : s ≡ s' = ground arith in subst IsScan same inv
  scan_loop-IsScan (p ∷ ps) s s' h inv =
      let (mid, k, rest) = >>=-eq-ok (scan_pipeline lib getter p s) _ h in
      scan_loop-IsScan ps mid s' rest (scan_pipeline-IsScan p s mid k inv)

  pub scan_pipelines-IsScan :
      (ps : List Pipeline) (s : Scan) → scan_pipelines lib getter ps empty_scan ≡ ok s → IsScan s
  unfolding lookup
  scan_pipelines-IsScan ps s h =
      scan_loop-IsScan ps empty_scan s h
        (record { under_id = λ id p e. cc; known = λ r m. elim m [ ] })
