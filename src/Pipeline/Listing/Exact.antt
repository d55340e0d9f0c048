-- ===== src/Pipeline/Listing/Exact.antt =====
-- What `list_pipelines` selects, by the fields of the pipelines.
use vector_operator.Prelude.{
  ◌≡◌, refl, ◌↔◌, ℕ, Bool, true, false, ◌&&◌, ◌||◌, not, Option, none, some, List, [], ◌∷◌, ◌++◌,
  keep, In-keep, All, In, In-append, In-append_left, In-append_right, arith, inl, inr, ◌⊎◌,
  Bool-cases, ◌==◌, subst, sym, ap,
}
use vector_operator.Prelude.Result.{Result, ok, ◌>>=◌, >>=-eq-ok}
use vector_operator.Dict.{Dict}
use vector_operator.Text.{Text, text_eq, text_beq_iff}
use vector_operator.Api.{Pipeline, Role, agent, aggregator, unknown, is_valid, is_deleted, get_role}
use vector_operator.Pipeline.Labels.{label_at, match_labels}
use vector_operator.Pipeline.Merge.{role_beq}
use vector_operator.Pipeline.Listing.{
  FilterScope, all_pipelines, namespaced_pipeline, cluster_pipelines, FilterPipelines, ListError,
  lists_vps, lists_cvps, any_namespace, match_labels_of, takes_cvp, takes_vp, list_vps, list_cvps,
  list_pipelines,
}

abbrev pub VpInScope : FilterScope → Text → Text → Type 0
VpInScope all_pipelines wanted ns = Unit
VpInScope namespaced_pipeline wanted ns = ns ≡ wanted
VpInScope cluster_pipelines wanted ns = ⊥

abbrev pub CvpInScope : FilterScope → Type 0
CvpInScope all_pipelines = Unit
CvpInScope namespaced_pipeline = ⊥
CvpInScope cluster_pipelines = Unit

-- what a filter asks of a pipeline of either kind
pub record Fits (f : FilterPipelines) (require_valid : Bool) (p : Pipeline) : Type 0 where
  pub alive : p.deletion_timestamp ≡ none
  pub checked : (require_valid ≡ false) ⊎ (p.status.config_check_result ≡ some true)
  pub in_role : (p.status.role ≡ some f.role) ⊎ ((p.status.role ≡ none) × (f.role ≡ unknown))
  pub labelled : All (λ (kv : Text × Text). label_at kv.0 p.labels ≡ kv.1) (match_labels_of f)

-- what a filter selects from the objects of the two kinds
abbrev pub Selected : FilterPipelines → Bool → List Pipeline → List Pipeline → Pipeline → Type 0
Selected f require_valid vps cvps p =
    Fits f require_valid p
    × ((In p vps × VpInScope f.scope f.namespace p.namespace) ⊎ (In p cvps × CvpInScope f.scope))

match_labels_iff :
    (selector labels : Dict Text Text)
    → (match_labels selector labels ≡ true)
      ↔ All (λ (kv : Text × Text). label_at kv.0 labels ≡ kv.1) selector
unfolding match_labels
match_labels_iff [] labels = (λ h. tt, λ h. refl)
match_labels_iff ((k, v) ∷ selector) labels =
    let rest = match_labels_iff selector labels in
    (
      λ h. ((text_beq_iff (label_at k labels) v).0 (ground arith), rest.0 (ground arith)),
      λ h. let e = rest.1 h.1 in let s = (text_beq_iff (label_at k labels) v).1 h.0 in ground arith,
    )

role_beq_refl : (a : Role) → role_beq a a ≡ true
role_beq_refl agent = refl
role_beq_refl aggregator = refl
role_beq_refl unknown = refl

role_iff : (a b : Role) → (role_beq a b ≡ true) ↔ (a ≡ b)
role_iff a b = (λ h. ground arith, λ h. rw h (role_beq_refl b))

none_alive :
    (d : Option ℕ)
    → (not (elim d as (λ _. Bool) [ none ↦ false | some _ ↦ true ]) ≡ true) ↔ (d ≡ none)
none_alive none = (λ h. refl, λ h. refl)
none_alive (some n) = (λ h. cc h, λ h. cc h)

valid_checked :
    (r : Bool) (c : Option Bool)
    → ((not r || (elim c as (λ _. Bool) [ none ↦ false | some b ↦ b ])) ≡ true)
      ↔ ((r ≡ false) ⊎ (c ≡ some true))
valid_checked false c = (λ h. inl refl, λ h. refl)
valid_checked true none = (λ h. cc h, λ h. elim h [ inl e ↦ cc e | inr e ↦ cc e ])
valid_checked true (some b) = (λ h. inr (ap some h), λ h. elim h [ inl e ↦ cc e | inr e ↦ cc e ])

same_role :
    (o : Option Role) (role : Role)
    → (role_beq (elim o as (λ _. Role) [ none ↦ unknown | some a ↦ a ]) role ≡ true)
      ↔ ((o ≡ some role) ⊎ ((o ≡ none) × (role ≡ unknown)))
same_role none role = (
  λ h. inr (refl, sym ((role_iff unknown role).0 h)),
  λ h. elim h [ inl e ↦ cc e | inr e ↦ (role_iff unknown role).1 (sym e.1) ],
)
same_role (some a) role = (
  λ h. inl (ap some ((role_iff a role).0 h)),
  λ h. elim h [ inl e ↦ (role_iff a role).1 (cc e) | inr e ↦ cc (e.0) ],
)

alive_iff : (p : Pipeline) → (not (is_deleted p) ≡ true) ↔ (p.deletion_timestamp ≡ none)
unfolding is_deleted
alive_iff p = none_alive p.deletion_timestamp

checked_iff :
    (r : Bool) (p : Pipeline)
    → ((not r || is_valid p) ≡ true) ↔ ((r ≡ false) ⊎ (p.status.config_check_result ≡ some true))
unfolding is_valid
checked_iff r p = valid_checked r p.status.config_check_result

in_role_iff :
    (p : Pipeline) (role : Role)
    → (role_beq (get_role p) role ≡ true)
      ↔ ((p.status.role ≡ some role) ⊎ ((p.status.role ≡ none) × (role ≡ unknown)))
unfolding get_role
in_role_iff p role = same_role p.status.role role

takes_cvp_iff :
    (f : FilterPipelines) (r : Bool) (p : Pipeline) → (takes_cvp f r p ≡ true) ↔ Fits f r p
unfolding takes_cvp
takes_cvp_iff f r p =
    let a = alive_iff p in
    let b = checked_iff r p in
    let c = in_role_iff p f.role in
    let d = match_labels_iff (match_labels_of f) p.labels in
    (
      λ h. record {
        alive = a.0 (ground arith);
        checked = b.0 (ground arith);
        in_role = c.0 (ground arith);
        labelled = d.0 (ground arith);
      },
      λ h.
          let i = a.1 h.alive in
          let j = b.1 h.checked in let k = c.1 h.in_role in let l = d.1 h.labelled in ground arith,
    )

vp_scope_iff :
    (s : FilterScope) (wanted ns : Text)
    → ((lists_vps s ≡ true) × ((any_namespace s || ns == wanted) ≡ true)) ↔ VpInScope s wanted ns
vp_scope_iff all_pipelines wanted ns = (λ h. tt, λ h. (refl, refl))
vp_scope_iff namespaced_pipeline wanted ns =
    (λ h. (text_beq_iff ns wanted).0 h.1, λ h. (refl, (text_beq_iff ns wanted).1 h))
vp_scope_iff cluster_pipelines wanted ns = (λ h. cc (h.0), λ h. absurd h)

cvp_scope_iff : (s : FilterScope) → (lists_cvps s ≡ true) ↔ CvpInScope s
cvp_scope_iff all_pipelines = (λ h. tt, λ h. refl)
cvp_scope_iff namespaced_pipeline = (λ h. cc h, λ h. absurd h)
cvp_scope_iff cluster_pipelines = (λ h. tt, λ h. refl)

module _ (f : FilterPipelines) (r : Bool) (vps cvps : List Pipeline) (p : Pipeline) where
  abbrev TakenVp : Type 0
  TakenVp = (lists_vps f.scope ≡ true) × In p vps × (takes_vp f r p ≡ true)

  abbrev TakenCvp : Type 0
  TakenCvp = (lists_cvps f.scope ≡ true) × In p cvps × (takes_cvp f r p ≡ true)

  Selected-TakenVp : TakenVp → Selected f r vps cvps p
  unfolding takes_vp
  Selected-TakenVp (l, m, t) = (
    (takes_cvp_iff f r p).0 (ground arith),
    inl (m, (vp_scope_iff f.scope f.namespace p.namespace).0 (l, ground arith)),
  )

  Selected-TakenCvp : TakenCvp → Selected f r vps cvps p
  Selected-TakenCvp (l, m, t) = ((takes_cvp_iff f r p).0 t, inr (m, (cvp_scope_iff f.scope).0 l))

  Selected-tests : Selected f r vps cvps p → TakenVp ⊎ TakenCvp
  unfolding takes_vp
  Selected-tests (fits, at) =
      let t = (takes_cvp_iff f r p).1 fits in
      elim at [
        | inl x ↦
            let s = (vp_scope_iff f.scope f.namespace p.namespace).1 x.1 in
            let (y, z) = s in inl (y, x.0, ground arith)
        | inr x ↦ inr ((cvp_scope_iff f.scope).1 x.1, x.0, t)
      ]

In-list_vps :
    (f : FilterPipelines) (r : Bool) (vps a : List Pipeline) (c : Result ListError (List Pipeline))
    (p : Pipeline)
    → list_vps (ok vps) c f r ≡ ok a
    → In p a ↔ ((lists_vps f.scope ≡ true) × In p vps × (takes_vp f r p ≡ true))
unfolding list_vps
In-list_vps f r vps a c p h = elim (Bool-cases (lists_vps f.scope)) [
  | inr n ↦
      let same : [] ≡ a = ground arith in
      (λ m. absurd (subst (In p) (sym same) m), λ m. absurd (let t = m.0 in cc (t, n)))
  | inl y ↦ elim (Bool-cases (not (any_namespace f.scope) && f.namespace == [])) [
    | inl bad ↦ absurd (ground arith)
    | inr good ↦
        let same : keep (takes_vp f r) vps ≡ a = ground arith in
        (
          λ m.
              let (i, j) = (In-keep (takes_vp f r) p vps).0 (subst (In p) (sym same) m) in
              (y, i, j),
          λ m. subst (In p) same ((In-keep (takes_vp f r) p vps).1 (let (u, i, j) = m in (i, j))),
        )
  ]
]

In-list_cvps :
    (f : FilterPipelines) (r : Bool) (cvps b : List Pipeline) (c : Result ListError (List Pipeline))
    (p : Pipeline)
    → list_cvps c (ok cvps) f r ≡ ok b
    → In p b ↔ ((lists_cvps f.scope ≡ true) × In p cvps × (takes_cvp f r p ≡ true))
unfolding list_cvps
In-list_cvps f r cvps b c p h = elim (Bool-cases (lists_cvps f.scope)) [
  | inr n ↦
      let same : [] ≡ b = ground arith in
      (λ m. absurd (subst (In p) (sym same) m), λ m. absurd (let t = m.0 in cc (t, n)))
  | inl y ↦
      let same : keep (takes_cvp f r) cvps ≡ b = ground arith in
      (
        λ m.
            let (i, j) = (In-keep (takes_cvp f r) p cvps).0 (subst (In p) (sym same) m) in
            (y, i, j),
        λ m. subst (In p) same ((In-keep (takes_cvp f r) p cvps).1 (let (u, i, j) = m in (i, j))),
      )
]

-- When both kinds can be listed and the listing succeeds, it holds exactly the VectorPipelines that
-- the filter's scope covers, of its namespace if it has one, and the ClusterVectorPipelines that its
-- scope covers, that are not being deleted, have passed the check if only valid ones are asked for,
-- have the filter's role, where no role counts as the unknown one, and have each label of its
-- selector, where a missing label reads as the empty text.
pub In-list_pipelines :
    (f : FilterPipelines) (require_valid : Bool) (vps cvps out : List Pipeline) (p : Pipeline)
    → list_pipelines (ok vps) (ok cvps) f require_valid ≡ ok out
    → In p out ↔ Selected f require_valid vps cvps p
unfolding list_pipelines
In-list_pipelines f r vps cvps out p h =
    let (a, i, j) =
      >>=-eq-ok (list_vps (ok vps) (ok cvps) f r)
        (λ a. list_cvps (ok vps) (ok cvps) f r >>= λ b. ok (a ++ b)) h in
    let (b, k, l) = >>=-eq-ok (list_cvps (ok vps) (ok cvps) f r) (λ b. ok (a ++ b)) j in
    let same : a ++ b ≡ out = ground arith in
    let va = In-list_vps f r vps a (ok cvps) p i in
    let cb = In-list_cvps f r cvps b (ok vps) p k in
    (
      λ m. elim (In-append p a b (subst (In p) (sym same) m)) [
        | inl x ↦ Selected-TakenVp f r vps cvps p (va.0 x)
        | inr x ↦ Selected-TakenCvp f r vps cvps p (cb.0 x)
      ],
      λ m. subst (In p) same (elim (Selected-tests f r vps cvps p m) [
        | inl x ↦ In-append_left p a b (va.1 x)
        | inr x ↦ In-append_right p a b (cb.1 x)
      ]),
    )
