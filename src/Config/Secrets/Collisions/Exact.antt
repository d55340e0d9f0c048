-- ===== src/Config/Secrets/Collisions/Exact.antt =====
-- What `detect_secret_collisions` promises: the pipelines that it leaves share no flat key for
-- different values, and whoever it names lost a key to a pipeline that stays.
use vector_operator.Prelude.{
  ◌≡◌, refl, true, Option, none, some, List, [], ◌∷◌, In, onto, In-onto, Distinct, arith, sym, ap,
  ◌∙◌, subst, inl, inr, ◌⊎◌,
}
use vector_operator.Dict.{Dict, lookup}
use vector_operator.Text.{Text, text_eq, text_beq_iff}
use vector_operator.Api.{Pipeline}
use vector_operator.Config.Secrets.Types.{PendingSecretRef}
use vector_operator.Config.Secrets.Process.{pipeline_id}
use vector_operator.Config.Secrets.Resolve.{same_tuple}
use vector_operator.Config.Secrets.Resolve.Exact.{OneSource}
use vector_operator.Config.Secrets.Gather.{Scan, Gathered, arrange}
use vector_operator.Config.Secrets.Gather.Laws.{In-arranged, In-ordered_ids, ordered_ids-Distinct}
use vector_operator.Config.Secrets.Collisions.{
  AcceptedOwner, Accepted, SecretCollision, owns_tuple, visit, visit_all, none_accepted, prepend,
  collect, find_victims,
}
use vector_operator.Config.Secrets.Collisions.Invariant.{own, Visited, none_accepted-Visited}
use vector_operator.Config.Secrets.Collisions.Accept.{visit-Visited}

visit_all-Visited :
    (g : Gathered) (ids passed : List Text) (st : Accepted)
    → Distinct ids
    → ((id : Text) → In id ids → ¬ In id passed)
    → ((id : Text) → OneSource (own g id))
    → Visited g passed st
    → Visited g (onto ids passed) (visit_all g ids st)
unfolding visit_all
visit_all-Visited g [] passed st d f c inv = inv
visit_all-Visited g (id ∷ ids) passed st d f c inv =
    visit_all-Visited g ids (id ∷ passed) (visit g id st) d.1
      (λ i m n. elim n [ inl e ↦ d.0 (subst (λ x. In x ids) e m) | inr o ↦ f i (inr m) o ]) c
      (visit-Visited g id passed st (f id (inl refl)) inv (c id))

In-prepend_self :
    (o : Option SecretCollision) (c : SecretCollision) (cols : List SecretCollision)
    → o ≡ some c
    → In c (prepend o cols)
In-prepend_self none c cols h = cc
In-prepend_self (some d) c cols h = inl (ground arith)

In-prepend_of_In :
    (o : Option SecretCollision) (c : SecretCollision) (cols : List SecretCollision)
    → In c cols
    → In c (prepend o cols)
In-prepend_of_In none c cols m = m
In-prepend_of_In (some d) c cols m = inr m

prepend-In :
    (o : Option SecretCollision) (c : SecretCollision) (cols : List SecretCollision)
    → In c (prepend o cols)
    → (o ≡ some c) ⊎ In c cols
prepend-In none c cols m = inr m
prepend-In (some d) c cols (inl e) = inl (ap some (sym e))
prepend-In (some d) c cols (inr m) = inr m

pub In-collect :
    (ids : List Text) (victims : Dict Text SecretCollision) (id : Text) (c : SecretCollision)
    → In id ids
    → lookup id victims ≡ some c
    → In c (collect ids victims)
unfolding collect
In-collect [] victims id c m h = elim m [ ]
In-collect (i ∷ ids) victims id c (inl e) h =
    In-prepend_self (lookup i victims) c (collect ids victims)
      (ap (λ (x : Text). lookup x victims) (sym e) ∙ h)
In-collect (i ∷ ids) victims id c (inr m) h =
    In-prepend_of_In (lookup i victims) c (collect ids victims) (In-collect ids victims id c m h)

pub collect-In :
    (ids : List Text) (victims : Dict Text SecretCollision) (c : SecretCollision)
    → In c (collect ids victims)
    → (id : Text) × (lookup id victims ≡ some c)
unfolding collect
collect-In [] victims c m = elim m [ ]
collect-In (i ∷ ids) victims c m = elim (prepend-In (lookup i victims) c (collect ids victims) m) [
  | inl e ↦ (i, e)
  | inr r ↦ collect-In ids victims c r
]

-- the ID of a pipeline that is named as a victim
abbrev pub IsVictim : List SecretCollision → Text → Type 0
IsVictim cols id =
    (c : SecretCollision) × In c cols
    × ((p : Pipeline) × (c.victim ≡ some p) × (pipeline_id p ≡ id))

-- within one pipeline, a flat key stands for one key of one Secret
abbrev pub OwnOneSource : List PendingSecretRef → Type 0
OwnOneSource pending =
    (a b : PendingSecretRef)
    → In a pending
    → In b pending
    → a.pipeline ≡ b.pipeline
    → a.flat ≡ b.flat
    → same_tuple a b ≡ true

owners_agree :
    (o : AcceptedOwner) (a b : PendingSecretRef)
    → owns_tuple o a ≡ true
    → owns_tuple o b ≡ true
    → same_tuple a b ≡ true
owners_agree o a b h k = ground (
  arith,
  text_beq_iff o.resolve_ns a.resolve_ns,
  text_beq_iff o.secret_name a.secret_name,
  text_beq_iff o.key a.key,
  text_beq_iff a.resolve_ns b.resolve_ns,
  text_beq_iff a.secret_name b.secret_name,
  text_beq_iff a.key b.key,
)

module _ (s : Scan) (consistent : OwnOneSource s.pending) where
  own-OneSource : (id : Text) → OneSource (own (arrange s) id)
  own-OneSource id a b ma mb f =
      let (pa, ea) = (In-arranged s id a).0 ma in
      let (pb, eb) = (In-arranged s id b).0 mb in consistent a b pa pb (ea ∙ sym eb) f

  abbrev pub final : Accepted
  final = visit_all (arrange s) (arrange s).ordered_ids none_accepted

  pub final-Visited : Visited (arrange s) (onto (arrange s).ordered_ids []) final
  final-Visited =
      visit_all-Visited (arrange s) (arrange s).ordered_ids [] none_accepted
        (ordered_ids-Distinct s) (λ id m n. n) own-OneSource (none_accepted-Visited (arrange s))

  -- two references of pipelines that are no victims have the same source under the same key
  pub find_victims-OneSource :
      (a b : PendingSecretRef)
      → In a s.pending
      → In b s.pending
      → lookup a.pipeline (find_victims (arrange s)) ≡ none
      → lookup b.pipeline (find_victims (arrange s)) ≡ none
      → a.flat ≡ b.flat
      → same_tuple a b ≡ true
  unfolding find_victims
  find_victims-OneSource a b ma mb na nb f =
      let (o, l, t) = final-Visited.owned a.pipeline a (reached a ma) na (mine a ma) in
      let (o', l', t') = final-Visited.owned b.pipeline b (reached b mb) nb (mine b mb) in
      let same : o ≡ o' = ground arith in owners_agree o a b t (rw same t')
    where
      reached :
          (r : PendingSecretRef) → In r s.pending → In r.pipeline (onto (arrange s).ordered_ids [])
      reached r m = (In-onto r.pipeline (arrange s).ordered_ids []).0 (inl (In-ordered_ids s r m))

      mine : (r : PendingSecretRef) → In r s.pending → In r (own (arrange s) r.pipeline)
      mine r m = (In-arranged s r.pipeline r).1 (m, refl)
