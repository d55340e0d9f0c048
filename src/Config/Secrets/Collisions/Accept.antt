-- ===== src/Config/Secrets/Collisions/Accept.antt =====
-- A round of the greedy pass that accepts its pipeline, and the pass as a whole.
use vector_operator.Prelude.{
  ◌≡◌, true, none, some, List, ◌∷◌, In, arith, sym, ap, subst, Option-cases, inl, inr,
}
use vector_operator.Dict.{lookup}
use vector_operator.Text.{Text, text_eq}
use vector_operator.Sort.{sort_by}
use vector_operator.Sort.Laws.{In-sort_by}
use vector_operator.Config.Secrets.Types.{PendingSecretRef}
use vector_operator.Config.Secrets.Gather.{Gathered}
use vector_operator.Config.Secrets.Resolve.Exact.{OneSource}
use vector_operator.Config.Secrets.Collisions.{
  AcceptedOwner, Accepted, owns_tuple, find_conflict, owner_of, claim_all, by_flat, visit,
}
use vector_operator.Config.Secrets.Collisions.Claims.{
  find_conflict-some, find_conflict-none, claim_all-keeps, claim_all-source, claim_all-present,
}
use vector_operator.Config.Secrets.Collisions.Invariant.{own, Visited}
use vector_operator.Config.Secrets.Collisions.Step.{not_victim, rejected, rejected-Visited}

module _ (g : Gathered) (id : Text) (passed : List Text) (st : Accepted) (fresh : ¬ In id passed)
    (inv : Visited g passed st) (consistent : OneSource (own g id)) where
  abbrev refs : List PendingSecretRef
  refs = sort_by by_flat (own g id)

  mine : (r : PendingSecretRef) → In r refs → In r (own g id)
  mine r = (In-sort_by by_flat r (own g id)).0

  abbrev taken : Accepted
  taken = record st { accepted = claim_all id refs st.accepted }

  module _ (free : find_conflict refs st.accepted ≡ none) where
    own-owned :
        (r : PendingSecretRef)
        → In r refs
        → (o : AcceptedOwner) × (lookup r.flat taken.accepted ≡ some o) × (owns_tuple o r ≡ true)
    own-owned r m =
        let (o, l) = claim_all-present id refs st.accepted r m in
        elim (claim_all-source id refs st.accepted r.flat {o = o} l) [
          | inl old ↦ (o, l, find_conflict-none refs st.accepted r free m old)
          | inr (s, i, f, e) ↦ (
            o,
            l,
            subst (λ (x : AcceptedOwner). owns_tuple x r ≡ true) e
                (consistent s r (mine s i) (mine r m) f),
          )
        ]

    taken-owned :
        (p : Text) (r : PendingSecretRef)
        → In p (id ∷ passed)
        → lookup p st.victims ≡ none
        → In r (own g p)
        → (o : AcceptedOwner) × (lookup r.flat taken.accepted ≡ some o) × (owns_tuple o r ≡ true)
    taken-owned p r (inl e) h m =
        own-owned r ((In-sort_by by_flat r (own g id)).1 (subst (λ x. In r (own g x)) e m))
    taken-owned p r (inr i) h m =
        let (o, l, t) = inv.owned p r i h m in (o, claim_all-keeps id refs st.accepted r.flat l, t)

    taken-owner :
        (k : Text) (o : AcceptedOwner)
        → lookup k taken.accepted ≡ some o
        → In o.id (id ∷ passed)
          × (lookup o.id st.victims ≡ none)
          × ((s : PendingSecretRef) × In s (own g o.id) × (s.flat ≡ k) × (owner_of o.id s ≡ o))
    taken-owner k o h = elim (claim_all-source id refs st.accepted k {o = o} h) [
      | inl old ↦ let (m, alive, w) = inv.owner k o old in (inr m, alive, w)
      | inr (s, i, f, e) ↦
          let here : id ≡ o.id = ap (λ (x : AcceptedOwner). x.id) e in
          (
            inl (sym here),
            subst (λ x. lookup x st.victims ≡ none) here (not_victim g id passed st fresh inv),
            subst (λ x. (s : PendingSecretRef) × In s (own g x) × (s.flat ≡ k) × (owner_of x s ≡ o))
                here (s, mine s i, f, e),
          )
    ]

    taken-Visited : Visited g (id ∷ passed) taken
    taken-Visited = record {
      owned = taken-owned;
      owner = taken-owner;
      blamed = λ p c h.
          let (m, m', b) = inv.blamed p c h in
          (
            inr m,
            inr m',
            record {
              victim_ref = b.victim_ref;
              survivor_ref = b.survivor_ref;
              of_victim = b.of_victim;
              of_survivor = b.of_survivor;
              victim_flat = b.victim_flat;
              survivor_flat = b.survivor_flat;
              differs = b.differs;
              survives = b.survives;
              object = b.object;
            },
          );
    }

  pub visit-Visited : Visited g (id ∷ passed) (visit g id st)
  unfolding visit
  visit-Visited = elim (Option-cases (find_conflict refs st.accepted)) [
    | inl e ↦
        let same : taken ≡ visit g id st = ground arith in
        subst (Visited g (id ∷ passed)) same (taken-Visited e)
    | inr ((flat, survivor), e) ↦
        let c = find_conflict-some refs st.accepted {flat = flat} {survivor = survivor} e in
        let same : rejected g id passed st fresh inv flat survivor c ≡ visit g id st =
          ground arith in
        subst (Visited g (id ∷ passed)) same
          (rejected-Visited g id passed st fresh inv flat survivor c)
  ]
