-- ===== src/Config/Secrets/Collisions/Step.antt =====
-- One round of the greedy pass keeps its invariant.
use vector_operator.Prelude.{
  ◌≡◌, refl, true, false, none, some, List, ◌∷◌, In, arith, sym, subst, Option-cases, Bool-cases,
  inl, inr, ◌==◌, if◌then◌else◌,
}
use vector_operator.Dict.{lookup, insert, lookup-insert}
use vector_operator.Text.{Text, text_eq, text_beq, text_beq_iff}
use vector_operator.Sort.{sort_by}
use vector_operator.Sort.Laws.{In-sort_by}
use vector_operator.Config.Secrets.Types.{PendingSecretRef}
use vector_operator.Config.Secrets.Gather.{Gathered}
use vector_operator.Config.Secrets.Collisions.{
  AcceptedOwner, Accepted, SecretCollision, owns_tuple, by_flat,
}
use vector_operator.Config.Secrets.Collisions.Claims.{Conflict}
use vector_operator.Config.Secrets.Collisions.Invariant.{own, Blame, Visited}

module _ (g : Gathered) (id : Text) (passed : List Text) (st : Accepted) (fresh : ¬ In id passed)
    (inv : Visited g passed st) where
  abbrev pub refs : List PendingSecretRef
  refs = sort_by by_flat (own g id)

  pub not_victim : lookup id st.victims ≡ none
  not_victim = elim (Option-cases (lookup id st.victims)) [
    | inl e ↦ e
    | inr (c, e) ↦ absurd (fresh (inv.blamed id c e).0)
  ]

  differs_from : (p : Text) → In p passed → text_beq id p ≡ false
  differs_from p m = elim (Bool-cases (text_beq id p)) [
    | inr e ↦ e
    | inl e ↦ absurd (fresh (rw ((text_beq_iff id p).0 e) m))
  ]

  module _ (flat survivor : Text) (c : Conflict refs st.accepted flat survivor) where
    abbrev pub blame : SecretCollision
    blame = record { victim = lookup id g.by_id; flat_key = flat; survivor = survivor }

    abbrev pub rejected : Accepted
    rejected = record st { victims = insert id blame st.victims }

    survivor_passed : In survivor passed
    survivor_passed = subst (λ x. In x passed) c.owner_id (inv.owner flat c.owner c.taken).0

    still_survives :
        (p : Text) → In p passed → lookup p st.victims ≡ none → lookup p rejected.victims ≡ none
    still_survives p m h = ground (arith, lookup-insert id p blame st.victims, differs_from p m)

    new_blame : Blame g rejected id blame
    new_blame =
        let (m, alive, w) = inv.owner flat c.owner c.taken in
        let (s, mine, f, e) = w in
        record {
          victim_ref = c.ref;
          survivor_ref = s;
          of_victim = (In-sort_by by_flat c.ref (own g id)).0 c.mine;
          of_survivor = subst (λ x. In s (own g x)) c.owner_id mine;
          victim_flat = c.flat_of;
          survivor_flat = f;
          differs = subst (λ (o : AcceptedOwner). owns_tuple o c.ref ≡ false) (sym e) c.differs;
          survives = still_survives survivor survivor_passed (rw (← c.owner_id) alive);
          object = refl;
        }

    old_claim :
        (p : Text) (d : SecretCollision)
        → In d.survivor passed
        → Blame g st p d
        → Blame g rejected p d
    old_claim p d m b = record {
      victim_ref = b.victim_ref;
      survivor_ref = b.survivor_ref;
      of_victim = b.of_victim;
      of_survivor = b.of_survivor;
      victim_flat = b.victim_flat;
      survivor_flat = b.survivor_flat;
      differs = b.differs;
      survives = still_survives d.survivor m b.survives;
      object = b.object;
    }

    rejected-lookup :
        (p : Text)
        → lookup p rejected.victims ≡ (if id == p then some blame else lookup p st.victims)
    rejected-lookup p = lookup-insert id p blame st.victims

    rejected-blamed :
        (p : Text) (d : SecretCollision)
        → lookup p rejected.victims ≡ some d
        → In p (id ∷ passed) × In d.survivor (id ∷ passed) × Blame g rejected p d
    rejected-blamed p d h = elim (Bool-cases (text_beq id p)) [
      | inr other ↦
          let (m, m', b) = inv.blamed p d (ground (arith, rejected-lookup p)) in
          (inr m, inr m', old_claim p d m' b)
      | inl same ↦
          let e : blame ≡ d = ground (arith, rejected-lookup p) in
          let i : id ≡ p = (text_beq_iff id p).0 same in
          subst (λ x. In x (id ∷ passed) × In d.survivor (id ∷ passed) × Blame g rejected x d) i
            (subst (λ x. In id (id ∷ passed) × In x.survivor (id ∷ passed) × Blame g rejected id x)
              e (inl refl, inr survivor_passed, new_blame))
    ]

    rejected-owned :
        (p : Text) (r : PendingSecretRef)
        → In p (id ∷ passed)
        → lookup p rejected.victims ≡ none
        → In r (own g p)
        → (o : AcceptedOwner) × (lookup r.flat rejected.accepted ≡ some o) × (owns_tuple o r ≡ true)
    rejected-owned p r (inl e) h m = absurd (ground (arith, rejected-lookup p, text_beq_iff id p))
    rejected-owned p r (inr i) h m =
        inv.owned p r i (ground (arith, rejected-lookup p, differs_from p i)) m

    pub rejected-Visited : Visited g (id ∷ passed) rejected
    rejected-Visited = record {
      owned = rejected-owned;
      owner =
          λ k o h. let (m, alive, s) = inv.owner k o h in (inr m, still_survives o.id m alive, s);
      blamed = rejected-blamed;
    }
