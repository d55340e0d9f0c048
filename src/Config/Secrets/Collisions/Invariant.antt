-- ===== src/Config/Secrets/Collisions/Invariant.antt =====
-- The invariant of the greedy pass of `DetectSecretCollisions`.
use vector_operator.Prelude.{◌≡◌, true, false, none, some, List, [], In}
use vector_operator.Dict.{lookup}
use vector_operator.Text.{Text, text_eq}
use vector_operator.Config.Secrets.Types.{PendingSecretRef}
use vector_operator.Config.Secrets.Gather.{Gathered, refs_at}
use vector_operator.Config.Secrets.Collisions.{
  AcceptedOwner, Accepted, SecretCollision, owns_tuple, owner_of, none_accepted,
}

module _ (g : Gathered) where
  -- the references of a pipeline
  abbrev pub own : Text → List PendingSecretRef
  own id = refs_at id g.by_pipeline

  -- What is known of a victim: one of its references has its flat key taken, with another tuple,
  -- by a reference of a pipeline that was passed before and is no victim.
  pub record Blame (st : Accepted) (id : Text) (c : SecretCollision) : Type 0 where
    pub victim_ref : PendingSecretRef
    pub survivor_ref : PendingSecretRef
    pub of_victim : In victim_ref (own id)
    pub of_survivor : In survivor_ref (own c.survivor)
    pub victim_flat : victim_ref.flat ≡ c.flat_key
    pub survivor_flat : survivor_ref.flat ≡ c.flat_key
    pub differs : owns_tuple (owner_of c.survivor survivor_ref) victim_ref ≡ false
    pub survives : lookup c.survivor st.victims ≡ none
    pub object : c.victim ≡ lookup id g.by_id

  pub record Visited (passed : List Text) (st : Accepted) : Type 0 where
    pub owned :
        (id : Text) (r : PendingSecretRef)
        → In id passed
        → lookup id st.victims ≡ none
        → In r (own id)
        → (o : AcceptedOwner) × (lookup r.flat st.accepted ≡ some o) × (owns_tuple o r ≡ true)
    pub owner :
        (k : Text) (o : AcceptedOwner)
        → lookup k st.accepted ≡ some o
        → In o.id passed
          × (lookup o.id st.victims ≡ none)
          × ((s : PendingSecretRef) × In s (own o.id) × (s.flat ≡ k) × (owner_of o.id s ≡ o))
    pub blamed :
        (id : Text) (c : SecretCollision)
        → lookup id st.victims ≡ some c
        → In id passed × In c.survivor passed × Blame st id c

  pub none_accepted-Visited : Visited [] none_accepted
  unfolding lookup
  none_accepted-Visited = record {
    owned = λ id r m. elim m [ ];
    owner = λ k o h. cc;
    blamed = λ id c h. cc;
  }
