-- ===== src/Config/Secrets/Collisions/Claims.antt =====
-- The two inner loops of `DetectSecretCollisions`: finding a conflict, and claiming keys.
use vector_operator.Prelude.{
  ◌≡◌, refl, true, false, none, some, List, [], ◌∷◌, In, arith, Option-cases, Bool-cases, inl, inr,
  ◌⊎◌, ◌==◌,
}
use vector_operator.Dict.{Dict, lookup, insert, lookup-insert}
use vector_operator.Text.{Text, text_eq, text_beq_iff}
use vector_operator.Config.Secrets.Types.{PendingSecretRef}
use vector_operator.Config.Secrets.Collisions.{
  AcceptedOwner, owns_tuple, find_conflict, owner_of, claim_all,
}

pub owns_tuple-owner_of : (id : Text) (r : PendingSecretRef) → owns_tuple (owner_of id r) r ≡ true
owns_tuple-owner_of id r = ground (
  arith,
  text_beq_iff r.resolve_ns r.resolve_ns,
  text_beq_iff r.secret_name r.secret_name,
  text_beq_iff r.key r.key,
)

-- a conflict that is found
pub record Conflict (refs : List PendingSecretRef) (accepted : Dict Text AcceptedOwner)
    (flat survivor : Text) : Type 0 where
  pub ref : PendingSecretRef
  pub owner : AcceptedOwner
  pub mine : In ref refs
  pub flat_of : ref.flat ≡ flat
  pub taken : lookup flat accepted ≡ some owner
  pub owner_id : owner.id ≡ survivor
  pub differs : owns_tuple owner ref ≡ false

Conflict-cons :
    {refs : List PendingSecretRef} {accepted : Dict Text AcceptedOwner} {flat survivor : Text}
    (r : PendingSecretRef)
    → Conflict refs accepted flat survivor
    → Conflict (r ∷ refs) accepted flat survivor
Conflict-cons r c = record {
  ref = c.ref;
  owner = c.owner;
  mine = inr c.mine;
  flat_of = c.flat_of;
  taken = c.taken;
  owner_id = c.owner_id;
  differs = c.differs;
}

pub find_conflict-some :
    (refs : List PendingSecretRef) (accepted : Dict Text AcceptedOwner) {flat survivor : Text}
    → find_conflict refs accepted ≡ some (flat, survivor)
    → Conflict refs accepted flat survivor
unfolding find_conflict
find_conflict-some [] accepted h = cc
find_conflict-some (ref ∷ refs) accepted {flat} {survivor} h =
    elim (Option-cases (lookup ref.flat accepted)) [
      | inl e ↦ Conflict-cons ref (find_conflict-some refs accepted (ground arith))
      | inr (o, e) ↦ elim (Bool-cases (owns_tuple o ref)) [
        | inl same ↦ Conflict-cons ref (find_conflict-some refs accepted (ground arith))
        | inr other ↦
            let f : ref.flat ≡ flat = ground arith in
            record {
              ref = ref;
              owner = o;
              mine = inl refl;
              flat_of = f;
              taken = rw f at e;
              owner_id = ground arith;
              differs = other;
            }
      ]
    ]

pub find_conflict-none :
    (refs : List PendingSecretRef) (accepted : Dict Text AcceptedOwner) (r : PendingSecretRef)
    {o : AcceptedOwner}
    → find_conflict refs accepted ≡ none
    → In r refs
    → lookup r.flat accepted ≡ some o
    → owns_tuple o r ≡ true
unfolding find_conflict
find_conflict-none [] accepted r h m e = elim m [ ]
find_conflict-none (ref ∷ refs) accepted r {o} h (inl q) e = ground arith
find_conflict-none (ref ∷ refs) accepted r {o} h (inr m) e =
    find_conflict-none refs accepted r (ground arith) m e

module _ (id : Text) where
  abbrev claim_one : PendingSecretRef → Dict Text AcceptedOwner → Dict Text AcceptedOwner
  claim_one ref accepted = elim (lookup ref.flat accepted) [
    | some _ ↦ accepted
    | none ↦ insert ref.flat (owner_of id ref) accepted
  ]

  pub claim_all-keeps :
      (refs : List PendingSecretRef) (accepted : Dict Text AcceptedOwner) (k : Text)
      {o : AcceptedOwner}
      → lookup k accepted ≡ some o
      → lookup k (claim_all id refs accepted) ≡ some o
  unfolding claim_all
  claim_all-keeps [] accepted k h = h
  claim_all-keeps (ref ∷ refs) accepted k {o} h =
      claim_all-keeps refs (claim_one ref accepted) k (
        ground
          (arith, lookup-insert ref.flat k (owner_of id ref) accepted, text_beq_iff ref.flat k))

  -- an owner after the loop was there before, or is this pipeline at one of its references
  pub claim_all-source :
      (refs : List PendingSecretRef) (accepted : Dict Text AcceptedOwner) (k : Text)
      {o : AcceptedOwner}
      → lookup k (claim_all id refs accepted) ≡ some o
      → (lookup k accepted ≡ some o)
        ⊎ ((s : PendingSecretRef) × In s refs × (s.flat ≡ k) × (owner_of id s ≡ o))
  unfolding claim_all
  claim_all-source [] accepted k h = inl h
  claim_all-source (ref ∷ refs) accepted k {o} h =
      elim (claim_all-source refs (claim_one ref accepted) k h) [
        | inr (s, m, f, e) ↦ inr (s, inr m, f, e)
        | inl l ↦ elim (Option-cases (lookup ref.flat accepted)) [
          | inr (p, e) ↦ inl (ground arith)
          | inl e ↦ elim (Bool-cases (ref.flat == k)) [
            | inr other ↦ inl (ground (arith, lookup-insert ref.flat k (owner_of id ref) accepted))
            | inl same ↦ inr (
              ref,
              inl refl,
              (text_beq_iff ref.flat k).0 same,
              ground (arith, lookup-insert ref.flat k (owner_of id ref) accepted),
            )
          ]
        ]
      ]

  -- after the loop every reference's key has an owner
  pub claim_all-present :
      (refs : List PendingSecretRef) (accepted : Dict Text AcceptedOwner) (r : PendingSecretRef)
      → In r refs
      → (o : AcceptedOwner) × (lookup r.flat (claim_all id refs accepted) ≡ some o)
  unfolding claim_all
  claim_all-present [] accepted r m = elim m [ ]
  claim_all-present (ref ∷ refs) accepted r (inr m) =
      claim_all-present refs (claim_one ref accepted) r m
  claim_all-present (ref ∷ refs) accepted r (inl e) =
      elim (Option-cases (lookup ref.flat accepted)) [
        | inr (o, l) ↦
            (o, claim_all-keeps refs (claim_one ref accepted) r.flat {o = o} (ground arith))
        | inl l ↦ (
          owner_of id ref,
          claim_all-keeps refs (claim_one ref accepted) r.flat {o = owner_of id ref} (
              ground (
                arith,
                lookup-insert ref.flat ref.flat (owner_of id ref) accepted,
                text_beq_iff ref.flat ref.flat,
              )),
        )
      ]
