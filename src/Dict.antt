-- ===== src/Dict.antt =====
-- Go maps: an association list stands for the map, its order for the order of a `range` loop.
use vector_operator.Prelude.{
  ◌≡◌, refl, Bool, true, false, Option, none, some, List, [], ◌∷◌, Eq, ◌==◌, arith, In, Distinct,
  Bool-cases, sym, inl, inr, ◌⊎◌, if◌then◌else◌,
}

abbrev pub Dict {ℓ κ} : Type ℓ → Type κ → Type (ℓ ⊔ κ)
Dict K V = List (K × V)

module _ {ℓ κ} {K : Type ℓ} {V : Type κ} ⦃e : Eq K⦄ where
  -- `v, ok := m[k]`
  unfoldable pub lookup : K → Dict K V → Option V
  lookup k [] = none
  lookup k ((j, v) ∷ m) = if j == k then some v else lookup k m

  -- `_, ok := m[k]`
  unfoldable pub has : K → Dict K V → Bool
  has k [] = false
  has k ((j, v) ∷ m) = if j == k then true else has k m

  -- the keys, in the order of a `range` loop
  unfoldable pub keys : Dict K V → List K
  keys [] = []
  keys ((j, v) ∷ m) = j ∷ keys m

  -- `m[k] = v`
  unfoldable pub insert : K → V → Dict K V → Dict K V
  insert k v [] = (k, v) ∷ []
  insert k v ((j, w) ∷ m) = let rest = insert k v m in if j == k then (k, v) ∷ m else (j, w) ∷ rest

  -- `delete(m, k)`
  unfoldable pub remove : K → Dict K V → Dict K V
  remove k [] = []
  remove k ((j, w) ∷ m) = let rest = remove k m in if j == k then rest else (j, w) ∷ rest

  pub lookup-insert :
      (k j : K) (v : V) (m : Dict K V)
      → lookup j (insert k v m) ≡ (if k == j then some v else lookup j m)
  unfolding lookup insert
  lookup-insert k j v [] = refl
  lookup-insert k j v ((top, old) ∷ rest) =
      ground (arith, e.beq_iff top k, e.beq_iff top j, e.beq_iff k j, lookup-insert k j v rest)

  pub lookup-remove :
      (k j : K) (m : Dict K V) → lookup j (remove k m) ≡ (if k == j then none else lookup j m)
  unfolding lookup remove
  lookup-remove k j [] = ground arith
  lookup-remove k j ((i, w) ∷ m) =
      ground (arith, e.beq_iff k j, e.beq_iff i k, e.beq_iff i j, lookup-remove k j m)

-- Membership of keys, and keys without repetition.
module _ {K V : Type 0} ⦃e : Eq K⦄ where
  pub In-keys : (k : K) (m : Dict K V) {v : V} → lookup k m ≡ some v → In k (keys m)
  unfolding lookup keys
  In-keys k [] h = cc
  In-keys k ((j, w) ∷ m) {v} h = elim (Bool-cases (j == k)) [
    | inl same ↦ inl (sym ((e.beq_iff j k).0 same))
    | inr other ↦ inr (In-keys k m {v = v} (ground arith))
  ]

  pub In-keys-lookup : (k : K) (m : Dict K V) → In k (keys m) → (v : V) × (lookup k m ≡ some v)
  unfolding lookup keys
  In-keys-lookup k [] h = elim h [ ]
  In-keys-lookup k ((j, w) ∷ m) h = elim (Bool-cases (j == k)) [
    | inl same ↦ (w, rw same refl)
    | inr other ↦ elim h [
      | inl q ↦ absurd (ground (arith, e.beq_iff j k))
      | inr r ↦ rw other (In-keys-lookup k m r)
    ]
  ]

  pub In-keys-insert :
      (k j : K) (v : V) (m : Dict K V) → In j (keys (insert k v m)) → (j ≡ k) ⊎ In j (keys m)
  unfolding insert keys
  In-keys-insert k j v [] h = h
  In-keys-insert k j v ((i, w) ∷ m) h = elim (Bool-cases (i == k)) [
    | inl same ↦ let h' = rw same at h in elim h' [ inl q ↦ inl q | inr r ↦ inr (inr r) ]
    | inr other ↦
        let h' = rw other at h in
        elim h' [
          | inl q ↦ inr (inl q)
          | inr r ↦ elim (In-keys-insert k j v m r) [ inl q ↦ inl q | inr s ↦ inr (inr s) ]
        ]
  ]

  -- a map has each key once
  pub insert-Distinct :
      (k : K) (v : V) (m : Dict K V) → Distinct (keys m) → Distinct (keys (insert k v m))
  unfolding insert keys
  insert-Distinct k v [] d = (λ h. absurd h, tt)
  insert-Distinct k v ((i, w) ∷ m) d = elim (Bool-cases (i == k)) [
    | inl same ↦ rw same (rw ((e.beq_iff i k).0 same) at d)
    | inr other ↦ rw other (
      λ h. elim (In-keys-insert k i v m h) [
        | inl q ↦ cc (other, (e.beq_iff i k).1 q)
        | inr r ↦ d.0 r
      ],
      insert-Distinct k v m d.1,
    )
  ]
