-- ===== src/Sort/Laws.antt =====
-- Sorting keeps the elements, and under a strict total order its result does not depend on the
-- order of the input.
use mathlib.Core.List.{Permᴰ}
use vector_operator.Prelude.{
  ◌≡◌, refl, Bool, true, false, List, [], ◌∷◌, In, Distinct, ◌⊎◌, inl, inr, arith, sym, ◌∙◌,
  Bool-cases,
}
use vector_operator.Sort.{insert_sorted, sort_by}

module _ {A : Type 0} (less : A → A → Bool) where
  pub In-insert_sorted :
      (a x : A) (l : List A)
      → (In a (insert_sorted less x l) → (a ≡ x) ⊎ In a l)
        × ((a ≡ x) ⊎ In a l → In a (insert_sorted less x l))
  unfolding insert_sorted
  In-insert_sorted a x [] = (λ m. m, λ m. m)
  In-insert_sorted a x (y ∷ ys) = elim (Bool-cases (less y x)) [
    | inl e ↦ rw e (
      λ m. elim m [
        | inl q ↦ inr (inl q)
        | inr r ↦ elim ((In-insert_sorted a x ys).0 r) [ inl q ↦ inl q | inr s ↦ inr (inr s) ]
      ],
      λ m. elim m [
        | inl q ↦ inr ((In-insert_sorted a x ys).1 (inl q))
        | inr r ↦ elim r [ inl q ↦ inl q | inr s ↦ inr ((In-insert_sorted a x ys).1 (inr s)) ]
      ],
    )
    | inr e ↦ rw e (λ m. m, λ m. m)
  ]

  pub In-sort_by :
      (a : A) (l : List A) → (In a (sort_by less l) → In a l) × (In a l → In a (sort_by less l))
  unfolding sort_by
  In-sort_by a [] = (λ m. m, λ m. m)
  In-sort_by a (x ∷ l) = (
    λ m. elim ((In-insert_sorted a x (sort_by less l)).0 m) [
      | inl e ↦ inl e
      | inr r ↦ inr ((In-sort_by a l).0 r)
    ],
    λ m.
        (In-insert_sorted a x (sort_by less l)).1
          (elim m [ inl e ↦ inl e | inr r ↦ inr ((In-sort_by a l).1 r) ]),
  )

  insert_sorted-Distinct :
      (x : A) (l : List A) → (¬ In x l) → Distinct l → Distinct (insert_sorted less x l)
  unfolding insert_sorted
  insert_sorted-Distinct x [] f d = (λ m. m, tt)
  insert_sorted-Distinct x (y ∷ ys) f d = elim (Bool-cases (less y x)) [
    | inl e ↦ rw e (
      λ m. elim ((In-insert_sorted y x ys).0 m) [ inl q ↦ f (inl (sym q)) | inr r ↦ d.0 r ],
      insert_sorted-Distinct x ys (λ m. f (inr m)) d.1,
    )
    | inr e ↦ rw e (f, d)
  ]

  pub sort_by-Distinct : (l : List A) → Distinct l → Distinct (sort_by less l)
  unfolding sort_by
  sort_by-Distinct [] d = tt
  sort_by-Distinct (x ∷ l) d =
      insert_sorted-Distinct x (sort_by less l) (λ m. d.0 ((In-sort_by x l).0 m))
        (sort_by-Distinct l d.1)

  -- a strict total order, by its Boolean test
  pub record IsStrictOrder : Type 0 where
    pub asym : (a b : A) → less a b ≡ true → less b a ≡ false
    pub trans : (a b c : A) → less a b ≡ true → less b c ≡ true → less a c ≡ true
    pub connex : (a b : A) → less a b ≡ false → less b a ≡ false → a ≡ b

  -- No element stands behind one that it is less than.
  abbrev pub NoneBelow : A → List A → Type 0
  NoneBelow x l = (y : A) → In y l → less y x ≡ false

  abbrev pub IsSorted : List A → Type 0
  IsSorted [] = Unit
  IsSorted (x ∷ l) = NoneBelow x l × IsSorted l

  module _ (o : IsStrictOrder) where
    insert_sorted_comm :
        (x y : A) (l : List A)
        → insert_sorted less x (insert_sorted less y l)
          ≡ insert_sorted less y (insert_sorted less x l)
    unfolding insert_sorted
    insert_sorted_comm x y [] = ground (arith, o.asym x y, o.asym y x, o.connex x y)
    insert_sorted_comm x y (z ∷ l) = ground (
      arith,
      insert_sorted_comm x y l,
      o.asym x y,
      o.connex x y,
      o.connex z x,
      o.connex z y,
      o.asym z x,
      o.asym z y,
      o.trans x y z,
      o.trans y x z,
      o.trans z x y,
      o.trans z y x,
    )

    -- Inputs that are permutations of one another sort to the same list.
    pub sort_by-Permᴰ : {xs ys : List A} → Permᴰ xs ys → sort_by less xs ≡ sort_by less ys
    unfolding sort_by
    sort_by-Permᴰ Permᴰ.nil = refl
    sort_by-Permᴰ (Permᴰ.cons e p) = cc (e, sort_by-Permᴰ p)
    sort_by-Permᴰ (Permᴰ.swap {a} {b} {a'} {b'} {l} e f) =
        rw (e, f) (insert_sorted_comm b' a' (sort_by less l))
    sort_by-Permᴰ (Permᴰ.trans p q) = sort_by-Permᴰ p ∙ sort_by-Permᴰ q

    insert_sorted-IsSorted : (x : A) (l : List A) → IsSorted l → IsSorted (insert_sorted less x l)
    unfolding insert_sorted
    insert_sorted-IsSorted x [] s = (λ y m. elim m [ ], tt)
    insert_sorted-IsSorted x (y ∷ l) s = elim (Bool-cases (less y x)) [
      | inl e ↦ rw e (
        λ z m. elim ((In-insert_sorted z x l).0 m) [
          | inl q ↦ rw q (o.asym y x e)
          | inr r ↦ s.0 z r
        ],
        insert_sorted-IsSorted x l s.1,
      )
      | inr e ↦ rw e (
        λ z m. elim m [
          | inl q ↦ rw q e
          | inr r ↦ ground (arith, s.0 z r, o.trans z x y, o.connex x y, o.asym x y)
        ],
        s,
      )
    ]

    pub sort_by-IsSorted : (l : List A) → IsSorted (sort_by less l)
    unfolding sort_by
    sort_by-IsSorted [] = tt
    sort_by-IsSorted (x ∷ l) = insert_sorted-IsSorted x (sort_by less l) (sort_by-IsSorted l)
