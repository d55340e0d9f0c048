-- ===== src/Prelude/Lists.antt =====
-- Lists measured by native numbers, predicates on lists, and equality as an interface.
use Prim.Native.Nat.{ℕ, zero, suc, ◌+◌}
use Prim.Native.Char.{code}
use Prim.Native.String.{String}
use mathlib.Core.Path.{◌≡◌, refl, sym, subst}
use mathlib.Core.Logic.{◌↔◌, ◌⊎◌, inl, inr}
use mathlib.Core.Bool.{Bool, true, false, ◌&&◌, ◌||◌}
use mathlib.Core.List.{List, [], ◌∷◌, ◌++◌}
use native.Mathlib.Omega.{arith}
use vector_operator.Prelude.Tests.{Bool-cases, nat_beq, nat_beq_iff, if◌then◌else◌}

module _ {ℓ} {A : Type ℓ} where
  abbrev pub length : List A → ℕ
  length [] = 0
  length (x ∷ xs) = suc (length xs)

  pub length-append : (xs ys : List A) → length (xs ++ ys) ≡ length xs + length ys
  length-append [] ys = omega arith
  length-append (x ∷ xs) ys = omega (arith, length-append xs ys)

  -- `xs[:n]` and `xs[n:]`, up to the length
  abbrev pub take : ℕ → List A → List A
  take zero xs = []
  take (suc n) [] = []
  take (suc n) (x ∷ xs) = x ∷ take n xs

  abbrev pub drop : ℕ → List A → List A
  drop zero xs = xs
  drop (suc n) [] = []
  drop (suc n) (x ∷ xs) = drop n xs

  -- The elements that pass a test, in order.
  abbrev pub keep : (A → Bool) → List A → List A
  keep p [] = []
  keep p (x ∷ xs) = let rest = keep p xs in if p x then x ∷ rest else rest

  abbrev pub any : (A → Bool) → List A → Bool
  any p [] = false
  any p (x ∷ xs) = p x || any p xs

  abbrev pub all : (A → Bool) → List A → Bool
  all p [] = true
  all p (x ∷ xs) = p x && all p xs

  abbrev pub All {κ} : (A → Type κ) → List A → Type κ
  All P [] = Unit
  All P (x ∷ xs) = P x × All P xs

module _ {A : Type 0} where
  -- Membership by recursion, which the tactics take apart.
  abbrev pub In : A → List A → Type 0
  In a [] = ⊥
  In a (x ∷ xs) = (a ≡ x) ⊎ In a xs

  abbrev pub Distinct : List A → Type 0
  Distinct [] = Unit
  Distinct (x ∷ xs) = (¬ In x xs) × Distinct xs

  pub In-append_left : (a : A) (xs ys : List A) → In a xs → In a (xs ++ ys)
  In-append_left a (x ∷ xs) ys (inl e) = inl e
  In-append_left a (x ∷ xs) ys (inr m) = inr (In-append_left a xs ys m)
  In-append_left a [] ys m = elim m [ ]

  pub In-append_right : (a : A) (xs ys : List A) → In a ys → In a (xs ++ ys)
  In-append_right a [] ys m = m
  In-append_right a (x ∷ xs) ys m = inr (In-append_right a xs ys m)

  pub In-append : (a : A) (xs ys : List A) → In a (xs ++ ys) → In a xs ⊎ In a ys
  In-append a [] ys m = inr m
  In-append a (x ∷ xs) ys (inl e) = inl (inl e)
  In-append a (x ∷ xs) ys (inr m) = elim (In-append a xs ys m) [
    | inl h ↦ inl (inr h)
    | inr h ↦ inr h
  ]

  -- a list that a loop has passed, the last element first
  abbrev pub onto : List A → List A → List A
  onto [] passed = passed
  onto (r ∷ rs) passed = onto rs (r ∷ passed)

  pub In-onto :
      (r : A) (refs passed : List A)
      → (In r refs ⊎ In r passed → In r (onto refs passed))
        × (In r (onto refs passed) → In r refs ⊎ In r passed)
  In-onto r [] passed = (λ m. elim m [ inl f ↦ absurd f | inr x ↦ x ], inr)
  In-onto r (q ∷ refs) passed = (
    λ m.
        (In-onto r refs (q ∷ passed)).0
          (elim m [ inl i ↦ elim i [ inl e ↦ inr (inl e) | inr x ↦ inl x ] | inr x ↦ inr (inr x) ]),
    λ m. elim ((In-onto r refs (q ∷ passed)).1 m) [
      | inl x ↦ inl (inr x)
      | inr y ↦ elim y [ inl e ↦ inl (inl e) | inr x ↦ inr x ]
    ],
  )

-- Equality as an interface: the comparison of Go's `==` on comparable types.
pub record Eq {ℓ} (T : Type ℓ) : Type ℓ where
  pub beq : T → T → Bool
  pub beq_iff : (x y : T) → (beq x y ≡ true) ↔ (x ≡ y)

infix 50 ◌==◌
abbrev pub ◌==◌ {ℓ} : {T : Type ℓ} ⦃test : Eq T⦄ (x y : T) → Bool
◌==◌ ⦃test⦄ x y = test.beq x y

pub beq_refl {ℓ} : {A : Type ℓ} ⦃e : Eq A⦄ (a : A) → (a == a) ≡ true
beq_refl ⦃e⦄ a = (e.beq_iff a a).1 refl

instance abbrev pub nat_eq : Eq ℕ
nat_eq = record { beq = nat_beq; beq_iff = nat_beq_iff }

-- The bytes of a text, which is ASCII wherever a literal is written.
abbrev pub codes : String → List ℕ
codes String.[] = []
codes (String.◌∷◌ c s) = code c ∷ codes s

-- membership of what is kept
pub In-keep :
    {A : Type 0} (test : A → Bool) (a : A) (l : List A)
    → In a (keep test l) ↔ (In a l × (test a ≡ true))
In-keep test a [] = (λ m. absurd m, λ m. m.0)
In-keep test a (x ∷ l) =
    let (into, back) = In-keep test a l in
    elim (Bool-cases (test x)) [
      | inl y ↦ rw y (
        λ m. elim m [
          | inl e ↦ (inl e, subst (λ z. test z ≡ true) (sym e) y)
          | inr r ↦ (inr (into r).0, (into r).1)
        ],
        λ m. elim m.0 [ inl e ↦ inl e | inr r ↦ inr (back (r, m.1)) ],
      )
      | inr n ↦ rw n (
        λ m. (inr (into m).0, (into m).1),
        λ m. elim m.0 [
          | inl e ↦ absurd (let t : test x ≡ true = subst (λ z. test z ≡ true) e m.1 in cc (t, n))
          | inr r ↦ back (r, m.1)
        ],
      )
    ]

pub All-map :
    {A : Type 0} (P Q : A → Type 0) (l : List A) → ((a : A) → P a → Q a) → All P l → All Q l
All-map P Q [] f h = tt
All-map P Q (a ∷ l) f h = (f a h.0, All-map P Q l f h.1)
