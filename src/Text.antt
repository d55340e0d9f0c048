-- ===== src/Text.antt =====
-- Go strings as lists of bytes: equality, order, prefixes and replacement.
use vector_operator.Prelude.{
  ℕ, ◌≡◌, refl, ◌↔◌, Bool, true, false, ◌&&◌, List, [], ◌∷◌, ◌++◌, Eq, all, not, nat_beq_iff,
  nat_beq, arith, ltb, if◌then◌else◌,
}

abbrev pub Text : Type 0
Text = List ℕ

abbrev pub text_beq : Text → Text → Bool
text_beq [] [] = true
text_beq (a ∷ s) (b ∷ t) = nat_beq a b && text_beq s t
text_beq _ _ = false

pub text_beq_iff : (s t : Text) → (text_beq s t ≡ true) ↔ (s ≡ t)
text_beq_iff [] [] = ground arith
text_beq_iff [] (b ∷ t) = ground arith
text_beq_iff (a ∷ s) [] = ground arith
text_beq_iff (a ∷ s) (b ∷ t) = ground (arith, text_beq_iff s t)

instance abbrev pub text_eq : Eq Text
text_eq = record { beq = text_beq; beq_iff = text_beq_iff }

-- `s < t` on strings
unfoldable pub text_lt : Text → Text → Bool
text_lt [] [] = false
text_lt [] (b ∷ t) = true
text_lt (a ∷ s) [] = false
text_lt (a ∷ s) (b ∷ t) =
    let rest = text_lt s t in if ltb a b then true else if ltb b a then false else rest

-- `strings.HasPrefix`
unfoldable pub has_prefix : Text → Text → Bool
has_prefix s [] = true
has_prefix [] (b ∷ p) = false
has_prefix (a ∷ s) (b ∷ p) = nat_beq a b && has_prefix s p

pub text_lt_asym : (s t : Text) → text_lt s t ≡ true → text_lt t s ≡ false
unfolding text_lt
text_lt_asym [] [] h = cc
text_lt_asym [] (b ∷ t) h = refl
text_lt_asym (a ∷ s) [] h = cc
text_lt_asym (a ∷ s) (b ∷ t) h = ground (arith, text_lt_asym s t)

pub text_lt_trans : (s t u : Text) → text_lt s t ≡ true → text_lt t u ≡ true → text_lt s u ≡ true
unfolding text_lt
text_lt_trans [] [] u h k = cc
text_lt_trans (a ∷ s) [] u h k = cc
text_lt_trans [] (b ∷ t) [] h k = cc
text_lt_trans [] (b ∷ t) (c ∷ u) h k = refl
text_lt_trans (a ∷ s) (b ∷ t) [] h k = cc
text_lt_trans (a ∷ s) (b ∷ t) (c ∷ u) h k = ground (arith, text_lt_trans s t u)

pub text_lt_connex : (s t : Text) → text_lt s t ≡ false → text_lt t s ≡ false → s ≡ t
unfolding text_lt
text_lt_connex [] [] h k = refl
text_lt_connex [] (b ∷ t) h k = cc
text_lt_connex (a ∷ s) [] h k = cc
text_lt_connex (a ∷ s) (b ∷ t) h k = ground (arith, text_lt_connex s t)

-- no byte of the text is the separator
abbrev pub without : ℕ → Text → Bool
without sep = all (λ c. not (nat_beq c sep))

pub join-injective :
    (sep : ℕ) (a b x y : Text)
    → without sep a ≡ true
    → without sep b ≡ true
    → a ++ (sep ∷ x) ≡ b ++ (sep ∷ y)
    → (a ≡ b) × (x ≡ y)
join-injective sep [] [] x y p q h = (refl, ground arith)
join-injective sep [] (d ∷ b) x y p q h = absurd (ground (arith, nat_beq_iff d sep))
join-injective sep (c ∷ a) [] x y p q h = absurd (ground (arith, nat_beq_iff c sep))
join-injective sep (c ∷ a) (d ∷ b) x y p q h =
    let r = join-injective sep a b x y (ground arith) (ground arith) (ground arith) in
    (ground (arith, r.0), r.1)
