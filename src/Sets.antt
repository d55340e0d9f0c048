-- ===== src/Sets.antt =====
-- Go sets, `map[K]struct{}`: a list of the members, with the operations the program uses.
use vector_operator.Prelude.{
  ◌≡◌, refl, Bool, false, not, ◌&&◌, ◌||◌, List, [], ◌∷◌, ◌++◌, Eq, ◌==◌, arith, if◌then◌else◌,
}

module _ {ℓ} {K : Type ℓ} ⦃e : Eq K⦄ where
  -- `_, ok := s[k]`
  unfoldable pub contains : K → List K → Bool
  contains k [] = false
  contains k (j ∷ s) = j == k || contains k s

  -- `s[k] = struct{}{}`
  unfoldable pub add : K → List K → List K
  unfolding contains
  add k s = if contains k s then s else s ++ k ∷ []

  -- `delete(s, k)`
  unfoldable pub discard : K → List K → List K
  discard k [] = []
  discard k (j ∷ s) = let rest = discard k s in if j == k then rest else j ∷ rest

  -- `for _, k := range ks { s[k] = struct{}{} }` on an empty map
  unfoldable pub add_all : List K → List K → List K
  unfolding add
  add_all [] s = s
  add_all (k ∷ ks) s = add_all ks (add k s)

  pub contains-append :
      (k : K) (s t : List K) → contains k (s ++ t) ≡ (contains k s || contains k t)
  unfolding contains
  contains-append k [] t = refl
  contains-append k (j ∷ s) t = ground (arith, contains-append k s t)

  pub contains-add : (k j : K) (s : List K) → contains j (add k s) ≡ (k == j || contains j s)
  unfolding add contains
  contains-add k j s = ground (arith, contains-append j s (k ∷ []), e.beq_iff k j)

  pub contains-discard :
      (k j : K) (s : List K) → contains j (discard k s) ≡ (not (k == j) && contains j s)
  unfolding contains discard
  contains-discard k j [] = ground arith
  contains-discard k j (i ∷ s) =
      ground (arith, e.beq_iff i k, e.beq_iff i j, e.beq_iff k j, contains-discard k j s)

  pub contains-add_all :
      (k : K) (ks s : List K) → contains k (add_all ks s) ≡ (contains k ks || contains k s)
  unfolding add_all contains
  contains-add_all k [] s = refl
  contains-add_all k (j ∷ ks) s =
      ground (arith, contains-add_all k ks (add j s), contains-add j k s)
