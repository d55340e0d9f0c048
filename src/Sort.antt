-- ===== src/Sort.antt =====
-- Go's `sort.Slice` and `sort.Strings`. The result of `sort.Slice` is determined by its comparison
-- where no two elements are equal under it; elsewhere this sort keeps their order.
pub mod Laws
use vector_operator.Prelude.{Bool, List, [], ◌∷◌, if◌then◌else◌}
use vector_operator.Text.{Text, text_lt}

module _ {ℓ} {A : Type ℓ} (less : A → A → Bool) where
  unfoldable pub insert_sorted : A → List A → List A
  insert_sorted x [] = x ∷ []
  insert_sorted x (y ∷ ys) =
      let rest = insert_sorted x ys in if less y x then y ∷ rest else x ∷ y ∷ ys

  unfoldable pub sort_by : List A → List A
  unfolding insert_sorted
  sort_by [] = []
  sort_by (x ∷ xs) = insert_sorted x (sort_by xs)

unfoldable pub sort_texts : List Text → List Text
unfolding sort_by text_lt
sort_texts = sort_by text_lt
