-- ===== src/Pipeline/Labels.antt =====
-- internal/utils/k8s/label.go: `MatchLabels` and `MergeLabels`. A missing label reads as "".
use vector_operator.Prelude.{
  ◌≡◌, refl, Bool, true, false, none, some, [], ◌∷◌, ◌==◌, if◌then◌else◌, arith,
}
use vector_operator.Dict.{Dict, lookup, has, insert, lookup-insert}
use vector_operator.Text.{Text, text_eq, text_beq_iff}

-- `labels[k]`
unfoldable pub label_at : Text → Dict Text Text → Text
label_at k labels = elim (lookup k labels) [ none ↦ [] | some v ↦ v ]

unfoldable pub match_labels : Dict Text Text → Dict Text Text → Bool
unfolding label_at
match_labels [] labels = true
match_labels ((k, v) ∷ selector) labels =
    let rest = match_labels selector labels in if label_at k labels == v then rest else false

-- the loop over `src`; a nil map is an empty one
unfoldable pub merge_labels : Dict Text Text → Dict Text Text → Dict Text Text
merge_labels dst [] = dst
merge_labels dst ((k, v) ∷ src) = merge_labels (if has k dst then dst else insert k v dst) src

has-lookup :
    (k : Text) (m : Dict Text Text)
    → has k m ≡ (elim (lookup k m) as (λ _. Bool) [ none ↦ false | some _ ↦ true ])
unfolding has lookup
has-lookup k [] = refl
has-lookup k ((j, v) ∷ m) = ground (arith, has-lookup k m)

-- A key of a merge has the destination's value if the destination has the key, and the source's
-- first value otherwise.
pub lookup-merge_labels :
    (j : Text) (dst src : Dict Text Text)
    → lookup j (merge_labels dst src) ≡ (if has j dst then lookup j dst else lookup j src)
unfolding merge_labels lookup has
lookup-merge_labels j dst [] = ground (arith, has-lookup j dst)
lookup-merge_labels j dst ((k, v) ∷ src) = ground (
  arith,
  lookup-merge_labels j (if has k dst then dst else insert k v dst) src,
  lookup-insert k j v dst,
  has-lookup j dst,
  has-lookup k dst,
  has-lookup j (insert k v dst),
  text_beq_iff k j,
)
