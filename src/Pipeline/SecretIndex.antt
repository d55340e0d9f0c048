-- ===== src/Pipeline/SecretIndex.antt =====
-- internal/pipeline/secretindex.go: which pipelines declare which Secrets, in both directions.
-- The mutex is not modelled: every method holds it for its whole body, so calls are sequential.
pub mod Laws
use vector_operator.Prelude.{
  ◌≡◌, Bool, true, false, ◌&&◌, ◌↔◌, Option, none, some, List, [], ◌∷◌, Eq, ◌==◌, arith,
  if◌then◌else◌,
}
use vector_operator.Dict.{Dict, lookup, insert, remove}
use vector_operator.Sets.{contains, add, discard, add_all}
use vector_operator.Text.{Text, text_beq, text_beq_iff}

-- types.NamespacedName
pub record NamespacedName : Type 0 where
  pub namespace : Text
  pub name : Text

abbrev pub name_beq : NamespacedName → NamespacedName → Bool
name_beq a b = text_beq a.namespace b.namespace && text_beq a.name b.name

pub name_beq_iff : (a b : NamespacedName) → (name_beq a b ≡ true) ↔ (a ≡ b)
name_beq_iff a b = ground (arith, text_beq_iff a.namespace b.namespace, text_beq_iff a.name b.name)

instance abbrev pub name_eq : Eq NamespacedName
name_eq = record { beq = name_beq; beq_iff = name_beq_iff }

pub record SecretIndex : Type 0 where
  pub pipeline_to_secrets : Dict NamespacedName (List NamespacedName)
  pub secret_to_pipelines : Dict NamespacedName (List NamespacedName)

unfoldable pub new_secret_index : SecretIndex
new_secret_index = record { pipeline_to_secrets = []; secret_to_pipelines = [] }

-- `m[k]`, where a missing key reads as the nil set
unfoldable pub members :
    NamespacedName → Dict NamespacedName (List NamespacedName) → List NamespacedName
members k m = elim (lookup k m) [ none ↦ [] | some s ↦ s ]

is_empty : List NamespacedName → Bool
is_empty [] = true
is_empty (_ ∷ _) = false

-- `delete(si.secretToPipelines[old], pipeline)`, and the entry goes when it was the last one
drop_link :
    NamespacedName
    → NamespacedName
    → Dict NamespacedName (List NamespacedName)
    → Dict NamespacedName (List NamespacedName)
drop_link pipeline old m =
    let left = discard pipeline (members old m) in
    if is_empty left then remove old m else insert old left m

-- the first loop of `Set`: the old links that the new set does not keep
unlink :
    NamespacedName
    → List NamespacedName
    → List NamespacedName
    → Dict NamespacedName (List NamespacedName)
    → Dict NamespacedName (List NamespacedName)
unlink pipeline new_set [] m = m
unlink pipeline new_set (old ∷ olds) m =
    unlink pipeline new_set olds (if contains old new_set then m else drop_link pipeline old m)

-- the second loop of `Set`
link :
    NamespacedName
    → List NamespacedName
    → Dict NamespacedName (List NamespacedName)
    → Dict NamespacedName (List NamespacedName)
link pipeline [] m = m
link pipeline (s ∷ ss) m = link pipeline ss (insert s (add pipeline (members s m)) m)

unfoldable pub set : SecretIndex → NamespacedName → List NamespacedName → SecretIndex
unfolding unlink link drop_link is_empty
set si pipeline secrets =
    let new_set = add_all secrets [] in
    let unlinked =
      unlink pipeline new_set (members pipeline si.pipeline_to_secrets) si.secret_to_pipelines in
    if is_empty new_set
    then record {
      pipeline_to_secrets = remove pipeline si.pipeline_to_secrets;
      secret_to_pipelines = unlinked;
    }
    else record {
      pipeline_to_secrets = insert pipeline new_set si.pipeline_to_secrets;
      secret_to_pipelines = link pipeline new_set unlinked;
    }

unfoldable pub pipelines_for : SecretIndex → NamespacedName → List NamespacedName
pipelines_for si secret = members secret si.secret_to_pipelines
