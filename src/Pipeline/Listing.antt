-- ===== src/Pipeline/Listing.antt =====
-- `listPipelines` of internal/pipeline/pipeline.go. The two `List` calls of the client are parameters:
-- the objects, or the error. `DeepCopy` gives an equal value.
pub mod Exact
use vector_operator.Prelude.{
  ◌≡◌, ◌↔◌, Bool, true, false, ◌&&◌, ◌||◌, not, Option, none, some, List, [], ◌++◌, keep, In-keep,
  In, In-append, In-append_left, In-append_right, arith, inl, inr, ◌⊎◌, Bool-cases, if◌then◌else◌,
  ◌==◌, subst, sym,
}
use vector_operator.Prelude.Result.{Result, ok, err, ◌>>=◌, >>=-eq-ok}
use vector_operator.Dict.{Dict}
use vector_operator.Text.{Text, text_eq}
use vector_operator.Api.{Pipeline, Role, agent, aggregator, unknown, is_valid, is_deleted, get_role}
use vector_operator.Pipeline.Labels.{match_labels}
use vector_operator.Pipeline.Merge.{role_beq}

pub data FilterScope : Type 0 where
  all_pipelines namespaced_pipeline cluster_pipelines : FilterScope

pub record FilterPipelines : Type 0 where
  pub scope : FilterScope
  pub selector : Option (Dict Text Text)
  pub role : Role
  pub namespace : Text

pub data ListError : Type 0 where
  namespace_not_specified : ListError
  list_failed : Text → ListError

abbrev pub lists_vps : FilterScope → Bool
lists_vps all_pipelines = true
lists_vps namespaced_pipeline = true
lists_vps cluster_pipelines = false

abbrev pub lists_cvps : FilterScope → Bool
lists_cvps all_pipelines = true
lists_cvps namespaced_pipeline = false
lists_cvps cluster_pipelines = true

abbrev pub any_namespace : FilterScope → Bool
any_namespace all_pipelines = true
any_namespace namespaced_pipeline = false
any_namespace cluster_pipelines = false

abbrev pub match_labels_of : FilterPipelines → Dict Text Text
match_labels_of f = elim f.selector [ none ↦ [] | some labels ↦ labels ]

-- the test of the loop over ClusterVectorPipelines
unfoldable pub takes_cvp : FilterPipelines → Bool → Pipeline → Bool
unfolding is_valid is_deleted get_role match_labels
takes_cvp f require_valid p =
    not (is_deleted p)
    && ((not require_valid || is_valid p)
        && (role_beq (get_role p) f.role && match_labels (match_labels_of f) p.labels))

-- the test of the loop over VectorPipelines
unfoldable pub takes_vp : FilterPipelines → Bool → Pipeline → Bool
unfolding takes_cvp
takes_vp f require_valid p =
    takes_cvp f require_valid p && (any_namespace f.scope || p.namespace == f.namespace)

module _ (vps cvps : Result ListError (List Pipeline)) where
  unfoldable pub list_vps : FilterPipelines → Bool → Result ListError (List Pipeline)
  unfolding takes_vp
  list_vps f require_valid =
      let listed = vps >>= λ ps. ok (keep (takes_vp f require_valid) ps) in
      if not (lists_vps f.scope)
      then ok []
      else if not (any_namespace f.scope) && f.namespace == []
      then err namespace_not_specified
      else listed

  unfoldable pub list_cvps : FilterPipelines → Bool → Result ListError (List Pipeline)
  unfolding takes_cvp
  list_cvps f require_valid =
      let listed = cvps >>= λ ps. ok (keep (takes_cvp f require_valid) ps) in
      if lists_cvps f.scope then listed else ok []

  unfoldable pub list_pipelines : FilterPipelines → Bool → Result ListError (List Pipeline)
  unfolding list_vps list_cvps
  list_pipelines f require_valid =
      list_vps f require_valid >>= λ a. list_cvps f require_valid >>= λ b. ok (a ++ b)

  abbrev pub get_valid_pipelines : FilterPipelines → Result ListError (List Pipeline)
  get_valid_pipelines f = list_pipelines f true

  abbrev pub get_all_pipelines : FilterPipelines → Result ListError (List Pipeline)
  get_all_pipelines f = list_pipelines f false
