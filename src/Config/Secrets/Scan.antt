-- ===== src/Config/Secrets/Scan.antt =====
-- `scanAndRewriteSecretRefs` and `UsedSecretBackends` of internal/config/secrets.go.
pub mod Segments
pub mod Exact
use vector_operator.Prelude.{
  ℕ, ◌<◌, Bool, true, false, Option, none, some, List, [], ◌∷◌, ◌++◌, codes, ltb, length, all,
  if◌then◌else◌,
}
use vector_operator.Prelude.Result.{Result, ok, err, ◌>>=◌}
use vector_operator.Dict.{Dict, has}
use vector_operator.Text.{Text, text_eq}
use vector_operator.Api.{Backend}
use vector_operator.Config.Types.{Value, Items, Fields, str, other, arr, obj, nil, cons, end, field}
use vector_operator.Config.Names.{flat_key}
use vector_operator.Config.Secrets.Types.{
  Library, SecretRef, SecretError, not_declared, bad_key, key_too_long,
}
use Segments.{Segment, lit, ref, segments, is_key_char, reference}

-- `SecretsBackendName`
abbrev pub backend_name : Text
backend_name = codes "k8s"

-- the state of the callback: the references found so far, and the last error
pub record Found : Type 0 where
  pub refs : List SecretRef
  pub walk_err : Option SecretError

-- `pid` of the code: namespace/name, or the name of a cluster-scoped pipeline
unfoldable pub qualified : Text → Text → Text
qualified [] name = name
qualified (c ∷ ns) name = (c ∷ ns) ++ (b'/' ∷ name)

module _ (lib : Library) (ns name : Text) (declared : Dict Text Backend) where
  -- the callback of `ReplaceAllStringFunc` on one match
  unfoldable pub rewrite_match : Text → Text → Found → Text × Found
  unfolding qualified flat_key
  rewrite_match alias key found =
      let m = reference alias key in
      let flat = flat_key ns name alias key in
      if has alias declared
      then if all is_key_char key
        then if ltb lib.dns1123_subdomain_max_length (length flat)
          then (
            m,
            record found { walk_err = some (key_too_long (qualified ns name) alias key flat) },
          )
          else (
            reference backend_name flat,
            record found { refs = found.refs ++ record { alias = alias; key = key } ∷ [] },
          )
        else (m, record found { walk_err = some (bad_key m key) })
      else (m, record found { walk_err = some (not_declared m alias) })

  unfoldable pub rewrite_segments : List Segment → Found → Text × Found
  unfolding rewrite_match
  rewrite_segments [] found = ([], found)
  rewrite_segments (lit c ∷ rest) found =
      let (out, found') = rewrite_segments rest found in (c ∷ out, found')
  rewrite_segments (ref alias key ∷ rest) found =
      let (piece, found₁) = rewrite_match alias key found in
      let (out, found₂) = rewrite_segments rest found₁ in (piece ++ out, found₂)

  -- the `string` case of `walk`
  unfoldable pub walk_string : Text → List SecretRef → Result SecretError (Text × List SecretRef)
  unfolding rewrite_segments segments
  walk_string val refs =
      let (out, found) =
        rewrite_segments (segments val) (record { refs = refs; walk_err = none }) in
      elim found.walk_err [ none ↦ ok (out, found.refs) | some e ↦ err e ]

  unfoldable mutual
    unfolding walk_string

    pub walk : Value → List SecretRef → Result SecretError (Value × List SecretRef)
    walk (str s) refs = walk_string s refs >>= λ r. ok (str r.0, r.1)
    walk (other s) refs = ok (other s, refs)
    walk (arr xs) refs = walk_items xs refs >>= λ r. ok (arr r.0, r.1)
    walk (obj fs) refs = walk_fields fs refs >>= λ r. ok (obj r.0, r.1)

    pub walk_items : Items → List SecretRef → Result SecretError (Items × List SecretRef)
    walk_items nil refs = ok (nil, refs)
    walk_items (cons x xs) refs =
        walk x refs >>= λ r. walk_items xs r.1 >>= λ q. ok (cons r.0 q.0, q.1)

    pub walk_fields : Fields → List SecretRef → Result SecretError (Fields × List SecretRef)
    walk_fields end refs = ok (end, refs)
    walk_fields (field k x fs) refs =
        walk x refs >>= λ r. walk_fields fs r.1 >>= λ q. ok (field k r.0 q.0, q.1)

  -- `scanAndRewriteSecretRefs`: the options as rewritten in place, and the references
  unfoldable pub scan_and_rewrite_secret_refs :
      Fields → Result SecretError (Fields × List SecretRef)
  unfolding walk_fields
  scan_and_rewrite_secret_refs options = walk_fields options []
