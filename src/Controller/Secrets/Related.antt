-- ===== src/Controller/Secrets/Related.antt =====
-- `resolveRelatedSecrets`, `relatedSecretsToken` and `relatedSecretsHashEqual` of
-- internal/controller/secrets.go. The SHA-256 sum is a parameter.
pub mod Framing
pub mod Refs
use vector_operator.Prelude.{
  ℕ, zero, suc, ◌+◌, ◌-◌, ◌*◌, ◌/◌, ◌%◌, Bool, true, false, not, ◌&&◌, Option, none, some, List, [],
  ◌∷◌, ◌++◌, map, keep, length, take, ltb, if◌then◌else◌,
}
use vector_operator.Prelude.Int.{ℤ, pos, negsuc}
use vector_operator.Prelude.Result.{Result, ok, err, ◌>>=◌}
use vector_operator.Dict.{Dict, keys}
use vector_operator.Text.{Text, text_eq}
use vector_operator.Sets.{contains, add}
use vector_operator.Sort.{sort_texts}
use vector_operator.Api.{Backend, Pipeline, is_vp}
use vector_operator.Pipeline.SecretIndex.{NamespacedName, name_eq}
use vector_operator.Pipeline.Merge.{int_beq}
use vector_operator.Config.Secrets.Process.{declared_backend, text_is_empty}

-- corev1.ObjectReference, by the fields that are set
pub record ObjectReference : Type 0 where
  pub namespace : Text
  pub name : Text
  pub uid : Text
  pub resource_version : Text

-- `Get` of the uncached client, by the identity of the Secret that it reads
abbrev pub Reader : Type 0
Reader = NamespacedName → Result Text ObjectReference

-- the errors, each with what its message carries; the two shapes are invalidSecretShapeError
pub data RelatedError : Type 0 where
  unsupported_context : Text → RelatedError
  shape_not_allowed : Text → RelatedError
  shape_required : Text → RelatedError
  secret_get_failed : NamespacedName → Text → RelatedError

unfoldable pub is_shape_error : RelatedError → Bool
is_shape_error (shape_not_allowed alias) = true
is_shape_error (shape_required alias) = true
is_shape_error _ = false

-- `binary.BigEndian.PutUint64`, for `w` bytes
unfoldable pub big_endian : ℕ → ℕ → Text
big_endian zero v = []
big_endian (suc w) v = big_endian w (v / 256) ++ (v % 256 ∷ [])

-- `binary.BigEndian.Uint64` on the bytes after those read so far
unfoldable pub read_big_endian : ℕ → Text → ℕ
read_big_endian v [] = v
read_big_endian v (b ∷ s) = read_big_endian (v * 256 + b) s

-- `int64(u)` of an unsigned number of 64 bits
unfoldable pub to_int64 : ℕ → ℤ
to_int64 u = if ltb u 9223372036854775808 then pos u else negsuc (18446744073709551615 - u)

unfoldable pub append_field : Text → Text
unfolding big_endian
append_field s = big_endian 8 (length s) ++ s

unfoldable pub frame : List ObjectReference → Text
unfolding append_field
frame [] = []
frame (id ∷ ids) =
    append_field id.namespace
    ++ (append_field id.name
        ++ (append_field id.uid ++ (append_field id.resource_version ++ frame ids)))

unfoldable pub related_secrets_token : (Text → Text) → List ObjectReference → Option ℤ
unfolding frame to_int64 read_big_endian
related_secrets_token sha256 [] = none
related_secrets_token sha256 (id ∷ ids) =
    some (to_int64 (read_big_endian 0 (take 8 (sha256 (frame (id ∷ ids))))))

unfoldable pub related_secrets_hash_equal : Option ℤ → Option ℤ → Bool
related_secrets_hash_equal none none = true
related_secrets_hash_equal (some a) (some b) = int_beq a b
related_secrets_hash_equal _ _ = false

-- what is returned: the identities, the token, and the error
pub record Related : Type 0 where
  pub refs : List NamespacedName
  pub token : Option ℤ
  pub error : Option RelatedError

-- the first loop, on the sorted aliases
unfoldable pub check_shapes : Bool → Dict Text Backend → List Text → Option RelatedError
unfolding declared_backend
check_shapes vp declared [] = none
check_shapes vp declared (alias ∷ aliases) =
    let backend = declared_backend alias declared in
    let later = check_shapes vp declared aliases in
    if vp && not (text_is_empty backend.namespace)
    then some (shape_not_allowed alias)
    else if not vp && text_is_empty backend.namespace
    then some (shape_required alias)
    else later

unfoldable pub ref_of : Pipeline → Text → NamespacedName
unfolding declared_backend
ref_of p alias =
    let backend = declared_backend alias p.spec.secret in
    record { namespace = if is_vp p then p.namespace else backend.namespace; name = backend.name }

-- the loop that drops repeated identities
unfoldable pub refs_from : Pipeline → List Text → List NamespacedName → List NamespacedName
unfolding add ref_of
refs_from p [] refs = refs
refs_from p (alias ∷ aliases) refs = refs_from p aliases (add (ref_of p alias) refs)

unfoldable pub read_identities :
    Reader → List NamespacedName → Result RelatedError (List ObjectReference)
read_identities reader [] = ok []
read_identities reader (ref ∷ refs) = elim (reader ref) [
  | err e ↦ err (secret_get_failed ref e)
  | ok id ↦ read_identities reader refs >>= λ ids. ok (id ∷ ids)
]

abbrev pub nothing_related : Related
nothing_related = record { refs = []; token = none; error = none }

-- what the loop of reads ends in, for the identities that it was given
unfoldable pub related_of :
    (Text → Text) → List NamespacedName → Result RelatedError (List ObjectReference) → Related
unfolding related_secrets_token
related_of sha256 refs (err e) = record { refs = refs; token = none; error = some e }
related_of sha256 refs (ok ids) = record {
  refs = refs;
  token = related_secrets_token sha256 ids;
  error = none;
}

-- the declared aliases in ascending order, and those of them that are used
unfoldable pub declared_aliases : Pipeline → List Text
unfolding sort_texts keys
declared_aliases p = sort_texts (keys p.spec.secret)

unfoldable pub used_aliases : Pipeline → List Text → List Text
unfolding declared_aliases contains
used_aliases p used = keep (λ alias. contains alias used) (declared_aliases p)

unfoldable pub related_refs : Pipeline → List Text → List NamespacedName
unfolding refs_from used_aliases
related_refs p used = refs_from p (used_aliases p used) []

module _ (sha256 : Text → Text) where
  -- from the used aliases on
  unfoldable pub resolve_used : Reader → Pipeline → List Text → Related
  unfolding refs_from read_identities related_of
  resolve_used get p [] = nothing_related
  resolve_used get p (alias ∷ aliases) =
      let refs = refs_from p (alias ∷ aliases) [] in
      related_of sha256 refs (read_identities get refs)

  -- after the first loop
  unfoldable pub resolve_shaped : Reader → Pipeline → List Text → Option RelatedError → Related
  unfolding used_aliases resolve_used
  resolve_shaped get p used (some e) = record nothing_related { error = some e }
  resolve_shaped get p used none = resolve_used get p (used_aliases p used)

  unfoldable pub resolve_declared :
      Option Reader → Pipeline → List Text → Dict Text Backend → Related
  unfolding resolve_shaped check_shapes declared_aliases
  resolve_declared reader p used [] = nothing_related
  resolve_declared none p used (d ∷ declared) = record nothing_related {
    error = some (unsupported_context p.name);
  }
  resolve_declared (some get) p used (d ∷ declared) =
      resolve_shaped get p used (check_shapes (is_vp p) p.spec.secret (declared_aliases p))

  unfoldable pub resolve_related_secrets : Option Reader → Pipeline → List Text → Related
  unfolding resolve_declared
  resolve_related_secrets reader p used = resolve_declared reader p used p.spec.secret
