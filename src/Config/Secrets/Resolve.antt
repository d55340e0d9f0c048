-- ===== src/Config/Secrets/Resolve.antt =====
-- `resolvePendingSecrets` of internal/config/secrets.go, and the reading of one value that the
-- size pre-pass and the bridge share with it.
pub mod Reads
pub mod Invariant
pub mod Exact
use vector_operator.Prelude.{
  ◌≡◌, Bool, true, false, ◌&&◌, not, Option, none, some, List, [], ◌∷◌, ◌++◌, if◌then◌else◌,
}
use vector_operator.Prelude.Result.{Result, ok, err, ◌>>=◌}
use vector_operator.Dict.{Dict, lookup, insert}
use vector_operator.Text.{Text, text_eq, text_beq}
use vector_operator.Config.Secrets.Types.{
  Getter, Secret, PendingSecretRef, SecretError, flat_collision, get_failed, key_not_found,
  value_unsafe, secret_resolve, secret_size_data,
}
use vector_operator.Config.Secrets.Safety.{secret_value_safe_for_json_text}

unfoldable pub cache_key : PendingSecretRef → Text
cache_key ref = ref.resolve_ns ++ (b'/' ∷ ref.secret_name)

abbrev pub Cache : Type 0
Cache = Dict Text Secret

abbrev remember : Text → Cache → Secret → Secret × Cache
remember k cache secret = (secret, insert k secret cache)

-- the Secret of a reference: from the cache, or fetched and kept
unfoldable pub fetch :
    Getter
    → (SecretError → SecretError)
    → PendingSecretRef
    → Cache
    → Result SecretError (Secret × Cache)
unfolding cache_key
fetch getter wrap ref cache = elim (lookup (cache_key ref) cache) [
  | some secret ↦ ok (secret, cache)
  | none ↦ elim (getter ref.resolve_ns ref.secret_name) [
    | err e ↦ err (wrap (get_failed ref.resolve_ns ref.secret_name e))
    | ok secret ↦ ok (remember (cache_key ref) cache secret)
  ]
]

-- `val, ok := secret.Data[ref.key]`, and the guard on the value
unfoldable pub checked_value :
    (SecretError → SecretError) → PendingSecretRef → Secret → Result SecretError Text
checked_value wrap ref secret = elim (lookup ref.key secret.data_map) [
  | none ↦ err (wrap (key_not_found ref.resolve_ns ref.secret_name ref.key))
  | some val ↦
      if secret_value_safe_for_json_text val
      then ok val
      else err (wrap (value_unsafe ref.resolve_ns ref.secret_name ref.key))
]

-- the closure `valueOf` of `DetectSecretSizeOverflow` and of `BridgeAssets`
unfoldable pub value_of : Getter → PendingSecretRef → Cache → Result SecretError (Text × Cache)
unfolding fetch checked_value
value_of getter ref cache = fetch getter secret_size_data ref cache >>= λ r.
    checked_value secret_size_data ref r.0 >>= λ v. ok (v, r.1)

pub record ResolveState : Type 0 where
  pub cache : Cache
  pub assets : Dict Text Text
  pub origins : Dict Text PendingSecretRef

-- whether two references read the same key of the same Secret
abbrev pub same_tuple : PendingSecretRef → PendingSecretRef → Bool
same_tuple a b =
    text_beq a.resolve_ns b.resolve_ns
    && (text_beq a.secret_name b.secret_name && text_beq a.key b.key)

-- the first check of the loop body
unfoldable pub claim :
    PendingSecretRef → Dict Text PendingSecretRef → Result SecretError (Dict Text PendingSecretRef)
claim ref origins = elim (lookup ref.flat origins) [
  | none ↦ ok (insert ref.flat ref origins)
  | some origin ↦
      if same_tuple origin ref
      then ok origins
      else err (flat_collision ref.flat origin.pipeline ref.pipeline)
]

abbrev no_wrap : SecretError → SecretError
no_wrap e = e

unfoldable pub resolve_step :
    Getter → PendingSecretRef → ResolveState → Result SecretError ResolveState
unfolding claim fetch checked_value
resolve_step getter ref st = claim ref st.origins >>= λ origins.
    fetch getter secret_resolve ref st.cache >>= λ r. checked_value no_wrap ref r.0 >>= λ val.
    ok (record { cache = r.1; assets = insert ref.flat val st.assets; origins = origins })

unfoldable pub resolve_loop :
    Getter → List PendingSecretRef → ResolveState → Result SecretError ResolveState
unfolding resolve_step
resolve_loop getter [] st = ok st
resolve_loop getter (ref ∷ rest) st =
    resolve_step getter ref st >>= λ st'. resolve_loop getter rest st'

abbrev pub start : ResolveState
start = record { cache = []; assets = []; origins = [] }

-- the assets, and whether the secret section was set; with nothing pending, neither is touched
unfoldable pub resolve_pending_secrets :
    Getter → List PendingSecretRef → Result SecretError (Option (Dict Text Text))
unfolding resolve_loop
resolve_pending_secrets getter [] = ok none
resolve_pending_secrets getter (ref ∷ rest) =
    resolve_loop getter (ref ∷ rest) start >>= λ st. ok (some st.assets)
