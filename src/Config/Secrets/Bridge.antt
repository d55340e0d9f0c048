-- ===== src/Config/Secrets/Bridge.antt =====
-- `BridgeAssets` of internal/config/secrets.go. Totals and deltas are Go's signed integers.
pub mod Rollback
pub mod Totals
use vector_operator.Prelude.{
  ℕ, ◌+◌, Bool, true, false, ◌||◌, Option, none, some, List, [], ◌∷◌, ◌++◌, length, if◌then◌else◌,
}
use vector_operator.Prelude.Int.{ℤ, pos, ◌+ℤ◌, ◌-ℤ◌, ltb_ℤ}
use vector_operator.Prelude.Result.{Result, ok, err, ◌>>=◌}
use vector_operator.Dict.{Dict, lookup, insert, remove}
use vector_operator.Sets.{contains, add}
use vector_operator.Text.{Text, text_eq}
use vector_operator.Api.{Pipeline}
use vector_operator.Config.Secrets.Types.{Library, Getter, Secret, PendingSecretRef, SecretError}
use vector_operator.Config.Secrets.Resolve.{Cache, value_of}
use vector_operator.Config.Secrets.Gather.{Gathered, refs_at, gather_pending_secrets_by_pipeline}
use vector_operator.Config.Secrets.Size.{
  secret_data_size, secret_data_entry_size, secret_object_size, secret_assets_object_budget,
}

abbrev pub Assets : Type 0
Assets = Dict Text Text

-- the loop that reads the values of a pipeline, each flat key once
unfoldable pub tentative_values :
    Getter
    → List PendingSecretRef
    → List Text
    → Assets
    → Cache
    → Result SecretError (Assets × Cache)
tentative_values getter [] seen tentative cache = ok (tentative, cache)
tentative_values getter (ref ∷ refs) seen tentative cache =
    let skip = tentative_values getter refs seen tentative cache in
    let read = value_of getter ref cache >>= λ r.
    tentative_values getter refs (add ref.flat seen) (insert ref.flat r.0 tentative) r.1 in
    if contains ref.flat seen then skip else read

-- the bridge data while one pipeline is applied: what the keys held before, and the two deltas
pub record Applied : Type 0 where
  pub bridge : Assets
  pub prior : Dict Text (Option Text)
  pub values_delta : ℤ
  pub object_delta : ℤ

-- nothing applied yet
abbrev pub before : Assets → Applied
before m = record { bridge = m; prior = []; values_delta = pos 0; object_delta = pos 0 }

module _ (lib : Library) where
  -- what an entry that is replaced gives back
  unfoldable pub refund : Text → Option Text → Applied → Applied
  refund k none a = a
  refund k (some old) a = record a {
    values_delta = a.values_delta -ℤ pos (length old);
    object_delta = a.object_delta -ℤ pos (secret_data_entry_size lib k old);
  }

  unfoldable pub apply_entry : Text → Text → Applied → Applied
  unfolding refund
  apply_entry k v a =
      let old = lookup k a.bridge in
      let b = refund k old a in
      record {
        bridge = insert k v a.bridge;
        prior = insert k old a.prior;
        values_delta = b.values_delta +ℤ pos (length v);
        object_delta = b.object_delta +ℤ pos (secret_data_entry_size lib k v);
      }

  unfoldable pub apply_entries : Assets → Applied → Applied
  unfolding apply_entry
  apply_entries [] a = a
  apply_entries ((k, v) ∷ rest) a = apply_entries rest (apply_entry k v a)

-- `if p.existed { bridgeData[k] = p.value } else { delete(bridgeData, k) }`
unfoldable pub restore : Text → Option Text → Assets → Assets
restore k none bridge = remove k bridge
restore k (some old) bridge = insert k old bridge

unfoldable pub rollback : Dict Text (Option Text) → Assets → Assets
unfolding restore
rollback [] bridge = bridge
rollback ((k, old) ∷ prior) bridge = rollback prior (restore k old bridge)

pub record Bridge : Type 0 where
  pub bridge : Assets
  pub values_total : ℤ
  pub object_total : ℤ
  pub cache : Cache
  pub waiting : List (Option Pipeline)

module _ (lib : Library) (getter : Getter) where
  unfoldable pub over_budget : ℤ → ℤ → Bool
  unfolding secret_assets_object_budget
  over_budget values object =
      ltb_ℤ (pos lib.max_secret_size) values || ltb_ℤ (pos (secret_assets_object_budget lib)) object

  -- the body of the loop, after the values have been read
  unfoldable pub stage : Option Pipeline → Assets → Cache → Bridge → Bridge
  unfolding apply_entries rollback over_budget
  stage pipeline tentative cache b =
      let a = apply_entries lib tentative (before b.bridge) in
      let values = b.values_total +ℤ a.values_delta in
      let object = b.object_total +ℤ a.object_delta in
      if over_budget values object
      then record b {
        bridge = rollback a.prior a.bridge;
        cache = cache;
        waiting = b.waiting ++ pipeline ∷ [];
      }
      else record b {
        bridge = a.bridge;
        values_total = values;
        object_total = object;
        cache = cache;
      }

  unfoldable pub bridge_pipeline : Gathered → Text → Bridge → Result SecretError Bridge
  unfolding stage tentative_values refs_at
  bridge_pipeline g id b = tentative_values getter (refs_at id g.by_pipeline) [] [] b.cache >>= λ r.
      ok (stage (lookup id g.by_id) r.0 r.1 b)

  unfoldable pub bridge_all : Gathered → List Text → Bridge → Result SecretError Bridge
  unfolding bridge_pipeline
  bridge_all g [] b = ok b
  bridge_all g (id ∷ ids) b = bridge_pipeline g id b >>= λ b'. bridge_all g ids b'

  unfoldable pub opening : Option Secret → Assets → Bridge
  unfolding secret_data_size secret_object_size
  opening prototype existing = record {
    bridge = existing;
    values_total = pos (secret_data_size existing);
    object_total = pos (secret_object_size lib prototype existing);
    cache = [];
    waiting = [];
  }

  -- the data to stage, and the pipelines that wait
  unfoldable pub bridge_assets :
      Option Secret → Assets → List Pipeline → Result SecretError (Assets × List (Option Pipeline))
  unfolding bridge_all opening
  bridge_assets prototype existing [] = ok (existing, [])
  bridge_assets prototype existing (p ∷ ps) =
      gather_pending_secrets_by_pipeline lib (some getter) (p ∷ ps) >>= λ g.
      bridge_all g g.ordered_ids (opening prototype existing) >>= λ b. ok (b.bridge, b.waiting)
