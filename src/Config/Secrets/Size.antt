-- ===== src/Config/Secrets/Size.antt =====
-- The size model and `DetectSecretSizeOverflow` of internal/config/secrets.go.
use vector_operator.Prelude.{
  ℕ, ◌+◌, ◌-◌, Bool, true, false, Option, none, some, List, [], ◌∷◌, ◌++◌, ltb, length,
  if◌then◌else◌,
}
use vector_operator.Prelude.Result.{Result, ok, ◌>>=◌}
use vector_operator.Dict.{Dict, lookup}
use vector_operator.Sets.{contains, add}
use vector_operator.Text.{Text, text_eq, text_lt}
use vector_operator.Sort.{sort_by}
use vector_operator.Api.{Pipeline}
use vector_operator.Config.Secrets.Types.{Library, Getter, Secret, PendingSecretRef, SecretError}
use vector_operator.Config.Secrets.Process.{pipeline_id}
use vector_operator.Config.Secrets.Resolve.{Cache, value_of}
use vector_operator.Config.Secrets.Gather.{Gathered, refs_at, gather_pending_secrets_by_pipeline}

-- `etcdDefaultMaxRequestBytes` and `wrapperReserve`
abbrev etcd_default_max_request_bytes : ℕ
etcd_default_max_request_bytes = 1572864

abbrev wrapper_reserve : ℕ
wrapper_reserve = 65536

-- the Secret that Go writes `&corev1.Secret{}`
abbrev empty_secret : Secret
empty_secret = record { meta = []; data_map = [] }

-- `secretDataSize`: the values alone
unfoldable pub secret_data_size : Dict Text Text → ℕ
secret_data_size [] = 0
secret_data_size ((k, v) ∷ m) = length v + secret_data_size m

-- A constant expression in Go, which has to be positive there; the reserve is `lib`'s
-- `TotalAnnotationSizeLimitB` and 64 KiB.
unfoldable pub secret_assets_object_budget : Library → ℕ
secret_assets_object_budget lib =
    etcd_default_max_request_bytes - lib.total_annotation_size_limit - wrapper_reserve

module _ (lib : Library) where
  -- the size of the assets Secret with no data; `StringData` is part of `meta` and empty there
  unfoldable pub secret_object_base_size : Option Secret → ℕ
  secret_object_base_size none = lib.secret_size empty_secret
  secret_object_base_size (some prototype) = lib.secret_size (record prototype { data_map = [] })

  unfoldable pub secret_data_entry_size : Text → Text → ℕ
  secret_data_entry_size key value =
      lib.secret_size (record empty_secret { data_map = (key, value) ∷ [] })
      - lib.secret_size empty_secret

  unfoldable pub entries_size : Dict Text Text → ℕ
  unfolding secret_data_entry_size
  entries_size [] = 0
  entries_size ((k, v) ∷ m) = secret_data_entry_size k v + entries_size m

  unfoldable pub secret_object_size : Option Secret → Dict Text Text → ℕ
  unfolding secret_object_base_size entries_size
  secret_object_size prototype assets = secret_object_base_size prototype + entries_size assets

pub record SecretSizeExclusion : Type 0 where
  pub victim : Option Pipeline
  pub accepted_total : ℕ
  pub pipeline_bytes : ℕ
  pub object_budget : Bool
  pub accepted_object_bytes : ℕ
  pub pipeline_object_bytes : ℕ

-- the references of a pipeline once each, without those that are accepted already
unfoldable own_refs : List PendingSecretRef → List Text → List Text → List PendingSecretRef
own_refs [] seen accepted = []
own_refs (ref ∷ refs) seen accepted =
    let rest =
      own_refs refs (if contains ref.flat seen then seen else add ref.flat seen) accepted in
    if contains ref.flat seen then rest else if contains ref.flat accepted then rest else ref ∷ rest

record Cost : Type 0 where
  pub bytes : ℕ
  pub object_bytes : ℕ
  pub cache : Cache

record Ledger : Type 0 where
  pub accepted : List Text
  pub total : ℕ
  pub object_total : ℕ
  pub cache : Cache
  pub exclusions : List SecretSizeExclusion

unfoldable add_flats : List PendingSecretRef → List Text → List Text
add_flats [] accepted = accepted
add_flats (ref ∷ refs) accepted = add_flats refs (add ref.flat accepted)

-- an exclusion is appended, for one of the two budgets
unfoldable exclude : Option Pipeline → Bool → Cost → Ledger → Ledger
exclude victim object cost l = record l {
  cache = cost.cache;
  exclusions =
      l.exclusions
      ++ record {
        victim = victim;
        accepted_total = l.total;
        pipeline_bytes = cost.bytes;
        object_budget = object;
        accepted_object_bytes = if object then l.object_total else 0;
        pipeline_object_bytes = if object then cost.object_bytes else 0;
      }
        ∷ [];
}

unfoldable charge : List PendingSecretRef → Cost → Ledger → Ledger
unfolding add_flats
charge own cost l = record l {
  accepted = add_flats own l.accepted;
  total = l.total + cost.bytes;
  object_total = l.object_total + cost.object_bytes;
  cache = cost.cache;
}

module _ (lib : Library) (getter : Getter) where
  -- the loop that reads and adds up the values of a pipeline
  unfoldable cost_of : List PendingSecretRef → Cost → Result SecretError Cost
  unfolding secret_data_entry_size
  cost_of [] c = ok c
  cost_of (ref ∷ refs) c = value_of getter ref c.cache >>= λ r. cost_of refs (record {
    bytes = c.bytes + length r.0;
    object_bytes = c.object_bytes + secret_data_entry_size lib ref.flat r.0;
    cache = r.1;
  })

  -- the values budget first, then the object budget
  unfoldable settle : Option Pipeline → List PendingSecretRef → Cost → Ledger → Ledger
  unfolding exclude charge secret_assets_object_budget
  settle victim own cost l =
      if ltb lib.max_secret_size (l.total + cost.bytes)
      then exclude victim false cost l
      else if ltb (secret_assets_object_budget lib) (l.object_total + cost.object_bytes)
      then exclude victim true cost l
      else charge own cost l

  unfoldable assess : Gathered → Text → Ledger → Result SecretError Ledger
  unfolding own_refs cost_of settle refs_at
  assess g id l =
      let own = own_refs (refs_at id g.by_pipeline) [] l.accepted in
      cost_of own (record { bytes = 0; object_bytes = 0; cache = l.cache }) >>= λ cost.
      ok (settle (lookup id g.by_id) own cost l)

  unfoldable assess_all : Gathered → List Text → Ledger → Result SecretError Ledger
  unfolding assess
  assess_all g [] l = ok l
  assess_all g (id ∷ ids) l = assess g id l >>= λ l'. assess_all g ids l'

  unfoldable opening_ledger : Option Secret → Ledger
  unfolding secret_object_base_size
  opening_ledger prototype = record {
    accepted = [];
    total = 0;
    object_total = secret_object_base_size lib prototype;
    cache = [];
    exclusions = [];
  }

-- the ID by which exclusions are sorted
unfoldable victim_id : SecretSizeExclusion → Text
unfolding pipeline_id
victim_id e = elim e.victim [ none ↦ [] | some p ↦ pipeline_id p ]

unfoldable by_victim : SecretSizeExclusion → SecretSizeExclusion → Bool
unfolding victim_id text_lt
by_victim a b = text_lt (victim_id a) (victim_id b)

unfoldable pub detect_secret_size_overflow :
    Library → Getter → Option Secret → List Pipeline → Result SecretError (List SecretSizeExclusion)
unfolding assess_all opening_ledger sort_by by_victim
detect_secret_size_overflow lib getter prototype [] = ok []
detect_secret_size_overflow lib getter prototype (p ∷ ps) =
    gather_pending_secrets_by_pipeline lib (some getter) (p ∷ ps) >>= λ g.
    assess_all lib getter g g.ordered_ids (opening_ledger lib getter prototype) >>= λ l.
    ok (sort_by by_victim l.exclusions)
