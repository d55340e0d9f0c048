-- ===== src/Tests/Related.antt =====
-- The reads of related Secrets at concrete ones.
use vector_operator.Prelude.{
  ◌≡◌, refl, ◌↔◌, some, List, [], ◌∷◌, In, All, Distinct, arith, codes, map, nat_beq, if◌then◌else◌,
}
use vector_operator.Prelude.Result.{ok, err}
use vector_operator.Text.{Text}
use vector_operator.Pipeline.SecretIndex.{NamespacedName}
use vector_operator.Controller.Secrets.Related.{
  ObjectReference, Reader, frame, resolve_related_secrets, ref_of,
}
use vector_operator.Controller.Secrets.Related.Framing.{FitsIdentity, frame-injective}
use vector_operator.Controller.Secrets.Related.Refs.{Used, refs-resolve_related_secrets}
use vector_operator.Controller.Secrets.Cached.{
  Reads, Memory, new_memory, cached_gets, kept_at, HasAnswer, cached_gets-Snapshot,
}
use vector_operator.Tests.Data.{first, secret}

abbrev identity : ObjectReference
identity = record {
  namespace = codes "a";
  name = codes "creds";
  uid = codes "u1";
  resource_version = codes "7";
}

identity_fits : All FitsIdentity (identity ∷ [])
identity_fits = ((omega arith, omega arith, omega arith, omega arith), tt)

frame-injective_example : Path (List ObjectReference) (identity ∷ []) (identity ∷ [])
frame-injective_example =
    frame-injective (identity ∷ []) (identity ∷ []) identity_fits identity_fits refl

-- no Secret can be read
abbrev unreadable_reader : Reader
unreadable_reader ref = err (codes "forbidden")

refs-resolve_related_secrets_example :
    ((ref : NamespacedName)
      → In ref
          (resolve_related_secrets (λ s. s) (some unreadable_reader) first (codes "db" ∷ [])).refs
        ↔ ((alias : Text) × Used first (codes "db" ∷ []) alias × (ref ≡ ref_of first alias)))
    × Distinct
        (resolve_related_secrets (λ s. s) (some unreadable_reader) first (codes "db" ∷ [])).refs
unfolding vector_operator.Controller.Secrets.Related.check_shapes
    vector_operator.Controller.Secrets.Related.declared_aliases vector_operator.Dict.lookup
refs-resolve_related_secrets_example =
    refs-resolve_related_secrets (λ s. s) unreadable_reader first (codes "db" ∷ []) refl

-- the first read fails, and the later ones do not
abbrev flaky : Reads
flaky n ns name = if nat_beq n 0 then err (codes "timeout") else ok secret

abbrev calls : List (Text × Text)
calls = (codes "a", codes "creds") ∷ (codes "b", codes "creds") ∷ (codes "a", codes "creds") ∷ []

cached_gets-Snapshot_example :
    (snapshot : Memory) × (map some (cached_gets flaky calls new_memory).0
      ≡ map (kept_at snapshot) calls)
    × All (HasAnswer flaky snapshot) calls
cached_gets-Snapshot_example = cached_gets-Snapshot flaky calls (refl, (refl, (refl, tt)))
