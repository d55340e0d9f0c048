-- ===== src/Controller/Secrets/Cached.antt =====
-- `pipelineSecretGetter` of internal/controller/secrets.go: a read is kept for the rest of one
-- reconcile, an error included. The state of the closure is passed along.
use vector_operator.Prelude.{
  ℕ, ◌+◌, beq_refl, ◌≡◌, refl, sym, ◌∙◌, true, Option, none, some, List, [], ◌∷◌, ◌++◌, map, All,
  arith, Bool-cases, inl, inr,
}
use vector_operator.Prelude.Result.{Result}
use vector_operator.Dict.{Dict, lookup, insert, lookup-insert}
use vector_operator.Text.{Text, text_beq, text_eq, text_beq_iff, join-injective}
use vector_operator.Config.Secrets.Types.{Getter, Secret}
use vector_operator.Config.Secrets.Resolve.Reads.{no_slash}

abbrev pub CacheEntries : Type 0
CacheEntries = Dict Text (Result Text Secret)

-- `namespace + "/" + name`
unfoldable pub entry_key : Text × Text → Text
entry_key call = call.0 ++ (b'/' ∷ call.1)

-- what the client gives for each of the reads that reach it, in their order
abbrev pub Reads : Type 0
Reads = ℕ → Getter

-- what the closure keeps: its map, and how many reads there were
pub record Memory : Type 0 where
  pub cache : CacheEntries
  pub count : ℕ

unfoldable pub answer :
    Reads → Text × Text → Memory → Option (Result Text Secret) → Result Text Secret × Memory
unfolding entry_key
answer reads call m (some entry) = (entry, m)
answer reads call m none =
    let entry = reads m.count call.0 call.1 in
    (entry, record { cache = insert (entry_key call) entry m.cache; count = m.count + 1 })

-- one call of the closure
unfoldable pub cached_get : Reads → Text × Text → Memory → Result Text Secret × Memory
unfolding entry_key answer
cached_get reads call m = answer reads call m (lookup (entry_key call) m.cache)

-- the calls of one reconcile, in their order
unfoldable pub cached_gets :
    Reads → List (Text × Text) → Memory → List (Result Text Secret) × Memory
unfolding cached_get
cached_gets reads [] m = ([], m)
cached_gets reads (call ∷ calls) m =
    let (entry, m') = cached_get reads call m in
    let (entries, last) = cached_gets reads calls m' in (entry ∷ entries, last)

abbrev pub new_memory : Memory
new_memory = record { cache = []; count = 0 }

-- a call for a namespace without a slash
abbrev pub IsPlain : Text × Text → Type 0
IsPlain call = no_slash call.0 ≡ true

-- one of the reads gave it
abbrev pub WasRead : Reads → Text × Text → Result Text Secret → Type 0
WasRead reads call entry = (n : ℕ) × (entry ≡ reads n call.0 call.1)

-- every entry of the cache was read for the name that it is kept under
abbrev Sound : Reads → Memory → Type 0
Sound reads m =
    (call : Text × Text) (entry : Result Text Secret)
    → IsPlain call
    → lookup (entry_key call) m.cache ≡ some entry
    → WasRead reads call entry

-- every entry of the first is in the second
abbrev Grows : Memory → Memory → Type 0
Grows m m' =
    (k : Text) (entry : Result Text Secret)
    → lookup k m.cache ≡ some entry
    → lookup k m'.cache ≡ some entry

-- what a call does: the entry is kept, the other ones stay, and it was read
abbrev Answered : Reads → Text × Text → Memory → Result Text Secret × Memory → Type 0
Answered reads call m r =
    (lookup (entry_key call) r.1.cache ≡ some r.0) × Grows m r.1 × Sound reads r.1

answer-Answered :
    (reads : Reads) (call : Text × Text) (m : Memory) (found : Option (Result Text Secret))
    → lookup (entry_key call) m.cache ≡ found
    → IsPlain call
    → Sound reads m
    → Answered reads call m (answer reads call m found)
unfolding answer lookup
answer-Answered reads call m (some entry) hit plain sound = (hit, λ k e h. h, sound)
answer-Answered reads call m none miss plain sound =
    let fresh = reads m.count call.0 call.1 in
    (
      lookup-insert (entry_key call) (entry_key call) fresh m.cache
          ∙ (rw (beq_refl (entry_key call)) refl),
      λ k e h.
          ground (
            arith,
            lookup-insert (entry_key call) k fresh m.cache,
            text_beq_iff (entry_key call) k,
          ),
      λ other entry q h.
          let h' = sym (lookup-insert (entry_key call) (entry_key other) fresh m.cache) ∙ h in
          elim (Bool-cases (text_beq (entry_key call) (entry_key other))) [
            | inl same ↦
                let agree = (text_beq_iff (entry_key call) (entry_key other)).0 same in
                let (e, f) = join-injective b'/' call.0 other.0 call.1 other.1 plain q agree in
                let given : fresh ≡ entry = ground (arith, same) in
                (m.count, sym given ∙ rw (e, f) refl)
            | inr differ ↦ sound other entry q (ground arith)
          ],
    )

cached_gets-Sound :
    (reads : Reads) (calls : List (Text × Text)) (m : Memory)
    → All IsPlain calls
    → Sound reads m
    → Grows m (cached_gets reads calls m).1 × Sound reads (cached_gets reads calls m).1
unfolding cached_gets cached_get
cached_gets-Sound reads [] m plain sound = (λ k e h. h, sound)
cached_gets-Sound reads (call ∷ calls) m plain sound =
    let (kept, grows, sound') =
      answer-Answered reads call m (lookup (entry_key call) m.cache) refl plain.0 sound in
    let (more, last) = cached_gets-Sound reads calls (cached_get reads call m).1 plain.1 sound' in
    (λ k e h. more k e (grows k e h), last)

-- the entry of a call in a cache
abbrev pub kept_at : Memory → Text × Text → Option (Result Text Secret)
kept_at m call = lookup (entry_key call) m.cache

-- the call has one answer, and one of the reads gave it
abbrev pub HasAnswer : Reads → Memory → Text × Text → Type 0
HasAnswer reads m call =
    (entry : Result Text Secret) × (kept_at m call ≡ some entry) × WasRead reads call entry

cached_gets-kept :
    (reads : Reads) (calls : List (Text × Text)) (m : Memory)
    → All IsPlain calls
    → Sound reads m
    → (map some (cached_gets reads calls m).0 ≡ map (kept_at (cached_gets reads calls m).1) calls)
      × All (HasAnswer reads (cached_gets reads calls m).1) calls
unfolding cached_gets cached_get
cached_gets-kept reads [] m plain sound = (refl, tt)
cached_gets-kept reads (call ∷ calls) m plain sound =
    let (kept, grows, sound') =
      answer-Answered reads call m (lookup (entry_key call) m.cache) refl plain.0 sound in
    let (entry, after) = cached_get reads call m in
    let (more, last) = cached_gets-Sound reads calls after plain.1 sound' in
    let (rest, others) = cached_gets-kept reads calls after plain.1 sound' in
    let top = more (entry_key call) entry kept in
    (cc (rest, top), ((entry, top, last call entry plain.0 top), others))

-- Whatever the reads of one reconcile give, the answers of the cached getter are those of one
-- snapshot: equal calls have equal answers, and each answer is one that a read of that name gave.
-- This needs namespaces without a slash.
pub cached_gets-Snapshot :
    (reads : Reads) (calls : List (Text × Text))
    → All IsPlain calls
    → (snapshot : Memory) × (map some (cached_gets reads calls new_memory).0
        ≡ map (kept_at snapshot) calls)
      × All (HasAnswer reads snapshot) calls
unfolding lookup
cached_gets-Snapshot reads calls plain =
    let (same, answered) = cached_gets-kept reads calls new_memory plain (λ call entry p h. cc) in
    ((cached_gets reads calls new_memory).1, same, answered)
