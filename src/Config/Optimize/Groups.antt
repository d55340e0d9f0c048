-- ===== src/Config/Optimize/Groups.antt =====
-- `optimizeAgentSources` of internal/config/agent_optimize.go: the groups, the name of a group, and its
-- chunks. The loop that lengthens the name of a group runs on fuel: one more round than the longest
-- name of a source has bytes, after which the name is longer than every other.
use vector_operator.Prelude.{
  ℕ, zero, suc, ◌+◌, ◌-◌, ◌*◌, ◌/◌, ◌≤◌, ◌<◌, ◌≡◌, refl, ap, max, Bool, true, false, ◌&&◌, ◌||◌,
  not, none, some, List, [], ◌∷◌, ◌++◌, map, keep, take, drop, length, length-append, ltb, nat_beq,
  codes, ◌==◌, if◌then◌else◌, arith, Bool-cases, inl, inr,
}
use vector_operator.Dict.{Dict, has}
use vector_operator.Text.{Text, text_eq, text_lt, text_beq_iff}
use vector_operator.Sets.{contains, add_all}
use vector_operator.Sort.{sort_by, sort_texts}
use vector_operator.Config.Types.{Source, PipelineConfig}
use vector_operator.Config.Build.{VectorConfig, kubernetes_logs_type}
use vector_operator.Config.Optimize.Collapse.{
  Formats, single_namespace_of, namespace_of, sorted_namespaces_of, collapsed_name,
  optimized_source_prefix, dashed, max_namespaces_per_source, collapse_source_group,
}

-- the sources that the first loop takes
unfoldable pub is_collapsible : List Text → Source → Bool
unfolding contains single_namespace_of
is_collapsible opt_out s =
    s.type == kubernetes_logs_type
    && (not (contains s.name opt_out)
        && (elim (single_namespace_of s) as (λ _. Bool) [ none ↦ false | some _ ↦ true ]))

unfoldable pub values : Dict Text Source → List Source
values m = map (λ (kv : Text × Source). kv.1) m

-- the condition of the loop over `gid`
unfoldable pub is_taken : Dict Text Source → Text → Bool
unfolding has collapsed_name
is_taken sources gid =
    has (collapsed_name gid) sources || has (dashed (collapsed_name gid) (codes "0")) sources

unfoldable pub lengthen : ℕ → Dict Text Source → Text → Text
unfolding is_taken
lengthen zero sources gid = gid
lengthen (suc fuel) sources gid =
    let more = lengthen fuel sources (gid ++ codes "x") in
    if is_taken sources gid then more else gid

unfoldable pub longest : Dict Text Source → ℕ
longest [] = 0
longest ((k, s) ∷ m) = max (length k) (longest m)

unfoldable pub fresh_gid : Dict Text Source → Text → Text
unfolding lengthen longest
fresh_gid sources gid = lengthen (longest sources + 1) sources gid

-- the namespaces of a chunk, and the sources that watch them
unfoldable pub chunk_of : ℕ → List Text → List Text
chunk_of c namespaces =
    take max_namespaces_per_source (drop (c * max_namespaces_per_source) namespaces)

-- `nsChunk[ns] == c`
unfoldable pub sources_of_chunk : List Text → List Source → List Source
unfolding contains namespace_of
sources_of_chunk chunk sources = keep (λ s. contains (namespace_of s) chunk) sources

module _ (fmt : Formats) where
  unfoldable pub collapse_all : PipelineConfig → Text → List Text → List Source → PipelineConfig
  unfolding collapse_source_group
  collapse_all cfg gid namespaces [] = cfg
  collapse_all cfg gid namespaces (s ∷ sources) =
      collapse_source_group fmt cfg gid namespaces s sources

  -- the loop over the chunks from `c` on; `n` of them are left
  unfoldable pub collapse_chunks :
      ℕ → ℕ → PipelineConfig → Text → List Text → List Source → PipelineConfig
  unfolding collapse_all chunk_of sources_of_chunk
  collapse_chunks zero c cfg gid namespaces sources = cfg
  collapse_chunks (suc n) c cfg gid namespaces sources =
      let chunk = chunk_of c namespaces in
      collapse_chunks n (c + 1)
        (collapse_all cfg (dashed gid (fmt.decimal c)) chunk (sources_of_chunk chunk sources)) gid
        namespaces sources

  unfoldable pub chunk_count : List Text → ℕ
  chunk_count namespaces =
      (length namespaces + max_namespaces_per_source - 1) / max_namespaces_per_source

  -- the body of the loop over the signatures
  unfoldable pub collapse_group : VectorConfig → Text → List Source → VectorConfig
  unfolding collapse_all collapse_chunks chunk_count sorted_namespaces_of fresh_gid
  collapse_group cfg sig sources =
      let namespaces = sorted_namespaces_of sources in
      let gid = fresh_gid cfg.components.sources (fmt.hash_hex sig) in
      let chunks = chunk_count namespaces in
      let whole = collapse_all cfg.components gid namespaces sources in
      let split = collapse_chunks chunks 0 cfg.components gid namespaces sources in
      if ltb (length sources) 2 then cfg else record cfg {
        components = if nat_beq chunks 1 then whole else split;
        optimized_sources = cfg.optimized_sources + length sources;
        source_groups = cfg.source_groups + chunks;
      }

  -- `groups[sig]`, sorted by name
  unfoldable pub group_at : List Source → Text → List Source
  unfolding sort_by text_lt
  group_at eligible sig =
      sort_by (λ a b. text_lt a.name b.name) (keep (λ s. fmt.source_signature s == sig) eligible)

  unfoldable pub collapse_groups : List Source → List Text → VectorConfig → VectorConfig
  unfolding collapse_group group_at
  collapse_groups eligible [] cfg = cfg
  collapse_groups eligible (sig ∷ sigs) cfg =
      collapse_groups eligible sigs (collapse_group cfg sig (group_at eligible sig))

  unfoldable pub optimize_agent_sources : List Text → VectorConfig → VectorConfig
  unfolding collapse_groups is_collapsible values sort_texts add_all
  optimize_agent_sources opt_out cfg =
      let eligible = keep (is_collapsible opt_out) (values cfg.components.sources) in
      collapse_groups eligible (sort_texts (add_all (map fmt.source_signature eligible) [])) cfg

length-has : (k : Text) (m : Dict Text Source) → has k m ≡ true → length k ≤ longest m
unfolding has longest
length-has k [] h = absurd (cc h)
length-has k ((j, s) ∷ m) h = elim (Bool-cases (j == k)) [
  | inl y ↦ omega (arith, ap length ((text_beq_iff j k).0 y))
  | inr n ↦ omega (arith, length-has k m (ground arith))
]

-- a name that is longer than every source's is not taken
long-is_free :
    (sources : Dict Text Source) (gid : Text)
    → longest sources ≤ length gid
    → is_taken sources gid ≡ false
unfolding is_taken collapsed_name
long-is_free sources gid long =
    let name = collapsed_name gid in
    let grows : longest sources < length name =
      omega (arith, length-append optimized_source_prefix (b'-' ∷ gid)) in
    elim (Bool-cases (has name sources)) [
      | inl y ↦ absurd (omega (arith, length-has name sources y))
      | inr n ↦ elim (Bool-cases (has (dashed name (codes "0")) sources)) [
        | inl y ↦ absurd (
            omega (
              arith,
              length-has (dashed name (codes "0")) sources y,
              length-append name (b'-' ∷ codes "0"),
            ))
        | inr m ↦ rw (n, m) refl
      ]
    ]

lengthen-free :
    (fuel : ℕ) (sources : Dict Text Source) (gid : Text)
    → longest sources < length gid + fuel
    → is_taken sources (lengthen fuel sources gid) ≡ false
unfolding lengthen
lengthen-free zero sources gid h = long-is_free sources gid (omega arith)
lengthen-free (suc fuel) sources gid h = elim (Bool-cases (is_taken sources gid)) [
  | inl y ↦
      rw y (
        lengthen-free fuel sources (gid ++ codes "x")
          (omega (arith, length-append gid (codes "x"))))
  | inr n ↦ rw n n
]

-- The loop that lengthens the name of a group ends within the fuel, at a name under which the
-- configuration has no source, neither by itself nor with the suffix of the first chunk.
pub fresh_gid-free :
    (sources : Dict Text Source) (gid : Text)
    → (has (collapsed_name (fresh_gid sources gid)) sources ≡ false)
      × (has (dashed (collapsed_name (fresh_gid sources gid)) (codes "0")) sources ≡ false)
unfolding fresh_gid is_taken
fresh_gid-free sources gid =
    let free = lengthen-free (longest sources + 1) sources gid (omega arith) in
    (ground arith, ground arith)
