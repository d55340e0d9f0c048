-- ===== src/Config/Optimize/Collapse.antt =====
-- `optimizeAgentSources` and `collapseSourceGroup` of internal/config/agent_optimize.go. The JSON of a
-- signature, the CRC in hexadecimal, the MD5 and the formats %d and %q are parameters. The map
-- `nsOutput` is a function, since it has every namespace that it is asked for.
use vector_operator.Prelude.{
  not, ℕ, ◌%◌, Bool, ◌||◌, Option, none, some, List, [], ◌∷◌, ◌++◌, map, keep, any, drop, length,
  leb, nat_beq, nat_eq, codes, ◌==◌, if◌then◌else◌,
}
use vector_operator.Dict.{Dict, insert, remove}
use vector_operator.Text.{Text, text_eq, has_prefix}
use vector_operator.Sets.{contains, add_all}
use vector_operator.Sort.{sort_texts}
use vector_operator.Config.Types.{
  Fields, end, field, str, obj, Source, Transform, Sink, PipelineConfig,
}
use vector_operator.Config.Agent.{namespace_name_to_label}
use vector_operator.Config.Optimize.{rewrite_inputs, bucket_count}

pub record Formats : Type 0 where
  pub source_signature : Source → Text
  pub hash_hex : Text → Text
  pub md5_byte : Text → ℕ
  pub decimal : ℕ → Text
  pub quoted : Text → Text

-- `strings.TrimPrefix`
unfoldable pub trim_prefix : Text → Text → Text
trim_prefix s prefix = if has_prefix s prefix then drop (length prefix) s else s

unfoldable pub contains_any : Text → Text → Bool
contains_any s chars = any (λ c. contains c chars) s

unfoldable pub single_namespace_of : Source → Option Text
unfolding trim_prefix contains_any namespace_name_to_label
single_namespace_of s =
    let ns = trim_prefix s.extra_namespace_label_selector (namespace_name_to_label []) in
    if ns == [] || (ns == s.extra_namespace_label_selector || contains_any ns (codes ",=!() "))
    then none
    else some ns

-- `ns, _ := singleNamespaceOf(src)`
unfoldable pub namespace_of : Source → Text
unfolding single_namespace_of
namespace_of s = elim (single_namespace_of s) [ none ↦ [] | some ns ↦ ns ]

unfoldable pub sorted_namespaces_of : List Source → List Text
unfolding add_all namespace_of sort_texts
sorted_namespaces_of sources = sort_texts (add_all (map namespace_of sources) [])

abbrev pub optimized_source_prefix : Text
optimized_source_prefix = codes "optimizedSource"

abbrev pub optimized_bucketer_prefix : Text
optimized_bucketer_prefix = codes "optimizedBucketer"

abbrev pub optimized_router_prefix : Text
optimized_router_prefix = codes "optimizedRouter"

abbrev pub flat_routing_threshold : ℕ
flat_routing_threshold = 16

abbrev pub max_namespaces_per_source : ℕ
max_namespaces_per_source = 1000

-- `fmt.Sprintf("%s-%s", a, b)` and `fmt.Sprintf("%s.%s", a, b)`
abbrev pub dashed : Text → Text → Text
dashed a b = a ++ (b'-' ∷ b)

abbrev pub dotted : Text → Text → Text
dotted a b = a ++ (b'.' ∷ b)

unfoldable pub join_commas : List Text → Text
join_commas [] = []
join_commas (s ∷ []) = s
join_commas (s ∷ t ∷ rest) = s ++ (b',' ∷ join_commas (t ∷ rest))

unfoldable pub collapsed_name : Text → Text
collapsed_name gid = dashed optimized_source_prefix gid

-- the first source of the group, watching all the namespaces
unfoldable pub collapsed_source : Text → List Text → Source → Source
unfolding collapsed_name join_commas
collapsed_source gid namespaces first = record first {
  name = collapsed_name gid;
  extra_namespace_label_selector =
      codes "kubernetes.io/metadata.name in (" ++ (join_commas namespaces ++ codes ")");
}

unfoldable pub route_transform : Text → Text → Fields → Transform
route_transform name input routes = record {
  name = name;
  type = codes "route";
  inputs = input ∷ [];
  options = field (codes "route") (obj routes) end;
}

unfoldable pub router_name : Text → Text
router_name gid = dashed optimized_router_prefix gid

unfoldable pub l1_name : Text → Text
unfolding router_name
l1_name gid = router_name gid ++ codes "-l1"

-- `routeOutput`
unfoldable pub route_output : (Text → Text) → List Source → Dict Text Text → Dict Text Text
unfolding insert namespace_of
route_output out [] m = m
route_output out (s ∷ sources) m = route_output out sources (insert s.name (out (namespace_of s)) m)

unfoldable pub delete_sources : List Source → Dict Text Source → Dict Text Source
unfolding remove
delete_sources [] m = m
delete_sources (s ∷ sources) m = delete_sources sources (remove s.name m)

-- the loops that rewrite the inputs
abbrev pub rewrite_transform : Dict Text Text → Text × Transform → Text × Transform
rewrite_transform m kt = (kt.0, record kt.1 { inputs = rewrite_inputs kt.1.inputs m })

abbrev pub rewrite_sink : Dict Text Text → Text × Sink → Text × Sink
rewrite_sink m ks = (ks.0, record ks.1 { inputs = rewrite_inputs ks.1.inputs m })

module _ (fmt : Formats) where
  unfoldable pub namespace_routes : List Text → Fields
  namespace_routes [] = end
  namespace_routes (ns ∷ rest) =
      field ns (str (codes ".kubernetes.pod_namespace == " ++ fmt.quoted ns))
        (namespace_routes rest)

  unfoldable pub ns_bucket : Text → ℕ → ℕ
  ns_bucket ns buckets = fmt.md5_byte ns % buckets

  unfoldable pub bucketer_transform : Text → ℕ → Transform
  unfolding collapsed_name
  bucketer_transform gid buckets = record {
    name = dashed optimized_bucketer_prefix gid;
    type = codes "remap";
    inputs = collapsed_name gid ∷ [];
    options =
        field (codes "source")
          (str (
            codes
              "%bucket = mod(parse_int!(slice!(md5(string!(.kubernetes.pod_namespace)), 0, 2), base: 16), "
            ++ (fmt.decimal buckets ++ codes ")")))
          end;
  }

  unfoldable pub l2_name : Text → ℕ → Text
  unfolding router_name
  l2_name gid b = dashed (router_name gid) (fmt.decimal b)

  unfoldable pub bucket_routes : List ℕ → Fields
  bucket_routes [] = end
  bucket_routes (b ∷ bs) =
      field (fmt.decimal b) (str (codes "%bucket == " ++ fmt.decimal b)) (bucket_routes bs)

  -- the loop over `bucketNamespaces`
  unfoldable pub add_buckets :
      Text → List Text → ℕ → List ℕ → Dict Text Transform → Dict Text Transform
  unfolding insert l1_name l2_name route_transform namespace_routes ns_bucket
  add_buckets gid namespaces buckets [] transforms = transforms
  add_buckets gid namespaces buckets (b ∷ bs) transforms =
      let members = keep (λ ns. nat_beq (ns_bucket ns buckets) b) namespaces in
      add_buckets gid namespaces buckets bs (
        insert (l2_name gid b)
          (route_transform (l2_name gid b) (dotted (l1_name gid) (fmt.decimal b))
            (namespace_routes members))
          transforms)

  unfoldable pub add_routers : Text → List Text → Dict Text Transform → Dict Text Transform
  unfolding insert router_name l1_name route_transform namespace_routes bucketer_transform
      add_buckets bucket_routes ns_bucket bucket_count add_all collapsed_name
  add_routers gid namespaces transforms =
      let buckets = bucket_count (length namespaces) in
      let used = add_all (map (λ ns. ns_bucket ns buckets) namespaces) [] in
      let bucketer = bucketer_transform gid buckets in
      if leb (length namespaces) flat_routing_threshold
      then insert (router_name gid)
          (route_transform (router_name gid) (collapsed_name gid) (namespace_routes namespaces))
          transforms
      else insert (l1_name gid) (route_transform (l1_name gid) bucketer.name (bucket_routes used))
          (add_buckets gid namespaces buckets used (insert bucketer.name bucketer transforms))

  -- `nsOutput[ns]`, which is empty for a namespace that is not one of the group
  unfoldable pub ns_output : Text → List Text → Text → Text
  unfolding router_name l2_name ns_bucket bucket_count contains
  ns_output gid namespaces ns =
      if not (contains ns namespaces)
      then []
      else if leb (length namespaces) flat_routing_threshold
      then dotted (router_name gid) ns
      else dotted (l2_name gid (ns_bucket ns (bucket_count (length namespaces)))) ns

  -- on a group with a first source
  unfoldable pub collapse_source_group :
      PipelineConfig → Text → List Text → Source → List Source → PipelineConfig
  unfolding insert collapsed_source collapsed_name add_routers route_output ns_output delete_sources
      rewrite_inputs
  collapse_source_group cfg gid namespaces first rest =
      let outputs = route_output (ns_output gid namespaces) (first ∷ rest) [] in
      record {
        sources =
            insert (collapsed_name gid) (collapsed_source gid namespaces first)
              (delete_sources (first ∷ rest) cfg.sources);
        transforms = map (rewrite_transform outputs) (add_routers gid namespaces cfg.transforms);
        sinks = map (rewrite_sink outputs) cfg.sinks;
      }
