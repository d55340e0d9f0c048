-- ===== src/Lib.antt =====
-- Verification library of the vector operator, a Kubernetes operator that turns pipeline objects into
-- configurations of Vector.
--
-- A pipeline's components may name values of Kubernetes Secrets as SECRET[alias.key]. The pipeline
-- reconciler resolves the Secrets, checks the pipeline against every workload that selects it and writes
-- a verdict; a workload then builds one configuration of its valid pipelines. The build rewrites every
-- reference to a flat key and gathers the values in one Secret, the assets, which is published beside
-- the configuration in an order that keeps the workload's pods startable.
--
-- Which file models what:
--   Api                    api/v1alpha1: the pipeline objects and their accessors
--   Pipeline/SecretIndex   internal/pipeline/secretindex.go: `SecretIndex`, `Set`, `PipelinesFor`
--   Pipeline/Labels        internal/utils/k8s/label.go: `MatchLabels`, `MergeLabels`
--   Pipeline/Listing       internal/pipeline/pipeline.go: `listPipelines`
--   Pipeline/Status        internal/pipeline/pipeline.go, hash.go: status writes and `IsPipelineChanged`
--   Pipeline/Merge         the merge patch that `PatchStatus` of internal/utils/k8s/k8s.go sends
--   Controller/Secrets     internal/controller/secrets.go: pruning, `planSecretAssetsBridge`; Workload has
--                          `resolveWorkloadPipelines` and the status writes of a workload
--     Related, Cached      `resolveRelatedSecrets` with its token, `pipelineSecretGetter`
--   Controller/Pipeline    internal/controller/pipeline_controller.go: the types, and `listVectorAgents`
--     Poll                 `armSecretRotationPoll`
--     Checks               the goroutines of `reconcile`
--     Reconcile            `Reconcile`, `reconcile`, `mapSecretToPipelines`
--   VectorAgent            internal/vector/vectoragent: the writes of `EnsureVectorAgent`, in their order;
--                          Cluster has the Secrets and the DaemonSet that they change, and the runs;
--                          PodTemplate has the volumes, and `HasOperatorSecretAssetsMount` of
--                          internal/utils/k8s/volumes.go
--   Config/Types, Names    internal/config/types.go, utils.go, and `flatKey` of secrets.go
--   Config/Roles           internal/config/config.go, vector_source_types.go: `VectorRole`
--   Config/Build           internal/config/config.go, default.go: what the two builds share
--   Config/Agent           internal/config/agent.go: `buildAgentConfig`
--   Config/ServicePorts    internal/config/types.go, config.go, aggregator.go: the service ports
--   Config/Aggregator      internal/config/aggregator.go: `BuildAggregatorConfig`
--   Config/Optimize        internal/config/agent_optimize.go: `rewriteInputs`, `bucketCount`; Collapse
--                          has `collapseSourceGroup`, Groups `optimizeAgentSources`
--   Config/Secrets/*       internal/config/secrets.go, one file for each function or group:
--     Scan                 `scanAndRewriteSecretRefs`; Scan/Segments has the regular expressions
--     Process              `processPipelineSecrets`; Process/Used has `UsedSecretBackends`
--     Safety               `secretValueSafeForJSONText`
--     Resolve              `resolvePendingSecrets`
--     Gather               `gatherPendingSecretsByPipeline`
--     Collisions           `DetectSecretCollisions`
--     Size                 the size model and `DetectSecretSizeOverflow`
--     Bridge               `BridgeAssets`
--   Checkpoint             internal/checkpoint/consolidate.go: `Consolidate` and its helpers
--   Prelude, Dict, Sets, Text, Sort   Go's results, integers, maps, sets, strings and sorts
--
-- The code's strings are lists of bytes, its maps association lists whose order stands for the order
-- of a `range` loop; a theorem is about every list and so about every order. Sizes are native numbers,
-- which have no upper bound: the totals of the code stay below a few MiB and fit Go's int. Deltas that
-- can be negative are integers. An error is a value with what its message carries.
--
-- The state of a loop is a record that the body takes and returns. Loops are structural recursion but
-- three: `segments` takes the length of the text as fuel, and every step consumes a byte; `bucket_count`
-- takes eight rounds, after which the count that doubles is at the bound of its loop; `lengthen` takes one
-- more round than the longest name of a source, and every round makes the name longer.
--
-- Parameters: the record `Library` (decoding of a spec, the protobuf size of a Secret, three constants
-- of Kubernetes), the getter that reads a Secret, and the record `Json` of the checkpoints. A getter
-- returns the same for the same name during one run, which is what the cache of the code gives.
--
-- For the pipelines' status, the JSON encoding and the CRC (`Hashing`) and the API server's part of
-- a patch (`Patch`: its error, and the reason that it may hold for a pipeline read without one) are
-- parameters, and so is the text of a reason after the prefix that names its class.
--
-- The reconciler's client, builds, check and messages stand in the record `Reconciler`, and the wait of
-- its error group is described by `IsWaiting`. The builds take the parser of selectors, the functions of
-- the network and string packages (`Net`) and those of fmt, JSON and the hashes (`Formats`). The writes
-- of an agent take the compression and the references of a configuration. What else changes the cluster
-- meanwhile is left out of the runs: a run is the writes of one round, cut off anywhere.
--
-- Not modelled: the reconcilers of the workloads, the reads of the published assets, the writes of an
-- aggregator, the contents of the objects other than Secrets, volumes and mounts, the config check,
-- the event collector, and everything that only talks to the cluster.
pub mod Prelude
pub mod Dict
pub mod Sets
pub mod Text
pub mod Sort
pub mod Api
pub mod Config
pub mod Pipeline
pub mod Checkpoint
pub mod VectorAgent
pub mod Controller
pub mod Tests
