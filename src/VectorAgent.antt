-- ===== src/VectorAgent.antt =====
-- internal/vector/vectoragent: the names of an agent's Secrets, and the writes of
-- `EnsureVectorAgent` in vectoragent_controller.go, in their order. A round may end after each of them,
-- by an error or by a crash. The compression of a configuration is a parameter.
pub mod Cluster
pub mod MountGate
pub mod Names
pub mod Order
pub mod PodTemplate
pub mod Steps
pub mod Startable
use vector_operator.Prelude.{
  Bool, true, false, ◌&&◌, not, Option, none, some, List, [], ◌∷◌, ◌++◌, codes, ◌==◌, if◌then◌else◌,
}
use vector_operator.Dict.{Dict}
use vector_operator.Text.{Text, text_eq}

-- the data of a Secret
abbrev pub Data : Type 0
Data = Dict Text Text

-- `Controller`, as far as the writes depend on it; `monitoring` says that the pod monitors' resource is
-- there
pub record Controller : Type 0 where
  pub name : Text
  pub checkpoint_migration : Bool
  pub optimize_sources : Bool
  pub secret_assets : Data
  pub alt_secret_assets : Option Data
  pub byte_config : Text
  pub alt_byte_config : Option Text
  pub compress : Text → Text
  pub api_enabled : Bool
  pub internal_metrics : Bool
  pub monitoring : Bool

unfoldable pub get_name_vector_agent : Controller → Text
get_name_vector_agent c = c.name ++ codes "-agent"

unfoldable pub get_config_secret_name : Controller → Text
unfolding get_name_vector_agent
get_config_secret_name c =
    if c.checkpoint_migration && c.optimize_sources
    then get_name_vector_agent c ++ codes "-opt"
    else get_name_vector_agent c

unfoldable pub get_alt_config_secret_name : Controller → Text
unfolding get_name_vector_agent
get_alt_config_secret_name c =
    if c.checkpoint_migration && c.optimize_sources
    then get_name_vector_agent c
    else get_name_vector_agent c ++ codes "-opt"

unfoldable pub get_secret_assets_name : Controller → Text
unfolding get_config_secret_name
get_secret_assets_name c = get_config_secret_name c ++ codes "-secret-assets"

unfoldable pub alt_assets_name : Controller → Text
unfolding get_alt_config_secret_name
alt_assets_name c = get_alt_config_secret_name c ++ codes "-secret-assets"

-- what the pod template mounts
pub record Template : Type 0 where
  pub config : Text
  pub assets : Option Text

-- one write; the last two are objects that the Secrets do not depend on, and a deletion whose error is
-- only logged
pub data Write : Type 0 where
  put_secret : Text → Data → Write
  delete_secret : Text → Write
  put_daemon_set : Template → Write
  stamp_config_publishing : Write
  put_other : Text → Write
  try_delete_secret : Text → Write

abbrev pub is_empty_data : Data → Bool
is_empty_data [] = true
is_empty_data (_ ∷ _) = false

-- written when there is data, and deleted when there is none
unfoldable pub put_assets : Text → Data → List Write
put_assets name [] = delete_secret name ∷ []
put_assets name (kv ∷ data_map) = put_secret name (kv ∷ data_map) ∷ []

unfoldable pub config_data : Controller → Text → Data
config_data c bytes = (codes "agent.json", c.compress bytes) ∷ []

-- the data of the standby variant
unfoldable pub alt_data : Controller → Data
alt_data c = elim c.alt_secret_assets [ none ↦ c.secret_assets | some d ↦ d ]

-- with the migration on, only when the standby configuration was built; with it off, a deletion
unfoldable pub alt_assets_writes : Controller → Bool → Option Text → List Write
unfolding put_assets alt_data alt_assets_name
alt_assets_writes c true none = []
alt_assets_writes c true (some bytes) = put_assets (alt_assets_name c) (alt_data c)
alt_assets_writes c false built = delete_secret (alt_assets_name c) ∷ []

unfoldable pub ensure_alt_assets : Controller → List Write
unfolding alt_assets_writes
ensure_alt_assets c = alt_assets_writes c c.checkpoint_migration c.alt_byte_config

unfoldable pub ensure_vector_agent_secret_assets : Controller → List Write
unfolding put_assets get_secret_assets_name ensure_alt_assets
ensure_vector_agent_secret_assets c =
    put_assets (get_secret_assets_name c) c.secret_assets ++ ensure_alt_assets c

unfoldable pub alt_config_writes : Controller → Bool → Option Text → List Write
unfolding config_data get_alt_config_secret_name get_name_vector_agent
alt_config_writes c true none = []
alt_config_writes c true (some bytes) =
    put_secret (get_alt_config_secret_name c) (config_data c bytes) ∷ []
alt_config_writes c false built = try_delete_secret (get_name_vector_agent c ++ codes "-opt") ∷ []

unfoldable pub ensure_alt_config : Controller → List Write
unfolding alt_config_writes
ensure_alt_config c = alt_config_writes c c.checkpoint_migration c.alt_byte_config

unfoldable pub ensure_vector_agent_config : Controller → List Write
unfolding config_data get_config_secret_name ensure_alt_config
ensure_vector_agent_config c =
    put_secret (get_config_secret_name c) (config_data c c.byte_config) ∷ ensure_alt_config c

-- the template that `createVectorAgentDaemonSet` builds
unfoldable pub template_of : Controller → Template
unfolding get_config_secret_name get_secret_assets_name
template_of c = record {
  config = get_config_secret_name c;
  assets = if not (is_empty_data c.secret_assets) then some (get_secret_assets_name c) else none;
}

unfoldable pub ensure_vector_agent_daemon_set : Controller → List Write
unfolding template_of
ensure_vector_agent_daemon_set c = put_daemon_set (template_of c) ∷ []

unfoldable pub stamp_before_config : Bool → List Write
stamp_before_config true = stamp_config_publishing ∷ []
stamp_before_config false = []

abbrev pub put_if : Bool → Text → List Write
put_if true kind = put_other kind ∷ []
put_if false kind = []

-- after the switch: RBAC, the Service, the PodMonitor
unfoldable pub ensure_rest : Controller → List Write
ensure_rest c =
    put_other (codes "ServiceAccount")
    ∷ put_other (codes "ClusterRole")
    ∷ put_other (codes "ClusterRoleBinding")
    ∷ (put_if c.api_enabled (codes "Service")
        ++ put_if (c.internal_metrics && c.monitoring) (codes "PodMonitor"))

-- the switch: whether the template on the cluster has the mount, and whether it will have it
unfoldable pub ensure_in_order : Bool → Bool → Bool → Controller → List Write
unfolding ensure_vector_agent_secret_assets ensure_vector_agent_config
    ensure_vector_agent_daemon_set stamp_before_config
ensure_in_order false true publishing c =
    ensure_vector_agent_secret_assets c
    ++ (ensure_vector_agent_daemon_set c
        ++ (stamp_before_config publishing ++ ensure_vector_agent_config c))
ensure_in_order true false publishing c =
    stamp_before_config publishing
    ++ (ensure_vector_agent_config c
        ++ (ensure_vector_agent_daemon_set c ++ ensure_vector_agent_secret_assets c))
ensure_in_order true true publishing c =
    ensure_vector_agent_secret_assets c
    ++ (stamp_before_config publishing
        ++ (ensure_vector_agent_config c ++ ensure_vector_agent_daemon_set c))
ensure_in_order false false publishing c =
    ensure_vector_agent_secret_assets c
    ++ (stamp_before_config publishing
        ++ (ensure_vector_agent_config c ++ ensure_vector_agent_daemon_set c))

unfoldable pub ensure_vector_agent : Bool → Bool → Controller → List Write
unfolding ensure_in_order ensure_rest
ensure_vector_agent had_mount publishing c =
    ensure_in_order had_mount (not (is_empty_data c.secret_assets)) publishing c ++ ensure_rest c
