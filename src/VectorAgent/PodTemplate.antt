-- ===== src/VectorAgent/PodTemplate.antt =====
-- The volumes of an agent's pods, in internal/vector/vectoragent/vectoragent_daemonset.go and
-- internal/utils/k8s/volumes.go, and the test for the mount of the assets that decides the order of a
-- round's writes. A volume and a mount of a user are kept by the fields that the code reads.
use vector_operator.Prelude.{
  Bool, false, ◌&&◌, not, Option, none, some, List, [], ◌∷◌, ◌++◌, keep, any, codes, ◌==◌,
  if◌then◌else◌,
}
use vector_operator.Prelude.Result.{Result, ok, err}
use vector_operator.Text.{Text, text_eq}
use vector_operator.VectorAgent.{
  Controller, is_empty_data, get_config_secret_name, get_secret_assets_name,
}

pub data VolumeSource : Type 0 where
  secret_source : Text → VolumeSource
  host_path : Text → VolumeSource
  empty_dir : VolumeSource
  other_source : Text → VolumeSource

pub record Volume : Type 0 where
  pub name : Text
  pub source : VolumeSource

pub record VolumeMount : Type 0 where
  pub name : Text
  pub mount_path : Text

-- a pod template: its volumes, and the mounts of each container
pub record PodSpec : Type 0 where
  pub volumes : List Volume
  pub containers : List (List VolumeMount)

-- what a user sets for the agent
pub record AgentSpec : Type 0 where
  pub compress_config_file : Bool
  pub data_dir : Text
  pub user_volumes : List Volume
  pub user_mounts : List VolumeMount

abbrev pub secret_assets_volume_name : Text
secret_assets_volume_name = codes "secret-assets"

abbrev pub secrets_mount_path : Text
secrets_mount_path = codes "/etc/vector/secrets"

unfoldable pub set_authoritative_volume : List Volume → Volume → List Volume
set_authoritative_volume volumes v = keep (λ u. not (u.name == v.name)) volumes ++ v ∷ []

unfoldable pub set_authoritative_volume_mount : List VolumeMount → VolumeMount → List VolumeMount
set_authoritative_volume_mount mounts m =
    keep (λ u. not (u.name == m.name) && not (u.mount_path == m.mount_path)) mounts ++ m ∷ []

abbrev pub reads_secret : Text → VolumeSource → Bool
reads_secret name (secret_source secret) = secret == name
reads_secret name _ = false

abbrev pub is_assets_volume : Text → Volume → Bool
is_assets_volume secret v = v.name == secret_assets_volume_name && reads_secret secret v.source

abbrev pub is_assets_mount : Text → VolumeMount → Bool
is_assets_mount path m = m.name == secret_assets_volume_name && m.mount_path == path

unfoldable pub has_operator_secret_assets_mount : PodSpec → Text → Text → Bool
has_operator_secret_assets_mount spec secret path =
    any (is_assets_volume secret) spec.volumes && any (any (is_assets_mount path)) spec.containers

-- `existingVolumes[name]` of the user's volumes, and the same for mounts
abbrev pub is_volume_name : List Volume → Text → Bool
is_volume_name volumes name = any (λ u. u.name == name) volumes

abbrev pub is_mount_name : List VolumeMount → Text → Bool
is_mount_name mounts name = any (λ u. u.name == name) mounts

module _ (c : Controller) (spec : AgentSpec) where
  unfoldable pub required_volumes : List Volume
  unfolding get_config_secret_name
  required_volumes =
      record {
        name = codes "config";
        source =
            if spec.compress_config_file
            then empty_dir
            else secret_source (get_config_secret_name c);
      }
      ∷ record { name = codes "data"; source = host_path spec.data_dir }
      ∷ record { name = codes "procfs"; source = host_path (codes "/proc") }
      ∷ record { name = codes "sysfs"; source = host_path (codes "/sys") }
      ∷ []

  unfoldable pub compress_volumes : List Volume
  unfolding get_config_secret_name
  compress_volumes =
      if spec.compress_config_file
        && not (is_volume_name spec.user_volumes (codes "app-config-compress"))
      then record {
        name = codes "app-config-compress";
        source = secret_source (get_config_secret_name c);
      }
        ∷ []
      else []

  -- the user's volumes and those of the required ones that they do not name
  unfoldable pub merged_volumes : List Volume
  unfolding required_volumes compress_volumes
  merged_volumes =
      spec.user_volumes
      ++ (keep (λ v. not (is_volume_name spec.user_volumes v.name)) required_volumes
          ++ compress_volumes)

  unfoldable pub generate_vector_agent_volume : List Volume
  unfolding merged_volumes set_authoritative_volume get_secret_assets_name
  generate_vector_agent_volume =
      if not (is_empty_data c.secret_assets)
      then set_authoritative_volume merged_volumes (record {
        name = secret_assets_volume_name;
        source = secret_source (get_secret_assets_name c);
      })
      else merged_volumes

  unfoldable pub required_mounts : List VolumeMount
  required_mounts =
      record { name = codes "config"; mount_path = codes "/etc/vector" }
      ∷ record { name = codes "data"; mount_path = codes "/vector-data-dir" }
      ∷ record { name = codes "procfs"; mount_path = codes "/host/proc" }
      ∷ record { name = codes "sysfs"; mount_path = codes "/host/sys" }
      ∷ []

  unfoldable pub compress_mounts : List VolumeMount
  compress_mounts =
      if spec.compress_config_file
        && not (is_mount_name spec.user_mounts (codes "app-config-compress"))
      then record { name = codes "app-config-compress"; mount_path = codes "/tmp/archive" } ∷ []
      else []

  unfoldable pub merged_mounts : List VolumeMount
  unfolding required_mounts compress_mounts
  merged_mounts =
      spec.user_mounts
      ++ (keep (λ m. not (is_mount_name spec.user_mounts m.name)) required_mounts
          ++ compress_mounts)

  unfoldable pub generate_vector_agent_volume_mounts : List VolumeMount
  unfolding merged_mounts set_authoritative_volume_mount
  generate_vector_agent_volume_mounts =
      if not (is_empty_data c.secret_assets)
      then set_authoritative_volume_mount merged_mounts
          (record { name = secret_assets_volume_name; mount_path = secrets_mount_path })
      else merged_mounts

  -- the mounts of `ConfigReloaderSidecarContainer`, when there is one
  unfoldable pub sidecar_mounts : List (List VolumeMount)
  sidecar_mounts =
      if spec.compress_config_file
      then (record { name = codes "config"; mount_path = codes "/etc/vector" }
          ∷ record { name = codes "app-config-compress"; mount_path = codes "/tmp/archive" }
          ∷ [])
        ∷ []
      else []

  -- the pod template of `createVectorAgentDaemonSet`
  unfoldable pub create_vector_agent_daemon_set : PodSpec
  unfolding generate_vector_agent_volume generate_vector_agent_volume_mounts sidecar_mounts
  create_vector_agent_daemon_set = record {
    volumes = generate_vector_agent_volume;
    containers = generate_vector_agent_volume_mounts ∷ sidecar_mounts;
  }

-- On the reader, if it is set, and what it gives for the DaemonSet, which may be missing.
unfoldable pub has_secret_assets_mount :
    Controller → Option (Result Text (Option PodSpec)) → Result Text Bool
unfolding has_operator_secret_assets_mount get_secret_assets_name
has_secret_assets_mount c none = err (codes "APIReader is not set")
has_secret_assets_mount c (some (err e)) = err e
has_secret_assets_mount c (some (ok none)) = ok false
has_secret_assets_mount c (some (ok (some pod))) =
    ok (has_operator_secret_assets_mount pod (get_secret_assets_name c) secrets_mount_path)
