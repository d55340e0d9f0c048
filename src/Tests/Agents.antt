-- ===== src/Tests/Agents.antt =====
-- A round of an agent that gains the mount of its assets, ended after the DaemonSet is written.
use vector_operator.Prelude.{
  ◌≡◌, refl, sym, subst, true, false, none, some, List, [], ◌∷◌, inl, inr, codes, keep, ◌==◌,
}
use vector_operator.Prelude.Result.{ok}
use vector_operator.Dict.{lookup, has}
use vector_operator.Text.{Text, text_eq}
use vector_operator.VectorAgent.{Data, Controller, Template, Write, ensure_vector_agent}
use vector_operator.VectorAgent.Cluster.{Cluster, stop, step, IsSafe, PodStarts, some_injective}
use vector_operator.VectorAgent.Steps.{Covers, new_config}
use vector_operator.VectorAgent.PodTemplate.{
  Volume, AgentSpec, other_source, empty_dir, secret_source, create_vector_agent_daemon_set,
  generate_vector_agent_volume, has_secret_assets_mount, secret_assets_volume_name,
}
use vector_operator.VectorAgent.MountGate.{has_secret_assets_mount-create_vector_agent_daemon_set}
use vector_operator.VectorAgent.Startable.{ensure_vector_agent-IsSafe}

abbrev assets : Data
assets = (codes "a_b_db_pass", codes "hunter2") ∷ []

abbrev agent : Controller
agent = record {
  name = codes "v";
  checkpoint_migration = false;
  optimize_sources = false;
  secret_assets = assets;
  alt_secret_assets = none;
  byte_config = codes "new";
  alt_byte_config = none;
  compress = λ s. s;
  api_enabled = true;
  internal_metrics = true;
  monitoring = false;
}

-- a configuration of the new kind references the key
abbrev refs : Data → List Text
refs [] = []
refs ((k, v) ∷ []) = elim v [
  | [] ↦ []
  | c ∷ s ↦ elim s [ [] ↦ [] | _ ∷ _ ↦ codes "a_b_db_pass" ∷ [] ]
]
refs (x ∷ y ∷ d) = []

abbrev before : Cluster
before = record {
  secrets = (codes "v-agent", (codes "agent.json", codes "o") ∷ []) ∷ [];
  daemon_set = some (record { config = codes "v-agent"; assets = none });
}

-- after the assets, the standby's deletion and the DaemonSet
abbrev after : Cluster
after = record {
  secrets =
      (codes "v-agent", (codes "agent.json", codes "o") ∷ [])
      ∷ (codes "v-agent-secret-assets", assets)
      ∷ [];
  daemon_set =
      some (record { config = codes "v-agent"; assets = some (codes "v-agent-secret-assets") });
}

before-IsSafe : IsSafe refs before
unfolding lookup
before-IsSafe t h =
    subst (PodStarts refs before) (some_injective h) ((_, refl), λ m e. cc e, λ k i. absurd i)

assets-Covers : Covers refs assets (new_config refs agent)
unfolding vector_operator.VectorAgent.config_data has
assets-Covers k m = elim m [
  | inl e ↦ subst (λ x. has x assets ≡ true) (sym e) refl
  | inr f ↦ absurd f
]

ensure_vector_agent-IsSafe_example : IsSafe refs after
unfolding vector_operator.VectorAgent.get_config_secret_name ensure_vector_agent
    vector_operator.VectorAgent.Cluster.apply vector_operator.Dict.remove
    vector_operator.Dict.insert lookup
ensure_vector_agent-IsSafe_example =
    ensure_vector_agent-IsSafe refs agent true (some false) ((codes "agent.json", codes "o") ∷ [])
      before after refl refl before-IsSafe assets-Covers (inr (λ k m. absurd m))
      (step (step (step stop)))

-- a user's own volume has the name of the assets, and another that of the configuration
abbrev custom : AgentSpec
custom = record {
  compress_config_file = true;
  data_dir = codes "/data";
  user_volumes =
      record { name = codes "secret-assets"; source = empty_dir }
      ∷ record { name = codes "config"; source = other_source (codes "mine") }
      ∷ [];
  user_mounts = record { name = codes "secret-assets"; mount_path = codes "/mine" } ∷ [];
}

has_secret_assets_mount-create_vector_agent_daemon_set_example :
    (has_secret_assets_mount agent (some (ok (some (create_vector_agent_daemon_set agent custom))))
      ≡ ok true)
    × (keep
          (λ (v : Volume). v.name == secret_assets_volume_name)
          (generate_vector_agent_volume agent custom)
        ≡ record {
          name = codes "secret-assets";
          source = secret_source (codes "v-agent-secret-assets");
        }
          ∷ [])
unfolding vector_operator.VectorAgent.get_secret_assets_name
has_secret_assets_mount-create_vector_agent_daemon_set_example =
    has_secret_assets_mount-create_vector_agent_daemon_set agent custom
