-- ===== src/Tests/Data.antt =====
-- Two VectorPipelines whose names give one flat key, a Secret, and the libraries on small inputs.
use vector_operator.Prelude.{ℕ, ◌+◌, true, none, some, [], ◌∷◌, codes, length}
use vector_operator.Prelude.Result.{ok, err}
use vector_operator.Dict.{Dict}
use vector_operator.Text.{Text}
use vector_operator.Api.{Pipeline, Spec, Backend, vector_pipeline, cluster_vector_pipeline}
use vector_operator.Config.Types.{PipelineConfig, Fields, end, field, str}
use vector_operator.Config.Secrets.Types.{Library, Getter, Secret, PendingSecretRef}
use vector_operator.Config.Secrets.Collisions.{SecretCollision}

abbrev pub options : Fields
options = field (codes "password") (str (codes "SECRET[db.pass]")) end

abbrev pub rewritten : Fields
rewritten = field (codes "password") (str (codes "SECRET[k8s.a_b_c_db_pass]")) end

abbrev pub config : PipelineConfig
config = record {
  sources = [];
  transforms = [];
  sinks =
      (codes "out", record { name = []; type = codes "http"; inputs = []; options = options }) ∷ [];
}

abbrev pub lib : Library
lib = record {
  dns1123_subdomain_max_length = 253;
  max_secret_size = 1048576;
  total_annotation_size_limit = 262144;
  unmarshal_json = λ s. elim s.sinks [ none ↦ err (codes "no sinks") | some t ↦ ok config ];
  secret_size = λ s. 20 + length s.data_map;
}

abbrev pub backends : Dict Text Backend
backends =
    (codes "db", record { type = codes "kubernetes"; name = codes "creds"; namespace = [] }) ∷ []

abbrev pub spec : Spec
spec = record { sources = none; transforms = none; sinks = some (codes "{}"); secret = backends }

abbrev pub pipeline : Text → Text → ℕ → Pipeline
pipeline ns n t = record {
  kind = vector_pipeline;
  namespace = ns;
  name = n;
  creation_timestamp = t;
  deletion_timestamp = none;
  labels = [];
  annotations = [];
  spec = spec;
  status = record {
    role = none;
    config_check_result = some true;
    reason = none;
    last_applied_pipeline_hash = none;
    related_secrets_hash = none;
  };
}

abbrev pub first : Pipeline
first = pipeline (codes "a") (codes "b-c") 1

abbrev pub second : Pipeline
second = pipeline (codes "a-b") (codes "c") 2

abbrev pub secret : Secret
secret = record { meta = []; data_map = (codes "pass", codes "hunter2") ∷ [] }

abbrev pub getter : Getter
getter ns n = ok secret

abbrev pub first_ref : PendingSecretRef
first_ref = record {
  flat = codes "a_b_c_db_pass";
  resolve_ns = codes "a";
  secret_name = codes "creds";
  key = codes "pass";
  pipeline = codes "a/b-c";
}

abbrev pub second_ref : PendingSecretRef
second_ref = record {
  flat = codes "a_b_c_db_pass";
  resolve_ns = codes "a-b";
  secret_name = codes "creds";
  key = codes "pass";
  pipeline = codes "a-b/c";
}

-- a ClusterVectorPipeline that reads the Secret of the first one under the same flat key
abbrev pub shared : Pipeline
shared = record (pipeline [] (codes "a-b-c") 3) {
  kind = cluster_vector_pipeline;
  spec = record spec {
    secret =
        (
          codes "db",
          record { type = codes "kubernetes"; name = codes "creds"; namespace = codes "a" },
        )
        ∷ [];
  };
}

abbrev pub shared_ref : PendingSecretRef
shared_ref = record {
  flat = codes "a_b_c_db_pass";
  resolve_ns = codes "a";
  secret_name = codes "creds";
  key = codes "pass";
  pipeline = codes "a-b-c";
}

abbrev pub collision : SecretCollision
collision = record {
  victim = some second;
  survivor = codes "a/b-c";
  flat_key = codes "a_b_c_db_pass";
}
