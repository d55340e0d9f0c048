-- ===== src/Config/Secrets/Gather.antt =====
-- `gatherPendingSecretsByPipeline` of internal/config/secrets.go.
pub mod Laws
use vector_operator.Prelude.{
  ℕ, Bool, true, false, Option, none, some, List, [], ◌∷◌, ◌++◌, ltb, nat_beq, if◌then◌else◌,
}
use vector_operator.Prelude.Result.{Result, ok, err, ◌>>=◌}
use vector_operator.Dict.{Dict, lookup, insert, keys}
use vector_operator.Text.{Text, text_eq, text_lt}
use vector_operator.Sort.{sort_by}
use vector_operator.Api.{Pipeline}
use vector_operator.Config.Secrets.Types.{Library, Getter, PendingSecretRef, SecretError, unmarshal}
use vector_operator.Config.Secrets.Process.{pipeline_id, components, process_pipeline_secrets}

pub record Scan : Type 0 where
  pub by_id : Dict Text Pipeline
  pub pending : List PendingSecretRef

pub record Gathered : Type 0 where
  pub by_id : Dict Text Pipeline
  pub by_pipeline : Dict Text (List PendingSecretRef)
  pub ordered_ids : List Text

module _ (lib : Library) (getter : Option Getter) where
  -- one round of the first loop
  unfoldable pub scan_pipeline : Pipeline → Scan → Result SecretError Scan
  unfolding pipeline_id
  scan_pipeline p s = elim (lib.unmarshal_json p.spec) [
    | err e ↦ err (unmarshal (pipeline_id p) e)
    | ok cfg ↦ process_pipeline_secrets lib p getter (components cfg) s.pending >>= λ r.
        ok (record { by_id = insert (pipeline_id p) p s.by_id; pending = r.1 })
  ]

  unfoldable pub scan_pipelines : List Pipeline → Scan → Result SecretError Scan
  unfolding scan_pipeline
  scan_pipelines [] s = ok s
  scan_pipelines (p ∷ ps) s = scan_pipeline p s >>= λ s'. scan_pipelines ps s'

-- `byPipeline[id]`, where a missing key reads as nil
unfoldable pub refs_at : Text → Dict Text (List PendingSecretRef) → List PendingSecretRef
refs_at id m = elim (lookup id m) [ none ↦ [] | some refs ↦ refs ]

-- the second loop
unfoldable pub group :
    List PendingSecretRef → Dict Text (List PendingSecretRef) → Dict Text (List PendingSecretRef)
unfolding refs_at
group [] m = m
group (ref ∷ rest) m = group rest (insert ref.pipeline (refs_at ref.pipeline m ++ ref ∷ []) m)

-- a missing pipeline has no creation time; every ID that is sorted is in the map
unfoldable pub created_at : Dict Text Pipeline → Text → ℕ
created_at by_id id = elim (lookup id by_id) [ none ↦ 0 | some p ↦ p.creation_timestamp ]

-- the comparison of the sort: older first, ties by ascending ID
unfoldable pub older : Dict Text Pipeline → Text → Text → Bool
unfolding created_at text_lt
older by_id a b =
    let ta = created_at by_id a in
    let tb = created_at by_id b in if nat_beq ta tb then text_lt a b else ltb ta tb

unfoldable pub arrange : Scan → Gathered
unfolding group older sort_by keys
arrange s =
    let by_pipeline = group s.pending [] in
    record {
      by_id = s.by_id;
      by_pipeline = by_pipeline;
      ordered_ids = sort_by (older s.by_id) (keys by_pipeline);
    }

abbrev pub empty_scan : Scan
empty_scan = record { by_id = []; pending = [] }

unfoldable pub gather_pending_secrets_by_pipeline :
    Library → Option Getter → List Pipeline → Result SecretError Gathered
unfolding scan_pipelines arrange
gather_pending_secrets_by_pipeline lib getter pipelines =
    scan_pipelines lib getter pipelines empty_scan >>= λ s. ok (arrange s)
