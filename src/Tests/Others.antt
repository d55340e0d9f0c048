-- ===== src/Tests/Others.antt =====
-- The secret index and the checkpoints at concrete inputs.
use vector_operator.Prelude.{◌≡◌, refl, true, none, some, [], ◌∷◌, inl, codes, arith}
use vector_operator.Prelude.Result.{ok}
use vector_operator.Dict.{lookup}
use vector_operator.Sets.{contains}
use vector_operator.Text.{text_eq}
use vector_operator.Pipeline.SecretIndex.{
  NamespacedName, name_eq, new_secret_index, set, pipelines_for,
}
use vector_operator.Pipeline.SecretIndex.Laws.{
  IsConsistent, new_secret_index-IsConsistent, pipelines_for-set, set-IsConsistent,
}
use vector_operator.Checkpoint.{
  Entry, Json, Node, Disk, merge_dirs, apply_merged, read_checkpoints, supported_version,
}
use vector_operator.Checkpoint.Merge.{At, merge_dirs-At, apply_merged-At}

abbrev app : NamespacedName
app = record { namespace = codes "a"; name = codes "app" }

abbrev creds : NamespacedName
creds = record { namespace = codes "a"; name = codes "creds" }

pipelines_for-set_example :
    contains app (pipelines_for (set new_secret_index app (creds ∷ [])) creds) ≡ true
unfolding contains
pipelines_for-set_example =
    pipelines_for-set new_secret_index-IsConsistent app (creds ∷ []) creds app

set-IsConsistent_example : IsConsistent (set new_secret_index app (creds ∷ []))
set-IsConsistent_example = set-IsConsistent new_secret_index-IsConsistent app (creds ∷ [])

-- entries that are written as the fingerprint alone, with a fixed position
abbrev json : Json
json = record {
  unmarshal_state = λ t. some (record { version = supported_version; checkpoints = t ∷ [] });
  unmarshal_entry = λ t. some (record { raw_fingerprint = t; position = 7 });
  compact = λ t. some t;
  marshal_state = λ s. elim s.checkpoints [ [] ↦ none | t ∷ _ ↦ some t ];
}

abbrev node : Node
node = record { is_dir = true; file = ok (codes "f1") }

abbrev disk : Disk
disk = (codes "old_source", node) ∷ []

abbrev entry : Entry
entry = record { raw = codes "f1"; fingerprint = codes "f1"; position = 7 }

merge_dirs-At_example : At (codes "f1") 7 (merge_dirs json disk disk [])
unfolding read_checkpoints lookup
merge_dirs-At_example =
    merge_dirs-At json disk disk [] (codes "old_source") node (entry ∷ []) entry (inl refl) refl
      refl (inl refl)

merged_entry : At (codes "f1") 7 ((codes "f1", entry) ∷ [])
unfolding At lookup
merged_entry = (entry, refl, omega arith)

apply_merged-At_example : At (codes "f1") 7 (apply_merged ((codes "f1", entry) ∷ []) [] 0).0
apply_merged-At_example =
    apply_merged-At ((codes "f1", entry) ∷ []) [] 0 (codes "f1") 7 (inl merged_entry)
