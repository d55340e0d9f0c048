-- ===== src/Checkpoint.antt =====
-- internal/checkpoint/consolidate.go: Vector's checkpoints, merged over the source directories. A file
-- that cannot be read, a directory that cannot be made and a write that fails are all values here; the
-- temporary file that a failed write leaves behind is not part of the model.
pub mod Merge
use vector_operator.Prelude.{
  ℕ, ◌+◌, Bool, true, false, ◌||◌, Option, none, some, List, [], ◌∷◌, ltb, nat_beq, length, ◌==◌,
  if◌then◌else◌, codes,
}
use vector_operator.Prelude.Result.{Result, ok, err, ◌>>=◌, map_err}
use vector_operator.Dict.{Dict, lookup, insert}
use vector_operator.Text.{Text, text_eq, text_lt}
use vector_operator.Sort.{sort_by}

-- "1"
abbrev pub supported_version : Text
supported_version = 49 ∷ []

pub record Entry : Type 0 where
  pub raw : Text
  pub fingerprint : Text
  pub position : ℕ

pub record State : Type 0 where
  pub version : Text
  pub checkpoints : List Text

pub record EntryFields : Type 0 where
  pub raw_fingerprint : Text
  pub position : ℕ

-- encoding/json
pub record Json : Type 0 where
  pub unmarshal_state : Text → Option State
  pub unmarshal_entry : Text → Option EntryFields
  pub compact : Text → Option Text
  pub marshal_state : State → Option Text

pub data ReadError : Type 0 where
  not_exist io_error parse_error unsupported_version bad_entry bad_fingerprint : ReadError

-- a name in the data directory: what it is, and what reading its checkpoint file gives
pub record Node : Type 0 where
  pub is_dir : Bool
  pub file : Result ReadError Text

abbrev pub Disk : Type 0
Disk = Dict Text Node

-- what the file system does with a target
pub data Fault : Type 0 where
  works mkdir_fails write_fails : Fault

-- `os.ReadFile(dataDir/name/checkpoints.json)`
unfoldable pub read_file : Text → Disk → Result ReadError Text
read_file name disk = elim (lookup name disk) [
  | none ↦ err not_exist
  | some n ↦ if n.is_dir then n.file else err io_error
]

module _ (json : Json) where
  -- the body of the loop of `readCheckpoints`
  unfoldable pub read_entry : Text → Result ReadError Entry
  read_entry raw = elim (json.unmarshal_entry raw) [
    | none ↦ err bad_entry
    | some f ↦ elim (json.compact f.raw_fingerprint) [
      | none ↦ err bad_fingerprint
      | some key ↦ ok (record { raw = raw; fingerprint = key; position = f.position })
    ]
  ]

  unfoldable pub read_entries : List Text → Result ReadError (List Entry)
  unfolding read_entry
  read_entries [] = ok []
  read_entries (raw ∷ raws) = read_entry raw >>= λ e. read_entries raws >>= λ es. ok (e ∷ es)

  unfoldable pub read_state : State → Result ReadError (List Entry)
  unfolding read_entries
  read_state st =
      if st.version == supported_version
      then read_entries st.checkpoints
      else err unsupported_version

  unfoldable pub parse_checkpoints : Text → Result ReadError (List Entry)
  unfolding read_state
  parse_checkpoints text = elim (json.unmarshal_state text) [
    | none ↦ err parse_error
    | some st ↦ read_state st
  ]

  unfoldable pub read_checkpoints : Text → Disk → Result ReadError (List Entry)
  unfolding read_file parse_checkpoints
  read_checkpoints name disk = read_file name disk >>= parse_checkpoints

-- `if cur, ok := m[fp]; !ok || e.position > cur.position { m[fp] = e }`
unfoldable pub advances : Text → Entry → Dict Text Entry → Bool
advances fp e m = elim (lookup fp m) [ none ↦ true | some cur ↦ ltb cur.position e.position ]

unfoldable pub merge_entries : List Entry → Dict Text Entry → Dict Text Entry
unfolding advances
merge_entries [] m = m
merge_entries (e ∷ es) m =
    merge_entries es (if advances e.fingerprint e m then insert e.fingerprint e m else m)

-- a file that cannot be read adds nothing
unfoldable pub merge_file : Result ReadError (List Entry) → Dict Text Entry → Dict Text Entry
unfolding merge_entries
merge_file (err e) m = m
merge_file (ok es) m = merge_entries es m

unfoldable pub merge_dirs : Json → Dict Text Node → Disk → Dict Text Entry → Dict Text Entry
unfolding merge_file read_checkpoints
merge_dirs json [] disk m = m
merge_dirs json ((name, n) ∷ dirs) disk m =
    merge_dirs json dirs disk
      (if n.is_dir then merge_file (read_checkpoints json name disk) m else m)

-- the map that the entries of a target's file give
unfoldable pub index_entries : List Entry → Dict Text Entry → Dict Text Entry
index_entries [] m = m
index_entries (e ∷ es) m = index_entries es (insert e.fingerprint e m)

-- the merged entries brought into a target, with the number of changes
unfoldable pub apply_merged : Dict Text Entry → Dict Text Entry → ℕ → Dict Text Entry × ℕ
unfolding advances
apply_merged [] result changed = (result, changed)
apply_merged ((fp, m) ∷ merged) result changed =
    if advances fp m result
    then apply_merged merged (insert fp m result) (changed + 1)
    else apply_merged merged result changed

unfoldable pub map_values : Dict Text Entry → List Entry
map_values [] = []
map_values ((k, e) ∷ m) = e ∷ map_values m

abbrev pub by_fingerprint : Entry → Entry → Bool
by_fingerprint a b = text_lt a.fingerprint b.fingerprint

unfoldable pub raws : List Entry → List Text
raws [] = []
raws (e ∷ es) = e.raw ∷ raws es

-- the text that `writeCheckpoints` writes
unfoldable pub print_checkpoints : Json → List Entry → Option Text
unfolding raws
print_checkpoints json entries =
    json.marshal_state
      (record { version = supported_version; checkpoints = raws (sort_by by_fingerprint entries) })

-- a directory with the file, or with the file there was
unfoldable pub made : Text → Disk → Disk
made name disk = elim (lookup name disk) [
  | none ↦ insert name (record { is_dir = true; file = err not_exist }) disk
  | some n ↦ disk
]

unfoldable pub written : Text → Text → Disk → Disk
written name text disk = insert name (record { is_dir = true; file = ok text }) disk

unfoldable pub save : Json → Fault → Text → List Entry → Disk → Disk
unfolding print_checkpoints made written
save json mkdir_fails src entries disk = disk
save json write_fails src entries disk = made src disk
save json works src entries disk = elim (print_checkpoints json entries) [
  | none ↦ made src disk
  | some text ↦ written src text disk
]

-- the entries of a target, or none for one that is to be skipped
unfoldable pub target_entries : Json → Text → Disk → Option (List Entry)
unfolding read_checkpoints
target_entries json src disk = elim (read_checkpoints json src disk) [
  | ok es ↦ some es
  | err not_exist ↦ some []
  | err _ ↦ none
]

unfoldable pub consolidate_source : Json → (Text → Fault) → Dict Text Entry → Text → Disk → Disk
unfolding target_entries apply_merged index_entries save map_values
consolidate_source json fault merged src disk = elim (target_entries json src disk) [
  | none ↦ disk
  | some existing ↦
      let applied = apply_merged merged (index_entries existing []) 0 in
      if nat_beq applied.1 0 then disk else save json (fault src) src (map_values applied.0) disk
]

unfoldable pub consolidate_sources :
    Json → (Text → Fault) → Dict Text Entry → List Text → Disk → Disk
unfolding consolidate_source
consolidate_sources json fault merged [] disk = disk
consolidate_sources json fault merged (src ∷ sources) disk =
    consolidate_sources json fault merged sources (consolidate_source json fault merged src disk)

-- `Consolidate`, on a data directory that can be listed
unfoldable pub consolidate : Json → (Text → Fault) → List Text → Disk → Disk
unfolding merge_dirs consolidate_sources
consolidate json fault sources disk =
    let merged = merge_dirs json disk disk [] in
    if nat_beq (length merged) 0 then disk else consolidate_sources json fault merged sources disk
