-- ===== src/Checkpoint/Merge.antt =====
-- Merging keeps the highest position of each fingerprint, and only entries that were read.
use vector_operator.Prelude.{
  ℕ, ◌+◌, ◌≤◌, ◌≡◌, true, some, List, [], ◌∷◌, In, arith, subst, sym, ap, ◌∙◌, inl, inr, ◌⊎◌,
  Bool-cases, Option-cases, if◌then◌else◌,
}
use vector_operator.Prelude.Result.{Result, ok, err}
use vector_operator.Dict.{Dict, lookup, insert, lookup-insert}
use vector_operator.Text.{Text, text_eq, text_beq, text_beq_iff}
use vector_operator.Checkpoint.{
  Entry, ReadError, Json, Node, Disk, advances, merge_entries, merge_file, merge_dirs, apply_merged,
  read_checkpoints,
}

-- the map holds the fingerprint, at the position or past it
unfoldable pub At : Text → ℕ → Dict Text Entry → Type 0
At fp n m = (r : Entry) × (lookup fp m ≡ some r) × (n ≤ r.position)

pub advance-At :
    (fp : Text) (e : Entry) (m : Dict Text Entry)
    → At fp e.position (if advances fp e m then insert fp e m else m)
unfolding At advances
advance-At fp e m = elim (Bool-cases (advances fp e m)) [
  | inl up ↦ rw up (e, lookup-insert fp fp e m ∙ ground (arith, text_beq_iff fp fp), ground arith)
  | inr stay ↦ elim (Option-cases (lookup fp m)) [
    | inl q ↦ absurd (ground arith)
    | inr (c, q) ↦ rw stay (c, q, ground arith)
  ]
]

pub advance-keeps :
    (fp j : Text) (n : ℕ) (e : Entry) (m : Dict Text Entry)
    → At j n m
    → At j n (if advances fp e m then insert fp e m else m)
unfolding At advances
advance-keeps fp j n e m (r, q, le) = elim (Bool-cases (advances fp e m)) [
  | inl up ↦ elim (Bool-cases (text_beq fp j)) [
    | inl same ↦
        let f : lookup fp m ≡ some r =
          subst (λ x. lookup x m ≡ some r) (sym ((text_beq_iff fp j).0 same)) q in
        rw up (e, lookup-insert fp j e m ∙ ground arith, ground arith)
    | inr other ↦ rw up (r, lookup-insert fp j e m ∙ ground arith, le)
  ]
  | inr stay ↦ rw stay (r, q, le)
]

pub merge_entries-keeps :
    (es : List Entry) (j : Text) (n : ℕ) (m : Dict Text Entry)
    → At j n m
    → At j n (merge_entries es m)
unfolding merge_entries
merge_entries-keeps [] j n m a = a
merge_entries-keeps (e ∷ es) j n m a =
    merge_entries-keeps es j n (if advances e.fingerprint e m then insert e.fingerprint e m else m)
      (advance-keeps e.fingerprint j n e m a)

merge_entries-At :
    (es : List Entry) (e : Entry) (m : Dict Text Entry)
    → In e es
    → At e.fingerprint e.position (merge_entries es m)
unfolding merge_entries
merge_entries-At [] e m i = absurd i
merge_entries-At (x ∷ es) e m (inl q) =
    let next = if advances x.fingerprint x m then insert x.fingerprint x m else m in
    subst (λ y. At y.fingerprint y.position (merge_entries es next)) (sym q)
      (merge_entries-keeps es x.fingerprint x.position next (advance-At x.fingerprint x m))
merge_entries-At (x ∷ es) e m (inr i) =
    merge_entries-At es e (if advances x.fingerprint x m then insert x.fingerprint x m else m) i

module _ (json : Json) where
  merge_file-keeps :
      (r : Result ReadError (List Entry)) (j : Text) (n : ℕ) (m : Dict Text Entry)
      → At j n m
      → At j n (merge_file r m)
  unfolding merge_file
  merge_file-keeps (ok es) j n m a = merge_entries-keeps es j n m a
  merge_file-keeps (err e) j n m a = a

  merge_dirs-keeps :
      (dirs : Dict Text Node) (disk : Disk) (j : Text) (n : ℕ) (m : Dict Text Entry)
      → At j n m
      → At j n (merge_dirs json dirs disk m)
  unfolding merge_dirs
  merge_dirs-keeps [] disk j n m a = a
  merge_dirs-keeps ((name, d) ∷ dirs) disk j n m a = elim (Bool-cases d.is_dir) [
    | inl dir ↦ rw dir (
        merge_dirs-keeps dirs disk j n (merge_file (read_checkpoints json name disk) m)
          (merge_file-keeps (read_checkpoints json name disk) j n m a))
    | inr other ↦ rw other (merge_dirs-keeps dirs disk j n m a)
  ]

  -- Every entry of every directory whose file can be read is merged: the map has its fingerprint, at
  -- its position or a higher one.
  pub merge_dirs-At :
      (dirs : Dict Text Node) (disk : Disk) (m : Dict Text Entry) (name : Text) (d : Node)
      (es : List Entry) (e : Entry)
      → In (name, d) dirs
      → d.is_dir ≡ true
      → read_checkpoints json name disk ≡ ok es
      → In e es
      → At e.fingerprint e.position (merge_dirs json dirs disk m)
  unfolding merge_dirs merge_file
  merge_dirs-At [] disk m name d es e i t h k = absurd i
  merge_dirs-At ((name', d') ∷ dirs) disk m name d es e (inl q) t h k =
      let f : name ≡ name' = ap (λ x. x.0) q in
      let g : d' ≡ d = sym (ap (λ x. x.1) q) in
      rw (g, t, sym f, h)
        (merge_dirs-keeps dirs disk e.fingerprint e.position (merge_entries es m)
          (merge_entries-At es e m k))
  merge_dirs-At ((name', d') ∷ dirs) disk m name d es e (inr i) t h k =
      merge_dirs-At dirs disk
        (if d'.is_dir then merge_file (read_checkpoints json name' disk) m else m) name d es e i t h
        k

pub apply_merged-keeps :
    (merged result : Dict Text Entry) (c : ℕ) (j : Text) (n : ℕ)
    → At j n result
    → At j n (apply_merged merged result c).0
unfolding apply_merged
apply_merged-keeps [] result c j n a = a
apply_merged-keeps ((fp, m) ∷ merged) result c j n a =
    let next = advance-keeps fp j n m result a in
    elim (Bool-cases (advances fp m result)) [
      | inl up ↦ rw up (apply_merged-keeps merged (insert fp m result) (c + 1) j n (rw up at next))
      | inr stay ↦ rw stay (apply_merged-keeps merged result c j n a)
    ]

apply_merged-lands :
    (merged result : Dict Text Entry) (c : ℕ) (fp : Text) (n : ℕ)
    → At fp n merged
    → At fp n (apply_merged merged result c).0
unfolding apply_merged At lookup
apply_merged-lands [] result c fp n (r, q, le) = absurd (ground arith)
apply_merged-lands ((j, m) ∷ merged) result c fp n (r, q, le) = elim (Bool-cases (text_beq j fp)) [
  | inl same ↦
      let next = if advances j m result then insert j m result else result in
      let e : m ≡ r = ground arith in
      let f : j ≡ fp = (text_beq_iff j fp).0 same in
      let (s, k, l) = advance-At j m result in
      let held : At fp n next = (s, subst (λ x. lookup x next ≡ some s) f k, ground arith) in
      elim (Bool-cases (advances j m result)) [
        | inl up ↦
            rw up (apply_merged-keeps merged (insert j m result) (c + 1) fp n (rw up at held))
        | inr stay ↦ rw stay (apply_merged-keeps merged result c fp n (rw stay at held))
      ]
  | inr other ↦
      let rest : At fp n merged = (r, ground arith, le) in
      elim (Bool-cases (advances j m result)) [
        | inl up ↦ rw up (apply_merged-lands merged (insert j m result) (c + 1) fp n rest)
        | inr stay ↦ rw stay (apply_merged-lands merged result c fp n rest)
      ]
]

-- Once the merged entries are applied to a target, it holds every fingerprint that is merged, at the
-- merged position or a higher one, and every fingerprint it held, at its position or a higher one.
pub apply_merged-At :
    (merged result : Dict Text Entry) (c : ℕ) (fp : Text) (n : ℕ)
    → At fp n merged ⊎ At fp n result
    → At fp n (apply_merged merged result c).0
apply_merged-At merged result c fp n (inl a) = apply_merged-lands merged result c fp n a
apply_merged-At merged result c fp n (inr a) = apply_merged-keeps merged result c fp n a
