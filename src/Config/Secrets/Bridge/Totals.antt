-- ===== src/Config/Secrets/Bridge/Totals.antt =====
-- The running totals of the bridge against the sizes of its data.
use vector_operator.Prelude.{
  ℕ, ◌+◌, ◌≤◌, ◌≡◌, refl, false, Option, none, some, List, [], ◌∷◌, Distinct, arith, ap, sym, ◌∙◌,
  subst, inl, inr, ◌⊎◌, Bool-cases, Option-cases, ◌==◌, length,
}
use vector_operator.Prelude.Int.{ℤ, pos, pos_part, neg_part, ◌+ℤ◌, ◌-ℤ◌, int_laws, eq_of_parts}
use vector_operator.Prelude.Result.{ok, ◌>>=◌, >>=-eq-ok}
use vector_operator.Dict.{lookup, keys, insert, insert-Distinct}
use vector_operator.Sets.{contains, add}
use vector_operator.Text.{Text, text_eq, text_beq_iff}
use vector_operator.Api.{Pipeline}
use vector_operator.Config.Secrets.Types.{Library, Getter, Secret, PendingSecretRef}
use vector_operator.Config.Secrets.Resolve.{Cache, value_of}
use vector_operator.Config.Secrets.Gather.{Gathered, refs_at, gather_pending_secrets_by_pipeline}
use vector_operator.Config.Secrets.Size.{
  secret_data_size, secret_data_entry_size, entries_size, secret_object_size,
  secret_assets_object_budget, secret_object_base_size,
}
use vector_operator.Config.Secrets.Bridge.{
  Assets, Applied, before, refund, apply_entry, apply_entries, rollback, Bridge, over_budget, stage,
  bridge_pipeline, bridge_all, opening, bridge_assets, tentative_values,
}
use vector_operator.Config.Secrets.Bridge.Rollback.{rollback-apply_entries}

given_back : Option Text → ℕ
given_back none = 0
given_back (some v) = length v

size-insert :
    (k v : Text) (m : Assets)
    → secret_data_size (insert k v m) + given_back (lookup k m) ≡ secret_data_size m + length v
unfolding secret_data_size insert lookup given_back
size-insert k v [] = ground arith
size-insert k v ((j, w) ∷ m) = elim (Bool-cases (j == k)) [
  | inl same ↦ ground arith
  | inr other ↦ ground (arith, size-insert k v m)
]

module _ (lib : Library) where
  object_given_back : Text → Option Text → ℕ
  object_given_back k none = 0
  object_given_back k (some v) = secret_data_entry_size lib k v

  entries-insert :
      (k v : Text) (m : Assets)
      → entries_size lib (insert k v m) + object_given_back k (lookup k m)
        ≡ entries_size lib m + secret_data_entry_size lib k v
  unfolding entries_size insert lookup object_given_back
  entries-insert k v [] = ground arith
  entries-insert k v ((j, w) ∷ m) = elim (Bool-cases (j == k)) [
    | inl same ↦ ground (arith, text_beq_iff j k)
    | inr other ↦ ground (arith, entries-insert k v m)
  ]

  -- The deltas are exact: added to what was there before, they give the sizes of the data.
  abbrev Tracks : ℤ → ℤ → Applied → Type 0
  Tracks x y a =
      (pos (secret_data_size a.bridge) ≡ x +ℤ a.values_delta)
      × (pos (entries_size lib a.bridge) ≡ y +ℤ a.object_delta)

  grow : (n m w : ℕ) (x d : ℤ) → n + 0 ≡ m + w → pos m ≡ x +ℤ d → pos n ≡ x +ℤ (d +ℤ pos w)
  grow n m w x d h k =
      let p : m ≡ pos_part (x +ℤ d) = ap pos_part k in
      let q : 0 ≡ neg_part (x +ℤ d) = ap neg_part k in
      eq_of_parts (pos n) (x +ℤ (d +ℤ pos w)) (omega (int_laws, p, q))

  shift :
      (n m g w : ℕ) (x d : ℤ)
      → n + g ≡ m + w
      → pos m ≡ x +ℤ d
      → pos n ≡ x +ℤ ((d -ℤ pos g) +ℤ pos w)
  shift n m g w x d h k =
      let p : m ≡ pos_part (x +ℤ d) = ap pos_part k in
      let q : 0 ≡ neg_part (x +ℤ d) = ap neg_part k in
      eq_of_parts (pos n) (x +ℤ ((d -ℤ pos g) +ℤ pos w)) (omega (int_laws, p, q))

  no_delta : (n : ℕ) → pos n ≡ pos n +ℤ pos 0
  no_delta n = eq_of_parts (pos n) (pos n +ℤ pos 0) (omega int_laws)

  with_base : (b n m : ℕ) (d : ℤ) → pos m ≡ pos n +ℤ d → pos (b + n) +ℤ d ≡ pos (b + m)
  with_base b n m d k =
      let p : m ≡ pos_part (pos n +ℤ d) = ap pos_part k in
      let q : 0 ≡ neg_part (pos n +ℤ d) = ap neg_part k in
      eq_of_parts (pos (b + n) +ℤ d) (pos (b + m)) (omega (int_laws, p, q))

  apply_entry-Tracks :
      (k v : Text) (x y : ℤ) (a : Applied) → Tracks x y a → Tracks x y (apply_entry lib k v a)
  unfolding apply_entry refund given_back object_given_back
  apply_entry-Tracks k v x y a (h, i) =
      let s = size-insert k v a.bridge in
      let o = entries-insert k v a.bridge in
      let n = secret_data_size (insert k v a.bridge) in
      let m = entries_size lib (insert k v a.bridge) in
      let w = secret_data_entry_size lib k v in
      elim (Option-cases (lookup k a.bridge)) [
        | inl e ↦ rw e (
          grow n (secret_data_size a.bridge) (length v) x a.values_delta (rw e at s) h,
          grow m (entries_size lib a.bridge) w y a.object_delta (rw e at o) i,
        )
        | inr (old, e) ↦ rw e (
          shift n (secret_data_size a.bridge) (length old) (length v) x a.values_delta (rw e at s)
              h,
          shift m (entries_size lib a.bridge) (secret_data_entry_size lib k old) w y a.object_delta
              (rw e at o) i,
        )
      ]

  apply_entries-Tracks :
      (t : Assets) (x y : ℤ) (a : Applied) → Tracks x y a → Tracks x y (apply_entries lib t a)
  unfolding apply_entries
  apply_entries-Tracks [] x y a h = h
  apply_entries-Tracks ((k, v) ∷ t) x y a h =
      apply_entries-Tracks t x y (apply_entry lib k v a) (apply_entry-Tracks k v x y a h)

  -- the limits of the Secret that is written
  unfoldable pub Fits : Option Secret → Assets → Type 0
  Fits prototype m =
      (secret_data_size m ≤ lib.max_secret_size)
      × (secret_object_size lib prototype m ≤ secret_assets_object_budget lib)

  module _ (getter : Getter) (prototype : Option Secret) (existing : Assets) where
    -- The totals are those of the data, and the data is within the limits or still what it was.
    abbrev pub Balanced : Bridge → Type 0
    Balanced b =
        (b.values_total ≡ pos (secret_data_size b.bridge))
        × (b.object_total ≡ pos (secret_object_size lib prototype b.bridge))
        × ((b.bridge ≡ existing) ⊎ Fits prototype b.bridge)

    tentative_values-Distinct :
        (refs : List PendingSecretRef) (seen : List Text) (t : Assets) (c : Cache) (t' : Assets)
        (c' : Cache)
        → Distinct (keys t)
        → tentative_values getter refs seen t c ≡ ok (t', c')
        → Distinct (keys t')
    unfolding tentative_values
    tentative_values-Distinct [] seen t c t' c' d h =
        let same : t ≡ t' = ground arith in subst (λ x. Distinct {A = Text} (keys x)) same d
    tentative_values-Distinct (ref ∷ refs) seen t c t' c' d h =
        elim (Bool-cases (contains ref.flat seen)) [
          | inl skip ↦ tentative_values-Distinct refs seen t c t' c' d (rw skip at h)
          | inr new ↦
              let (r, i, j) =
                >>=-eq-ok (value_of getter ref c)
                  (λ r.
                    tentative_values getter refs (add ref.flat seen) (insert ref.flat r.0 t) r.1)
                  (rw new at h) in
              tentative_values-Distinct refs (add ref.flat seen) (insert ref.flat r.0 t) r.1 t' c'
                (insert-Distinct ref.flat r.0 t d) j
        ]

    within :
        (n m : ℕ)
        → over_budget lib getter (pos n) (pos m) ≡ false
        → (n ≤ lib.max_secret_size) × (m ≤ secret_assets_object_budget lib)
    unfolding over_budget
    within n m h = ground arith

    stage-Balanced :
        (p : Option Pipeline) (t : Assets) (c : Cache) (b : Bridge)
        → Distinct (keys t)
        → Balanced b
        → Balanced (stage lib getter p t c b)
    unfolding stage Fits secret_object_size
    stage-Balanced p t c b d (v, o, f) =
        let a = apply_entries lib t (before b.bridge) in
        let z = pos (secret_data_size b.bridge) in
        let e = entries_size lib b.bridge in
        let base = secret_object_base_size lib prototype in
        let (i, j) =
          apply_entries-Tracks t z (pos e) (before b.bridge)
            (no_delta (secret_data_size b.bridge), no_delta e) in
        let v' : b.values_total +ℤ a.values_delta ≡ pos (secret_data_size a.bridge) =
          ap (λ x. x +ℤ a.values_delta) v ∙ sym i in
        let o' : b.object_total +ℤ a.object_delta ≡ pos (base + entries_size lib a.bridge) =
          ap (λ x. x +ℤ a.object_delta) o
          ∙ with_base base e (entries_size lib a.bridge) a.object_delta j in
        let back : rollback a.prior a.bridge ≡ b.bridge = rollback-apply_entries lib t b.bridge d in
        elim (Bool-cases (
          over_budget lib getter (b.values_total +ℤ a.values_delta)
            (b.object_total +ℤ a.object_delta))) [
              | inl full ↦ rw full (rw back (v, o, f))
              | inr fits ↦ rw fits (
                v',
                o',
                inr (
                    within (secret_data_size a.bridge) (base + entries_size lib a.bridge)
                      (rw (v', o') at fits)),
              )
            ]

    bridge_all-Balanced :
        (g : Gathered) (ids : List Text) (b b' : Bridge)
        → Balanced b
        → bridge_all lib getter g ids b ≡ ok b'
        → Balanced b'
    unfolding bridge_all bridge_pipeline keys
    bridge_all-Balanced g [] b b' i h = let same : b ≡ b' = ground arith in subst Balanced same i
    bridge_all-Balanced g (id ∷ ids) b b' i h =
        let (c, k, l) =
          >>=-eq-ok (bridge_pipeline lib getter g id b) (bridge_all lib getter g ids) h in
        let (r, m, n) =
          >>=-eq-ok (tentative_values getter (refs_at id g.by_pipeline) [] [] b.cache)
            (λ r. ok (stage lib getter (lookup id g.by_id) r.0 r.1 b)) k in
        let d : Distinct {A = Text} (keys r.0) =
          tentative_values-Distinct (refs_at id g.by_pipeline) [] [] b.cache r.0 r.1 tt m in
        let same : stage lib getter (lookup id g.by_id) r.0 r.1 b ≡ c = ground arith in
        bridge_all-Balanced g ids c b'
          (subst Balanced same (stage-Balanced (lookup id g.by_id) r.0 r.1 b d i)) l

-- The data that `bridge_assets` returns is the existing data, unchanged, or keeps both limits: its
-- values take at most `max_secret_size` bytes, and the object at most its budget.
pub bridge_assets-Fits :
    (lib : Library) (getter : Getter) (prototype : Option Secret) (existing : Assets)
    (ps : List Pipeline) (m : Assets) (waiting : List (Option Pipeline))
    → bridge_assets lib getter prototype existing ps ≡ ok (m, waiting)
    → (m ≡ existing) ⊎ Fits lib prototype m
unfolding bridge_assets opening
bridge_assets-Fits lib getter prototype existing [] m waiting h = inl (ground arith)
bridge_assets-Fits lib getter prototype existing (p ∷ ps) m waiting h =
    let (g, i, j) =
      >>=-eq-ok (gather_pending_secrets_by_pipeline lib (some getter) (p ∷ ps))
        (λ g. bridge_all lib getter g g.ordered_ids (opening lib getter prototype existing) >>= λ b.
          ok (b.bridge, b.waiting))
        h in
    let (b, k, l) =
      >>=-eq-ok (bridge_all lib getter g g.ordered_ids (opening lib getter prototype existing))
        (λ b. ok (b.bridge, b.waiting)) j in
    let done =
      bridge_all-Balanced lib getter prototype existing g g.ordered_ids
        (opening lib getter prototype existing) b (refl, refl, inl refl) k in
    let same : b.bridge ≡ m = ground arith in
    subst (λ x. (x ≡ existing) ⊎ Fits lib prototype x) same done.2
