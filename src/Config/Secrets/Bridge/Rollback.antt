-- ===== src/Config/Secrets/Bridge/Rollback.antt =====
-- Taking back the entries of a pipeline that does not fit.
use vector_operator.Prelude.{
  ◌≡◌, refl, true, false, Option, none, some, [], ◌∷◌, ◌++◌, In, Distinct, arith, ap, sym, ◌∙◌,
  subst, inl, inr, Bool-cases, Option-cases, append-nil, append_assoc, ◌==◌,
}
use vector_operator.Dict.{Dict, lookup, has, keys, insert, remove, lookup-insert, In-keys-insert}
use vector_operator.Text.{Text, text_eq, text_beq_iff}
use vector_operator.Config.Secrets.Types.{Library}
use vector_operator.Config.Secrets.Bridge.{
  Assets, Applied, before, apply_entry, apply_entries, restore, rollback,
}

unfoldable pub put_all : Assets → Assets → Assets
put_all [] m = m
put_all ((k, v) ∷ t) m = put_all t (insert k v m)

unfoldable olds : Assets → Assets → Dict Text (Option Text)
olds [] m = []
olds ((k, v) ∷ t) m = (k, lookup k m) ∷ olds t m

remove-absent : (k : Text) (m : Assets) → lookup k m ≡ none → remove k m ≡ m
unfolding remove lookup
remove-absent k [] h = refl
remove-absent k ((j, w) ∷ m) h = elim (Bool-cases (j == k)) [
  | inl same ↦ ground arith
  | inr other ↦ ground (arith, remove-absent k m)
]

remove-insert : (k v : Text) (m : Assets) → lookup k m ≡ none → remove k (insert k v m) ≡ m
unfolding remove insert lookup
remove-insert k v [] h = ground (arith, text_beq_iff k k)
remove-insert k v ((j, w) ∷ m) h = elim (Bool-cases (j == k)) [
  | inl same ↦ ground arith
  | inr other ↦ ground (arith, remove-insert k v m)
]

insert-insert :
    (k v old : Text) (m : Assets) → lookup k m ≡ some old → insert k old (insert k v m) ≡ m
unfolding insert lookup
insert-insert k v old [] h = cc
insert-insert k v old ((j, w) ∷ m) h = elim (Bool-cases (j == k)) [
  | inl same ↦ ground (arith, text_beq_iff j k, text_beq_iff k k)
  | inr other ↦ ground (arith, insert-insert k v old m)
]

restore-insert : (k v : Text) (m : Assets) → restore k (lookup k m) (insert k v m) ≡ m
unfolding restore
restore-insert k v m = elim (Option-cases (lookup k m)) [
  | inl e ↦ ground (arith, remove-insert k v m)
  | inr (old, e) ↦ ground (arith, insert-insert k v old m)
]

remove-other :
    (k j w : Text) (m : Assets)
    → (k == j) ≡ false
    → remove k (insert j w m) ≡ insert j w (remove k m)
unfolding remove insert
remove-other k j w [] h = ground (arith, text_beq_iff k j, text_beq_iff j k)
remove-other k j w ((i, u) ∷ m) h = ground (
  arith,
  text_beq_iff k j,
  text_beq_iff j k,
  text_beq_iff i k,
  text_beq_iff i j,
  remove-other k j w m,
)

insert-other :
    (k o j w : Text) (m : Assets)
    → (k == j) ≡ false
    → has k m ≡ true
    → insert k o (insert j w m) ≡ insert j w (insert k o m)
unfolding has insert
insert-other k o j w [] h p = cc
insert-other k o j w ((i, u) ∷ m) h p = ground (
  arith,
  text_beq_iff k j,
  text_beq_iff j k,
  text_beq_iff i k,
  text_beq_iff i j,
  insert-other k o j w m,
)

has-insert : (k j v : Text) (m : Assets) → has k m ≡ true → has k (insert j v m) ≡ true
unfolding has insert
has-insert k j v [] h = cc
has-insert k j v ((i, u) ∷ m) h =
    ground (arith, text_beq_iff i k, text_beq_iff i j, text_beq_iff j k, has-insert k j v m)

has-inserted : (k v : Text) (m : Assets) → has k (insert k v m) ≡ true
unfolding has insert
has-inserted k v [] = ground (arith, text_beq_iff k k)
has-inserted k v ((i, u) ∷ m) =
    ground (arith, text_beq_iff i k, text_beq_iff k k, has-inserted k v m)

restore-other :
    (k : Text) (o : Option Text) (j w : Text) (m : Assets)
    → (k == j) ≡ false
    → has k m ≡ true
    → restore k o (insert j w m) ≡ insert j w (restore k o m)
unfolding restore
restore-other k none j w m h p = remove-other k j w m h
restore-other k (some o) j w m h p = insert-other k o j w m h p

differ : (k j : Text) → ¬ (k ≡ j) → (k == j) ≡ false
differ k j n = ground (arith, text_beq_iff k j)

restore-put_all :
    (k : Text) (o : Option Text) (t m : Assets)
    → ¬ In k (keys t)
    → has k m ≡ true
    → restore k o (put_all t m) ≡ put_all t (restore k o m)
unfolding put_all keys
restore-put_all k o [] m n p = refl
restore-put_all k o ((j, w) ∷ t) m n p =
    restore-put_all k o t (insert j w m) (λ i. n (inr i)) (has-insert k j w m p)
    ∙ ap (put_all t) (restore-other k o j w m (differ k j (λ e. n (inl e))) p)

olds-insert : (k v : Text) (t m : Assets) → ¬ In k (keys t) → olds t (insert k v m) ≡ olds t m
unfolding olds keys
olds-insert k v [] m n = refl
olds-insert k v ((j, w) ∷ t) m n = ground (
  arith,
  olds-insert k v t m (λ i. n (inr i)),
  lookup-insert k j v m,
  differ k j (λ e. n (inl e)),
)

rollback-olds : (t m : Assets) → Distinct (keys t) → rollback (olds t m) (put_all t m) ≡ m
unfolding olds put_all rollback keys
rollback-olds [] m d = refl
rollback-olds ((k, v) ∷ t) m d =
    ap (rollback (olds t m)) (
      restore-put_all k (lookup k m) t (insert k v m) d.0 (has-inserted k v m)
      ∙ ap (put_all t) (restore-insert k v m))
    ∙ rollback-olds t m d.1

insert-fresh :
    (k : Text) (o : Option Text) (m : Dict Text (Option Text))
    → ¬ In k (keys m)
    → insert k o m ≡ m ++ (k, o) ∷ []
unfolding insert keys
insert-fresh k o [] n = refl
insert-fresh k o ((j, w) ∷ m) n =
    ground
      (arith, text_beq_iff j k, insert-fresh k o m (λ i. n (inr i)), differ k j (λ e. n (inl e)))

module _ (lib : Library) where
  pub apply_entries-bridge :
      (t : Assets) (a : Applied) → (apply_entries lib t a).bridge ≡ put_all t a.bridge
  unfolding apply_entries apply_entry put_all
  apply_entries-bridge [] a = refl
  apply_entries-bridge ((k, v) ∷ t) a = apply_entries-bridge t (apply_entry lib k v a)

  apply_entries-prior :
      (t : Assets) (a : Applied)
      → Distinct (keys t)
      → ((j : Text) → In j (keys t) → ¬ In j (keys a.prior))
      → (apply_entries lib t a).prior ≡ a.prior ++ olds t a.bridge
  unfolding apply_entries apply_entry olds keys
  apply_entries-prior [] a d n = sym (append-nil a.prior)
  apply_entries-prior ((k, v) ∷ t) a d n =
      let o = lookup k a.bridge in
      let fresh : insert k o a.prior ≡ a.prior ++ (k, o) ∷ [] =
        insert-fresh k o a.prior (n k (inl refl)) in
      apply_entries-prior t (apply_entry lib k v a) d.1 (λ j i m.
        elim (In-keys-insert k j o a.prior m) [
          | inl e ↦ d.0 (subst (λ x. In x (keys t)) e i)
          | inr p ↦ n j (inr i) p
        ])
      ∙ ap (λ x. x ++ olds t (insert k v a.bridge)) fresh
      ∙ append_assoc a.prior ((k, o) ∷ []) (olds t (insert k v a.bridge))
      ∙ ap (λ x. a.prior ++ (k, o) ∷ x) (olds-insert k v t a.bridge d.0)

  -- Taking back the entries applied to a bridge gives the bridge there was before.
  pub rollback-apply_entries :
      (t m : Assets)
      → Distinct (keys t)
      → rollback (apply_entries lib t (before m)).prior (apply_entries lib t (before m)).bridge ≡ m
  unfolding keys
  rollback-apply_entries t m d =
      ap (λ p. rollback p (apply_entries lib t (before m)).bridge)
        (apply_entries-prior t (before m) d (λ j i k. k))
      ∙ ap (rollback (olds t m)) (apply_entries-bridge t (before m))
      ∙ rollback-olds t m d
