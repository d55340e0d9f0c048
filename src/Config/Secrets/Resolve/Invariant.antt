-- ===== src/Config/Secrets/Resolve/Invariant.antt =====
-- The invariant of the loop of `resolve_pending_secrets`.
use vector_operator.Prelude.{
  ◌≡◌, refl, true, some, List, [], ◌∷◌, In, onto, arith, ap, sym, ◌∙◌, subst, Option-cases,
  Bool-cases, inl, inr, ◌==◌, if◌then◌else◌,
}
use vector_operator.Prelude.Result.{Result, ok, err, >>=-eq-ok}
use vector_operator.Dict.{Dict, lookup, insert, lookup-insert}
use vector_operator.Text.{Text, text_eq, text_beq_iff}
use vector_operator.Config.Secrets.Types.{Getter, Secret, PendingSecretRef, secret_resolve}
use vector_operator.Config.Secrets.Resolve.{
  fetch, checked_value, ResolveState, same_tuple, claim, no_wrap, resolve_step, resolve_loop, start,
}
use vector_operator.Config.Secrets.Resolve.Reads.{
  IsNamespaced, found_value, reads, CacheIsSound, nil-CacheIsSound, fetch-ok, checked_value-ok,
}

pub same_tuple_iff :
    (a b : PendingSecretRef)
    → same_tuple a b ≡ true
    → (a.resolve_ns ≡ b.resolve_ns) × (a.secret_name ≡ b.secret_name) × (a.key ≡ b.key)
same_tuple_iff a b h = ground (
  arith,
  text_beq_iff a.resolve_ns b.resolve_ns,
  text_beq_iff a.secret_name b.secret_name,
  text_beq_iff a.key b.key,
)

pub same_tuple_join :
    (o a b : PendingSecretRef)
    → same_tuple o a ≡ true
    → same_tuple o b ≡ true
    → same_tuple a b ≡ true
same_tuple_join o a b h k = ground (
  arith,
  same_tuple_iff o a,
  same_tuple_iff o b,
  text_beq_iff a.resolve_ns b.resolve_ns,
  text_beq_iff a.secret_name b.secret_name,
  text_beq_iff a.key b.key,
)

pub same_tuple_refl : (a : PendingSecretRef) → same_tuple a a ≡ true
same_tuple_refl a = ground (
  arith,
  text_beq_iff a.resolve_ns a.resolve_ns,
  text_beq_iff a.secret_name a.secret_name,
  text_beq_iff a.key a.key,
)

found_value-key :
    (getter : Getter) (a b : PendingSecretRef) (x : Result Text Secret)
    → a.key ≡ b.key
    → found_value getter a x ≡ found_value getter b x
unfolding found_value
found_value-key getter a b (err e) h = refl
found_value-key getter a b (ok s) h = rw h refl

module _ (getter : Getter) where
  pub reads-same_tuple :
      (a b : PendingSecretRef) → same_tuple a b ≡ true → reads getter a ≡ reads getter b
  unfolding reads
  reads-same_tuple a b h =
      let (p, q, k) = same_tuple_iff a b h in rw (p, q) (found_value-key getter a b _ k)

  -- what the loop has established for the references that it has passed
  pub record Resolved (passed : List PendingSecretRef) (st : ResolveState) : Type 0 where
    pub sound : CacheIsSound getter st.cache
    pub present :
        (r : PendingSecretRef)
        → In r passed
        → (v : Text) × (reads getter r ≡ some v) × (lookup r.flat st.assets ≡ some v)
    pub nothing_else :
        (k v : Text)
        → lookup k st.assets ≡ some v
        → (r : PendingSecretRef) × In r passed × (r.flat ≡ k) × (reads getter r ≡ some v)
    pub owned :
        (r : PendingSecretRef)
        → In r passed
        → (o : PendingSecretRef) × (lookup r.flat st.origins ≡ some o) × (same_tuple o r ≡ true)

  pub start-Resolved : Resolved [] start
  unfolding lookup
  start-Resolved = record {
    sound = nil-CacheIsSound getter;
    present = λ r m. elim m [ ];
    nothing_else = λ k v h. cc;
    owned = λ r m. elim m [ ];
  }

  -- the parts of a step that succeeds
  pub record StepParts (ref : PendingSecretRef) (st st' : ResolveState) : Type 0 where
    pub secret : Secret
    pub claimed : claim ref st.origins ≡ ok st'.origins
    pub fetched : fetch getter secret_resolve ref st.cache ≡ ok (secret, st'.cache)
    pub value : Text
    pub checked : checked_value no_wrap ref secret ≡ ok value
    pub stored : st'.assets ≡ insert ref.flat value st.assets

  pub step_parts :
      (ref : PendingSecretRef) (st st' : ResolveState)
      → resolve_step getter ref st ≡ ok st'
      → StepParts ref st st'
  unfolding resolve_step
  step_parts ref st st' h =
      let (origins, c, h₁) = >>=-eq-ok (claim ref st.origins) _ h in
      let (r, f, h₂) = >>=-eq-ok (fetch getter secret_resolve ref st.cache) _ h₁ in
      let (v, k, h₃) = >>=-eq-ok (checked_value no_wrap ref r.0) _ h₂ in
      record {
        secret = r.0;
        claimed = ground arith;
        fetched = ground arith;
        value = v;
        checked = k;
        stored = ground arith;
      }

  claim-owned :
      (ref : PendingSecretRef) (origins origins' : Dict Text PendingSecretRef)
      → claim ref origins ≡ ok origins'
      → (o : PendingSecretRef) × (lookup ref.flat origins' ≡ some o) × (same_tuple o ref ≡ true)
  unfolding claim
  claim-owned ref origins origins' h = elim (Option-cases (lookup ref.flat origins)) [
    | inr (o, e) ↦ (o, ground arith, ground arith)
    | inl e ↦ (
      ref,
      ground (arith, lookup-insert ref.flat ref.flat ref origins, text_beq_iff ref.flat ref.flat),
      same_tuple_refl ref,
    )
  ]

  claim-keeps :
      (ref : PendingSecretRef) (origins origins' : Dict Text PendingSecretRef) (k : Text)
      {o : PendingSecretRef}
      → claim ref origins ≡ ok origins'
      → lookup k origins ≡ some o
      → lookup k origins' ≡ some o
  unfolding claim
  claim-keeps ref origins origins' k {o} h e =
      ground (arith, lookup-insert ref.flat k ref origins, text_beq_iff ref.flat k)

  pub claim-same :
      (ref : PendingSecretRef) (origins origins' : Dict Text PendingSecretRef)
      {o : PendingSecretRef}
      → claim ref origins ≡ ok origins'
      → lookup ref.flat origins ≡ some o
      → same_tuple o ref ≡ true
  unfolding claim
  claim-same ref origins origins' {o} h e = ground arith

  module _ (ref : PendingSecretRef) (passed : List PendingSecretRef) (st st' : ResolveState)
      (n : IsNamespaced ref) (parts : StepParts ref st st') (inv : Resolved passed st) where
    step-reads : reads getter ref ≡ some parts.value
    unfolding reads
    step-reads =
        rw (fetch-ok getter secret_resolve ref st.cache n inv.sound parts.fetched).0
          (checked_value-ok getter no_wrap ref st.cache parts.secret parts.checked)

    step-lookup :
        (k : Text)
        → lookup k st'.assets ≡ (if ref.flat == k then some parts.value else lookup k st.assets)
    step-lookup k = rw parts.stored (lookup-insert ref.flat k parts.value st.assets)

    step-present :
        (r : PendingSecretRef)
        → In r (ref ∷ passed)
        → (v : Text) × (reads getter r ≡ some v) × (lookup r.flat st'.assets ≡ some v)
    step-present r (inl e) = (
      parts.value,
      ap (reads getter) e ∙ step-reads,
      ground (arith, step-lookup r.flat, text_beq_iff ref.flat r.flat),
    )
    step-present r (inr m) = elim (Bool-cases (ref.flat == r.flat)) [
      | inr other ↦ let (v, g, l) = inv.present r m in (v, g, step-lookup r.flat ∙ rw other l)
      | inl same ↦
          let (o, l, t) = inv.owned r m in
          let flats : ref.flat ≡ r.flat = (text_beq_iff ref.flat r.flat).0 same in
          let u = claim-same ref st.origins st'.origins {o = o} parts.claimed (rw flats l) in
          (
            parts.value,
            sym (reads-same_tuple ref r (same_tuple_join o ref r u t)) ∙ step-reads,
            step-lookup r.flat ∙ rw same refl,
          )
    ]

    step-nothing_else :
        (k v : Text)
        → lookup k st'.assets ≡ some v
        → (r : PendingSecretRef) × In r (ref ∷ passed) × (r.flat ≡ k) × (reads getter r ≡ some v)
    step-nothing_else k v e = elim (Bool-cases (ref.flat == k)) [
      | inr other ↦
          let (r, m, f, g) = inv.nothing_else k v (ground (arith, step-lookup k)) in
          (r, inr m, f, g)
      | inl same ↦ (
        ref,
        inl refl,
        (text_beq_iff ref.flat k).0 same,
        step-reads ∙ (ground (arith, step-lookup k)),
      )
    ]

    step-owned :
        (r : PendingSecretRef)
        → In r (ref ∷ passed)
        → (o : PendingSecretRef) × (lookup r.flat st'.origins ≡ some o) × (same_tuple o r ≡ true)
    step-owned r (inl e) = rw e (claim-owned ref st.origins st'.origins parts.claimed)
    step-owned r (inr m) =
        let (o, l, t) = inv.owned r m in
        (o, claim-keeps ref st.origins st'.origins r.flat parts.claimed l, t)

    pub step-Resolved : Resolved (ref ∷ passed) st'
    step-Resolved = record {
      sound = (fetch-ok getter secret_resolve ref st.cache n inv.sound parts.fetched).1;
      present = step-present;
      nothing_else = step-nothing_else;
      owned = step-owned;
    }

  abbrev pub AllNamespaced : List PendingSecretRef → Type 0
  AllNamespaced refs = (r : PendingSecretRef) → In r refs → IsNamespaced r

  pub loop-Resolved :
      (refs passed : List PendingSecretRef) (st st' : ResolveState)
      → AllNamespaced refs
      → resolve_loop getter refs st ≡ ok st'
      → Resolved passed st
      → Resolved (onto refs passed) st'
  unfolding resolve_loop
  loop-Resolved [] passed st st' n h inv = subst (Resolved passed) (ground arith) inv
  loop-Resolved (ref ∷ refs) passed st st' n h inv =
      let (mid, s, rest) = >>=-eq-ok (resolve_step getter ref st) _ h in
      loop-Resolved refs (ref ∷ passed) mid st' (λ r m. n r (inr m)) rest
        (step-Resolved ref passed st mid (n ref (inl refl)) (step_parts ref st mid s) inv)
