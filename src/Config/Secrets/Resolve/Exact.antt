-- ===== src/Config/Secrets/Resolve/Exact.antt =====
-- What `resolve_pending_secrets` returns, and when it succeeds.
use vector_operator.Prelude.{
  ◌≡◌, ◌≢◌, refl, true, false, Option, none, some, List, [], ◌∷◌, In, onto, In-onto, arith, ap, sym,
  ◌∙◌, subst, Option-cases, inl, inr, ◌⊎◌,
}
use vector_operator.Prelude.Result.{ok, fails, Result-cases, >>=-eq-ok}
use vector_operator.Dict.{Dict, lookup, insert, lookup-insert}
use vector_operator.Text.{Text, text_eq, text_beq_iff}
use vector_operator.Config.Secrets.Types.{Getter, PendingSecretRef, secret_resolve}
use vector_operator.Config.Secrets.Resolve.{
  fetch, checked_value, ResolveState, same_tuple, claim, no_wrap, resolve_step, resolve_loop, start,
  resolve_pending_secrets,
}
use vector_operator.Config.Secrets.Resolve.Reads.{
  IsNamespaced, reads, fetch-unread, fetch-unchecked,
}
use vector_operator.Config.Secrets.Resolve.Invariant.{
  same_tuple_join, Resolved, start-Resolved, step_parts, step-Resolved, AllNamespaced,
  loop-Resolved,
}

-- the assets that the configuration is left with
abbrev pub assets_of : Option (Dict Text Text) → Dict Text Text
assets_of none = []
assets_of (some assets) = assets

-- two references under one flat key read the same key of the same Secret
abbrev pub OneSource : List PendingSecretRef → Type 0
OneSource refs =
    (a b : PendingSecretRef) → In a refs → In b refs → a.flat ≡ b.flat → same_tuple a b ≡ true

module _ (getter : Getter) where
  -- the assets of a list of references: each flat key has the value that its reference reads now,
  -- there is no other key, and no two references disagree
  pub record Published (refs : List PendingSecretRef) (assets : Dict Text Text) : Type 0 where
    pub present :
        (r : PendingSecretRef)
        → In r refs
        → (v : Text) × (reads getter r ≡ some v) × (lookup r.flat assets ≡ some v)
    pub nothing_else :
        (k v : Text)
        → lookup k assets ≡ some v
        → (r : PendingSecretRef) × In r refs × (r.flat ≡ k) × (reads getter r ≡ some v)
    pub one_source : OneSource refs

  Resolved-Published :
      (refs : List PendingSecretRef) (st : ResolveState)
      → Resolved getter (onto refs []) st
      → Published refs st.assets
  Resolved-Published refs st inv =
      let shift = λ (r : PendingSecretRef) (m : In r refs). (In-onto r refs []).0 (inl m) in
      record {
        present = λ r m. inv.present r (shift r m);
        nothing_else = λ k v e.
            let (r, m, f, g) = inv.nothing_else k v e in
            (r, elim ((In-onto r refs []).1 m) [ inl x ↦ x | inr x ↦ absurd x ], f, g);
        one_source = λ a b ma mb e.
            let (o, l, t) = inv.owned a (shift a ma) in
            let (o', l', t') = inv.owned b (shift b mb) in
            let same : o ≡ o' = ground arith in same_tuple_join o a b t (rw same t');
      }

  -- If resolving succeeds, the assets hold for each reference the value that a fresh read of its
  -- Secret gives, which passed the guard, and no other key; and no flat key stands for two
  -- different values. This needs namespaces without a slash.
  pub resolve_pending_secrets-Published :
      (refs : List PendingSecretRef) {out : Option (Dict Text Text)}
      → AllNamespaced getter refs
      → resolve_pending_secrets getter refs ≡ ok out
      → Published refs (assets_of out)
  unfolding resolve_pending_secrets lookup
  resolve_pending_secrets-Published [] {out} n h =
      let e : none ≡ out = ground arith in
      subst (λ o. Published [] (assets_of o)) e
        (record {
          present = λ r m. elim m [ ];
          nothing_else = λ k v l. cc;
          one_source = λ a b m. elim m [ ];
        })
  resolve_pending_secrets-Published (ref ∷ refs) {out} n h =
      let (st, l, o) = >>=-eq-ok (resolve_loop getter (ref ∷ refs) start) _ h in
      let e : some st.assets ≡ out = ground arith in
      subst (λ o. Published (ref ∷ refs) (assets_of o)) e
        (Resolved-Published (ref ∷ refs) st
          (loop-Resolved getter (ref ∷ refs) [] start st n l (start-Resolved getter)))

  -- what a list of references needs to be resolved
  pub record Resolvable (refs : List PendingSecretRef) : Type 0 where
    pub readable : (r : PendingSecretRef) → In r refs → reads getter r ≢ none
    pub one_source : OneSource refs

  -- the owner of a claimed key is a reference that the loop has passed
  record Origins (passed : List PendingSecretRef) (origins : Dict Text PendingSecretRef)
      : Type 0 where
    passed_at :
        (k : Text) (o : PendingSecretRef) → lookup k origins ≡ some o → In o passed × (o.flat ≡ k)

  claim-origin :
      (ref : PendingSecretRef) (origins origins' : Dict Text PendingSecretRef) (k : Text)
      {o : PendingSecretRef}
      → claim ref origins ≡ ok origins'
      → lookup k origins' ≡ some o
      → ((ref ≡ o) × (ref.flat ≡ k)) ⊎ (lookup k origins ≡ some o)
  unfolding claim
  claim-origin ref origins origins' k {o} h e =
      ground (arith, lookup-insert ref.flat k ref origins, text_beq_iff ref.flat k)

  claim-Origins :
      (ref : PendingSecretRef) (passed : List PendingSecretRef)
      (origins origins' : Dict Text PendingSecretRef)
      → claim ref origins ≡ ok origins'
      → Origins passed origins
      → Origins (ref ∷ passed) origins'
  claim-Origins ref passed origins origins' h inv = record {
    passed_at = λ k o e. elim (claim-origin ref origins origins' k {o = o} h e) [
      | inl (same, f) ↦ (inl (sym same), ap (λ (x : PendingSecretRef). x.flat) (sym same) ∙ f)
      | inr old ↦ (inr (inv.passed_at k o old).0, (inv.passed_at k o old).1)
    ];
  }

  claim-succeeds :
      (ref : PendingSecretRef) (passed : List PendingSecretRef)
      (origins : Dict Text PendingSecretRef)
      → Origins passed origins
      → ((o : PendingSecretRef) → In o passed → o.flat ≡ ref.flat → same_tuple o ref ≡ true)
      → fails (claim ref origins) ≡ false
  unfolding claim
  claim-succeeds ref passed origins inv one = elim (Option-cases (lookup ref.flat origins)) [
    | inl e ↦ ground arith
    | inr (o, e) ↦ let (m, f) = inv.passed_at ref.flat o e in ground (arith, one o m f)
  ]

  step-succeeds :
      (ref : PendingSecretRef) (passed : List PendingSecretRef) (st : ResolveState)
      → IsNamespaced ref
      → Resolved getter passed st
      → Origins passed st.origins
      → reads getter ref ≢ none
      → ((o : PendingSecretRef) → In o passed → o.flat ≡ ref.flat → same_tuple o ref ≡ true)
      → (st' : ResolveState) × (resolve_step getter ref st ≡ ok st')
  unfolding resolve_step
  step-succeeds ref passed st n inv own readable one = elim (Result-cases (claim ref st.origins)) [
    | inr (e, c) ↦ absurd (ground (arith, claim-succeeds ref passed st.origins own one))
    | inl (origins, c) ↦ elim (Result-cases (fetch getter secret_resolve ref st.cache)) [
      | inr (e, f) ↦
          absurd
            (readable (fetch-unread getter ref st.cache n inv.sound secret_resolve (ground arith)))
      | inl ((s, cache), f) ↦ elim (Result-cases (checked_value no_wrap ref s)) [
        | inr (e, k) ↦ absurd (
            readable (
              fetch-unchecked getter ref st.cache n inv.sound secret_resolve no_wrap f
                (ground arith)))
        | inl (v, k) ↦ (
          record { cache = cache; assets = insert ref.flat v st.assets; origins = origins },
          ground arith,
        )
      ]
    ]
  ]

  loop-succeeds :
      (refs passed : List PendingSecretRef) (st : ResolveState)
      → AllNamespaced getter refs
      → Resolved getter passed st
      → Origins passed st.origins
      → ((r : PendingSecretRef) → In r refs → reads getter r ≢ none)
      → ((a b : PendingSecretRef)
          → In a refs ⊎ In a passed
          → In b refs
          → a.flat ≡ b.flat
          → same_tuple a b ≡ true)
      → fails (resolve_loop getter refs st) ≡ false
  unfolding resolve_loop
  loop-succeeds [] passed st n inv own readable one = refl
  loop-succeeds (ref ∷ refs) passed st n inv own readable one =
      let (st', s) =
        step-succeeds ref passed st (n ref (inl refl)) inv own (readable ref (inl refl))
          (λ o m f. one o ref (inr m) (inl refl) f) in
      let parts = step_parts getter ref st st' s in
      let rest : fails (resolve_loop getter refs st') ≡ false =
        loop-succeeds refs (ref ∷ passed) st' (λ r m. n r (inr m))
          (step-Resolved getter ref passed st st' (n ref (inl refl)) parts inv)
          (claim-Origins ref passed st.origins st'.origins parts.claimed own)
          (λ r m. readable r (inr m)) (λ a b m m'. one a b (shift a m) (inr m')) in
      rw s rest
    where
      shift :
          (a : PendingSecretRef) → In a refs ⊎ In a (ref ∷ passed) → In a (ref ∷ refs) ⊎ In a passed
      shift a (inl m) = inl (inr m)
      shift a (inr (inl e)) = inl (inl e)
      shift a (inr (inr m)) = inr m

  -- Resolving succeeds if every reference can be read and no two references under one flat key
  -- read different keys. This needs namespaces without a slash.
  pub resolve_pending_secrets-succeeds :
      (refs : List PendingSecretRef)
      → AllNamespaced getter refs
      → Resolvable refs
      → fails (resolve_pending_secrets getter refs) ≡ false
  unfolding resolve_pending_secrets lookup
  resolve_pending_secrets-succeeds [] n h = refl
  resolve_pending_secrets-succeeds (ref ∷ refs) n h = ground (
    arith,
    loop-succeeds (ref ∷ refs) [] start n (start-Resolved getter)
        (record { passed_at = λ k o e. cc }) h.readable
        (λ a b m m'. h.one_source a b (elim m [ inl x ↦ x | inr x ↦ absurd x ]) m'),
  )
