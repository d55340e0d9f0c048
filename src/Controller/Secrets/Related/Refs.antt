-- ===== src/Controller/Secrets/Related/Refs.antt =====
-- The identities of `resolveRelatedSecrets`.
use vector_operator.Prelude.{
  ◌≡◌, refl, sym, subst, true, Option, none, some, List, [], ◌∷◌, ◌++◌, In, Distinct, In-append,
  In-append_left, In-append_right, In-keep, keep, ◌↔◌, ◌⊎◌, inl, inr, Bool-cases, Eq, arith,
}
use vector_operator.Prelude.Result.{Result, ok, err}
use vector_operator.Dict.{Dict, keys}
use vector_operator.Text.{Text, text_eq, text_lt}
use vector_operator.Sets.{contains, add}
use vector_operator.Sort.{sort_texts, sort_by}
use vector_operator.Sort.Laws.{In-sort_by}
use vector_operator.Api.{Backend, Pipeline, is_vp}
use vector_operator.Pipeline.SecretIndex.{NamespacedName, name_eq}
use vector_operator.Controller.Secrets.Related.{
  Reader, ObjectReference, RelatedError, read_identities, related_of, resolve_used, resolve_shaped,
  resolve_declared, refs_from, ref_of, related_refs, used_aliases, declared_aliases, check_shapes,
  resolve_related_secrets,
}

module _ {K : Type 0} ⦃e : Eq K⦄ where
  pub contains-In : (k : K) (s : List K) → (contains k s ≡ true) ↔ In k s
  unfolding contains
  contains-In k [] = (λ h. cc, λ m. absurd m)
  contains-In k (j ∷ s) =
      let (into, back) = contains-In k s in
      (
        λ h. elim (Bool-cases (e.beq j k)) [
          | inl y ↦ inl (sym ((e.beq_iff j k).0 y))
          | inr n ↦ inr (into (ground arith))
        ],
        λ m. elim m [
          | inl q ↦ ground (arith, (e.beq_iff j k).1 (sym q))
          | inr r ↦ ground (arith, back r)
        ],
      )

  In-add : (k j : K) (s : List K) → In k (add j s) ↔ ((k ≡ j) ⊎ In k s)
  unfolding add
  In-add k j s = elim (Bool-cases (contains j s)) [
    | inl y ↦ rw y (
      inr,
      λ m. elim m [ inl q ↦ subst (λ x. In x s) (sym q) ((contains-In j s).0 y) | inr r ↦ r ],
    )
    | inr n ↦ rw n (
      λ m. elim (In-append k s (j ∷ []) m) [
        | inl r ↦ inr r
        | inr q ↦ elim q [ inl e ↦ inl e | inr f ↦ absurd f ]
      ],
      λ m. elim m [
        | inl q ↦ In-append_right k s (j ∷ []) (inl q)
        | inr r ↦ In-append_left k s (j ∷ []) r
      ],
    )
  ]

  append-Distinct : (s : List K) (j : K) → (¬ In j s) → Distinct s → Distinct (s ++ j ∷ [])
  append-Distinct [] j f d = (λ m. m, tt)
  append-Distinct (k ∷ s) j f d = (
    λ m. elim (In-append k s (j ∷ []) m) [
      | inl r ↦ d.0 r
      | inr q ↦ elim q [ inl e ↦ f (inl (sym e)) | inr b ↦ b ]
    ],
    append-Distinct s j (λ m. f (inr m)) d.1,
  )

  add-Distinct : (j : K) (s : List K) → Distinct s → Distinct (add j s)
  unfolding add
  add-Distinct j s d = elim (Bool-cases (contains j s)) [
    | inl y ↦ rw y d
    | inr n ↦ rw n (append-Distinct s j (λ m. cc (n, (contains-In j s).1 m)) d)
  ]

-- the identity of one of the aliases
abbrev Named : Pipeline → List Text → NamespacedName → Type 0
Named p aliases ref = (alias : Text) × In alias aliases × (ref ≡ ref_of p alias)

In-refs_from :
    (p : Pipeline) (aliases : List Text) (refs : List NamespacedName) (ref : NamespacedName)
    → In ref (refs_from p aliases refs) ↔ (Named p aliases ref ⊎ In ref refs)
unfolding refs_from
In-refs_from p [] refs ref = (inr, λ m. elim m [ inl n ↦ absurd n.1 | inr r ↦ r ])
In-refs_from p (a ∷ aliases) refs ref =
    let (into, back) = In-refs_from p aliases (add (ref_of p a) refs) ref in
    let (i, b) = In-add ref (ref_of p a) refs in
    (
      λ m. elim (into m) [
        | inl (x, y, z) ↦ inl (x, inr y, z)
        | inr r ↦ elim (i r) [ inl q ↦ inl (a, inl refl, q) | inr s ↦ inr s ]
      ],
      λ m. elim m [
        | inl (x, y, z) ↦ elim y [
          | inl q ↦ back (inr (b (inl (subst (λ t. ref ≡ ref_of p t) q z))))
          | inr r ↦ back (inl (x, r, z))
        ]
        | inr s ↦ back (inr (b (inr s)))
      ],
    )

refs_from-Distinct :
    (p : Pipeline) (aliases : List Text) (refs : List NamespacedName)
    → Distinct refs
    → Distinct (refs_from p aliases refs)
unfolding refs_from
refs_from-Distinct p [] refs d = d
refs_from-Distinct p (a ∷ aliases) refs d =
    refs_from-Distinct p aliases (add (ref_of p a) refs) (add-Distinct (ref_of p a) refs d)

-- a declared alias that is used
abbrev pub Used : Pipeline → List Text → Text → Type 0
Used p used alias = In alias (keys p.spec.secret) × (contains alias used ≡ true)

In-used_aliases :
    (p : Pipeline) (used : List Text) (alias : Text)
    → In alias (used_aliases p used) ↔ Used p used alias
unfolding used_aliases declared_aliases sort_texts
In-used_aliases p used alias =
    let (into, back) = In-keep (λ a. contains a used) alias (declared_aliases p) in
    let (i, b) = In-sort_by text_lt alias (keys p.spec.secret) in
    (λ m. (i (into m).0, (into m).1), λ m. back (b m.0, m.1))

related_refs_lem :
    (p : Pipeline) (used : List Text)
    → ((ref : NamespacedName)
        → In ref (related_refs p used)
          ↔ ((alias : Text) × Used p used alias × (ref ≡ ref_of p alias)))
      × Distinct (related_refs p used)
unfolding related_refs
related_refs_lem p used = (
  λ ref. (
    λ m. elim ((In-refs_from p (used_aliases p used) [] ref).0 m) [
      | inl (a, i, q) ↦ (a, (In-used_aliases p used a).0 i, q)
      | inr f ↦ absurd f
    ],
    λ (a, i, q).
        (In-refs_from p (used_aliases p used) [] ref).1
          (inl (a, (In-used_aliases p used a).1 i, q)),
  ),
  refs_from-Distinct p (used_aliases p used) [] tt,
)

module _ (sha256 : Text → Text) (get : Reader) (p : Pipeline) (used : List Text) where
  refs-related_of :
      (refs : List NamespacedName) (r : Result RelatedError (List ObjectReference))
      → (related_of sha256 refs r).refs ≡ refs
  unfolding related_of
  refs-related_of refs (ok ids) = refl
  refs-related_of refs (err e) = refl

  refs-resolve_used :
      (aliases : List Text) → (resolve_used sha256 get p aliases).refs ≡ refs_from p aliases []
  unfolding resolve_used refs_from
  refs-resolve_used [] = refl
  refs-resolve_used (a ∷ aliases) =
      refs-related_of (refs_from p (a ∷ aliases) [])
        (read_identities get (refs_from p (a ∷ aliases) []))

  refs-resolve_shaped :
      (shapes : Option RelatedError)
      → shapes ≡ none
      → (resolve_shaped sha256 get p used shapes).refs ≡ related_refs p used
  unfolding resolve_shaped related_refs
  refs-resolve_shaped none h = refs-resolve_used (used_aliases p used)
  refs-resolve_shaped (some e) h = cc

  refs-resolve_declared :
      (declared : Dict Text Backend)
      → declared ≡ p.spec.secret
      → check_shapes (is_vp p) p.spec.secret (declared_aliases p) ≡ none
      → (resolve_declared sha256 (some get) p used declared).refs ≡ related_refs p used
  unfolding resolve_declared related_refs used_aliases declared_aliases sort_texts keys sort_by
      refs_from
  refs-resolve_declared [] e h =
      subst (λ d. [] ≡ refs_from p (keep (λ a. contains a used) (sort_texts (keys d))) []) e refl
  refs-resolve_declared (d ∷ declared) e h =
      refs-resolve_shaped (check_shapes (is_vp p) p.spec.secret (declared_aliases p)) h

-- When the namespace of every declared backend is as it has to be, the identities returned are
-- those of the declared aliases that are used, each once, whether or not a Secret can be read.
pub refs-resolve_related_secrets :
    (sha256 : Text → Text) (get : Reader) (p : Pipeline) (used : List Text)
    → check_shapes (is_vp p) p.spec.secret (declared_aliases p) ≡ none
    → ((ref : NamespacedName)
        → In ref (resolve_related_secrets sha256 (some get) p used).refs
          ↔ ((alias : Text) × Used p used alias × (ref ≡ ref_of p alias)))
      × Distinct (resolve_related_secrets sha256 (some get) p used).refs
unfolding resolve_related_secrets
refs-resolve_related_secrets sha256 get p used h =
    subst
      (λ refs.
        ((ref : NamespacedName)
          → In ref refs ↔ ((alias : Text) × Used p used alias × (ref ≡ ref_of p alias)))
        × Distinct refs)
      (sym (refs-resolve_declared sha256 get p used p.spec.secret refl h)) (related_refs_lem p used)
