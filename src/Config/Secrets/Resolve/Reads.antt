-- ===== src/Config/Secrets/Resolve/Reads.antt =====
-- Memoised reads give what a fresh read gives. The cache is keyed by "namespace/name", so this
-- asks that no namespace holds a slash, which holds of every Kubernetes name.
use vector_operator.Prelude.{
  ◌≡◌, refl, Bool, true, Option, none, some, [], arith, ap, ◌∙◌, Option-cases, inl, inr,
  if◌then◌else◌,
}
use vector_operator.Prelude.Result.{Result, ok, err, fails, Result-cases}
use vector_operator.Dict.{lookup, insert, lookup-insert}
use vector_operator.Text.{Text, text_eq, text_beq_iff, without, join-injective}
use vector_operator.Config.Secrets.Types.{
  Getter, Secret, PendingSecretRef, SecretError, secret_size_data,
}
use vector_operator.Config.Secrets.Safety.{secret_value_safe_for_json_text}
use vector_operator.Config.Secrets.Resolve.{cache_key, Cache, fetch, checked_value, value_of}

abbrev pub no_slash : Text → Bool
no_slash = without b'/'

abbrev pub IsNamespaced : PendingSecretRef → Type 0
IsNamespaced ref = no_slash ref.resolve_ns ≡ true

module _ (getter : Getter) where
  -- the value at a reference, read with no cache: the Secret is there, holds the key, and the value
  -- passes the guard
  unfoldable pub found_value : PendingSecretRef → Result Text Secret → Option Text
  found_value ref (err e) = none
  found_value ref (ok secret) = elim (lookup ref.key secret.data_map) [
    | none ↦ none
    | some val ↦ if secret_value_safe_for_json_text val then some val else none
  ]

  unfoldable pub reads : PendingSecretRef → Option Text
  unfolding found_value
  reads ref = found_value ref (getter ref.resolve_ns ref.secret_name)

  pub record CacheIsSound (cache : Cache) : Type 0 where
    pub at :
        (ref : PendingSecretRef) (secret : Secret)
        → IsNamespaced ref
        → lookup (cache_key ref) cache ≡ some secret
        → getter ref.resolve_ns ref.secret_name ≡ ok secret

  pub nil-CacheIsSound : CacheIsSound []
  unfolding lookup
  nil-CacheIsSound = record { at = λ ref secret n h. cc }

  cache_key-getter :
      (r ref : PendingSecretRef)
      → IsNamespaced r
      → IsNamespaced ref
      → cache_key r ≡ cache_key ref
      → getter r.resolve_ns r.secret_name ≡ getter ref.resolve_ns ref.secret_name
  unfolding cache_key
  cache_key-getter r ref n m e =
      let (a, b) =
        join-injective b'/' r.resolve_ns ref.resolve_ns r.secret_name ref.secret_name n m e in
      cc (a, b)

  insert-CacheIsSound :
      (ref : PendingSecretRef) (secret : Secret) (cache : Cache)
      → IsNamespaced ref
      → getter ref.resolve_ns ref.secret_name ≡ ok secret
      → CacheIsSound cache
      → CacheIsSound (insert (cache_key ref) secret cache)
  insert-CacheIsSound ref secret cache n g sound = record {
    at = λ r s m h. ground (
      arith,
      lookup-insert (cache_key ref) (cache_key r) secret cache,
      text_beq_iff (cache_key ref) (cache_key r),
      cache_key-getter r ref m n,
      sound.at r s m,
    );
  }

  module _ (wrap : SecretError → SecretError) (ref : PendingSecretRef) (cache : Cache) where
    -- A fetch that succeeds returns what the getter returns now, and keeps the cache sound.
    pub fetch-ok :
        {secret : Secret} {cache' : Cache}
        → IsNamespaced ref
        → CacheIsSound cache
        → fetch getter wrap ref cache ≡ ok (secret, cache')
        → (getter ref.resolve_ns ref.secret_name ≡ ok secret) × CacheIsSound cache'
    unfolding fetch
    fetch-ok {secret} {cache'} n sound h = elim (Option-cases (lookup (cache_key ref) cache)) [
      | inr (s, e) ↦
          let same : cache ≡ cache' = ground arith in
          (sound.at ref secret n (ground arith), rw same at sound)
      | inl e ↦ elim (Result-cases (getter ref.resolve_ns ref.secret_name)) [
        | inr (m, g) ↦ absurd (ground arith)
        | inl (s, g) ↦
            let here : s ≡ secret = ground arith in
            let kept : insert (cache_key ref) s cache ≡ cache' = ground arith in
            (g ∙ ap ok here, rw kept at (insert-CacheIsSound ref s cache n g sound))
      ]
    ]

    pub fetch-fails :
        IsNamespaced ref
        → CacheIsSound cache
        → fails (fetch getter wrap ref cache) ≡ fails (getter ref.resolve_ns ref.secret_name)
    unfolding fetch
    fetch-fails n sound = elim (Option-cases (lookup (cache_key ref) cache)) [
      | inr (s, e) ↦ ground (arith, sound.at ref s n)
      | inl e ↦ ground arith
    ]

    pub checked_value-ok :
        (secret : Secret) {v : Text}
        → checked_value wrap ref secret ≡ ok v
        → found_value ref (ok secret) ≡ some v
    unfolding checked_value found_value
    checked_value-ok secret h = ground arith

    pub checked_value-fails :
        (secret : Secret)
        → fails (checked_value wrap ref secret) ≡ true
        → found_value ref (ok secret) ≡ none
    unfolding checked_value found_value
    checked_value-fails secret h = ground arith

  module _ (ref : PendingSecretRef) (cache : Cache) (n : IsNamespaced ref)
      (sound : CacheIsSound cache) (wrap : SecretError → SecretError) where
    -- A fetch fails only where a fresh read does.
    pub fetch-unread : fails (fetch getter wrap ref cache) ≡ true → reads ref ≡ none
    unfolding reads
    fetch-unread h = elim (Result-cases (getter ref.resolve_ns ref.secret_name)) [
      | inl (s, g) ↦ absurd (ground (arith, fetch-fails wrap ref cache n sound))
      | inr (e, g) ↦ rw g refl
    ]

    pub fetch-unchecked :
        {secret : Secret} {cache' : Cache} (wrap' : SecretError → SecretError)
        → fetch getter wrap ref cache ≡ ok (secret, cache')
        → fails (checked_value wrap' ref secret) ≡ true
        → reads ref ≡ none
    unfolding reads
    fetch-unchecked {secret} wrap' f k =
        rw (fetch-ok wrap ref cache n sound f).0 (checked_value-fails wrap' ref cache secret k)

  module _ (ref : PendingSecretRef) (cache : Cache) where
    -- `value_of` succeeds where a fresh read does.
    pub value_of-fails :
        IsNamespaced ref
        → CacheIsSound cache
        → fails (value_of getter ref cache) ≡ true
        → reads ref ≡ none
    unfolding value_of
    value_of-fails n sound h = elim (Result-cases (fetch getter secret_size_data ref cache)) [
      | inr (e, f) ↦ fetch-unread ref cache n sound secret_size_data (ground arith)
      | inl ((s, c), f) ↦
          fetch-unchecked ref cache n sound secret_size_data {secret = s} {cache' = c}
            secret_size_data f (ground arith)
    ]

    -- `value_of` returns the value of a fresh read, and keeps the cache sound.
    pub value_of-ok :
        {v : Text} {cache' : Cache}
        → IsNamespaced ref
        → CacheIsSound cache
        → value_of getter ref cache ≡ ok (v, cache')
        → (reads ref ≡ some v) × CacheIsSound cache'
    unfolding value_of reads
    value_of-ok {v} {cache'} n sound h =
        elim (Result-cases (fetch getter secret_size_data ref cache)) [
          | inr (e, f) ↦ absurd (ground arith)
          | inl ((s, c), f) ↦ elim (Result-cases (checked_value secret_size_data ref s)) [
            | inr (e, k) ↦ absurd (ground arith)
            | inl (w, k) ↦
                let got = fetch-ok secret_size_data ref cache n sound f in
                let here : c ≡ cache' = ground arith in
                let val : w ≡ v = ground arith in
                (
                  rw got.0 (checked_value-ok secret_size_data ref cache s k ∙ ap some val),
                  rw here at got.1,
                )
          ]
        ]
