-- ===== src/VectorAgent/MountGate.antt =====
-- What the test for the mount of the assets finds in the pod template that the agent's controller builds.
use vector_operator.Prelude.{
  ◌≡◌, refl, ap, Bool, true, false, ◌&&◌, ◌||◌, not, some, List, [], ◌∷◌, ◌++◌, keep, any, ◌==◌,
  beq_refl, append-nil, if◌then◌else◌, arith, Bool-cases, inl, inr,
}
use vector_operator.Prelude.Result.{ok}
use vector_operator.Text.{Text, text_eq}
use vector_operator.VectorAgent.{Controller, is_empty_data, get_secret_assets_name}
use vector_operator.VectorAgent.PodTemplate.{
  Volume, VolumeMount, PodSpec, AgentSpec, secret_source, secret_assets_volume_name,
  secrets_mount_path, is_assets_volume, is_assets_mount, is_volume_name, is_mount_name,
  has_operator_secret_assets_mount, required_volumes, compress_volumes,
  generate_vector_agent_volume, required_mounts, compress_mounts,
  generate_vector_agent_volume_mounts, sidecar_mounts, create_vector_agent_daemon_set,
  has_secret_assets_mount, merged_volumes, merged_mounts, set_authoritative_volume,
  set_authoritative_volume_mount,
}

module _ {A : Type 0} (p : A → Bool) where
  any-append : (xs ys : List A) → any p (xs ++ ys) ≡ (any p xs || any p ys)
  any-append [] ys = refl
  any-append (x ∷ xs) ys = ground (arith, any-append xs ys)

  any-keep_none : (t : A → Bool) (xs : List A) → any p xs ≡ false → any p (keep t xs) ≡ false
  any-keep_none t [] h = refl
  any-keep_none t (x ∷ xs) h = ground (arith, any-keep_none t xs)

  -- what is added to a list, some of it only if it is missing, has nothing of the kind
  any-added :
      (t : A → Bool) (own required extra : List A)
      → any p required ≡ false
      → any p extra ≡ false
      → any p (own ++ (keep t required ++ extra)) ≡ any p own
  any-added t own required extra h e = ground (
    arith,
    any-append own (keep t required ++ extra),
    any-append (keep t required) extra,
    any-keep_none t required,
  )

  keep-append : (xs ys : List A) → keep p (xs ++ ys) ≡ keep p xs ++ keep p ys
  keep-append [] ys = refl
  keep-append (x ∷ xs) ys = elim (Bool-cases (p x)) [
    | inl y ↦ rw (y, keep-append xs ys) refl
    | inr n ↦ rw (n, keep-append xs ys) refl
  ]

  keep-rest : (xs : List A) → keep p (keep (λ x. not (p x)) xs) ≡ []
  keep-rest [] = refl
  keep-rest (x ∷ xs) = elim (Bool-cases (p x)) [
    | inl y ↦ rw y (keep-rest xs)
    | inr n ↦ rw (n, n) (keep-rest xs)
  ]

  keep-any_none : (xs : List A) → any p xs ≡ false → keep p xs ≡ []
  keep-any_none [] h = refl
  keep-any_none (x ∷ xs) h =
      rw (let no : p x ≡ false = ground arith in no) (keep-any_none xs (ground arith))

  keep-added :
      (t : A → Bool) (own required extra : List A)
      → any p required ≡ false
      → any p extra ≡ false
      → keep p (own ++ (keep t required ++ extra)) ≡ keep p own
  keep-added t own required extra h e =
      rw
        (
          keep-append own (keep t required ++ extra),
          keep-append (keep t required) extra,
          keep-any_none (keep t required) (any-keep_none t required h),
          keep-any_none extra e,
        )
        (append-nil (keep p own))

  any-last : (xs : List A) (y : A) → p y ≡ true → any p (xs ++ y ∷ []) ≡ true
  any-last [] y h = ground arith
  any-last (x ∷ xs) y h = ground (arith, any-last xs y h)

  keep-last :
      (xs : List A) (y : A) → p y ≡ true → keep p (keep (λ x. not (p x)) xs ++ y ∷ []) ≡ y ∷ []
  keep-last xs y h = rw (keep-append (keep (λ x. not (p x)) xs) (y ∷ []), keep-rest xs, h) refl

  any-optional : (b : Bool) (xs : List A) → any p xs ≡ false → any p (if b then xs else []) ≡ false
  any-optional true xs h = h
  any-optional false xs h = refl

both-cases :
    (volume mount sidecar bare own_volume own_mount : Bool)
    → volume ≡ (not bare || own_volume)
    → mount ≡ (not bare || own_mount)
    → sidecar ≡ false
    → (volume && (mount || sidecar)) ≡ (not bare || (own_volume && (own_mount || false)))
both-cases volume mount sidecar bare own_volume own_mount v m s = ground arith

module _ (c : Controller) (spec : AgentSpec) where
  abbrev secret : Text
  secret = get_secret_assets_name c

  abbrev named : Volume → Bool
  named v = v.name == secret_assets_volume_name

  abbrev assets_volume : Volume
  assets_volume = record { name = secret_assets_volume_name; source = secret_source secret }

  abbrev assets_mount : VolumeMount
  assets_mount = record { name = secret_assets_volume_name; mount_path = secrets_mount_path }

  any-set_authoritative_volume :
      (volumes : List Volume)
      → any (is_assets_volume secret) (set_authoritative_volume volumes assets_volume) ≡ true
  unfolding set_authoritative_volume
  any-set_authoritative_volume volumes =
      any-last (is_assets_volume secret) (keep (λ u. not (named u)) volumes) assets_volume
        (beq_refl secret)

  any-set_authoritative_volume_mount :
      (mounts : List VolumeMount)
      → any
          (is_assets_mount secrets_mount_path)
          (set_authoritative_volume_mount mounts assets_mount)
        ≡ true
  unfolding set_authoritative_volume_mount
  any-set_authoritative_volume_mount mounts =
      any-last (is_assets_mount secrets_mount_path)
        (keep
          (λ u.
            not (u.name == secret_assets_volume_name) && not (u.mount_path == secrets_mount_path))
          mounts)
        assets_mount refl

  -- the volume and the mounts that a user sets, as a pod
  abbrev pub user_pod : PodSpec
  user_pod = record { volumes = spec.user_volumes; containers = spec.user_mounts ∷ [] }

  any-required_volumes : any (is_assets_volume secret) (required_volumes c spec) ≡ false
  unfolding required_volumes
  any-required_volumes = refl

  named-required_volumes : any named (required_volumes c spec) ≡ false
  unfolding required_volumes
  named-required_volumes = refl

  any-required_mounts : any (is_assets_mount secrets_mount_path) (required_mounts c spec) ≡ false
  unfolding required_mounts
  any-required_mounts = refl

  any-compress_volumes : any (is_assets_volume secret) (compress_volumes c spec) ≡ false
  unfolding compress_volumes
  any-compress_volumes =
      any-optional (is_assets_volume secret)
        (spec.compress_config_file && not (is_volume_name spec.user_volumes _)) (_ ∷ []) refl

  named-compress_volumes : any named (compress_volumes c spec) ≡ false
  unfolding compress_volumes
  named-compress_volumes =
      any-optional named (spec.compress_config_file && not (is_volume_name spec.user_volumes _))
        (_ ∷ []) refl

  any-compress_mounts : any (is_assets_mount secrets_mount_path) (compress_mounts c spec) ≡ false
  unfolding compress_mounts
  any-compress_mounts =
      any-optional (is_assets_mount secrets_mount_path)
        (spec.compress_config_file && not (is_mount_name spec.user_mounts _)) (_ ∷ []) refl

  any-sidecar_mounts :
      any (any (is_assets_mount secrets_mount_path)) (sidecar_mounts c spec) ≡ false
  unfolding sidecar_mounts
  any-sidecar_mounts =
      any-optional (any (is_assets_mount secrets_mount_path)) spec.compress_config_file (_ ∷ [])
        refl

  any-merged_volumes :
      any (is_assets_volume secret) (merged_volumes c spec)
      ≡ any (is_assets_volume secret) spec.user_volumes
  unfolding merged_volumes
  any-merged_volumes =
      any-added (is_assets_volume secret) (λ v. not (is_volume_name spec.user_volumes v.name))
        spec.user_volumes (required_volumes c spec) (compress_volumes c spec) any-required_volumes
        any-compress_volumes

  named-merged_volumes : keep named (merged_volumes c spec) ≡ keep named spec.user_volumes
  unfolding merged_volumes
  named-merged_volumes =
      keep-added named (λ v. not (is_volume_name spec.user_volumes v.name)) spec.user_volumes
        (required_volumes c spec) (compress_volumes c spec) named-required_volumes
        named-compress_volumes

  any-merged_mounts :
      any (is_assets_mount secrets_mount_path) (merged_mounts c spec)
      ≡ any (is_assets_mount secrets_mount_path) spec.user_mounts
  unfolding merged_mounts
  any-merged_mounts =
      any-added (is_assets_mount secrets_mount_path)
        (λ m. not (is_mount_name spec.user_mounts m.name)) spec.user_mounts (required_mounts c spec)
        (compress_mounts c spec) any-required_mounts any-compress_mounts

  -- the volumes and the mounts, by whether there are no assets
  any-generate_volume :
      (bare : Bool)
      → is_empty_data c.secret_assets ≡ bare
      → any (is_assets_volume secret) (generate_vector_agent_volume c spec)
        ≡ (not bare || any (is_assets_volume secret) spec.user_volumes)
  unfolding generate_vector_agent_volume set_authoritative_volume
  any-generate_volume true e = rw e any-merged_volumes
  any-generate_volume false e = rw e (any-set_authoritative_volume (merged_volumes c spec))

  any-generate_mounts :
      (bare : Bool)
      → is_empty_data c.secret_assets ≡ bare
      → any (is_assets_mount secrets_mount_path) (generate_vector_agent_volume_mounts c spec)
        ≡ (not bare || any (is_assets_mount secrets_mount_path) spec.user_mounts)
  unfolding generate_vector_agent_volume_mounts set_authoritative_volume_mount
  any-generate_mounts true e = rw e any-merged_mounts
  any-generate_mounts false e = rw e (any-set_authoritative_volume_mount (merged_mounts c spec))

  named-generate_volume :
      (bare : Bool)
      → is_empty_data c.secret_assets ≡ bare
      → keep named (generate_vector_agent_volume c spec)
        ≡ (if bare then keep named spec.user_volumes else assets_volume ∷ [])
  unfolding generate_vector_agent_volume set_authoritative_volume
  named-generate_volume true e = rw e named-merged_volumes
  named-generate_volume false e = rw e (keep-last named (merged_volumes c spec) _ refl)

  -- When the agent's DaemonSet is as its controller builds it, the test for the mount says yes if there
  -- are assets, and otherwise what it says of the volumes and the mounts that the user sets. With
  -- assets, exactly one volume has their name, the one of the operator; without, those of the user.
  pub has_secret_assets_mount-create_vector_agent_daemon_set :
      (has_secret_assets_mount c (some (ok (some (create_vector_agent_daemon_set c spec))))
        ≡ ok (
            not (is_empty_data c.secret_assets)
            || has_operator_secret_assets_mount user_pod
                (get_secret_assets_name c)
                secrets_mount_path))
      × (keep (λ v. v.name == secret_assets_volume_name) (generate_vector_agent_volume c spec) ≡ (
          if is_empty_data c.secret_assets
          then keep (λ v. v.name == secret_assets_volume_name) spec.user_volumes
          else record {
            name = secret_assets_volume_name;
            source = secret_source (get_secret_assets_name c);
          }
            ∷ []))
  unfolding has_secret_assets_mount has_operator_secret_assets_mount create_vector_agent_daemon_set
  has_secret_assets_mount-create_vector_agent_daemon_set =
      let volumes = any-generate_volume (is_empty_data c.secret_assets) refl in
      let mounts = any-generate_mounts (is_empty_data c.secret_assets) refl in
      (
        ap ok (
            both-cases (any (is_assets_volume secret) (generate_vector_agent_volume c spec))
              (any (is_assets_mount secrets_mount_path)
                (generate_vector_agent_volume_mounts c spec))
              (any (any (is_assets_mount secrets_mount_path)) (sidecar_mounts c spec))
              (is_empty_data c.secret_assets) (any (is_assets_volume secret) spec.user_volumes)
              (any (is_assets_mount secrets_mount_path) spec.user_mounts) volumes mounts
              any-sidecar_mounts),
        named-generate_volume (is_empty_data c.secret_assets) refl,
      )
