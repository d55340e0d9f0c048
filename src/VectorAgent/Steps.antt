-- ===== src/VectorAgent/Steps.antt =====
-- The steps of a round of `EnsureVectorAgent`, each from one good stage to another.
use vector_operator.Prelude.{
  ◌≡◌, refl, sym, ap, subst, ◌∙◌, Bool, true, false, not, Option, none, some, List, [], ◌∷◌, ◌++◌,
  In,
}
use vector_operator.Dict.{has}
use vector_operator.Text.{Text, text_eq}
use vector_operator.VectorAgent.{
  Data, Controller, Write, put_daemon_set, is_empty_data, config_data, put_assets,
  ensure_alt_assets, ensure_vector_agent_secret_assets, ensure_alt_config,
  ensure_vector_agent_config, template_of, ensure_vector_agent_daemon_set, stamp_before_config,
  put_secret,
}
use vector_operator.VectorAgent.Names.{config_name, assets_name}
use vector_operator.VectorAgent.Cluster.{
  some_injective, data_of, Phase-append, Phase-quiet, template_at,
}
use vector_operator.VectorAgent.Order.{
  Point, Good, Leads, held_of, put_assets-Leads, put_config-Leads, put_daemon_set-Leads,
  alt_assets_writes-Quiet, alt_config_writes-Quiet, stamp_before_config-Quiet,
}

module _ (refs : Data → List Text) where
  -- every key that a configuration references is in the data
  abbrev pub Covers : Data → Data → Type 0
  Covers a live = (k : Text) → In k (refs live) → has k a ≡ true

empty_has : (k : Text) (a : Data) → is_empty_data a ≡ true → has k a ≡ true → ⊥
unfolding has
empty_has k [] e h = cc h
empty_has k (x ∷ a) e h = cc e

module _ (refs : Data → List Text) (c : Controller) where
  data_of-held_of : (a : Data) → data_of (held_of refs c a) ≡ a
  data_of-held_of [] = refl
  data_of-held_of (x ∷ a) = refl

  pub held_of-some : (a : Data) → is_empty_data a ≡ false → (d : Data) × (held_of refs c a ≡ some d)
  held_of-some [] e = cc e
  held_of-some (x ∷ a) e = (x ∷ a, refl)

  abbrev pub point : Option Bool → Data → Option Data → Point refs c
  point mounted live held = record { mounted = mounted; live = live; held = held }

  -- with the mount, and assets that cover the configuration
  pub mounted-Good :
      (mounted : Option Bool) (live a : Data)
      → mounted ≡ some true
      → is_empty_data a ≡ false
      → Covers refs a live
      → Good refs c (point mounted live (held_of refs c a))
  mounted-Good mounted live a m full covers mount e = (
    λ t. held_of-some a full,
    λ k i. (
      some_injective (sym e ∙ m),
      subst (λ d. has k d ≡ true) (sym (data_of-held_of a)) (covers k i),
    ),
  )

  -- new assets that cover the configuration
  pub covered-Good :
      (mounted : Option Bool) (live : Data) (held : Option Data) (a : Data)
      → Good refs c (point mounted live held)
      → is_empty_data a ≡ false
      → Covers refs a live
      → Good refs c (point mounted live (held_of refs c a))
  covered-Good mounted live held a good full covers mount e = (
    λ t. held_of-some a full,
    λ k i. (
      ((good mount e).1 k i).0,
      subst (λ d. has k d ≡ true) (sym (data_of-held_of a)) (covers k i),
    ),
  )

  -- a configuration without references
  pub plain-Good :
      (mounted : Option Bool) (live : Data) (held : Option Data) (a : Data)
      → ((mount : Bool) → mounted ≡ some mount → mount ≡ true → (d : Data) × (held ≡ some d))
      → is_empty_data a ≡ true
      → Covers refs a live
      → Good refs c (point mounted live held)
  plain-Good mounted live held a present none_held covers mount e =
      (present mount e, λ k i. absurd (empty_has k a none_held (covers k i)))

  -- without the mount, the assets do not matter
  pub unmounted-Good :
      (mounted : Option Bool) (live : Data) (held held' : Option Data)
      → (¬ (mounted ≡ some true))
      → Good refs c (point mounted live held)
      → Good refs c (point mounted live held')
  unmounted-Good mounted live held held' off good mount e = (
    λ t. absurd (off (subst (λ b. mounted ≡ some b) t e)),
    λ k i. absurd (off (subst (λ b. mounted ≡ some b) ((good mount e).1 k i).0 e)),
  )

  -- the three steps of a round, where the stages that they lead through are good
  pub daemon_set-Leads :
      (will : Bool) (mounted : Option Bool) (live : Data) (held : Option Data)
      → not (is_empty_data c.secret_assets) ≡ will
      → Good refs c (point mounted live held)
      → Good refs c (point (some will) live held)
      → Leads refs c
          (ensure_vector_agent_daemon_set c)
          (point mounted live held)
          (point (some will) live held)
  unfolding ensure_vector_agent_daemon_set template_of
  daemon_set-Leads will mounted live held e g g' =
      subst
        (λ b.
          Leads refs c (put_daemon_set (template_at refs (config_name c) (assets_name c) b) ∷ [])
            (point mounted live held) (point (some will) live held))
        (sym e) (put_daemon_set-Leads refs c will (point mounted live held) g g')

  pub assets-Leads :
      (mounted : Option Bool) (live : Data) (held : Option Data)
      → Good refs c (point mounted live held)
      → Good refs c (point mounted live (held_of refs c c.secret_assets))
      → Leads refs c
          (ensure_vector_agent_secret_assets c)
          (point mounted live held)
          (point mounted live (held_of refs c c.secret_assets))
  unfolding ensure_vector_agent_secret_assets ensure_alt_assets
  assets-Leads mounted live held g g' =
      let s = point mounted live held in
      let s' = point mounted live (held_of refs c c.secret_assets) in
      Phase-append refs (config_name c) (assets_name c) (put_assets (assets_name c) c.secret_assets)
        (ensure_alt_assets c) s s' s' (put_assets-Leads refs c c.secret_assets s g g')
        (Phase-quiet refs (config_name c) (assets_name c) (ensure_alt_assets c) s' g'
          (alt_assets_writes-Quiet refs c c.checkpoint_migration c.alt_byte_config))

  abbrev pub new_config : Data
  new_config = config_data c c.byte_config

  pub config-Leads :
      (mounted : Option Bool) (live : Data) (held : Option Data)
      → Good refs c (point mounted live held)
      → Good refs c (point mounted new_config held)
      → Leads refs c
          (ensure_vector_agent_config c)
          (point mounted live held)
          (point mounted new_config held)
  unfolding ensure_vector_agent_config ensure_alt_config
  config-Leads mounted live held g g' =
      let s = point mounted live held in
      let s' = point mounted new_config held in
      let d = config_data c c.byte_config in
      Phase-append refs (config_name c) (assets_name c) (put_secret (config_name c) d ∷ [])
        (ensure_alt_config c) s s' s' (put_config-Leads refs c d s g g')
        (Phase-quiet refs (config_name c) (assets_name c) (ensure_alt_config c) s' g'
          (alt_config_writes-Quiet refs c c.checkpoint_migration c.alt_byte_config refl))

  pub stamp-Leads :
      (publishing : Bool) (s : Point refs c)
      → Good refs c s
      → Leads refs c (stamp_before_config publishing) s s
  stamp-Leads publishing s g =
      Phase-quiet refs (config_name c) (assets_name c) (stamp_before_config publishing) s g
        (stamp_before_config-Quiet refs c publishing)

  pub four-Leads :
      (w x y z : List Write) (p q r s t : Point refs c)
      → Leads refs c w p q
      → Leads refs c x q r
      → Leads refs c y r s
      → Leads refs c z s t
      → Leads refs c (w ++ (x ++ (y ++ z))) p t
  four-Leads w x y z p q r s t f g h i =
      let last = Phase-append refs (config_name c) (assets_name c) y z r s t h i in
      let more = Phase-append refs (config_name c) (assets_name c) x (y ++ z) q r t g last in
      Phase-append refs (config_name c) (assets_name c) w (x ++ (y ++ z)) p q t f more

  abbrev pub had_of : Option Bool → Bool
  had_of none = false
  had_of (some mount) = mount

  abbrev pub final : Bool → Point refs c
  final will = point (some will) new_config (held_of refs c c.secret_assets)

  pub had-mounted : (mounted : Option Bool) → had_of mounted ≡ true → mounted ≡ some true
  had-mounted none e = cc
  had-mounted (some mount) e = ap some e

  pub had-unmounted : (mounted : Option Bool) → had_of mounted ≡ false → ¬ (mounted ≡ some true)
  had-unmounted none e m = cc
  had-unmounted (some mount) e m = cc
