-- ===== src/VectorAgent/Startable.antt =====
-- Whatever point a round of `EnsureVectorAgent` ends at, the agent's pods can start.
use vector_operator.Prelude.{
  ◌≡◌, refl, sym, ap, subst, ◌∙◌, ◌⊎◌, inl, inr, Bool, true, false, not, Option, some, List, In,
  arith,
}
use vector_operator.Dict.{lookup, has}
use vector_operator.Text.{Text, text_eq}
use vector_operator.VectorAgent.{
  Data, Controller, Write, is_empty_data, ensure_vector_agent_secret_assets,
  ensure_vector_agent_config, ensure_vector_agent_daemon_set, stamp_before_config, ensure_rest,
  ensure_in_order, ensure_vector_agent,
}
use vector_operator.VectorAgent.Names.{config_name, assets_name}
use vector_operator.VectorAgent.Cluster.{
  Cluster, Runs, IsSafe, Runs-IsSafe, At, daemon_at, template_at, data_of, some_injective,
  Phase-append, Phase-quiet,
}
use vector_operator.VectorAgent.Order.{Point, Good, Leads, held_of, ensure_rest-Quiet}
use vector_operator.VectorAgent.Steps.{
  Covers, point, new_config, had_of, final, mounted-Good, covered-Good, plain-Good, unmounted-Good,
  daemon_set-Leads, assets-Leads, config-Leads, stamp-Leads, four-Leads, had-mounted, had-unmounted,
}

module _ (refs : Data → List Text) (c : Controller) (publishing : Bool) (mounted : Option Bool)
    (live : Data) (held : Option Data) (good : Good refs c (point refs c mounted live held))
    (covers : Covers refs c.secret_assets (new_config refs c)) where
  abbrev start : Point refs c
  start = point refs c mounted live held

  abbrev h' : Option Data
  h' = held_of refs c c.secret_assets

  abbrev next : Data
  next = new_config refs c

  abbrev assets : List Write
  assets = ensure_vector_agent_secret_assets c

  abbrev config : List Write
  config = ensure_vector_agent_config c

  abbrev daemon_set : List Write
  daemon_set = ensure_vector_agent_daemon_set c

  abbrev stamp : List Write
  stamp = stamp_before_config publishing

  -- the mount is gained
  gained-Leads :
      not (is_empty_data c.secret_assets) ≡ true
      → Covers refs c.secret_assets live
      → Leads refs c (ensure_in_order false true publishing c) start (final refs c true)
  unfolding ensure_in_order
  gained-Leads will bridged =
      let full : is_empty_data c.secret_assets ≡ false = ground arith in
      let g1 = covered-Good refs c mounted live held c.secret_assets good full bridged in
      let g2 = mounted-Good refs c (some true) live c.secret_assets refl full bridged in
      let g3 = mounted-Good refs c (some true) next c.secret_assets refl full covers in
      let p = point refs c mounted live h' in
      let q = point refs c (some true) live h' in
      four-Leads refs c assets daemon_set stamp config start p q q (final refs c true)
        (assets-Leads refs c mounted live held good g1)
        (daemon_set-Leads refs c true mounted live h' will g1 g2)
        (stamp-Leads refs c publishing q g2) (config-Leads refs c (some true) live h' g2 g3)

  -- the mount stays
  kept-Leads :
      mounted ≡ some true
      → not (is_empty_data c.secret_assets) ≡ true
      → Covers refs c.secret_assets live
      → Leads refs c (ensure_in_order true true publishing c) start (final refs c true)
  unfolding ensure_in_order
  kept-Leads there will bridged =
      let full : is_empty_data c.secret_assets ≡ false = ground arith in
      let g1 = covered-Good refs c mounted live held c.secret_assets good full bridged in
      let g2 = mounted-Good refs c mounted next c.secret_assets there full covers in
      let g3 = mounted-Good refs c (some true) next c.secret_assets refl full covers in
      let p = point refs c mounted live h' in
      let q = point refs c mounted next h' in
      four-Leads refs c assets stamp config daemon_set start p p q (final refs c true)
        (assets-Leads refs c mounted live held good g1) (stamp-Leads refs c publishing p g1)
        (config-Leads refs c mounted live h' g1 g2)
        (daemon_set-Leads refs c true mounted next h' will g2 g3)

  -- the mount is lost
  lost-Leads :
      not (is_empty_data c.secret_assets) ≡ false
      → Leads refs c (ensure_in_order true false publishing c) start (final refs c false)
  unfolding ensure_in_order
  lost-Leads will =
      let bare : is_empty_data c.secret_assets ≡ true = ground arith in
      let g1 =
        plain-Good refs c mounted next held c.secret_assets (λ mount e. (good mount e).0) bare
          covers in
      let g2 =
        plain-Good refs c (some false) next held c.secret_assets (λ mount e t. absurd (cc (e, t)))
          bare covers in
      let g3 =
        plain-Good refs c (some false) next h' c.secret_assets (λ mount e t. absurd (cc (e, t)))
          bare covers in
      let p = point refs c mounted next held in
      let q = point refs c (some false) next held in
      four-Leads refs c stamp config daemon_set assets start start p q (final refs c false)
        (stamp-Leads refs c publishing start good) (config-Leads refs c mounted live held good g1)
        (daemon_set-Leads refs c false mounted next held will g1 g2)
        (assets-Leads refs c (some false) next held g2 g3)

  -- there is no mount
  absent-Leads :
      (¬ (mounted ≡ some true))
      → not (is_empty_data c.secret_assets) ≡ false
      → Leads refs c (ensure_in_order false false publishing c) start (final refs c false)
  unfolding ensure_in_order
  absent-Leads off will =
      let bare : is_empty_data c.secret_assets ≡ true = ground arith in
      let g1 = unmounted-Good refs c mounted live held h' off good in
      let g2 =
        plain-Good refs c mounted next h' c.secret_assets
          (λ mount e t. absurd (off (subst (λ b. mounted ≡ some b) t e))) bare covers in
      let g3 =
        plain-Good refs c (some false) next h' c.secret_assets (λ mount e t. absurd (cc (e, t)))
          bare covers in
      let p = point refs c mounted live h' in
      let q = point refs c mounted next h' in
      four-Leads refs c assets stamp config daemon_set start p p q (final refs c false)
        (assets-Leads refs c mounted live held good g1) (stamp-Leads refs c publishing p g1)
        (config-Leads refs c mounted live h' g1 g2)
        (daemon_set-Leads refs c false mounted next h' will g2 g3)

  in_order-Leads :
      (had will : Bool)
      → had_of refs c mounted ≡ had
      → not (is_empty_data c.secret_assets) ≡ will
      → (is_empty_data c.secret_assets ≡ true) ⊎ Covers refs c.secret_assets live
      → Leads refs c (ensure_in_order had will publishing c) start (final refs c will)
  in_order-Leads false true h w (inl bare) = absurd (ground arith)
  in_order-Leads true true h w (inl bare) = absurd (ground arith)
  in_order-Leads false true h w (inr bridged) = gained-Leads w bridged
  in_order-Leads true true h w (inr bridged) = kept-Leads (had-mounted refs c mounted h) w bridged
  in_order-Leads true false h w b = lost-Leads w
  in_order-Leads false false h w b = absent-Leads (had-unmounted refs c mounted h) w

  -- with the writes that follow the switch
  ensure-Leads :
      (is_empty_data c.secret_assets ≡ true) ⊎ Covers refs c.secret_assets live
      → Good refs c (final refs c (not (is_empty_data c.secret_assets)))
      → Leads refs c
          (ensure_vector_agent (had_of refs c mounted) publishing c)
          start
          (final refs c (not (is_empty_data c.secret_assets)))
  unfolding ensure_vector_agent
  ensure-Leads bridged last =
      let will = not (is_empty_data c.secret_assets) in
      let order = ensure_in_order (had_of refs c mounted) will publishing c in
      Phase-append refs (config_name c) (assets_name c) order (ensure_rest c) start
        (final refs c will) (final refs c will)
        (in_order-Leads (had_of refs c mounted) will refl refl bridged)
        (Phase-quiet refs (config_name c) (assets_name c) (ensure_rest c) (final refs c will) last
          (ensure_rest-Quiet refs c))

final-Good :
    (refs : Data → List Text) (c : Controller) (will : Bool)
    → not (is_empty_data c.secret_assets) ≡ will
    → Covers refs c.secret_assets (new_config refs c)
    → Good refs c (final refs c will)
final-Good refs c true e covers =
    mounted-Good refs c (some true) (new_config refs c) c.secret_assets refl (ground arith) covers
final-Good refs c false e covers =
    plain-Good refs c (some false) (new_config refs c) (held_of refs c c.secret_assets)
      c.secret_assets (λ mount h t. absurd (cc (h, t))) (ground arith) covers

-- the keys that the published configuration references
live-In :
    (refs : Data → List Text) (c : Controller) (live : Data) (w : Cluster)
    → lookup (config_name c) w.secrets ≡ some live
    → (k : Text) → In k (refs live)
    → In k (refs (data_of (lookup (config_name c) w.secrets)))
live-In refs c live w at k i = subst (λ o. In k (refs (data_of o))) (sym at) i

-- the stage of a namespace in which pods can start is a good one
IsSafe-Good :
    (refs : Data → List Text) (c : Controller) (mounted : Option Bool) (live : Data) (w : Cluster)
    → lookup (config_name c) w.secrets ≡ some live
    → w.daemon_set ≡ daemon_at refs (config_name c) (assets_name c) mounted
    → IsSafe refs w
    → Good refs c (point refs c mounted live (lookup (assets_name c) w.secrets))
IsSafe-Good refs c mounted live w at there safe false e =
    let back = live-In refs c live w at in
    let (published, mount, keys) =
      safe (template_at refs (config_name c) (assets_name c) false)
        (there ∙ ap (daemon_at refs (config_name c) (assets_name c)) e) in
    (λ t. absurd (cc t), λ k i. absurd (let (m, h, l) = keys k (back k i) in cc h))
IsSafe-Good refs c mounted live w at there safe true e =
    let back = live-In refs c live w at in
    let (published, mount, keys) =
      safe (template_at refs (config_name c) (assets_name c) true)
        (there ∙ ap (daemon_at refs (config_name c) (assets_name c)) e) in
    (
      λ t. mount (assets_name c) refl,
      λ k i.
          let (m, h, l) = keys k (back k i) in
          (
            refl,
            subst (λ n. has k (data_of (lookup n w.secrets)) ≡ true) (sym (some_injective h)) l,
          ),
    )

-- Take an agent whose active configuration is published, and whose DaemonSet, if there is one, mounts
-- that configuration and at most the agent's own assets, so that its pods can start: the Secrets that
-- they mount are there, and the mounted assets have every key that the configuration references. A
-- round whose assets cover the new configuration and, unless they are empty, the published one,
-- leaves the pods startable in this sense, wherever in its writes it ends.
pub ensure_vector_agent-IsSafe :
    (refs : Data → List Text) (c : Controller) (publishing : Bool) (mounted : Option Bool)
    (live : Data) (w w' : Cluster)
    → lookup (config_name c) w.secrets ≡ some live
    → w.daemon_set ≡ daemon_at refs (config_name c) (assets_name c) mounted
    → IsSafe refs w
    → Covers refs c.secret_assets (new_config refs c)
    → (is_empty_data c.secret_assets ≡ true) ⊎ Covers refs c.secret_assets live
    → Runs (ensure_vector_agent (had_of refs c mounted) publishing c) w w'
    → IsSafe refs w'
ensure_vector_agent-IsSafe refs c publishing mounted live w w' at there safe covers bridged run =
    let will = not (is_empty_data c.secret_assets) in
    let good = IsSafe-Good refs c mounted live w at there safe in
    let held = lookup (assets_name c) w.secrets in
    let leads =
      ensure-Leads refs c publishing mounted live held good covers bridged
        (final-Good refs c will refl covers) in
    Runs-IsSafe refs (At refs (config_name c) (assets_name c) (final refs c will)) run
      (leads w (record { template = there; live_at = at; held_at = refl }))
