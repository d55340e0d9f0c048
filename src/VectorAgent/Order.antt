-- ===== src/VectorAgent/Order.antt =====
-- The parts of `EnsureVectorAgent`: the writes that the agent's pods depend on, and those that they do not.
use vector_operator.Prelude.{
  ◌≡◌, refl, ◌∙◌, Bool, true, false, ◌&&◌, Option, none, some, List, [], ◌∷◌, ◌++◌, All, beq_refl,
  codes,
}
use vector_operator.Dict.{insert, remove, lookup-insert, lookup-remove}
use vector_operator.Text.{Text, text_eq}
use vector_operator.VectorAgent.{
  Data, Controller, Write, put_secret, put_daemon_set, alt_assets_name, alt_data, put_assets,
  alt_assets_writes, alt_config_writes, put_if, stamp_before_config, ensure_rest,
}
use vector_operator.VectorAgent.Names.{
  config_name, assets_name, IsOther, alt_config-IsOther, alt_assets-IsOther, standby-IsOther,
  assets_config-differ,
}
use vector_operator.VectorAgent.Cluster.{
  apply, Stage, At, IsGood, IsQuiet, Phase, At-IsSafe, template_at,
}

module _ (refs : Data → List Text) (c : Controller) where
  abbrev Quiet : List Write → Type 0
  Quiet = All (IsQuiet refs (config_name c) (assets_name c))

  put_assets-Quiet : (name : Text) (d : Data) → IsOther c name → Quiet (put_assets name d)
  unfolding put_assets
  put_assets-Quiet name [] q = (q, tt)
  put_assets-Quiet name (kv ∷ d) q = (q, tt)

  pub alt_assets_writes-Quiet :
      (on : Bool) (built : Option Text) → Quiet (alt_assets_writes c on built)
  unfolding alt_assets_writes
  alt_assets_writes-Quiet true none = tt
  alt_assets_writes-Quiet true (some bytes) =
      put_assets-Quiet (alt_assets_name c) (alt_data c) (alt_assets-IsOther c)
  alt_assets_writes-Quiet false built = (alt_assets-IsOther c, tt)

  pub alt_config_writes-Quiet :
      (on : Bool) (built : Option Text)
      → c.checkpoint_migration ≡ on
      → Quiet (alt_config_writes c on built)
  unfolding alt_config_writes
  alt_config_writes-Quiet true none e = tt
  alt_config_writes-Quiet true (some bytes) e = (alt_config-IsOther c, tt)
  alt_config_writes-Quiet false built e = (standby-IsOther c e, tt)

  append-Quiet : (xs ys : List Write) → Quiet xs → Quiet ys → Quiet (xs ++ ys)
  append-Quiet [] ys q r = r
  append-Quiet (x ∷ xs) ys q r = (q.0, append-Quiet xs ys q.1 r)

  put_if-Quiet : (on : Bool) (kind : Text) → Quiet (put_if on kind)
  put_if-Quiet true kind = (tt, tt)
  put_if-Quiet false kind = tt

  pub stamp_before_config-Quiet : (publishing : Bool) → Quiet (stamp_before_config publishing)
  unfolding stamp_before_config
  stamp_before_config-Quiet true = (tt, tt)
  stamp_before_config-Quiet false = tt

  pub ensure_rest-Quiet : Quiet (ensure_rest c)
  unfolding ensure_rest
  ensure_rest-Quiet =
      let rest =
        append-Quiet (put_if c.api_enabled (codes "Service"))
          (put_if (c.internal_metrics && c.monitoring) (codes "PodMonitor"))
          (put_if-Quiet c.api_enabled (codes "Service"))
          (put_if-Quiet (c.internal_metrics && c.monitoring) (codes "PodMonitor")) in
      (tt, (tt, (tt, rest)))

  -- the assets Secret when it has this data, and when there is none
  abbrev pub held_of : Data → Option Data
  held_of [] = none
  held_of (kv ∷ d) = some (kv ∷ d)

  abbrev pub Point : Type 0
  Point = Stage refs (config_name c) (assets_name c)

  abbrev pub Good : Point → Type 0
  Good = IsGood refs (config_name c) (assets_name c)

  abbrev pub Leads : List Write → Point → Point → Type 0
  Leads = Phase refs (config_name c) (assets_name c)

  -- the three writes that matter
  pub put_assets-Leads :
      (a : Data) (s : Point)
      → Good s
      → Good (record s { held = held_of a })
      → Leads (put_assets (assets_name c) a) s (record s { held = held_of a })
  unfolding put_assets apply
  put_assets-Leads [] s g g' w at =
      let after : At refs (config_name c) (assets_name c) (record s { held = none })
          (record w { secrets = remove (assets_name c) w.secrets }) =
        record {
          template = at.template;
          live_at =
              lookup-remove (assets_name c) (config_name c) w.secrets
              ∙ rw (assets_config-differ c).0 at.live_at;
          held_at =
              lookup-remove (assets_name c) (assets_name c) w.secrets
              ∙ rw (beq_refl (assets_name c)) refl;
        } in
      (
        At-IsSafe refs (config_name c) (assets_name c) s w at g,
        (At-IsSafe refs (config_name c) (assets_name c) _ _ after g', after),
        tt,
      )
  put_assets-Leads (kv ∷ a) s g g' w at =
      let after : At refs (config_name c) (assets_name c) (record s { held = some (kv ∷ a) })
          (record w { secrets = insert (assets_name c) (kv ∷ a) w.secrets }) =
        record {
          template = at.template;
          live_at =
              lookup-insert (assets_name c) (config_name c) (kv ∷ a) w.secrets
              ∙ rw (assets_config-differ c).0 at.live_at;
          held_at =
              lookup-insert (assets_name c) (assets_name c) (kv ∷ a) w.secrets
              ∙ rw (beq_refl (assets_name c)) refl;
        } in
      (
        At-IsSafe refs (config_name c) (assets_name c) s w at g,
        (At-IsSafe refs (config_name c) (assets_name c) _ _ after g', after),
        tt,
      )

  pub put_config-Leads :
      (d : Data) (s : Point)
      → Good s
      → Good (record s { live = d })
      → Leads (put_secret (config_name c) d ∷ []) s (record s { live = d })
  unfolding apply
  put_config-Leads d s g g' w at =
      let after : At refs (config_name c) (assets_name c) (record s { live = d })
          (record w { secrets = insert (config_name c) d w.secrets }) =
        record {
          template = at.template;
          live_at =
              lookup-insert (config_name c) (config_name c) d w.secrets
              ∙ rw (beq_refl (config_name c)) refl;
          held_at =
              lookup-insert (config_name c) (assets_name c) d w.secrets
              ∙ rw (assets_config-differ c).1 at.held_at;
        } in
      (
        At-IsSafe refs (config_name c) (assets_name c) s w at g,
        (At-IsSafe refs (config_name c) (assets_name c) _ _ after g', after),
        tt,
      )

  pub put_daemon_set-Leads :
      (mount : Bool) (s : Point)
      → Good s
      → Good (record s { mounted = some mount })
      → Leads
          (put_daemon_set (template_at refs (config_name c) (assets_name c) mount) ∷ [])
          s
          (record s { mounted = some mount })
  unfolding apply
  put_daemon_set-Leads mount s g g' w at =
      let after : At refs (config_name c) (assets_name c) (record s { mounted = some mount })
          (record w {
            daemon_set = some (template_at refs (config_name c) (assets_name c) mount);
          }) =
        record { template = refl; live_at = at.live_at; held_at = at.held_at } in
      (
        At-IsSafe refs (config_name c) (assets_name c) s w at g,
        (At-IsSafe refs (config_name c) (assets_name c) _ _ after g', after),
        tt,
      )
