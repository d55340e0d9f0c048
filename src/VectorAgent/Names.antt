-- ===== src/VectorAgent/Names.antt =====
-- The four Secrets of an agent have different names.
use vector_operator.Prelude.{
  ◌≡◌, ap, inl, inr, false, ◌&&◌, ◌++◌, length, length-append, codes, ◌==◌, arith, Bool-cases,
}
use vector_operator.Text.{Text, text_eq, text_beq_iff}
use vector_operator.VectorAgent.{
  Controller, get_name_vector_agent, get_config_secret_name, get_alt_config_secret_name,
  get_secret_assets_name, alt_assets_name,
}

differs : (s t : Text) → (¬ Path _ (length s) (length t)) → (s == t) ≡ false
differs s t f = elim (Bool-cases (s == t)) [
  | inl y ↦ absurd (f (ap length ((text_beq_iff s t).0 y)))
  | inr n ↦ n
]

module _ (c : Controller) where
  -- the names of the two Secrets that the agent's pods mount
  abbrev pub config_name : Text
  config_name = get_config_secret_name c

  abbrev pub assets_name : Text
  assets_name = get_secret_assets_name c

  -- another name than these
  abbrev pub IsOther : Text → Type 0
  IsOther name = ((name == config_name) ≡ false) × ((name == assets_name) ≡ false)

  pub alt_config-IsOther : IsOther (get_alt_config_secret_name c)
  unfolding get_alt_config_secret_name get_config_secret_name get_secret_assets_name
  alt_config-IsOther =
      let base = get_name_vector_agent c in
      elim (Bool-cases (c.checkpoint_migration && c.optimize_sources)) [
        | inl y ↦ rw y (
          differs base (base ++ codes "-opt")
              (λ h. omega (arith, length-append base (codes "-opt"))),
          differs base ((base ++ codes "-opt") ++ codes "-secret-assets") (λ h. omega (
            arith,
            length-append base (codes "-opt"),
            length-append (base ++ codes "-opt") (codes "-secret-assets"),
          )),
        )
        | inr n ↦ rw n (
          differs (base ++ codes "-opt") base
              (λ h. omega (arith, length-append base (codes "-opt"))),
          differs (base ++ codes "-opt") (base ++ codes "-secret-assets") (λ h. omega (
            arith,
            length-append base (codes "-opt"),
            length-append base (codes "-secret-assets"),
          )),
        )
      ]

  pub alt_assets-IsOther : IsOther (alt_assets_name c)
  unfolding get_alt_config_secret_name get_config_secret_name get_secret_assets_name alt_assets_name
  alt_assets-IsOther =
      let base = get_name_vector_agent c in
      let a = codes "-secret-assets" in
      let o = codes "-opt" in
      elim (Bool-cases (c.checkpoint_migration && c.optimize_sources)) [
        | inl y ↦ rw y (
          differs (base ++ a) (base ++ o)
              (λ h. omega (arith, length-append base o, length-append base a)),
          differs (base ++ a) ((base ++ o) ++ a) (λ h.
              omega
                (arith, length-append base o, length-append base a, length-append (base ++ o) a)),
        )
        | inr n ↦ rw n (
          differs ((base ++ o) ++ a) base
              (λ h. omega (arith, length-append base o, length-append (base ++ o) a)),
          differs ((base ++ o) ++ a) (base ++ a) (λ h.
              omega
                (arith, length-append base o, length-append base a, length-append (base ++ o) a)),
        )
      ]

  -- without checkpoint migration, the Secret that is cleaned up is another one
  pub standby-IsOther :
      c.checkpoint_migration ≡ false → IsOther (get_name_vector_agent c ++ codes "-opt")
  unfolding get_config_secret_name get_secret_assets_name
  standby-IsOther off =
      let base = get_name_vector_agent c in
      let a = codes "-secret-assets" in
      let o = codes "-opt" in
      rw off (
        differs (base ++ o) base (λ h. omega (arith, length-append base o)),
        differs (base ++ o) (base ++ a)
            (λ h. omega (arith, length-append base o, length-append base a)),
      )

  pub assets_config-differ :
      ((assets_name == config_name) ≡ false) × ((config_name == assets_name) ≡ false)
  unfolding get_secret_assets_name
  assets_config-differ =
      let config = get_config_secret_name c in
      let a = codes "-secret-assets" in
      (
        differs (config ++ a) config (λ h. omega (arith, length-append config a)),
        differs config (config ++ a) (λ h. omega (arith, length-append config a)),
      )
