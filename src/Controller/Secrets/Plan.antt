-- ===== src/Controller/Secrets/Plan.antt =====
-- What the pruning decision and the test for dropped keys promise.
use vector_operator.Prelude.{
  ℕ, ◌+◌, ◌≤◌, ◌≡◌, ◌↔◌, refl, Bool, true, false, Option, none, some, [], ◌∷◌, arith, inl, inr,
  Bool-cases,
}
use vector_operator.Prelude.Int.{pos, ◌-ℤ◌, ltb_ℤ, -ℤ_parts}
use vector_operator.Dict.{has}
use vector_operator.Text.{Text, text_eq, text_beq_iff}
use vector_operator.Pipeline.SecretIndex.{name_eq}
use vector_operator.Config.Secrets.Bridge.{Assets}
use vector_operator.Controller.Secrets.{secret_assets_prune_decision, assets_would_drop_a_key}

-- Pruning is allowed exactly when the configuration is unchanged and was published at least the grace
-- period ago.
pub secret_assets_prune_decision_lem :
    (now : ℕ) (unchanged : Bool) (published_at : Option ℕ)
    → ((secret_assets_prune_decision now unchanged published_at).0 ≡ true)
      ↔ ((unchanged ≡ true) × ((at : ℕ) × (published_at ≡ some at) × (at + 90 ≤ now)))
unfolding secret_assets_prune_decision
secret_assets_prune_decision_lem now false at = (λ h. cc, λ h. let u = h.0 in cc u)
secret_assets_prune_decision_lem now true none = (λ h. cc, λ h. let (x, e, l) = h.1 in cc e)
secret_assets_prune_decision_lem now true (some at) =
    elim (Bool-cases (ltb_ℤ (pos now -ℤ pos at) (pos 90))) [
      | inl early ↦ rw early (
        λ h. cc,
        λ h.
            let (x, e, l) = h.1 in
            let same : at ≡ x = ground arith in
            absurd (ground (arith, -ℤ_parts (pos now) (pos at))),
      )
      | inr late ↦
          rw late (λ h. (refl, (at, refl, ground (arith, -ℤ_parts (pos now) (pos at)))), λ h. refl)
    ]

-- If the test says that no key would be dropped, the target has every key that is there.
pub assets_would_drop_a_key_lem :
    (k : Text) (existing target : Assets)
    → assets_would_drop_a_key existing target ≡ false
    → has k existing ≡ true
    → has k target ≡ true
unfolding assets_would_drop_a_key has
assets_would_drop_a_key_lem k [] target h i = cc
assets_would_drop_a_key_lem k ((j, v) ∷ existing) target h i =
    ground (arith, text_beq_iff j k, assets_would_drop_a_key_lem k existing target)
