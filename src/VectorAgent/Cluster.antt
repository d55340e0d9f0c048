-- ===== src/VectorAgent/Cluster.antt =====
-- The namespace of an agent as a round of `EnsureVectorAgent` changes it, write by write, and what its
-- pods need of it. Which keys a configuration references is a parameter.
use vector_operator.Prelude.{
  ◌≡◌, refl, sym, subst, ◌∙◌, Bool, true, false, Option, none, some, List, [], ◌∷◌, ◌++◌, In, All,
  ◌==◌, if◌then◌else◌,
}
use vector_operator.Dict.{Dict, lookup, has, insert, remove, lookup-insert, lookup-remove}
use vector_operator.Text.{Text, text_eq}
use vector_operator.VectorAgent.{
  Data, Template, Write, put_secret, delete_secret, put_daemon_set, stamp_config_publishing,
  put_other, try_delete_secret,
}

pub record Cluster : Type 0 where
  pub secrets : Dict Text Data
  pub daemon_set : Option Template

unfoldable pub apply : Write → Cluster → Cluster
apply (put_secret name d) w = record w { secrets = insert name d w.secrets }
apply (delete_secret name) w = record w { secrets = remove name w.secrets }
apply (put_daemon_set t) w = record w { daemon_set = some t }
apply stamp_config_publishing w = w
apply (put_other kind) w = w
apply (try_delete_secret name) w = record w { secrets = remove name w.secrets }

-- A round that makes the writes in their order and may end after each; a write whose error is only
-- logged may be left out.
pub data Runs : List Write → Cluster → Cluster → Type 0 where
  stop : {ws : List Write} {w : Cluster} → Runs ws w w
  step :
      {x : Write} {ws : List Write} {w w' : Cluster} → Runs ws (apply x w) w' → Runs (x ∷ ws) w w'
  skip :
      {name : Text} {ws : List Write} {w w' : Cluster}
      → Runs ws w w'
      → Runs (try_delete_secret name ∷ ws) w w'

-- `secret.Data` of a Secret that may be missing
abbrev pub data_of : Option Data → Data
data_of none = []
data_of (some d) = d

pub some_injective : {A : Type 0} {a b : A} → Path (Option A) (some a) (some b) → a ≡ b
some_injective e = cc

module _ (refs : Data → List Text) where
  abbrev pub PodStarts : Cluster → Template → Type 0
  PodStarts w t =
      ((d : Data) × (lookup t.config w.secrets ≡ some d))
      × ((m : Text) → t.assets ≡ some m → (d : Data) × (lookup m w.secrets ≡ some d))
      × ((k : Text)
          → In k (refs (data_of (lookup t.config w.secrets)))
          → (m : Text) × (t.assets ≡ some m) × (has k (data_of (lookup m w.secrets)) ≡ true))

  -- A pod that is created now finds the configuration and the assets that it mounts, and every key
  -- that its configuration references is in them.
  abbrev pub IsSafe : Cluster → Type 0
  IsSafe w = (t : Template) → w.daemon_set ≡ some t → PodStarts w t

  -- what a write that may be left out asks for as well
  abbrev OrLeftOut : Write → Type 0 → Type 0
  OrLeftOut (try_delete_secret name) P = P
  OrLeftOut _ P = Unit

  -- every run of the writes is safe at each point, and ends in a state of the given kind
  abbrev pub Safely : List Write → (Cluster → Type 0) → Cluster → Type 0
  Safely [] Q w = IsSafe w × Q w
  Safely (x ∷ ws) Q w = IsSafe w × Safely ws Q (apply x w) × OrLeftOut x (Safely ws Q w)

  Safely-IsSafe : (ws : List Write) (Q : Cluster → Type 0) (w : Cluster) → Safely ws Q w → IsSafe w
  Safely-IsSafe [] Q w s = s.0
  Safely-IsSafe (x ∷ ws) Q w s = s.0

  pub Runs-IsSafe :
      (Q : Cluster → Type 0) {ws : List Write} {w w' : Cluster}
      → Runs ws w w'
      → Safely ws Q w
      → IsSafe w'
  Runs-IsSafe Q (stop {ws} {w}) s = Safely-IsSafe ws Q w s
  Runs-IsSafe Q (step r) s = Runs-IsSafe Q r s.1
  Runs-IsSafe Q (skip r) s = Runs-IsSafe Q r s.2

  OrLeftOut-map : (x : Write) (P R : Type 0) → (P → R) → OrLeftOut x P → OrLeftOut x R
  OrLeftOut-map (put_secret name d) P R f p = tt
  OrLeftOut-map (delete_secret name) P R f p = tt
  OrLeftOut-map (put_daemon_set t) P R f p = tt
  OrLeftOut-map stamp_config_publishing P R f p = tt
  OrLeftOut-map (put_other kind) P R f p = tt
  OrLeftOut-map (try_delete_secret name) P R f p = f p

  pub Safely-append :
      (xs ys : List Write) (P Q : Cluster → Type 0) (w : Cluster)
      → ((v : Cluster) → P v → Safely ys Q v)
      → Safely xs P w
      → Safely (xs ++ ys) Q w
  Safely-append [] ys P Q w f s = f w s.1
  Safely-append (x ∷ xs) ys P Q w f s = (
    s.0,
    Safely-append xs ys P Q (apply x w) f s.1,
    OrLeftOut-map x (Safely xs P w) (Safely (xs ++ ys) Q w) (Safely-append xs ys P Q w f) s.2,
  )

  -- What of the cluster decides, for one configuration Secret and its assets: whether the DaemonSet is
  -- there and mounts the assets, and the data of the two.
  module _ (config assets : Text) where
    pub record Stage : Type 0 where
      pub mounted : Option Bool
      pub live : Data
      pub held : Option Data

    abbrev pub template_at : Bool → Template
    template_at mount = record { config = config; assets = if mount then some assets else none }

    abbrev pub daemon_at : Option Bool → Option Template
    daemon_at none = none
    daemon_at (some mount) = some (template_at mount)

    pub record At (s : Stage) (w : Cluster) : Type 0 where
      pub template : w.daemon_set ≡ daemon_at s.mounted
      pub live_at : lookup config w.secrets ≡ some s.live
      pub held_at : lookup assets w.secrets ≡ s.held

    abbrev pub IsGood : Stage → Type 0
    IsGood s =
        (mount : Bool)
        → s.mounted ≡ some mount
        → (mount ≡ true → (d : Data) × (s.held ≡ some d))
          × ((k : Text) → In k (refs s.live) → (mount ≡ true) × (has k (data_of s.held) ≡ true))

    -- a template that mounts what the stage says
    At-PodStarts :
        (s : Stage) (w : Cluster) (mount : Bool)
        → At s w
        → IsGood s
        → s.mounted ≡ some mount
        → PodStarts w (template_at mount)
    At-PodStarts s w false a good e = (
      (s.live, a.live_at),
      λ m h. cc h,
      λ k h. absurd (cc ((good false e).1 k (subst (λ o. In k (refs (data_of o))) a.live_at h)).0),
    )
    At-PodStarts s w true a good e = (
      (s.live, a.live_at),
      λ m h.
          let (d, held) = (good true e).0 refl in
          let same : assets ≡ m = some_injective h in
          (d, subst (λ n. lookup n w.secrets ≡ some d) same (a.held_at ∙ held)),
      λ k h.
          let there = ((good true e).1 k (subst (λ o. In k (refs (data_of o))) a.live_at h)).1 in
          (assets, refl, subst (λ o. has k (data_of o) ≡ true) (sym a.held_at) there),
    )

    At-IsSafe_by :
        (s : Stage) (w : Cluster) (mounted : Option Bool)
        → At s w
        → IsGood s
        → s.mounted ≡ mounted
        → IsSafe w
    At-IsSafe_by s w none a good e t h =
        absurd (let gone = subst (λ o. w.daemon_set ≡ daemon_at o) e a.template in cc (gone, h))
    At-IsSafe_by s w (some mount) a good e t h =
        let there = subst (λ o. w.daemon_set ≡ daemon_at o) e a.template in
        let same : template_at mount ≡ t = some_injective (sym there ∙ h) in
        subst (PodStarts w) same (At-PodStarts s w mount a good e)

    pub At-IsSafe : (s : Stage) (w : Cluster) → At s w → IsGood s → IsSafe w
    At-IsSafe s w a good = At-IsSafe_by s w s.mounted a good refl

    -- a write that does not touch the two Secrets or the DaemonSet
    abbrev pub IsQuiet : Write → Type 0
    IsQuiet (put_secret name d) = ((name == config) ≡ false) × ((name == assets) ≡ false)
    IsQuiet (delete_secret name) = ((name == config) ≡ false) × ((name == assets) ≡ false)
    IsQuiet (put_daemon_set t) = ⊥
    IsQuiet stamp_config_publishing = Unit
    IsQuiet (put_other kind) = Unit
    IsQuiet (try_delete_secret name) = ((name == config) ≡ false) × ((name == assets) ≡ false)

    At-remove :
        (name : Text) (s : Stage) (w : Cluster)
        → ((name == config) ≡ false) × ((name == assets) ≡ false)
        → At s w
        → At s (record w { secrets = remove name w.secrets })
    At-remove name s w q a = record {
      template = a.template;
      live_at = lookup-remove name config w.secrets ∙ (rw q.0 a.live_at);
      held_at = lookup-remove name assets w.secrets ∙ (rw q.1 a.held_at);
    }

    At-quiet : (x : Write) (s : Stage) (w : Cluster) → IsQuiet x → At s w → At s (apply x w)
    unfolding apply
    At-quiet (put_secret name d) s w q a = record {
      template = a.template;
      live_at = lookup-insert name config d w.secrets ∙ (rw q.0 a.live_at);
      held_at = lookup-insert name assets d w.secrets ∙ (rw q.1 a.held_at);
    }
    At-quiet (delete_secret name) s w q a = At-remove name s w q a
    At-quiet (put_daemon_set t) s w q a = absurd q
    At-quiet stamp_config_publishing s w q a = a
    At-quiet (put_other kind) s w q a = a
    At-quiet (try_delete_secret name) s w q a = At-remove name s w q a

    -- a part of the round that leads from one stage to another
    abbrev pub Phase : List Write → Stage → Stage → Type 0
    Phase ws s s' = (w : Cluster) → At s w → Safely ws (At s') w

    pub Phase-append :
        (xs ys : List Write) (s t u : Stage) → Phase xs s t → Phase ys t u → Phase (xs ++ ys) s u
    Phase-append xs ys s t u f g w a = Safely-append xs ys (At t) (At u) w g (f w a)

    left_out : (x : Write) (P : Type 0) → P → OrLeftOut x P
    left_out (put_secret name d) P p = tt
    left_out (delete_secret name) P p = tt
    left_out (put_daemon_set t) P p = tt
    left_out stamp_config_publishing P p = tt
    left_out (put_other kind) P p = tt
    left_out (try_delete_secret name) P p = p

    pub Phase-quiet : (ws : List Write) (s : Stage) → IsGood s → All IsQuiet ws → Phase ws s s
    Phase-quiet [] s good q w a = (At-IsSafe s w a good, a)
    Phase-quiet (x ∷ ws) s good q w a = (
      At-IsSafe s w a good,
      Phase-quiet ws s good q.1 (apply x w) (At-quiet x s w q.0 a),
      left_out x _ (Phase-quiet ws s good q.1 w a),
    )
