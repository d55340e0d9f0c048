-- ===== src/Pipeline/SecretIndex/Laws.antt =====
-- The two directions of the index agree, and `set` replaces exactly one pipeline's links.
use vector_operator.Prelude.{
  ◌≡◌, ◌≢◌, refl, sym, ◌∙◌, true, false, not, ◌&&◌, ◌||◌, some, List, [], ◌∷◌, ◌==◌, arith,
  if◌then◌else◌,
}
use vector_operator.Dict.{Dict, lookup, insert, lookup-insert, lookup-remove}
use vector_operator.Sets.{
  contains, add, discard, add_all, contains-add, contains-discard, contains-add_all,
}
use vector_operator.Pipeline.SecretIndex.{
  NamespacedName, name_beq_iff, name_eq, SecretIndex, members, is_empty, drop_link, unlink, link,
  set, pipelines_for, new_secret_index,
}

contains_of_empty :
    (k : NamespacedName) (s : List NamespacedName) → is_empty s ≡ true → contains k s ≡ false
unfolding is_empty contains
contains_of_empty k [] h = refl
contains_of_empty k (x ∷ s) h = cc

module _ (pipeline : NamespacedName) where
  contains-drop_link :
      (old : NamespacedName) (m : Dict NamespacedName (List NamespacedName)) (s q : NamespacedName)
      → contains q (members s (drop_link pipeline old m))
        ≡ (if pipeline == q && old == s then false else contains q (members s m))
  unfolding drop_link members is_empty contains
  contains-drop_link old m s q = ground (
    arith,
    lookup-remove {V = List NamespacedName} old s m,
    lookup-insert old s (discard pipeline (members old m)) m,
    contains-discard pipeline q (members old m),
    contains_of_empty q (discard pipeline (members old m)),
    name_beq_iff old s,
    name_beq_iff pipeline q,
  )

  contains-unlink :
      (new_set olds : List NamespacedName) (m : Dict NamespacedName (List NamespacedName))
      (s q : NamespacedName)
      → contains q (members s (unlink pipeline new_set olds m)) ≡ (
          if pipeline == q && (contains s olds && not (contains s new_set))
          then false
          else contains q (members s m))
  unfolding unlink contains
  contains-unlink new_set [] m s q = ground arith
  contains-unlink new_set (old ∷ olds) m s q = ground (
    arith,
    contains-unlink new_set olds m s q,
    contains-unlink new_set olds (drop_link pipeline old m) s q,
    contains-drop_link old m s q,
    name_beq_iff old s,
  )

  contains-add_link :
      (t : NamespacedName) (m : Dict NamespacedName (List NamespacedName)) (s q : NamespacedName)
      → contains q (members s (insert t (add pipeline (members t m)) m))
        ≡ (pipeline == q && t == s || contains q (members s m))
  unfolding members contains
  contains-add_link t m s q = ground (
    arith,
    lookup-insert t s (add pipeline (members t m)) m,
    contains-add pipeline q (members t m),
    name_beq_iff t s,
  )

  contains-link :
      (ss : List NamespacedName) (m : Dict NamespacedName (List NamespacedName))
      (s q : NamespacedName)
      → contains q (members s (link pipeline ss m))
        ≡ (pipeline == q && contains s ss || contains q (members s m))
  unfolding link contains
  contains-link [] m s q = ground arith
  contains-link (t ∷ ss) m s q = ground (
    arith,
    contains-link ss (insert t (add pipeline (members t m)) m) s q,
    contains-add_link t m s q,
    name_beq_iff t s,
  )

add-ne-nil : (k : NamespacedName) (s : List NamespacedName) → add k s ≢ []
unfolding add contains
add-ne-nil k [] h = cc
add-ne-nil k (x ∷ s) h = ground arith

-- The two maps say the same, and no entry of either is an empty set.
pub record IsConsistent (si : SecretIndex) : Type 0 where
  pub agree :
      (s q : NamespacedName)
      → contains q (members s si.secret_to_pipelines)
        ≡ contains s (members q si.pipeline_to_secrets)
  pub no_empty_secret : (s : NamespacedName) → lookup s si.secret_to_pipelines ≢ some []
  pub no_empty_pipeline : (q : NamespacedName) → lookup q si.pipeline_to_secrets ≢ some []

module _ (pipeline : NamespacedName) where
  no_empty-drop_link :
      (old : NamespacedName) (m : Dict NamespacedName (List NamespacedName)) (s : NamespacedName)
      → lookup s m ≢ some []
      → lookup s (drop_link pipeline old m) ≢ some []
  unfolding drop_link is_empty
  no_empty-drop_link old m s h = ground (
    arith,
    lookup-remove {V = List NamespacedName} old s m,
    lookup-insert old s (discard pipeline (members old m)) m,
  )

  no_empty-unlink :
      (new_set olds : List NamespacedName) (m : Dict NamespacedName (List NamespacedName))
      (s : NamespacedName)
      → lookup s m ≢ some []
      → lookup s (unlink pipeline new_set olds m) ≢ some []
  unfolding unlink
  no_empty-unlink new_set [] m s h = h
  no_empty-unlink new_set (old ∷ olds) m s h = ground (
    arith,
    no_empty-unlink new_set olds m s,
    no_empty-unlink new_set olds (drop_link pipeline old m) s,
    no_empty-drop_link old m s,
  )

  no_empty-link :
      (ss : List NamespacedName) (m : Dict NamespacedName (List NamespacedName))
      (s : NamespacedName)
      → lookup s m ≢ some []
      → lookup s (link pipeline ss m) ≢ some []
  unfolding link
  no_empty-link [] m s h = h
  no_empty-link (t ∷ ss) m s h = no_empty-link ss (insert t (add pipeline (members t m)) m) s (
      ground (
        arith,
        lookup-insert t s (add pipeline (members t m)) m,
        add-ne-nil pipeline (members t m),
      ))

-- A new index is consistent and knows no secret.
pub new_secret_index-IsConsistent : IsConsistent new_secret_index
unfolding new_secret_index members lookup contains
new_secret_index-IsConsistent = record {
  agree = λ s q. refl;
  no_empty_secret = λ s h. cc;
  no_empty_pipeline = λ q h. cc;
}

module _ {si : SecretIndex} (valid : IsConsistent si) (p : NamespacedName)
    (ss : List NamespacedName) where
  -- On a consistent index `set` makes `ss` the secrets of pipeline `p`, and leaves the pipelines of
  -- every secret as they were for every other pipeline.
  pub pipelines_for-set :
      (s q : NamespacedName)
      → contains q (pipelines_for (set si p ss) s)
        ≡ (if p == q then contains s ss else contains q (pipelines_for si s))
  unfolding pipelines_for set contains
  pipelines_for-set s q = ground (
    arith,
    contains-unlink p (add_all ss []) (members p si.pipeline_to_secrets) si.secret_to_pipelines s q,
    contains-link p (add_all ss [])
        (unlink p (add_all ss []) (members p si.pipeline_to_secrets) si.secret_to_pipelines) s q,
    contains-add_all s ss [],
    contains_of_empty s (add_all ss []),
    valid.agree s q,
    name_beq_iff p q,
  )

  secrets_of-set :
      (s q : NamespacedName)
      → contains s (members q (set si p ss).pipeline_to_secrets)
        ≡ (if p == q then contains s ss else contains s (members q si.pipeline_to_secrets))
  unfolding set members contains
  secrets_of-set s q = ground (
    arith,
    lookup-remove {V = List NamespacedName} p q si.pipeline_to_secrets,
    lookup-insert p q (add_all ss []) si.pipeline_to_secrets,
    contains-add_all s ss [],
    contains_of_empty s (add_all ss []),
  )

  -- `set` keeps a consistent index consistent: the two directions agree and no empty set stays
  -- behind in either map.
  pub set-IsConsistent : IsConsistent (set si p ss)
  unfolding set pipelines_for is_empty
  set-IsConsistent = record {
    agree =
        λ s q. pipelines_for-set s q ∙ (ground (arith, valid.agree s q) ∙ sym (secrets_of-set s q));
    no_empty_secret = λ s. ground (
      arith,
      valid.no_empty_secret s,
      no_empty-unlink p (add_all ss []) (members p si.pipeline_to_secrets) si.secret_to_pipelines s,
      no_empty-link p (add_all ss [])
          (unlink p (add_all ss []) (members p si.pipeline_to_secrets) si.secret_to_pipelines) s,
    );
    no_empty_pipeline = λ q. ground (
      arith,
      valid.no_empty_pipeline q,
      lookup-remove {V = List NamespacedName} p q si.pipeline_to_secrets,
      lookup-insert p q (add_all ss []) si.pipeline_to_secrets,
    );
  }
