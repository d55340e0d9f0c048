-- ===== src/Config/Secrets/Collisions.antt =====
-- `DetectSecretCollisions` of internal/config/secrets.go.
pub mod Claims
pub mod Invariant
pub mod Step
pub mod Accept
pub mod Exact
pub mod Promise
use vector_operator.Prelude.{
  Bool, true, false, ◌&&◌, Option, none, some, List, [], ◌∷◌, if◌then◌else◌,
}
use vector_operator.Prelude.Result.{Result, ok, err, ◌>>=◌}
use vector_operator.Dict.{Dict, lookup, insert, keys}
use vector_operator.Text.{Text, text_eq, text_beq, text_lt}
use vector_operator.Sort.{sort_by, sort_texts}
use vector_operator.Api.{Pipeline}
use vector_operator.Config.Secrets.Types.{Library, Getter, PendingSecretRef, SecretError}
use vector_operator.Config.Secrets.Gather.{Gathered, refs_at, gather_pending_secrets_by_pipeline}

-- `SecretCollision`; a pipeline that the map lacks is the nil interface
pub record SecretCollision : Type 0 where
  pub victim : Option Pipeline
  pub flat_key : Text
  pub survivor : Text

pub record AcceptedOwner : Type 0 where
  pub resolve_ns : Text
  pub secret_name : Text
  pub key : Text
  pub id : Text

pub record Accepted : Type 0 where
  pub accepted : Dict Text AcceptedOwner
  pub victims : Dict Text SecretCollision

abbrev pub owns_tuple : AcceptedOwner → PendingSecretRef → Bool
owns_tuple o r =
    text_beq o.resolve_ns r.resolve_ns
    && (text_beq o.secret_name r.secret_name && text_beq o.key r.key)

-- the first reference whose flat key belongs to another tuple: the key, and the owner's ID
unfoldable pub find_conflict :
    List PendingSecretRef → Dict Text AcceptedOwner → Option (Text × Text)
find_conflict [] accepted = none
find_conflict (ref ∷ refs) accepted =
    let rest = find_conflict refs accepted in
    elim (lookup ref.flat accepted) [
      | none ↦ rest
      | some owner ↦ if owns_tuple owner ref then rest else some (ref.flat, owner.id)
    ]

abbrev pub owner_of : Text → PendingSecretRef → AcceptedOwner
owner_of id ref = record {
  resolve_ns = ref.resolve_ns;
  secret_name = ref.secret_name;
  key = ref.key;
  id = id;
}

-- the loop that claims the keys of an accepted pipeline
unfoldable pub claim_all :
    Text → List PendingSecretRef → Dict Text AcceptedOwner → Dict Text AcceptedOwner
claim_all id [] accepted = accepted
claim_all id (ref ∷ refs) accepted = claim_all id refs (elim (lookup ref.flat accepted) [
  | some _ ↦ accepted
  | none ↦ insert ref.flat (owner_of id ref) accepted
])

unfoldable pub by_flat : PendingSecretRef → PendingSecretRef → Bool
unfolding text_lt
by_flat a b = text_lt a.flat b.flat

module _ (g : Gathered) where
  unfoldable pub visit : Text → Accepted → Accepted
  unfolding find_conflict claim_all sort_by by_flat refs_at
  visit id st =
      let refs = sort_by by_flat (refs_at id g.by_pipeline) in
      elim (find_conflict refs st.accepted) [
        | some (flat, survivor) ↦ record st {
          victims =
              insert id
                (record { victim = lookup id g.by_id; flat_key = flat; survivor = survivor })
                st.victims;
        }
        | none ↦ record st { accepted = claim_all id refs st.accepted }
      ]

  unfoldable pub visit_all : List Text → Accepted → Accepted
  unfolding visit
  visit_all [] st = st
  visit_all (id ∷ ids) st = visit_all ids (visit id st)

abbrev pub none_accepted : Accepted
none_accepted = record { accepted = []; victims = [] }

abbrev pub prepend : Option SecretCollision → List SecretCollision → List SecretCollision
prepend none cols = cols
prepend (some c) cols = c ∷ cols

-- the last loop: the victims' entries by ascending ID
unfoldable pub collect : List Text → Dict Text SecretCollision → List SecretCollision
collect [] victims = []
collect (id ∷ ids) victims = prepend (lookup id victims) (collect ids victims)

unfoldable pub find_victims : Gathered → Dict Text SecretCollision
unfolding visit_all
find_victims g = (visit_all g g.ordered_ids none_accepted).victims

-- with fewer than two pipelines nothing can collide, and nothing is read
unfoldable pub detect_secret_collisions :
    Library → Option Getter → List Pipeline → Result SecretError (List SecretCollision)
unfolding find_victims collect sort_texts keys
detect_secret_collisions lib getter [] = ok []
detect_secret_collisions lib getter (p ∷ []) = ok []
detect_secret_collisions lib getter (p ∷ q ∷ ps) =
    gather_pending_secrets_by_pipeline lib getter (p ∷ q ∷ ps) >>= λ g.
    let victims = find_victims g in ok (collect (sort_texts (keys victims)) victims)
