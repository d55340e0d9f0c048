-- ===== src/Config/Optimize.antt =====
-- `rewriteInputs` and `bucketCount` of internal/config/agent_optimize.go. The loop of `bucketCount`
-- doubles from 1 while it is below 256, so eight rounds are enough.
pub mod Collapse
pub mod Groups
pub mod Reads
use vector_operator.Prelude.{
  ℕ, zero, suc, ◌+◌, ◌-◌, ◌*◌, ◌/◌, ◌≡◌, refl, ◌&&◌, not, none, some, List, [], ◌∷◌, ltb, leb,
  arith, map, if◌then◌else◌, inl, inr, Bool-cases,
}
use vector_operator.Dict.{Dict, lookup}
use vector_operator.Sets.{contains, add, contains-add}
use vector_operator.Text.{Text, text_eq, text_beq_iff}

-- `if out, ok := routeOutput[input]; ok { input = out }`
unfoldable pub redirect : Dict Text Text → Text → Text
redirect route_output input = elim (lookup input route_output) [ none ↦ input | some out ↦ out ]

unfoldable pub rewrite_from : Dict Text Text → List Text → List Text → List Text
unfolding redirect
rewrite_from route_output seen [] = []
rewrite_from route_output seen (input ∷ inputs) =
    let out = redirect route_output input in
    let skip = rewrite_from route_output seen inputs in
    let next = rewrite_from route_output (add out seen) inputs in
    if contains out seen then skip else out ∷ next

unfoldable pub rewrite_inputs : List Text → Dict Text Text → List Text
unfolding rewrite_from
rewrite_inputs inputs route_output = rewrite_from route_output [] inputs

unfoldable pub double_while : ℕ → ℕ → ℕ → ℕ
double_while zero n buckets = buckets
double_while (suc fuel) n buckets =
    let more = double_while fuel n (buckets * 2) in
    if ltb (buckets * buckets) n && ltb buckets 256 then more else buckets

unfoldable pub bucket_count : ℕ → ℕ
unfolding double_while
bucket_count n =
    let buckets = double_while 8 n 1 in
    let half = buckets / 2 in
    if ltb 0 half && leb (half + (n + half - 1) / half) (buckets + (n + buckets - 1) / buckets)
    then half
    else buckets

contains-rewrite_from :
    (x : Text) (route_output : Dict Text Text) (seen inputs : List Text)
    → contains x (rewrite_from route_output seen inputs)
      ≡ (contains x (map (redirect route_output) inputs) && not (contains x seen))
unfolding rewrite_from contains
contains-rewrite_from x ro seen [] = refl
contains-rewrite_from x ro seen (input ∷ inputs) =
    elim (Bool-cases (contains (redirect ro input) seen)) [
      | inl dup ↦ rw dup (
          ground
            (arith, contains-rewrite_from x ro seen inputs, text_beq_iff (redirect ro input) x))
      | inr new ↦ rw new (
          ground (
            arith,
            contains-rewrite_from x ro (add (redirect ro input) seen) inputs,
            contains-add (redirect ro input) x seen,
            text_beq_iff (redirect ro input) x,
          ))
    ]

-- The rewritten inputs are the inputs with each collapsed source replaced by its route output, as a
-- set: no input is lost and none is added.
pub contains-rewrite_inputs :
    (x : Text) (inputs : List Text) (route_output : Dict Text Text)
    → contains x (rewrite_inputs inputs route_output)
      ≡ contains x (map (redirect route_output) inputs)
unfolding rewrite_inputs contains
contains-rewrite_inputs x inputs ro = ground (arith, contains-rewrite_from x ro [] inputs)

bucket_count_runs : bucket_count 100 ≡ 8
unfolding bucket_count
bucket_count_runs = refl
