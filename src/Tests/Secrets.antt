-- ===== src/Tests/Secrets.antt =====
-- internal/config/secrets.go at concrete inputs.
use vector_operator.Prelude.{
  ◌≡◌, ◌≢◌, refl, sym, Bool, true, false, Option, none, some, List, [], ◌∷◌, ◌++◌, In, All, all,
  map, inl, inr, codes, arith, ◌⊎◌,
}
use vector_operator.Prelude.Result.{ok, fails}
use vector_operator.Dict.{Dict, has, insert, lookup}
use vector_operator.Sets.{contains}
use vector_operator.Text.{Text, text_eq, text_beq_iff}
use vector_operator.Config.Secrets.Types.{PendingSecretRef}
use vector_operator.Config.Secrets.Scan.{scan_and_rewrite_secret_refs}
use vector_operator.Config.Secrets.Scan.Segments.{segments}
use vector_operator.Config.Secrets.Scan.Exact.{
  occurrences_fields, substitute_fields, acceptable, scan_and_rewrite_secret_refs-total,
}
use vector_operator.Config.Secrets.Process.{process_pipeline_secrets, components}
use vector_operator.Config.Secrets.Process.Laws.{all_occurrences}
use vector_operator.Config.Secrets.Process.Total.{
  Processable, Queues, process_pipeline_secrets-total,
}
use vector_operator.Config.Secrets.Process.Tenancy.{InScope, process_pipeline_secrets-InScope}
use vector_operator.Config.Secrets.Process.Used.{
  uses, used_secret_backends, used_secret_backends_exact,
}
use vector_operator.Config.Secrets.Resolve.{same_tuple, resolve_pending_secrets}
use vector_operator.Config.Secrets.Resolve.Reads.{reads}
use vector_operator.Config.Secrets.Resolve.Invariant.{AllNamespaced}
use vector_operator.Config.Secrets.Resolve.Exact.{
  Published, Resolvable, resolve_pending_secrets-Published, resolve_pending_secrets-succeeds,
}
use vector_operator.Config.Secrets.Safety.{
  secret_value_safe_for_json_text, json_string, json_string-secret_value_safe,
}
use vector_operator.Config.Secrets.Gather.{
  Scan, scan_pipelines, empty_scan, gather_pending_secrets_by_pipeline,
}
use vector_operator.Config.Secrets.Collisions.{detect_secret_collisions}
use vector_operator.Config.Secrets.Collisions.Exact.{OwnOneSource, IsVictim}
use vector_operator.Config.Secrets.Collisions.Promise.{
  detect_secret_collisions-OneSource, detect_secret_collisions-Justified, Justified,
}
use vector_operator.Config.Secrets.Bridge.{bridge_assets}
use vector_operator.Config.Secrets.Bridge.Totals.{Fits, bridge_assets-Fits}
use vector_operator.Tests.Data.{
  options, rewritten, backends, config, lib, getter, first, second, first_ref, second_ref, shared,
  shared_ref, collision,
}

abbrev scan : Scan
scan = record {
  by_id = (codes "a/b-c", first) ∷ (codes "a-b/c", second) ∷ [];
  pending = first_ref ∷ second_ref ∷ [];
}

scanned : scan_pipelines lib (some getter) (first ∷ second ∷ []) empty_scan ≡ ok scan
unfolding scan_pipelines process_pipeline_secrets components has insert lookup
scanned = refl

detected : detect_secret_collisions lib (some getter) (first ∷ second ∷ []) ≡ ok (collision ∷ [])
unfolding detect_secret_collisions gather_pending_secrets_by_pipeline process_pipeline_secrets
    components has insert lookup
detected = refl

apart : ¬ (codes "a/b-c" ≡ codes "a-b/c")
apart h = let e : false ≡ true = (text_beq_iff (codes "a/b-c") (codes "a-b/c")).1 h in cc

consistent : OwnOneSource scan.pending
consistent a b (inl e) (inl f) p q = rw (e, f) refl
consistent a b (inl e) (inr (inl f)) p q = absurd (apart (rw (e, f) at p))
consistent a b (inr (inl e)) (inl f) p q = absurd (apart (sym (rw (e, f) at p)))
consistent a b (inr (inl e)) (inr (inl f)) p q = rw (e, f) refl
consistent a b (inl e) (inr (inr x)) p q = elim x [ ]
consistent a b (inr (inl e)) (inr (inr x)) p q = elim x [ ]
consistent a b (inr (inr x)) m p q = elim x [ ]

-- a cluster's pipeline that reads the same key of the same Secret under the same flat key
abbrev shared_scan : Scan
shared_scan = record {
  by_id = (codes "a/b-c", first) ∷ (codes "a-b-c", shared) ∷ [];
  pending = first_ref ∷ shared_ref ∷ [];
}

shared_scanned : scan_pipelines lib (some getter) (first ∷ shared ∷ []) empty_scan ≡ ok shared_scan
unfolding scan_pipelines process_pipeline_secrets components has insert lookup
shared_scanned = refl

shared_detected : detect_secret_collisions lib (some getter) (first ∷ shared ∷ []) ≡ ok []
unfolding detect_secret_collisions gather_pending_secrets_by_pipeline process_pipeline_secrets
    components has insert lookup
shared_detected = refl

shared_consistent : OwnOneSource shared_scan.pending
shared_consistent a b (inl e) (inl f) p q = rw (e, f) refl
shared_consistent a b (inl e) (inr (inl f)) p q = rw (e, f) refl
shared_consistent a b (inr (inl e)) (inl f) p q = rw (e, f) refl
shared_consistent a b (inr (inl e)) (inr (inl f)) p q = rw (e, f) refl
shared_consistent a b (inl e) (inr (inr x)) p q = elim x [ ]
shared_consistent a b (inr (inl e)) (inr (inr x)) p q = elim x [ ]
shared_consistent a b (inr (inr x)) m p q = elim x [ ]

nil-IsVictim : (id : Text) → ¬ IsVictim [] id
nil-IsVictim id (c, m, w) = elim m [ ]

detect_secret_collisions-OneSource_example : same_tuple first_ref shared_ref ≡ true
detect_secret_collisions-OneSource_example =
    detect_secret_collisions-OneSource lib (some getter) first shared [] shared_scan []
      shared_consistent shared_scanned shared_detected first_ref shared_ref (inl refl)
      (inr (inl refl)) (nil-IsVictim (codes "a/b-c")) (nil-IsVictim (codes "a-b-c")) refl

detect_secret_collisions-Justified_example :
    Justified lib
      (some getter)
      first
      second
      []
      scan
      (collision ∷ [])
      consistent
      scanned
      detected
      collision
detect_secret_collisions-Justified_example =
    detect_secret_collisions-Justified lib (some getter) first second [] scan (collision ∷ [])
      consistent scanned detected collision (inl refl)

process_pipeline_secrets-InScope_example :
    (new : List PendingSecretRef) × (first_ref ∷ [] ≡ [] ++ new) × All (InScope first) new
unfolding process_pipeline_secrets has vector_operator.Config.Secrets.Scan.Segments.reference lookup
process_pipeline_secrets-InScope_example =
    process_pipeline_secrets-InScope lib first (some getter) (options ∷ []) (rewritten ∷ []) []
      (first_ref ∷ []) refl

process_pipeline_secrets-total_example :
    (Processable lib first (some getter) (options ∷ [])
      × ((new : List PendingSecretRef) × (process_pipeline_secrets lib first
              (some getter)
              (options ∷ [])
              []
            ≡ ok (
              map (substitute_fields lib (codes "a") (codes "b-c") backends) (options ∷ []),
              [] ++ new,
            ))
          × Queues lib first (all_occurrences (options ∷ [])) new))
    ⊎ ((¬ Processable lib first (some getter) (options ∷ []))
        × (fails (process_pipeline_secrets lib first (some getter) (options ∷ []) []) ≡ true))
process_pipeline_secrets-total_example =
    process_pipeline_secrets-total lib first (some getter) (options ∷ []) []

scan_and_rewrite_secret_refs-total_example :
    ((all (acceptable lib (codes "a") (codes "b-c") backends) (occurrences_fields options) ≡ true)
      × (scan_and_rewrite_secret_refs lib (codes "a") (codes "b-c") backends options
          ≡ ok (
            substitute_fields lib (codes "a") (codes "b-c") backends options,
            occurrences_fields options,
          )))
    ⊎ ((all (acceptable lib (codes "a") (codes "b-c") backends) (occurrences_fields options)
          ≡ false)
        × (fails (scan_and_rewrite_secret_refs lib (codes "a") (codes "b-c") backends options)
            ≡ true))
scan_and_rewrite_secret_refs-total_example =
    scan_and_rewrite_secret_refs-total lib (codes "a") (codes "b-c") backends options

first_namespaced : AllNamespaced getter (first_ref ∷ [])
first_namespaced r (inl e) = rw e refl
first_namespaced r (inr x) = elim x [ ]

resolve_pending_secrets-Published_example :
    Published getter (first_ref ∷ []) ((codes "a_b_c_db_pass", codes "hunter2") ∷ [])
unfolding resolve_pending_secrets lookup secret_value_safe_for_json_text
    vector_operator.Config.Secrets.Safety.utf8_valid
    vector_operator.Config.Secrets.Safety.no_json_special insert
resolve_pending_secrets-Published_example =
    resolve_pending_secrets-Published getter (first_ref ∷ [])
      {out = some ((codes "a_b_c_db_pass", codes "hunter2") ∷ [])} first_namespaced refl

readable_ref : reads getter first_ref ≢ none
unfolding reads lookup secret_value_safe_for_json_text
    vector_operator.Config.Secrets.Safety.utf8_valid
    vector_operator.Config.Secrets.Safety.no_json_special
readable_ref h = let e : some (codes "hunter2") ≡ none = h in cc

first-Resolvable : Resolvable getter (first_ref ∷ [])
first-Resolvable = record {
  readable = λ r m. elim m [ inl e ↦ rw e (λ h. readable_ref h) | inr x ↦ absurd x ];
  one_source = λ a b m k e. elim m [
    | inl i ↦ elim k [ inl j ↦ rw (i, j) refl | inr x ↦ absurd x ]
    | inr x ↦ absurd x
  ];
}

resolve_pending_secrets-succeeds_example :
    fails (resolve_pending_secrets getter (first_ref ∷ [])) ≡ false
resolve_pending_secrets-succeeds_example =
    resolve_pending_secrets-succeeds getter (first_ref ∷ []) first_namespaced first-Resolvable

json_string-secret_value_safe_example :
    json_string (λ s. none) 8 (codes "hunter2" ++ (b'"' ∷ codes "}"))
    ≡ some (codes "hunter2", codes "}")
unfolding secret_value_safe_for_json_text vector_operator.Config.Secrets.Safety.utf8_valid
    vector_operator.Config.Secrets.Safety.no_json_special
json_string-secret_value_safe_example =
    json_string-secret_value_safe (λ s. none) (codes "hunter2") (codes "}") 8 refl (omega arith)

used_secret_backends_exact_example :
    (used : List Text) × (used_secret_backends lib first ≡ ok used)
    × ((alias : Text)
        → contains alias used ≡ uses backends alias (all_occurrences (components config)))
used_secret_backends_exact_example = used_secret_backends_exact lib first config refl

abbrev old_data : Dict Text Text
old_data = (codes "a_b_c_db_old", codes "x") ∷ []

abbrev new_data : Dict Text Text
new_data = (codes "a_b_c_db_old", codes "x") ∷ (codes "a_b_c_db_pass", codes "hunter2") ∷ []

bridge_assets-Fits_example : (new_data ≡ old_data) ⊎ Fits lib none new_data
unfolding bridge_assets gather_pending_secrets_by_pipeline process_pipeline_secrets components has
    insert lookup contains vector_operator.Config.Secrets.Resolve.value_of
    secret_value_safe_for_json_text vector_operator.Config.Secrets.Safety.utf8_valid
    vector_operator.Config.Secrets.Safety.no_json_special vector_operator.Prelude.Int.◌+ℤ◌
bridge_assets-Fits_example =
    bridge_assets-Fits lib getter none old_data (first ∷ []) new_data [] refl
