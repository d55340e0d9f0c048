-- ===== src/Config/Secrets/Scan/Exact.antt =====
-- The scan against its specification: which references there are, when they are accepted, and what
-- the options become.
use vector_operator.Prelude.{
  ◌⊎◌, ◌≡◌, ◌≢◌, refl, Bool, true, false, not, ◌&&◌, none, List, [], ◌∷◌, ◌++◌, ltb, length, all,
  Bool-cases, arith, append_assoc, append-nil, inl, inr,
}
use vector_operator.Prelude.Result.{Result, ok, fails, ◌>>=◌}
use vector_operator.Dict.{Dict, has}
use vector_operator.Text.{Text, text_eq}
use vector_operator.Api.{Backend}
use vector_operator.Config.Types.{Value, Items, Fields, str, other, arr, obj, nil, cons, end, field}
use vector_operator.Config.Names.{flat_key}
use vector_operator.Config.Secrets.Types.{Library, SecretRef, SecretError}
use vector_operator.Config.Secrets.Scan.Segments.{
  Segment, lit, ref, segments, is_key_char, reference,
}
use vector_operator.Config.Secrets.Scan.{
  Found, backend_name, rewrite_match, rewrite_segments, walk_string, walk, walk_items, walk_fields,
  scan_and_rewrite_secret_refs,
}

-- the references among the segments, in order
unfoldable pub refs_of : List Segment → List SecretRef
refs_of [] = []
refs_of (lit c ∷ rest) = refs_of rest
refs_of (ref a k ∷ rest) = record { alias = a; key = k } ∷ refs_of rest

-- every reference in a value, in the order of the text
unfoldable mutual
  pub occurrences : Value → List SecretRef
  occurrences (str s) = refs_of (segments s)
  occurrences (other s) = []
  occurrences (arr xs) = occurrences_items xs
  occurrences (obj fs) = occurrences_fields fs

  pub occurrences_items : Items → List SecretRef
  occurrences_items nil = []
  occurrences_items (cons x xs) = occurrences x ++ occurrences_items xs

  pub occurrences_fields : Fields → List SecretRef
  occurrences_fields end = []
  occurrences_fields (field k x fs) = occurrences x ++ occurrences_fields fs

module _ (lib : Library) (ns name : Text) (declared : Dict Text Backend) where
  -- declared, with a key that a Secret can have, and a flat key that the API server takes
  unfoldable pub acceptable : SecretRef → Bool
  acceptable r =
      has r.alias declared
      && (all is_key_char r.key
          && not (ltb lib.dns1123_subdomain_max_length (length (flat_key ns name r.alias r.key))))

  unfoldable pub substitute_segments : List Segment → Text
  substitute_segments [] = []
  substitute_segments (lit c ∷ rest) = c ∷ substitute_segments rest
  substitute_segments (ref a k ∷ rest) =
      reference backend_name (flat_key ns name a k) ++ substitute_segments rest

  -- every reference replaced by the one to its flat key, and nothing else changed
  unfoldable mutual
    unfolding substitute_segments

    pub substitute : Value → Value
    substitute (str s) = str (substitute_segments (segments s))
    substitute (other s) = other s
    substitute (arr xs) = arr (substitute_items xs)
    substitute (obj fs) = obj (substitute_fields fs)

    pub substitute_items : Items → Items
    substitute_items nil = nil
    substitute_items (cons x xs) = cons (substitute x) (substitute_items xs)

    pub substitute_fields : Fields → Fields
    substitute_fields end = end
    substitute_fields (field k x fs) = field k (substitute x) (substitute_fields fs)

  rewrite_match-accepted :
      (a k : Text) (found : Found)
      → acceptable (record { alias = a; key = k }) ≡ true
      → rewrite_match lib ns name declared a k found ≡ (
        reference backend_name (flat_key ns name a k),
        record found { refs = found.refs ++ record { alias = a; key = k } ∷ [] },
      )
  unfolding rewrite_match acceptable
  rewrite_match-accepted a k found h = ground arith

  rewrite_match-refused :
      (a k : Text) (found : Found)
      → acceptable (record { alias = a; key = k }) ≡ false
      → (rewrite_match lib ns name declared a k found).1.walk_err ≢ none
  unfolding rewrite_match acceptable
  rewrite_match-refused a k found h = ground arith

  rewrite_segments-accepted :
      (segs : List Segment) (found : Found)
      → all acceptable (refs_of segs) ≡ true
      → rewrite_segments lib ns name declared segs found
        ≡ (substitute_segments segs, record found { refs = found.refs ++ refs_of segs })
  unfolding rewrite_segments substitute_segments refs_of
  rewrite_segments-accepted [] found h = rw append-nil
  rewrite_segments-accepted (lit c ∷ rest) found h =
      ground (arith, rewrite_segments-accepted rest found)
  rewrite_segments-accepted (ref a k ∷ rest) found h = ground (
    arith,
    rewrite_match-accepted a k found,
    rewrite_segments-accepted rest
        (record found { refs = found.refs ++ record { alias = a; key = k } ∷ [] }),
    append_assoc found.refs (record { alias = a; key = k } ∷ []) (refs_of rest),
  )

  rewrite_match-walk_err :
      (a k : Text) (found : Found)
      → found.walk_err ≢ none
      → (rewrite_match lib ns name declared a k found).1.walk_err ≢ none
  unfolding rewrite_match
  rewrite_match-walk_err a k found h = ground arith

  -- an error of the callback is kept, whatever follows
  rewrite_segments-walk_err :
      (segs : List Segment) (found : Found)
      → found.walk_err ≢ none
      → (rewrite_segments lib ns name declared segs found).1.walk_err ≢ none
  unfolding rewrite_segments
  rewrite_segments-walk_err [] found h = h
  rewrite_segments-walk_err (lit c ∷ rest) found h = rewrite_segments-walk_err rest found h
  rewrite_segments-walk_err (ref a k ∷ rest) found h =
      rewrite_segments-walk_err rest (rewrite_match lib ns name declared a k found).1
        (rewrite_match-walk_err a k found h)

  rewrite_segments-refused :
      (segs : List Segment) (found : Found)
      → all acceptable (refs_of segs) ≡ false
      → (rewrite_segments lib ns name declared segs found).1.walk_err ≢ none
  unfolding rewrite_segments refs_of
  rewrite_segments-refused [] found h = cc
  rewrite_segments-refused (lit c ∷ rest) found h = rewrite_segments-refused rest found h
  rewrite_segments-refused (ref a k ∷ rest) found h = ground (
    arith,
    rewrite_match-refused a k found,
    rewrite_segments-walk_err rest (rewrite_match lib ns name declared a k found).1,
    rewrite_segments-refused rest (rewrite_match lib ns name declared a k found).1,
  )

  -- What the scan of a part with the references `found` must return, where `whole` is the part
  -- with its references replaced: all of it, or an error.
  pub record Scanned (A : Type 0) (found : List SecretRef) (whole : A) (refs : List SecretRef)
      (r : Result SecretError (A × List SecretRef)) : Type 0 where
    pub accepted : all acceptable found ≡ true → r ≡ ok (whole, refs ++ found)
    pub refused : all acceptable found ≡ false → fails r ≡ true

  walk_string-Scanned :
      (s : Text) (refs : List SecretRef)
      → Scanned Text
          (refs_of (segments s))
          (substitute_segments (segments s))
          refs
          (walk_string lib ns name declared s refs)
  unfolding walk_string
  walk_string-Scanned s refs = record {
    accepted = λ h.
        ground (
          arith,
          rewrite_segments-accepted (segments s) (record { refs = refs; walk_err = none }) h,
        );
    refused = λ h.
        ground (
          arith,
          rewrite_segments-refused (segments s) (record { refs = refs; walk_err = none }) h,
        );
  }

  all-append :
      (xs ys : List SecretRef)
      → all acceptable (xs ++ ys) ≡ (all acceptable xs && all acceptable ys)
  all-append [] ys = refl
  all-append (x ∷ xs) ys = ground (arith, all-append xs ys)

  -- a part under a constructor
  Scanned-map :
      (A B : Type 0) (c : A → B) (found refs : List SecretRef) (whole : A)
      (r : Result SecretError (A × List SecretRef))
      → Scanned A found whole refs r
      → Scanned B found (c whole) refs (r >>= λ q. ok (c q.0, q.1))
  Scanned-map A B c found refs whole r h = record {
    accepted = λ a. ground (arith, h.accepted a);
    refused = λ a. ground (arith, h.refused a);
  }

  -- two parts, one after the other
  Scanned-pair :
      (A B C : Type 0) (c : A → B → C) (f g refs : List SecretRef) (a : A) (b : B)
      (m : Result SecretError (A × List SecretRef))
      (n : List SecretRef → Result SecretError (B × List SecretRef))
      → Scanned A f a refs m
      → ((rs : List SecretRef) → Scanned B g b rs (n rs))
      → Scanned C (f ++ g) (c a b) refs (m >>= λ r. n r.1 >>= λ q. ok (c r.0 q.0, q.1))
  Scanned-pair A B C c f g refs a b m n hm hn = record {
    accepted = λ h.
        ground
          (arith, hm.accepted, (hn (refs ++ f)).accepted, all-append f g, append_assoc refs f g);
    refused =
        λ h. ground (arith, hm.accepted, hm.refused, (hn (refs ++ f)).refused, all-append f g);
  }

  mutual
    unfolding walk occurrences substitute

    walk-Scanned :
        (v : Value) (refs : List SecretRef)
        → Scanned Value (occurrences v) (substitute v) refs (walk lib ns name declared v refs)
    walk-Scanned (str s) refs = Scanned-map Text Value str _ refs _ _ (walk_string-Scanned s refs)
    walk-Scanned (other s) refs = record { accepted = λ h. rw append-nil; refused = λ h. cc }
    walk-Scanned (arr xs) refs = Scanned-map Items Value arr _ refs _ _ (walk_items-Scanned xs refs)
    walk-Scanned (obj fs) refs =
        Scanned-map Fields Value obj _ refs _ _ (walk_fields-Scanned fs refs)

    walk_items-Scanned :
        (xs : Items) (refs : List SecretRef)
        → Scanned Items
            (occurrences_items xs)
            (substitute_items xs)
            refs
            (walk_items lib ns name declared xs refs)
    walk_items-Scanned nil refs = record { accepted = λ h. rw append-nil; refused = λ h. cc }
    walk_items-Scanned (cons x xs) refs =
        Scanned-pair Value Items Items cons _ _ refs _ _ _ (walk_items lib ns name declared xs)
          (walk-Scanned x refs) (walk_items-Scanned xs)

    walk_fields-Scanned :
        (fs : Fields) (refs : List SecretRef)
        → Scanned Fields
            (occurrences_fields fs)
            (substitute_fields fs)
            refs
            (walk_fields lib ns name declared fs refs)
    walk_fields-Scanned end refs = record { accepted = λ h. rw append-nil; refused = λ h. cc }
    walk_fields-Scanned (field k x fs) refs =
        Scanned-pair Value Fields Fields (field k) _ _ refs _ _ _
          (walk_fields lib ns name declared fs) (walk-Scanned x refs) (walk_fields-Scanned fs)

  -- the two cases of the scan, each by its condition
  pub scan_and_rewrite_secret_refs_exact :
      (options : Fields)
      → (all acceptable (occurrences_fields options) ≡ true
          → scan_and_rewrite_secret_refs lib ns name declared options
            ≡ ok (substitute_fields options, occurrences_fields options))
        × (all acceptable (occurrences_fields options) ≡ false
            → fails (scan_and_rewrite_secret_refs lib ns name declared options) ≡ true)
  unfolding scan_and_rewrite_secret_refs
  scan_and_rewrite_secret_refs_exact options =
      ((walk_fields-Scanned options []).accepted, (walk_fields-Scanned options []).refused)

  -- Either every reference in the options is declared, has a key that a Secret can have and a flat
  -- key within the length limit, and the scan returns exactly the references that occur, in order,
  -- and the options with each replaced by the reference to its flat key; or one is not so, and the
  -- scan fails.
  pub scan_and_rewrite_secret_refs-total :
      (options : Fields)
      → ((all acceptable (occurrences_fields options) ≡ true)
          × (scan_and_rewrite_secret_refs lib ns name declared options
              ≡ ok (substitute_fields options, occurrences_fields options)))
        ⊎ ((all acceptable (occurrences_fields options) ≡ false)
            × (fails (scan_and_rewrite_secret_refs lib ns name declared options) ≡ true))
  scan_and_rewrite_secret_refs-total options =
      elim (Bool-cases (all acceptable (occurrences_fields options))) [
        | inl good ↦ inl (good, (scan_and_rewrite_secret_refs_exact options).0 good)
        | inr bad ↦ inr (bad, (scan_and_rewrite_secret_refs_exact options).1 bad)
      ]
