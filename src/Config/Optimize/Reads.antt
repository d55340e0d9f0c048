-- ===== src/Config/Optimize/Reads.antt =====
-- Collapsing a group of sources keeps who reads what: the output of a namespace stands in a consumer's
-- inputs exactly if a source of the group for that namespace stood there.
use vector_operator.Prelude.{
  ℕ, ◌≡◌, refl, sym, ap, subst, ◌∙◌, inl, inr, Bool, true, false, ◌&&◌, ◌||◌, Option, none, some,
  List, [], ◌∷◌, ◌++◌, map, any, length, leb, In, Distinct, Bool-cases, Option-cases, ◌==◌, arith,
  if◌then◌else◌, append_assoc,
}
use vector_operator.Dict.{Dict, lookup, insert, lookup-insert}
use vector_operator.Text.{Text, text_eq, text_beq_iff, without, join-injective}
use vector_operator.Sets.{contains}
use vector_operator.Config.Types.{Source, Sink, PipelineConfig}
use vector_operator.Config.Optimize.{
  redirect, rewrite_inputs, contains-rewrite_inputs, bucket_count,
}
use vector_operator.Config.Optimize.Collapse.{
  Formats, namespace_of, dotted, router_name, l2_name, ns_output, route_output, rewrite_sink,
  collapse_source_group, flat_routing_threshold, ns_bucket,
}

any_or :
    {A : Type 0} (p q r : A → Bool) (l : List A)
    → any (λ a. (p a || q a) && r a) l ≡ (any (λ a. p a && r a) l || any (λ a. q a && r a) l)
any_or p q r [] = refl
any_or p q r (a ∷ l) = ground (arith, any_or p q r l)

any-false : {A : Type 0} (l : List A) → any (λ a. false) l ≡ false
any-false [] = refl
any-false (a ∷ l) = any-false l

append_injective : (s x y : Text) → s ++ x ≡ s ++ y → x ≡ y
append_injective [] x y e = e
append_injective (c ∷ s) x y e = append_injective s x y (ground arith)

-- the source of a group that has a name
abbrev named : Text → List Source → Option Source
named i [] = none
named i (s ∷ sources) = if s.name == i then some s else named i sources

abbrev names : List Source → List Text
names sources = map (λ (s : Source). s.name) sources

named-none : (i : Text) (sources : List Source) → (¬ In i (names sources)) → named i sources ≡ none
named-none i [] f = refl
named-none i (s ∷ sources) f = elim (Bool-cases (s.name == i)) [
  | inl y ↦ absurd (f (inl (sym ((text_beq_iff s.name i).0 y))))
  | inr n ↦ rw n (named-none i sources (λ m. f (inr m)))
]

-- a source for the namespace, under the name
abbrev for_namespace : Text → Text → Source → Bool
for_namespace i ns s = i == s.name && namespace_of s == ns

any-absent :
    (i ns : Text) (sources : List Source)
    → (¬ In i (names sources))
    → any (for_namespace i ns) sources ≡ false
any-absent i ns [] f = refl
any-absent i ns (s ∷ sources) f = elim (Bool-cases (i == s.name)) [
  | inl y ↦ absurd (f (inl ((text_beq_iff i s.name).0 y)))
  | inr n ↦ rw n (any-absent i ns sources (λ m. f (inr m)))
]

-- what holds of the source that has a name, if there is one
abbrev at_named : {B : Type 0} → B → (Source → B) → Option Source → B
at_named b f none = b
at_named b f (some s) = f s

any-named :
    (i ns : Text) (sources : List Source)
    → Distinct (names sources)
    → any (for_namespace i ns) sources
      ≡ at_named false (λ s. namespace_of s == ns) (named i sources)
any-named i ns [] d = refl
any-named i ns (s ∷ sources) d = elim (Bool-cases (s.name == i)) [
  | inl y ↦
      let same : s.name ≡ i = (text_beq_iff s.name i).0 y in
      rw (y, any-absent i ns sources (λ m. d.0 (subst (λ x. In x (names sources)) (sym same) m)))
        (ground (arith, text_beq_iff i s.name))
  | inr n ↦
      rw n
        (ground (arith, text_beq_iff i s.name, text_beq_iff s.name i, any-named i ns sources d.1))
]

redirect-hit : (m : Dict Text Text) (i t : Text) → lookup i m ≡ some t → redirect m i ≡ t
unfolding redirect
redirect-hit m i t e = rw (redirect, e) refl

redirect-miss : (m : Dict Text Text) (i : Text) → lookup i m ≡ none → redirect m i ≡ i
unfolding redirect
redirect-miss m i e = rw (redirect, e) refl

module _ (out : Text → Text) where
  lookup-route_output :
      (i : Text) (sources : List Source) (m : Dict Text Text)
      → Distinct (names sources)
      → lookup i (route_output out sources m)
        ≡ at_named (lookup i m) (λ s. some (out (namespace_of s))) (named i sources)
  unfolding route_output
  lookup-route_output i [] m d = refl
  lookup-route_output i (s ∷ sources) m d =
      lookup-route_output i sources (insert s.name (out (namespace_of s)) m) d.1
      ∙ elim (Bool-cases (s.name == i)) [
        | inl y ↦
            let same : s.name ≡ i = (text_beq_iff s.name i).0 y in
            rw (y, named-none i sources (λ m. d.0 (subst (λ x. In x (names sources)) (sym same) m)))
              (lookup-insert s.name i (out (namespace_of s)) m ∙ rw y refl)
        | inr n ↦
            let dropped : lookup i (insert s.name (out (namespace_of s)) m) ≡ lookup i m =
              lookup-insert s.name i (out (namespace_of s)) m ∙ rw n refl in
            ap (λ o. at_named o (λ t. some (out (namespace_of t))) (named i sources)) dropped
            ∙ rw n refl
      ]

  -- one input is redirected to the output of a namespace exactly if it is such a source
  redirect-output :
      (ns i : Text) (injective : (a : Text) → out a ≡ out ns → a ≡ ns) (sources : List Source)
      → Distinct (names sources)
      → (i == out ns) ≡ false
      → (redirect (route_output out sources []) i == out ns) ≡ any (for_namespace i ns) sources
  unfolding lookup
  redirect-output ns i injective sources d other =
      let m = route_output out sources [] in
      let at = lookup-route_output i sources [] d in
      let known = any-named i ns sources d in
      elim (Option-cases (named i sources)) [
        | inl absent ↦
            let kept : redirect m i ≡ i =
              redirect-miss m i
                (at ∙ ap (at_named none (λ t. some (out (namespace_of t)))) absent) in
            let nowhere : any (for_namespace i ns) sources ≡ false =
              known ∙ ap (at_named false (λ t. namespace_of t == ns)) absent in
            ap (λ t. t == out ns) kept ∙ (other ∙ sym nowhere)
        | inr (s, h) ↦
            let moved : redirect m i ≡ out (namespace_of s) =
              redirect-hit m i (out (namespace_of s))
                (at ∙ ap (at_named none (λ t. some (out (namespace_of t)))) h) in
            let there : any (for_namespace i ns) sources ≡ (namespace_of s == ns) =
              known ∙ ap (at_named false (λ t. namespace_of t == ns)) h in
            let same : (out (namespace_of s) == out ns) ≡ (namespace_of s == ns) = ground (
              arith,
              text_beq_iff (out (namespace_of s)) (out ns),
              text_beq_iff (namespace_of s) ns,
              injective (namespace_of s),
            ) in
            ap (λ t. t == out ns) moved ∙ (same ∙ sym there)
      ]

  -- and so for a list of inputs
  map-redirect-output :
      (ns : Text) (injective : (a : Text) → out a ≡ out ns → a ≡ ns) (inputs : List Text)
      (sources : List Source)
      → Distinct (names sources)
      → contains (out ns) inputs ≡ false
      → contains (out ns) (map (redirect (route_output out sources [])) inputs)
        ≡ any (λ s. contains s.name inputs && namespace_of s == ns) sources
  unfolding contains
  map-redirect-output ns injective [] sources d absent = sym (any-false sources)
  map-redirect-output ns injective (i ∷ inputs) sources d absent =
      let here = redirect-output ns i injective sources d (ground arith) in
      let rest = map-redirect-output ns injective inputs sources d (ground arith) in
      ap (λ b. b || contains (out ns) (map (redirect (route_output out sources [])) inputs)) here
      ∙ (ap (λ b. any (for_namespace i ns) sources || b) rest
          ∙ sym (
              any_or (λ s. i == s.name) (λ s. contains s.name inputs) (λ s. namespace_of s == ns)
                sources))

In-map : {A B : Type 0} (f : A → B) (a : A) (l : List A) → In a l → In (f a) (map f l)
In-map f a (x ∷ l) (inl e) = inl (ap f e)
In-map f a (x ∷ l) (inr m) = inr (In-map f a l m)
In-map f a [] m = elim m [ ]

-- what a number is printed as has no dot
abbrev pub IsDotless : Formats → Type 0
IsDotless fmt = (n : ℕ) → without b'.' (fmt.decimal n) ≡ true

-- the output of a namespace of the group, and of another
ns_output-listed :
    (fmt : Formats) (gid : Text) (namespaces : List Text) (ns : Text)
    → contains ns namespaces ≡ true
    → ns_output fmt gid namespaces ns ≡ (
        if leb (length namespaces) flat_routing_threshold
        then dotted (router_name gid) ns
        else dotted (l2_name fmt gid (ns_bucket fmt ns (bucket_count (length namespaces)))) ns)
unfolding ns_output
ns_output-listed fmt gid namespaces ns e = rw (ns_output, e) refl

ns_output-unlisted :
    (fmt : Formats) (gid : Text) (namespaces : List Text) (ns : Text)
    → contains ns namespaces ≡ false
    → ns_output fmt gid namespaces ns ≡ []
unfolding ns_output
ns_output-unlisted fmt gid namespaces ns e = rw (ns_output, e) refl

-- different namespaces of a group have different outputs
listed-injective :
    (fmt : Formats) (gid : Text) (namespaces : List Text)
    → IsDotless fmt
    → (a b : Text) → contains a namespaces ≡ true
    → contains b namespaces ≡ true
    → ns_output fmt gid namespaces a ≡ ns_output fmt gid namespaces b
    → a ≡ b
unfolding l2_name
listed-injective fmt gid namespaces dotless a b ha hb e =
    let listed =
      sym (ns_output-listed fmt gid namespaces a ha)
      ∙ (e ∙ ns_output-listed fmt gid namespaces b hb) in
    elim (Bool-cases (leb (length namespaces) flat_routing_threshold)) [
      | inl y ↦
          let e' = rw y at listed in
          let tail = append_injective (router_name gid) (b'.' ∷ a) (b'.' ∷ b) e' in ground arith
      | inr n ↦
          let e' = rw n at listed in
          let key : Text → Text =
            λ ns. fmt.decimal (ns_bucket fmt ns (bucket_count (length namespaces))) in
          let tail =
            append_injective (router_name gid) (b'-' ∷ dotted (key a) a) (b'-' ∷ dotted (key b) b) (
              sym (append_assoc (router_name gid) (b'-' ∷ key a) (b'.' ∷ a))
              ∙ (e' ∙ append_assoc (router_name gid) (b'-' ∷ key b) (b'.' ∷ b))) in
          (join-injective b'.' (key a) (key b) a b (dotless _) (dotless _) (ground arith)).1
    ]

nonempty_output :
    (fmt : Formats) (gid : Text) (namespaces : List Text) (ns : Text)
    → contains ns namespaces ≡ true
    → ¬ ([] ≡ ns_output fmt gid namespaces ns)
unfolding l2_name router_name
nonempty_output fmt gid namespaces ns h e =
    let listed = e ∙ ns_output-listed fmt gid namespaces ns h in
    elim (Bool-cases (leb (length namespaces) flat_routing_threshold)) [
      | inl y ↦ let e' = rw y at listed in cc e'
      | inr n ↦ let e' = rw n at listed in cc e'
    ]

ns_output-injective :
    (fmt : Formats) (gid : Text) (namespaces : List Text)
    → IsDotless fmt
    → (b : Text) → contains b namespaces ≡ true
    → (a : Text) → ns_output fmt gid namespaces a ≡ ns_output fmt gid namespaces b
    → a ≡ b
ns_output-injective fmt gid namespaces dotless b hb a e =
    elim (Bool-cases (contains a namespaces)) [
      | inl ha ↦ listed-injective fmt gid namespaces dotless a b ha hb e
      | inr other ↦ absurd (
          nonempty_output fmt gid namespaces b hb
            (sym (ns_output-unlisted fmt gid namespaces a other) ∙ e))
    ]

-- After a group is collapsed, a sink has the inputs of the old one, rewritten: it reads the output of
-- a namespace of the group exactly if it read some source of the group for that namespace. This needs
-- sources of different names, no input that has the output's name already, and numbers printed
-- without a dot.
pub collapse_source_group-Reads :
    (fmt : Formats) (cfg : PipelineConfig) (gid : Text) (namespaces : List Text) (first : Source)
    (rest : List Source) (k : Text) (sink : Sink) (ns : Text)
    → IsDotless fmt
    → Distinct (names (first ∷ rest))
    → contains ns namespaces ≡ true
    → contains (ns_output fmt gid namespaces ns) sink.inputs ≡ false
    → In (k, sink) cfg.sinks
    → (after : Sink) × In (k, after) (collapse_source_group fmt cfg gid namespaces first rest).sinks
      × (contains (ns_output fmt gid namespaces ns) after.inputs
          ≡ any (λ s. contains s.name sink.inputs && namespace_of s == ns) (first ∷ rest))
unfolding collapse_source_group
collapse_source_group-Reads fmt cfg gid namespaces first rest k sink ns dotless distinct listed
      absent member =
    let out = ns_output fmt gid namespaces in
    let outputs = route_output out (first ∷ rest) [] in
    (
      record sink { inputs = rewrite_inputs sink.inputs outputs },
      In-map (rewrite_sink outputs) (k, sink) cfg.sinks member,
      contains-rewrite_inputs (out ns) sink.inputs outputs
          ∙ map-redirect-output out ns (ns_output-injective fmt gid namespaces dotless ns listed)
              sink.inputs (first ∷ rest) distinct absent,
    )
