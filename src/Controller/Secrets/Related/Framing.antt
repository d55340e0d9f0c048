-- ===== src/Controller/Secrets/Related/Framing.antt =====
-- The framing of `relatedSecretsToken` is injective.
use vector_operator.Prelude.{
  ℕ, zero, suc, ◌+◌, ◌*◌, ◌/◌, ◌%◌, ◌<◌, ◌≡◌, refl, ap, sym, ◌∙◌, List, [], ◌∷◌, All, ◌≢◌, ◌++◌,
  length, length-append, append_assoc, arith,
}
use vector_operator.Text.{Text}
use vector_operator.Controller.Secrets.Related.{
  ObjectReference, big_endian, read_big_endian, append_field, frame,
}

-- `256 ^ w`
abbrev capacity : ℕ → ℕ
capacity zero = 1
capacity (suc w) = capacity w * 256

read_big_endian-append :
    (v b : ℕ) (s : Text) → read_big_endian v (s ++ b ∷ []) ≡ read_big_endian v s * 256 + b
unfolding read_big_endian
read_big_endian-append v b [] = refl
read_big_endian-append v b (c ∷ s) = read_big_endian-append (v * 256 + c) b s

-- reading gives back a number that fits
read-big_endian : (w v : ℕ) → v < capacity w → read_big_endian 0 (big_endian w v) ≡ v
unfolding big_endian read_big_endian
read-big_endian zero v h = omega arith
read-big_endian (suc w) v h = omega (
  arith,
  read_big_endian-append 0 (v % 256) (big_endian w (v / 256)),
  read-big_endian w (v / 256) (omega arith),
)

length-big_endian : (w v : ℕ) → length (big_endian w v) ≡ w
unfolding big_endian
length-big_endian zero v = refl
length-big_endian (suc w) v =
    omega
      (arith, length-append (big_endian w (v / 256)) (v % 256 ∷ []), length-big_endian w (v / 256))

append_cancel : (s t r r' : Text) → length s ≡ length t → s ++ r ≡ t ++ r' → (s ≡ t) × (r ≡ r')
append_cancel [] [] r r' l e = (refl, e)
append_cancel [] (c ∷ t) r r' l e = absurd (omega arith)
append_cancel (b ∷ s) [] r r' l e = absurd (omega arith)
append_cancel (b ∷ s) (c ∷ t) r r' l e =
    let (f, g) = append_cancel s t r r' (omega arith) (ground arith) in (ground arith, g)

-- the lengths that `uint64(len(s))` holds
abbrev pub Fits : Text → Type 0
Fits s = length s < 18446744073709551616

append_field-injective :
    (s t r r' : Text)
    → Fits s
    → Fits t
    → append_field s ++ r ≡ append_field t ++ r'
    → (s ≡ t) × (r ≡ r')
unfolding append_field
append_field-injective s t r r' f g e =
    let heads : length (big_endian 8 (length s)) ≡ length (big_endian 8 (length t)) =
      length-big_endian 8 (length s) ∙ sym (length-big_endian 8 (length t)) in
    let (p, q) =
      append_cancel (big_endian 8 (length s)) (big_endian 8 (length t)) (s ++ r) (t ++ r') heads (
        sym (append_assoc (big_endian 8 (length s)) s r)
        ∙ (e ∙ append_assoc (big_endian 8 (length t)) t r')) in
    let same : length s ≡ length t =
      sym (read-big_endian 8 (length s) f)
      ∙ (ap (read_big_endian 0) p ∙ read-big_endian 8 (length t) g) in
    append_cancel s t r r' same q

-- every field of an identity has such a length
abbrev pub FitsIdentity : ObjectReference → Type 0
FitsIdentity id = Fits id.namespace × Fits id.name × Fits id.uid × Fits id.resource_version

-- a frame of a first identity is not empty
frame_nonempty : (id : ObjectReference) (ids : List ObjectReference) → (frame (id ∷ ids) ≢ [])
unfolding frame append_field big_endian
frame_nonempty id ids e = ground (
  arith,
  length-append (append_field id.namespace) (
      append_field id.name
      ++ (append_field id.uid ++ (append_field id.resource_version ++ frame ids))),
  length-append (big_endian 8 (length id.namespace)) id.namespace,
  length-big_endian 8 (length id.namespace),
  ap length e,
)

identity_eq :
    (a b : ObjectReference)
    → a.namespace ≡ b.namespace
    → a.name ≡ b.name
    → a.uid ≡ b.uid
    → a.resource_version ≡ b.resource_version
    → a ≡ b
identity_eq a b e f g h = cc

-- Two lists of identities whose fields have lengths of 64 bits, and which are framed alike, are the
-- same list.
pub frame-injective :
    (ids ids' : List ObjectReference)
    → All FitsIdentity ids
    → All FitsIdentity ids'
    → frame ids ≡ frame ids'
    → ids ≡ ids'
unfolding frame
frame-injective [] [] f g e = refl
frame-injective [] (i ∷ ids) f g e = absurd (frame_nonempty i ids (sym e))
frame-injective (i ∷ ids) [] f g e = absurd (frame_nonempty i ids e)
frame-injective (i ∷ ids) (j ∷ ids') f g e =
    let (a, r) = append_field-injective i.namespace j.namespace _ _ f.0.0 g.0.0 e in
    let (b, s) = append_field-injective i.name j.name _ _ f.0.1 g.0.1 r in
    let (c, t) = append_field-injective i.uid j.uid _ _ f.0.2 g.0.2 s in
    let (d, u) = append_field-injective i.resource_version j.resource_version _ _ f.0.3 g.0.3 t in
    let same : i ≡ j = identity_eq i j a b c d in
    let rest : ids ≡ ids' = frame-injective ids ids' f.1 g.1 u in cc
