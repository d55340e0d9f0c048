-- ===== src/Config/Secrets/Safety.antt =====
-- `secretValueSafeForJSONText` of internal/config/secrets.go, and why its values survive the
-- substitution into the JSON text of the configuration.
use vector_operator.Prelude.{
  ℕ, zero, suc, ◌<◌, ◌≡◌, refl, Bool, true, false, not, ◌&&◌, ◌||◌, Option, none, some, [], ◌∷◌,
  ◌++◌, ltb, leb, nat_beq, length, arith, if◌then◌else◌,
}
use vector_operator.Text.{Text}

-- What may follow a lead byte of `utf8.Valid`: how many continuation bytes, and the range of the
-- first one.
pub record Lead : Type 0 where
  pub continuations : ℕ
  pub lowest : ℕ
  pub highest : ℕ

abbrev lead_of : ℕ → ℕ → ℕ → Option Lead
lead_of n lo hi = some (record { continuations = n; lowest = lo; highest = hi })

unfoldable pub lead : ℕ → Option Lead
lead b =
    if ltb b 0x80
    then lead_of 0 0x80 0xbf
    else if ltb b 0xc2
    then none
    else if ltb b 0xe0
    then lead_of 1 0x80 0xbf
    else if nat_beq b 0xe0
    then lead_of 2 0xa0 0xbf
    else if nat_beq b 0xed
    then lead_of 2 0x80 0x9f
    else if ltb b 0xf0
    then lead_of 2 0x80 0xbf
    else if nat_beq b 0xf0
    then lead_of 3 0x90 0xbf
    else if ltb b 0xf4
    then lead_of 3 0x80 0xbf
    else if nat_beq b 0xf4
    then lead_of 3 0x80 0x8f
    else none

-- `utf8.Valid`, after a lead byte that waits for `n` continuation bytes
unfoldable pub utf8_valid_from : ℕ → ℕ → ℕ → Text → Bool
unfolding lead
utf8_valid_from zero lo hi [] = true
utf8_valid_from (suc n) lo hi [] = false
utf8_valid_from zero lo hi (b ∷ s) = elim (lead b) [
  | none ↦ false
  | some l ↦ utf8_valid_from l.continuations l.lowest l.highest s
]
utf8_valid_from (suc n) lo hi (b ∷ s) = leb lo b && (leb b hi && utf8_valid_from n 0x80 0xbf s)

unfoldable pub utf8_valid : Text → Bool
unfolding utf8_valid_from
utf8_valid s = utf8_valid_from 0 0x80 0xbf s

-- the loop over the bytes
unfoldable pub no_json_special : Text → Bool
no_json_special [] = true
no_json_special (b ∷ s) =
    if nat_beq b b'"' || (nat_beq b 0x5c || ltb b 0x20) then false else no_json_special s

unfoldable pub secret_value_safe_for_json_text : Text → Bool
secret_value_safe_for_json_text [] = true
secret_value_safe_for_json_text (b ∷ s) =
    if not (utf8_valid (b ∷ s)) then false else no_json_special (b ∷ s)

-- The rest of a JSON string literal after its opening quote (RFC 8259, section 7): the text that
-- it denotes, and what follows the closing quote. `unescape` reads what follows a backslash.
unfoldable pub json_string : (Text → Option (ℕ × Text)) → ℕ → Text → Option (Text × Text)
json_string unescape zero s = none
json_string unescape (suc fuel) [] = none
json_string unescape (suc fuel) (c ∷ s) =
    if nat_beq c b'"'
    then some ([], s)
    else if ltb c 0x20
    then none
    else elim (if nat_beq c 0x5c then unescape s else some (c, s)) [
      | none ↦ none
      | some (d, rest) ↦ elim (json_string unescape fuel rest) [
        | none ↦ none
        | some (text, after) ↦ some (d ∷ text, after)
      ]
    ]

no_json_special-json_string :
    (unescape : Text → Option (ℕ × Text)) (value rest : Text) (fuel : ℕ)
    → no_json_special value ≡ true
    → length value < fuel
    → json_string unescape fuel (value ++ (b'"' ∷ rest)) ≡ some (value, rest)
unfolding no_json_special json_string
no_json_special-json_string unescape value rest zero h f = elim f [ ]
no_json_special-json_string unescape [] rest (suc fuel) h f = refl
no_json_special-json_string unescape (c ∷ value) rest (suc fuel) h f =
    ground (arith, no_json_special-json_string unescape value rest fuel)

-- A value that the guard passes, put between the quotes of a JSON string, is read back byte for
-- byte, and the string ends where the template's closing quote stands, whatever follows it and
-- whatever escapes mean.
pub json_string-secret_value_safe :
    (unescape : Text → Option (ℕ × Text)) (value rest : Text) (fuel : ℕ)
    → secret_value_safe_for_json_text value ≡ true
    → length value < fuel
    → json_string unescape fuel (value ++ (b'"' ∷ rest)) ≡ some (value, rest)
unfolding secret_value_safe_for_json_text
json_string-secret_value_safe unescape [] rest fuel h f =
    no_json_special-json_string unescape [] rest fuel (unfold no_json_special in refl) f
json_string-secret_value_safe unescape (b ∷ s) rest fuel h f =
    no_json_special-json_string unescape (b ∷ s) rest fuel (ground arith) f

safe_runs : secret_value_safe_for_json_text (0xc3 ∷ 0xa9 ∷ b'x' ∷ []) ≡ true
unfolding secret_value_safe_for_json_text utf8_valid no_json_special
safe_runs = refl

-- an overlong encoding is refused
overlong_runs : secret_value_safe_for_json_text (0xc0 ∷ 0xaf ∷ []) ≡ false
unfolding secret_value_safe_for_json_text utf8_valid
overlong_runs = refl
