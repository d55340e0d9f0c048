-- ===== src/Config/Secrets/Scan/Segments.antt =====
-- The regular expression `secretRefRegex` of internal/config/secrets.go as a tokeniser. A reference
-- is `SECRET[alias.key]`; no class of the expression holds the byte that ends it, so the leftmost
-- match is the only one at its place, and there is no backtracking.
use vector_operator.Prelude.{
  ℕ, zero, suc, ◌≡◌, refl, Bool, ◌&&◌, ◌||◌, Option, none, some, List, [], ◌∷◌, ◌++◌, codes, leb,
  nat_beq, length, if◌then◌else◌,
}
use vector_operator.Text.{Text}

unfoldable pub is_alias_char : ℕ → Bool
is_alias_char c =
    leb b'A' c && leb c b'Z'
    || (leb b'a' c && leb c b'z' || (leb b'0' c && leb c b'9' || nat_beq c b'_'))

-- the class of `keyCharsetRegex`
unfoldable pub is_key_char : ℕ → Bool
unfolding is_alias_char
is_key_char c = is_alias_char c || (nat_beq c b'.' || nat_beq c b'-')

-- the class of the key in `secretRefRegex`
unfoldable pub is_ref_char : ℕ → Bool
unfolding is_key_char
is_ref_char c = is_key_char c || nat_beq c b'/'

-- the longest prefix in a class, and the rest
unfoldable pub span : (ℕ → Bool) → Text → Text × Text
span p [] = ([], [])
span p (c ∷ s) = let (run, rest) = span p s in if p c then (c ∷ run, rest) else ([], c ∷ s)

unfoldable pub strip_prefix : Text → Text → Option Text
strip_prefix [] s = some s
strip_prefix (c ∷ p) [] = none
strip_prefix (c ∷ p) (d ∷ s) = let rest = strip_prefix p s in if nat_beq c d then rest else none

abbrev pub opening : Text
opening = codes "SECRET["

-- the text `SECRET[alias.key]`
unfoldable pub reference : Text → Text → Text
reference alias key = opening ++ (alias ++ (b'.' ∷ key ++ (b']' ∷ [])))

unfoldable pub match_key : Text → Text × Text → Option (Text × Text × Text)
match_key alias ([], rest) = none
match_key alias (c ∷ key, []) = none
match_key alias (c ∷ key, d ∷ rest) = if nat_beq d b']' then some (alias, c ∷ key, rest) else none

unfoldable pub match_alias : Text × Text → Option (Text × Text × Text)
unfolding match_key span is_ref_char
match_alias ([], rest) = none
match_alias (c ∷ alias, []) = none
match_alias (c ∷ alias, d ∷ rest) =
    if nat_beq d b'.' then match_key (c ∷ alias) (span is_ref_char rest) else none

-- a match at the start of the text: alias, key, and what follows the match
unfoldable pub match_ref : Text → Option (Text × Text × Text)
unfolding strip_prefix match_alias span is_alias_char
match_ref s = elim (strip_prefix opening s) [
  | none ↦ none
  | some rest ↦ match_alias (span is_alias_char rest)
]

pub data Segment : Type 0 where
  lit : ℕ → Segment
  ref : Text → Text → Segment

unfoldable pub segments_from : ℕ → Text → List Segment
unfolding match_ref
segments_from zero s = []
segments_from (suc fuel) [] = []
segments_from (suc fuel) (c ∷ s) = elim (match_ref (c ∷ s)) [
  | none ↦ lit c ∷ segments_from fuel s
  | some (alias, key, rest) ↦ ref alias key ∷ segments_from fuel rest
]

-- the successive non-overlapping matches, with the bytes between them
unfoldable pub segments : Text → List Segment
unfolding segments_from
segments s = segments_from (length s) s

segments_run :
    segments (codes "u:SECRET[db.pass]/SECRET[x]")
    ≡ lit b'u'
      ∷ lit b':'
      ∷ ref (codes "db") (codes "pass")
      ∷ lit b'/'
      ∷ lit b'S'
      ∷ lit b'E'
      ∷ lit b'C'
      ∷ lit b'R'
      ∷ lit b'E'
      ∷ lit b'T'
      ∷ lit b'['
      ∷ lit b'x'
      ∷ lit b']'
      ∷ []
unfolding segments
segments_run = refl
