-- ===== src/Config/Names.antt =====
-- internal/config/utils.go and `flatKey` of internal/config/secrets.go: the generated names.
use vector_operator.Prelude.{ℕ, ◌≡◌, refl, [], ◌∷◌, ◌++◌, map, nat_beq, codes, if◌then◌else◌}
use vector_operator.Text.{Text}

unfoldable pub generate_name : Text → Text → Text
generate_name [] name = name
generate_name (c ∷ namespace) name = (c ∷ namespace) ++ (b'-' ∷ name)

unfoldable pub add_prefix : Text → Text → Text → Text
unfolding generate_name
add_prefix namespace name component_name = generate_name namespace name ++ (b'-' ∷ component_name)

-- `strings.ReplaceAll(s, "-", "_")`, byte by byte
unfoldable pub underscore : ℕ → ℕ
underscore c = if nat_beq c b'-' then b'_' else c

unfoldable pub flat_key : Text → Text → Text → Text → Text
unfolding generate_name underscore
flat_key namespace name alias key =
    let base = generate_name namespace name in
    let joined = base ++ (b'-' ∷ alias ++ (b'-' ∷ key)) in map underscore joined

flat_key_runs :
    flat_key (codes "team-a") (codes "app") (codes "db") (codes "pass.w-d")
    ≡ codes "team_a_app_db_pass.w_d"
unfolding flat_key
flat_key_runs = refl
