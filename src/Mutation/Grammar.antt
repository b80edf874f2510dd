-- ===== src/Mutation/Grammar.antt =====
-- The validators of src/hermes_mcp_bridge/v2/mutation_digest.py. A pattern between `\A` and `\Z`
-- is a test on the code points of the text. A value that is no text is refused by its type here.
use hermes_mcp_bridge.Base.{
  is_digit, not, require, refl, ◌++◌, ℕ, ◌≡◌, Bool, true, false, ◌&&◌, ◌||◌, String, List, [], ◌∷◌,
  Result, ok, err, length, codes, all_of, is_alnum, is_lower_hex, leb, ◌==◌, if◌then◌else◌,
}
use hermes_mcp_bridge.Mutation.Kinds.{
  registry, MutationError, deny, invalid_arguments, approval, scope,
}

-- [0-9a-f]{n}
unfoldable pub is_hex : ℕ → String → Bool
is_hex n s = length (codes s) == n && all_of is_lower_hex (codes s)

abbrev is_name_char : ℕ → Bool
is_name_char c = is_alnum c || c == b'.' || c == b'_' || c == b'-'

-- [A-Za-z0-9][A-Za-z0-9._-]{0,max}
abbrev is_name : ℕ → List ℕ → Bool
is_name max [] = false
is_name max (c ∷ rest) = is_alnum c && all_of is_name_char rest && leb (length rest) max

-- The owner is read up to the first slash; a name holds none, so the match is unique.
slash_split : List ℕ → List ℕ → Bool
slash_split owner [] = false
slash_split owner (c ∷ rest) =
    let more = slash_split (owner ++ c ∷ []) rest in
    if c == b'/' then is_name 38 owner && is_name 99 rest else more

unfoldable pub is_repository : String → Bool
unfolding slash_split
is_repository s = slash_split [] (codes s)

abbrev is_word_start : ℕ → Bool
is_word_start c = leb b'a' c && leb c b'z'

-- [a-z][a-z0-9_]*(\.[a-z][a-z0-9_]*)+ from a place that begins a word or not, behind a dot or not
words_from : Bool → Bool → List ℕ → Bool
words_from begins dotted [] = not begins && dotted
words_from begins dotted (c ∷ rest) =
    let within = words_from false dotted rest in
    let after_dot = words_from true true rest in
    if begins
    then is_word_start c && within
    else if c == b'.'
    then after_dot
    else (is_word_start c || is_digit c || c == b'_') && within

unfoldable pub is_operation : String → Bool
unfolding words_from
is_operation s = words_from true false (codes s)

abbrev is_identifier_char : ℕ → Bool
is_identifier_char c = is_name_char c || c == b':' || c == b'@' || c == b'=' || c == b'+'

abbrev identifier_codes : List ℕ → Bool
identifier_codes [] = false
identifier_codes (c ∷ rest) = is_alnum c && all_of is_identifier_char rest && leb (length rest) 127

unfoldable pub is_identifier : String → Bool
is_identifier s = identifier_codes (codes s)

unfoldable pub require_identifier : String → String → Result MutationError (Unit {0})
require_identifier value detail =
    require (is_identifier value) (deny invalid_arguments approval detail)

unfoldable pub require_operation : String → Result MutationError (Unit {0})
require_operation value = require (is_operation value) (deny invalid_arguments registry "operation")

unfoldable pub require_digest : String → String → Result MutationError String
unfolding is_hex
require_digest value detail =
    if is_hex 64 value then ok value else err (deny invalid_arguments approval detail)

unfoldable pub require_sha : String → String → Result MutationError String
unfolding is_hex
require_sha value detail =
    if is_hex 40 value then ok value else err (deny invalid_arguments approval detail)

unfoldable pub require_repository : String → Result MutationError String
unfolding is_repository
require_repository value =
    if is_repository value then ok value else err (deny invalid_arguments scope "repository")

repository_tests :
    (is_repository "octo/repo.v2" ≡ true)
    × (is_repository "octo/a/b" ≡ false)
    × (is_repository "-octo/a" ≡ false)
unfolding is_repository
repository_tests = (refl, refl, refl)

operation_tests :
    (is_operation "github.merge_pr" ≡ true)
    × (is_operation "github" ≡ false)
    × (is_operation "github..merge" ≡ false)
    × (is_identifier "alice@example.com" ≡ true)
    × (is_identifier ".hidden" ≡ false)
unfolding is_operation is_identifier
operation_tests = (refl, refl, refl, refl, refl)
