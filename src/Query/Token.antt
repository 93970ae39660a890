-- ===== src/Query/Token.antt =====
-- Operators (pkg/stores/sqlpartition/selection/operator.go) and the tokens of selector.go.
use steve.Common.{
  ℕ, Str, codes, str_eq, ◌==◌, Bool, ◌||◌, ◌&&◌, [], ◌∷◌, Option, none, some, leb, eqb,
  if◌then◌else◌, ◌+◌,
}

-- selection.Operator; `unset` is the empty string.
pub data Operator : Type 0 where
  unset does_not_exist equals double_equals partial_equals : Operator
  in_set not_equals not_partial_equals not_in exists greater_than less_than : Operator

pub data Token : Type 0 where
  error end_of_string closed_par comma not_exist double_equal equal partial_equal : Token
  greater identifier quoted_string in_token less not_equal not_in_token : Token
  not_partial_equal open_par : Token

pub record ScannedItem : Type 0 where
  pub tok : Token
  pub literal : Str

-- strings.ToLower at one place of a text. Beside the ASCII capitals two characters have an ASCII
-- letter for lower case, U+0130 and U+212A; all others stay outside ASCII, where no keyword is.
unfoldable pub to_lower : Str → Str
to_lower [] = []
to_lower (c ∷ []) = (if leb b'A' c && leb c b'Z' then c + 32 else c) ∷ []
to_lower (c ∷ d ∷ r) =
    let rest = to_lower (d ∷ r) in
    let after = to_lower r in
    if eqb c 0xc4 && eqb d 0xb0
    then b'i' ∷ after
    else (if leb b'A' c && leb c b'Z' then c + 32 else c) ∷ rest

-- string2token
unfoldable pub string2token : Str → Option Token
string2token s =
    if s == codes ")"
    then some closed_par
    else if s == codes ","
    then some comma
    else if s == codes "!"
    then some not_exist
    else if s == codes "=="
    then some double_equal
    else if s == codes "="
    then some equal
    else if s == codes "~"
    then some partial_equal
    else if s == codes ">"
    then some greater
    else if s == codes "in"
    then some in_token
    else if s == codes "<"
    then some less
    else if s == codes "!="
    then some not_equal
    else if s == codes "!~"
    then some not_partial_equal
    else if s == codes "notin"
    then some not_in_token
    else if s == codes "("
    then some open_par
    else none

-- unicode.IsLetter at a byte read as a rune: the letters of Latin-1.
unfoldable pub is_letter : ℕ → Bool
is_letter c =
    (leb b'A' c && leb c b'Z')
    || ((leb b'a' c && leb c b'z')
        || (eqb c 0xaa
            || (eqb c 0xb5
                || (eqb c 0xba
                    || ((leb 0xc0 c && leb c 0xd6)
                        || ((leb 0xd8 c && leb c 0xf6) || (leb 0xf8 c && leb c 0xff)))))))

unfoldable pub is_digit : ℕ → Bool
is_digit c = leb b'0' c && leb c b'9'

unfoldable pub is_identifier_start_char : ℕ → Bool
is_identifier_start_char c = is_letter c || (is_digit c || eqb c b'_')

unfoldable pub is_whitespace : ℕ → Bool
is_whitespace c = eqb c 32 || (eqb c 9 || (eqb c 13 || eqb c 10))

unfoldable pub is_special_symbol : ℕ → Bool
is_special_symbol c =
    eqb c b'='
    || (eqb c b'!'
        || (eqb c b'('
            || (eqb c b')' || (eqb c b',' || (eqb c b'>' || (eqb c b'<' || eqb c b'~'))))))
