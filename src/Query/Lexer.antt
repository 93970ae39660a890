-- ===== src/Query/Lexer.antt =====
-- The Lexer of selector.go. The lexer's state is the text that it has not read: `unread` puts the
-- byte back that was read last. A zero byte reads as the end of the text does.
pub mod Total
use steve.Common.{
  ℕ, zero, suc, Str, codes, str_eq, ◌==◌, Bool, true, false, ◌||◌, ◌&&◌, List, [], ◌∷◌, ◌++◌,
  Option, none, some, leb, ltb, eqb, if◌then◌else◌, ◌+◌, ◌/◌, ◌%◌, length,
}
use steve.Query.Token.{
  Token, ScannedItem, error, end_of_string, identifier, quoted_string, string2token, to_lower,
  is_identifier_start_char, is_whitespace, is_special_symbol,
}

-- What a scan returns: the item, and the text that is left.
pub record Scanned : Type 0 where
  pub item : ScannedItem
  pub rest : Str

abbrev pub scanned : Token → Str → Str → Scanned
scanned t lit rest = record { item = record { tok = t; literal = lit }; rest = rest }

-- The loop of scanIDOrKeyword: the buffer, and the text left.
unfoldable pub scan_identifier : Str → Str → Str × Str
scan_identifier buffer [] = (buffer, [])
scan_identifier buffer (ch ∷ s) =
    if eqb ch 0
    then (buffer, s)
    else if is_special_symbol ch || is_whitespace ch
    then (buffer, ch ∷ s)
    else scan_identifier (buffer ++ ch ∷ []) s

unfoldable pub keyword_or_identifier : Str → Token
keyword_or_identifier s = elim (string2token (to_lower s)) [ some t ↦ t | none ↦ identifier ]

unfoldable pub scan_id_or_keyword : Str → Scanned
scan_id_or_keyword s =
    let (buffer, rest) = scan_identifier [] s in scanned (keyword_or_identifier buffer) buffer rest

abbrev take10 : Str → ℕ → Str
take10 s zero = []
take10 [] (suc n) = []
take10 (c ∷ s) (suc n) = c ∷ take10 s n

-- The item for a string with no end.
unfoldable pub unterminated : Str → Str
unterminated s =
    codes "unterminated string starting with '"
    ++ ((if ltb 12 (length s) then take10 s 10 ++ codes "..." else s) ++ codes "'")

unfoldable pub scan_quoted_string : ℕ → Bool → Str → Str → Scanned
scan_quoted_string delim in_escape buffer [] = scanned error (unterminated buffer) []
scan_quoted_string delim in_escape buffer (ch ∷ s) =
    let escaped = scan_quoted_string delim false (buffer ++ ch ∷ []) s in
    let escape = scan_quoted_string delim true buffer s in
    if eqb ch 0
    then scanned error (unterminated buffer) s
    else if in_escape
    then escaped
    else if eqb ch b'\\'
    then escape
    else if eqb ch delim
    then scanned quoted_string buffer s
    else escaped

-- What follows the loop of scanSpecialSymbol.
unfoldable pub last_scanned : Option ScannedItem → Str → Str → Scanned
last_scanned (some item) buffer rest = record { item = item; rest = rest }
last_scanned none buffer rest =
    scanned error (codes "error expected: keyword found '" ++ (buffer ++ codes "'")) rest

-- What a special symbol does to the loop: the longer buffer is a token, or the symbol is put back
-- behind a token, or it waits for more.
unfoldable pub scan_special_symbol : Option ScannedItem → Str → Str → Scanned
scan_special_symbol last buffer [] = last_scanned last buffer []
scan_special_symbol last buffer (ch ∷ s) =
    let longer = buffer ++ ch ∷ [] in
    let wait = scan_special_symbol last longer s in
    if eqb ch 0
    then last_scanned last buffer s
    else if is_special_symbol ch
    then elim (string2token longer) [
      | some token ↦ scan_special_symbol (some (record { tok = token; literal = longer })) longer s
      | none ↦ elim last [ some item ↦ last_scanned (some item) buffer (ch ∷ s) | none ↦ wait ]
    ]
    else last_scanned last buffer (ch ∷ s)

unfoldable pub skip_white_spaces : Str → Str
skip_white_spaces [] = []
skip_white_spaces (ch ∷ s) = if is_whitespace ch then skip_white_spaces s else ch ∷ s

-- `%c` of a byte: its rune in UTF-8.
unfoldable pub rune_of_byte : ℕ → Str
rune_of_byte c = if ltb c 128 then c ∷ [] else (192 + c / 64) ∷ (128 + c % 64) ∷ []

-- The switch of Lex, behind the blanks.
unfoldable pub lex_from : Str → Scanned
lex_from [] = scanned end_of_string [] []
lex_from (ch ∷ s) =
    if eqb ch 0
    then scanned end_of_string [] s
    else if is_special_symbol ch
    then scan_special_symbol none [] (ch ∷ s)
    else if is_identifier_start_char ch
    then scan_id_or_keyword (ch ∷ s)
    else if eqb ch b'"' || eqb ch b'\''
    then scan_quoted_string ch false [] s
    else scanned error (codes "unexpected character '" ++ (rune_of_byte ch ++ codes "'")) s

unfoldable pub lex : Str → Scanned
lex s = lex_from (skip_white_spaces s)

abbrev pub is_end : Token → Bool
is_end end_of_string = true
is_end _ = false

-- Parser.scan on fuel; `none` means that the fuel ran out.
unfoldable pub scan_fuel : ℕ → Str → Option (List ScannedItem)
scan_fuel zero s = none
scan_fuel (suc n) s =
    let found = lex s in
    let more = scan_fuel n found.rest in
    if is_end found.item.tok
    then some (found.item ∷ [])
    else elim more [ none ↦ none | some items ↦ some (found.item ∷ items) ]

-- Each item but the last takes a byte of the text.
unfoldable pub scan : Str → Option (List ScannedItem)
scan s = scan_fuel (suc (length s)) s
