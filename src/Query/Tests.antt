-- ===== src/Query/Tests.antt =====
-- The query parser at small inputs.
use steve.Common.{
  String, Str, codes, str_eq, str_beq, ◌≡◌, refl, List, [], ◌∷◌, some, any, contains, every,
  str_ltb,
}
use steve.Common.Listed.{listed, insert_member}
use steve.Common.Sorting.{insert_by}
use steve.Query.Token.{
  Token, ScannedItem, in_set, does_not_exist, identifier, quoted_string, not_partial_equal,
  end_of_string, string2token, to_lower, is_letter, is_digit, is_identifier_start_char,
  is_whitespace, is_special_symbol,
}
use steve.Query.Lexer.{
  scan, scan_fuel, lex, lex_from, skip_white_spaces, scan_special_symbol, scan_id_or_keyword,
  scan_identifier, scan_quoted_string, keyword_or_identifier, last_scanned,
}
use steve.Query.Lexer.Total.{EndsOnce, scan_total}
use steve.Query.Requirement.{
  Requirement, new_requirement, requirement_errors, matches_label_selector,
}
use steve.Query.Outcome.{ok}
use steve.Query.Parser.{
  parse_to_requirements, parse_items, parse_loop, after_requirement, parse_requirement,
  parse_key_and_infer_operator, key_then, parse_operator, operator_of, operator_alias, is_existence,
  is_set_operator, parse_values, closed_list, parse_identifiers_list, parse_single_value,
}
use steve.Query.Parser.Total.{IsResult, parse_to_requirements_total}
use steve.Query.Parser.Valid.{AllValid, parse_to_requirements-AllValid}

abbrev item : Token → String → ScannedItem
item t s = record { tok = t; literal = codes s }

abbrev text : Str
text = codes "a.b in (x,,y), !metadata.labels.k"

scanned_items :
    scan (codes "x!~'a b'")
    ≡ some (
        item identifier "x"
        ∷ item not_partial_equal "!~"
        ∷ item quoted_string "a b"
        ∷ item end_of_string ""
        ∷ [])
unfolding scan scan_fuel lex lex_from skip_white_spaces scan_special_symbol scan_id_or_keyword
    scan_identifier scan_quoted_string keyword_or_identifier last_scanned string2token to_lower
    is_letter is_digit is_identifier_start_char is_whitespace is_special_symbol str_beq
scanned_items = refl

abbrev requirements : List Requirement
requirements =
    record { key = codes "a.b"; operator = in_set; str_values = [] ∷ codes "x" ∷ codes "y" ∷ [] }
    ∷ record { key = codes "metadata.labels.k"; operator = does_not_exist; str_values = [] }
    ∷ []

parsed : parse_to_requirements listed text ≡ ok requirements []
unfolding parse_to_requirements parse_items parse_loop after_requirement parse_requirement
    parse_key_and_infer_operator key_then parse_operator operator_of operator_alias is_existence
    is_set_operator parse_values closed_list parse_identifiers_list parse_single_value
    new_requirement requirement_errors matches_label_selector insert_member insert_by str_ltb
    contains any every scan scan_fuel lex lex_from skip_white_spaces scan_special_symbol
    scan_id_or_keyword scan_identifier scan_quoted_string keyword_or_identifier last_scanned
    string2token to_lower is_letter is_digit is_identifier_start_char is_whitespace
    is_special_symbol str_beq
parsed = refl

scan_total_example : (l : List ScannedItem) × (scan (codes "x!~'a b'") ≡ some l) × EndsOnce l
scan_total_example = scan_total (codes "x!~'a b'")

parse_to_requirements_total_example : IsResult (parse_to_requirements listed text)
parse_to_requirements_total_example = parse_to_requirements_total listed text

parse_to_requirements-AllValid_example : AllValid requirements
parse_to_requirements-AllValid_example =
    parse_to_requirements-AllValid listed text requirements [] parsed
