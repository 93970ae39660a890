-- ===== src/Query/Parser.antt =====
-- The Parser of selector.go. Its state is the list of the scanned items from the position on, so
-- that reading past the last item, which panics in the source, is reading from the empty list.
pub mod Total
pub mod Valid
use steve.Common.{
  ℕ, zero, suc, ◌+◌, Str, codes, str_eq, ◌==◌, Bool, true, false, ◌||◌, ◌&&◌, not, List, [], ◌∷◌,
  ◌++◌, Option, none, some, eqb, if◌then◌else◌, length,
}
use steve.Common.Sets.{StringSets}
use steve.Query.Token.{
  Operator, unset, does_not_exist, equals, double_equals, partial_equals, in_set, not_equals,
  not_partial_equals, not_in, exists, greater_than, less_than, Token, ScannedItem, error,
  end_of_string, closed_par, comma, not_exist, double_equal, equal, partial_equal, greater,
  identifier, quoted_string, in_token, less, not_equal, not_in_token, not_partial_equal, open_par,
}
use steve.Query.Outcome.{
  ParseError, found, no_value, not_a_label, bad_requirement, Outcome, ok, err, panic, stuck, Parse,
  ◌>>=◌, return, fail,
}
use steve.Query.Lexer.{scan, is_end}
use steve.Query.Requirement.{
  Requirement, Checked, valid, invalid, new_requirement, matches_label_selector,
}

-- Context Values: the keywords are identifiers.
abbrev pub as_value : Token → Token
as_value in_token = identifier
as_value not_in_token = identifier
as_value t = t

-- lookahead(Values)
abbrev pub lookahead : Parse ScannedItem
lookahead [] = panic
lookahead (i ∷ r) = ok (record i { tok = as_value i.tok }) (i ∷ r)

-- consume(Values)
abbrev pub consume : Parse ScannedItem
consume [] = panic
consume (i ∷ r) = ok (record i { tok = as_value i.tok }) r

-- consume(KeyAndOperator)
abbrev pub consume_operator : Parse ScannedItem
consume_operator [] = panic
consume_operator (i ∷ r) = ok i r

-- The operator that a token stands for.
unfoldable pub operator_of : Token → Option Operator
operator_of in_token = some in_set
operator_of equal = some equals
operator_of partial_equal = some partial_equals
operator_of double_equal = some double_equals
operator_of greater = some greater_than
operator_of less = some less_than
operator_of not_in_token = some not_in
operator_of not_equal = some not_equals
operator_of not_partial_equal = some not_partial_equals
operator_of _ = none

-- What the default case makes of a literal.
unfoldable pub operator_alias :
    Str → Outcome Operator → Outcome Operator → Outcome Operator → Outcome Operator
operator_alias lit lt gt other =
    if lit == codes "lt" then lt else if lit == codes "gt" then gt else other

unfoldable pub parse_operator : Parse Operator
unfolding operator_of operator_alias
parse_operator [] = panic
parse_operator (i ∷ r) = elim (operator_of i.tok) [
  | some op ↦ ok op r
  | none ↦
      operator_alias i.literal (ok less_than r) (ok greater_than r)
        (err (found i.literal (codes "an operator")))
]

abbrev pub is_identifier : Token → Bool
is_identifier identifier = true
is_identifier _ = false

abbrev pub is_not_exist : Token → Bool
is_not_exist not_exist = true
is_not_exist _ = false

abbrev pub ends_requirement : Token → Bool
ends_requirement end_of_string = true
ends_requirement comma = true
ends_requirement _ = false

-- The end of parseKeyAndInferOperator: the key, and what the next token says of the operator.
unfoldable pub key_then : Operator → ScannedItem → Parse (Str × Operator)
key_then operator i =
    if not (is_identifier i.tok) then fail (found i.literal (codes "identifier")) else do
      next ← lookahead
      if ends_requirement next.tok
          then elim operator [
            | does_not_exist ↦ return (i.literal, does_not_exist)
            | _ ↦ return (i.literal, exists)
          ]
          else return (i.literal, operator)

unfoldable pub parse_key_and_infer_operator : Parse (Str × Operator)
unfolding key_then
parse_key_and_infer_operator = do
  i ← consume
  if is_not_exist i.tok then (do j ← consume; key_then does_not_exist j) else key_then unset i

unfoldable pub is_existence : Operator → Bool
is_existence exists = true
is_existence does_not_exist = true
is_existence _ = false

unfoldable pub is_set_operator : Operator → Bool
is_set_operator in_set = true
is_set_operator not_in = true
is_set_operator _ = false

module _ (sets : StringSets) where
  open sets use {StringSet, new, insert, len, list}

  -- What parseIdentifiersList does with the item that it consumed.
  pub data Turn : Type 0 where
    name separator other : Turn

  abbrev pub turn_of : Token → Turn
  turn_of identifier = name
  turn_of comma = separator
  turn_of _ = other

  -- The first comma adds the empty value where nothing stands before it.
  abbrev pub at_comma : StringSet → StringSet
  at_comma s = if eqb (len s) 0 then insert [] s else s

  unfoldable pub parse_identifiers_list : StringSet → Parse StringSet
  parse_identifiers_list s [] = panic
  parse_identifiers_list s (i ∷ []) = elim (turn_of (as_value i.tok)) [
    | name ↦ panic
    | separator ↦ panic
    | other ↦ err (found i.literal (codes "',', or identifier"))
  ]
  parse_identifiers_list s (i ∷ j ∷ r) = elim (turn_of (as_value i.tok)) [
    | name ↦ elim (as_value j.tok) [
      | comma ↦ parse_identifiers_list (insert i.literal s) (j ∷ r)
      | closed_par ↦ ok (insert i.literal s) (j ∷ r)
      | _ ↦ err (found j.literal (codes "',' or ')'"))
    ]
    | separator ↦ elim (as_value j.tok) [
      | closed_par ↦ ok (insert [] (at_comma s)) (j ∷ r)
      | comma ↦ parse_identifiers_list (insert [] (at_comma s)) r
      | _ ↦ parse_identifiers_list (at_comma s) (j ∷ r)
    ]
    | other ↦ err (found i.literal (codes "',', or identifier"))
  ]

  abbrev pub is_open_par : Token → Bool
  is_open_par open_par = true
  is_open_par _ = false

  abbrev pub is_closed_par : Token → Bool
  is_closed_par closed_par = true
  is_closed_par _ = false

  -- The identifiers, and the parenthesis behind them.
  unfoldable pub closed_list : Str → Parse StringSet
  unfolding parse_identifiers_list
  closed_list lit = do
    s ← parse_identifiers_list new
    i ← consume
    if is_closed_par i.tok then return s else fail (found lit (codes "')'"))

  unfoldable pub parse_values : Parse StringSet
  unfolding closed_list
  parse_values = do
    i ← consume
    if not (is_open_par i.tok) then fail (found i.literal (codes "'('")) else do
      j ← lookahead
      elim j.tok [
        | identifier ↦ closed_list j.literal
        | comma ↦ closed_list j.literal
        | closed_par ↦ (do k ← consume; return (insert [] new))
        | _ ↦ fail (found j.literal (codes "',', ')' or identifier"))
      ]

  unfoldable pub parse_single_value : Parse StringSet
  parse_single_value = do
    i ← lookahead
    if ends_requirement i.tok then fail no_value else do
      j ← consume
      elim j.tok [
        | identifier ↦ return (insert j.literal new)
        | quoted_string ↦ return (insert j.literal new)
        | _ ↦ fail (found j.literal (codes "identifier"))
      ]

  abbrev pub checked : Checked → Parse Requirement
  checked (valid q) = return q
  checked (invalid es) = fail (bad_requirement es)

  unfoldable pub parse_requirement : Parse Requirement
  unfolding is_existence is_set_operator
  parse_requirement = do
    (key, operator) ← parse_key_and_infer_operator
    if is_existence operator
        then (if not (matches_label_selector key)
            then fail (not_a_label key)
            else checked (new_requirement key operator []))
        else do
          op ← parse_operator
          values ← if is_set_operator op then parse_values else parse_single_value
          checked (new_requirement key op (list values))

  abbrev pub starts_requirement : Token → Bool
  starts_requirement identifier = true
  starts_requirement not_exist = true
  starts_requirement _ = false

  -- What the loop of Parser.parse does behind a requirement: it returns, or goes round again.
  unfoldable pub after_requirement :
      Parse (List Requirement) → List Requirement → Parse (List Requirement)
  after_requirement again requirements = do
    t ← consume
    elim t.tok [
      | end_of_string ↦ return requirements
      | comma ↦ (do
        u ← lookahead
        if starts_requirement u.tok
            then again
            else fail (found u.literal (codes "identifier after ','")))
      | _ ↦ fail (found t.literal (codes "',' or 'end of string'"))
    ]

  -- The loop of Parser.parse on fuel.
  unfoldable pub parse_loop : ℕ → List Requirement → Parse (List Requirement)
  parse_loop zero requirements l = stuck
  parse_loop (suc n) requirements l =
      (do
        i ← lookahead
        if is_end i.tok
            then return requirements
            else if not (starts_requirement i.tok)
            then fail (found i.literal (codes "!, identifier, or 'end of string'"))
            else do
              q ← parse_requirement
              after_requirement (parse_loop n (requirements ++ q ∷ [])) (requirements ++ q ∷ []))
        l

  -- Parser.parse behind its scan: each requirement takes two items at least.
  unfoldable pub parse_items : Parse (List Requirement)
  parse_items l = parse_loop (suc (length l)) [] l

  -- ParseToRequirements
  unfoldable pub parse_to_requirements : Str → Outcome (List Requirement)
  parse_to_requirements selector = elim (scan selector) [ none ↦ stuck | some l ↦ parse_items l ]
