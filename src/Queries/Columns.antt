-- ===== src/Queries/Columns.antt =====
-- The column of a field: getValidFieldEntry of pkg/sqlcache/informer/listoption_indexer.go.
pub mod Plain
use steve.Common.{
  ℕ, zero, suc, ◌+◌, Str, str_eq, ◌==◌, codes, Bool, true, false, ◌&&◌, ◌||◌, not, List, [], ◌∷◌,
  ◌++◌, Option, none, some, any, every, keep, eqb, leb, ltb, length, if◌then◌else◌,
}
use steve.Queries.Text.{cat, join}

-- Sanitize of pkg/sqlcache/db/utility.go
unfoldable pub sanitize : Str → Str
sanitize s = keep (λ c. not (eqb c b'"')) s

abbrev pub is_digit : ℕ → Bool
is_digit c = leb b'0' c && leb c b'9'

abbrev pub is_word_start : ℕ → Bool
is_word_start c = (leb b'a' c && leb c b'z') || (leb b'A' c && leb c b'Z') || eqb c b'_'

-- ^[a-zA-Z_][a-zA-Z0-9_]*$
unfoldable pub is_simple_name : Str → Bool
is_simple_name [] = false
is_simple_name (c ∷ s) = is_word_start c && every (λ d. is_word_start d || is_digit d) s

-- No byte matches \D.
unfoldable pub is_numeric : Str → Bool
is_numeric s = every is_digit s

-- All but the last element, and the last one.
unfoldable pub unsnoc : Str → List Str → List Str × Str
unsnoc s [] = ([], s)
unsnoc s (t ∷ ss) = let rest = unsnoc t ss in (s ∷ rest.0, rest.1)

unfoldable pub smart_join : List Str → Str
unfolding unsnoc is_simple_name join cat
smart_join [] = []
smart_join (s ∷ []) = s
smart_join (s ∷ (t ∷ ss)) =
    let parts = unsnoc s (t ∷ ss) in
    if is_simple_name parts.1
    then join (codes ".") (s ∷ (t ∷ ss))
    else cat (join (codes ".") parts.0 ∷ codes "[" ∷ parts.1 ∷ codes "]" ∷ [])

unfoldable pub to_column_name : List Str → Str
unfolding sanitize smart_join
to_column_name fields = sanitize (smart_join fields)

-- The last number of a list, with what stands before and behind it.
unfoldable pub split_last_number : List Str → Option (List Str × (Str × List Str))
split_last_number [] = none
split_last_number (s ∷ ss) = elim (split_last_number ss) [
  | some (before, (number, after)) ↦ some (s ∷ before, (number, after))
  | none ↦ if is_numeric s then some ([], (s, ss)) else none
]

module _ (indexed_fields : List Str) where
  unfoldable pub validate_column : Str → Bool
  validate_column column = any (λ v. v == column) indexed_fields

  -- An index of a field that is a list: the first field is none.
  unfoldable pub indexed_entry : Str → List Str → Option Str
  indexed_entry prefix [] = none
  indexed_entry prefix (first ∷ fields) = elim (split_last_number fields) [
    | none ↦ none
    | some (before, (number, after)) ↦
        let column = to_column_name (first ∷ before ++ after) in
        if validate_column column
        then some (
            cat (
              codes "extractBarredValue("
              ∷ prefix
              ∷ codes ".\""
              ∷ column
              ∷ codes "\", \""
              ∷ number
              ∷ codes "\")"
              ∷ []))
        else none
  ]

  -- `none` is ErrInvalidColumn.
  unfoldable pub get_valid_field_entry : Str → List Str → Option Str
  get_valid_field_entry prefix fields =
      let column = to_column_name fields in
      if validate_column column
      then some (cat (prefix ∷ codes ".\"" ∷ column ∷ codes "\"" ∷ []))
      else if leb (length fields) 2
      then none
      else indexed_entry prefix fields
