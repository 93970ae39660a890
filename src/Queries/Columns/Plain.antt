-- ===== src/Queries/Columns/Plain.antt =====
-- An entry of a column has no placeholder.
use steve.Common.{
  ◌≡◌, refl, sym, ap, Str, str_eq, str_beq_iff, ◌==◌, codes, true, List, [], ◌∷◌, ◌++◌, Option,
  none, some, any, every, leb, length, if◌then◌else◌, arith, inl, inr, Bool-cases, ◌∙◌,
}
use steve.Queries.Text.{cat, marks, marks_all, marks-cat}
use steve.Queries.Columns.{
  is_numeric, split_last_number, to_column_name, validate_column, indexed_entry,
  get_valid_field_entry,
}

abbrev pub ArePlain : List Str → Type 0
ArePlain [] = Unit
ArePlain (s ∷ ss) = (marks s ≡ 0) × ArePlain ss

numeric_plain : (s : Str) → is_numeric s ≡ true → marks s ≡ 0
unfolding is_numeric every marks
numeric_plain [] h = refl
numeric_plain (c ∷ s) h = ground (arith, numeric_plain s)

abbrev PlainNumber : Option (List Str × (Str × List Str)) → Type 0
PlainNumber none = Unit
PlainNumber (some (before, (number, after))) = marks number ≡ 0

split-PlainNumber : (ss : List Str) → PlainNumber (split_last_number ss)
unfolding split_last_number
split-PlainNumber [] = tt
split-PlainNumber (s ∷ ss) = later (split_last_number ss) (split-PlainNumber ss)
  where
    later :
        (o : Option (List Str × (Str × List Str)))
        → PlainNumber o
        → PlainNumber (elim o [
          | some (before, (number, after)) ↦ some (s ∷ before, (number, after))
          | none ↦ if is_numeric s then some ([], (s, ss)) else none
        ])
    later (some (before, (number, after))) h = h
    later none h = elim (Bool-cases (is_numeric s)) [
      | inl yes_number ↦ rw yes_number (numeric_plain s yes_number)
      | inr other ↦ rw other tt
    ]

abbrev pub PlainEntry : Option Str → Type 0
PlainEntry none = Unit
PlainEntry (some entry) = marks entry ≡ 0

any_plain :
    (column : Str) (fields : List Str)
    → ArePlain fields
    → any (λ v. v == column) fields ≡ true
    → marks column ≡ 0
unfolding any
any_plain column [] p h = absurd cc
any_plain column (v ∷ fields) (plain, p) h = elim (Bool-cases (v == column)) [
  | inl same ↦ ap marks (sym ((str_beq_iff v column).0 same)) ∙ plain
  | inr other ↦ any_plain column fields p (ground arith)
]

module _ (indexed_fields : List Str) (plain : ArePlain indexed_fields) (prefix : Str)
    (plain_prefix : marks prefix ≡ 0) where
  valid_plain : (column : Str) → validate_column indexed_fields column ≡ true → marks column ≡ 0
  unfolding validate_column
  valid_plain column h = any_plain column indexed_fields plain h

  entry_plain :
      (column number : Str)
      → marks column ≡ 0
      → marks number ≡ 0
      → marks (
          cat (
            codes "extractBarredValue("
            ∷ prefix
            ∷ codes ".\""
            ∷ column
            ∷ codes "\", \""
            ∷ number
            ∷ codes "\")"
            ∷ []))
        ≡ 0
  unfolding marks marks_all
  entry_plain column number p q = rw (marks-cat _) (omega arith)

  column_plain :
      (column : Str)
      → marks column ≡ 0
      → marks (cat (prefix ∷ codes ".\"" ∷ column ∷ codes "\"" ∷ [])) ≡ 0
  unfolding marks marks_all
  column_plain column p = rw (marks-cat _) (omega arith)

  indexed-PlainEntry : (fields : List Str) → PlainEntry (indexed_entry indexed_fields prefix fields)
  unfolding indexed_entry
  indexed-PlainEntry [] = tt
  indexed-PlainEntry (first ∷ fields) =
      of_split (split_last_number fields) (split-PlainNumber fields)
    where
      of_split :
          (o : Option (List Str × (Str × List Str)))
          → PlainNumber o
          → PlainEntry (elim o [
            | none ↦ none
            | some (before, (number, after)) ↦
                let column = to_column_name (first ∷ before ++ after) in
                if validate_column indexed_fields column
                then some (
                    cat (
                      codes "extractBarredValue("
                      ∷ prefix
                      ∷ codes ".\""
                      ∷ column
                      ∷ codes "\", \""
                      ∷ number
                      ∷ codes "\")"
                      ∷ []))
                else none
          ])
      of_split none h = tt
      of_split (some (before, (number, after))) h =
          let column = to_column_name (first ∷ before ++ after) in
          elim (Bool-cases (validate_column indexed_fields column)) [
            | inl ok ↦ rw ok (entry_plain column number (valid_plain column ok) h)
            | inr bad ↦ rw bad tt
          ]

  -- A field entry of plain columns is plain.
  pub entry-PlainEntry :
      (fields : List Str) → PlainEntry (get_valid_field_entry indexed_fields prefix fields)
  unfolding get_valid_field_entry
  entry-PlainEntry fields =
      let column = to_column_name fields in
      elim (Bool-cases (validate_column indexed_fields column)) [
        | inl ok ↦ rw ok (column_plain column (valid_plain column ok))
        | inr bad ↦ elim (Bool-cases (leb (length fields) 2)) [
          | inl short ↦ rw (bad, short) tt
          | inr long ↦ rw (bad, long) (indexed-PlainEntry fields)
        ]
      ]
