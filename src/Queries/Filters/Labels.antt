-- ===== src/Queries/Filters/Labels.antt =====
-- The clauses of label filters, and those of one filter, with their placeholders.
use steve.Common.{
  ℕ, suc, ◌≡◌, refl, Str, str_eq, codes, Bool, List, [], ◌∷◌, Option, length-append, arith,
  Bool-cases, inl, inr,
}
use steve.Options.Types.{
  Op, op_eq, op_not_eq, op_exists, op_not_exists, op_in, op_not_in, op_lt, op_gt, Filter,
}
use steve.Queries.Text.{cat, marks, marks_all, marks-cat, marks-digits}
use steve.Queries.Columns.Plain.{ArePlain}
use steve.Queries.Filters.{
  text, Built, built, rejected, crash, ◌>>=◌, Clause, third, label_targets, equals, differs,
  is_label_field, texts, lt, not_exists_clause, label_value, labelled, or_missing, label_clause,
  get_label_filter, namespace_missing, projects_label_clause, get_projects_label_filter,
  label_index, or_filter_clause, projects_filter_clause,
}
use steve.Queries.Filters.Placeholders.{
  Builds, IsBoundTo, IsBound, HasMatches, marks-targets, marks-label_targets, marks-equals,
  marks-differs, length-texts, compared-IsBound, matched-IsBound, get_field_filter-IsBound,
  get_projects_field_filter-IsBound,
}

module _ {F : Type 0} (parse_float : Str → Option F) (indexed_fields : List Str) (db_name : Str)
    (plain : ArePlain indexed_fields) (plain_name : marks db_name ≡ 0) where
  pub marks-lt : (index : ℕ) → marks (lt parse_float indexed_fields db_name index) ≡ 0
  unfolding marks marks_all
  marks-lt index = rw (marks-cat _) (omega (arith, marks-digits (suc index) index))

  marks-label_value : (index : ℕ) → marks (label_value parse_float indexed_fields db_name index) ≡ 1
  unfolding marks marks_all
  marks-label_value index = rw (marks-cat _) (omega (arith, marks-lt index))

  not_exists_marks :
      (index : ℕ) → marks (not_exists_clause parse_float indexed_fields db_name index) ≡ 1
  unfolding not_exists_clause marks marks_all
  not_exists_marks index =
      rw (not_exists_clause, marks-cat _) (omega (arith, marks-lt index, plain_name))

  marks-namespace_missing :
      (index : ℕ) → marks (namespace_missing parse_float indexed_fields db_name index) ≡ 1
  unfolding namespace_missing marks marks_all
  marks-namespace_missing index =
      rw (namespace_missing, marks-cat _) (omega (arith, marks-lt index, plain_name))

  labelled-IsBound :
      (label : Str) (b : Built (Clause F))
      → Builds (IsBoundTo 1) b
      → Builds IsBound (b >>= λ c. built (labelled parse_float indexed_fields db_name label c))
  labelled-IsBound label (built c) h = omega arith
  labelled-IsBound label (rejected e) h = tt
  labelled-IsBound label crash h = tt

  or_missing_marks :
      (index : ℕ) (label : Str) (c : Clause F)
      → IsBound c
      → IsBound (or_missing parse_float indexed_fields db_name index label c)
  unfolding marks marks_all
  or_missing_marks index label c h = rw (marks-cat _) (omega (arith, not_exists_marks index))

  missing-IsBound :
      (index : ℕ) (label : Str) (b : Built (Clause F))
      → Builds (IsBoundTo 1) b
      → Builds IsBound (
          b >>= λ c. built (
            or_missing parse_float indexed_fields db_name index label
              (labelled parse_float indexed_fields db_name label c)))
  missing-IsBound index label (built c) h =
      or_missing_marks index label (labelled parse_float indexed_fields db_name label c)
        (omega arith)
  missing-IsBound index label (rejected e) h = tt
  missing-IsBound index label crash h = tt

  label-IsBound :
      (index : ℕ) (label : Str) (op : Op) (b : Bool) (matches : List Str)
      → HasMatches op matches
      → Builds IsBound (label_clause parse_float indexed_fields db_name index label op b matches)
  unfolding marks marks_all
  label-IsBound index label op_eq b matches h = labelled-IsBound label _ (
      matched-IsBound parse_float indexed_fields db_name
        (label_value parse_float indexed_fields db_name index) (equals b) b matches 1
        (marks-label_value index) (marks-equals b))
  label-IsBound index label op_not_eq b matches h = missing-IsBound index label _ (
      matched-IsBound parse_float indexed_fields db_name
        (label_value parse_float indexed_fields db_name index) (differs b) b matches 1
        (marks-label_value index) (marks-differs b))
  label-IsBound index label op_lt b matches h = labelled-IsBound label _ (
      compared-IsBound parse_float indexed_fields db_name
        (label_value parse_float indexed_fields db_name index) (codes "<") matches 1
        (marks-label_value index) refl)
  label-IsBound index label op_gt b matches h = labelled-IsBound label _ (
      compared-IsBound parse_float indexed_fields db_name
        (label_value parse_float indexed_fields db_name index) (codes ">") matches 1
        (marks-label_value index) refl)
  label-IsBound index label op_exists b matches h = rw (marks-cat _) (omega (arith, marks-lt index))
  label-IsBound index label op_not_exists b matches h = not_exists_marks index
  label-IsBound index label op_in b matches h = rw (marks-cat _) (
      omega (
        arith,
        marks-label_value index,
        marks-label_targets matches h,
        length-texts parse_float indexed_fields db_name matches,
      ))
  label-IsBound index label op_not_in b matches h =
      or_missing_marks index label
        (record {
          sql = cat (
              label_value parse_float indexed_fields db_name index
              ∷ codes " NOT IN "
              ∷ label_targets matches
              ∷ []);
          params = text label ∷ texts parse_float indexed_fields db_name matches;
        })
        (rw (marks-cat _) (
          omega (
            arith,
            marks-label_value index,
            marks-label_targets matches h,
            length-texts parse_float indexed_fields db_name matches,
          )))

  projects_label-IsBound :
      (index : ℕ) (label : Str) (op : Op) (matches : List Str)
      → Builds IsBound
          (projects_label_clause parse_float indexed_fields db_name index label op matches)
  unfolding marks marks_all
  projects_label-IsBound index label op_in matches = rw (marks-cat _) (
      omega (
        arith,
        marks-label_value index,
        marks-targets matches,
        length-texts parse_float indexed_fields db_name matches,
      ))
  projects_label-IsBound index label op_not_in matches = rw (marks-cat _) (
      omega (
        arith,
        marks-label_value index,
        marks-targets matches,
        length-texts parse_float indexed_fields db_name matches,
        marks-namespace_missing index,
        length-append (texts parse_float indexed_fields db_name matches) (text label ∷ []),
      ))
  projects_label-IsBound index label op_eq matches = tt
  projects_label-IsBound index label op_not_eq matches = tt
  projects_label-IsBound index label op_lt matches = tt
  projects_label-IsBound index label op_gt matches = tt
  projects_label-IsBound index label op_exists matches = tt
  projects_label-IsBound index label op_not_exists matches = tt

  Builds-bind :
      {A B : Type 0} (P : B → Type 0) (b : Built A) (f : A → Built B)
      → ((a : A) → Builds P (f a))
      → Builds P (b >>= f)
  Builds-bind P (built a) f h = h a
  Builds-bind P (rejected e) f h = tt
  Builds-bind P crash f h = tt

  -- The clause of one filter.
  pub or_filter-IsBound :
      (tables : List (Str × ℕ)) (f : Filter)
      → HasMatches f.op f.matches
      → Builds IsBound (or_filter_clause parse_float indexed_fields db_name tables f)
  unfolding or_filter_clause get_label_filter marks
  or_filter-IsBound tables f h = elim (Bool-cases (is_label_field f.fields)) [
    | inl label ↦ rw label (
        Builds-bind IsBound (third f.fields) _ λ name.
          Builds-bind IsBound (label_index parse_float indexed_fields db_name name tables) _
            λ index.
              Builds-bind IsBound (third f.fields) _
                λ l. label-IsBound index l f.op f.is_partial f.matches h)
    | inr field ↦ rw field (
        get_field_filter-IsBound parse_float indexed_fields db_name plain plain_name f (codes "f")
          refl)
  ]

  pub projects_filter-IsBound :
      (tables : List (Str × ℕ)) (f : Filter)
      → Builds IsBound (projects_filter_clause parse_float indexed_fields db_name tables f)
  unfolding projects_filter_clause get_projects_label_filter
  projects_filter-IsBound tables f = elim (Bool-cases (is_label_field f.fields)) [
    | inl label ↦ rw label (
        Builds-bind IsBound (third f.fields) _ λ name.
          Builds-bind IsBound (label_index parse_float indexed_fields db_name name tables) _
            λ index.
              Builds-bind IsBound (third f.fields) _
                λ l. projects_label-IsBound index l f.op f.matches)
    | inr field ↦
        rw field
          (get_projects_field_filter-IsBound parse_float indexed_fields db_name plain plain_name f)
  ]
