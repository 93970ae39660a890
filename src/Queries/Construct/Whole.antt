-- ===== src/Queries/Construct/Whole.antt =====
-- The whole query beside its placeholders.
use steve.Common.{
  ℕ, suc, ◌+◌, ◌≡◌, refl, Str, str_eq, codes, Bool, true, false, List, [], ◌∷◌, Option, length,
  arith, Bool-cases, Option-cases, inl, inr,
}
use steve.Common.Maps.{lookup, insert}
use steve.Common.Sets.{StringSets}
use steve.Options.Types.{Filter, OrFilter}
use steve.Queries.Text.{cat, marks, marks_all, marks-append, marks-cat}
use steve.Queries.Columns.Plain.{ArePlain}
use steve.Queries.Filters.{third, is_label_field}
use steve.Queries.Filters.Placeholders.{Builds, IsBound}
use steve.Queries.Filters.Labels.{marks-lt}
use steve.Queries.Construct.{
  Tables, table, with_parts, with_joins, with_clause, label_joins, all_label_joins, project_joins,
  distinct_of, select_clause,
}
use steve.Queries.Construct.Bound.{All, IsPlain, Builds-step, Builds-any, joined-IsBound}

module _ (sets : StringSets) {F : Type 0} (parse_float : Str → Option F) (indexed_fields : List Str)
    (db_name : Str) (plain : ArePlain indexed_fields) (plain_name : IsPlain db_name) where
  pub table_marks : (index : ℕ) → IsPlain (table sets parse_float indexed_fields db_name index)
  table_marks index = marks-lt parse_float indexed_fields db_name plain plain_name index

  with_parts-IsBound :
      (n : ℕ) (labels : List Str)
      → All IsBound (with_parts sets parse_float indexed_fields db_name n labels)
  unfolding with_parts marks marks_all
  with_parts-IsBound n [] = tt
  with_parts-IsBound n (label ∷ labels) = (
    rw (marks-cat _) (omega (arith, table_marks (suc n), plain_name)),
    with_parts-IsBound (suc n) labels,
  )

  pub with_clause-IsBound :
      (labels : List Str) → IsBound (with_clause sets parse_float indexed_fields db_name labels)
  unfolding marks
  with_clause-IsBound [] = refl
  with_clause-IsBound (label ∷ labels) =
      joined-IsBound (codes "WITH ") (codes ",\n") (codes "\n") _ refl refl refl
        (with_parts-IsBound 0 (label ∷ labels))

  with_joins_marks :
      (n : ℕ) (labels : List Str)
      → marks_all (with_joins sets parse_float indexed_fields db_name n labels) ≡ 0
  unfolding with_joins marks marks_all
  with_joins_marks n [] = refl
  with_joins_marks n (label ∷ labels) =
      rw (marks-cat _) (omega (arith, table_marks (suc n), with_joins_marks (suc n) labels))

  abbrev pub PlainJoins : Str × Tables → Type 0
  PlainJoins r = IsPlain r.0

  join_marks :
      (index : ℕ)
      → IsPlain (
          cat (
            codes "\n  LEFT OUTER JOIN \""
            ∷ db_name
            ∷ codes "_labels\" "
            ∷ table sets parse_float indexed_fields db_name index
            ∷ codes " ON o.key = "
            ∷ table sets parse_float indexed_fields db_name index
            ∷ codes ".key"
            ∷ []))
  unfolding marks marks_all
  join_marks index = rw (marks-cat _) (omega (arith, table_marks index, plain_name))

  label_joins-Plain :
      (filters : List Filter) (tables : Tables)
      → Builds PlainJoins (label_joins sets parse_float indexed_fields db_name filters tables)
  unfolding label_joins marks
  label_joins-Plain [] tables = refl
  label_joins-Plain (f ∷ filters) tables = elim (Bool-cases (is_label_field f.fields)) [
    | inr field ↦ rw field (label_joins-Plain filters tables)
    | inl labels ↦ rw labels (
        Builds-any PlainJoins (third f.fields) _ λ label.
          elim (Option-cases (lookup label tables)) [
            | inr (index, known) ↦ rw known (label_joins-Plain filters tables)
            | inl new ↦
                let index = length tables + 1 in
                rw new (
                  Builds-step PlainJoins PlainJoins
                    (label_joins sets parse_float indexed_fields db_name filters
                      (insert label index tables))
                    _ (label_joins-Plain filters (insert label index tables))
                    λ r h. rw (marks-append _ r.0) (omega (arith, join_marks index)))
          ])
  ]

  pub all_label_joins-Plain :
      (filters : List OrFilter) (tables : Tables)
      → Builds PlainJoins (all_label_joins sets parse_float indexed_fields db_name filters tables)
  unfolding all_label_joins marks
  all_label_joins-Plain [] tables = refl
  all_label_joins-Plain (f ∷ filters) tables =
      Builds-step PlainJoins PlainJoins
        (label_joins sets parse_float indexed_fields db_name f tables) _
        (label_joins-Plain f tables)
        λ r h.
          Builds-step PlainJoins PlainJoins
            (all_label_joins sets parse_float indexed_fields db_name filters r.1) _
            (all_label_joins-Plain filters r.1) λ q k. omega (arith, marks-append r.0 q.0)

  pub project_joins-Plain :
      (filters : OrFilter) (tables : Tables)
      → PlainJoins (project_joins sets parse_float indexed_fields db_name filters tables)
  unfolding project_joins marks marks_all
  project_joins-Plain [] tables = refl
  project_joins-Plain (f ∷ filters) tables =
      rw (marks-cat _) (omega (arith, table_marks (length tables + 1)))

  distinct_marks : (b : Bool) → IsPlain (distinct_of sets parse_float indexed_fields db_name b)
  unfolding marks
  distinct_marks true = refl
  distinct_marks false = refl

  pub select_marks :
      (uses : Bool) (unbound : List Str) (labels projects : Str)
      → IsPlain labels
      → IsPlain projects
      → IsPlain (select_clause sets parse_float indexed_fields db_name uses unbound labels projects)
  unfolding select_clause marks marks_all
  select_marks uses unbound labels projects l p =
      rw (select_clause, marks-cat _)
        (omega (
          arith,
          distinct_marks uses,
          plain_name,
          marks-cat (with_joins sets parse_float indexed_fields db_name 0 unbound),
          with_joins_marks 0 unbound,
        ))
