-- ===== src/Queries/Construct/Total.antt =====
-- Where constructQuery gives a query or an error.
use steve.Common.{
  ◌+◌, Str, str_eq, codes, Bool, List, [], ◌∷◌, Option, none, some, eqb, length, Bool-cases,
  Option-cases, inl, inr,
}
use steve.Common.Maps.{lookup, insert}
use steve.Common.Numbers.{parse_int}
use steve.Common.Sets.{StringSets}
use steve.Options.Types.{
  Op, op_eq, op_not_eq, op_exists, op_not_exists, op_in, op_not_in, op_lt, op_gt, Filter, OrFilter,
  Sort, ListOptions,
}
use steve.Queries.Columns.{get_valid_field_entry}
use steve.Queries.Filters.{
  QueryError, or_rejected, Clause, third, is_label_field, label_index, or_filter_clause,
  projects_filter_clause,
}
use steve.Queries.Joined.{each}
use steve.Queries.Construct.{
  Tables, with_tables, label_joins, all_label_joins, project_joins, filter_clauses, join_projects,
  projects_clauses, sort_label, sort_entry, sort_clause, order_by,
}
use steve.Partitions.Partitioner.{Partition}
use steve.Queries.Construct.{
  is_less, check_revision, counted_query, construct_query, get_unbound_sort_labels,
}
use steve.Queries.Construct.Bound.{All, All-any}
use steve.Common.Maps.{remove}
use steve.Queries.Construct.{selects_label, bind_labels, bind_all, sort_labels}
use steve.Queries.Construct.Safe.{
  IsSafe, IsNamed, IsComplete, Safe-bind, Safe-or_rejected, Safe-each, third-IsSafe,
  or_filter-IsSafe, projects_filter-IsSafe,
}

bind_labels-IsSafe :
    (filters : List Filter) (labels : List (Str × Bool))
    → All IsComplete filters
    → IsSafe (bind_labels filters labels)
unfolding bind_labels
bind_labels-IsSafe [] labels h = tt
bind_labels-IsSafe (f ∷ filters) labels ((named, h), hs) =
    elim (Bool-cases (is_label_field f.fields)) [
      | inr field ↦ rw field (bind_labels-IsSafe filters labels hs)
      | inl label ↦ elim (Bool-cases (selects_label f.op)) [
        | inr other ↦ rw (label, other) (bind_labels-IsSafe filters labels hs)
        | inl selected ↦
            rw (label, selected)
              (Safe-bind (third f.fields) _ (third-IsSafe f.fields named label)
                λ name. bind_labels-IsSafe filters (remove name labels) hs)
      ]
    ]

bind_all-IsSafe :
    (filters : List OrFilter) (labels : List (Str × Bool))
    → All (All IsComplete) filters
    → IsSafe (bind_all filters labels)
unfolding bind_all
bind_all-IsSafe [] labels h = tt
bind_all-IsSafe (f ∷ filters) labels (h, hs) =
    Safe-bind (bind_labels f labels) _ (bind_labels-IsSafe f labels h)
      λ more. bind_all-IsSafe filters more hs

unbound-IsSafe :
    (lo : ListOptions) → All (All IsComplete) lo.filters → IsSafe (get_unbound_sort_labels lo)
unfolding get_unbound_sort_labels
unbound-IsSafe lo h = elim (Bool-cases (eqb (length lo.sort_list) 0)) [
  | inl unsorted ↦ rw unsorted tt
  | inr sorted ↦ rw sorted (
      Safe-bind (bind_all lo.filters (sort_labels lo.sort_list)) _
        (bind_all-IsSafe lo.filters (sort_labels lo.sort_list) h) λ labels. tt)
]

module _ (sets : StringSets) {F : Type 0} (parse_float : Str → Option F) (indexed_fields : List Str)
    (db_name : Str) where
  label_joins-IsSafe :
      (filters : List Filter) (tables : Tables)
      → All IsComplete filters
      → IsSafe (label_joins sets parse_float indexed_fields db_name filters tables)
  unfolding label_joins
  label_joins-IsSafe [] tables h = tt
  label_joins-IsSafe (f ∷ filters) tables ((named, h), hs) =
      elim (Bool-cases (is_label_field f.fields)) [
        | inr field ↦ rw field (label_joins-IsSafe filters tables hs)
        | inl label ↦ rw label (
            Safe-bind (third f.fields) _ (third-IsSafe f.fields named label) λ name.
              elim (Option-cases (lookup name tables)) [
                | inr (index, known) ↦ rw known (label_joins-IsSafe filters tables hs)
                | inl new ↦ rw new (
                    Safe-bind
                      (label_joins sets parse_float indexed_fields db_name filters
                        (insert name (length tables + 1) tables))
                      _ (label_joins-IsSafe filters (insert name (length tables + 1) tables) hs)
                      λ rest. tt)
              ])
      ]

  all_label_joins-IsSafe :
      (filters : List OrFilter) (tables : Tables)
      → All (All IsComplete) filters
      → IsSafe (all_label_joins sets parse_float indexed_fields db_name filters tables)
  unfolding all_label_joins
  all_label_joins-IsSafe [] tables h = tt
  all_label_joins-IsSafe (f ∷ filters) tables (h, hs) =
      Safe-bind (label_joins sets parse_float indexed_fields db_name f tables) _
        (label_joins-IsSafe f tables h)
        λ one.
          Safe-bind (all_label_joins sets parse_float indexed_fields db_name filters one.1) _
            (all_label_joins-IsSafe filters one.1 hs) λ rest. tt

  filter_clauses-IsSafe :
      (tables : Tables) (filters : List OrFilter)
      → All (All IsComplete) filters
      → IsSafe (filter_clauses sets parse_float indexed_fields db_name tables filters)
  unfolding filter_clauses
  filter_clauses-IsSafe tables [] h = tt
  filter_clauses-IsSafe tables (f ∷ filters) (h, hs) =
      Safe-bind (each (or_filter_clause parse_float indexed_fields db_name tables) f) _
        (Safe-each IsComplete (or_filter_clause parse_float indexed_fields db_name tables) f
          (or_filter-IsSafe sets parse_float indexed_fields db_name tables) h)
        λ cs.
          Safe-bind (filter_clauses sets parse_float indexed_fields db_name tables filters) _
            (filter_clauses-IsSafe tables filters hs) λ rest. tt

  join_projects-IsSafe :
      (op : Op) (cs : List (Clause F))
      → IsSafe (join_projects sets parse_float indexed_fields db_name op cs)
  join_projects-IsSafe op_in cs = tt
  join_projects-IsSafe op_not_in cs = tt
  join_projects-IsSafe op_eq cs = tt
  join_projects-IsSafe op_not_eq cs = tt
  join_projects-IsSafe op_lt cs = tt
  join_projects-IsSafe op_gt cs = tt
  join_projects-IsSafe op_exists cs = tt
  join_projects-IsSafe op_not_exists cs = tt

  projects_clauses-IsSafe :
      (tables : Tables) (filters : OrFilter)
      → All (λ f. IsNamed f.fields) filters
      → IsSafe (projects_clauses sets parse_float indexed_fields db_name tables filters)
  unfolding projects_clauses
  projects_clauses-IsSafe tables [] h = tt
  projects_clauses-IsSafe tables (f ∷ filters) h =
      Safe-bind
        (each (projects_filter_clause parse_float indexed_fields db_name tables) (f ∷ filters)) _
        (Safe-each (λ g. IsNamed g.fields)
          (projects_filter_clause parse_float indexed_fields db_name tables) (f ∷ filters)
          (projects_filter-IsSafe sets parse_float indexed_fields db_name tables) h)
        (join_projects-IsSafe f.op)

  sort_entry-IsSafe :
      (tables : Tables) (s : Sort) (o : Option Str)
      → IsSafe (sort_entry sets parse_float indexed_fields db_name tables s o)
  sort_entry-IsSafe tables s (some label) =
      Safe-bind (label_index parse_float indexed_fields db_name label tables) _
        (Safe-or_rejected _ (lookup label tables)) λ index. tt
  sort_entry-IsSafe tables s none =
      Safe-bind
        (or_rejected QueryError.invalid_column
          (get_valid_field_entry indexed_fields (codes "f") s.sort_fields))
        _ (Safe-or_rejected _ _) λ entry. tt

  order_by-IsSafe :
      (namespaced : Bool) (tables : Tables) (sorts : List Sort)
      → IsSafe (order_by sets parse_float indexed_fields db_name namespaced tables sorts)
  unfolding order_by
  order_by-IsSafe namespaced tables [] = tt
  order_by-IsSafe namespaced tables (s ∷ sorts) =
      Safe-bind (each (sort_clause sets parse_float indexed_fields db_name tables) (s ∷ sorts)) _
        (Safe-each (λ x. Unit) (sort_clause sets parse_float indexed_fields db_name tables)
          (s ∷ sorts) (λ x h. sort_entry-IsSafe tables x (sort_label x.sort_fields))
          (All-any (s ∷ sorts)))
        λ entries. tt

  check_revision-IsSafe :
      (latest revision : Str)
      → IsSafe (check_revision sets parse_float indexed_fields db_name latest revision)
  unfolding check_revision
  check_revision-IsSafe latest revision = elim (Bool-cases (eqb (length revision) 0)) [
    | inl empty ↦ rw empty tt
    | inr named ↦ rw named (
        Safe-bind (or_rejected QueryError.bad_revision (parse_int latest)) _ (Safe-or_rejected _ _)
          λ current.
            Safe-bind (or_rejected QueryError.bad_revision (parse_int revision)) _
              (Safe-or_rejected _ _)
              λ requested.
                elim (Bool-cases
                  (is_less sets parse_float indexed_fields db_name current requested)) [
                    | inl less ↦ rw less tt
                    | inr fine ↦ rw fine tt
                  ])
  ]

  -- constructQuery does not panic where each label filter has a label in its field and each comparison of
  -- the filters has a value: it gives a query or an error.
  pub construct_query-IsSafe :
      (namespaced : Bool) (latest : Str) (lo : ListOptions) (partitions : List (Partition sets))
      (namespace : Str)
      → All (All IsComplete) lo.filters
      → All (λ f. IsNamed f.fields) lo.projects_or_namespaces
      → IsSafe (
          construct_query sets parse_float indexed_fields db_name namespaced latest lo partitions
            namespace)
  unfolding construct_query counted_query
  construct_query-IsSafe namespaced latest lo partitions namespace h p =
      Safe-bind (get_unbound_sort_labels lo) _ (unbound-IsSafe lo h) λ unbound.
        Safe-bind (check_revision sets parse_float indexed_fields db_name latest lo.revision) _
          (check_revision-IsSafe latest lo.revision)
          λ checked.
            Safe-bind
              (counted_query sets parse_float indexed_fields db_name lo partitions namespace
                unbound)
              _
              (Safe-bind
                (all_label_joins sets parse_float indexed_fields db_name lo.filters
                  (with_tables sets parse_float indexed_fields db_name 0 unbound))
                _
                (all_label_joins-IsSafe lo.filters
                  (with_tables sets parse_float indexed_fields db_name 0 unbound) h)
                λ labels.
                  let projects =
                    project_joins sets parse_float indexed_fields db_name lo.projects_or_namespaces
                      labels.1 in
                  Safe-bind
                    (filter_clauses sets parse_float indexed_fields db_name projects.1 lo.filters) _
                    (filter_clauses-IsSafe projects.1 lo.filters h)
                    λ filters.
                      Safe-bind
                        (projects_clauses sets parse_float indexed_fields db_name projects.1
                          lo.projects_or_namespaces)
                        _ (projects_clauses-IsSafe projects.1 lo.projects_or_namespaces p)
                        λ wanted. tt)
              λ counted.
                Safe-bind
                  (order_by sets parse_float indexed_fields db_name namespaced counted.1
                    lo.sort_list)
                  _ (order_by-IsSafe namespaced counted.1 lo.sort_list) λ order. tt
