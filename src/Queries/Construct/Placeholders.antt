-- ===== src/Queries/Construct/Placeholders.antt =====
-- constructQuery beside its placeholders.
use steve.Common.{
  ℕ, ◌≡◌, refl, Str, str_eq, codes, Bool, true, false, ◌||◌, List, [], ◌∷◌, ◌++◌, Option, none,
  some, map, ltb, length, length-append, arith, Bool-cases, inl, inr,
}
use steve.Common.Numbers.{ℤ}
use steve.Common.Sets.{StringSets}
use steve.Options.Types.{Sort, SortOrder, asc, desc, ListOptions, Pagination}
use steve.Queries.Text.{cat, marks, marks_all, marks-cat, marks-join}
use steve.Queries.Columns.{get_valid_field_entry}
use steve.Queries.Columns.Plain.{ArePlain, PlainEntry, entry-PlainEntry}
use steve.Queries.Filters.{QueryError, built, ◌>>=◌, or_rejected, Clause, label_index}
use steve.Queries.Filters.Placeholders.{Builds, IsBound}
use steve.Queries.Joined.{each}
use steve.Queries.Construct.{
  Tables, QueryInfo, table, with_tables, with_clause, all_label_joins, project_joins,
  filter_clauses, projects_clauses, namespace_clauses, partitions_clause, where_clause, as_ip,
  field_order, label_order, sort_label, sort_entry, sort_clause, order_by, is_positive,
  limit_clause, paginate, offset_of,
}
use steve.Partitions.Partitioner.{Partition}
use steve.Partitions.Clauses.{where_clauses}
use steve.Queries.Construct.{
  check_revision, counted_query, construct_query, get_unbound_sort_labels, has_label_filter,
}
use steve.Queries.Construct.Bound.{
  All, IsPlain, All-any, All-append, All-map, Builds-step, Builds-any, each-All, HaveMatches,
  filter_clauses-IsBound, projects_clauses-IsBound, namespace_clauses-IsBound, partitions-IsBound,
  where-IsBound,
}
use steve.Queries.Construct.Whole.{
  with_clause-IsBound, PlainJoins, all_label_joins-Plain, project_joins-Plain, select_marks,
  table_marks,
}

-- The query and the count have as many parameters as placeholders.
pub record AreBound {F : Type 0} (q : QueryInfo F) : Type 0 where
  pub query_bound : marks q.query ≡ length q.params
  pub count_bound : marks q.count_query ≡ length q.count_params

plain-All : (ss : List Str) → All IsPlain ss → marks_all ss ≡ 0
unfolding marks_all
plain-All [] h = refl
plain-All (s ∷ ss) (h, hs) = omega (arith, plain-All ss hs)

module _ (sets : StringSets) {F : Type 0} (parse_float : Str → Option F) (indexed_fields : List Str)
    (db_name : Str) (plain : ArePlain indexed_fields) (plain_name : IsPlain db_name) where
  as_ip_marks :
      (b : Bool) (entry : Str)
      → IsPlain entry
      → IsPlain (as_ip sets parse_float indexed_fields db_name b entry)
  unfolding marks marks_all
  as_ip_marks true entry h = rw (marks-cat _) (omega arith)
  as_ip_marks false entry h = h

  field_order_marks :
      (o : SortOrder) → IsPlain (field_order sets parse_float indexed_fields db_name o)
  unfolding marks
  field_order_marks asc = refl
  field_order_marks desc = refl

  label_order_marks :
      (o : SortOrder) → IsPlain (label_order sets parse_float indexed_fields db_name o)
  unfolding marks
  label_order_marks asc = refl
  label_order_marks desc = refl

  value_marks :
      (index : ℕ)
      → IsPlain (cat (table sets parse_float indexed_fields db_name index ∷ codes ".value" ∷ []))
  unfolding marks marks_all
  value_marks index =
      rw (marks-cat _)
        (omega (arith, table_marks sets parse_float indexed_fields db_name plain plain_name index))

  sort_entry-Plain :
      (tables : Tables) (s : Sort) (o : Option Str)
      → Builds IsPlain (sort_entry sets parse_float indexed_fields db_name tables s o)
  unfolding marks marks_all
  sort_entry-Plain tables s (some label) =
      Builds-any IsPlain (label_index parse_float indexed_fields db_name label tables) _ λ index.
        rw (marks-cat _) (
          omega (
            arith,
            label_order_marks s.order,
            as_ip_marks s.sort_as_ip
                (cat (table sets parse_float indexed_fields db_name index ∷ codes ".value" ∷ []))
                (value_marks index),
          ))
  sort_entry-Plain tables s none =
      of_entry (get_valid_field_entry indexed_fields (codes "f") s.sort_fields)
        (entry-PlainEntry indexed_fields plain (codes "f") refl s.sort_fields)
    where
      of_entry :
          (o : Option Str)
          → PlainEntry o
          → Builds IsPlain (
              or_rejected QueryError.invalid_column o >>= λ entry. built (
                cat (
                  as_ip sets parse_float indexed_fields db_name s.sort_as_ip entry
                  ∷ field_order sets parse_float indexed_fields db_name s.order
                  ∷ [])))
      of_entry none h = tt
      of_entry (some entry) h =
          rw (marks-cat _)
            (omega (arith, field_order_marks s.order, as_ip_marks s.sort_as_ip entry h))

  order_by-Plain :
      (namespaced : Bool) (tables : Tables) (sorts : List Sort)
      → Builds IsPlain (order_by sets parse_float indexed_fields db_name namespaced tables sorts)
  unfolding order_by marks marks_all
  order_by-Plain true tables [] = refl
  order_by-Plain false tables [] = refl
  order_by-Plain namespaced tables (s ∷ sorts) =
      Builds-step (All IsPlain) IsPlain
        (each (sort_clause sets parse_float indexed_fields db_name tables) (s ∷ sorts)) _
        (each-All (λ x. Unit) IsPlain (sort_clause sets parse_float indexed_fields db_name tables)
          (s ∷ sorts) (λ x h. sort_entry-Plain tables x (sort_label x.sort_fields))
          (All-any (s ∷ sorts)))
        λ entries h.
          rw (marks-cat _)
            (omega (arith, marks-join (codes ", ") entries refl, plain-All entries h))

  limit-IsBound :
      (name : Str) (n : ℤ)
      → IsPlain name
      → IsBound (limit_clause sets parse_float indexed_fields db_name name n)
  unfolding marks marks_all
  limit-IsBound name n h =
      elim (Bool-cases (is_positive sets parse_float indexed_fields db_name n)) [
        | inl limited ↦ rw limited (rw (marks-cat _) (omega arith))
        | inr free ↦ rw free refl
      ]

  paginate-AreBound :
      (p : Pagination) (counted : Clause F) (order : Str)
      → IsBound counted
      → IsPlain order
      → AreBound (paginate sets parse_float indexed_fields db_name p counted order)
  unfolding paginate marks marks_all
  paginate-AreBound p counted order c o =
      let offset = offset_of sets parse_float indexed_fields db_name p in
      let limit =
        limit_clause sets parse_float indexed_fields db_name (codes "LIMIT") p.page_size in
      let skip = limit_clause sets parse_float indexed_fields db_name (codes "OFFSET") offset in
      record {
        query_bound = rw (marks-cat _) (
            omega (
              arith,
              limit-IsBound (codes "LIMIT") p.page_size refl,
              limit-IsBound (codes "OFFSET") offset refl,
              length-append counted.params (limit.params ++ skip.params),
              length-append (counted.params ++ limit.params) skip.params,
              length-append counted.params limit.params,
              length-append limit.params skip.params,
            ));
        count_bound =
            elim (Bool-cases (
              is_positive sets parse_float indexed_fields db_name p.page_size
              || is_positive sets parse_float indexed_fields db_name offset)) [
                | inl paged ↦ rw paged (rw (marks-cat _) (omega arith))
                | inr whole ↦ rw whole refl
              ];
      }

  counted_query-IsBound :
      (lo : ListOptions) (partitions : List (Partition sets)) (namespace : Str) (unbound : List Str)
      → HaveMatches sets parse_float indexed_fields db_name plain plain_name lo.filters
      → Builds
          (λ r. IsBound r.0)
          (counted_query sets parse_float indexed_fields db_name lo partitions namespace unbound)
  unfolding counted_query marks marks_all
  counted_query-IsBound lo partitions namespace unbound h =
      Builds-step (PlainJoins sets parse_float indexed_fields db_name plain plain_name)
        (λ r. IsBound r.0)
        (all_label_joins sets parse_float indexed_fields db_name lo.filters
          (with_tables sets parse_float indexed_fields db_name 0 unbound))
        _
        (all_label_joins-Plain sets parse_float indexed_fields db_name plain plain_name lo.filters
          (with_tables sets parse_float indexed_fields db_name 0 unbound))
        λ labels plain_labels.
          let projects =
            project_joins sets parse_float indexed_fields db_name lo.projects_or_namespaces
              labels.1 in
          Builds-step (All IsBound) (λ r. IsBound r.0)
            (filter_clauses sets parse_float indexed_fields db_name projects.1 lo.filters) _
            (filter_clauses-IsBound sets parse_float indexed_fields db_name plain plain_name
              projects.1 lo.filters h)
            λ filters filters_bound.
              Builds-step (All IsBound) (λ r. IsBound r.0)
                (projects_clauses sets parse_float indexed_fields db_name projects.1
                  lo.projects_or_namespaces)
                _
                (projects_clauses-IsBound sets parse_float indexed_fields db_name plain plain_name
                  projects.1 lo.projects_or_namespaces)
                λ wanted wanted_bound.
                  let uses_labels =
                    has_label_filter lo.filters || ltb 0 (length lo.projects_or_namespaces) in
                  let named = namespace_clauses sets parse_float indexed_fields db_name namespace in
                  let conditions =
                    map (partitions_clause sets parse_float indexed_fields db_name)
                      (where_clauses sets partitions) in
                  let with = with_clause sets parse_float indexed_fields db_name unbound in
                  let where_part =
                    where_clause sets parse_float indexed_fields db_name
                      (filters ++ wanted ++ named ++ conditions) in
                  let where_bound =
                    where-IsBound sets parse_float indexed_fields db_name plain plain_name
                      (filters ++ wanted ++ named ++ conditions)
                      (All-append IsBound (filters ++ wanted ++ named) conditions
                        (All-append IsBound (filters ++ wanted) named
                          (All-append IsBound filters wanted filters_bound wanted_bound)
                          (namespace_clauses-IsBound sets parse_float indexed_fields db_name plain
                            plain_name namespace))
                        (All-map IsBound (partitions_clause sets parse_float indexed_fields db_name)
                          (where_clauses sets partitions)
                          (partitions-IsBound sets parse_float indexed_fields db_name plain
                            plain_name))) in
                  rw (marks-cat _) (
                    omega (
                      arith,
                      length-append with.params where_part.params,
                      with_clause-IsBound sets parse_float indexed_fields db_name plain plain_name
                          unbound,
                      select_marks sets parse_float indexed_fields db_name plain plain_name
                          uses_labels unbound labels.0 projects.0 plain_labels
                          (project_joins-Plain sets parse_float indexed_fields db_name plain
                            plain_name lo.projects_or_namespaces labels.1),
                      where_bound,
                    ))

  -- Where no indexed field and no table name has a question mark, and each membership test of the filters
  -- has values, a query that is built has as many parameters as placeholders, and so has its count.
  pub construct_query-AreBound :
      (namespaced : Bool) (latest : Str) (lo : ListOptions) (partitions : List (Partition sets))
      (namespace : Str)
      → HaveMatches sets parse_float indexed_fields db_name plain plain_name lo.filters
      → Builds AreBound (
          construct_query sets parse_float indexed_fields db_name namespaced latest lo partitions
            namespace)
  unfolding construct_query
  construct_query-AreBound namespaced latest lo partitions namespace h =
      Builds-any AreBound (get_unbound_sort_labels lo) _ λ unbound.
        Builds-any AreBound
          (check_revision sets parse_float indexed_fields db_name latest lo.revision) _
          λ checked.
            Builds-step (λ r. IsBound r.0) AreBound
              (counted_query sets parse_float indexed_fields db_name lo partitions namespace
                unbound)
              _ (counted_query-IsBound lo partitions namespace unbound h)
              λ counted bound.
                Builds-step IsPlain AreBound
                  (order_by sets parse_float indexed_fields db_name namespaced counted.1
                    lo.sort_list)
                  _ (order_by-Plain namespaced counted.1 lo.sort_list)
                  λ order plain_order.
                    paginate-AreBound lo.pagination counted.0 order bound plain_order
