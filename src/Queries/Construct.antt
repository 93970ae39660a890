-- ===== src/Queries/Construct.antt =====
-- constructQuery of pkg/sqlcache/informer/listoption_indexer.go: the text of the query and of the count
-- of its results, with their parameters, and the label tables that its parts share. Sorting by a label
-- takes the labels in the order in which a map gives them, here that of the sort directives.
pub mod Bound
pub mod Whole
pub mod Placeholders
pub mod Safe
pub mod Total
use steve.Common.{
  ℕ, zero, suc, ◌+◌, ◌-◌, ◌*◌, ◌%◌, ◌^◌, Str, str_eq, ◌==◌, codes, Bool, true, false, ◌&&◌, ◌||◌,
  not, List, [], ◌∷◌, ◌++◌, Option, none, some, map, any, keep, eqb, leb, ltb, length,
  if◌then◌else◌,
}
use steve.Common.Maps.{lookup, insert, remove}
use steve.Common.Numbers.{ℤ, pos, negsuc, int64, parse_int}
use steve.Options.Types.{
  Op, op_eq, op_not_eq, op_exists, op_not_exists, op_in, op_not_in, op_lt, op_gt, Filter, OrFilter,
  Sort, SortOrder, asc, desc, Pagination, ListOptions,
}
use steve.Common.Sets.{StringSets}
use steve.Partitions.Partitioner.{Partition}
use steve.Partitions.Clauses as Where
use steve.Partitions.Clauses.{namespace_is, name_in, never, where_clauses}
use steve.Queries.Text.{cat, join, decimal}
use steve.Queries.Columns.{get_valid_field_entry}
use steve.Queries.Joined.{joined, each}
use steve.Queries.Filters.{
  Param, text, int, QueryError, Built, built, rejected, crash, ◌>>=◌, or_rejected, Clause, third,
  is_label_field, label_index, lt, or_filter_clause, projects_filter_clause, targets,
  bad_projects_op, invalid_column, bad_revision, unknown_revision,
}

pub record QueryInfo (F : Type 0) : Type 0 where
  pub query : Str
  pub params : List (Param F)
  pub count_query : Str
  pub count_params : List (Param F)
  pub limit : ℤ
  pub offset : ℤ

abbrev pub Tables : Type 0
Tables = List (Str × ℕ)

-- isLabelsFieldList, with the label.
abbrev pub sort_label : List Str → Option Str
sort_label (a ∷ (b ∷ (c ∷ []))) =
    if (a == codes "metadata") && (b == codes "labels") then some c else none
sort_label (a ∷ (b ∷ (c ∷ (d ∷ rest)))) = none
sort_label (a ∷ (b ∷ [])) = none
sort_label (a ∷ []) = none
sort_label [] = none

unfoldable pub sort_labels : List Sort → List (Str × Bool)
sort_labels [] = []
sort_labels (s ∷ sorts) =
    let rest = sort_labels sorts in
    elim (sort_label s.sort_fields) [ none ↦ rest | some label ↦ insert label true rest ]

-- The operators whose filter selects a label.
abbrev pub selects_label : Op → Bool
selects_label op_in = true
selects_label op_eq = true
selects_label op_gt = true
selects_label op_lt = true
selects_label op_exists = true
selects_label op_not_eq = false
selects_label op_not_in = false
selects_label op_not_exists = false

unfoldable pub bind_labels : List Filter → List (Str × Bool) → Built (List (Str × Bool))
bind_labels [] labels = built labels
bind_labels (f ∷ filters) labels =
    if is_label_field f.fields && selects_label f.op
    then (third f.fields >>= λ label. bind_labels filters (remove label labels))
    else bind_labels filters labels

unfoldable pub bind_all : List OrFilter → List (Str × Bool) → Built (List (Str × Bool))
bind_all [] labels = built labels
bind_all (f ∷ filters) labels = bind_labels f labels >>= bind_all filters

unfoldable pub get_unbound_sort_labels : ListOptions → Built (List Str)
unfolding sort_labels bind_all
get_unbound_sort_labels lo =
    if eqb (length lo.sort_list) 0
    then built []
    else (bind_all lo.filters (sort_labels lo.sort_list) >>= λ labels.
        built (map (λ l. l.0) labels))

abbrev pub has_label_filter : List OrFilter → Bool
has_label_filter filters = any (λ f. any (λ g. is_label_field g.fields) f) filters

module _ (sets : StringSets) {F : Type 0} (parse_float : Str → Option F) (indexed_fields : List Str)
    (db_name : Str) where
  abbrev pub table : ℕ → Str
  table index = lt parse_float indexed_fields db_name index

  -- getWithParts, for labels that have no table yet.
  unfoldable pub with_parts : ℕ → List Str → List (Clause F)
  with_parts n [] = []
  with_parts n (label ∷ labels) =
      record {
        sql = cat (
            table (suc n)
            ∷ codes "(key, value) AS (\nSELECT key, value FROM \""
            ∷ db_name
            ∷ codes "_labels\"\n  WHERE label = ?\n)"
            ∷ []);
        params = text label ∷ [];
      }
      ∷ with_parts (suc n) labels

  unfoldable pub with_joins : ℕ → List Str → List Str
  with_joins n [] = []
  with_joins n (label ∷ labels) =
      cat (
        codes "\n  LEFT OUTER JOIN "
        ∷ table (suc n)
        ∷ codes " ON o.key = "
        ∷ table (suc n)
        ∷ codes ".key"
        ∷ [])
      ∷ with_joins (suc n) labels

  unfoldable pub with_tables : ℕ → List Str → Tables
  with_tables n [] = []
  with_tables n (label ∷ labels) = (label, suc n) ∷ with_tables (suc n) labels

  abbrev pub with_clause : List Str → Clause F
  with_clause [] = record { sql = []; params = [] }
  with_clause (label ∷ labels) =
      joined (codes "WITH ") (codes ",\n") (codes "\n") (with_parts 0 (label ∷ labels))

  -- The tables of the labels that the filters use, with their joins.
  unfoldable pub label_joins : List Filter → Tables → Built (Str × Tables)
  label_joins [] tables = built ([], tables)
  label_joins (f ∷ filters) tables =
      if is_label_field f.fields
      then (third f.fields >>= λ label. elim (lookup label tables) [
        | some index ↦ label_joins filters tables
        | none ↦
            let index = length tables + 1 in
            let joins = cat (
              codes "\n  LEFT OUTER JOIN \""
              ∷ db_name
              ∷ codes "_labels\" "
              ∷ table index
              ∷ codes " ON o.key = "
              ∷ table index
              ∷ codes ".key"
              ∷ []) in
            (label_joins filters (insert label index tables) >>= λ rest.
            built (joins ++ rest.0, rest.1))
      ])
      else label_joins filters tables

  unfoldable pub all_label_joins : List OrFilter → Tables → Built (Str × Tables)
  all_label_joins [] tables = built ([], tables)
  all_label_joins (f ∷ filters) tables = label_joins f tables >>= λ first.
      all_label_joins filters first.1 >>= λ rest. built (first.0 ++ rest.0, rest.1)

  abbrev pub project_label : Str
  project_label = codes "field.cattle.io/projectId"

  -- The joins of the namespaces, where projects or namespaces are asked for.
  unfoldable pub project_joins : OrFilter → Tables → Str × Tables
  project_joins [] tables = ([], tables)
  project_joins (f ∷ filters) tables =
      let index = length tables + 1 in
      (
        cat (
            codes
              "\n  LEFT OUTER JOIN \"_v1_Namespace_fields\" nsf ON f.\"metadata.namespace\" = nsf.\"metadata.name\"\n  LEFT OUTER JOIN \"_v1_Namespace_labels\" "
            ∷ table index
            ∷ codes " ON nsf.key = "
            ∷ table index
            ∷ codes ".key"
            ∷ []),
        elim (lookup project_label tables) [
          | none ↦ insert project_label index tables
          | some i ↦ tables
        ],
      )

  abbrev pub distinct_of : Bool → Str
  distinct_of true = codes "DISTINCT "
  distinct_of false = []

  -- SELECT and JOIN
  unfoldable pub select_clause : Bool → List Str → Str → Str → Str
  select_clause uses_labels unbound labels projects = cat (
      codes "SELECT "
      ∷ distinct_of uses_labels
      ∷ codes "o.object, o.objectnonce, o.dekid FROM \""
      ∷ db_name
      ∷ codes "\" o\n  JOIN \""
      ∷ db_name
      ∷ codes "_fields\" f ON o.key = f.key"
      ∷ cat (with_joins 0 unbound)
      ∷ labels
      ∷ projects
      ∷ [])

  -- buildORClauseFromFilters; no clause for no filter.
  abbrev pub or_clause : List (Clause F) → List (Clause F)
  or_clause [] = []
  or_clause (c ∷ []) = c ∷ []
  or_clause (c ∷ (d ∷ cs)) = joined (codes "(") (codes ") OR (") (codes ")") (c ∷ (d ∷ cs)) ∷ []

  unfoldable pub filter_clauses : Tables → List OrFilter → Built (List (Clause F))
  filter_clauses tables [] = built []
  filter_clauses tables (f ∷ filters) =
      each (or_filter_clause parse_float indexed_fields db_name tables) f >>= λ cs.
      filter_clauses tables filters >>= λ rest. built (or_clause cs ++ rest)

  abbrev pub join_projects : Op → List (Clause F) → Built (List (Clause F))
  join_projects op_in cs = built (joined (codes "(") (codes ") OR (") (codes ")") cs ∷ [])
  join_projects op_not_in cs = built (joined (codes "(") (codes ") AND (") (codes ")") cs ∷ [])
  join_projects op_eq cs = rejected bad_projects_op
  join_projects op_not_eq cs = rejected bad_projects_op
  join_projects op_lt cs = rejected bad_projects_op
  join_projects op_gt cs = rejected bad_projects_op
  join_projects op_exists cs = rejected bad_projects_op
  join_projects op_not_exists cs = rejected bad_projects_op

  -- buildClauseFromProjectsOrNamespaces
  unfoldable pub projects_clauses : Tables → OrFilter → Built (List (Clause F))
  projects_clauses tables [] = built []
  projects_clauses tables (f ∷ filters) =
      each (projects_filter_clause parse_float indexed_fields db_name tables) (f ∷ filters)
      >>= join_projects f.op

  abbrev namespace_clause : Str → Clause F
  namespace_clause namespace = record {
    sql = codes "f.\"metadata.namespace\" = ?";
    params = text namespace ∷ [];
  }

  abbrev pub namespace_clauses : Str → List (Clause F)
  namespace_clauses namespace =
      if not (namespace == []) && not (namespace == codes "*")
      then namespace_clause namespace ∷ []
      else []

  -- The text of the conditions that the partitions give.
  abbrev pub condition : Where.Clause sets → Clause F
  condition (namespace_is namespace) = namespace_clause namespace
  condition (name_in names) = record {
    sql = cat (codes "f.\"metadata.name\" IN " ∷ targets names ∷ []);
    params = map text names;
  }
  condition never = record { sql = codes "FALSE"; params = [] }

  abbrev pub partition_clause : List (Where.Clause sets) → Clause F
  partition_clause c = joined [] (codes " AND ") [] (map condition c)

  abbrev pub partitions_clause : List (List (Where.Clause sets)) → Clause F
  partitions_clause [] = joined [] [] [] []
  partitions_clause (c ∷ []) = partition_clause c
  partitions_clause (c ∷ (d ∷ cs)) =
      joined (codes "(\n      (") (codes ") OR\n      (") (codes ")\n)")
        (map partition_clause (c ∷ (d ∷ cs)))

  abbrev pub where_clause : List (Clause F) → Clause F
  where_clause [] = joined [] [] [] []
  where_clause (c ∷ cs) =
      joined (codes "\n  WHERE\n    (") (codes ") AND\n    (") (codes ")") (c ∷ cs)

  abbrev pub as_ip : Bool → Str → Str
  as_ip true entry = cat (codes "inet_aton(" ∷ entry ∷ codes ")" ∷ [])
  as_ip false entry = entry

  abbrev pub field_order : SortOrder → Str
  field_order asc = codes " ASC"
  field_order desc = codes " DESC"

  -- The order of buildSortLabelsClause.
  abbrev pub label_order : SortOrder → Str
  label_order asc = codes " ASC NULLS LAST"
  label_order desc = codes " DESC NULLS FIRST"

  abbrev pub sort_entry : Tables → Sort → Option Str → Built Str
  sort_entry tables s (some label) =
      label_index parse_float indexed_fields db_name label tables >>= λ index. built (
        cat
          (as_ip s.sort_as_ip (cat (table index ∷ codes ".value" ∷ [])) ∷ label_order s.order ∷ []))
  sort_entry tables s none =
      or_rejected invalid_column (get_valid_field_entry indexed_fields (codes "f") s.sort_fields)
      >>= λ entry. built (cat (as_ip s.sort_as_ip entry ∷ field_order s.order ∷ []))

  abbrev pub sort_clause : Tables → Sort → Built Str
  sort_clause tables s = sort_entry tables s (sort_label s.sort_fields)

  abbrev pub default_order : Bool → Str
  default_order true = codes "\n  ORDER BY f.\"id\" ASC "
  default_order false = codes "\n  ORDER BY f.\"metadata.name\" ASC "

  unfoldable pub order_by : Bool → Tables → List Sort → Built Str
  order_by namespaced tables [] = built (default_order namespaced)
  order_by namespaced tables (s ∷ sorts) = each (sort_clause tables) (s ∷ sorts) >>= λ entries.
      built (cat (codes "\n  ORDER BY " ∷ join (codes ", ") entries ∷ []))

  abbrev pub is_positive : ℤ → Bool
  is_positive (pos n) = ltb 0 n
  is_positive (negsuc n) = false

  -- PageSize * (Page - 1) from page one on, wrapped to 64 bits.
  abbrev pub offset_of : Pagination → ℤ
  offset_of p = elim p.page [
    | negsuc n ↦ pos 0
    | pos zero ↦ pos 0
    | pos (suc k) ↦ elim p.page_size [
      | pos size ↦ int64 (size * k)
      | negsuc size ↦ int64 (2 ^ 64 - (suc size * k) % 2 ^ 64)
    ]
  ]

  abbrev pub limit_clause : Str → ℤ → Clause F
  limit_clause name n =
      if is_positive n
      then record { sql = cat (codes "\n  " ∷ name ∷ codes " ?" ∷ []); params = int n ∷ [] }
      else record { sql = []; params = [] }

  -- The query with what it counts, and the page.
  unfoldable pub paginate : Pagination → Clause F → Str → QueryInfo F
  paginate p counted order =
      let offset = offset_of p in
      let limit = limit_clause (codes "LIMIT") p.page_size in
      let skip = limit_clause (codes "OFFSET") offset in
      let paged = is_positive p.page_size || is_positive offset in
      record {
        query = cat (counted.sql ∷ order ∷ limit.sql ∷ skip.sql ∷ []);
        params = counted.params ++ limit.params ++ skip.params;
        count_query =
            if paged
            then cat (codes "SELECT COUNT(*) FROM (" ∷ counted.sql ∷ codes ")" ∷ [])
            else [];
        count_params = if paged then counted.params else [];
        limit = if paged then p.page_size else pos 0;
        offset = if paged then offset else pos 0;
      }

  abbrev pub is_less : ℤ → ℤ → Bool
  is_less (pos m) (pos n) = ltb m n
  is_less (pos m) (negsuc n) = false
  is_less (negsuc m) (pos n) = true
  is_less (negsuc m) (negsuc n) = ltb n m

  unfoldable pub check_revision : Str → Str → Built (Unit {0})
  check_revision latest revision =
      if eqb (length revision) 0
      then built tt
      else (or_rejected bad_revision (parse_int latest) >>= λ current.
          or_rejected bad_revision (parse_int revision) >>= λ requested.
          if is_less current requested then rejected unknown_revision else built tt)

  -- The query without its order, and the tables of its labels.
  unfoldable pub counted_query :
      ListOptions → List (Partition sets) → Str → List Str → Built (Clause F × Tables)
  counted_query lo partitions namespace unbound =
      all_label_joins lo.filters (with_tables 0 unbound) >>= λ labels.
      let projects = project_joins lo.projects_or_namespaces labels.1 in
      filter_clauses projects.1 lo.filters >>= λ filters.
      projects_clauses projects.1 lo.projects_or_namespaces >>= λ wanted.
      let uses_labels = has_label_filter lo.filters || ltb 0 (length lo.projects_or_namespaces) in
      let with = with_clause unbound in
      let where_part = where_clause (
        filters
        ++ wanted
        ++ namespace_clauses namespace
        ++ map partitions_clause (where_clauses sets partitions)) in
      built (
        record {
          sql = cat (
              with.sql
              ∷ select_clause uses_labels unbound labels.0 projects.0
              ∷ where_part.sql
              ∷ []);
          params = with.params ++ where_part.params;
        },
        projects.1,
      )

  unfoldable pub construct_query :
      Bool → Str → ListOptions → List (Partition sets) → Str → Built (QueryInfo F)
  construct_query namespaced latest lo partitions namespace =
      get_unbound_sort_labels lo >>= λ unbound. check_revision latest lo.revision >>= λ checked.
      counted_query lo partitions namespace unbound >>= λ counted.
      order_by namespaced counted.1 lo.sort_list >>= λ order.
      built (paginate lo.pagination counted.0 order)
