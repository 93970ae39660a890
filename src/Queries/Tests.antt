-- ===== src/Queries/Tests.antt =====
-- Queries at small inputs, with the texts of pkg/sqlcache/informer/listoption_indexer_test.go.
use steve.Common.{
  ◌≡◌, refl, any, Str, String, codes, str_eq, str_beq, true, false, List, [], ◌∷◌, arith,
}
use steve.Common.Maps.{lookup, insert}
use steve.Common.Numbers.{pos, read_number}
use steve.Common.Listed.{listed}
use steve.Options.Types.{op_eq, op_in, Filter, asc, Sort, ListOptions}
use steve.Partitions.Partitioner.{passthrough_partitions}
use steve.Partitions.Clauses.{where_clauses, partition_clauses}
use steve.Queries.Text.{cat, join, digits, marks}
use steve.Queries.Joined.{joined, each}
use steve.Queries.Filters.{text, built, crash}
use steve.Queries.Filters.Placeholders.{Builds}
use steve.Queries.Construct.{
  construct_query, get_unbound_sort_labels, sort_labels, bind_all, check_revision, counted_query,
  all_label_joins, label_joins, filter_clauses, projects_clauses, project_joins, order_by,
  with_tables, with_parts, with_joins, select_clause, paginate,
}
use steve.Queries.Construct.Placeholders.{AreBound, construct_query-AreBound}
use steve.Queries.Construct.Safe.{IsSafe}
use steve.Queries.Construct.Total.{construct_query-IsSafe}

abbrev indexed : List Str
indexed = codes "metadata.name" ∷ codes "metadata.queryField1" ∷ []

abbrev name : Str
name = codes "something"

abbrev label : String → List Str
label l = codes "metadata" ∷ codes "labels" ∷ codes l ∷ []

abbrev options : List (List Filter) → List Sort → ListOptions
options filters sorts = record {
  filters = filters;
  projects_or_namespaces = [];
  sort_list = sorts;
  pagination = record { page_size = pos 10; page = pos 2 };
  revision = [];
}

abbrev filters : List (List Filter)
filters =
    (record {
      fields = codes "metadata" ∷ codes "queryField1" ∷ [];
      matches = codes "toys" ∷ [];
      op = op_eq;
      is_partial = true;
    }
      ∷ record {
        fields = label "jamb";
        matches = codes "a" ∷ codes "b" ∷ [];
        op = op_in;
        is_partial = false;
      }
      ∷ [])
    ∷ []

abbrev sorts : List Sort
sorts = record { sort_fields = label "unbound"; order = asc; sort_as_ip = false } ∷ []

construct_query-AreBound_example : Builds AreBound (
    construct_query listed read_number indexed name true
      (codes "7")
      (options filters sorts)
      (passthrough_partitions listed)
      [])
unfolding marks
construct_query-AreBound_example =
    construct_query-AreBound listed read_number indexed name (refl, (refl, tt)) refl true
      (codes "7") (options filters sorts) (passthrough_partitions listed) []
      ((tt, (omega arith, tt)), tt)

construct_query-IsSafe_example : IsSafe (
    construct_query listed read_number indexed name true
      (codes "7")
      (options filters sorts)
      (passthrough_partitions listed)
      [])
unfolding str_beq
construct_query-IsSafe_example =
    construct_query-IsSafe listed read_number indexed name true (codes "7") (options filters sorts)
      (passthrough_partitions listed) [] (((refl, omega arith), ((tt, tt), tt)), tt) tt

abbrev no_page : ListOptions
no_page = record (options [] sorts) { pagination = record { page_size = pos 0; page = pos 1 } }

sorted_text : Str
sorted_text =
    codes
      "WITH lt1(key, value) AS (\nSELECT key, value FROM \"something_labels\"\n  WHERE label = ?\n)\nSELECT o.object, o.objectnonce, o.dekid FROM \"something\" o\n  JOIN \"something_fields\" f ON o.key = f.key\n  LEFT OUTER JOIN lt1 ON o.key = lt1.key\n  WHERE\n    (FALSE)\n  ORDER BY lt1.value ASC NULLS LAST"

sorted_query :
    construct_query listed read_number indexed name false (codes "7") no_page [] []
    ≡ built (record {
      query = sorted_text;
      params = text (codes "unbound") ∷ [];
      count_query = [];
      count_params = [];
      limit = pos 0;
      offset = pos 0;
    })
unfolding construct_query get_unbound_sort_labels sort_labels bind_all check_revision counted_query
    all_label_joins filter_clauses projects_clauses project_joins order_by each lookup insert
    with_tables with_parts with_joins select_clause paginate sorted_text cat joined join digits
    where_clauses partition_clauses str_beq any
sorted_query = refl

-- A filter on the labels without a label.
unnamed_label :
    construct_query listed read_number indexed name true
      (codes "7")
      (options
        ((record {
          fields = codes "metadata" ∷ codes "labels" ∷ [];
          matches = codes "x" ∷ [];
          op = op_eq;
          is_partial = false;
        }
            ∷ [])
          ∷ [])
        [])
      []
      []
    ≡ crash
unfolding construct_query get_unbound_sort_labels check_revision counted_query all_label_joins
    label_joins str_beq
unnamed_label = refl
