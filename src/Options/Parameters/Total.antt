-- ===== src/Options/Parameters/Total.antt =====
-- All answers of ParseQuery.
use steve.Common.{
  Str, codes, str_eq, ◌==◌, ◌≡◌, ◌≢◌, false, List, [], ◌∷◌, ◌++◌, arith, Bool-cases, inl, inr,
}
use steve.Common.Sets.{StringSets}
use steve.Options.Fields.{split_on}
use steve.Options.Fields.Splits.{has_byte}
use steve.Options.Types.{Op, op_in, OrFilter, ListOptions, Parameters}
use steve.Options.Parameters.{
  parse_sort, add_projects, parse_filters, parse_query, parse_namespace_or_project_filters,
  add_namespace_filter, projects_parameter,
}
use steve.Options.Parameters.Answers.{
  IsAnswered, IsAnswered-bind, Any, parse_sort-IsAnswered, add_revision-IsAnswered,
}
use steve.Options.Parameters.Matches.{
  HasMatches, AllFilters, AllOrFilters, parse_filters-IsAnswered,
}

AllOrFilters-append :
    (l m : List OrFilter) → AllOrFilters l → AllOrFilters m → AllOrFilters (l ++ m)
AllOrFilters-append [] m h k = k
AllOrFilters-append (fs ∷ l) m (h, hs) k = (h, AllOrFilters-append l m hs k)

add_namespace_filter-AllOrFilters :
    (l : List OrFilter) (made : OrFilter) (o : Op)
    → AllOrFilters l
    → AllFilters made
    → AllOrFilters (add_namespace_filter l made o)
unfolding add_namespace_filter
add_namespace_filter-AllOrFilters l [] o h k = h
add_namespace_filter-AllOrFilters l (f ∷ []) o h k = h
add_namespace_filter-AllOrFilters l (f ∷ g ∷ []) op_in h k =
    AllOrFilters-append l ((f ∷ g ∷ []) ∷ []) h (k, tt)
add_namespace_filter-AllOrFilters l (f ∷ g ∷ []) o h (kf, (kg, u)) = ground (
  arith,
  AllOrFilters-append l ((f ∷ []) ∷ (g ∷ []) ∷ []) h ((kf, tt), ((kg, tt), tt)),
  AllOrFilters-append l ((f ∷ g ∷ []) ∷ []) h ((kf, (kg, tt)), tt),
)
add_namespace_filter-AllOrFilters l (f ∷ g ∷ e ∷ fs) o h k = h

-- Both operators for projects and namespaces compare with some match.
projects-HasMatches :
    (q : Parameters) (ms : List Str) → ms ≢ [] → HasMatches (projects_parameter q).1 ms
unfolding projects_parameter
projects-HasMatches q ms h = ground (arith, h)

made-AllFilters :
    (s : Str) (o : Op)
    → ((ms : List Str) → ms ≢ [] → HasMatches o ms)
    → AllFilters (parse_namespace_or_project_filters s o)
unfolding parse_namespace_or_project_filters
made-AllFilters s o h =
    elim (split_on b',' s)
      as (λ l. AllFilters (elim l [
        | [] ↦ []
        | n ∷ ns ↦
            record {
              fields = codes "metadata" ∷ codes "name" ∷ [];
              matches = n ∷ ns;
              op = o;
              is_partial = false;
            }
            ∷ record {
              fields = codes "metadata" ∷ codes "labels" ∷ codes "field.cattle.io/projectId" ∷ [];
              matches = n ∷ ns;
              op = o;
              is_partial = false;
            }
            ∷ []
      ])) [ [] ↦ tt | n ∷ ns ↦ (h (n ∷ ns) (λ e. cc), (h (n ∷ ns) (λ e. cc), tt)) ]

abbrev pub FiltersMatch : ListOptions → Type 0
FiltersMatch o = AllOrFilters o.filters × AllFilters o.projects_or_namespaces

add_projects-FiltersMatch :
    (q : Parameters) (kind : Str) (o : ListOptions)
    → FiltersMatch o
    → FiltersMatch (add_projects q kind o)
unfolding add_projects
add_projects-FiltersMatch q kind o h =
    let given = (projects_parameter q).0 in
    let made = made-AllFilters given (projects_parameter q).1 (projects-HasMatches q) in
    elim (Bool-cases (given == [])) [
      | inl missing ↦ rw missing h
      | inr named ↦ elim (Bool-cases (kind == codes "Namespace")) [
        | inl namespaces ↦
            rw (named, namespaces)
              (add_namespace_filter-AllOrFilters o.filters _ (projects_parameter q).1 h.0 made, h.1)
        | inr others ↦ rw (named, others) (h.0, made)
      ]
    ]

module _ (sets : StringSets) where
  -- Without a bracket in the sort parameter, ParseQuery returns list options, or refuses a filter
  -- or the revision: it knows each operator that the parser returns, and does not panic. Each
  -- filter of the options compares with a value, but for the existence tests, which have none.
  pub parse_query_total :
      (q : Parameters) (gv_kind : Str)
      → has_byte b'[' q.sort ≡ false
      → IsAnswered FiltersMatch (parse_query sets q gv_kind)
  unfolding parse_query
  parse_query_total q gv_kind h =
      IsAnswered-bind AllOrFilters FiltersMatch (parse_filters sets q.filter) _
        (parse_filters-IsAnswered sets q.filter)
        (λ fs good.
          IsAnswered-bind Any FiltersMatch (parse_sort q.sort) _ (parse_sort-IsAnswered q.sort h)
            (λ ds u.
              let done = add_projects-FiltersMatch q gv_kind _ (good, tt) in
              add_revision-IsAnswered FiltersMatch q.wanted_revision _ done done))
