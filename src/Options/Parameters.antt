-- ===== src/Options/Parameters.antt =====
-- ParseQuery of pkg/stores/sqlpartition/listprocessor/processor.go: from the parameters of a request
-- to its list options.
pub mod Answers
pub mod Matches
pub mod Total
use steve.Common.{
  ℕ, Str, codes, str_eq, ◌==◌, Bool, true, false, ◌&&◌, not, List, [], ◌∷◌, ◌++◌, Option, none,
  some, any, eqb, if◌then◌else◌, foldl,
}
use steve.Common.Numbers.{ℤ, pos, parse_int}
use steve.Common.Sets.{StringSets}
use steve.Query.Token.{
  Operator, unset, does_not_exist, equals, double_equals, partial_equals, in_set, not_equals,
  not_partial_equals, not_in, exists, greater_than, less_than,
}
use steve.Query.Requirement.{Requirement}
use steve.Query.Outcome.{ParseError, Outcome, ok, err, panic, stuck}
use steve.Query.Parser.{parse_to_requirements}
use steve.Options.Types.{
  Op, op_eq, op_not_eq, op_exists, op_not_exists, op_in, op_not_in, op_lt, op_gt, Filter, OrFilter,
  SortOrder, asc, desc, Sort, Pagination, ListOptions, Parameters, Refusal, bad_filter, unknown_op,
  bad_revision, Answer, answer, refused, crash, endless, ◌>>=◌,
}
use steve.Options.Fields.{split_on, closed, safe_split, split_query}

-- k8sOpToRancherOp with its map; `none` is the error.
unfoldable pub k8s_op_to_rancher_op : Operator → Option (Op × Bool)
k8s_op_to_rancher_op equals = some (op_eq, false)
k8s_op_to_rancher_op double_equals = some (op_eq, false)
k8s_op_to_rancher_op partial_equals = some (op_eq, true)
k8s_op_to_rancher_op not_equals = some (op_not_eq, false)
k8s_op_to_rancher_op not_partial_equals = some (op_not_eq, true)
k8s_op_to_rancher_op in_set = some (op_in, false)
k8s_op_to_rancher_op not_in = some (op_not_in, false)
k8s_op_to_rancher_op exists = some (op_exists, false)
k8s_op_to_rancher_op does_not_exist = some (op_not_exists, false)
k8s_op_to_rancher_op less_than = some (op_lt, false)
k8s_op_to_rancher_op greater_than = some (op_gt, false)
k8s_op_to_rancher_op unset = none

-- The argument of a sort key that matches `^ip\(.+\)$`.
unfoldable pub ip_argument : Str → Option Str
ip_argument (i ∷ p ∷ o ∷ s) =
    if (eqb i b'i' && (eqb p b'p' && eqb o b'(')) && not (any (λ c. eqb c 10) s)
    then closed b')' s
    else none
ip_argument _ = none

-- A sort key without its sign.
unfoldable pub sort_directive : Str → SortOrder → Bool → Answer (List Sort)
sort_directive [] order as_ip = answer []
sort_directive (c ∷ field) order as_ip = elim (safe_split (c ∷ field)) [
  | none ↦ crash
  | some fields ↦ answer (record { sort_fields = fields; order = order; sort_as_ip = as_ip } ∷ [])
]

unfoldable pub signed_directive : Str → Bool → Answer (List Sort)
signed_directive [] as_ip = answer []
signed_directive (c ∷ field) as_ip =
    if eqb c b'-' then sort_directive field desc as_ip else sort_directive (c ∷ field) asc as_ip

unfoldable pub parse_sort_part : Str → Answer (List Sort)
parse_sort_part sort_part = elim (ip_argument sort_part) [
  | none ↦ signed_directive sort_part false
  | some field ↦ signed_directive field true
]

unfoldable pub parse_sort_parts : List Str → Answer (List Sort)
parse_sort_parts [] = answer []
parse_sort_parts (sort_part ∷ sort_parts) = do
  directive ← parse_sort_part sort_part
  directives ← parse_sort_parts sort_parts
  answer (directive ++ directives)

unfoldable pub parse_sort : Str → Answer (List Sort)
parse_sort sort_keys =
    if sort_keys == [] then answer [] else parse_sort_parts (split_on b',' sort_keys)

-- strconv.Atoi with what stands in for an error.
abbrev pub atoi_or : ℕ → Str → ℤ
atoi_or default s = elim (parse_int s) [ none ↦ pos default | some n ↦ n ]

unfoldable pub parse_pagination : Parameters → Pagination
parse_pagination q = record { page_size = atoi_or 0 q.pagesize; page = atoi_or 1 q.page_number }

unfoldable pub parse_namespace_or_project_filters : Str → Op → OrFilter
parse_namespace_or_project_filters proj_or_ns op = elim (split_on b',' proj_or_ns) [
  | [] ↦ []
  | n ∷ ns ↦
      record {
        fields = codes "metadata" ∷ codes "name" ∷ [];
        matches = n ∷ ns;
        op = op;
        is_partial = false;
      }
      ∷ record {
        fields = codes "metadata" ∷ codes "labels" ∷ codes "field.cattle.io/projectId" ∷ [];
        matches = n ∷ ns;
        op = op;
        is_partial = false;
      }
      ∷ []
]

-- What the filter of projects and namespaces adds for the kind Namespace.
unfoldable pub add_namespace_filter : List OrFilter → OrFilter → Op → List OrFilter
add_namespace_filter filters (by_name ∷ by_project ∷ []) op_in =
    filters ++ (by_name ∷ by_project ∷ []) ∷ []
add_namespace_filter filters (by_name ∷ by_project ∷ []) _ =
    filters ++ ((by_name ∷ []) ∷ (by_project ∷ []) ∷ [])
add_namespace_filter filters _ op = filters

-- The value of projectsornamespaces, or of its negation, and the operator for it.
unfoldable pub projects_parameter : Parameters → Str × Op
projects_parameter q =
    if not (q.projectsornamespaces == [])
    then (q.projectsornamespaces, op_in)
    else if not (q.not_projectsornamespaces == [])
    then (q.not_projectsornamespaces, op_not_in)
    else ([], op_in)

unfoldable pub add_projects : Parameters → Str → ListOptions → ListOptions
add_projects q gv_kind opts =
    let proj_or_ns = (projects_parameter q).0 in
    let op = (projects_parameter q).1 in
    let made = parse_namespace_or_project_filters proj_or_ns op in
    if proj_or_ns == []
    then opts
    else if gv_kind == codes "Namespace"
    then record opts { filters = add_namespace_filter opts.filters made op }
    else record opts { projects_or_namespaces = made }

unfoldable pub add_revision : Str → ListOptions → Answer ListOptions
add_revision revision opts = if revision == [] then answer opts else elim (parse_int revision) [
  | none ↦ refused (bad_revision revision)
  | some n ↦ answer (record opts { revision = revision })
]

module _ (sets : StringSets) where
  open sets use {new, insert, list}

  -- Requirement.Values
  unfoldable pub values : Requirement → List Str
  values r = list (foldl (λ ret v. insert v ret) new r.str_values)

  unfoldable pub k8s_requirement_to_or_filter : Requirement → Answer Filter
  k8s_requirement_to_or_filter requirement = elim (k8s_op_to_rancher_op requirement.operator) [
    | none ↦ refused unknown_op
    | some (op, use_partial_match) ↦ answer (record {
      fields = split_query requirement.key;
      matches = values requirement;
      op = op;
      is_partial = use_partial_match;
    })
  ]

  unfoldable pub or_filter : List Requirement → Answer OrFilter
  or_filter [] = answer []
  or_filter (requirement ∷ requirements) = do
    f ← k8s_requirement_to_or_filter requirement
    fs ← or_filter requirements
    answer (f ∷ fs)

  unfoldable pub parse_filter : Str → Answer OrFilter
  parse_filter filters = elim (parse_to_requirements sets filters) [
    | ok requirements r ↦ or_filter requirements
    | err e ↦ refused (bad_filter e)
    | panic ↦ crash
    | stuck ↦ endless
  ]

  unfoldable pub parse_filters : List Str → Answer (List OrFilter)
  parse_filters [] = answer []
  parse_filters (filters ∷ filter_params) = do
    f ← parse_filter filters
    fs ← parse_filters filter_params
    answer (f ∷ fs)

  unfoldable pub parse_query : Parameters → Str → Answer ListOptions
  parse_query q gv_kind = do
    filter_opts ← parse_filters q.filter
    directives ← parse_sort q.sort
    add_revision q.wanted_revision (
        add_projects q gv_kind (record {
          filters = filter_opts;
          projects_or_namespaces = [];
          sort_list = directives;
          pagination = parse_pagination q;
          revision = [];
        }))
