-- ===== src/Queries/Filters.antt =====
-- The clauses of the filters: getFieldFilter, getLabelFilter, and those of projects and namespaces, in
-- pkg/sqlcache/informer/listoption_indexer.go. strconv.ParseFloat is a parameter.
pub mod Placeholders
pub mod Labels
use steve.Common.{
  ℕ, zero, suc, ◌+◌, ◌-◌, Str, str_eq, ◌==◌, codes, Bool, true, false, ◌&&◌, ◌||◌, not, List, [],
  ◌∷◌, ◌++◌, Option, none, some, map, eqb, leb, ltb, length, if◌then◌else◌,
}
use steve.Common.Maps.{lookup}
use steve.Common.Numbers.{ℤ}
use steve.Options.Types.{
  Op, op_eq, op_not_eq, op_exists, op_not_exists, op_in, op_not_in, op_lt, op_gt, Filter, OrFilter,
}
use steve.Queries.Text.{cat, join, repeat, decimal}
use steve.Queries.Columns.{get_valid_field_entry}

-- A parameter of a query.
pub data Param (F : Type 0) : Type 0 where
  text : Str → Param F
  float : F → Param F
  int : ℤ → Param F

pub data QueryError : Type 0 where
  invalid_column null_test bad_float no_join_index unknown_op bad_projects_op bad_revision
        unknown_revision :
      QueryError

-- `crash` is the panic of an index out of range.
pub data Built {ℓ} (A : Type ℓ) : Type ℓ where
  built : A → Built A
  rejected : QueryError → Built A
  crash : Built A

infixl 5 ◌>>=◌
abbrev pub ◌>>=◌ {ℓ κ} : {A : Type ℓ} {B : Type κ} → Built A → (A → Built B) → Built B
built a >>= f = f a
rejected e >>= f = rejected e
crash >>= f = crash

abbrev pub or_rejected {ℓ} : {A : Type ℓ} → QueryError → Option A → Built A
or_rejected e none = rejected e
or_rejected e (some a) = built a

abbrev pub or_crash {ℓ} : {A : Type ℓ} → Option A → Built A
or_crash none = crash
or_crash (some a) = built a

-- A clause with its parameters.
pub record Clause (F : Type 0) : Type 0 where
  pub sql : Str
  pub params : List (Param F)

-- strings.ReplaceAll of one byte.
unfoldable pub replace_byte : ℕ → Str → Str → Str
replace_byte b new [] = []
replace_byte b new (c ∷ s) =
    let rest = replace_byte b new s in if eqb c b then new ++ rest else c ∷ rest

unfoldable pub format_match : Bool → Str → Str
unfolding replace_byte cat
format_match is_partial match =
    let escaped =
      replace_byte b'%' (codes "\\%")
        (replace_byte b'_' (codes "\\_") (replace_byte b'\\' (codes "\\\\") match)) in
    if is_partial then cat (codes "%" ∷ escaped ∷ codes "%" ∷ []) else escaped

abbrev pub first : List Str → Built Str
first [] = crash
first (m ∷ matches) = built m

abbrev pub third : List Str → Built Str
third [] = crash
third (a ∷ []) = crash
third (a ∷ (b ∷ [])) = crash
third (a ∷ (b ∷ (c ∷ rest))) = built c

-- (?, ?) for so many matches, or ().
unfoldable pub targets : List Str → Str
targets [] = codes "()"
targets (m ∷ matches) = cat (codes "(?" ∷ repeat (codes ", ?") (length matches) ∷ codes ")" ∷ [])

-- The same of getLabelFilter, which is (?) for none.
unfoldable pub label_targets : List Str → Str
label_targets [] = codes "(?)"
label_targets (m ∷ matches) =
    cat (codes "(?" ∷ repeat (codes ", ?") (length matches) ∷ codes ")" ∷ [])

abbrev pub escape_of : Bool → Str
escape_of is_partial = if is_partial then codes " ESCAPE '\\'" else []

abbrev pub equals : Bool → Str
equals is_partial = if is_partial then codes "LIKE" else codes "="

abbrev pub differs : Bool → Str
differs is_partial = if is_partial then codes "NOT LIKE" else codes "!="

abbrev pub is_label_field : List Str → Bool
is_label_field [] = false
is_label_field (a ∷ []) = false
is_label_field (a ∷ (b ∷ rest)) = (a == codes "metadata") && (b == codes "labels")

module _ {F : Type 0} (parse_float : Str → Option F) (indexed_fields : List Str)
    (db_name : Str) where
  abbrev pub texts : List Str → List (Param F)
  texts matches = map text matches

  abbrev pub compared : Str → Str → List Str → Built (Clause F)
  compared left symbol matches = do
    match ← first matches
    target ← or_rejected bad_float (parse_float match)
    built (record {
      sql = cat (left ∷ codes " " ∷ symbol ∷ codes " ?" ∷ []);
      params = float target ∷ [];
    })

  abbrev pub matched_by : Str → Str → Bool → List Str → Built (Clause F)
  matched_by left op is_partial matches = do
    match ← first matches
    built (record {
      sql = cat (left ∷ codes " " ∷ op ∷ codes " ?" ∷ escape_of is_partial ∷ []);
      params = text (format_match is_partial match) ∷ [];
    })

  abbrev pub field_clause : Str → Op → Bool → List Str → Built (Clause F)
  field_clause entry op_eq is_partial matches =
      matched_by entry (equals is_partial) is_partial matches
  field_clause entry op_not_eq is_partial matches =
      matched_by entry (differs is_partial) is_partial matches
  field_clause entry op_lt is_partial matches = compared entry (codes "<") matches
  field_clause entry op_gt is_partial matches = compared entry (codes ">") matches
  field_clause entry op_exists is_partial matches = rejected null_test
  field_clause entry op_not_exists is_partial matches = rejected null_test
  field_clause entry op_in is_partial matches =
      built
        (record { sql = cat (entry ∷ codes " IN " ∷ targets matches ∷ []); params = texts matches })
  field_clause entry op_not_in is_partial matches = built (record {
    sql = cat (entry ∷ codes " NOT IN " ∷ targets matches ∷ []);
    params = texts matches;
  })

  unfoldable pub get_field_filter : Filter → Str → Built (Clause F)
  get_field_filter f prefix = do
    entry ← or_rejected invalid_column (get_valid_field_entry indexed_fields prefix f.fields)
    field_clause entry f.op f.is_partial f.matches

  abbrev pub projects_field_clause : Str → Op → List Str → Built (Clause F)
  projects_field_clause entry op_in matches = field_clause entry op_in false matches
  projects_field_clause entry op_not_in matches = field_clause entry op_not_in false matches
  projects_field_clause entry op_eq matches = rejected unknown_op
  projects_field_clause entry op_not_eq matches = rejected unknown_op
  projects_field_clause entry op_lt matches = rejected unknown_op
  projects_field_clause entry op_gt matches = rejected unknown_op
  projects_field_clause entry op_exists matches = rejected unknown_op
  projects_field_clause entry op_not_exists matches = rejected unknown_op

  unfoldable pub get_projects_field_filter : Filter → Built (Clause F)
  get_projects_field_filter f = do
    entry ← or_rejected invalid_column (get_valid_field_entry indexed_fields (codes "nsf") f.fields)
    projects_field_clause entry f.op f.matches

  -- The join table of a label.
  abbrev pub lt : ℕ → Str
  lt index = cat (codes "lt" ∷ decimal index ∷ [])

  unfoldable pub not_exists_clause : ℕ → Str
  not_exists_clause index = cat (
      codes "o.key NOT IN (SELECT o1.key FROM \""
      ∷ db_name
      ∷ codes "\" o1\n\t\tJOIN \""
      ∷ db_name
      ∷ codes "_fields\" f1 ON o1.key = f1.key\n\t\tLEFT OUTER JOIN \""
      ∷ db_name
      ∷ codes "_labels\" "
      ∷ lt index
      ∷ codes "i1 ON o1.key = "
      ∷ lt index
      ∷ codes "i1.key\n\t\tWHERE "
      ∷ lt index
      ∷ codes "i1.label = ?)"
      ∷ [])

  -- lt.label = ? AND lt.value
  abbrev pub label_value : ℕ → Str
  label_value index = cat (lt index ∷ codes ".label = ? AND " ∷ lt index ∷ codes ".value" ∷ [])

  abbrev pub labelled : Str → Clause F → Clause F
  labelled label c = record { sql = c.sql; params = text label ∷ c.params }

  -- A label that is missing, or has such a value.
  abbrev pub or_missing : ℕ → Str → Clause F → Clause F
  or_missing index label c = record {
    sql = cat (codes "(" ∷ not_exists_clause index ∷ codes ") OR (" ∷ c.sql ∷ codes ")" ∷ []);
    params = text label ∷ c.params;
  }

  abbrev pub label_clause : ℕ → Str → Op → Bool → List Str → Built (Clause F)
  label_clause index label op_eq is_partial matches = do
    c ← matched_by (label_value index) (equals is_partial) is_partial matches
    built (labelled label c)
  label_clause index label op_not_eq is_partial matches = do
    c ← matched_by (label_value index) (differs is_partial) is_partial matches
    built (or_missing index label (labelled label c))
  label_clause index label op_lt is_partial matches = do
    c ← compared (label_value index) (codes "<") matches
    built (labelled label c)
  label_clause index label op_gt is_partial matches = do
    c ← compared (label_value index) (codes ">") matches
    built (labelled label c)
  label_clause index label op_exists is_partial matches =
      built (record { sql = cat (lt index ∷ codes ".label = ?" ∷ []); params = text label ∷ [] })
  label_clause index label op_not_exists is_partial matches =
      built (record { sql = not_exists_clause index; params = text label ∷ [] })
  label_clause index label op_in is_partial matches = built (record {
    sql = cat (label_value index ∷ codes " IN " ∷ label_targets matches ∷ []);
    params = text label ∷ texts matches;
  })
  label_clause index label op_not_in is_partial matches = built (
      or_missing index label (record {
        sql = cat (label_value index ∷ codes " NOT IN " ∷ label_targets matches ∷ []);
        params = text label ∷ texts matches;
      }))

  unfoldable pub get_label_filter : ℕ → Filter → Built (Clause F)
  unfolding not_exists_clause
  get_label_filter index f = do
    label ← third f.fields
    label_clause index label f.op f.is_partial f.matches

  unfoldable pub namespace_missing : ℕ → Str
  namespace_missing index = cat (
      codes "(o.key NOT IN (SELECT o1.key FROM \""
      ∷ db_name
      ∷ codes "\" o1\n\t\tJOIN \""
      ∷ db_name
      ∷ codes
          "_fields\" f1 ON o1.key = f1.key\n\t\tLEFT OUTER JOIN \"_v1_Namespace_fields\" nsf1 ON f1.\"metadata.namespace\" = nsf1.\"metadata.name\"\n\t\tLEFT OUTER JOIN \"_v1_Namespace_labels\" "
      ∷ lt index
      ∷ codes "i1 ON nsf1.key = "
      ∷ lt index
      ∷ codes "i1.key\n\t\tWHERE "
      ∷ lt index
      ∷ codes "i1.label = ?))"
      ∷ [])

  abbrev pub projects_label_clause : ℕ → Str → Op → List Str → Built (Clause F)
  projects_label_clause index label op_in matches = built (record {
    sql = cat (label_value index ∷ codes " IN " ∷ targets matches ∷ []);
    params = text label ∷ texts matches;
  })
  projects_label_clause index label op_not_in matches = built (record {
    sql = cat (
        codes "("
        ∷ label_value index
        ∷ codes " NOT IN "
        ∷ targets matches
        ∷ codes ") OR "
        ∷ namespace_missing index
        ∷ []);
    params = (text label ∷ texts matches) ++ text label ∷ [];
  })
  projects_label_clause index label op_eq matches = rejected unknown_op
  projects_label_clause index label op_not_eq matches = rejected unknown_op
  projects_label_clause index label op_lt matches = rejected unknown_op
  projects_label_clause index label op_gt matches = rejected unknown_op
  projects_label_clause index label op_exists matches = rejected unknown_op
  projects_label_clause index label op_not_exists matches = rejected unknown_op

  unfoldable pub get_projects_label_filter : ℕ → Filter → Built (Clause F)
  unfolding namespace_missing
  get_projects_label_filter index f = do
    label ← third f.fields
    projects_label_clause index label f.op f.matches

  -- internLabel without a next number
  abbrev pub label_index : Str → List (Str × ℕ) → Built ℕ
  label_index label tables = or_rejected no_join_index (lookup label tables)

  -- One filter of buildORClauseFromFilters.
  unfoldable pub or_filter_clause : List (Str × ℕ) → Filter → Built (Clause F)
  or_filter_clause tables f =
      if is_label_field f.fields
      then (third f.fields >>= λ label.
          label_index label tables >>= λ index. get_label_filter index f)
      else get_field_filter f (codes "f")

  unfoldable pub projects_filter_clause : List (Str × ℕ) → Filter → Built (Clause F)
  projects_filter_clause tables f =
      if is_label_field f.fields
      then (third f.fields >>= λ label.
          label_index label tables >>= λ index. get_projects_label_filter index f)
      else get_projects_field_filter f
