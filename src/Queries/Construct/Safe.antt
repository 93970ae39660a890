-- ===== src/Queries/Construct/Safe.antt =====
-- constructQuery without a panic.
use steve.Common.{
  ℕ, ◌<◌, ◌≡◌, Str, str_eq, codes, Bool, true, false, List, [], ◌∷◌, Option, none, some, length,
  arith, Bool-cases, inl, inr,
}
use steve.Common.Maps.{lookup}
use steve.Common.Sets.{StringSets}
use steve.Options.Types.{
  Op, op_eq, op_not_eq, op_exists, op_not_exists, op_in, op_not_in, op_lt, op_gt, Filter,
}
use steve.Queries.Columns.{get_valid_field_entry}
use steve.Queries.Filters.{
  QueryError, Built, built, rejected, crash, ◌>>=◌, or_rejected, third, is_label_field, label_index,
  or_filter_clause, projects_filter_clause,
}
use steve.Queries.Joined.{each}
use steve.Queries.Construct.{Tables}
use steve.Queries.Construct.Bound.{All}
use steve.Queries.Filters.{
  compared, matched_by, field_clause, get_field_filter, projects_field_clause,
  get_projects_field_filter, label_clause, get_label_filter, projects_label_clause,
  get_projects_label_filter,
}

abbrev pub IsSafe : {A : Type 0} → Built A → Type 0
IsSafe (built a) = Unit
IsSafe (rejected e) = Unit
IsSafe crash = ⊥

-- The field of a label filter has its label.
abbrev pub IsNamed : List Str → Type 0
IsNamed (a ∷ (b ∷ [])) = is_label_field (a ∷ (b ∷ [])) ≡ false
IsNamed (a ∷ (b ∷ (c ∷ rest))) = Unit
IsNamed (a ∷ []) = Unit
IsNamed [] = Unit

-- A comparison has a value.
abbrev pub IsCompared : Op → List Str → Type 0
IsCompared op_eq matches = 0 < length matches
IsCompared op_not_eq matches = 0 < length matches
IsCompared op_lt matches = 0 < length matches
IsCompared op_gt matches = 0 < length matches
IsCompared op_in matches = Unit
IsCompared op_not_in matches = Unit
IsCompared op_exists matches = Unit
IsCompared op_not_exists matches = Unit

abbrev pub IsComplete : Filter → Type 0
IsComplete f = IsNamed f.fields × IsCompared f.op f.matches

pub Safe-bind :
    {A B : Type 0} (b : Built A) (f : A → Built B)
    → IsSafe b
    → ((a : A) → IsSafe (f a))
    → IsSafe (b >>= f)
Safe-bind (built a) f h k = k a
Safe-bind (rejected e) f h k = tt
Safe-bind crash f h k = h

pub Safe-or_rejected : {A : Type 0} (e : QueryError) (o : Option A) → IsSafe (or_rejected e o)
Safe-or_rejected e none = tt
Safe-or_rejected e (some a) = tt

pub Safe-each :
    {A B : Type 0} (P : A → Type 0) (f : A → Built B) (xs : List A)
    → ((a : A) → P a → IsSafe (f a))
    → All P xs
    → IsSafe (each f xs)
unfolding each
Safe-each P f [] h p = tt
Safe-each P f (x ∷ xs) h (p, ps) =
    Safe-bind (f x) _ (h x p) λ b. Safe-bind (each f xs) _ (Safe-each P f xs h ps) λ bs. tt

pub third-IsSafe :
    (fields : List Str) → IsNamed fields → is_label_field fields ≡ true → IsSafe (third fields)
third-IsSafe [] h l = absurd cc
third-IsSafe (a ∷ []) h l = absurd cc
third-IsSafe (a ∷ (b ∷ [])) h l = absurd cc
third-IsSafe (a ∷ (b ∷ (c ∷ rest))) h l = tt

module _ (sets : StringSets) {F : Type 0} (parse_float : Str → Option F) (indexed_fields : List Str)
    (db_name : Str) where
  compared-IsSafe :
      (left symbol : Str) (matches : List Str)
      → 0 < length matches
      → IsSafe (compared parse_float indexed_fields db_name left symbol matches)
  compared-IsSafe left symbol [] h = absurd (omega arith)
  compared-IsSafe left symbol (m ∷ matches) h =
      Safe-bind (or_rejected QueryError.bad_float (parse_float m)) _
        (Safe-or_rejected QueryError.bad_float (parse_float m)) λ t. tt

  matched-IsSafe :
      (left op : Str) (b : Bool) (matches : List Str)
      → 0 < length matches
      → IsSafe (matched_by parse_float indexed_fields db_name left op b matches)
  matched-IsSafe left op b [] h = absurd (omega arith)
  matched-IsSafe left op b (m ∷ matches) h = tt

  field-IsSafe :
      (entry : Str) (op : Op) (b : Bool) (matches : List Str)
      → IsCompared op matches
      → IsSafe (field_clause parse_float indexed_fields db_name entry op b matches)
  field-IsSafe entry op_eq b matches h = matched-IsSafe entry _ b matches h
  field-IsSafe entry op_not_eq b matches h = matched-IsSafe entry _ b matches h
  field-IsSafe entry op_lt b matches h = compared-IsSafe entry _ matches h
  field-IsSafe entry op_gt b matches h = compared-IsSafe entry _ matches h
  field-IsSafe entry op_in b matches h = tt
  field-IsSafe entry op_not_in b matches h = tt
  field-IsSafe entry op_exists b matches h = tt
  field-IsSafe entry op_not_exists b matches h = tt

  label-IsSafe :
      (index : ℕ) (label : Str) (op : Op) (b : Bool) (matches : List Str)
      → IsCompared op matches
      → IsSafe (label_clause parse_float indexed_fields db_name index label op b matches)
  label-IsSafe index label op_eq b matches h =
      Safe-bind _ _ (matched-IsSafe _ _ b matches h) λ c. tt
  label-IsSafe index label op_not_eq b matches h =
      Safe-bind _ _ (matched-IsSafe _ _ b matches h) λ c. tt
  label-IsSafe index label op_lt b matches h = Safe-bind _ _ (compared-IsSafe _ _ matches h) λ c. tt
  label-IsSafe index label op_gt b matches h = Safe-bind _ _ (compared-IsSafe _ _ matches h) λ c. tt
  label-IsSafe index label op_in b matches h = tt
  label-IsSafe index label op_not_in b matches h = tt
  label-IsSafe index label op_exists b matches h = tt
  label-IsSafe index label op_not_exists b matches h = tt

  pub or_filter-IsSafe :
      (tables : Tables) (f : Filter)
      → IsComplete f
      → IsSafe (or_filter_clause parse_float indexed_fields db_name tables f)
  unfolding or_filter_clause get_label_filter get_field_filter
  or_filter-IsSafe tables f (named, h) = elim (Bool-cases (is_label_field f.fields)) [
    | inl label ↦ rw label (
        Safe-bind (third f.fields) _ (third-IsSafe f.fields named label) λ name.
          Safe-bind (label_index parse_float indexed_fields db_name name tables) _
            (Safe-or_rejected _ (lookup name tables))
            λ index.
              Safe-bind (third f.fields) _ (third-IsSafe f.fields named label)
                λ l. label-IsSafe index l f.op f.is_partial f.matches h)
    | inr field ↦ rw field (
        Safe-bind
          (or_rejected QueryError.invalid_column
            (get_valid_field_entry indexed_fields (codes "f") f.fields))
          _ (Safe-or_rejected _ _) λ entry. field-IsSafe entry f.op f.is_partial f.matches h)
  ]

  projects_field-IsSafe :
      (entry : Str) (op : Op) (matches : List Str)
      → IsSafe (projects_field_clause parse_float indexed_fields db_name entry op matches)
  projects_field-IsSafe entry op_in matches = tt
  projects_field-IsSafe entry op_not_in matches = tt
  projects_field-IsSafe entry op_eq matches = tt
  projects_field-IsSafe entry op_not_eq matches = tt
  projects_field-IsSafe entry op_lt matches = tt
  projects_field-IsSafe entry op_gt matches = tt
  projects_field-IsSafe entry op_exists matches = tt
  projects_field-IsSafe entry op_not_exists matches = tt

  projects_label-IsSafe :
      (index : ℕ) (label : Str) (op : Op) (matches : List Str)
      → IsSafe (projects_label_clause parse_float indexed_fields db_name index label op matches)
  projects_label-IsSafe index label op_in matches = tt
  projects_label-IsSafe index label op_not_in matches = tt
  projects_label-IsSafe index label op_eq matches = tt
  projects_label-IsSafe index label op_not_eq matches = tt
  projects_label-IsSafe index label op_lt matches = tt
  projects_label-IsSafe index label op_gt matches = tt
  projects_label-IsSafe index label op_exists matches = tt
  projects_label-IsSafe index label op_not_exists matches = tt

  pub projects_filter-IsSafe :
      (tables : Tables) (f : Filter)
      → IsNamed f.fields
      → IsSafe (projects_filter_clause parse_float indexed_fields db_name tables f)
  unfolding projects_filter_clause get_projects_label_filter get_projects_field_filter
  projects_filter-IsSafe tables f named = elim (Bool-cases (is_label_field f.fields)) [
    | inl label ↦ rw label (
        Safe-bind (third f.fields) _ (third-IsSafe f.fields named label) λ name.
          Safe-bind (label_index parse_float indexed_fields db_name name tables) _
            (Safe-or_rejected _ (lookup name tables))
            λ index.
              Safe-bind (third f.fields) _ (third-IsSafe f.fields named label)
                λ l. projects_label-IsSafe index l f.op f.matches)
    | inr field ↦ rw field (
        Safe-bind
          (or_rejected QueryError.invalid_column
            (get_valid_field_entry indexed_fields (codes "nsf") f.fields))
          _ (Safe-or_rejected _ _) λ entry. projects_field-IsSafe entry f.op f.matches)
  ]
