-- ===== src/Queries/Filters/Placeholders.antt =====
-- Each clause has a parameter for each of its placeholders.
use steve.Common.{
  ℕ, ◌+◌, ◌<◌, ◌≡◌, refl, Str, str_eq, codes, Bool, true, false, List, [], ◌∷◌, Option, none, some,
  length, arith,
}
use steve.Options.Types.{
  Op, op_eq, op_not_eq, op_exists, op_not_exists, op_in, op_not_in, op_lt, op_gt, Filter,
}
use steve.Queries.Text.{cat, marks, marks_all, marks-cat, marks-repeat}
use steve.Queries.Columns.{get_valid_field_entry}
use steve.Queries.Columns.Plain.{ArePlain, PlainEntry, entry-PlainEntry}
use steve.Queries.Filters.{
  float, QueryError, Built, built, rejected, crash, ◌>>=◌, or_rejected, Clause, targets,
  label_targets, escape_of, equals, differs, texts, compared, matched_by, field_clause,
  get_field_filter, projects_field_clause, get_projects_field_filter,
}

-- What is built has the property.
abbrev pub Builds {ℓ} : {A : Type ℓ} → (A → Type 0) → Built A → Type 0
Builds P (built a) = P a
Builds P (rejected e) = Unit
Builds P crash = Unit

-- Beside a text with so many placeholders.
abbrev pub IsBoundTo : {F : Type 0} → ℕ → Clause F → Type 0
IsBoundTo n c = marks c.sql ≡ n + length c.params

abbrev pub IsBound : {F : Type 0} → Clause F → Type 0
IsBound c = marks c.sql ≡ length c.params

-- A test of membership has values.
abbrev pub HasMatches : Op → List Str → Type 0
HasMatches op_in matches = 0 < length matches
HasMatches op_not_in matches = 0 < length matches
HasMatches op_eq matches = Unit
HasMatches op_not_eq matches = Unit
HasMatches op_lt matches = Unit
HasMatches op_gt matches = Unit
HasMatches op_exists matches = Unit
HasMatches op_not_exists matches = Unit

pub marks-targets : (matches : List Str) → marks (targets matches) ≡ length matches
unfolding targets marks marks_all
marks-targets [] = refl
marks-targets (m ∷ matches) =
    rw (targets, marks-cat _) (omega (arith, marks-repeat (length matches)))

pub marks-label_targets :
    (matches : List Str) → 0 < length matches → marks (label_targets matches) ≡ length matches
unfolding label_targets marks marks_all
marks-label_targets [] h = absurd (omega arith)
marks-label_targets (m ∷ matches) h =
    rw (label_targets, marks-cat _) (omega (arith, marks-repeat (length matches)))

escape_marks : (b : Bool) → marks (escape_of b) ≡ 0
unfolding marks
escape_marks true = refl
escape_marks false = refl

pub marks-equals : (b : Bool) → marks (equals b) ≡ 0
unfolding marks
marks-equals true = refl
marks-equals false = refl

pub marks-differs : (b : Bool) → marks (differs b) ≡ 0
unfolding marks
marks-differs true = refl
marks-differs false = refl

module _ {F : Type 0} (parse_float : Str → Option F) (indexed_fields : List Str)
    (db_name : Str) where
  pub length-texts :
      (matches : List Str)
      → length (texts parse_float indexed_fields db_name matches) ≡ length matches
  length-texts [] = refl
  length-texts (m ∷ matches) = omega (arith, length-texts matches)

  zero-IsBound : (b : Built (Clause F)) → Builds (IsBoundTo 0) b → Builds IsBound b
  zero-IsBound (built c) h = omega arith
  zero-IsBound (rejected e) h = tt
  zero-IsBound crash h = tt

  pub compared-IsBound :
      (left symbol : Str) (matches : List Str) (n : ℕ)
      → marks left ≡ n
      → marks symbol ≡ 0
      → Builds (IsBoundTo n) (compared parse_float indexed_fields db_name left symbol matches)
  unfolding marks marks_all
  compared-IsBound left symbol [] n p q = tt
  compared-IsBound left symbol (m ∷ matches) n p q = of_float (parse_float m)
    where
      of_float :
          (o : Option F)
          → Builds (IsBoundTo n) (do
            target ← or_rejected QueryError.bad_float o
            built (record {
              sql = cat (left ∷ codes " " ∷ symbol ∷ codes " ?" ∷ []);
              params = float target ∷ [];
            }))
      of_float none = tt
      of_float (some target) = rw (marks-cat _) (omega arith)

  pub matched-IsBound :
      (left op : Str) (b : Bool) (matches : List Str) (n : ℕ)
      → marks left ≡ n
      → marks op ≡ 0
      → Builds (IsBoundTo n) (matched_by parse_float indexed_fields db_name left op b matches)
  unfolding marks marks_all
  matched-IsBound left op b [] n p q = tt
  matched-IsBound left op b (m ∷ matches) n p q = rw (marks-cat _) (omega (arith, escape_marks b))

  module _ (plain : ArePlain indexed_fields) (plain_name : marks db_name ≡ 0) where
    field-IsBound :
        (entry : Str) (op : Op) (b : Bool) (matches : List Str)
        → marks entry ≡ 0
        → Builds IsBound (field_clause parse_float indexed_fields db_name entry op b matches)
    unfolding marks marks_all
    field-IsBound entry op_eq b [] p = tt
    field-IsBound entry op_eq b (m ∷ matches) p =
        omega (arith, matched-IsBound entry (equals b) b (m ∷ matches) 0 p (marks-equals b))
    field-IsBound entry op_not_eq b [] p = tt
    field-IsBound entry op_not_eq b (m ∷ matches) p =
        omega (arith, matched-IsBound entry (differs b) b (m ∷ matches) 0 p (marks-differs b))
    field-IsBound entry op_lt b matches p =
        zero-IsBound _ (compared-IsBound entry (codes "<") matches 0 p refl)
    field-IsBound entry op_gt b matches p =
        zero-IsBound _ (compared-IsBound entry (codes ">") matches 0 p refl)
    field-IsBound entry op_exists b matches p = tt
    field-IsBound entry op_not_exists b matches p = tt
    field-IsBound entry op_in b matches p =
        rw (marks-cat _) (omega (arith, marks-targets matches, length-texts matches))
    field-IsBound entry op_not_in b matches p =
        rw (marks-cat _) (omega (arith, marks-targets matches, length-texts matches))

    pub get_field_filter-IsBound :
        (f : Filter) (prefix : Str)
        → marks prefix ≡ 0
        → Builds IsBound (get_field_filter parse_float indexed_fields db_name f prefix)
    unfolding get_field_filter
    get_field_filter-IsBound f prefix p =
        of_entry (get_valid_field_entry indexed_fields prefix f.fields)
          (entry-PlainEntry indexed_fields plain prefix p f.fields)
      where
        of_entry :
            (o : Option Str)
            → PlainEntry o
            → Builds IsBound (
                or_rejected QueryError.invalid_column o >>= λ entry.
                field_clause parse_float indexed_fields db_name entry f.op f.is_partial f.matches)
        of_entry none h = tt
        of_entry (some entry) h = field-IsBound entry f.op f.is_partial f.matches h

    projects_field-IsBound :
        (entry : Str) (op : Op) (matches : List Str)
        → marks entry ≡ 0
        → Builds IsBound (projects_field_clause parse_float indexed_fields db_name entry op matches)
    projects_field-IsBound entry op_in matches p = field-IsBound entry op_in false matches p
    projects_field-IsBound entry op_not_in matches p = field-IsBound entry op_not_in false matches p
    projects_field-IsBound entry op_eq matches p = tt
    projects_field-IsBound entry op_not_eq matches p = tt
    projects_field-IsBound entry op_lt matches p = tt
    projects_field-IsBound entry op_gt matches p = tt
    projects_field-IsBound entry op_exists matches p = tt
    projects_field-IsBound entry op_not_exists matches p = tt

    pub get_projects_field_filter-IsBound :
        (f : Filter)
        → Builds IsBound (get_projects_field_filter parse_float indexed_fields db_name f)
    unfolding get_projects_field_filter marks
    get_projects_field_filter-IsBound f =
        of_entry (get_valid_field_entry indexed_fields (codes "nsf") f.fields)
          (entry-PlainEntry indexed_fields plain (codes "nsf") refl f.fields)
      where
        of_entry :
            (o : Option Str)
            → PlainEntry o
            → Builds IsBound (
                or_rejected QueryError.invalid_column o >>= λ entry.
                projects_field_clause parse_float indexed_fields db_name entry f.op f.matches)
        of_entry none h = tt
        of_entry (some entry) h = projects_field-IsBound entry f.op f.matches h
