-- ===== src/Queries/Construct/Bound.antt =====
-- The parts of a query beside their placeholders.
use steve.Common.{
  ◌≡◌, refl, Str, str_eq, ◌==◌, codes, ◌&&◌, not, List, [], ◌∷◌, ◌++◌, Option, map, length,
  length-append, arith, Bool-cases, inl, inr,
}
use steve.Common.Sets.{StringSets}
use steve.Options.Types.{
  Op, op_eq, op_not_eq, op_exists, op_not_exists, op_in, op_not_in, op_lt, op_gt, OrFilter,
}
use steve.Partitions.Clauses as Where
use steve.Partitions.Clauses.{namespace_is, name_in, never}
use steve.Queries.Text.{marks, marks_all, marks-cat, marks-join}
use steve.Queries.Columns.Plain.{ArePlain}
use steve.Queries.Filters.{
  Built, built, rejected, crash, ◌>>=◌, Clause, or_filter_clause, projects_filter_clause,
}
use steve.Queries.Filters.Placeholders.{Builds, IsBound, HasMatches, marks-targets, length-texts}
use steve.Queries.Filters.Labels.{or_filter-IsBound, projects_filter-IsBound}
use steve.Queries.Joined.{texts_of, params_of, joined, each}
use steve.Queries.Construct.{
  Tables, or_clause, filter_clauses, join_projects, projects_clauses, namespace_clauses, condition,
  partition_clause, partitions_clause, where_clause,
}

abbrev pub All : {A : Type 0} → (A → Type 0) → List A → Type 0
All P [] = Unit
All P (a ∷ more) = P a × All P more

abbrev pub IsPlain : Str → Type 0
IsPlain s = marks s ≡ 0

pub All-append :
    {A : Type 0} (P : A → Type 0) (xs ys : List A) → All P xs → All P ys → All P (xs ++ ys)
All-append P [] ys h k = k
All-append P (x ∷ xs) ys (h, hs) k = (h, All-append P xs ys hs k)

pub All-map :
    {A B : Type 0} (P : B → Type 0) (f : A → B) (xs : List A)
    → ((a : A) → P (f a))
    → All P (map f xs)
All-map P f [] h = tt
All-map P f (x ∷ xs) h = (h x, All-map P f xs h)

pub Builds-step :
    {A B : Type 0} (P : A → Type 0) (Q : B → Type 0) (b : Built A) (f : A → Built B)
    → Builds P b
    → ((a : A) → P a → Builds Q (f a))
    → Builds Q (b >>= f)
Builds-step P Q (built a) f h k = k a h
Builds-step P Q (rejected e) f h k = tt
Builds-step P Q crash f h k = tt

pub Builds-any :
    {A B : Type 0} (Q : B → Type 0) (b : Built A) (f : A → Built B)
    → ((a : A) → Builds Q (f a))
    → Builds Q (b >>= f)
Builds-any Q (built a) f k = k a
Builds-any Q (rejected e) f k = tt
Builds-any Q crash f k = tt

pub each-All :
    {A B : Type 0} (P : A → Type 0) (Q : B → Type 0) (f : A → Built B) (xs : List A)
    → ((a : A) → P a → Builds Q (f a))
    → All P xs
    → Builds (All Q) (each f xs)
unfolding each
each-All P Q f [] h p = tt
each-All P Q f (x ∷ xs) h (p, ps) =
    Builds-step Q (All Q) (f x) _ (h x p)
      λ b q. Builds-step (All Q) (All Q) (each f xs) _ (each-All P Q f xs h ps) λ bs qs. (q, qs)

pub All-any : {A : Type 0} (xs : List A) → All (λ x. Unit {0}) xs
All-any [] = tt
All-any (x ∷ xs) = (tt, All-any xs)

module _ {F : Type 0} where
  texts_marks :
      (cs : List (Clause F)) → All IsBound cs → marks_all (texts_of cs) ≡ length (params_of cs)
  unfolding marks_all
  texts_marks [] h = refl
  texts_marks (c ∷ cs) (h, hs) =
      omega (arith, texts_marks cs hs, length-append c.params (params_of cs))

  pub joined-IsBound :
      (opening separator closing : Str) (cs : List (Clause F))
      → IsPlain opening
      → IsPlain separator
      → IsPlain closing
      → All IsBound cs
      → IsBound (joined opening separator closing cs)
  unfolding joined marks_all
  joined-IsBound opening separator closing cs o s c h =
      rw (marks-cat _) (omega (arith, marks-join separator (texts_of cs) s, texts_marks cs h))

module _ (sets : StringSets) {F : Type 0} (parse_float : Str → Option F) (indexed_fields : List Str)
    (db_name : Str) (plain : ArePlain indexed_fields) (plain_name : IsPlain db_name) where
  or_clause-IsBound :
      (cs : List (Clause F))
      → All IsBound cs
      → All IsBound (or_clause sets parse_float indexed_fields db_name cs)
  unfolding marks
  or_clause-IsBound [] h = tt
  or_clause-IsBound (c ∷ []) h = h
  or_clause-IsBound (c ∷ (d ∷ cs)) h =
      (joined-IsBound (codes "(") (codes ") OR (") (codes ")") (c ∷ (d ∷ cs)) refl refl refl h, tt)

  -- Each membership test has values.
  abbrev pub HaveMatches : List OrFilter → Type 0
  HaveMatches filters = All (All (λ f. HasMatches f.op f.matches)) filters

  pub filter_clauses-IsBound :
      (tables : Tables) (filters : List OrFilter)
      → HaveMatches filters
      → Builds (All IsBound) (filter_clauses sets parse_float indexed_fields db_name tables filters)
  unfolding filter_clauses
  filter_clauses-IsBound tables [] h = tt
  filter_clauses-IsBound tables (f ∷ filters) (h, hs) =
      Builds-step (All IsBound) (All IsBound)
        (each (or_filter_clause parse_float indexed_fields db_name tables) f) _
        (each-All (λ g. HasMatches g.op g.matches) IsBound
          (or_filter_clause parse_float indexed_fields db_name tables) f
          (or_filter-IsBound parse_float indexed_fields db_name plain plain_name tables) h)
        λ cs bound.
          Builds-step (All IsBound) (All IsBound)
            (filter_clauses sets parse_float indexed_fields db_name tables filters) _
            (filter_clauses-IsBound tables filters hs)
            λ rest more.
              All-append IsBound (or_clause sets parse_float indexed_fields db_name cs) rest
                (or_clause-IsBound cs bound) more

  join_projects-IsBound :
      (op : Op) (cs : List (Clause F))
      → All IsBound cs
      → Builds (All IsBound) (join_projects sets parse_float indexed_fields db_name op cs)
  unfolding marks
  join_projects-IsBound op_in cs h =
      (joined-IsBound (codes "(") (codes ") OR (") (codes ")") cs refl refl refl h, tt)
  join_projects-IsBound op_not_in cs h =
      (joined-IsBound (codes "(") (codes ") AND (") (codes ")") cs refl refl refl h, tt)
  join_projects-IsBound op_eq cs h = tt
  join_projects-IsBound op_not_eq cs h = tt
  join_projects-IsBound op_lt cs h = tt
  join_projects-IsBound op_gt cs h = tt
  join_projects-IsBound op_exists cs h = tt
  join_projects-IsBound op_not_exists cs h = tt

  pub projects_clauses-IsBound :
      (tables : Tables) (filters : OrFilter)
      → Builds
          (All IsBound)
          (projects_clauses sets parse_float indexed_fields db_name tables filters)
  unfolding projects_clauses
  projects_clauses-IsBound tables [] = tt
  projects_clauses-IsBound tables (f ∷ filters) =
      Builds-step (All IsBound) (All IsBound)
        (each (projects_filter_clause parse_float indexed_fields db_name tables) (f ∷ filters)) _
        (each-All (λ g. Unit) IsBound
          (projects_filter_clause parse_float indexed_fields db_name tables) (f ∷ filters)
          (λ g h.
            projects_filter-IsBound parse_float indexed_fields db_name plain plain_name tables g)
          (All-any (f ∷ filters)))
        (join_projects-IsBound f.op)

  pub namespace_clauses-IsBound :
      (namespace : Str)
      → All IsBound (namespace_clauses sets parse_float indexed_fields db_name namespace)
  unfolding marks
  namespace_clauses-IsBound namespace =
      elim (Bool-cases (not (namespace == []) && not (namespace == codes "*"))) [
        | inl named ↦ rw named (refl, tt)
        | inr other ↦ rw other tt
      ]

  condition-IsBound :
      (c : Where.Clause sets) → IsBound (condition sets parse_float indexed_fields db_name c)
  unfolding marks marks_all
  condition-IsBound (namespace_is namespace) = refl
  condition-IsBound (name_in names) =
      rw (marks-cat _)
        (omega (arith, marks-targets names, length-texts parse_float indexed_fields db_name names))
  condition-IsBound never = refl

  partition-IsBound :
      (c : List (Where.Clause sets))
      → IsBound (partition_clause sets parse_float indexed_fields db_name c)
  unfolding marks
  partition-IsBound c =
      joined-IsBound [] (codes " AND ") [] _ refl refl refl
        (All-map IsBound (condition sets parse_float indexed_fields db_name) c condition-IsBound)

  pub partitions-IsBound :
      (cs : List (List (Where.Clause sets)))
      → IsBound (partitions_clause sets parse_float indexed_fields db_name cs)
  unfolding marks
  partitions-IsBound [] = joined-IsBound [] [] [] [] refl refl refl tt
  partitions-IsBound (c ∷ []) = partition-IsBound c
  partitions-IsBound (c ∷ (d ∷ cs)) =
      joined-IsBound (codes "(\n      (") (codes ") OR\n      (") (codes ")\n)") _ refl refl refl (
        All-map IsBound (partition_clause sets parse_float indexed_fields db_name) (c ∷ (d ∷ cs))
          partition-IsBound)

  pub where-IsBound :
      (cs : List (Clause F))
      → All IsBound cs
      → IsBound (where_clause sets parse_float indexed_fields db_name cs)
  unfolding marks
  where-IsBound [] h = joined-IsBound [] [] [] [] refl refl refl tt
  where-IsBound (c ∷ cs) h =
      joined-IsBound (codes "\n  WHERE\n    (") (codes ") AND\n    (") (codes ")") (c ∷ cs) refl
        refl refl h
