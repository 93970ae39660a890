-- ===== src/Partitions/Clauses.antt =====
-- The WHERE clauses that constructQuery of pkg/sqlcache/informer/listoption_indexer.go makes of the
-- partitions, as the conditions that the SQL text spells, and their meaning at a row.
pub mod Meaning
use steve.Common.{
  Str, str_eq, codes, ◌==◌, Bool, true, false, ◌&&◌, ◌||◌, not, List, [], ◌∷◌, ◌++◌, any, every,
  eqb, ltb, length, if◌then◌else◌,
}
use steve.Common.Sets.{StringSets}
use steve.Partitions.Partitioner.{Partition}

module _ (sets : StringSets) where
  -- One condition on a row. A list of them is joined by AND.
  pub data Clause : Type 0 where
    namespace_is : Str → Clause
    name_in : List Str → Clause
    never : Clause

  unfoldable pub single_partition_clauses : Partition sets → List Clause
  single_partition_clauses p =
      (if not (p.namespace == []) && not (p.namespace == codes "*")
        then namespace_is p.namespace ∷ []
        else [])
      ++ (if p.all_objects
          then []
          else if eqb (sets.len p.names) 0
          then never ∷ []
          else name_in (sets.list p.names) ∷ [])

  unfoldable pub partition_clauses : List (Partition sets) → List (List Clause)
  partition_clauses [] = []
  partition_clauses (p ∷ ps) =
      let rest = partition_clauses ps in
      if p.passthrough
      then rest
      else if ltb 0 (length (single_partition_clauses p))
      then single_partition_clauses p ∷ rest
      else rest

  -- What is joined by AND to the other WHERE clauses; each element is a disjunction.
  unfoldable pub where_clauses : List (Partition sets) → List (List (List Clause))
  where_clauses ps =
      (if eqb (length ps) 0 then ((never ∷ []) ∷ []) ∷ [] else [])
      ++ (if eqb (length (partition_clauses ps)) 1 then partition_clauses ps ∷ [] else [])
      ++ (if ltb 1 (length (partition_clauses ps)) then partition_clauses ps ∷ [] else [])

  -- The meaning of the text at a row with this namespace and name.
  module _ (ns name : Str) where
    abbrev pub clause_holds : Clause → Bool
    clause_holds (namespace_is n) = n == ns
    clause_holds (name_in l) = any (λ x. x == name) l
    clause_holds never = false

    unfoldable pub selects : List (List (List Clause)) → Bool
    selects w = every (λ disjuncts. any (λ c. every clause_holds c) disjuncts) w
