-- ===== src/Partitions/Clauses/Meaning.antt =====
-- The meaning of the WHERE clauses at a row, beside that of the partitions.
use steve.Common.{
  ℕ, suc, Str, str_eq, codes, ◌==◌, ◌≡◌, refl, Bool, true, false, ◌&&◌, ◌||◌, List, [], ◌∷◌, ◌++◌,
  any, every, eqb, ltb, length, if◌then◌else◌, arith, contains, sym, ap, ◌∙◌,
}
use steve.Common.Sets.{StringSets}
use steve.Partitions.Partitioner.{Partition, admits}
use steve.Partitions.Clauses.{
  Clause, single_partition_clauses, partition_clauses, where_clauses, clause_holds, selects,
}

none_listed : (name : Str) (l : List Str) → length l ≡ 0 → contains l name ≡ false
unfolding contains any
none_listed name [] h = refl
none_listed name (x ∷ l) h = absurd (omega arith)

module _ (sets : StringSets) where
  -- A partition that restricts nothing.
  unfoldable pub is_unrestricted : Partition sets → Bool
  is_unrestricted p =
      p.passthrough || (p.all_objects && ((p.namespace == []) || (p.namespace == codes "*")))

  -- A restricted partition makes a clause.
  some_clause :
      (p : Partition sets)
      → is_unrestricted p ≡ false
      → ltb 0 (length (single_partition_clauses sets p)) ≡ true
  unfolding is_unrestricted single_partition_clauses
  some_clause p h = ground arith

module _ (sets : StringSets) where
  module _ (ns name : Str) where
    no_members : (s : sets.StringSet) → sets.len s ≡ 0 → sets.has s name ≡ false
    no_members s h =
        sym (sets.contains_list name s) ∙ none_listed name (sets.list s) (sets.length_list s ∙ h)

    single_holds :
        (p : Partition sets)
        → every (clause_holds sets ns name) (single_partition_clauses sets p) ≡ (
            ((p.namespace == []) || ((p.namespace == codes "*") || (p.namespace == ns)))
            && (p.all_objects || sets.has p.names name))
    unfolding single_partition_clauses every contains
    single_holds p = ground (arith, sets.contains_list name p.names, no_members p.names)

    clauses_hold :
        (ps : List (Partition sets))
        → any (is_unrestricted sets) ps ≡ false
        → any (every (clause_holds sets ns name)) (partition_clauses sets ps)
          ≡ any (admits sets ns name) ps
    unfolding partition_clauses any is_unrestricted admits
    clauses_hold [] h = refl
    clauses_hold (p ∷ ps) h = ground (arith, single_holds p, some_clause sets p, clauses_hold ps)

    some_left :
        (ps : List (Partition sets))
        → any (is_unrestricted sets) ps ≡ false
        → length (partition_clauses sets ps) ≡ length ps
    unfolding partition_clauses any is_unrestricted
    some_left [] h = refl
    some_left (p ∷ ps) h = ground (arith, some_clause sets p, some_left ps)

    -- One disjunction joins clauses where there are any.
    one_disjunction :
        (c : List (List (Clause sets))) {n : ℕ}
        → length c ≡ suc n
        → selects sets ns name (
            []
            ++ ((if eqb (length c) 1 then c ∷ [] else [])
                ++ (if ltb 1 (length c) then c ∷ [] else [])))
          ≡ any (every (clause_holds sets ns name)) c
    unfolding selects every
    one_disjunction c h = ground arith

    where-cons :
        (p : Partition sets) (ps : List (Partition sets))
        → where_clauses sets (p ∷ ps)
          ≡ []
            ++ ((if eqb (length (partition_clauses sets (p ∷ ps))) 1
                  then partition_clauses sets (p ∷ ps) ∷ []
                  else [])
                ++ (if ltb 1 (length (partition_clauses sets (p ∷ ps)))
                    then partition_clauses sets (p ∷ ps) ∷ []
                    else []))
    unfolding where_clauses
    where-cons p ps = ground arith

    -- Where no partition is unrestricted, the query selects a row exactly when one of the partitions
    -- admits it; with no partition it selects none.
    pub where_clauses_restricted :
        (ps : List (Partition sets))
        → any (is_unrestricted sets) ps ≡ false
        → selects sets ns name (where_clauses sets ps) ≡ any (admits sets ns name) ps
    where_clauses_restricted [] h = unfold where_clauses selects every any partition_clauses in refl
    where_clauses_restricted (p ∷ ps) h =
        let l : List (Partition sets) = p ∷ ps in
        ap (selects sets ns name) (where-cons p ps)
        ∙ one_disjunction (partition_clauses sets l) (some_left l h)
        ∙ clauses_hold l h
