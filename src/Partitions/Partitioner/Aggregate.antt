-- ===== src/Partitions/Partitioner/Aggregate.antt =====
-- The partitions of a list or watch, and what they let through.
use steve.Common.{
  Str, str_eq, str_beq, codes, ◌==◌, ◌≡◌, true, false, ◌&&◌, ◌||◌, List, [], any, arith, ◌∙◌, some,
  any-map, any_without, any_mono, Bool-cases, inl, inr, map,
}
use steve.Common.Sets.{StringSets}
use steve.Common.Sorting.{any-sort_by}
use steve.AccessControl.AccessSet.{all, access_grants}
use steve.AccessControl.Verbs.{
  AccessListByVerb, all_granted, verb_grants, list_grants, granted_resources, for_verb,
}
use steve.AccessControl.Verbs.Granted.{readable, is_named, covers_name, covered-granted_resources}
use steve.Partitions.Partitioner.{
  Partition, admits, of_entry, generate_aggregate_partitions, partitions_for,
}

-- No access is for the namespace "": those of role bindings have a namespace, and those of cluster
-- role bindings the wildcard.
abbrev pub HasNamespaces : AccessListByVerb → Str → Type 0
HasNamespaces a verb = readable a verb (λ x. x.namespace == []) ≡ false

module _ (sets : StringSets) where
  module _ (ns name : Str) (a : AccessListByVerb) (verb : Str) where
    entries_admit :
        any (admits sets ns name) (map (of_entry sets true) (granted_resources sets a verb))
        ≡ readable a verb (λ x.
          ((x.namespace == []) || ((x.namespace == codes "*") || (x.namespace == ns)))
          && covers_name name x)
    unfolding admits of_entry
    entries_admit =
        any-map (admits sets ns name) (of_entry sets true) (granted_resources sets a verb)
        ∙ covered-granted_resources sets name (λ k. (k == []) || ((k == codes "*") || (k == ns))) a
            verb

    drop_empty :
        HasNamespaces a verb
        → readable a verb (λ x.
          ((x.namespace == []) || ((x.namespace == codes "*") || (x.namespace == ns)))
          && covers_name name x)
          ≡ readable a verb (λ x. access_grants x ns name)
    unfolding readable access_grants
    drop_empty h = ground (
      arith,
      any_without (λ x. x.namespace == [])
          (λ x.
            ((x.namespace == []) || ((x.namespace == codes "*") || (x.namespace == ns)))
            && covers_name name x)
          (λ x. access_grants x ns name) (for_verb a verb) (λ x k. ground arith),
      any_without (λ x. is_named x && (x.namespace == []))
          (λ x.
            is_named x
            && (((x.namespace == []) || ((x.namespace == codes "*") || (x.namespace == ns)))
                && covers_name name x))
          (λ x. is_named x && access_grants x ns name) (for_verb a (codes "get"))
          (λ x k. ground arith),
    )

    all_grants : all_granted a verb ≡ true → readable a verb (λ x. access_grants x ns name) ≡ true
    unfolding all_granted verb_grants list_grants readable
    all_grants h = ground (
      arith,
      any_mono (λ x. access_grants x all all) (λ x. access_grants x ns name) (for_verb a verb)
          (λ x k. unfold access_grants in ground arith) h,
    )

    -- Where no access that Granted reads for the verb is for the empty namespace, the partitions
    -- of a list or watch of a namespaced type, over all namespaces, admit an object exactly when
    -- one of these accesses grants its namespace and its name.
    pub partitions_exact :
        (r_split : Str → Str → Str × Str) (ps : List (Partition sets))
        → HasNamespaces a verb
        → partitions_for sets r_split [] true a verb [] ≡ some ps
        → any (admits sets ns name) ps ≡ readable a verb (λ x. access_grants x ns name)
    unfolding partitions_for generate_aggregate_partitions admits any str_beq
    partitions_exact r_split ps h found = elim (Bool-cases (all_granted a verb)) [
      | inl yes_all ↦ ground (arith, all_grants yes_all)
      | inr not_all ↦ ground (
        arith,
        any-sort_by (λ p. p.namespace) (admits sets ns name)
            (map (of_entry sets true) (granted_resources sets a verb)),
        entries_admit,
        drop_empty h,
      )
    ]
