-- ===== src/Partitions/Tests.antt =====
-- The partition theorems at small inputs.
use steve.Common.{
  Str, codes, str_eq, str_beq, ◌==◌, ◌≡◌, ◌⊎◌, refl, true, false, [], ◌∷◌, some, any, contains,
  insert_key, str_ltb,
}
use steve.Common.Maps.{lookup, insert}
use steve.Common.Sorting.{sort_by}
use steve.Common.Listed.{listed, insert_member}
use steve.AccessControl.AccessSet.{all, access_grants}
use steve.AccessControl.Verbs.{
  AccessListByVerb, all_granted, verb_grants, list_grants, for_verb, granted_resources,
  grant_access, grant_get, resources_in,
}
use steve.AccessControl.Verbs.Granted.{readable}
use steve.Partitions.Partitioner.{
  Partition, admits, one_name, partitions_for, generate_partitions_by_id,
  generate_aggregate_partitions,
}
use steve.Partitions.Partitioner.Aggregate.{partitions_exact}
use steve.Partitions.Partitioner.ById.{by_id_sound, wanted_namespace, wanted_name}
use steve.Partitions.Clauses.{where_clauses, selects}
use steve.Partitions.Clauses.Meaning.{where_clauses_restricted, is_unrestricted}

abbrev access : AccessListByVerb
access =
    (codes "list", record { namespace = codes "n1"; resource_name = all } ∷ [])
    ∷ (codes "get", record { namespace = codes "n2"; resource_name = codes "p" } ∷ [])
    ∷ []

abbrev n2 : Partition listed
n2 = record {
  passthrough = false;
  namespace = codes "n2";
  all_objects = false;
  names = codes "p" ∷ [];
}

abbrev n1 : Partition listed
n1 = record { passthrough = false; namespace = codes "n1"; all_objects = true; names = [] }

abbrev no_split : Str → Str → Str × Str
no_split id sep = ([], id)

two_partitions :
    partitions_for listed no_split [] true access (codes "list") [] ≡ some (n1 ∷ n2 ∷ [])
unfolding partitions_for generate_aggregate_partitions granted_resources grant_access grant_get
    resources_in all_granted verb_grants list_grants for_verb access_grants lookup insert insert_key
    contains any str_beq sort_by str_ltb insert_member
two_partitions = refl

no_empty_namespace : readable access (codes "list") (λ x. x.namespace == []) ≡ false
unfolding readable for_verb lookup any str_beq
no_empty_namespace = refl

partitions_exact_example :
    any (admits listed (codes "n2") (codes "p")) (n1 ∷ n2 ∷ [])
    ≡ readable access (codes "list") (λ x. access_grants x (codes "n2") (codes "p"))
partitions_exact_example =
    partitions_exact listed (codes "n2") (codes "p") access (codes "list") no_split (n1 ∷ n2 ∷ [])
      no_empty_namespace two_partitions

by_id_sound_example :
    (generate_partitions_by_id listed no_split (codes "n2") access (codes "list") (codes "p") ≡ [])
    ⊎ ((generate_partitions_by_id listed no_split (codes "n2") access (codes "list") (codes "p")
          ≡ one_name listed
              (wanted_namespace no_split (codes "n2") (codes "p"))
              (wanted_name no_split (codes "p")))
        × (readable access (codes "list") (λ x.
              access_grants x
                (wanted_namespace no_split (codes "n2") (codes "p"))
                (wanted_name no_split (codes "p")))
            ≡ true))
by_id_sound_example = by_id_sound listed no_split (codes "n2") access (codes "list") (codes "p")

both_restricted : any (is_unrestricted listed) (n1 ∷ n2 ∷ []) ≡ false
unfolding any is_unrestricted str_beq
both_restricted = refl

where_clauses_restricted_example :
    selects listed (codes "n2") (codes "p") (where_clauses listed (n1 ∷ n2 ∷ []))
    ≡ any (admits listed (codes "n2") (codes "p")) (n1 ∷ n2 ∷ [])
where_clauses_restricted_example =
    where_clauses_restricted listed (codes "n2") (codes "p") (n1 ∷ n2 ∷ []) both_restricted
