-- ===== src/Partitions/ProxyTests.antt =====
-- The partitions of the store without a cache, and its lists, in a small cluster.
use steve.Common.{
  Str, codes, str_eq, str_beq, str_beq_iff, str_ltb, ◌==◌, ◌≡◌, refl, true, false, ◌||◌, List, [],
  ◌∷◌, Option, some, arith, keep, any, contains, insert_key,
}
use steve.Common.Maps.{lookup, insert}
use steve.Common.Sorting.{sort_by, insert_by}
use steve.Common.Listed.{listed, insert_member}
use steve.AccessControl.AccessSet.{all, access_grants}
use steve.AccessControl.Verbs.{
  AccessListByVerb, all_granted, verb_grants, list_grants, for_verb, granted_resources,
  grant_access, grant_get, resources_in,
}
use steve.AccessControl.Verbs.Granted.{readable}
use steve.Partitions.Partitioner.{partitions_for}
use steve.Partitions.Proxy.{
  ProxyPartition, Object, proxy_partitions_for, proxy_aggregate_partitions, list_partition,
  by_names,
}
use steve.Partitions.Proxy.Same.{as_partitions, as_partitions-proxy_partitions_for}
use steve.Partitions.Proxy.Listed.{IsLocal, is_object, lists, listed_granted}

abbrev granted_access : AccessListByVerb
granted_access =
    (codes "list", record { namespace = codes "n1"; resource_name = all } ∷ [])
    ∷ (codes "get", record { namespace = codes "n2"; resource_name = codes "p" } ∷ [])
    ∷ []

abbrev object : Str → Str → Object
object ns name = record { object_namespace = ns; object_name = name }

abbrev cluster : List Object
cluster =
    object (codes "n1") (codes "q")
    ∷ object (codes "n2") (codes "p")
    ∷ object (codes "n2") (codes "r")
    ∷ []

abbrev lists_of : Str → Option (List Object)
lists_of n = some (keep (λ o. (n == []) || (o.object_namespace == n)) cluster)

kept_local :
    (n ns name : Str) (l : List Object)
    → any (is_object ns name) (keep (λ o. (n == []) || (o.object_namespace == n)) l) ≡ true
    → ((n == []) || (n == ns)) ≡ true
unfolding any keep
kept_local n ns name [] h = ground arith
kept_local n ns name (o ∷ l) h = ground (
  arith,
  kept_local n ns name l,
  str_beq_iff o.object_namespace n,
  str_beq_iff o.object_namespace ns,
  str_beq_iff n ns,
)

lists_of-IsLocal : IsLocal lists_of
lists_of-IsLocal n ns name l e h = kept_local n ns name cluster (ground (arith, e, h))

abbrev unsplit : Str → Str → Str × Str
unsplit id sep = ([], id)

abbrev proxy_parts : List (ProxyPartition listed)
proxy_parts =
    record { to_proxy = false; in_namespace = codes "n1"; every_object = true; some_names = [] }
    ∷ record {
      to_proxy = false;
      in_namespace = codes "n2";
      every_object = false;
      some_names = codes "p" ∷ [];
    }
    ∷ []

proxy_parts_made :
    proxy_partitions_for listed unsplit [] true granted_access (codes "list") [] ≡ some proxy_parts
unfolding proxy_partitions_for proxy_aggregate_partitions granted_resources grant_access grant_get
    resources_in all_granted verb_grants list_grants for_verb access_grants lookup insert insert_key
    insert_member insert_by contains any str_beq sort_by str_ltb
proxy_parts_made = refl

p_listed : any (lists listed lists_of lists_of (codes "n2") (codes "p")) proxy_parts ≡ true
unfolding list_partition by_names keep any str_beq contains
p_listed = refl

namespaces_named : readable granted_access (codes "list") (λ x. x.namespace == []) ≡ false
unfolding readable for_verb lookup any str_beq
namespaces_named = refl

listed_granted_example :
    readable granted_access (codes "list") (λ x. access_grants x (codes "n2") (codes "p")) ≡ true
listed_granted_example =
    listed_granted listed lists_of lists_of (codes "n2") (codes "p") granted_access (codes "list")
      unsplit proxy_parts namespaces_named lists_of-IsLocal lists_of-IsLocal proxy_parts_made
      p_listed

as_partitions-proxy_partitions_for_example :
    as_partitions listed
      (proxy_partitions_for listed unsplit [] true granted_access (codes "list") [])
    ≡ partitions_for listed unsplit [] true granted_access (codes "list") []
as_partitions-proxy_partitions_for_example =
    as_partitions-proxy_partitions_for listed unsplit [] true granted_access (codes "list") []
