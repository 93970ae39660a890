-- ===== src/Partitions/Proxy/Listed.antt =====
-- What the store without a cache lists, partition by partition.
use steve.Common.{
  Str, str_eq, str_beq_iff, ◌==◌, ◌≡◌, sym, Bool, true, false, ◌&&◌, ◌||◌, List, [], ◌∷◌, map, keep,
  any, Option, none, some, arith, Option-cases, inl, inr, ap, ◌∙◌, any-map, any_mono,
}
use steve.Common.Sets.{StringSets}
use steve.AccessControl.AccessSet.{access_grants}
use steve.AccessControl.Verbs.{AccessListByVerb}
use steve.AccessControl.Verbs.Granted.{readable}
use steve.Partitions.Partitioner.{admits}
use steve.Partitions.Partitioner.Aggregate.{HasNamespaces, partitions_exact}
use steve.Partitions.Proxy.{ProxyPartition, Object, by_names, list_partition, proxy_partitions_for}
use steve.Partitions.Proxy.Same.{as_partition, as_partitions, as_partitions-proxy_partitions_for}

abbrev pub is_object : Str → Str → Object → Bool
is_object ns name o = (o.object_namespace == ns) && (o.object_name == name)

-- The list of one namespace holds objects of that namespace.
abbrev pub IsLocal : (Str → Option (List Object)) → Type 0
IsLocal lists =
    (n ns name : Str) (l : List Object)
    → lists n ≡ some l
    → any (is_object ns name) l ≡ true
    → ((n == []) || (n == ns)) ≡ true

module _ (sets : StringSets) (user_list admin_list : Str → Option (List Object)) where
  -- An object of this namespace and name is listed for the partition.
  abbrev pub lists : Str → Str → ProxyPartition sets → Bool
  lists ns name p = elim (list_partition sets user_list admin_list [] p) [
    | none ↦ false
    | some l ↦ any (is_object ns name) l
  ]

  named_objects :
      (s : sets.StringSet) (ns name : Str) (l : List Object)
      → any (is_object ns name) (keep (λ o. sets.has s o.object_name) l) ≡ true
      → (sets.has s name ≡ true) × (any (is_object ns name) l ≡ true)
  unfolding any keep
  named_objects s ns name [] h = ground arith
  named_objects s ns name (o ∷ l) h =
      ground (arith, named_objects s ns name l, str_beq_iff o.object_name name)

  lists_admitted :
      (ns name : Str) (p : ProxyPartition sets)
      → IsLocal user_list
      → IsLocal admin_list
      → lists ns name p ≡ true
      → admits sets ns name (as_partition sets p) ≡ true
  unfolding list_partition by_names admits any
  lists_admitted ns name p u m h = elim (Option-cases (user_list p.in_namespace)) [
    | inl no_users ↦ elim (Option-cases (admin_list p.in_namespace)) [
      | inl no_admins ↦ ground arith
      | inr (l, found) ↦
          ground (arith, m p.in_namespace ns name l found, named_objects p.some_names ns name l)
    ]
    | inr (k, given) ↦ elim (Option-cases (admin_list p.in_namespace)) [
      | inl no_admins ↦ ground (arith, u p.in_namespace ns name k given)
      | inr (l, found) ↦ ground (
        arith,
        u p.in_namespace ns name k given,
        m p.in_namespace ns name l found,
        named_objects p.some_names ns name l,
      )
    ]
  ]

  -- Where the cluster lists objects of the namespace that it is asked for, and no access that
  -- Granted reads for the verb is for the empty namespace, no partition of a list or watch of a
  -- namespaced type, over all namespaces, lists an object that none of these accesses grants,
  -- though lists by name are read as the administrator.
  pub listed_granted :
      (ns name : Str) (a : AccessListByVerb) (verb : Str) (r_split : Str → Str → Str × Str)
      (ps : List (ProxyPartition sets))
      → HasNamespaces a verb
      → IsLocal user_list
      → IsLocal admin_list
      → proxy_partitions_for sets r_split [] true a verb [] ≡ some ps
      → any (lists ns name) ps ≡ true
      → readable a verb (λ x. access_grants x ns name) ≡ true
  listed_granted ns name a verb r_split ps h u m found listed =
      let same = as_partitions-proxy_partitions_for sets r_split [] true a verb [] in
      let exact =
        partitions_exact sets ns name a verb r_split (map (as_partition sets) ps) h
          (sym same ∙ ap (as_partitions sets) found) in
      sym exact
      ∙ any-map (admits sets ns name) (as_partition sets) ps
      ∙ any_mono (lists ns name) (λ p. admits sets ns name (as_partition sets p)) ps
          (λ p k. lists_admitted ns name p u m k) listed
