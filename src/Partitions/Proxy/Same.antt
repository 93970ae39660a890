-- ===== src/Partitions/Proxy/Same.antt =====
-- The partitions of the store without a cache beside those of the SQL store.
use steve.Common.{
  Str, str_eq, codes, ◌==◌, ◌≡◌, refl, Bool, ◌||◌, not, List, [], ◌∷◌, map, Option, none, some,
  arith, Bool-cases, inl, inr, ap, ◌∙◌,
}
use steve.Common.Sets.{StringSets}
use steve.Common.Sorting.{insert_by, sort_by}
use steve.AccessControl.Verbs.{AccessListByVerb, ResourceMap, granted_resources}
use steve.Partitions.Partitioner.{
  Partition, passthrough_partitions, partitions_for, generate_partitions_by_id,
  generate_aggregate_partitions, effective_namespace, of_entry,
}
use steve.Partitions.Proxy.{
  ProxyPartition, proxy_passthrough, proxy_partitions_for, proxy_partitions_by_id,
  proxy_aggregate_partitions, proxy_namespace, proxy_entry,
}

module _ (sets : StringSets) where
  abbrev pub as_partition : ProxyPartition sets → Partition sets
  as_partition p = record {
    passthrough = p.to_proxy;
    namespace = p.in_namespace;
    all_objects = p.every_object;
    names = p.some_names;
  }

  abbrev pub as_partitions : Option (List (ProxyPartition sets)) → Option (List (Partition sets))
  as_partitions none = none
  as_partitions (some l) = some (map as_partition l)

  map-insert_by :
      (p : ProxyPartition sets) (l : List (ProxyPartition sets))
      → map as_partition (insert_by (λ x. x.in_namespace) p l)
        ≡ insert_by (λ x. x.namespace) (as_partition p) (map as_partition l)
  unfolding insert_by
  map-insert_by p [] = refl
  map-insert_by p (q ∷ l) = ground (arith, map-insert_by p l)

  map-sort_by :
      (l : List (ProxyPartition sets))
      → map as_partition (sort_by (λ x. x.in_namespace) l)
        ≡ sort_by (λ x. x.namespace) (map as_partition l)
  unfolding sort_by
  map-sort_by [] = refl
  map-sort_by (p ∷ l) =
      ground (arith, map-insert_by p (sort_by (λ x. x.in_namespace) l), map-sort_by l)

  map-entries :
      (b : Bool) (m : ResourceMap sets)
      → map as_partition (map (proxy_entry sets b) m) ≡ map (of_entry sets b) m
  unfolding proxy_entry of_entry
  map-entries b [] = refl
  map-entries b (e ∷ m) = ap (λ l. of_entry sets b e ∷ l) (map-entries b m)

  by_id_same :
      (r_split : Str → Str → Str × Str) (ns : Str) (a : AccessListByVerb) (verb id : Str)
      → map as_partition (proxy_partitions_by_id sets r_split ns a verb id)
        ≡ generate_partitions_by_id sets r_split ns a verb id
  unfolding proxy_partitions_by_id generate_partitions_by_id proxy_namespace effective_namespace
  by_id_same r_split ns a verb id = ground arith

  aggregate_same :
      (ns : Str) (b : Bool) (a : AccessListByVerb) (verb : Str)
      → as_partitions (proxy_aggregate_partitions sets ns b a verb)
        ≡ generate_aggregate_partitions sets ns b a verb
  unfolding proxy_aggregate_partitions generate_aggregate_partitions
  aggregate_same ns b a verb = ground (arith, map-entries b (granted_resources sets a verb))

  sorted_same :
      (o : Option (List (ProxyPartition sets)))
      → as_partitions (elim o [
        | none ↦ some (proxy_passthrough sets)
        | some l ↦ some (sort_by (λ p. p.in_namespace) l)
      ])
        ≡ (elim (as_partitions o) [
          | none ↦ some (passthrough_partitions sets)
          | some l ↦ some (sort_by (λ p. p.namespace) l)
        ])
  sorted_same none = refl
  sorted_same (some l) = ap (λ m. some m) (map-sort_by l)

  -- Both partitioners cut a request into the same partitions, and refuse the same verbs.
  pub as_partitions-proxy_partitions_for :
      (r_split : Str → Str → Str × Str) (ns : Str) (b : Bool) (a : AccessListByVerb) (verb id : Str)
      → as_partitions (proxy_partitions_for sets r_split ns b a verb id)
        ≡ partitions_for sets r_split ns b a verb id
  unfolding proxy_partitions_for partitions_for
  as_partitions-proxy_partitions_for r_split ns b a verb id =
      elim (Bool-cases ((verb == codes "list") || (verb == codes "watch"))) [
        | inr other ↦ rw other refl
        | inl reading ↦ elim (Bool-cases (not (id == []))) [
          | inl named ↦ rw (reading, named) (ap (λ l. some l) (by_id_same r_split ns a verb id))
          | inr listing ↦
              rw (reading, listing)
                (sorted_same (proxy_aggregate_partitions sets ns b a verb)
                  ∙ rw (aggregate_same ns b a verb) refl)
        ]
      ]
