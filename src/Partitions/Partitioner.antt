-- ===== src/Partitions/Partitioner.antt =====
-- pkg/stores/sqlpartition/partitioner.go and pkg/sqlcache/partition/partition.go: the partitions
-- of a request. RSplit of wrangler's kv is a parameter.
pub mod Aggregate
pub mod ById
use steve.Common.{
  Str, str_eq, codes, ◌==◌, Bool, true, false, ◌&&◌, ◌||◌, not, List, [], ◌∷◌, map, Option, none,
  some, if◌then◌else◌,
}
use steve.Common.Maps.{lookup}
use steve.Common.Sorting.{sort_by}
use steve.Common.Sets.{StringSets}
use steve.AccessControl.AccessSet.{all}
use steve.AccessControl.Verbs.{
  AccessListByVerb, Resources, ResourceMap, resources_in, all_granted, granted_resources,
}

-- effectiveNamespace: the namespace of the ID, or that of the request where it has none
unfoldable pub effective_namespace : Str → Str → Str
effective_namespace id_namespace api_namespace =
    if (id_namespace == []) && not (api_namespace == []) then api_namespace else id_namespace

module _ (sets : StringSets) where
  open sets use {StringSet, new, insert, has}

  pub record Partition : Type 0 where
    pub passthrough : Bool
    pub namespace : Str
    pub all_objects : Bool
    pub names : StringSet

  abbrev pub passthrough_partitions : List Partition
  passthrough_partitions =
      record { passthrough = true; namespace = []; all_objects = false; names = new } ∷ []

  -- The partition for one name in a namespace.
  abbrev pub one_name : Str → Str → List Partition
  one_name ns name =
      record { passthrough = false; namespace = ns; all_objects = false; names = insert name new }
      ∷ []

  -- `ok && nameset.Names.Has(name)`
  abbrev pub names_at : ResourceMap sets → Str → Str → Bool
  names_at m ns name = elim (lookup ns m) [ none ↦ false | some r ↦ has r.names name ]

  module _ (r_split : Str → Str → Str × Str) where
    unfoldable pub generate_partitions_by_id : Str → AccessListByVerb → Str → Str → List Partition
    unfolding effective_namespace
    generate_partitions_by_id api_namespace access verb id =
        let resources = granted_resources sets access verb in
        let parts = r_split id (codes "/") in
        let name = parts.1 in
        let ns = effective_namespace parts.0 api_namespace in
        if all_granted access verb
        then one_name ns name
        else if not (ns == []) && (resources_in sets resources ns).all_names
        then one_name ns name
        else if names_at resources (if ns == [] then all else ns) name
        then one_name ns name
        else []

  -- The partition of one entry of the resource map.
  unfoldable pub of_entry : Bool → Str × Resources sets → Partition
  of_entry namespaced (k, v) = record {
    passthrough = false;
    namespace = if namespaced then k else [];
    all_objects = v.all_names;
    names = v.names;
  }

  -- The partitions, or `none` for a request to pass through.
  unfoldable pub generate_aggregate_partitions :
      Str → Bool → AccessListByVerb → Str → Option (List Partition)
  unfolding of_entry
  generate_aggregate_partitions api_namespace namespaced access verb =
      let resources = granted_resources sets access verb in
      if all_granted access verb
      then none
      else if not (api_namespace == [])
      then (if (resources_in sets resources api_namespace).all_names
          then none
          else some (
              record {
                passthrough = false;
                namespace = api_namespace;
                all_objects = false;
                names = (resources_in sets resources api_namespace).names;
              }
              ∷ []))
      else some (map (of_entry namespaced) resources)

  -- rbacPartitioner.All. `none` is the error of an invalid verb.
  module _ (r_split : Str → Str → Str × Str) where
    unfoldable pub partitions_for :
        Str → Bool → AccessListByVerb → Str → Str → Option (List Partition)
    partitions_for api_namespace namespaced access verb id =
        if (verb == codes "list") || (verb == codes "watch")
        then (if not (id == [])
            then some (generate_partitions_by_id r_split api_namespace access verb id)
            else elim (generate_aggregate_partitions api_namespace namespaced access verb) [
              | none ↦ some passthrough_partitions
              | some l ↦ some (sort_by (λ p. p.namespace) l)
            ])
        else none

  -- What the comments on the fields say of a partition, for an object of this namespace and name:
  -- Passthrough overrides the others, a namespace restricts, and All overrides Names.
  unfoldable pub admits : Str → Str → Partition → Bool
  admits ns name p =
      p.passthrough
      || (((p.namespace == []) || ((p.namespace == codes "*") || (p.namespace == ns)))
          && (p.all_objects || has p.names name))
