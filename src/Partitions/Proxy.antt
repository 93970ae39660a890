-- ===== src/Partitions/Proxy.antt =====
-- pkg/stores/proxy/rbac_store.go, the partitioner of the store that has no cache, and ByNames of
-- pkg/stores/proxy/proxy_store.go. RSplit of wrangler's kv is a parameter, as are the lists that the
-- cluster gives to the client of the user and to that of the administrator.
pub mod Same
pub mod Listed
use steve.Common.{
  Str, str_eq, codes, ◌==◌, Bool, true, false, ◌&&◌, ◌||◌, not, List, [], ◌∷◌, map, keep, Option,
  none, some, if◌then◌else◌,
}
use steve.Common.Maps.{lookup}
use steve.Common.Sorting.{sort_by}
use steve.Common.Sets.{StringSets}
use steve.AccessControl.AccessSet.{all}
use steve.AccessControl.Verbs.{
  AccessListByVerb, Resources, ResourceMap, resources_in, all_granted, granted_resources,
}

-- effectiveNamespace: the namespace of the ID, or that of the request where it has none
unfoldable pub proxy_namespace : Str → Str → Str
proxy_namespace id_namespace api_namespace =
    if (id_namespace == []) && not (api_namespace == []) then api_namespace else id_namespace

-- An object of the cluster, as far as the store reads it
pub record Object : Type 0 where
  pub object_namespace : Str
  pub object_name : Str

module _ (sets : StringSets) where
  open sets use {StringSet, new, insert, has}

  pub record ProxyPartition : Type 0 where
    pub to_proxy : Bool
    pub in_namespace : Str
    pub every_object : Bool
    pub some_names : StringSet

  abbrev pub proxy_passthrough : List ProxyPartition
  proxy_passthrough =
      record { to_proxy = true; in_namespace = []; every_object = false; some_names = new } ∷ []

  -- The partition for one name in a namespace.
  abbrev pub proxy_name : Str → Str → List ProxyPartition
  proxy_name ns name =
      record {
        to_proxy = false;
        in_namespace = ns;
        every_object = false;
        some_names = insert name new;
      }
      ∷ []

  -- `ok && nameset.Names.Has(name)`
  abbrev pub proxy_names_at : ResourceMap sets → Str → Str → Bool
  proxy_names_at m ns name = elim (lookup ns m) [ none ↦ false | some r ↦ has r.names name ]

  module _ (r_split : Str → Str → Str × Str) where
    unfoldable pub proxy_partitions_by_id : Str → AccessListByVerb → Str → Str → List ProxyPartition
    unfolding proxy_namespace
    proxy_partitions_by_id api_namespace access verb id =
        let resources = granted_resources sets access verb in
        let parts = r_split id (codes "/") in
        let name = parts.1 in
        let ns = proxy_namespace parts.0 api_namespace in
        if all_granted access verb
        then proxy_name ns name
        else if not (ns == []) && (resources_in sets resources ns).all_names
        then proxy_name ns name
        else if proxy_names_at resources (if ns == [] then all else ns) name
        then proxy_name ns name
        else []

  -- The partition of one entry of the resource map.
  proxy_entry : Bool → Str × Resources sets → ProxyPartition
  proxy_entry namespaced (k, v) = record {
    to_proxy = false;
    in_namespace = if namespaced then k else [];
    every_object = v.all_names;
    some_names = v.names;
  }

  -- The partitions, or `none` for a request to pass through.
  unfoldable pub proxy_aggregate_partitions :
      Str → Bool → AccessListByVerb → Str → Option (List ProxyPartition)
  unfolding proxy_entry
  proxy_aggregate_partitions api_namespace namespaced access verb =
      let resources = granted_resources sets access verb in
      if all_granted access verb
      then none
      else if not (api_namespace == [])
      then (if (resources_in sets resources api_namespace).all_names
          then none
          else some (
              record {
                to_proxy = false;
                in_namespace = api_namespace;
                every_object = false;
                some_names = (resources_in sets resources api_namespace).names;
              }
              ∷ []))
      else some (map (proxy_entry namespaced) resources)

  -- rbacPartitioner.All. `none` is the error of an invalid verb.
  module _ (r_split : Str → Str → Str × Str) where
    unfoldable pub proxy_partitions_for :
        Str → Bool → AccessListByVerb → Str → Str → Option (List ProxyPartition)
    proxy_partitions_for api_namespace namespaced access verb id =
        if (verb == codes "list") || (verb == codes "watch")
        then (if not (id == [])
            then some (proxy_partitions_by_id r_split api_namespace access verb id)
            else elim (proxy_aggregate_partitions api_namespace namespaced access verb) [
              | none ↦ some proxy_passthrough
              | some l ↦ some (sort_by (λ p. p.in_namespace) l)
            ])
        else none

  -- The lists of a namespace, or of all for the empty one; `none` is an error.
  module _ (user_list admin_list : Str → Option (List Object)) where
    -- ByNames
    unfoldable pub by_names : Str → StringSet → Option (List Object)
    by_names api_namespace names =
        if api_namespace == codes "*" then some [] else elim (admin_list api_namespace) [
          | none ↦ none
          | some objs ↦ some (keep (λ obj. has names obj.object_name) objs)
        ]

    -- byNameOrNamespaceStore.List
    unfoldable pub list_partition : Str → ProxyPartition → Option (List Object)
    list_partition api_namespace p =
        if p.to_proxy
        then user_list api_namespace
        else if p.every_object
        then user_list p.in_namespace
        else by_names p.in_namespace p.some_names
