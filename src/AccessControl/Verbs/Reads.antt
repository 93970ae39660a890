-- ===== src/AccessControl/Verbs/Reads.antt =====
-- What a read of the map of Granted at one namespace finds.
use steve.Common.{
  Str, str_eq, str_beq_iff, codes, ◌==◌, ◌≡◌, refl, Bool, true, false, ◌&&◌, ◌||◌, [], foldl,
  any-foldl, if◌then◌else◌, not, arith,
}
use steve.Common.Maps.{lookup, insert, lookup-insert}
use steve.Common.Sets.{StringSets}
use steve.AccessControl.AccessSet.{Access, all}
use steve.AccessControl.Verbs.{
  AccessListByVerb, Resources, ResourceMap, nothing, resources_in, grant_access, grant_get,
  granted_resources, for_verb,
}
use steve.AccessControl.Verbs.Granted.{is_named, readable}

module _ (sets : StringSets) where
  -- The entry after a round of the loops.
  abbrev more : Resources sets → Access → Resources sets
  more r x =
      if x.resource_name == all
      then record r { all_names = true }
      else record r { names = sets.insert x.resource_name r.names }

  resources_in-insert :
      (m : ResourceMap sets) (k ns : Str) (r : Resources sets)
      → resources_in sets (insert k r m) ns ≡ (if k == ns then r else resources_in sets m ns)
  unfolding resources_in
  resources_in-insert m k ns r = rw (lookup-insert k ns r m, resources_in) (ground arith)

  module _ (t : Resources sets → Bool) (d : Access → Bool) (empty_lacks : t (nothing sets) ≡ false)
      (adds : (r : Resources sets) (x : Access) → t (more r x) ≡ (t r || d x)) (ns : Str) where
    abbrev reading : ResourceMap sets → Bool
    reading m = t (resources_in sets m ns)

    reading-grant_access :
        (m : ResourceMap sets) (x : Access)
        → reading (grant_access sets m x) ≡ (reading m || ((x.namespace == ns) && d x))
    unfolding grant_access
    reading-grant_access m x = ground (
      arith,
      resources_in-insert m x.namespace ns (more (resources_in sets m x.namespace) x),
      adds (resources_in sets m x.namespace) x,
      str_beq_iff x.namespace ns,
    )

    reading-grant_get :
        (m : ResourceMap sets) (x : Access)
        → reading (grant_get sets m x) ≡ (reading m || (is_named x && ((x.namespace == ns) && d x)))
    unfolding grant_get
    reading-grant_get m x = ground (
      arith,
      resources_in-insert m x.namespace ns (more (resources_in sets m x.namespace) x),
      adds (resources_in sets m x.namespace) x,
      str_beq_iff x.namespace ns,
    )

    reading-granted_resources :
        (a : AccessListByVerb) (verb : Str)
        → reading (granted_resources sets a verb)
          ≡ readable a verb (λ x. (x.namespace == ns) && d x)
    unfolding granted_resources readable resources_in lookup
    reading-granted_resources a verb =
        let first =
          any-foldl reading (grant_access sets) (λ x. (x.namespace == ns) && d x)
            reading-grant_access [] (for_verb a verb) in
        let second =
          any-foldl reading (grant_get sets) (λ x. is_named x && ((x.namespace == ns) && d x))
            reading-grant_get (foldl (grant_access sets) [] (for_verb a verb))
            (for_verb a (codes "get")) in
        ground (arith, first, second, empty_lacks)

  -- All holds at a namespace when an access of the verb names the wildcard there. (A named access
  -- of `get` never does.)
  pub all_names-granted :
      (a : AccessListByVerb) (verb ns : Str)
      → (resources_in sets (granted_resources sets a verb) ns).all_names
        ≡ readable a verb (λ x. (x.namespace == ns) && (x.resource_name == all))
  all_names-granted a verb ns =
      reading-granted_resources (λ r. r.all_names) (λ x. x.resource_name == all) refl
        (λ r x. ground arith) ns a verb

  -- Names holds a name at a namespace when an access that Granted reads has it there.
  pub has-granted :
      (name : Str) (a : AccessListByVerb) (verb ns : Str)
      → sets.has (resources_in sets (granted_resources sets a verb) ns).names name
        ≡ readable a verb (λ x.
          (x.namespace == ns) && (not (x.resource_name == all) && (x.resource_name == name)))
  has-granted name a verb ns =
      reading-granted_resources (λ r. sets.has r.names name)
        (λ x. not (x.resource_name == all) && (x.resource_name == name)) (sets.has_new name)
        (λ r x. ground (arith, sets.has_insert x.resource_name name r.names)) ns a verb
