-- ===== src/AccessControl/Verbs/Granted.antt =====
-- What the map of Granted holds, tested entry by entry and read at a namespace.
use steve.Common.{
  Str, str_eq, codes, ◌==◌, ◌≡◌, Bool, true, ◌&&◌, ◌||◌, [], foldl, any, any-foldl, if◌then◌else◌,
  not, ltb, length, arith,
}
use steve.Common.Maps.{lookup, holds_at, any_update}
use steve.Common.Sets.{StringSets}
use steve.AccessControl.AccessSet.{Access, all}
use steve.AccessControl.Verbs.{
  AccessListByVerb, Resources, ResourceMap, resources_in, grant_access, grant_get,
  granted_resources, for_verb,
}

-- An access that is named, as the second loop asks.
abbrev pub is_named : Access → Bool
is_named x = not (x.resource_name == all) && ltb 0 (length x.resource_name)

-- The accesses that Granted reads for a verb: those of the verb, and for `list` the named ones
-- of `get`.
unfoldable pub readable : AccessListByVerb → Str → (Access → Bool) → Bool
readable a verb test =
    any test (for_verb a verb)
    || ((verb == codes "list") && any (λ x. is_named x && test x) (for_verb a (codes "get")))

abbrev pub covers_name : Str → Access → Bool
covers_name name x = (x.resource_name == all) || (x.resource_name == name)

module _ (sets : StringSets) where
  open sets use {has, has_new, has_insert}

  -- An entry of the map covers an object's name.
  abbrev pub names_object : Str → Resources sets → Bool
  names_object name r = r.all_names || has r.names name

  module _ (name : Str) (c : Str → Bool) where
    abbrev covered : ResourceMap sets → Bool
    covered m = any (λ e. c e.0 && names_object name e.1) m

    at_entry :
        (m : ResourceMap sets) (ns : Str)
        → names_object name (resources_in sets m ns) ≡ holds_at (names_object name) (lookup ns m)
    unfolding resources_in
    at_entry m ns = ground (arith, has_new name)

    -- A named access is one more member of its entry's names.
    named_more :
        (r : Resources sets) (x : Access)
        → names_object name (record r { names = sets.insert x.resource_name r.names })
          ≡ (names_object name r || (x.resource_name == name))
    named_more r x = rw has_insert (ground arith)

    entry_more :
        (m : ResourceMap sets) (x : Access)
        → names_object name (
            if x.resource_name == all
            then record (resources_in sets m x.namespace) { all_names = true }
            else record (resources_in sets m x.namespace) {
              names = sets.insert x.resource_name (resources_in sets m x.namespace).names;
            })
          ≡ (holds_at (names_object name) (lookup x.namespace m) || covers_name name x)
    unfolding resources_in
    entry_more m x = ground (arith, has_new name, named_more (resources_in sets m x.namespace) x)

    covered-grant_access :
        (m : ResourceMap sets) (x : Access)
        → covered (grant_access sets m x) ≡ (covered m || (c x.namespace && covers_name name x))
    unfolding grant_access
    covered-grant_access m x =
        any_update c (names_object name) (covers_name name x) x.namespace _ m (entry_more m x)

    covered-grant_get :
        (m : ResourceMap sets) (x : Access)
        → covered (grant_get sets m x)
          ≡ (covered m || (is_named x && (c x.namespace && covers_name name x)))
    unfolding grant_get
    covered-grant_get m x = ground (
      arith,
      any_update c (names_object name) (x.resource_name == name) x.namespace
          (record (resources_in sets m x.namespace) {
            names = sets.insert x.resource_name (resources_in sets m x.namespace).names;
          })
          m,
      named_more (resources_in sets m x.namespace) x,
      at_entry m x.namespace,
    )

    -- Some entry for a namespace of this kind covers the name exactly when an access that Granted
    -- reads, for a namespace of this kind, does.
    pub covered-granted_resources :
        (a : AccessListByVerb) (verb : Str)
        → covered (granted_resources sets a verb)
          ≡ readable a verb (λ x. c x.namespace && covers_name name x)
    unfolding granted_resources readable any
    covered-granted_resources a verb =
        let first =
          any-foldl covered (grant_access sets) (λ x. c x.namespace && covers_name name x)
            covered-grant_access [] (for_verb a verb) in
        let second =
          any-foldl covered (grant_get sets)
            (λ x. is_named x && (c x.namespace && covers_name name x)) covered-grant_get
            (foldl (grant_access sets) [] (for_verb a verb)) (for_verb a (codes "get")) in
        ground (arith, first, second)
