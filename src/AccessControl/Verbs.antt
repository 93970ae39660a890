-- ===== src/AccessControl/Verbs.antt =====
-- The second half of pkg/accesscontrol/access_set.go: access lists by verb, and the names that
-- they grant in each namespace.
pub mod Granted
pub mod Reads
use steve.Common.{
  Str, str_eq, codes, ◌==◌, Bool, true, false, ◌||◌, List, [], ◌∷◌, foldl, any, if◌then◌else◌, not,
  ltb, length, Option, none, some,
}
use steve.Common.Maps.{lookup, insert}
use steve.Common.Sets.{StringSets}
use steve.AccessControl.AccessSet.{Access, all, access_grants}

abbrev pub AccessList : Type 0
AccessList = List Access

abbrev pub AccessListByVerb : Type 0
AccessListByVerb = List (Str × AccessList)

-- a[verb]: a missing verb reads as the nil list
unfoldable pub for_verb : AccessListByVerb → Str → AccessList
for_verb a verb = elim (lookup verb a) [ none ↦ [] | some l ↦ l ]

-- AccessList.Grants
unfoldable pub list_grants : AccessList → Str → Str → Bool
list_grants l ns name = any (λ a. access_grants a ns name) l

-- AccessListByVerb.Grants
unfoldable pub verb_grants : AccessListByVerb → Str → Str → Str → Bool
verb_grants a verb ns name = list_grants (for_verb a verb) ns name

-- AccessListByVerb.All
unfoldable pub all_granted : AccessListByVerb → Str → Bool
all_granted a verb = verb_grants a verb all all

-- AccessListByVerb.AnyVerb
unfoldable pub any_verb : AccessListByVerb → List Str → Bool
any_verb a verbs = any (λ v. ltb 0 (length (for_verb a v))) verbs

module _ (sets : StringSets) where
  open sets use {StringSet, new, insert as add_name}

  pub record Resources : Type 0 where
    pub all_names : Bool
    pub names : StringSet

  -- The zero value, which a read of a missing namespace returns.
  abbrev pub nothing : Resources
  nothing = record { all_names = false; names = new }

  abbrev pub ResourceMap : Type 0
  ResourceMap = List (Str × Resources)

  -- result[ns]
  unfoldable pub resources_in : ResourceMap → Str → Resources
  resources_in m ns = elim (lookup ns m) [ none ↦ nothing | some r ↦ r ]

  -- A round of the first loop of Granted.
  unfoldable pub grant_access : ResourceMap → Access → ResourceMap
  grant_access result access =
      let resources = resources_in result access.namespace in
      insert access.namespace
        (if access.resource_name == all
          then record resources { all_names = true }
          else record resources { names = add_name access.resource_name resources.names })
        result

  -- A round of the second loop, which looks for objects referenced by get.
  unfoldable pub grant_get : ResourceMap → Access → ResourceMap
  grant_get result access =
      let resources = resources_in result access.namespace in
      if access.resource_name == all
      then result
      else if ltb 0 (length access.resource_name)
      then insert access.namespace
          (record resources { names = add_name access.resource_name resources.names }) result
      else result

  -- AccessListByVerb.Granted
  unfoldable pub granted_resources : AccessListByVerb → Str → ResourceMap
  granted_resources a verb =
      let result = foldl grant_access [] (for_verb a verb) in
      if verb == codes "list" then foldl grant_get result (for_verb a (codes "get")) else result
