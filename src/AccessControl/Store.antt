-- ===== src/AccessControl/Store.antt =====
-- pkg/accesscontrol/access_store.go and userGrants of user_grants.go: the access set of a user,
-- kept under a digest of the roles that it was made from.
pub mod Grants
pub mod Digits
pub mod Bindings
pub mod Written
pub mod Cached
use steve.Common.{
  Str, str_eq, ◌==◌, true, false, ◌≡◌, ◌⊎◌, List, [], ◌∷◌, ◌++◌, foldl, map, Option, none, some,
  if◌then◌else◌,
}
use steve.Common.Sorting.{sort_by}
use steve.AccessControl.AccessSet.{AccessSet, merge}
use steve.AccessControl.Roles.{
  RoleRef, SubjectGrants, Caches, user_kind, group_kind, get_role_refs, to_access_set,
}

-- userGrants
pub record UserGrants : Type 0 where
  pub user : SubjectGrants
  pub groups : List SubjectGrants

-- user.Info of k8s.io/apiserver, as far as it is read
pub record UserInfo : Type 0 where
  pub name : Str
  pub groups : List Str

-- What roleRef.writeTo writes.
unfoldable pub write_role : RoleRef → Str
write_role r =
    r.role_name ++ ((if r.namespace == [] then [] else r.namespace) ++ r.resource_version)

-- What subjectGrants.writeTo writes: the role bindings, then the cluster role bindings.
unfoldable pub write_subject : SubjectGrants → Str
unfolding write_role
write_subject b =
    foldl (λ d r. d ++ write_role r) (foldl (λ d r. d ++ write_role r) [] b.role_bindings)
      b.cluster_role_bindings

-- All that userGrants.hash writes.
unfoldable pub written : UserGrants → Str
unfolding write_subject
written u = foldl (λ d g. d ++ write_subject g) (write_subject u.user) u.groups

module _ (make_username : Str → Str → Str) (p : Caches) where
  unfoldable pub user_grants_for : UserInfo → UserGrants
  user_grants_for user = record {
    user = get_role_refs make_username p user_kind user.name;
    groups = map (get_role_refs make_username p group_kind) (sort_by (λ g. g) user.groups);
  }

unfoldable pub new_access_set : UserGrants → AccessSet
new_access_set info = foldl (λ a g. merge a (to_access_set g)) (to_access_set info.user) info.groups

-- accessStoreCache, the part of LRUExpireCache that the store uses. An entry may be dropped at any
-- time, by age or for room.
pub record Cache (C : Type 0) : Type 0 where
  pub cache_get : C → Str → Option AccessSet
  pub cache_add : C → Str → AccessSet → C
  pub cache_remove : C → Str → C
  -- a read after Add finds the new entry or what was there
  pub get_add :
      (c : C) (k j : Str) (v w : AccessSet)
      → cache_get (cache_add c k v) j ≡ some w
      → ((k == j) ≡ true) × (w ≡ v) ⊎ (cache_get c j ≡ some w)
  -- a read after Remove finds what was there under another key
  pub get_remove :
      (c : C) (k j : Str) (w : AccessSet)
      → cache_get (cache_remove c k) j ≡ some w
      → ((k == j) ≡ false) × (cache_get c j ≡ some w)

-- `sum` is the hexadecimal SHA-256 of what was written.
module _ {C : Type 0} (k : Cache C) (sum : Str → Str) where
  -- userGrants.hash
  unfoldable pub digest : UserGrants → Str
  digest u = sum (written u)

  -- AccessStore.AccessFor from the grants on. `none` is a store without a cache. The calls that
  -- singleflight runs for one key at a time are one call here.
  unfoldable pub access_for : Option C → UserGrants → Option C × AccessSet
  unfolding digest
  access_for none info = (none, new_access_set info)
  access_for (some c) info =
      let cache_key = digest info in
      elim (k.cache_get c cache_key) [
        | some val ↦ (some c, val)
        | none ↦
            let result = record (new_access_set info) { id = cache_key } in
            (some (k.cache_add c cache_key result), result)
      ]

  -- AccessStore.PurgeUserData
  unfoldable pub purge_user_data : C → Str → C
  purge_user_data c id = k.cache_remove c id
