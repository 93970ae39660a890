-- ===== src/AccessControl/Tests/Cache.antt =====
-- A cache that drops nothing, read after one call of AccessFor.
use steve.Common.{
  Str, str_eq, ◌==◌, ◌≡◌, refl, true, false, List, [], ◌∷◌, some, arith, codes, sym, inl, inr, ◌⊎◌,
  subst, str_beq, String, if◌then◌else◌,
}
use steve.Common.Maps.{lookup, insert, lookup-insert, remove, lookup-remove}
use steve.AccessControl.AccessSet.{AccessSet}
use steve.AccessControl.Store.{UserGrants, Cache, access_for, digest, written}
use steve.AccessControl.Roles.{PolicyRule, RoleRef}
use steve.AccessControl.Store.Bindings.{IsSameGrants, AllVersioned}
use steve.AccessControl.Store.Cached.{made, IsMade, access_for-some, access_for-IsMade}

abbrev Entries : Type 0
Entries = List (Str × AccessSet)

found_after_add :
    (c : Entries) (k j : Str) (v w : AccessSet)
    → lookup j (insert k v c) ≡ some w
    → ((k == j) ≡ true) × (w ≡ v) ⊎ (lookup j c ≡ some w)
found_after_add c k j v w h = ground (arith, lookup-insert k j v c)

found_after_remove :
    (c : Entries) (k j : Str) (w : AccessSet)
    → lookup j (remove k c) ≡ some w
    → ((k == j) ≡ false) × (lookup j c ≡ some w)
found_after_remove c k j w h = ground (arith, lookup-remove k j c)

abbrev plain_cache : Cache Entries
plain_cache = record {
  cache_get = λ c k. lookup k c;
  cache_add = λ c k v. insert k v c;
  cache_remove = λ c k. remove k c;
  get_add = found_after_add;
  get_remove = found_after_remove;
}

abbrev pods_rule : PolicyRule
pods_rule = record {
  verbs = codes "get" ∷ [];
  api_groups = [] ∷ [];
  resources = codes "pods" ∷ [];
  resource_names = [];
  non_resource_urls = [];
}

abbrev role_at : Str → Str → Str → Str → List PolicyRule
role_at kind namespace name version =
    if version == codes "8" then pods_rule ∷ pods_rule ∷ [] else pods_rule ∷ []

abbrev reader_role : String → RoleRef
reader_role version = record {
  namespace = codes "n1";
  role_name = codes "reader";
  resource_version = codes version;
  kind = codes "Role";
  rules = role_at (codes "Role") (codes "n1") (codes "reader") (codes version);
}

abbrev viewer_role : RoleRef
viewer_role = record {
  namespace = [];
  role_name = codes "1-viewer";
  resource_version = codes "12";
  kind = codes "ClusterRole";
  rules = pods_rule ∷ [];
}

abbrev reads : String → UserGrants
reads version = record {
  user = record {
    role_bindings = reader_role version ∷ [];
    cluster_role_bindings = viewer_role ∷ [];
  };
  groups = [];
}

-- The role was edited, by which its version changed.
abbrev reader : UserGrants
reader = reads "7"

abbrev edited : UserGrants
edited = reads "8"

abbrev digest_of : Str → Str
digest_of s = s

abbrev IsSeen : UserGrants → Type 0
IsSeen u = (u ≡ reader) ⊎ (u ≡ edited)

no_collision :
    (u v : UserGrants)
    → IsSeen u
    → IsSeen v
    → digest_of (written u) ≡ digest_of (written v)
    → written u ≡ written v
no_collision u v p q e = e

reader_versions : AllVersioned role_at reader
unfolding str_beq
reader_versions = record {
  user = (
    (record { digits = refl; named = refl; rules = refl }, tt),
    (record { digits = refl; named = refl; rules = refl }, tt),
  );
  groups = tt;
}

edited_versions : AllVersioned role_at edited
unfolding str_beq
edited_versions = record {
  user = (
    (record { digits = refl; named = refl; rules = refl }, tt),
    (record { digits = refl; named = refl; rules = refl }, tt),
  );
  groups = tt;
}

seen_versions : (u : UserGrants) → IsSeen u → AllVersioned role_at u
seen_versions u (inl p) = subst (AllVersioned role_at) (sym p) reader_versions
seen_versions u (inr p) = subst (AllVersioned role_at) (sym p) edited_versions

same_bindings : (version : String) → IsSameGrants (reads version) edited
same_bindings version = record {
  user = (
    (record { role_name = refl; namespace = refl; kind = refl }, tt),
    (record { role_name = refl; namespace = refl; kind = refl }, tt),
  );
  groups = tt;
}

seen_bindings : (u : UserGrants) → IsSeen u → IsSameGrants u edited
seen_bindings u (inl p) = subst (λ v. IsSameGrants v edited) (sym p) (same_bindings "7")
seen_bindings u (inr p) = subst (λ v. IsSameGrants v edited) (sym p) (same_bindings "8")

nothing-IsMade : IsMade plain_cache digest_of IsSeen []
unfolding lookup
nothing-IsMade = record { entry = λ key v h. cc }

abbrev once : Entries
once = insert (digest plain_cache digest_of reader) (made plain_cache digest_of reader) []

first_call : (access_for plain_cache digest_of (some []) reader).0 ≡ some once
unfolding access_for lookup made
first_call = refl

access_for-IsMade_example : IsMade plain_cache digest_of IsSeen once
access_for-IsMade_example =
    access_for-IsMade plain_cache digest_of IsSeen [] reader once (inl refl) nothing-IsMade
      first_call

-- The entry of the role as it was is there, and is not the answer for the role as it is.
access_for-some_example :
    (access_for plain_cache digest_of (some once) edited).1 ≡ made plain_cache digest_of edited
access_for-some_example =
    access_for-some plain_cache digest_of IsSeen once role_at edited no_collision seen_versions
      seen_bindings (inr refl)
      (access_for-IsMade plain_cache digest_of IsSeen [] reader once (inl refl) nothing-IsMade
        first_call)
