-- ===== src/AccessControl/Tests/Grants.antt =====
-- A cluster with one cluster role binding and one role binding, for a user in one group.
use steve.Common.{
  Str, codes, str_eq, str_beq, str_beq_iff, not, ◌==◌, ◌≡◌, refl, true, false, ◌&&◌, ◌||◌, [], ◌∷◌,
  some, any, any-keep, keep, contains, insert_key,
}
use steve.Common.Maps.{lookup, insert}
use steve.AccessControl.AccessSet.{
  AccessSet, access_list_for, namespaces, GroupResource, all, empty, add, merge, grants,
  access_grants, at, grants_non_resource, add_non_resource_urls,
}
use steve.AccessControl.AccessSet.Grants.{grants-merge, grants-add, add-IsMap, covers_key}
use steve.AccessControl.AccessSet.AccessLists.{any-access_list_for, contains-namespaces, reads_in}
use steve.AccessControl.AccessSet.NonResource.{grants-add_non_resource_urls}
use steve.AccessControl.Roles.{
  PolicyRule, Subject, Binding, RoleRef, Caches, rbac_group, user_kind, group_kind,
  cluster_role_kind, role_kind, access_of, names_of, add_resource_access, add_access, to_access_set,
}
use steve.AccessControl.Roles.Rules.{Request, granted, role_bindings_confined, confined}
use steve.AccessControl.Store.{UserInfo, user_grants_for, new_access_set}
use steve.AccessControl.Store.Grants.{HasBindings, access_set_lem, subject_allowed}

abbrev pods : GroupResource
pods = record { group = []; resource = codes "pods" }

abbrev reader : PolicyRule
reader = record {
  verbs = codes "get" ∷ codes "list" ∷ [];
  api_groups = [] ∷ [];
  resources = codes "pods" ∷ [];
  resource_names = [];
  non_resource_urls = [];
}

abbrev bob : Subject
bob = record { kind = user_kind; api_group = rbac_group; name = codes "bob"; namespace = [] }

abbrev devs : Subject
devs = record { kind = group_kind; api_group = rbac_group; name = codes "devs"; namespace = [] }

abbrev crb : Binding
crb = record {
  uid = codes "1";
  namespace = [];
  role_ref = record { kind = cluster_role_kind; name = codes "reader" };
  subjects = devs ∷ [];
}

abbrev rb : Binding
rb = record {
  uid = codes "2";
  namespace = codes "n1";
  role_ref = record { kind = role_kind; name = codes "reader" };
  subjects = bob ∷ [];
}

abbrev caches : Caches
caches = record {
  cluster_role = λ n. some (record { rules = reader ∷ []; resource_version = codes "7" });
  role = λ ns n. some (record { rules = reader ∷ []; resource_version = codes "8" });
  cluster_role_bindings_by = λ f s. some (keep (λ b. contains (f b) s) (crb ∷ []));
  role_bindings_by = λ f s. some (keep (λ b. contains (f b) s) (rb ∷ []));
}

caches-HasBindings : HasBindings caches (crb ∷ []) (rb ∷ [])
caches-HasBindings = record {
  by_cluster_index = λ f s test. any-keep test (λ b. contains (f b) s) (crb ∷ []);
  by_index = λ f s test. any-keep test (λ b. contains (f b) s) (rb ∷ []);
}

abbrev username : Str → Str → Str
username ns name = name

abbrev ask : Request
ask = record { verb = codes "get"; gr = pods; ns = codes "n1"; name = codes "p" }

abbrev bob_info : UserInfo
bob_info = record { name = codes "bob"; groups = codes "devs" ∷ [] }

access_set_lem_example : granted ask (new_access_set (user_grants_for username caches bob_info)) ≡ (
    subject_allowed username caches ask (crb ∷ []) (rb ∷ []) user_kind (codes "bob")
    || any
        (subject_allowed username caches ask (crb ∷ []) (rb ∷ []) group_kind)
        (codes "devs" ∷ []))
access_set_lem_example =
    access_set_lem username caches ask (crb ∷ []) (rb ∷ []) caches-HasBindings bob_info

abbrev in_n1 : RoleRef
in_n1 = record {
  namespace = codes "n1";
  role_name = codes "reader";
  resource_version = codes "8";
  kind = role_kind;
  rules = reader ∷ [];
}

granted-in_n1 :
    granted ask (to_access_set (record { role_bindings = in_n1 ∷ []; cluster_role_bindings = [] }))
    ≡ true
unfolding to_access_set add_access add_resource_access add at grants access_grants any access_of
    names_of lookup insert insert_key contains str_beq
granted-in_n1 = refl

not_everywhere : any (λ (r : RoleRef). r.namespace == all) (in_n1 ∷ []) ≡ false
unfolding any str_beq
not_everywhere = refl

role_bindings_confined_example : any (λ (r : RoleRef). confined ask r.namespace) (in_n1 ∷ []) ≡ true
role_bindings_confined_example =
    role_bindings_confined ask (in_n1 ∷ []) not_everywhere granted-in_n1

abbrev pod_p : AccessSet
pod_p = add empty (codes "get") pods (record { namespace = codes "n1"; resource_name = codes "p" })

abbrev every_pod : AccessSet
every_pod = add empty (codes "list") pods (record { namespace = all; resource_name = all })

grants-add_example : grants pod_p (codes "get") pods (codes "n1") (codes "p") ≡ (
    grants empty (codes "get") pods (codes "n1") (codes "p")
    || (covers_key (codes "get") pods (codes "get") pods
        && access_grants
            (record { namespace = codes "n1"; resource_name = codes "p" })
            (codes "n1")
            (codes "p")))
grants-add_example =
    grants-add empty (codes "get") pods
      (record { namespace = codes "n1"; resource_name = codes "p" }) (codes "get") pods (codes "n1")
      (codes "p")

grants-merge_example :
    grants (merge pod_p every_pod) (codes "list") pods (codes "n2") (codes "q") ≡ (
      grants pod_p (codes "list") pods (codes "n2") (codes "q")
      || grants every_pod (codes "list") pods (codes "n2") (codes "q"))
grants-merge_example =
    grants-merge pod_p every_pod (codes "list") pods (codes "n2") (codes "q")
      (add-IsMap empty (codes "list") pods (record { namespace = all; resource_name = all }) tt)

any-access_list_for_example :
    any (λ x. access_grants x (codes "n1") (codes "p")) (access_list_for pod_p (codes "get") pods)
    ≡ grants pod_p (codes "get") pods (codes "n1") (codes "p")
any-access_list_for_example = any-access_list_for pod_p (codes "get") pods (codes "n1") (codes "p")

contains-namespaces_example :
    contains (namespaces pod_p) (codes "n1")
    ≡ (not (codes "n1" == all) && reads_in pod_p (codes "n1"))
contains-namespaces_example = contains-namespaces pod_p (codes "n1")

grants-add_non_resource_urls_example :
    grants_non_resource str_beq str_beq
      (add_non_resource_urls empty (codes "get" ∷ []) (codes "/healthz" ∷ []))
      (codes "get")
      (codes "/healthz")
    ≡ (grants_non_resource str_beq str_beq empty (codes "get") (codes "/healthz")
        || any
            (λ v.
              any
                (λ u. str_beq u (codes "/healthz") && str_beq v (codes "get"))
                (codes "/healthz" ∷ []))
            (codes "get" ∷ []))
grants-add_non_resource_urls_example =
    grants-add_non_resource_urls str_beq str_beq (λ u. (str_beq_iff u u).1 refl)
      (λ v. (str_beq_iff v v).1 refl) empty (codes "get" ∷ []) (codes "/healthz" ∷ []) (codes "get")
      (codes "/healthz")
