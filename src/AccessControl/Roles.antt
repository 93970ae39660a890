-- ===== src/AccessControl/Roles.antt =====
-- pkg/accesscontrol/policy_rule_index.go and user_grants.go: from the bindings of a subject to
-- the access set that its roles grant. The Kubernetes types are read through the fields that the
-- code uses. The informer caches are a parameter, as is MakeUsername of k8s.io/apiserver.
pub mod Rules
use steve.Common.{
  Str, str_eq, codes, ◌==◌, Bool, true, false, ◌&&◌, ◌||◌, not, List, [], ◌∷◌, ◌++◌, foldl, map,
  Option, none, some, if◌then◌else◌, length, ltb,
}
use steve.Common.Sorting.{sort_by}
use steve.AccessControl.AccessSet.{
  AccessSet, Access, GroupResource, all, empty, add, add_non_resource_urls,
}

-- rbacv1.PolicyRule
pub record PolicyRule : Type 0 where
  pub verbs : List Str
  pub api_groups : List Str
  pub resources : List Str
  pub resource_names : List Str
  pub non_resource_urls : List Str

-- rbacv1.Subject
pub record Subject : Type 0 where
  pub kind : Str
  pub api_group : Str
  pub name : Str
  pub namespace : Str

-- rbacv1.RoleRef
pub record RoleTarget : Type 0 where
  pub kind : Str
  pub name : Str

-- A Role or a ClusterRole.
pub record Role : Type 0 where
  pub rules : List PolicyRule
  pub resource_version : Str

-- A RoleBinding, or a ClusterRoleBinding with no namespace.
pub record Binding : Type 0 where
  pub uid : Str
  pub namespace : Str
  pub role_ref : RoleTarget
  pub subjects : List Subject

abbrev pub rbac_group : Str
rbac_group = codes "rbac.authorization.k8s.io"

abbrev pub group_kind : Str
group_kind = codes "Group"

abbrev pub user_kind : Str
user_kind = codes "User"

abbrev pub svc_account_kind : Str
svc_account_kind = codes "ServiceAccount"

abbrev pub cluster_role_kind : Str
cluster_role_kind = codes "ClusterRole"

abbrev pub role_kind : Str
role_kind = codes "Role"

-- roleRef of user_grants.go
pub record RoleRef : Type 0 where
  pub namespace : Str
  pub role_name : Str
  pub resource_version : Str
  pub kind : Str
  pub rules : List PolicyRule

pub record SubjectGrants : Type 0 where
  pub role_bindings : List RoleRef
  pub cluster_role_bindings : List RoleRef

unfoldable pub subject_is : Str → Subject → Bool
subject_is kind s = (s.api_group == rbac_group) && (s.kind == kind)

unfoldable pub subject_is_service_account : Subject → Bool
subject_is_service_account s =
    (s.api_group == []) && ((s.kind == svc_account_kind) && not (s.namespace == []))

module _ (make_username : Str → Str → Str) where
  unfoldable pub index_subjects : Str → List Subject → List Str
  index_subjects kind [] = []
  index_subjects kind (s ∷ rest) =
      let result = index_subjects kind rest in
      if subject_is kind s
      then s.name ∷ result
      else if (kind == user_kind) && subject_is_service_account s
      then make_username s.namespace s.name ∷ result
      else result

  -- clusterRoleBindingBySubjectIndexer
  unfoldable pub cluster_role_binding_index : Str → Binding → List Str
  cluster_role_binding_index kind crb =
      if not (crb.role_ref.kind == cluster_role_kind) then [] else index_subjects kind crb.subjects

  -- roleBindingBySubjectIndexer
  unfoldable pub role_binding_index : Str → Binding → List Str
  role_binding_index kind rb = index_subjects kind rb.subjects

-- The access that one rule adds for one name of one resource.
unfoldable pub access_of : Str → Str → Str → Str → Access
access_of ns group resource name =
    if not (ns == all)
      && ((resource == codes "namespaces") && ((group == []) && ((name == all) || (name == ns))))
    then record { namespace = all; resource_name = ns }
    else record { namespace = ns; resource_name = name }

-- `names` of addResourceAccess
unfoldable pub names_of : PolicyRule → List Str
names_of rule = elim rule.resource_names [ [] ↦ all ∷ [] | n ∷ ns ↦ n ∷ ns ]

unfoldable pub add_resource_access : AccessSet → Str → PolicyRule → AccessSet
add_resource_access a ns rule =
    foldl
      (λ a group.
        foldl
          (λ a resource.
            foldl
              (λ a name.
                foldl
                  (λ a verb.
                    add a verb (record { group = group; resource = resource })
                      (access_of ns group resource name))
                  a rule.verbs)
              a (names_of rule))
          a rule.resources)
      a rule.api_groups

-- One round of the loop of addAccess.
add_rule : Str → Str → AccessSet → PolicyRule → AccessSet
add_rule ns kind a rule =
    if ltb 0 (length rule.resources)
    then add_resource_access a ns rule
    else if kind == cluster_role_kind
    then add_non_resource_urls a rule.verbs rule.non_resource_urls
    else a

unfoldable pub add_access : AccessSet → Str → RoleRef → AccessSet
unfolding add_rule
add_access a ns ref = foldl (add_rule ns ref.kind) a ref.rules

-- subjectGrants.toAccessSet
unfoldable pub to_access_set : SubjectGrants → AccessSet
to_access_set b =
    let a = foldl (λ a r. add_access a r.namespace r) empty b.role_bindings in
    foldl (λ a r. add_access a all r) a b.cluster_role_bindings

-- The wrangler caches of one kind of subject. `none` is an error.
pub record Caches : Type 0 where
  pub cluster_role : Str → Option Role
  pub role : Str → Str → Option Role
  pub cluster_role_bindings_by : (Binding → List Str) → Str → Option (List Binding)
  pub role_bindings_by : (Binding → List Str) → Str → Option (List Binding)

abbrev pub rules_found : Option Role → List PolicyRule × Str
rules_found none = ([], [])
rules_found (some r) = (r.rules, r.resource_version)

abbrev pub or_nil : Option (List Binding) → List Binding
or_nil none = []
or_nil (some l) = l

module _ (p : Caches) where
  unfoldable pub get_rules : Str → RoleTarget → List PolicyRule × Str
  get_rules ns ref =
      if ref.kind == cluster_role_kind
      then rules_found (p.cluster_role ref.name)
      else if ref.kind == role_kind
      then rules_found (p.role ns ref.name)
      else ([], [])

  -- One round of each loop of getRoleRefs.
  unfoldable pub cluster_ref : Binding → RoleRef
  cluster_ref crb =
      let found = get_rules all crb.role_ref in
      record {
        namespace = [];
        role_name = crb.role_ref.name;
        resource_version = found.1;
        kind = cluster_role_kind;
        rules = found.0;
      }

  unfoldable pub role_ref_of : Binding → RoleRef
  role_ref_of rb =
      let found = get_rules rb.namespace rb.role_ref in
      record {
        namespace = rb.namespace;
        role_name = rb.role_ref.name;
        resource_version = found.1;
        kind = role_kind;
        rules = found.0;
      }

module _ (make_username : Str → Str → Str) (p : Caches) where
  unfoldable pub get_cluster_role_bindings : Str → Str → List Binding
  get_cluster_role_bindings kind subject_name =
      sort_by (λ b. b.uid)
        (or_nil
          (p.cluster_role_bindings_by (cluster_role_binding_index make_username kind) subject_name))

  unfoldable pub get_role_bindings : Str → Str → List Binding
  get_role_bindings kind subject_name =
      sort_by (λ b. b.uid)
        (or_nil (p.role_bindings_by (role_binding_index make_username kind) subject_name))

  -- getRoleRefs, for an index of users (`user_kind`) or of groups (`group_kind`)
  unfoldable pub get_role_refs : Str → Str → SubjectGrants
  unfolding cluster_ref role_ref_of
  get_role_refs kind subject_name = record {
    role_bindings = map (role_ref_of p) (get_role_bindings kind subject_name);
    cluster_role_bindings = map (cluster_ref p) (get_cluster_role_bindings kind subject_name);
  }
