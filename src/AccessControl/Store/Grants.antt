-- ===== src/AccessControl/Store/Grants.antt =====
-- What the access set of a user grants, from the bindings that the cluster holds.
use steve.Common.{
  Str, str_eq, str_beq_iff, ◌==◌, Bool, true, false, ◌&&◌, ◌||◌, ◌≡◌, refl, arith, List, [], ◌∷◌,
  map, any, contains, any-foldl, any-map, any-congr, ap₂, ◌∙◌,
}
use steve.Common.Sorting.{sort_by, any-sort_by}
use steve.AccessControl.AccessSet.{all}
use steve.AccessControl.AccessSet.Grants.{grants-merge}
use steve.AccessControl.Roles.{
  Subject, Binding, Caches, user_kind, group_kind, rbac_group, cluster_role_kind, get_role_refs,
  role_ref_of, cluster_ref, to_access_set, or_nil, get_rules, index_subjects, subject_is,
  subject_is_service_account, cluster_role_binding_index, role_binding_index,
  get_cluster_role_bindings, get_role_bindings,
}
use steve.AccessControl.Roles.Rules.{
  Request, granted, role_allows, granted-to_access_set, to_access_set-IsMap,
}
use steve.AccessControl.Store.{UserInfo, user_grants_for, new_access_set}

-- What the code relies on of the informer caches that hold these bindings: reading by an index
-- finds the bindings for which the index function lists the value.
pub record HasBindings (p : Caches) (crbs rbs : List Binding) : Type 0 where
  pub by_cluster_index :
      (f : Binding → List Str) (s : Str) (test : Binding → Bool)
      → any test (or_nil (p.cluster_role_bindings_by f s))
        ≡ any (λ b. contains (f b) s && test b) crbs
  pub by_index :
      (f : Binding → List Str) (s : Str) (test : Binding → Bool)
      → any test (or_nil (p.role_bindings_by f s)) ≡ any (λ b. contains (f b) s && test b) rbs

module _ (make_username : Str → Str → Str) where
  -- A subject of a binding that stands for the user or the group of this name.
  unfoldable pub is_subject : Str → Str → Subject → Bool
  is_subject kind name s =
      (subject_is kind s && (s.name == name))
      || ((kind == user_kind)
          && (subject_is_service_account s && (make_username s.namespace s.name == name)))

  -- A subject of the RBAC group is no service account: the core group is the empty one.
  not_both :
      (kind : Str) (s : Subject) → subject_is kind s ≡ true → subject_is_service_account s ≡ false
  unfolding subject_is subject_is_service_account
  not_both kind s h = ground (arith, str_beq_iff s.api_group rbac_group, str_beq_iff s.api_group [])

  contains-index_subjects :
      (kind name : Str) (l : List Subject)
      → contains (index_subjects make_username kind l) name ≡ any (is_subject kind name) l
  unfolding index_subjects contains any is_subject
  contains-index_subjects kind name [] = refl
  contains-index_subjects kind name (s ∷ l) =
      ground (arith, contains-index_subjects kind name l, not_both kind s)

  crb-index :
      (kind name : Str) (b : Binding) (t : Bool)
      → (contains (cluster_role_binding_index make_username kind b) name && t)
        ≡ ((b.role_ref.kind == cluster_role_kind) && (any (is_subject kind name) b.subjects && t))
  unfolding cluster_role_binding_index contains any
  crb-index kind name b t = ground (arith, contains-index_subjects kind name b.subjects)

  rb-index :
      (kind name : Str) (b : Binding) (t : Bool)
      → (contains (role_binding_index make_username kind b) name && t)
        ≡ (any (is_subject kind name) b.subjects && t)
  unfolding role_binding_index
  rb-index kind name b t = rw contains-index_subjects

module _ (make_username : Str → Str → Str) (p : Caches) (q : Request) where
  -- A cluster role binding allows the request to this subject.
  unfoldable pub crb_allows : Str → Str → Binding → Bool
  crb_allows kind name b =
      (b.role_ref.kind == cluster_role_kind)
      && (any (is_subject make_username kind name) b.subjects
          && role_allows q all (get_rules p all b.role_ref).0)

  -- A role binding allows the request to this subject.
  unfoldable pub rb_allows : Str → Str → Binding → Bool
  rb_allows kind name b =
      any (is_subject make_username kind name) b.subjects
      && role_allows q b.namespace (get_rules p b.namespace b.role_ref).0

  -- One of the bindings allows the request to this subject.
  unfoldable pub subject_allowed : List Binding → List Binding → Str → Str → Bool
  subject_allowed crbs rbs kind name =
      any (rb_allows kind name) rbs || any (crb_allows kind name) crbs

  module _ (crbs rbs : List Binding) (held : HasBindings p crbs rbs) where
    by_crb :
        (kind name : Str)
        → any
            (λ b. role_allows q all (get_rules p all b.role_ref).0)
            (get_cluster_role_bindings make_username p kind name)
          ≡ any (crb_allows kind name) crbs
    unfolding get_cluster_role_bindings crb_allows
    by_crb kind name =
        any-sort_by (λ b. b.uid) _
          (or_nil (p.cluster_role_bindings_by (cluster_role_binding_index make_username kind) name))
        ∙ held.by_cluster_index _ name _
        ∙ any-congr _ _
            (λ b.
              crb-index make_username kind name b
                (role_allows q all (get_rules p all b.role_ref).0))
            crbs

    by_rb :
        (kind name : Str)
        → any
            (λ b. role_allows q b.namespace (get_rules p b.namespace b.role_ref).0)
            (get_role_bindings make_username p kind name)
          ≡ any (rb_allows kind name) rbs
    unfolding get_role_bindings rb_allows
    by_rb kind name =
        any-sort_by (λ b. b.uid) _
          (or_nil (p.role_bindings_by (role_binding_index make_username kind) name))
        ∙ held.by_index _ name _
        ∙ any-congr _ _
            (λ b.
              rb-index make_username kind name b
                (role_allows q b.namespace (get_rules p b.namespace b.role_ref).0))
            rbs

    granted-get_role_refs :
        (kind name : Str)
        → granted q (to_access_set (get_role_refs make_username p kind name))
          ≡ subject_allowed crbs rbs kind name
    unfolding get_role_refs subject_allowed
    granted-get_role_refs kind name =
        granted-to_access_set q _
        ∙ ap₂ ◌||◌
            (any-map (λ r. role_allows q r.namespace r.rules) (role_ref_of p) _ ∙ by_rb kind name)
            (any-map (λ r. role_allows q all r.rules) (cluster_ref p) _ ∙ by_crb kind name)

    -- Where reading the informer caches by an index finds the bindings whose index lists the
    -- value, the access set that is made for a user grants a request for a resource exactly when a
    -- role binding or a cluster role binding that names the user, or one of its groups, refers to
    -- a role with a rule that allows it: in the namespace of the role binding, or everywhere.
    pub access_set_lem :
        (user : UserInfo)
        → granted q (new_access_set (user_grants_for make_username p user)) ≡ (
            subject_allowed crbs rbs user_kind user.name
            || any (subject_allowed crbs rbs group_kind) user.groups)
    unfolding new_access_set user_grants_for
    access_set_lem user =
        any-foldl (granted q) _ (λ g. granted q (to_access_set g))
          (λ a g. grants-merge a (to_access_set g) q.verb q.gr q.ns q.name (to_access_set-IsMap g))
          _ (map _ (sort_by (λ g. g) user.groups))
        ∙ ap₂ ◌||◌ (granted-get_role_refs user_kind user.name) (
            any-map (λ g. granted q (to_access_set g)) _ (sort_by (λ g. g) user.groups)
            ∙ any-sort_by (λ g. g) _ user.groups
            ∙ any-congr _ _ (granted-get_role_refs group_kind) user.groups)
