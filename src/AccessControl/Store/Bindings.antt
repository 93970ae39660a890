-- ===== src/AccessControl/Store/Bindings.antt =====
-- Grants of pkg/accesscontrol/user_grants.go with the same bindings, and the roles that they have.
use steve.Common.{◌≡◌, Str, str_eq, true, List, [], ◌∷◌, ◌++◌}
use steve.AccessControl.Roles.{PolicyRule, RoleRef, SubjectGrants}
use steve.AccessControl.Store.{UserGrants}
use steve.AccessControl.Store.Digits.{are_digits, has_other}

abbrev pub place : RoleRef → Str
place r = r.role_name ++ r.namespace

-- The same role of the same binding, whatever the role holds.
pub record IsSameRole (r s : RoleRef) : Type 0 where
  pub role_name : r.role_name ≡ s.role_name
  pub namespace : r.namespace ≡ s.namespace
  pub kind : r.kind ≡ s.kind

abbrev pub AreSameRoles : List RoleRef → List RoleRef → Type 0
AreSameRoles [] [] = Unit
AreSameRoles [] (s ∷ ss) = ⊥
AreSameRoles (r ∷ rs) [] = ⊥
AreSameRoles (r ∷ rs) (s ∷ ss) = IsSameRole r s × AreSameRoles rs ss

abbrev pub AreSameBindings : SubjectGrants → SubjectGrants → Type 0
AreSameBindings b c =
    AreSameRoles b.role_bindings c.role_bindings
    × AreSameRoles b.cluster_role_bindings c.cluster_role_bindings

abbrev pub AreSameGroups : List SubjectGrants → List SubjectGrants → Type 0
AreSameGroups [] [] = Unit
AreSameGroups [] (h ∷ hs) = ⊥
AreSameGroups (g ∷ gs) [] = ⊥
AreSameGroups (g ∷ gs) (h ∷ hs) = AreSameBindings g h × AreSameGroups gs hs

-- The same bindings, whose roles may have other versions and rules.
pub record IsSameGrants (u v : UserGrants) : Type 0 where
  pub user : AreSameBindings u.user v.user
  pub groups : AreSameGroups u.groups v.groups

-- The rules of a role by its kind, namespace, name and version, as the cluster has them: two states
-- of one object have different versions.
module _ (rules_at : Str → Str → Str → Str → List PolicyRule) where
  pub record IsVersioned (r : RoleRef) : Type 0 where
    pub digits : are_digits r.resource_version ≡ true
    pub named : has_other (place r) ≡ true
    pub rules : r.rules ≡ rules_at r.kind r.namespace r.role_name r.resource_version

  abbrev pub AreVersioned : List RoleRef → Type 0
  AreVersioned [] = Unit
  AreVersioned (r ∷ rs) = IsVersioned r × AreVersioned rs

  abbrev pub HasVersions : SubjectGrants → Type 0
  HasVersions b = AreVersioned b.role_bindings × AreVersioned b.cluster_role_bindings

  abbrev pub HaveVersions : List SubjectGrants → Type 0
  HaveVersions [] = Unit
  HaveVersions (g ∷ gs) = HasVersions g × HaveVersions gs

  pub record AllVersioned (u : UserGrants) : Type 0 where
    pub user : HasVersions u.user
    pub groups : HaveVersions u.groups
