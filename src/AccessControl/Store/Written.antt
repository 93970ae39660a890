-- ===== src/AccessControl/Store/Written.antt =====
-- What userGrants.hash of pkg/accesscontrol/user_grants.go writes, read back: where the bindings are
-- the same, it tells the versions of the roles.
use steve.Common.{
  ◌≡◌, refl, sym, ap, ◌∙◌, Str, str_eq, str_beq, str_beq_iff, ◌==◌, List, [], ◌∷◌, ◌++◌, foldl,
  length, arith, Bool-cases, inl, inr,
}
use mathlib.Core.List.{append-nil, append_assoc}
use steve.AccessControl.Roles.{PolicyRule, RoleRef, SubjectGrants}
use steve.AccessControl.Store.{write_role, write_subject, written, UserGrants}
use steve.AccessControl.Store.Digits.{lead, lead-digits, lead-other, cut_equal}
use steve.AccessControl.Store.Bindings.{
  place, IsSameRole, AreSameRoles, AreSameBindings, AreSameGroups, IsSameGrants, IsVersioned,
  AreVersioned, HasVersions, HaveVersions, AllVersioned,
}

write_role_lem : (r : RoleRef) (s : Str) → write_role r ++ s ≡ place r ++ (r.resource_version ++ s)
unfolding write_role str_beq
write_role_lem r s = elim (Bool-cases (r.namespace == [])) [
  | inl unnamed ↦
      let empty : r.namespace ≡ [] = (str_beq_iff r.namespace []).0 unnamed in
      rw (empty, append-nil r.role_name) (append_assoc r.role_name r.resource_version s)
  | inr named ↦ rw named (
      ap (λ t. t ++ s) (sym (append_assoc r.role_name r.namespace r.resource_version))
      ∙ append_assoc (place r) r.resource_version s)
]

-- What the roles write, one behind the other.
write_roles : List RoleRef → Str
write_roles [] = []
write_roles (r ∷ rs) = write_role r ++ write_roles rs

write_groups : List SubjectGrants → Str
write_groups [] = []
write_groups (g ∷ gs) = write_subject g ++ write_groups gs

foldl-write_role :
    (rs : List RoleRef) (d : Str) → foldl (λ d r. d ++ write_role r) d rs ≡ d ++ write_roles rs
unfolding write_roles
foldl-write_role [] d = sym (append-nil d)
foldl-write_role (r ∷ rs) d =
    foldl-write_role rs (d ++ write_role r) ∙ append_assoc d (write_role r) (write_roles rs)

foldl-write_subject :
    (gs : List SubjectGrants) (d : Str)
    → foldl (λ d g. d ++ write_subject g) d gs ≡ d ++ write_groups gs
unfolding write_groups
foldl-write_subject [] d = sym (append-nil d)
foldl-write_subject (g ∷ gs) d =
    foldl-write_subject gs (d ++ write_subject g)
    ∙ append_assoc d (write_subject g) (write_groups gs)

write_subject_lem :
    (b : SubjectGrants) (s : Str)
    → write_subject b ++ s
      ≡ write_roles b.role_bindings ++ (write_roles b.cluster_role_bindings ++ s)
unfolding write_subject
write_subject_lem b s =
    ap (λ t. t ++ s)
      (foldl-write_role b.cluster_role_bindings
          (foldl (λ d r. d ++ write_role r) [] b.role_bindings)
        ∙ ap (λ t. t ++ write_roles b.cluster_role_bindings) (foldl-write_role b.role_bindings []))
    ∙ append_assoc (write_roles b.role_bindings) (write_roles b.cluster_role_bindings) s

module _ (rules_at : Str → Str → Str → Str → List PolicyRule) where
  same_place : (r s : RoleRef) → IsSameRole r s → place r ≡ place s
  same_place r s h = λ i. h.role_name i ++ h.namespace i

  same_role :
      (r s : RoleRef)
      → IsSameRole r s
      → IsVersioned rules_at r
      → IsVersioned rules_at s
      → r.resource_version ≡ s.resource_version
      → r ≡ s
  same_role r s h vr vs e =
      let rules : r.rules ≡ s.rules =
        vr.rules
        ∙ (λ i. rules_at (h.kind i) (h.namespace i) (h.role_name i) (e i))
        ∙ sym vs.rules in
      λ i. record {
        namespace = h.namespace i;
        role_name = h.role_name i;
        resource_version = e i;
        kind = h.kind i;
        rules = rules i;
      }

  lead-write_role :
      (r : RoleRef) (s : Str) → IsVersioned rules_at r → lead (write_role r ++ s) ≡ lead (place r)
  lead-write_role r s v =
      rw (write_role_lem r s) (lead-other (place r) (r.resource_version ++ s) v.named)

  -- Behind the same roles both texts start with as many digits.
  lead-write_roles :
      (rs ss : List RoleRef) (x y : Str)
      → AreSameRoles rs ss
      → AreVersioned rules_at rs
      → AreVersioned rules_at ss
      → lead x ≡ lead y
      → lead (write_roles rs ++ x) ≡ lead (write_roles ss ++ y)
  unfolding write_roles
  lead-write_roles [] [] x y h v w e = e
  lead-write_roles [] (s ∷ ss) x y h v w e = absurd h
  lead-write_roles (r ∷ rs) [] x y h v w e = absurd h
  lead-write_roles (r ∷ rs) (s ∷ ss) x y (h, hs) (v, vs) (w, ws) e =
      rw
        (
          append_assoc (write_role r) (write_roles rs) x,
          append_assoc (write_role s) (write_roles ss) y,
          lead-write_role r (write_roles rs ++ x) v,
          lead-write_role s (write_roles ss ++ y) w,
        )
        (ap lead (same_place r s h))

  -- One role is read back.
  write_role_cut :
      (r s : RoleRef) (x y : Str)
      → IsSameRole r s
      → IsVersioned rules_at r
      → IsVersioned rules_at s
      → lead x ≡ lead y
      → write_role r ++ x ≡ write_role s ++ y
      → (r ≡ s) × (x ≡ y)
  write_role_cut r s x y h v w e same =
      let behind : r.resource_version ++ x ≡ s.resource_version ++ y =
        (cut_equal (place r) (place s) _ _ (ap length (same_place r s h))
          (sym (write_role_lem r x) ∙ same ∙ write_role_lem s y)).1 in
      let long : length r.resource_version ≡ length s.resource_version = omega (
        arith,
        lead-digits r.resource_version x v.digits,
        lead-digits s.resource_version y w.digits,
        ap lead behind,
        e,
      ) in
      let (versions, rest) = cut_equal r.resource_version s.resource_version x y long behind in
      (same_role r s h v w versions, rest)

  write_roles_cut :
      (rs ss : List RoleRef) (x y : Str)
      → AreSameRoles rs ss
      → AreVersioned rules_at rs
      → AreVersioned rules_at ss
      → lead x ≡ lead y
      → write_roles rs ++ x ≡ write_roles ss ++ y
      → (rs ≡ ss) × (x ≡ y)
  unfolding write_roles
  write_roles_cut [] [] x y h v w e same = (refl, same)
  write_roles_cut [] (s ∷ ss) x y h v w e same = absurd h
  write_roles_cut (r ∷ rs) [] x y h v w e same = absurd h
  write_roles_cut (r ∷ rs) (s ∷ ss) x y (h, hs) (v, vs) (w, ws) e same =
      let (first, behind) =
        write_role_cut r s (write_roles rs ++ x) (write_roles ss ++ y) h v w
          (lead-write_roles rs ss x y hs vs ws e)
          (sym (append_assoc (write_role r) (write_roles rs) x)
            ∙ same
            ∙ append_assoc (write_role s) (write_roles ss) y) in
      let (others, rest) = write_roles_cut rs ss x y hs vs ws e behind in
      ((λ i. first i ∷ others i), rest)

  lead-write_subject :
      (b c : SubjectGrants) (x y : Str)
      → AreSameBindings b c
      → HasVersions rules_at b
      → HasVersions rules_at c
      → lead x ≡ lead y
      → lead (write_subject b ++ x) ≡ lead (write_subject c ++ y)
  lead-write_subject b c x y (h, k) (v, vs) (w, ws) e =
      rw (write_subject_lem b x, write_subject_lem c y)
        (lead-write_roles b.role_bindings c.role_bindings _ _ h v w
          (lead-write_roles b.cluster_role_bindings c.cluster_role_bindings x y k vs ws e))

  write_subject_cut :
      (b c : SubjectGrants) (x y : Str)
      → AreSameBindings b c
      → HasVersions rules_at b
      → HasVersions rules_at c
      → lead x ≡ lead y
      → write_subject b ++ x ≡ write_subject c ++ y
      → (b ≡ c) × (x ≡ y)
  write_subject_cut b c x y (h, k) (v, vs) (w, ws) e same =
      let (roles, behind) =
        write_roles_cut b.role_bindings c.role_bindings _ _ h v w
          (lead-write_roles b.cluster_role_bindings c.cluster_role_bindings x y k vs ws e)
          (sym (write_subject_lem b x) ∙ same ∙ write_subject_lem c y) in
      let (cluster_roles, rest) =
        write_roles_cut b.cluster_role_bindings c.cluster_role_bindings x y k vs ws e behind in
      ((λ i. record { role_bindings = roles i; cluster_role_bindings = cluster_roles i }), rest)

  lead-write_groups :
      (gs hs : List SubjectGrants)
      → AreSameGroups gs hs
      → HaveVersions rules_at gs
      → HaveVersions rules_at hs
      → lead (write_groups gs) ≡ lead (write_groups hs)
  unfolding write_groups
  lead-write_groups [] [] h v w = refl
  lead-write_groups [] (c ∷ hs) h v w = absurd h
  lead-write_groups (b ∷ gs) [] h v w = absurd h
  lead-write_groups (b ∷ gs) (c ∷ hs) (h, more) (v, vs) (w, ws) =
      lead-write_subject b c (write_groups gs) (write_groups hs) h v w
        (lead-write_groups gs hs more vs ws)

  write_groups_cut :
      (gs hs : List SubjectGrants)
      → AreSameGroups gs hs
      → HaveVersions rules_at gs
      → HaveVersions rules_at hs
      → write_groups gs ≡ write_groups hs
      → gs ≡ hs
  unfolding write_groups
  write_groups_cut [] [] h v w same = refl
  write_groups_cut [] (c ∷ hs) h v w same = absurd h
  write_groups_cut (b ∷ gs) [] h v w same = absurd h
  write_groups_cut (b ∷ gs) (c ∷ hs) (h, more) (v, vs) (w, ws) same =
      let (first, behind) =
        write_subject_cut b c (write_groups gs) (write_groups hs) h v w
          (lead-write_groups gs hs more vs ws) same in
      let others = write_groups_cut gs hs more vs ws behind in λ i. first i ∷ others i

  -- Grants of the same bindings that write the same bytes are the same.
  pub written_lem :
      (u v : UserGrants)
      → IsSameGrants u v
      → AllVersioned rules_at u
      → AllVersioned rules_at v
      → written u ≡ written v
      → u ≡ v
  unfolding written
  written_lem u v h vu vv same =
      let (user, behind) =
        write_subject_cut u.user v.user (write_groups u.groups) (write_groups v.groups) h.user
          vu.user vv.user (lead-write_groups u.groups v.groups h.groups vu.groups vv.groups)
          (sym (foldl-write_subject u.groups (write_subject u.user))
            ∙ same
            ∙ foldl-write_subject v.groups (write_subject v.user)) in
      let groups = write_groups_cut u.groups v.groups h.groups vu.groups vv.groups behind in
      λ i. record { user = user i; groups = groups i }
