-- ===== src/AccessControl/Roles/Rules.antt =====
-- What the rules of a role add to the accesses that a set grants.
use steve.Common.{
  Str, str_eq, str_beq_iff, and_true, any_elim, codes, ◌==◌, Bool, true, false, ◌&&◌, ◌||◌, List,
  [], ◌∷◌, foldl, ◌≡◌, refl, arith, any, any-foldl, any-and, any-and_right, ap, ◌∙◌, foldl_keeps,
  Bool-cases, inl, inr, length, ltb,
}
use steve.Common.Maps.{lookup}
use steve.AccessControl.AccessSet.{
  AccessSet, Access, GroupResource, all, empty, add, add_non_resource_urls, grants, access_grants,
  at,
}
use steve.AccessControl.AccessSet.Grants.{grants-add, IsMap, add-IsMap, covers, covers_key}
use steve.AccessControl.Roles.{
  PolicyRule, RoleRef, SubjectGrants, access_of, names_of, add_resource_access, add_rule,
  add_access, to_access_set,
}

-- A request: may the user do `verb` to the object `name` of `gr` in `ns`?
pub record Request : Type 0 where
  pub verb : Str
  pub gr : GroupResource
  pub ns : Str
  pub name : Str

abbrev pub granted : Request → AccessSet → Bool
granted q a = grants a q.verb q.gr q.ns q.name

-- What a rule that is bound in a namespace, or in all of them, allows: its verbs, one of its
-- groups, one of its resources and one of its names have to cover the request.
unfoldable pub rule_allows : Request → Str → PolicyRule → Bool
rule_allows q ns rule =
    any (λ v. covers v q.verb) rule.verbs
    && any
        (λ g.
          covers g q.gr.group
          && any
              (λ r.
                covers r q.gr.resource
                && any (λ n. access_grants (access_of ns g r n) q.ns q.name) (names_of rule))
              rule.resources)
        rule.api_groups

none_granted : (q : Request) → granted q empty ≡ false
unfolding grants at lookup any
none_granted q = refl

module _ (q : Request) (rule : PolicyRule) where
  -- The verbs of the rule cover the request.
  some_verb : Bool
  some_verb = any (λ v. covers v q.verb) rule.verbs

  by_verb : Str → Str → Access → Str → Bool
  by_verb g r x v =
      covers v q.verb
      && (covers g q.gr.group && (covers r q.gr.resource && access_grants x q.ns q.name))

  round-verb :
      (g r : Str) (x : Access) (a : AccessSet) (v : Str)
      → granted q (add a v (record { group = g; resource = r }) x)
        ≡ (granted q a || by_verb g r x v)
  unfolding by_verb covers_key
  round-verb g r x a v =
      grants-add a v (record { group = g; resource = r }) x q.verb q.gr q.ns q.name ∙ ground arith

  -- The loop over the verbs.
  loop-verbs :
      (g r : Str) (x : Access) (a : AccessSet)
      → granted q (foldl (λ a v. add a v (record { group = g; resource = r }) x) a rule.verbs) ≡ (
          granted q a
          || (some_verb
              && (covers g q.gr.group && (covers r q.gr.resource && access_grants x q.ns q.name))))
  unfolding by_verb some_verb
  loop-verbs g r x a =
      any-foldl (granted q) (λ a v. add a v (record { group = g; resource = r }) x) (by_verb g r x)
        (round-verb g r x) a rule.verbs
      ∙ ap (λ b. granted q a || b) (any-and_right _ (λ v. covers v q.verb) rule.verbs)

granted-add_resource_access :
    (q : Request) (ns : Str) (a : AccessSet) (rule : PolicyRule)
    → granted q (add_resource_access a ns rule) ≡ (granted q a || rule_allows q ns rule)
unfolding add_resource_access rule_allows some_verb
granted-add_resource_access q ns a rule =
    any-foldl (granted q) _ _
      (λ a g.
        any-foldl (granted q) _ _
          (λ a r.
            any-foldl (granted q) _ _ (λ a n. loop-verbs q rule g r (access_of ns g r n) a) a
              (names_of rule))
          a rule.resources)
      a rule.api_groups
    ∙ ap (λ b. granted q a || b) (simp any-and)

same_set :
    (q : Request) (a : AccessSet) (l : List Str) (m : List Str)
    → granted q (add_non_resource_urls a l m) ≡ granted q a
unfolding add_non_resource_urls grants at
same_set q a l m = ground arith

-- A rule with no resources allows no request for a resource.
no_resources :
    (q : Request) (ns : Str) (rule : PolicyRule)
    → rule.resources ≡ []
    → rule_allows q ns rule ≡ false
unfolding rule_allows any
no_resources q ns rule e =
    simp (e, any-and_right false (λ g. covers g q.gr.group) rule.api_groups) (ground arith)

granted-add_rule :
    (q : Request) (ns kind : Str) (a : AccessSet) (rule : PolicyRule)
    → granted q (add_rule ns kind a rule) ≡ (granted q a || rule_allows q ns rule)
unfolding add_rule
granted-add_rule q ns kind a rule = ground (
  arith,
  granted-add_resource_access q ns a rule,
  same_set q a rule.verbs rule.non_resource_urls,
  no_resources q ns rule,
)

-- What a role allows, bound in a namespace or in all of them.
unfoldable pub role_allows : Request → Str → List PolicyRule → Bool
role_allows q ns rules = any (rule_allows q ns) rules

pub granted-add_access :
    (q : Request) (a : AccessSet) (ns : Str) (ref : RoleRef)
    → granted q (add_access a ns ref) ≡ (granted q a || role_allows q ns ref.rules)
unfolding add_access role_allows
granted-add_access q a ns ref =
    any-foldl (granted q) (add_rule ns ref.kind) (rule_allows q ns) (granted-add_rule q ns ref.kind)
      a ref.rules

-- A subject is granted what one of its roles allows: a role that is bound in a namespace for that
-- namespace, and one that is bound in the cluster for all of them.
pub granted-to_access_set :
    (q : Request) (b : SubjectGrants)
    → granted q (to_access_set b) ≡ (
        any (λ r. role_allows q r.namespace r.rules) b.role_bindings
        || any (λ r. role_allows q all r.rules) b.cluster_role_bindings)
unfolding to_access_set
granted-to_access_set q b =
    any-foldl (granted q) _ _ (λ a r. granted-add_access q a all r) _ b.cluster_role_bindings
    ∙ ap (λ x. x || any (λ r. role_allows q all r.rules) b.cluster_role_bindings)
        (any-foldl (granted q) _ _ (λ a r. granted-add_access q a r.namespace r) empty
            b.role_bindings
          ∙ ap (λ x. x || any (λ r. role_allows q r.namespace r.rules) b.role_bindings)
              (none_granted q))

add_resource_access-IsMap :
    (a : AccessSet) (ns : Str) (rule : PolicyRule) → IsMap a → IsMap (add_resource_access a ns rule)
unfolding add_resource_access
add_resource_access-IsMap a ns rule =
    foldl_keeps IsMap _
      (λ a g.
        foldl_keeps IsMap _
          (λ a r.
            foldl_keeps IsMap _ (λ a n. foldl_keeps IsMap _ (λ a v. add-IsMap a v _ _) a rule.verbs)
              a (names_of rule))
          a rule.resources)
      a rule.api_groups

add_rule-IsMap :
    (ns kind : Str) (a : AccessSet) (rule : PolicyRule) → IsMap a → IsMap (add_rule ns kind a rule)
unfolding add_rule add_non_resource_urls
add_rule-IsMap ns kind a rule h = elim (Bool-cases (ltb 0 (length rule.resources))) [
  | inl some_resource ↦ rw some_resource (add_resource_access-IsMap a ns rule h)
  | inr no_resource ↦ rw no_resource (ground arith)
]

add_access-IsMap :
    (ns : Str) (a : AccessSet) (ref : RoleRef) → IsMap a → IsMap (add_access a ns ref)
unfolding add_access
add_access-IsMap ns a ref = foldl_keeps IsMap _ (add_rule-IsMap ns ref.kind) a ref.rules

pub to_access_set-IsMap : (b : SubjectGrants) → IsMap (to_access_set b)
unfolding to_access_set
to_access_set-IsMap b =
    foldl_keeps IsMap _ (λ a r. add_access-IsMap all a r) _ b.cluster_role_bindings
      (foldl_keeps IsMap _ (λ a r. add_access-IsMap r.namespace a r) empty b.role_bindings tt)

-- A request that a role bound in this namespace may allow: for an object in it, or for the
-- namespace itself.
abbrev pub confined : Request → Str → Bool
confined q ns =
    (ns == q.ns)
    || ((ns == q.name) && (covers [] q.gr.group && covers (codes "namespaces") q.gr.resource))

access_of-confined :
    (q : Request) (ns g r n : Str)
    → (ns == all) ≡ false
    → (covers g q.gr.group
        && (covers r q.gr.resource && access_grants (access_of ns g r n) q.ns q.name))
      ≡ true
    → confined q ns ≡ true
unfolding access_of access_grants
access_of-confined q ns g r n outside h =
    ground (arith, str_beq_iff r (codes "namespaces"), str_beq_iff g [])

role_confined :
    (q : Request) (ns : Str) (rules : List PolicyRule)
    → (ns == all) ≡ false
    → role_allows q ns rules ≡ true
    → confined q ns ≡ true
unfolding role_allows rule_allows
role_confined q ns rules outside = any_elim (rule_allows q ns) (confined q ns) rules λ rule h.
    any_elim _ (confined q ns) rule.api_groups
      (λ g hg.
        let in_group = (and_true _ _).0 hg in
        any_elim _ (confined q ns) rule.resources
          (λ r hr.
            let in_resource = (and_true _ _).0 hr in
            any_elim _ (confined q ns) (names_of rule)
              (λ n hn.
                access_of-confined q ns g r n outside
                  ((and_true _ _).1 (in_group.0, (and_true _ _).1 (in_resource.0, hn))))
              in_resource.1)
          in_group.1)
      ((and_true _ _).0 h).1

refs_confined :
    (q : Request) (l : List RoleRef)
    → any (λ r. r.namespace == all) l ≡ false
    → any (λ r. role_allows q r.namespace r.rules) l ≡ true
    → any (λ r. confined q r.namespace) l ≡ true
unfolding any
refs_confined q [] outside h = h
refs_confined q (r ∷ l) outside h =
    ground (arith, role_confined q r.namespace r.rules, refs_confined q l)

-- What only role bindings grant stays in their namespaces, none of which is the wildcard: an
-- object of such a namespace, or the namespace itself as an object of the core resource
-- `namespaces`.
pub role_bindings_confined :
    (q : Request) (l : List RoleRef)
    → any (λ r. r.namespace == all) l ≡ false
    → granted q (to_access_set (record { role_bindings = l; cluster_role_bindings = [] })) ≡ true
    → any (λ r. confined q r.namespace) l ≡ true
unfolding any
role_bindings_confined q l outside h = refs_confined q l outside (
    ground
      (arith, granted-to_access_set q (record { role_bindings = l; cluster_role_bindings = [] })))
