-- ===== src/AccessControl/AccessSet/AccessLists.antt =====
-- The lists that are read off an access set.
use steve.Common.{
  Str, codes, str_eq, ◌==◌, ◌≡◌, ◌∙◌, Bool, ◌&&◌, ◌||◌, not, List, [], ◌∷◌, foldl, arith, any,
  any-foldl, any-insert_key, any-and, insert_key, if◌then◌else◌, contains, str_beq_iff,
}
use steve.Common.Sorting.{any-sort_by}
use steve.AccessControl.AccessSet.{
  GroupResource, Key, Access, AccessSet, ResourceAccessSet, all, access_grants, at, grants,
  access_list_for, access_eq, namespaces, collect_namespaces,
}

-- The list of AccessListFor grants what the set grants for its verb and resource.
pub any-access_list_for :
    (a : AccessSet) (verb : Str) (gr : GroupResource) (ns name : Str)
    → any (λ x. access_grants x ns name) (access_list_for a verb gr) ≡ grants a verb gr ns name
unfolding access_list_for grants any
any-access_list_for a verb gr ns name =
    let p : Access → Bool = λ x. access_grants x ns name in
    any-foldl (any p) _ _
      (λ d v.
        any-foldl (any p) _ _
          (λ d g.
            any-foldl (any p) _ _
              (λ d r.
                any-foldl (any p) (λ d k. insert_key k d) p (λ d k. any-insert_key p k d) d
                  (at a (record { verb = v; gr = record { group = g; resource = r } })))
              d (all ∷ gr.resource ∷ []))
          d (all ∷ gr.group ∷ []))
      [] (all ∷ verb ∷ [])

-- Whether the set holds an access in a namespace under one of the two reading verbs.
unfoldable pub reads_in : AccessSet → Str → Bool
reads_in a ns =
    any
      (λ e.
        (((e.0).verb == codes "get") || ((e.0).verb == codes "list"))
        && any (λ x. x.namespace == ns) e.1)
      a.set

module _ (ns : Str) where
  one_access :
      (result : List Str) (x : Access)
      → contains (if x.namespace == all then result else insert_key x.namespace result) ns
        ≡ (contains result ns || (not (ns == all) && (x.namespace == ns)))
  unfolding contains
  one_access result x = ground (
    arith,
    any-insert_key (λ y. y == ns) x.namespace result,
    str_beq_iff x.namespace all,
    str_beq_iff x.namespace ns,
    str_beq_iff ns all,
  )

  one_entry :
      (result : List Str) (e : Key × ResourceAccessSet)
      → contains (collect_namespaces result e) ns ≡ (
          contains result ns
          || (not (ns == all)
              && ((((e.0).verb == codes "get") || ((e.0).verb == codes "list"))
                  && any (λ x. x.namespace == ns) e.1)))
  unfolding collect_namespaces
  one_entry result (k, l) = ground (
    arith,
    any-foldl (λ r. contains r ns) _ (λ x. not (ns == all) && (x.namespace == ns)) one_access result
        l,
    any-and (not (ns == all)) (λ (x : Access). x.namespace == ns) l,
  )

-- Namespaces lists a namespace exactly when it is not the wildcard and the set holds an access in
-- it for `get` or `list`.
pub contains-namespaces :
    (a : AccessSet) (ns : Str) → contains (namespaces a) ns ≡ (not (ns == all) && reads_in a ns)
unfolding namespaces contains reads_in any
contains-namespaces a ns =
    any-sort_by (λ x. x) (λ y. y == ns) (foldl collect_namespaces [] a.set)
    ∙ any-foldl (λ r. contains r ns) collect_namespaces _ (one_entry ns) [] a.set
    ∙ any-and (not (ns == all)) _ a.set
