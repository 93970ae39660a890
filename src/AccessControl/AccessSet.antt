-- ===== src/AccessControl/AccessSet.antt =====
-- pkg/accesscontrol/access_set.go: the set of accesses by verb and resource, and its operations.
-- A nil map reads as the empty map, and each operation that writes makes the map first where it
-- is nil, so both are the empty list here. The value of a key in the inner map is always true
-- and never read: the inner map is the list of its keys.
pub mod Grants
pub mod AccessLists
pub mod NonResource
use steve.Common.{
  not, length, eqb, Str, codes, Eq, ◌==◌, String, ◌≡◌, refl, ◌↔◌, Bool, true, false, ◌&&◌, ◌||◌,
  List, [], ◌∷◌, ◌++◌, foldl, Option, none, some, arith, any, contains, insert_key, if◌then◌else◌,
  not, str_beq_iff, str_eq,
}
use steve.Common.Maps.{lookup, insert}
use steve.Common.Sorting.{sort_by}

pub record GroupResource : Type 0 where
  pub group : Str
  pub resource : Str

pub record Key : Type 0 where
  pub verb : Str
  pub gr : GroupResource

pub record NonResourceKey : Type 0 where
  pub verb : Str
  pub url : Str

pub record Access : Type 0 where
  pub namespace : Str
  pub resource_name : Str

abbrev gr_beq : GroupResource → GroupResource → Bool
gr_beq a b = (a.group == b.group) && (a.resource == b.resource)

pub gr_beq_iff : (a b : GroupResource) → (gr_beq a b ≡ true) ↔ (a ≡ b)
gr_beq_iff a b = ground (arith, str_beq_iff a.group b.group, str_beq_iff a.resource b.resource)

instance abbrev pub gr_eq : Eq GroupResource
gr_eq = record { beq = gr_beq; beq_iff = gr_beq_iff }

abbrev key_beq : Key → Key → Bool
key_beq a b = (a.verb == b.verb) && (a.gr == b.gr)

pub key_beq_iff : (a b : Key) → (key_beq a b ≡ true) ↔ (a ≡ b)
key_beq_iff a b = ground (arith, str_beq_iff a.verb b.verb, gr_beq_iff a.gr b.gr)

instance abbrev pub key_eq : Eq Key
key_eq = record { beq = key_beq; beq_iff = key_beq_iff }

abbrev access_beq : Access → Access → Bool
access_beq a b = (a.namespace == b.namespace) && (a.resource_name == b.resource_name)

pub access_beq_iff : (a b : Access) → (access_beq a b ≡ true) ↔ (a ≡ b)
access_beq_iff a b =
    ground (arith, str_beq_iff a.namespace b.namespace, str_beq_iff a.resource_name b.resource_name)

instance abbrev pub access_eq : Eq Access
access_eq = record { beq = access_beq; beq_iff = access_beq_iff }

abbrev non_resource_beq : NonResourceKey → NonResourceKey → Bool
non_resource_beq a b = (a.verb == b.verb) && (a.url == b.url)

pub non_resource_beq_iff : (a b : NonResourceKey) → (non_resource_beq a b ≡ true) ↔ (a ≡ b)
non_resource_beq_iff a b = ground (arith, str_beq_iff a.verb b.verb, str_beq_iff a.url b.url)

instance abbrev pub non_resource_eq : Eq NonResourceKey
non_resource_eq = record { beq = non_resource_beq; beq_iff = non_resource_beq_iff }

-- The wildcard "*".
abbrev pub all : Str
all = codes "*"

abbrev pub ResourceAccessSet : Type 0
ResourceAccessSet = List Access

pub record AccessSet : Type 0 where
  pub id : Str
  pub set : List (Key × ResourceAccessSet)
  pub non_resource_set : List NonResourceKey

-- new(AccessSet)
abbrev pub empty : AccessSet
empty = record { id = []; set = []; non_resource_set = [] }

ns_ok : Access → Str → Bool
ns_ok a ns = (a.namespace == all) || (a.namespace == ns)

name_ok : Access → Str → Bool
name_ok a name = (a.resource_name == all) || (a.resource_name == name)

-- Access.Grants
unfoldable pub access_grants : Access → Str → Str → Bool
unfolding ns_ok name_ok
access_grants a ns name = ns_ok a ns && name_ok a name

-- a.set[k]: a missing key reads as the nil map
unfoldable pub at : AccessSet → Key → ResourceAccessSet
at a k = elim (lookup k a.set) [ none ↦ [] | some m ↦ m ]

-- AccessSet.Grants
unfoldable pub grants : AccessSet → Str → GroupResource → Str → Str → Bool
grants a verb gr ns name =
    any
      (λ v.
        any
          (λ g.
            any
              (λ r.
                any (λ k. access_grants k ns name)
                  (at a (record { verb = v; gr = record { group = g; resource = r } })))
              (all ∷ gr.resource ∷ []))
          (all ∷ gr.group ∷ []))
      (all ∷ verb ∷ [])

-- AccessSet.AccessListFor: the keys of `dedup`, in the order of their insertion
unfoldable pub access_list_for : AccessSet → Str → GroupResource → List Access
access_list_for a verb gr =
    foldl
      (λ d v.
        foldl
          (λ d g.
            foldl
              (λ d r.
                foldl (λ d k. insert_key k d) d
                  (at a (record { verb = v; gr = record { group = g; resource = r } })))
              d (all ∷ gr.resource ∷ []))
          d (all ∷ gr.group ∷ []))
      [] (all ∷ verb ∷ [])

-- AccessSet.Add
unfoldable pub add : AccessSet → Str → GroupResource → Access → AccessSet
add a verb gr access =
    let k : Key = record { verb = verb; gr = gr } in
    elim (lookup k a.set) [
      | some m ↦ record a { set = insert k (insert_key access m) a.set }
      | none ↦ record a { set = insert k (access ∷ []) a.set }
    ]

-- One round of the loop of Namespaces over the set.
unfoldable pub collect_namespaces : List Str → Key × ResourceAccessSet → List Str
collect_namespaces result (k, accesses) =
    if not (k.verb == codes "get") && not (k.verb == codes "list")
    then result
    else foldl
        (λ result access.
          if access.namespace == all then result else insert_key access.namespace result)
        result accesses

-- AccessSet.Namespaces
unfoldable pub namespaces : AccessSet → List Str
namespaces a = sort_by (λ ns. ns) (foldl collect_namespaces [] a.set)

-- One round of the first loop of Merge: `for k, accessMap := range right.set`
merge_entry : AccessSet → Key × ResourceAccessSet → AccessSet
merge_entry a (k, access_map) =
    let m : ResourceAccessSet = elim (lookup k a.set) [ some m ↦ m | none ↦ [] ] in
    record a { set = insert k (foldl (λ m x. insert_key x m) m access_map) a.set }

-- AccessSet.Merge
unfoldable pub merge : AccessSet → AccessSet → AccessSet
unfolding merge_entry
merge a right =
    let b = foldl merge_entry a right.set in
    record b {
      non_resource_set = foldl (λ m x. insert_key x m) b.non_resource_set right.non_resource_set;
    }

-- The loops of AddNonResourceURLs.
unfoldable pub add_urls : List NonResourceKey → List Str → List Str → List NonResourceKey
add_urls m verbs urls =
    foldl (λ m verb. foldl (λ m url. insert_key (record { verb = verb; url = url }) m) m urls) m
      verbs

-- AccessSet.AddNonResourceURLs
unfoldable pub add_non_resource_urls : AccessSet → List Str → List Str → AccessSet
add_non_resource_urls a verbs urls =
    if eqb (length verbs) 0 || eqb (length urls) 0
    then a
    else record a { non_resource_set = add_urls a.non_resource_set verbs urls }

-- NonResourceURLMatches and VerbMatches of k8s.io/kubernetes, at a rule of one URL and one verb.
module _ (url_matches : Str → Str → Bool) (verb_matches : Str → Str → Bool) where
  -- AccessSet.GrantsNonResource
  unfoldable pub grants_non_resource : AccessSet → Str → Str → Bool
  grants_non_resource a verb url =
      if contains a.non_resource_set (record { verb = verb; url = url })
      then url_matches url url && verb_matches verb verb
      else any (λ k. url_matches k.url url && verb_matches k.verb verb) a.non_resource_set
