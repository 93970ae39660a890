-- ===== src/Partitions/Partitioner/ById.antt =====
-- The partitions of a watch or list of one object.
use steve.Common.{
  Str, str_eq, str_beq_iff, codes, ◌==◌, ◌≡◌, ◌⊎◌, sym, ◌∙◌, Bool, true, ◌&&◌, not, [],
  if◌then◌else◌, arith, Bool-cases, inl, inr, any_mono,
}
use steve.Common.Sets.{StringSets}
use steve.AccessControl.AccessSet.{Access, all, access_grants}
use steve.AccessControl.Verbs.{
  AccessListByVerb, ResourceMap, resources_in, all_granted, granted_resources, for_verb,
  verb_grants, list_grants,
}
use steve.AccessControl.Verbs.Granted.{readable, is_named}
use steve.AccessControl.Verbs.Reads.{all_names-granted, has-granted}
use steve.Partitions.Partitioner.{
  one_name, effective_namespace, names_at, generate_partitions_by_id,
}

-- The namespace and the name that a request is for.
abbrev pub wanted_namespace : (Str → Str → Str × Str) → Str → Str → Str
wanted_namespace r_split api_namespace id =
    effective_namespace (r_split id (codes "/")).0 api_namespace

abbrev pub wanted_name : (Str → Str → Str × Str) → Str → Str
wanted_name r_split id = (r_split id (codes "/")).1

module _ (sets : StringSets) (r_split : Str → Str → Str × Str) where
  names_at_lem :
      (m : ResourceMap sets) (ns name : Str)
      → names_at sets m ns name ≡ sets.has (resources_in sets m ns).names name
  unfolding resources_in
  names_at_lem m ns name = ground (arith, sets.has_new name)

  module _ (api_namespace : Str) (a : AccessListByVerb) (verb id : Str) where
    readable_grants :
        (test : Access → Bool)
        → ((x : Access)
            → test x ≡ true
            → access_grants x (wanted_namespace r_split api_namespace id) (wanted_name r_split id)
              ≡ true)
        → readable a verb test ≡ true
        → readable a verb (λ x.
          access_grants x (wanted_namespace r_split api_namespace id) (wanted_name r_split id))
          ≡ true
    unfolding readable
    readable_grants test h k = ground (
      arith,
      any_mono test
          (λ x.
            access_grants x (wanted_namespace r_split api_namespace id) (wanted_name r_split id))
          (for_verb a verb) h,
      any_mono (λ x. is_named x && test x)
          (λ x.
            is_named x
            && access_grants x (wanted_namespace r_split api_namespace id) (wanted_name r_split id))
          (for_verb a (codes "get")) (λ x j. ground (arith, h x)),
    )

    -- The key under which cluster-scoped names are found is the wildcard.
    abbrev pub key_namespace : Str
    key_namespace =
        if (wanted_namespace r_split api_namespace id) == []
        then all
        else (wanted_namespace r_split api_namespace id)

    by_all :
        all_granted a verb ≡ true
        → readable a verb (λ x.
          access_grants x (wanted_namespace r_split api_namespace id) (wanted_name r_split id))
          ≡ true
    unfolding all_granted verb_grants list_grants readable
    by_all h = ground (
      arith,
      any_mono (λ x. access_grants x all all)
          (λ x.
            access_grants x (wanted_namespace r_split api_namespace id) (wanted_name r_split id))
          (for_verb a verb) (λ x k. unfold access_grants in ground arith) h,
    )

    by_namespace :
        (resources_in sets
            (granted_resources sets a verb)
            (wanted_namespace r_split api_namespace id)).all_names
          ≡ true
        → readable a verb (λ x.
          access_grants x (wanted_namespace r_split api_namespace id) (wanted_name r_split id))
          ≡ true
    by_namespace h =
        readable_grants
          (λ x.
            (x.namespace == (wanted_namespace r_split api_namespace id))
            && (x.resource_name == all))
          (λ x k. unfold access_grants in ground arith)
          (sym (all_names-granted sets a verb (wanted_namespace r_split api_namespace id)) ∙ h)

    by_name :
        names_at sets (granted_resources sets a verb) key_namespace (wanted_name r_split id) ≡ true
        → readable a verb (λ x.
          access_grants x (wanted_namespace r_split api_namespace id) (wanted_name r_split id))
          ≡ true
    by_name h =
        readable_grants
          (λ x.
            (x.namespace == key_namespace)
            && (not (x.resource_name == all) && (x.resource_name == (wanted_name r_split id))))
          (λ x k. unfold access_grants in ground (arith, str_beq_iff x.namespace key_namespace))
          (sym (has-granted sets (wanted_name r_split id) a verb key_namespace)
            ∙ (sym (
                  names_at_lem (granted_resources sets a verb) key_namespace
                    (wanted_name r_split id))
                ∙ h))

    -- A request for one object gets the partition of that name in its namespace or no partition, and
    -- the first only where an access that Granted reads for the verb grants the object.
    pub by_id_sound :
        (generate_partitions_by_id sets r_split api_namespace a verb id ≡ [])
        ⊎ ((generate_partitions_by_id sets r_split api_namespace a verb id
              ≡ one_name sets (wanted_namespace r_split api_namespace id) (wanted_name r_split id))
            × (readable a verb (λ x.
                  access_grants x
                    (wanted_namespace r_split api_namespace id)
                    (wanted_name r_split id))
                ≡ true))
    unfolding generate_partitions_by_id
    by_id_sound = elim (Bool-cases (all_granted a verb)) [
      | inl yes_all ↦ inr (ground arith, by_all yes_all)
      | inr not_all ↦
          elim (Bool-cases (
            not ((wanted_namespace r_split api_namespace id) == [])
            && (resources_in sets (granted_resources sets a verb)
                (wanted_namespace r_split api_namespace id)).all_names)) [
                  | inl whole ↦ inr (ground arith, by_namespace (ground arith))
                  | inr not_whole ↦
                      elim (Bool-cases (
                        names_at sets (granted_resources sets a verb) key_namespace
                          (wanted_name r_split id))) [
                            | inl named ↦ inr (ground arith, by_name named)
                            | inr not_named ↦ inl (ground arith)
                          ]
                ]
    ]
