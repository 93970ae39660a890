-- ===== src/AccessControl/AccessSet/NonResource.antt =====
-- The non-resource URLs of an access set.
use steve.Common.{
  Str, str_eq, ◌≡◌, refl, ◌∙◌, Bool, true, false, ◌&&◌, ◌||◌, List, [], ◌∷◌, arith, any, any-foldl,
  any-insert_key, any-and_right, contains,
}
use steve.AccessControl.AccessSet.{
  NonResourceKey, AccessSet, add_non_resource_urls, add_urls, grants_non_resource, non_resource_eq,
  non_resource_beq_iff,
}

-- A key of the set allows the request.
unfoldable pub key_allows :
    (Str → Str → Bool) → (Str → Str → Bool) → Str → Str → NonResourceKey → Bool
key_allows url_matches verb_matches verb url k = url_matches k.url url && verb_matches k.verb verb

module _ (url_matches : Str → Str → Bool) (verb_matches : Str → Str → Bool)
    (url_refl : (u : Str) → url_matches u u ≡ true)
    (verb_refl : (v : Str) → verb_matches v v ≡ true) where
  found_allows :
      (l : List NonResourceKey) (verb url : Str)
      → contains l (record { verb = verb; url = url }) ≡ true
      → any (key_allows url_matches verb_matches verb url) l ≡ true
  unfolding contains any key_allows
  found_allows [] verb url h = h
  found_allows (k ∷ l) verb url h = ground (
    arith,
    found_allows l verb url,
    url_refl url,
    verb_refl verb,
    non_resource_beq_iff k (record { verb = verb; url = url }),
  )

  -- The lookup of the exact key is only a short cut: the answer is that of the loop.
  pub grants_non_resource_lem :
      (a : AccessSet) (verb url : Str)
      → grants_non_resource url_matches verb_matches a verb url
        ≡ any (key_allows url_matches verb_matches verb url) a.non_resource_set
  unfolding grants_non_resource key_allows
  grants_non_resource_lem a verb url =
      ground (arith, found_allows a.non_resource_set verb url, url_refl url, verb_refl verb)

  any-add_urls :
      (p : NonResourceKey → Bool) (m : List NonResourceKey) (verbs urls : List Str)
      → any p (add_urls m verbs urls)
        ≡ (any p m || any (λ v. any (λ u. p (record { verb = v; url = u })) urls) verbs)
  unfolding add_urls
  any-add_urls p m verbs urls =
      any-foldl (any p) _ _
        (λ m v.
          any-foldl (any p) _ _ (λ m u. any-insert_key p (record { verb = v; url = u }) m) m urls)
        m verbs

  -- Where the guard returns at once, the loops would add nothing.
  guarded :
      (p : NonResourceKey → Bool) (a : AccessSet) (verbs urls : List Str)
      → any p (add_non_resource_urls a verbs urls).non_resource_set
        ≡ any p (add_urls a.non_resource_set verbs urls)
  unfolding add_non_resource_urls any
  guarded p a [] urls = unfold add_urls in refl
  guarded p a (v ∷ verbs) [] = ground (
    arith,
    any-add_urls p a.non_resource_set (v ∷ verbs) [],
    any-and_right false (λ (x : Str). true) verbs,
  )
  guarded p a (v ∷ verbs) (u ∷ urls) = ground arith

  -- Adding URLs grants, beside what was granted, the requests that one of the verbs and one of
  -- the URLs match.
  pub grants-add_non_resource_urls :
      (a : AccessSet) (verbs urls : List Str) (verb url : Str)
      → grants_non_resource url_matches verb_matches (add_non_resource_urls a verbs urls) verb url
        ≡ (grants_non_resource url_matches verb_matches a verb url
            || any (λ v. any (λ u. url_matches u url && verb_matches v verb) urls) verbs)
  unfolding key_allows
  grants-add_non_resource_urls a verbs urls verb url =
      grants_non_resource_lem (add_non_resource_urls a verbs urls) verb url
      ∙ guarded (key_allows url_matches verb_matches verb url) a verbs urls
      ∙ any-add_urls (key_allows url_matches verb_matches verb url) a.non_resource_set verbs urls
      ∙ (rw grants_non_resource_lem)
