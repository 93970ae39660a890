-- ===== src/AccessControl/Store/Cached.antt =====
-- The cache of access sets: what AccessFor returns from it.
use steve.Common.{Str, str_eq, str_beq_iff, ◌≡◌, arith, some, inl, inr, Option-cases, ◌∙◌, ap, List}
use steve.AccessControl.Roles.{PolicyRule}
use steve.AccessControl.Store.Bindings.{IsSameGrants, AllVersioned}
use steve.AccessControl.Store.Written.{written_lem}
use steve.AccessControl.AccessSet.{AccessSet}
use steve.AccessControl.Store.{
  UserGrants, Cache, new_access_set, digest, written, access_for, purge_user_data,
}

module _ {C : Type 0} (k : Cache C) (sum : Str → Str) where
  -- The access set made for these grants, with its digest for an id.
  unfoldable pub made : UserGrants → AccessSet
  made info = record (new_access_set info) { id = digest k sum info }

  -- Each entry was made from grants that the store has seen, and stands under their digest.
  pub record IsMade (Seen : UserGrants → Type 0) (c : C) : Type 0 where
    pub entry :
        (key : Str) (v : AccessSet)
        → k.cache_get c key ≡ some v
        → (u : UserGrants) × Seen u × (digest k sum u ≡ key) × (v ≡ made u)

module _ {C : Type 0} (k : Cache C) (sum : Str → Str) (Seen : UserGrants → Type 0) (c : C) where
  -- The digests of what was written do not collide for the grants seen, as those of SHA-256 do not.
  abbrev pub IsCollisionFree : Type 0
  IsCollisionFree =
      (u v : UserGrants)
      → Seen u
      → Seen v
      → sum (written u) ≡ sum (written v)
      → written u ≡ written v

  -- AccessFor for grants that are seen, on a cache of made entries, returns the access set of these
  -- grants, with their digest for an id, whether it was found or made, and so never one of rules
  -- that have changed since: if, among the grants that were seen, digests do not collide, the
  -- bindings are those of these grants, and a role's kind, namespace, name and version fix its
  -- rules, the version being digits, and its name with the namespace not only digits.
  pub access_for-some :
      (rules_at : Str → Str → Str → Str → List PolicyRule) (info : UserGrants)
      → IsCollisionFree
      → ((u : UserGrants) → Seen u → AllVersioned rules_at u)
      → ((u : UserGrants) → Seen u → IsSameGrants u info)
      → Seen info
      → IsMade k sum Seen c
      → (access_for k sum (some c) info).1 ≡ made k sum info
  unfolding access_for made
  access_for-some rules_at info free versioned bound seen m =
      elim (Option-cases (k.cache_get c (digest k sum info))) [
        | inl e ↦ rw (e, access_for)
        | inr (v, e) ↦
            let (u, was_seen, same, v_made) = m.entry _ v e in
            let grants : u ≡ info =
              written_lem rules_at u info (bound u was_seen) (versioned u was_seen)
                (versioned info seen) (free u info was_seen seen (unfold digest in same)) in
            rw (e, access_for) (v_made ∙ ap (made k sum) grants)
      ]

  -- AccessFor for grants that are seen, on a cache of made entries, leaves a cache of made
  -- entries.
  pub access_for-IsMade :
      (info : UserGrants) (d : C)
      → Seen info
      → IsMade k sum Seen c
      → (access_for k sum (some c) info).0 ≡ some d
      → IsMade k sum Seen d
  unfolding access_for made
  access_for-IsMade info d seen m h = record {
    entry = λ key v found. elim (Option-cases (k.cache_get c (digest k sum info))) [
      | inl e ↦
          let new : k.cache_add c (digest k sum info) (made k sum info) ≡ d = ground arith in
          elim (k.get_add c (digest k sum info) key (made k sum info) v (rw new found)) [
            | inl (same, is_new) ↦ (info, seen, (str_beq_iff _ _).0 same, is_new)
            | inr old ↦ m.entry key v old
          ]
      | inr (w, e) ↦ m.entry key v (let same : c ≡ d = ground arith in rw same found)
    ];
  }

  pub purge_user_data-IsMade :
      (id : Str) → IsMade k sum Seen c → IsMade k sum Seen (purge_user_data k sum c id)
  unfolding purge_user_data
  purge_user_data-IsMade id m = record {
    entry = λ key v found. m.entry key v (k.get_remove c id key v found).1;
  }
