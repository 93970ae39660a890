-- ===== src/AccessControl/AccessSet/Grants.antt =====
-- What Add and Merge do to the accesses that a set grants.
use steve.Common.{
  Str, ◌==◌, ◌≡◌, fun_ext, Bool, ◌&&◌, ◌||◌, [], ◌∷◌, foldl, arith, any, any-or, any-foldl,
  foldl_keeps, any-insert_key, insert_key, if◌then◌else◌, str_eq, ap, ◌∙◌, contains,
}
use steve.Common.Maps.{
  lookup, insert, lookup-insert, Distinct, insert-Distinct, holds_at, any_entries,
}
use steve.AccessControl.AccessSet.{
  GroupResource, Key, Access, AccessSet, ResourceAccessSet, all, access_grants, at, grants, add,
  merge_entry, merge, key_eq, gr_eq, access_eq, key_beq_iff,
}

-- The keys of a set stand once each, as in any map.
abbrev pub IsMap : AccessSet → Type 0
IsMap a = Distinct a.set

-- Both branches of Add write the accesses at the key with one more.
add_lem :
    (a : AccessSet) (verb : Str) (gr : GroupResource) (x : Access)
    → add a verb gr x ≡ record a {
      set =
          insert
            (record { verb = verb; gr = gr })
            (insert_key x (at a (record { verb = verb; gr = gr })))
            a.set;
    }
unfolding add at insert_key contains any
add_lem a verb gr x = ground arith

pub add-IsMap :
    (a : AccessSet) (verb : Str) (gr : GroupResource) (x : Access)
    → IsMap a
    → IsMap (add a verb gr x)
add-IsMap a verb gr x h = rw add_lem (insert-Distinct _ _ a.set h)

at-insert :
    (a : AccessSet) (k j : Key) (m : ResourceAccessSet)
    → at (record a { set = insert k m a.set }) j ≡ (if k == j then m else at a j)
unfolding at
at-insert a k j m = rw (lookup-insert k j m a.set, at) (ground arith)

merge_entry_lem :
    (a : AccessSet) (k : Key) (n : ResourceAccessSet)
    → merge_entry a (k, n)
      ≡ record a { set = insert k (foldl (λ m x. insert_key x m) (at a k) n) a.set }
unfolding merge_entry at
merge_entry_lem a k n = ground arith

module _ (p : Access → Bool) where
  -- Whatever is tested of the accesses at a key, Add adds the test of the new access at its key.
  any-at-add :
      (a : AccessSet) (verb : Str) (gr : GroupResource) (x : Access) (k : Key)
      → any p (at (add a verb gr x) k)
        ≡ (any p (at a k) || (((record { verb = verb; gr = gr }) == k) && p x))
  any-at-add a verb gr x k =
      let j : Key = record { verb = verb; gr = gr } in
      rw add_lem (
        ground (
          arith,
          at-insert a j k (insert_key x (at a j)),
          any-insert_key p x (at a j),
          key_beq_iff j k,
        ))

  any-merge_keys :
      (m n : ResourceAccessSet) → any p (foldl (λ m x. insert_key x m) m n) ≡ (any p m || any p n)
  any-merge_keys m n = any-foldl (any p) (λ m x. insert_key x m) p (λ s x. any-insert_key p x s) m n

  any-at-merge_entry :
      (j : Key) (a : AccessSet) (x : Key × ResourceAccessSet)
      → any p (at (merge_entry a x) j) ≡ (any p (at a j) || ((x.0 == j) && any p x.1))
  any-at-merge_entry j a (k, n) = rw merge_entry_lem (
      ground (
        arith,
        at-insert a k j (foldl (λ m x. insert_key x m) (at a k) n),
        any-merge_keys (at a k) n,
        key_beq_iff k j,
      ))

  at-holds : (b : AccessSet) (k : Key) → holds_at (any p) (lookup k b.set) ≡ any p (at b k)
  unfolding at any
  at-holds b k = ground arith

  -- Merge joins what the two sets hold at each key.
  pub any-at-merge :
      (a b : AccessSet) (k : Key)
      → IsMap b
      → any p (at (merge a b) k) ≡ (any p (at a k) || any p (at b k))
  unfolding merge at
  any-at-merge a b k h =
      any-foldl (λ s. any p (at s k)) merge_entry (λ x. (x.0 == k) && any p x.1)
        (any-at-merge_entry k) a b.set
      ∙ ap (λ r. any p (at a k) || r) (any_entries k (any p) b.set h ∙ at-holds b k)

merge_entry-IsMap :
    (a : AccessSet) (x : Key × ResourceAccessSet) → IsMap a → IsMap (merge_entry a x)
merge_entry-IsMap a (k, n) h = rw merge_entry_lem (insert-Distinct k _ a.set h)

pub merge-IsMap : (a b : AccessSet) → IsMap a → IsMap (merge a b)
unfolding merge
merge-IsMap a b h = foldl_keeps IsMap merge_entry merge_entry-IsMap a b.set h

-- A key whose parts are the wildcard or the wanted ones.
abbrev pub covers : Str → Str → Bool
covers v want = (v == all) || (v == want)

unfoldable pub covers_key : Str → GroupResource → Str → GroupResource → Bool
covers_key v g verb gr = covers v verb && (covers g.group gr.group && covers g.resource gr.resource)

-- The union of two tests at every key is the union of the two results.
module _ (verb : Str) (gr : GroupResource) where
  over : (Key → Bool) → Bool
  over f =
      any
        (λ v.
          any
            (λ g.
              any (λ r. f (record { verb = v; gr = record { group = g; resource = r } }))
                (all ∷ gr.resource ∷ []))
            (all ∷ gr.group ∷ []))
        (all ∷ verb ∷ [])

  over-or : (f g : Key → Bool) → over (λ k. f k || g k) ≡ (over f || over g)
  unfolding over
  over-or f g = simp any-or

  over-key :
      (v : Str) (g : GroupResource) (b : Bool)
      → over (λ k. ((record { verb = v; gr = g }) == k) && b) ≡ (covers_key v g verb gr && b)
  unfolding over covers_key any
  over-key v g b = ground arith

-- A set grants what it granted before, and what the added access grants under its key.
pub grants-add :
    (a : AccessSet) (v : Str) (g : GroupResource) (x : Access) (verb : Str) (gr : GroupResource)
    (ns name : Str)
    → grants (add a v g x) verb gr ns name
      ≡ (grants a verb gr ns name || (covers_key v g verb gr && access_grants x ns name))
unfolding grants over
grants-add a v g x verb gr ns name =
    let p : Access → Bool = λ k. access_grants k ns name in
    let j : Key = record { verb = v; gr = g } in
    ap (over verb gr) (fun_ext (λ k. any-at-add p a v g x k))
    ∙ over-or verb gr (λ k. any p (at a k)) (λ k. (j == k) && p x)
    ∙ ap (λ r. grants a verb gr ns name || r) (over-key verb gr v g (p x))

-- The merged set grants what one of the two grants, where no key stands twice in the set that is
-- merged in.
pub grants-merge :
    (a b : AccessSet) (verb : Str) (gr : GroupResource) (ns name : Str)
    → IsMap b
    → grants (merge a b) verb gr ns name ≡ (grants a verb gr ns name || grants b verb gr ns name)
unfolding grants over
grants-merge a b verb gr ns name h =
    let p : Access → Bool = λ k. access_grants k ns name in
    ap (over verb gr) (fun_ext (λ k. any-at-merge p a b k h))
    ∙ over-or verb gr (λ k. any p (at a k)) (λ k. any p (at b k))
