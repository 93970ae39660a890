-- ===== src/Watches/Synthetic/Events.antt =====
-- The events of one tick, key by key.
use steve.Common.{
  Str, str_eq, str_beq_iff, ◌==◌, ◌≡◌, refl, not, List, [], ◌∷◌, Option, none, some, map, foldl,
  if◌then◌else◌, keep, arith, inl, inr, Option-cases, ap, ◌∙◌,
}
use steve.Common.Maps.{
  lookup, insert, lookup-insert, remove, lookup-remove, remove-Distinct, Distinct, insert-Distinct,
}
use steve.Watches.Synthetic.{
  Item, added, modified, deleted, Event, event, key_of, State, objects_of, compare, copy, tick,
}

module _ {R : Type 0} where
  -- Each object stands under its key.
  abbrev pub Keyed : State R → Type 0
  Keyed [] = Unit
  Keyed ((k, u) ∷ m) = (key_of u ≡ k) × Keyed m

  abbrev pub IsSnapshot : State R → Type 0
  IsSnapshot m = Distinct m × Keyed m

  insert-Keyed :
      (k : Str) (u : Item R) (m : State R) → key_of u ≡ k → Keyed m → Keyed (insert k u m)
  unfolding insert
  insert-Keyed k u [] h hs = (h, tt)
  insert-Keyed k u ((j, w) ∷ m) h hs = ground (arith, insert-Keyed k u m h hs.1, hs.0, h)

  remove-Keyed : (k : Str) (m : State R) → Keyed m → Keyed (remove k m)
  unfolding remove
  remove-Keyed k [] h = tt
  remove-Keyed k ((j, w) ∷ m) h = ground (arith, remove-Keyed k m h.1, h.0)

  lookup-Keyed : (k : Str) (u : Item R) (m : State R) → Keyed m → lookup k m ≡ some u → key_of u ≡ k
  unfolding lookup
  lookup-Keyed k u [] h e = ground arith
  lookup-Keyed k u ((j, w) ∷ m) h e = ground (arith, lookup-Keyed k u m h.1, str_beq_iff j k)

  collect-IsSnapshot :
      (items : List (Item R)) (m : State R)
      → IsSnapshot m
      → IsSnapshot (foldl (λ m u. insert (key_of u) u m) m items)
  collect-IsSnapshot [] m h = h
  collect-IsSnapshot (u ∷ items) m h =
      collect-IsSnapshot items (insert (key_of u) u m)
        (insert-Distinct (key_of u) u m h.0, insert-Keyed (key_of u) u m refl h.1)

  pub objects_of-IsSnapshot : (items : List (Item R)) → IsSnapshot (objects_of items)
  unfolding objects_of
  objects_of-IsSnapshot items = collect-IsSnapshot items [] (tt, tt)

  -- The events at a key, from what the two states hold there.
  abbrev pub expected : Option (Item R) → Option (Item R) → List (Event R)
  expected none none = []
  expected none (some u) = event added u ∷ []
  expected (some old) none = event deleted old ∷ []
  expected (some old) (some u) =
      if not (old.version == u.version) then event modified old ∷ [] else []

  abbrev pub at_key : Str → List (Event R) → List (Event R)
  at_key k l = keep (λ e. key_of e.object == k) l

  deletions :
      (k : Str) (m : State R)
      → IsSnapshot m
      → at_key k (map (λ (x : Str × Item R). event deleted x.1) m) ≡ expected (lookup k m) none
  unfolding keep lookup
  deletions k [] h = refl
  deletions k ((j, w) ∷ m) ((missing, distinct), (named, keyed)) =
      ground (arith, deletions k m (distinct, keyed), str_beq_iff j k, missing, named)

  compare_lem :
      (k : Str) (previous new : State R)
      → IsSnapshot previous
      → IsSnapshot new
      → at_key k (compare previous new) ≡ expected (lookup k previous) (lookup k new)
  unfolding compare keep lookup
  compare_lem k previous [] h g = deletions k previous h
  compare_lem k previous ((j, u) ∷ new) h ((missing, distinct), (named, keyed)) =
      elim (Option-cases (lookup j previous)) [
        | inl unseen ↦ ground (
          arith,
          unseen,
          compare_lem k previous new h (distinct, keyed),
          str_beq_iff j k,
          missing,
          named,
        )
        | inr (old, seen) ↦
            let left : IsSnapshot (remove j previous) =
              (remove-Distinct j previous h.0, remove-Keyed j previous h.1) in
            ground (
              arith,
              seen,
              compare_lem k (remove j previous) new left (distinct, keyed),
              lookup-remove j k previous,
              lookup-Keyed j old previous h.1 seen,
              str_beq_iff j k,
              missing,
              named,
            )
      ]

  copy-from :
      (k : Str) (new m : State R)
      → Distinct new
      → lookup k (foldl (λ m x. insert x.0 x.1 m) m new)
        ≡ (elim (lookup k new) [ none ↦ lookup k m | some u ↦ some u ])
  unfolding lookup
  copy-from k [] m h = refl
  copy-from k ((j, u) ∷ new) m h =
      ground
        (arith, copy-from k new (insert j u m) h.1, lookup-insert j k u m, str_beq_iff j k, h.0)

  lookup-copy : (k : Str) (new : State R) → Distinct new → lookup k (copy new) ≡ lookup k new
  unfolding copy lookup
  lookup-copy k new h = ground (arith, copy-from k new [] h)

  copy_onto-IsSnapshot :
      (new m : State R)
      → Keyed new
      → IsSnapshot m
      → IsSnapshot (foldl (λ m x. insert x.0 x.1 m) m new)
  copy_onto-IsSnapshot [] m h k = k
  copy_onto-IsSnapshot ((j, u) ∷ new) m h k =
      copy_onto-IsSnapshot new (insert j u m) h.1
        (insert-Distinct j u m k.0, insert-Keyed j u m h.0 k.1)

  copy-IsSnapshot : (new : State R) → Keyed new → IsSnapshot (copy new)
  unfolding copy
  copy-IsSnapshot new h = copy_onto-IsSnapshot new [] h (tt, tt)

  -- The state behind some ticks, and the objects of the last list that did not fail.
  unfoldable pub state_after : List (Option (List (Item R))) → State R
  state_after history = foldl (λ s t. (tick s t).0) [] history

  unfoldable pub last_listed : List (Option (List (Item R))) → State R
  last_listed history =
      foldl (λ l t. elim t [ none ↦ l | some items ↦ objects_of items ]) [] history

  -- The state is a snapshot that reads as the last list.
  abbrev Follows : State R → State R → Type 0
  Follows s l = IsSnapshot s × ((k : Str) → lookup k s ≡ lookup k l)

  tick-Follows :
      (history : List (Option (List (Item R)))) (s l : State R)
      → Follows s l
      → Follows
          (foldl (λ s t. (tick s t).0) s history)
          (foldl (λ l t. elim t [ none ↦ l | some items ↦ objects_of items ]) l history)
  unfolding tick
  tick-Follows [] s l h = h
  tick-Follows (none ∷ history) s l h = tick-Follows history s l h
  tick-Follows (some items ∷ history) s l h =
      let made = objects_of-IsSnapshot items in
      tick-Follows history (copy (objects_of items)) (objects_of items)
        (copy-IsSnapshot (objects_of items) made.1, λ k. lookup-copy k (objects_of items) made.0)

  -- Behind any ticks, failed ones among them, the events of the next list that concern a key are
  -- what its object in this list and in the last one ask for: one addition, one deletion, one
  -- modification where the versions differ, which carries the object of the last list, or none.
  pub watch_events :
      (history : List (Option (List (Item R)))) (items : List (Item R)) (k : Str)
      → at_key k (tick (state_after history) (some items)).1
        ≡ expected (lookup k (last_listed history)) (lookup k (objects_of items))
  unfolding tick state_after last_listed
  watch_events history items k =
      let follows = tick-Follows history [] [] ((tt, tt), λ j. refl) in
      compare_lem k (state_after history) (objects_of items) follows.0 (objects_of-IsSnapshot items)
      ∙ ap (λ o. expected o (lookup k (objects_of items))) (follows.1 k)
