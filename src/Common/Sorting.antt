-- ===== src/Common/Sorting.antt =====
-- Sorting by a key, as `sort.Slice` and `sort.Strings` are used: an insertion sort stands for
-- the library's, which promises the order of the keys and no order of equal keys.
use steve.Common.{Str, str_ltb, Bool, ◌||◌, List, [], ◌∷◌, ◌≡◌, refl, arith, any, if◌then◌else◌}

module _ {ℓ} {A : Type ℓ} (key : A → Str) where
  unfoldable pub insert_by : A → List A → List A
  insert_by a [] = a ∷ []
  insert_by a (x ∷ xs) = if str_ltb (key x) (key a) then x ∷ insert_by a xs else a ∷ x ∷ xs

  unfoldable pub sort_by : List A → List A
  unfolding insert_by
  sort_by [] = []
  sort_by (x ∷ xs) = insert_by x (sort_by xs)

  pub any-insert_by :
      (p : A → Bool) (a : A) (xs : List A) → any p (insert_by a xs) ≡ (p a || any p xs)
  unfolding insert_by any
  any-insert_by p a [] = refl
  any-insert_by p a (x ∷ xs) = ground (arith, any-insert_by p a xs)

  -- Sorting loses and adds nothing, as far as any test can tell.
  pub any-sort_by : (p : A → Bool) (xs : List A) → any p (sort_by xs) ≡ any p xs
  unfolding sort_by any
  any-sort_by p [] = refl
  any-sort_by p (x ∷ xs) = ground (arith, any-insert_by p x (sort_by xs), any-sort_by p xs)
