-- ===== src/Common/Lists.antt =====
-- `any`, `all` and loops over a list.
use Prim.Native.Nat.{ℕ, ◌+◌, suc}
use mathlib.Core.Path.{◌≡◌, refl, ap, fun_ext}
use mathlib.Core.Bool.{Bool, true, false, ◌&&◌, ◌||◌}
use mathlib.Core.List.{List, [], ◌∷◌, ◌++◌, map, foldl}
use native.Mathlib.Omega.{arith}
use steve.Common.Tests.{if◌then◌else◌}
use steve.Common.Classes.{Eq, ◌==◌}

module _ {ℓ} {A : Type ℓ} where
  abbrev pub length : List A → ℕ
  length [] = 0
  length (x ∷ xs) = suc (length xs)

  pub length-append : (xs ys : List A) → length (xs ++ ys) ≡ length xs + length ys
  length-append [] ys = omega arith
  length-append (x ∷ xs) ys = omega (arith, length-append xs ys)

  -- `for _, x := range xs { if p(x) { return true } }; return false`
  unfoldable pub any : (A → Bool) → List A → Bool
  any p [] = false
  any p (x ∷ xs) = p x || any p xs

  unfoldable pub every : (A → Bool) → List A → Bool
  every p [] = true
  every p (x ∷ xs) = p x && every p xs

  unfoldable pub keep : (A → Bool) → List A → List A
  keep p [] = []
  keep p (x ∷ xs) = let rest = keep p xs in if p x then x ∷ rest else rest

  pub any-or : (p q : A → Bool) (xs : List A) → any (λ x. p x || q x) xs ≡ (any p xs || any q xs)
  unfolding any
  any-or p q [] = refl
  any-or p q (x ∷ xs) = ground (arith, any-or p q xs)

  pub any-and : (b : Bool) (q : A → Bool) (xs : List A) → any (λ x. b && q x) xs ≡ (b && any q xs)
  unfolding any
  any-and b q [] = ground arith
  any-and b q (x ∷ xs) = ground (arith, any-and b q xs)

  pub any-and_right :
      (b : Bool) (q : A → Bool) (xs : List A) → any (λ x. q x && b) xs ≡ (any q xs && b)
  unfolding any
  any-and_right b q [] = ground arith
  any-and_right b q (x ∷ xs) = ground (arith, any-and_right b q xs)

  pub any-append : (p : A → Bool) (xs ys : List A) → any p (xs ++ ys) ≡ (any p xs || any p ys)
  unfolding any
  any-append p [] ys = refl
  any-append p (x ∷ xs) ys = ground (arith, any-append p xs ys)

  pub any-congr : (p q : A → Bool) → ((x : A) → p x ≡ q x) → (xs : List A) → any p xs ≡ any q xs
  any-congr p q h xs = ap (λ r. any r xs) (fun_ext h)

  -- What every passing element implies, a passing list implies.
  pub any_elim :
      (p : A → Bool) (b : Bool) (xs : List A)
      → ((x : A) → p x ≡ true → b ≡ true)
      → any p xs ≡ true
      → b ≡ true
  unfolding any
  any_elim p b [] h k = cc
  any_elim p b (x ∷ xs) h k = ground (arith, h x, any_elim p b xs h)

  pub any_mono :
      (p q : A → Bool) (xs : List A)
      → ((x : A) → p x ≡ true → q x ≡ true)
      → any p xs ≡ true
      → any q xs ≡ true
  unfolding any
  any_mono p q [] h k = k
  any_mono p q (x ∷ xs) h k = ground (arith, h x, any_mono p q xs h)

  -- Where no element passes `c`, only the elements that fail it matter.
  pub any_without :
      (c p q : A → Bool) (xs : List A)
      → ((x : A) → c x ≡ false → p x ≡ q x)
      → any c xs ≡ false
      → any p xs ≡ any q xs
  unfolding any
  any_without c p q [] h k = refl
  any_without c p q (x ∷ xs) h k = ground (arith, h x, any_without c p q xs h)

  pub any-keep : (p q : A → Bool) (xs : List A) → any p (keep q xs) ≡ any (λ x. q x && p x) xs
  unfolding any keep
  any-keep p q [] = refl
  any-keep p q (x ∷ xs) = ground (arith, any-keep p q xs)

-- What one round adds to a test, the whole loop adds for some element.
module _ {ℓ κ} {A : Type ℓ} {S : Type κ} where
  pub any-foldl :
      (test : S → Bool) (step : S → A → S) (p : A → Bool)
      → ((s : S) (x : A) → test (step s x) ≡ (test s || p x))
      → (s : S) (xs : List A) → test (foldl step s xs) ≡ (test s || any p xs)
  unfolding any
  any-foldl test step p h s [] = ground arith
  any-foldl test step p h s (x ∷ xs) = ground (arith, any-foldl test step p h (step s x) xs, h s x)

  pub foldl_keeps {ι} :
      (P : S → Type ι) (step : S → A → S)
      → ((s : S) (x : A) → P s → P (step s x))
      → (s : S) (xs : List A) → P s
      → P (foldl step s xs)
  foldl_keeps P step h s [] k = k
  foldl_keeps P step h s (x ∷ xs) k = foldl_keeps P step h (step s x) xs (h s x k)

  pub any-map : (p : S → Bool) (f : A → S) (xs : List A) → any p (map f xs) ≡ any (λ x. p (f x)) xs
  unfolding any
  any-map p f [] = refl
  any-map p f (x ∷ xs) = ap (λ r. p (f x) || r) (any-map p f xs)

module _ {ℓ} {A : Type ℓ} ⦃e : Eq A⦄ where
  unfoldable pub contains : List A → A → Bool
  contains xs a = any (λ x. x == a) xs

  -- A Go map with no values of interest: the keys, each once.
  unfoldable pub insert_key : A → List A → List A
  insert_key a xs = if contains xs a then xs else a ∷ xs

  any_of_contains :
      (p : A → Bool) (a : A) (xs : List A) → contains xs a ≡ true → p a ≡ true → any p xs ≡ true
  unfolding contains any
  any_of_contains p a [] h k = h
  any_of_contains p a (x ∷ xs) h k = ground (arith, e.beq_iff x a, any_of_contains p a xs)

  pub any-insert_key :
      (p : A → Bool) (a : A) (xs : List A) → any p (insert_key a xs) ≡ (any p xs || p a)
  unfolding insert_key any
  any-insert_key p a xs = ground (arith, any_of_contains p a xs)

  pub contains-insert_key :
      (a b : A) (xs : List A) → contains (insert_key a xs) b ≡ (contains xs b || (a == b))
  unfolding contains
  contains-insert_key a b xs = any-insert_key (λ x. x == b) a xs
