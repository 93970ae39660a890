-- ===== src/AccessControl/Store/Digits.antt =====
-- The digits at the start of a text, and where a text of known length ends: the versions among what
-- userGrants.hash of pkg/accesscontrol/user_grants.go writes.
use steve.Common.{
  ℕ, suc, ◌+◌, ◌≡◌, refl, Str, str_eq, Bool, true, false, ◌&&◌, ◌||◌, not, List, [], ◌∷◌, ◌++◌, leb,
  length, if◌then◌else◌, arith,
}

abbrev is_decimal : ℕ → Bool
is_decimal c = leb 48 c && leb c 57

abbrev pub are_digits : Str → Bool
are_digits [] = true
are_digits (c ∷ s) = is_decimal c && are_digits s

abbrev pub has_other : Str → Bool
has_other [] = false
has_other (c ∷ s) = not (is_decimal c) || has_other s

-- How many digits a text starts with.
unfoldable pub lead : Str → ℕ
lead [] = 0
lead (c ∷ s) = let rest = lead s in if is_decimal c then suc rest else 0

pub lead-digits : (d s : Str) → are_digits d ≡ true → lead (d ++ s) ≡ length d + lead s
unfolding lead
lead-digits [] s h = omega arith
lead-digits (c ∷ d) s h = ground (arith, lead-digits d s)

pub lead-other : (p s : Str) → has_other p ≡ true → lead (p ++ s) ≡ lead p
unfolding lead
lead-other [] s h = absurd cc
lead-other (c ∷ p) s h = ground (arith, lead-other p s)

module _ {ℓ} {A : Type ℓ} where
  pub cut_equal :
      (xs ys us vs : List A) → length xs ≡ length ys → xs ++ us ≡ ys ++ vs → (xs ≡ ys) × (us ≡ vs)
  cut_equal [] [] us vs n e = (refl, e)
  cut_equal [] (y ∷ ys) us vs n e = absurd (omega (arith, n))
  cut_equal (x ∷ xs) [] us vs n e = absurd (omega (arith, n))
  cut_equal (x ∷ xs) (y ∷ ys) us vs n e =
      let (same, rest) = cut_equal xs ys us vs (omega (arith, n)) cc in (cc, rest)
