-- ===== src/Common/Sets.antt =====
-- sets.String of k8s.io/apimachinery, and sets.Set[string]: the operations that the program calls
-- and what it relies on. The nil set reads as the empty one.
use steve.Common.{ℕ, Str, str_eq, ◌==◌, ◌≡◌, Bool, false, ◌||◌, List, [], ◌∷◌, length, contains}

pub record StringSets : Type 1 where
  pub StringSet : Type 0
  pub new : StringSet
  pub insert : Str → StringSet → StringSet
  pub has : StringSet → Str → Bool
  pub len : StringSet → ℕ
  -- List(): the members in order
  pub list : StringSet → List Str
  pub has_new : (x : Str) → has new x ≡ false
  pub has_insert : (x y : Str) (s : StringSet) → has (insert x s) y ≡ (has s y || (x == y))
  pub contains_list : (x : Str) (s : StringSet) → contains (list s) x ≡ has s x
  pub length_list : (s : StringSet) → length (list s) ≡ len s
  pub list_single : (x : Str) → list (insert x new) ≡ x ∷ []
