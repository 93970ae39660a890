-- ===== src/Common/Listed.antt =====
-- An implementation of the sets of strings: the list of the members in order, each once.
use steve.Common.{
  Str, str_eq, ◌==◌, ◌≡◌, refl, false, ◌||◌, List, [], ◌∷◌, if◌then◌else◌, any, contains,
  contains-insert_key, insert_key, length, arith,
}
use steve.Common.Sets.{StringSets}
use steve.Common.Sorting.{insert_by, any-insert_by}

unfoldable pub insert_member : Str → List Str → List Str
insert_member x s = if contains s x then s else insert_by (λ y. y) x s

pub has_insert_member :
    (x y : Str) (s : List Str) → contains (insert_member x s) y ≡ (contains s y || (x == y))
unfolding insert_member contains insert_key any
has_insert_member x y s =
    ground (arith, any-insert_by (λ z. z) (λ z. z == y) x s, contains-insert_key x y s)

pub lacks : (x : Str) → contains [] x ≡ false
unfolding contains any
lacks x = refl

pub single : (x : Str) → insert_member x [] ≡ x ∷ []
unfolding insert_member insert_by contains any
single x = refl

abbrev pub listed : StringSets
listed = record {
  StringSet = List Str;
  new = [];
  insert = insert_member;
  has = contains;
  len = length;
  list = λ s. s;
  has_new = lacks;
  has_insert = has_insert_member;
  contains_list = λ x s. refl;
  length_list = λ s. refl;
  list_single = single;
}
