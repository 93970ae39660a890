-- ===== src/Query/Requirement.antt =====
-- The requirements of selector.go: NewRequirement with its rules, and the pattern that a key of an
-- existence test has to match.
use steve.Common.{
  ℕ, zero, suc, Str, codes, str_eq, Bool, true, false, ◌||◌, ◌&&◌, not, List, [], ◌∷◌, ◌++◌, Option,
  none, some, leb, eqb, if◌then◌else◌, length, every,
}
use steve.Common.Numbers.{parse_int}
use steve.Query.Token.{
  Operator, unset, does_not_exist, equals, double_equals, partial_equals, in_set, not_equals,
  not_partial_equals, not_in, exists, greater_than, less_than,
}

pub record Requirement : Type 0 where
  pub key : Str
  pub operator : Operator
  pub str_values : List Str

abbrev is_int : Str → Bool
is_int v = elim (parse_int v) [ none ↦ false | some n ↦ true ]

-- One error for each value that is no integer.
unfoldable pub integer_errors : List Str → List Str
integer_errors [] = []
integer_errors (v ∷ vs) =
    let rest = integer_errors vs in
    if is_int v then rest else codes "for 'Gt', 'Lt' operators, the value must be an integer" ∷ rest

-- The errors of NewRequirement, each by its text.
unfoldable pub requirement_errors : Operator → List Str → List Str
requirement_errors in_set vals =
    if eqb (length vals) 0
    then codes "for 'in', 'notin' operators, values set can't be empty" ∷ []
    else []
requirement_errors not_in vals =
    if eqb (length vals) 0
    then codes "for 'in', 'notin' operators, values set can't be empty" ∷ []
    else []
requirement_errors equals vals =
    if not (eqb (length vals) 1)
    then codes "exact-match compatibility requires one single value" ∷ []
    else []
requirement_errors double_equals vals =
    if not (eqb (length vals) 1)
    then codes "exact-match compatibility requires one single value" ∷ []
    else []
requirement_errors not_equals vals =
    if not (eqb (length vals) 1)
    then codes "exact-match compatibility requires one single value" ∷ []
    else []
requirement_errors partial_equals vals =
    if not (eqb (length vals) 1)
    then codes "partial-match compatibility requires one single value" ∷ []
    else []
requirement_errors not_partial_equals vals =
    if not (eqb (length vals) 1)
    then codes "partial-match compatibility requires one single value" ∷ []
    else []
requirement_errors exists vals =
    if not (eqb (length vals) 0)
    then codes "values set must be empty for exists and does not exist" ∷ []
    else []
requirement_errors does_not_exist vals =
    if not (eqb (length vals) 0)
    then codes "values set must be empty for exists and does not exist" ∷ []
    else []
requirement_errors greater_than vals =
    (if not (eqb (length vals) 1)
      then codes "for 'Gt', 'Lt' operators, exactly one value is required" ∷ []
      else [])
    ++ integer_errors vals
requirement_errors less_than vals =
    (if not (eqb (length vals) 1)
      then codes "for 'Gt', 'Lt' operators, exactly one value is required" ∷ []
      else [])
    ++ integer_errors vals
requirement_errors unset vals = codes "operator not supported" ∷ []

-- labelSelectorRegex, `^metadata.labels(?:\.\w[-a-zA-Z0-9_./]*|\[.*])$`. Its first dot stands for
-- any character but a newline; in UTF-8 that character takes up to four bytes, and a byte that
-- starts none is a character of its own.
is_continuation : ℕ → Bool
is_continuation c = leb 0x80 c && leb c 0xbf

-- The bytes that follow the first one of the character at the head of a text.
unfoldable pub rune_tail : ℕ → Str → ℕ
unfolding is_continuation
rune_tail b [] = 0
rune_tail b (c ∷ []) = if leb 0xc2 b && (leb b 0xdf && is_continuation c) then 1 else 0
rune_tail b (c ∷ d ∷ []) =
    if leb 0xc2 b && (leb b 0xdf && is_continuation c)
    then 1
    else if leb 0xe0 b
        && (leb b 0xef
            && (leb (if eqb b 0xe0 then 0xa0 else 0x80) c
                && (leb c (if eqb b 0xed then 0x9f else 0xbf) && is_continuation d)))
    then 2
    else 0
rune_tail b (c ∷ d ∷ e ∷ r) =
    if leb 0xc2 b && (leb b 0xdf && is_continuation c)
    then 1
    else if leb 0xe0 b
        && (leb b 0xef
            && (leb (if eqb b 0xe0 then 0xa0 else 0x80) c
                && (leb c (if eqb b 0xed then 0x9f else 0xbf) && is_continuation d)))
    then 2
    else if leb 0xf0 b
        && (leb b 0xf4
            && (leb (if eqb b 0xf0 then 0x90 else 0x80) c
                && (leb c (if eqb b 0xf4 then 0x8f else 0xbf)
                    && (is_continuation d && is_continuation e))))
    then 3
    else 0

abbrev drop_bytes : ℕ → Str → Str
drop_bytes zero s = s
drop_bytes (suc n) [] = []
drop_bytes (suc n) (c ∷ s) = drop_bytes n s

any_rune : Str → Option Str
unfolding rune_tail
any_rune [] = none
any_rune (c ∷ s) = if eqb c 10 then none else some (drop_bytes (rune_tail c s) s)

strip_prefix : Str → Str → Option Str
strip_prefix [] s = some s
strip_prefix (p ∷ ps) [] = none
strip_prefix (p ∷ ps) (c ∷ s) = let rest = strip_prefix ps s in if eqb p c then rest else none

is_word : ℕ → Bool
is_word c =
    (leb b'a' c && leb c b'z')
    || ((leb b'A' c && leb c b'Z') || ((leb b'0' c && leb c b'9') || eqb c b'_'))

is_label_char : ℕ → Bool
unfolding is_word
is_label_char c = is_word c || (eqb c b'-' || (eqb c b'.' || eqb c b'/'))

-- `.*]` up to the end of the text.
closes : Str → Bool
closes [] = false
closes (c ∷ []) = eqb c b']'
closes (c ∷ d ∷ r) = let rest = closes (d ∷ r) in if eqb c 10 then false else rest

label_tail : Str → Bool
unfolding closes is_word is_label_char
label_tail [] = false
label_tail (c ∷ []) = false
label_tail (c ∷ d ∷ r) =
    (eqb c b'.' && (is_word d && every is_label_char r)) || (eqb c b'[' && closes (d ∷ r))

unfoldable pub matches_label_selector : Str → Bool
unfolding any_rune strip_prefix label_tail every
matches_label_selector s = elim (strip_prefix (codes "metadata") s) [
  | none ↦ false
  | some r ↦ elim (any_rune r) [
    | none ↦ false
    | some t ↦ elim (strip_prefix (codes "labels") t) [ none ↦ false | some u ↦ label_tail u ]
  ]
]

-- NewRequirement
pub data Checked : Type 0 where
  valid : Requirement → Checked
  invalid : List Str → Checked

unfoldable pub new_requirement : Str → Operator → List Str → Checked
new_requirement key op vals = elim (requirement_errors op vals) [
  | [] ↦ valid (record { key = key; operator = op; str_values = vals })
  | e ∷ es ↦ invalid (e ∷ es)
]
