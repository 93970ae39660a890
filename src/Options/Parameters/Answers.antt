-- ===== src/Options/Parameters/Answers.antt =====
-- What the answers of ParseQuery can be.
use steve.Common.{
  ℕ, Str, str_eq, ◌==◌, ◌≡◌, refl, Bool, true, false, List, [], ◌∷◌, none, some, any, eqb,
  if◌then◌else◌, arith, Bool-cases, Option-cases, inl, inr,
}
use steve.Common.Numbers.{parse_int}
use steve.Options.Fields.{split_on, closed, cut, safe_split}
use steve.Options.Fields.Splits.{has_byte}
use steve.Options.Types.{
  SortOrder, asc, desc, ListOptions, bad_filter, unknown_op, bad_revision, Answer, answer, refused,
  crash, endless, ◌>>=◌,
}
use steve.Options.Parameters.{
  ip_argument, sort_directive, signed_directive, parse_sort_part, parse_sort_parts, parse_sort,
  add_revision,
}

-- An answer is a value, or the refusal of a filter or of the revision.
abbrev pub IsAnswered {ℓ} : {A : Type ℓ} → (A → Type 0) → Answer A → Type 0
IsAnswered P (answer a) = P a
IsAnswered P (refused (bad_filter e)) = Unit
IsAnswered P (refused (bad_revision s)) = Unit
IsAnswered P (refused unknown_op) = ⊥
IsAnswered P crash = ⊥
IsAnswered P endless = ⊥

pub IsAnswered-bind {ℓ κ} :
    {A : Type ℓ} {B : Type κ} (P : A → Type 0) (Q : B → Type 0) (m : Answer A) (f : A → Answer B)
    → IsAnswered P m
    → ((a : A) → P a → IsAnswered Q (f a))
    → IsAnswered Q (m >>= f)
IsAnswered-bind P Q (answer a) f h k = k a h
IsAnswered-bind P Q (refused (bad_filter e)) f h k = tt
IsAnswered-bind P Q (refused (bad_revision s)) f h k = tt
IsAnswered-bind P Q (refused unknown_op) f h k = h
IsAnswered-bind P Q crash f h k = h
IsAnswered-bind P Q endless f h k = h

abbrev pub Any {ℓ} : {A : Type ℓ} → A → Type 0
Any a = Unit

cut_missing : (b : ℕ) (s : Str) → has_byte b s ≡ false → cut b s ≡ none
unfolding cut any
cut_missing b [] h = refl
cut_missing b (c ∷ s) h = ground (arith, cut_missing b s)

sort_directive-IsAnswered :
    (s : Str) (o : SortOrder) (ip : Bool)
    → has_byte b'[' s ≡ false
    → IsAnswered Any (sort_directive s o ip)
unfolding sort_directive safe_split
sort_directive-IsAnswered [] o ip h = tt
sort_directive-IsAnswered (c ∷ s) o ip h = rw (cut_missing b'[' (c ∷ s) h, IsAnswered) tt

signed_directive-IsAnswered :
    (s : Str) (ip : Bool) → has_byte b'[' s ≡ false → IsAnswered Any (signed_directive s ip)
unfolding signed_directive any
signed_directive-IsAnswered [] ip h = tt
signed_directive-IsAnswered (c ∷ s) ip h =
    ground (arith, sort_directive-IsAnswered s desc ip, sort_directive-IsAnswered (c ∷ s) asc ip)

closed_clean :
    (b : ℕ) (s t : Str) → has_byte b'[' s ≡ false → closed b s ≡ some t → has_byte b'[' t ≡ false
unfolding closed any
closed_clean b [] t h k = ground arith
closed_clean b (c ∷ []) t h k = ground arith
closed_clean b (c ∷ d ∷ []) t h k = ground arith
closed_clean b (c ∷ d ∷ e ∷ s) t h k = elim (Option-cases (closed b (d ∷ e ∷ s))) [
  | inl missing ↦ ground arith
  | inr (u, found) ↦ ground (arith, closed_clean b (d ∷ e ∷ s) u)
]

ip_argument_clean :
    (s t : Str) → has_byte b'[' s ≡ false → ip_argument s ≡ some t → has_byte b'[' t ≡ false
unfolding ip_argument any
ip_argument_clean [] t h k = ground arith
ip_argument_clean (i ∷ []) t h k = ground arith
ip_argument_clean (i ∷ p ∷ []) t h k = ground arith
ip_argument_clean (i ∷ p ∷ o ∷ s) t h k = ground (arith, closed_clean b')' s t)

parse_sort_part-IsAnswered :
    (s : Str) → has_byte b'[' s ≡ false → IsAnswered Any (parse_sort_part s)
unfolding parse_sort_part
parse_sort_part-IsAnswered s h = elim (Option-cases (ip_argument s)) [
  | inl plain ↦ rw (plain, IsAnswered) (signed_directive-IsAnswered s false h)
  | inr (t, call) ↦
      rw (call, IsAnswered) (signed_directive-IsAnswered t true (ip_argument_clean s t h call))
]

-- No part has the byte.
abbrev AllClean : List Str → Type 0
AllClean [] = Unit
AllClean (s ∷ parts) = (has_byte b'[' s ≡ false) × AllClean parts

AllClean-extend :
    (sep c : ℕ) (parts : List Str)
    → eqb c b'[' ≡ false
    → AllClean parts
    → AllClean (
        if eqb c sep
        then [] ∷ parts
        else elim parts [ [] ↦ (c ∷ []) ∷ [] | part ∷ rest ↦ (c ∷ part) ∷ rest ])
unfolding any
AllClean-extend sep c [] h k = ground arith
AllClean-extend sep c (part ∷ parts) h k = ground arith

split_on-AllClean : (sep : ℕ) (s : Str) → has_byte b'[' s ≡ false → AllClean (split_on sep s)
unfolding split_on any
split_on-AllClean sep [] h = (refl, tt)
split_on-AllClean sep (c ∷ s) h =
    AllClean-extend sep c (split_on sep s) (ground arith) (split_on-AllClean sep s (ground arith))

parse_sort_parts-IsAnswered :
    (parts : List Str) → AllClean parts → IsAnswered Any (parse_sort_parts parts)
unfolding parse_sort_parts
parse_sort_parts-IsAnswered [] h = tt
parse_sort_parts-IsAnswered (s ∷ parts) (h, hs) =
    IsAnswered-bind Any Any (parse_sort_part s) _ (parse_sort_part-IsAnswered s h) (λ d u.
      IsAnswered-bind Any Any (parse_sort_parts parts) _ (parse_sort_parts-IsAnswered parts hs)
        (λ ds w. tt))

pub parse_sort-IsAnswered : (s : Str) → has_byte b'[' s ≡ false → IsAnswered Any (parse_sort s)
unfolding parse_sort
parse_sort-IsAnswered s h =
    ground (arith, parse_sort_parts-IsAnswered (split_on b',' s) (split_on-AllClean b',' s h))

pub add_revision-IsAnswered :
    (P : ListOptions → Type 0) (s : Str) (o : ListOptions)
    → P o
    → P (record o { revision = s })
    → IsAnswered P (add_revision s o)
unfolding add_revision
add_revision-IsAnswered P s o h k = elim (Bool-cases (s == [])) [
  | inl missing ↦ rw (missing, IsAnswered) h
  | inr given ↦ elim (Option-cases (parse_int s)) [
    | inl bad ↦ rw (given, bad, IsAnswered) tt
    | inr (n, good) ↦ rw (given, good, IsAnswered) k
  ]
]
