-- ===== src/Query/Parser/Valid.antt =====
-- What the parser's requirements are: the rules of NewRequirement and of parseRequirement.
use steve.Common.{
  ℕ, zero, suc, ◌≡◌, ◌≢◌, refl, subst, Str, str_eq, true, false, not, List, [], ◌∷◌, ◌++◌, some,
  if◌then◌else◌, length, arith, Bool-cases, inl, inr, Option-cases,
}
use steve.Common.Sets.{StringSets}
use steve.Common.Numbers.{ℤ, parse_int}
use steve.Query.Token.{
  Operator, unset, does_not_exist, equals, double_equals, partial_equals, in_set, not_equals,
  not_partial_equals, not_in, exists, greater_than, less_than, ScannedItem,
}
use steve.Query.Lexer.{scan, is_end}
use steve.Query.Requirement.{
  Requirement, Checked, valid, invalid, new_requirement, matches_label_selector, requirement_errors,
  integer_errors,
}
use steve.Query.Outcome.{Outcome, ok, err, panic, stuck, Parse, ◌>>=◌, fail, not_a_label}
use steve.Query.Parser.{
  as_value, parse_key_and_infer_operator, parse_operator, operator_of, operator_alias, parse_values,
  parse_single_value, checked, parse_requirement, parse_loop, parse_items, parse_to_requirements,
  after_requirement, starts_requirement, is_set_operator, is_existence,
}

-- One value, which is a 64-bit integer.
abbrev pub IsInteger : List Str → Type 0
IsInteger vals = (v : Str) × (n : ℤ) × (vals ≡ v ∷ []) × (parse_int v ≡ some n)

-- The rules that the operator sets for the key and the values.
abbrev pub FollowsRules : Str → List Str → Operator → Type 0
FollowsRules key vals in_set = vals ≢ []
FollowsRules key vals not_in = vals ≢ []
FollowsRules key vals exists = (vals ≡ []) × (matches_label_selector key ≡ true)
FollowsRules key vals does_not_exist = (vals ≡ []) × (matches_label_selector key ≡ true)
FollowsRules key vals greater_than = IsInteger vals
FollowsRules key vals less_than = IsInteger vals
FollowsRules key vals unset = ⊥
FollowsRules key vals equals = length vals ≡ 1
FollowsRules key vals double_equals = length vals ≡ 1
FollowsRules key vals partial_equals = length vals ≡ 1
FollowsRules key vals not_equals = length vals ≡ 1
FollowsRules key vals not_partial_equals = length vals ≡ 1

abbrev pub IsValid : Requirement → Type 0
IsValid q = FollowsRules q.key q.str_values q.operator

abbrev pub AllValid : List Requirement → Type 0
AllValid [] = Unit
AllValid (q ∷ qs) = IsValid q × AllValid qs

IsInteger-rules : (vals : List Str) → length vals ≡ 1 → integer_errors vals ≡ [] → IsInteger vals
unfolding integer_errors
IsInteger-rules [] h k = absurd (omega arith)
IsInteger-rules (v ∷ u ∷ vals) h k = absurd (omega arith)
IsInteger-rules (v ∷ []) h k = elim (Option-cases (parse_int v)) [
  | inl e ↦ ground arith
  | inr (n, e) ↦ (v, n, refl, e)
]

-- Where the constructor reports nothing, the rules hold.
no_errors :
    (key : Str) (vals : List Str) (op : Operator)
    → (is_existence op ≡ true → matches_label_selector key ≡ true)
    → requirement_errors op vals ≡ []
    → FollowsRules key vals op
unfolding requirement_errors is_existence
no_errors key [] in_set h k = ground arith
no_errors key (v ∷ vals) in_set h k = ground arith
no_errors key [] not_in h k = ground arith
no_errors key (v ∷ vals) not_in h k = ground arith
no_errors key [] exists h k = (refl, h refl)
no_errors key (v ∷ vals) exists h k = ground arith
no_errors key [] does_not_exist h k = (refl, h refl)
no_errors key (v ∷ vals) does_not_exist h k = ground arith
no_errors key vals greater_than h k = ground (arith, IsInteger-rules vals)
no_errors key vals less_than h k = ground (arith, IsInteger-rules vals)
no_errors key vals unset h k = ground arith
no_errors key vals equals h k = ground arith
no_errors key vals double_equals h k = ground arith
no_errors key vals partial_equals h k = ground arith
no_errors key vals not_equals h k = ground arith
no_errors key vals not_partial_equals h k = ground arith

-- What a result satisfies, where there is one.
abbrev pub Yields {ℓ} : {A : Type ℓ} → (A → Type 0) → Outcome A → Type 0
Yields P (ok a l) = P a
Yields P (err e) = Unit
Yields P panic = Unit
Yields P stuck = Unit

Yields-bind {ℓ κ} :
    {A : Type ℓ} {B : Type κ} (P : A → Type 0) (Q : B → Type 0) (m : Parse A) (f : A → Parse B)
    (l : List ScannedItem) (o : Outcome A)
    → m l ≡ o
    → Yields P o
    → ((a : A) (r : List ScannedItem) → P a → Yields Q (f a r))
    → Yields Q ((m >>= f) l)
Yields-bind P Q m f l (ok a r) e h k = rw (e, ◌>>=◌) (k a r h)
Yields-bind P Q m f l (err x) e h k = rw (e, ◌>>=◌) tt
Yields-bind P Q m f l panic e h k = rw (e, ◌>>=◌) tt
Yields-bind P Q m f l stuck e h k = rw (e, ◌>>=◌) tt

Yields-any {ℓ} : {A : Type ℓ} (o : Outcome A) → Yields (λ a. Unit) o
Yields-any (ok a l) = tt
Yields-any (err e) = tt
Yields-any panic = tt
Yields-any stuck = tt

AllValid-snoc :
    (qs : List Requirement) (q : Requirement) → AllValid qs → IsValid q → AllValid (qs ++ q ∷ [])
AllValid-snoc [] q h k = (k, tt)
AllValid-snoc (r ∷ qs) q (h, hs) k = (h, AllValid-snoc qs q hs k)

operator_compares :
    (l : List ScannedItem) → Yields (λ op. is_existence op ≡ false) (parse_operator l)
unfolding parse_operator operator_of operator_alias is_existence
operator_compares [] = tt
operator_compares (i ∷ l) = ground arith

new_requirement_valid :
    (key : Str) (op : Operator) (vals : List Str) (q : Requirement)
    → (is_existence op ≡ true → matches_label_selector key ≡ true)
    → new_requirement key op vals ≡ valid q
    → IsValid q
unfolding new_requirement
new_requirement_valid key op vals q h k =
    let parts : (requirement_errors op vals ≡ [])
        × (record { key = key; operator = op; str_values = vals } ≡ q) =
      ground arith in
    subst IsValid parts.1 (no_errors key vals op h parts.0)

module _ (sets : StringSets) where
  checked_valid :
      (c : Checked) (l : List ScannedItem)
      → ((q : Requirement) → c ≡ valid q → IsValid q)
      → Yields IsValid (checked sets c l)
  checked_valid (valid q) l h = h q refl
  checked_valid (invalid es) l h = tt

  comparison-IsValid :
      (key : Str) (l : List ScannedItem)
      → Yields IsValid (
          (parse_operator >>= λ op.
          (if is_set_operator op then parse_values sets else parse_single_value sets) >>= λ values.
          checked sets (new_requirement key op (sets.list values)))
            l)
  comparison-IsValid key l =
      Yields-bind (λ op. is_existence op ≡ false) IsValid parse_operator _ l (parse_operator l) refl
        (operator_compares l)
        (λ op r h.
          Yields-bind (λ a. Unit) IsValid
            (if is_set_operator op then parse_values sets else parse_single_value sets) _ r _ refl
            (Yields-any _)
            (λ values t u. checked_valid (new_requirement key op (sets.list values)) t (λ q e.
              new_requirement_valid key op (sets.list values) q (λ k. ground (arith, h, k)) e)))

  existence-IsValid :
      (key : Str) (op : Operator) (l : List ScannedItem)
      → Yields IsValid (
          (if not (matches_label_selector key)
              then fail (not_a_label key)
              else checked sets (new_requirement key op []))
            l)
  existence-IsValid key op l = elim (Bool-cases (matches_label_selector key)) [
    | inl label ↦ rw label (
        checked_valid (new_requirement key op []) l
          (λ q e. new_requirement_valid key op [] q (λ k. label) e))
    | inr field ↦ rw field tt
  ]

  parse_requirement-IsValid : (l : List ScannedItem) → Yields IsValid (parse_requirement sets l)
  unfolding parse_requirement
  parse_requirement-IsValid l =
      Yields-bind (λ a. Unit) IsValid parse_key_and_infer_operator _ l _ refl (Yields-any _)
        (λ read r u. elim (Bool-cases (is_existence read.1)) [
          | inl existence ↦ rw existence (existence-IsValid read.0 read.1 r)
          | inr other ↦ rw other (comparison-IsValid read.0 r)
        ])

  after_requirement_valid :
      (again : Parse (List Requirement)) (done : List Requirement) (l : List ScannedItem)
      → AllValid done
      → ((r : List ScannedItem) → Yields AllValid (again r))
      → Yields AllValid (after_requirement sets again done l)
  unfolding after_requirement
  after_requirement_valid again done [] h k = tt
  after_requirement_valid again done (i ∷ []) h k = ground arith
  after_requirement_valid again done (i ∷ j ∷ l) h k = ground (arith, k (j ∷ l))

  parse_loop_valid :
      (n : ℕ) (done : List Requirement) (l : List ScannedItem)
      → AllValid done
      → Yields AllValid (parse_loop sets n done l)
  unfolding parse_loop
  parse_loop_valid zero done l h = tt
  parse_loop_valid (suc n) done [] h = tt
  parse_loop_valid (suc n) done (i ∷ l) h =
      let round : Yields AllValid (
          (parse_requirement sets >>= λ q.
          after_requirement sets (parse_loop sets n (done ++ q ∷ [])) (done ++ q ∷ []))
            (i ∷ l)) =
        Yields-bind IsValid AllValid (parse_requirement sets) _ (i ∷ l) _ refl
          (parse_requirement-IsValid (i ∷ l))
          (λ q r k.
            let more = AllValid-snoc done q h k in
            after_requirement_valid _ (done ++ q ∷ []) r more
              (λ t. parse_loop_valid n (done ++ q ∷ []) t more)) in
      elim (Bool-cases (is_end (as_value i.tok))) [
        | inl ended ↦ rw ended h
        | inr more ↦ elim (Bool-cases (not (starts_requirement sets (as_value i.tok)))) [
          | inl bad ↦ rw (more, bad) tt
          | inr good ↦ rw (more, good) round
        ]
      ]

  -- Each requirement that ParseToRequirements returns follows the rules of its operator: the sets
  -- of `in` and `notin` are not empty, the comparisons have one value, which is a 64-bit integer
  -- for < and >, and the existence tests have none and a label for their key.
  pub parse_to_requirements-AllValid :
      (selector : Str) (qs : List Requirement) (l : List ScannedItem)
      → parse_to_requirements sets selector ≡ ok qs l
      → AllValid qs
  unfolding parse_to_requirements parse_items
  parse_to_requirements-AllValid selector qs l h = elim (Option-cases (scan selector)) [
    | inl e ↦ ground arith
    | inr (items, e) ↦
        let good = parse_loop_valid (suc (length items)) [] items tt in ground (arith, good)
  ]
