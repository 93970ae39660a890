-- ===== src/Query/Parser/Total.antt =====
-- The parser's use of the scanned items: how many each method of it takes.
use steve.Common.{
  str_beq, ℕ, zero, suc, ◌<◌, ◌≤◌, ◌≡◌, refl, Str, codes, str_eq, false, not, List, [], ◌∷◌, ◌++◌,
  if◌then◌else◌, length, arith, Bool-cases, inl, inr,
}
use steve.Common.Sets.{StringSets}
use steve.Query.Token.{Operator, unset, does_not_exist, ScannedItem}
use steve.Query.Lexer.{is_end}
use steve.Query.Lexer.Total.{EndsOnce, scan_total}
use steve.Query.Requirement.{
  Requirement, Checked, valid, invalid, new_requirement, matches_label_selector,
}
use steve.Query.Outcome.{
  Outcome, ok, err, panic, stuck, Parse, ◌>>=◌, return, fail, found, not_a_label,
}
use steve.Query.Parser.{
  as_value, consume, key_then, parse_key_and_infer_operator, parse_operator, parse_identifiers_list,
  closed_list, parse_values, parse_single_value, checked, parse_requirement, parse_loop,
  parse_items, parse_to_requirements, at_comma, is_closed_par, after_requirement,
  starts_requirement, is_set_operator, is_existence,
}

-- The parser fails, or goes on from fewer than `n` items, which still end with the end token.
abbrev pub IsSafe {ℓ} : {A : Type ℓ} → ℕ → Outcome A → Type 0
IsSafe n (ok a l) = EndsOnce l × (length l < n)
IsSafe n (err e) = Unit
IsSafe n panic = ⊥
IsSafe n stuck = ⊥

-- Behind an item that is not the end the items still end so.
behind :
    (i : ScannedItem) (l : List ScannedItem)
    → EndsOnce (i ∷ l)
    → is_end (as_value i.tok) ≡ false
    → EndsOnce l
behind i [] h k = ground arith
behind i (j ∷ l) h k = h.1

IsSafe-mono {ℓ} : {A : Type ℓ} (m n : ℕ) (o : Outcome A) → m ≤ n → IsSafe m o → IsSafe n o
IsSafe-mono m n (ok a l) h (k, lt) = (k, omega arith)
IsSafe-mono m n (err e) h k = tt
IsSafe-mono m n panic h k = k
IsSafe-mono m n stuck h k = k

-- A step and what follows it: the rest goes on from fewer items.
IsSafe-bind {ℓ κ} :
    {A : Type ℓ} {B : Type κ} (o : Outcome A) (m : Parse A) (f : A → Parse B) (n : ℕ)
    (l : List ScannedItem)
    → m l ≡ o
    → IsSafe n o
    → ((a : A) (r : List ScannedItem) → EndsOnce r → length r < n → IsSafe n (f a r))
    → IsSafe n ((m >>= f) l)
IsSafe-bind (ok a r) m f n l e (h, lt) k = rw (e, ◌>>=◌) (k a r h lt)
IsSafe-bind (err x) m f n l e h k = rw (e, ◌>>=◌) tt
IsSafe-bind panic m f n l e h k = absurd h
IsSafe-bind stuck m f n l e h k = absurd h

parse_operator-IsSafe : (l : List ScannedItem) → EndsOnce l → IsSafe (length l) (parse_operator l)
unfolding parse_operator str_beq
parse_operator-IsSafe [] h = h
parse_operator-IsSafe (i ∷ []) (h, k) = ground arith
parse_operator-IsSafe (i ∷ j ∷ l) (h, k) = ground arith

key_then-IsSafe :
    (op : Operator) (i : ScannedItem) (l : List ScannedItem)
    → EndsOnce (i ∷ l)
    → IsSafe (suc (length l)) (key_then op (record i { tok = as_value i.tok }) l)
unfolding key_then
key_then-IsSafe op i [] h = ground arith
key_then-IsSafe op i (j ∷ l) h = ground arith

parse_key_and_infer_operator-IsSafe :
    (l : List ScannedItem) → EndsOnce l → IsSafe (length l) (parse_key_and_infer_operator l)
unfolding parse_key_and_infer_operator
parse_key_and_infer_operator-IsSafe [] h = h
parse_key_and_infer_operator-IsSafe (i ∷ []) h = ground (arith, key_then-IsSafe unset i [] h)
parse_key_and_infer_operator-IsSafe (i ∷ j ∷ l) h =
    ground (arith, key_then-IsSafe unset i (j ∷ l) h, key_then-IsSafe does_not_exist j l)

-- The parser returns its requirements or an error.
abbrev pub IsResult {ℓ} : {A : Type ℓ} → Outcome A → Type 0
IsResult (ok a l) = Unit
IsResult (err e) = Unit
IsResult panic = ⊥
IsResult stuck = ⊥

module _ (sets : StringSets) where
  open sets use {StringSet, new, insert}

  parse_identifiers_list-IsSafe :
      (s : StringSet) (l : List ScannedItem)
      → EndsOnce l
      → IsSafe (length l) (parse_identifiers_list sets s l)
  unfolding parse_identifiers_list
  parse_identifiers_list-IsSafe s [] h = h
  parse_identifiers_list-IsSafe s (i ∷ []) h = ground arith
  parse_identifiers_list-IsSafe s (i ∷ j ∷ r) h = ground (
    arith,
    parse_identifiers_list-IsSafe (insert i.literal s) (j ∷ r),
    parse_identifiers_list-IsSafe (insert [] (at_comma sets s)) r,
    parse_identifiers_list-IsSafe (at_comma sets s) (j ∷ r),
    behind j r,
  )

  closes-IsSafe :
      (lit : Str) (s : StringSet) (l : List ScannedItem)
      → EndsOnce l
      → IsSafe (length l) (
          (do
            i ← consume
            if is_closed_par sets i.tok then return s else fail (found lit (codes "')'")))
            l)
  closes-IsSafe lit s [] h = h
  closes-IsSafe lit s (i ∷ []) h = ground arith
  closes-IsSafe lit s (i ∷ j ∷ l) h = ground arith

  closed_list-IsSafe :
      (lit : Str) (l : List ScannedItem) → EndsOnce l → IsSafe (length l) (closed_list sets lit l)
  unfolding closed_list
  closed_list-IsSafe lit l h =
      IsSafe-bind (parse_identifiers_list sets new l) (parse_identifiers_list sets new) _ (length l)
        l refl (parse_identifiers_list-IsSafe new l h)
        (λ s r k lt. IsSafe-mono (length r) (length l) _ (omega arith) (closes-IsSafe lit s r k))

  parse_values-IsSafe :
      (l : List ScannedItem) → EndsOnce l → IsSafe (length l) (parse_values sets l)
  unfolding parse_values
  parse_values-IsSafe [] h = h
  parse_values-IsSafe (i ∷ []) h = ground arith
  parse_values-IsSafe (i ∷ j ∷ l) h =
      ground (arith, closed_list-IsSafe j.literal (j ∷ l), behind j l)

  parse_single_value-IsSafe :
      (l : List ScannedItem) → EndsOnce l → IsSafe (length l) (parse_single_value sets l)
  unfolding parse_single_value
  parse_single_value-IsSafe [] h = h
  parse_single_value-IsSafe (i ∷ l) h = ground (arith, behind i l)

  checked-IsSafe :
      (c : Checked) (l : List ScannedItem) → EndsOnce l → IsSafe (suc (length l)) (checked sets c l)
  checked-IsSafe (valid q) l h = (h, omega arith)
  checked-IsSafe (invalid es) l h = tt

  values-IsSafe :
      (op : Operator) (l : List ScannedItem)
      → EndsOnce l
      → IsSafe
          (length l)
          ((if is_set_operator op then parse_values sets else parse_single_value sets) l)
  values-IsSafe op l h = elim (Bool-cases (is_set_operator op)) [
    | inl set_op ↦ rw set_op (parse_values-IsSafe l h)
    | inr other ↦ rw other (parse_single_value-IsSafe l h)
  ]

  -- The operator and the values, behind the key.
  parse_comparison : Str → Parse Requirement
  parse_comparison key = do
    op ← parse_operator
    values ← if is_set_operator op then parse_values sets else parse_single_value sets
    checked sets (new_requirement key op (sets.list values))

  parse_comparison-IsSafe :
      (key : Str) (n : ℕ) (l : List ScannedItem)
      → EndsOnce l
      → length l < n
      → IsSafe n (parse_comparison key l)
  unfolding parse_comparison
  parse_comparison-IsSafe key n l h lt =
      IsSafe-bind (parse_operator l) parse_operator _ n l refl
        (IsSafe-mono (length l) n _ (omega arith) (parse_operator-IsSafe l h))
        (λ op r k lt'.
          IsSafe-bind _ (if is_set_operator op then parse_values sets else parse_single_value sets)
            _ n r refl (IsSafe-mono (length r) n _ (omega arith) (values-IsSafe op r k))
            (λ values t j lt''.
              IsSafe-mono (suc (length t)) n _ (omega arith)
                (checked-IsSafe (new_requirement key op (sets.list values)) t j)))

  existence-IsSafe :
      (key : Str) (op : Operator) (l : List ScannedItem)
      → EndsOnce l
      → IsSafe (suc (length l)) (
          (if not (matches_label_selector key)
              then fail (not_a_label key)
              else checked sets (new_requirement key op []))
            l)
  existence-IsSafe key op l h = ground (arith, checked-IsSafe (new_requirement key op []) l h)

  parse_requirement-IsSafe :
      (l : List ScannedItem) → EndsOnce l → IsSafe (length l) (parse_requirement sets l)
  unfolding parse_requirement parse_comparison
  parse_requirement-IsSafe l h =
      IsSafe-bind (parse_key_and_infer_operator l) parse_key_and_infer_operator _ (length l) l refl
        (parse_key_and_infer_operator-IsSafe l h)
        (λ read r k lt. elim (Bool-cases (is_existence read.1)) [
          | inl existence ↦ rw existence (
              IsSafe-mono (suc (length r)) (length l) _ (omega arith)
                (existence-IsSafe read.0 read.1 r k))
          | inr comparison ↦ rw comparison (parse_comparison-IsSafe read.0 (length l) r k lt)
        ])

  -- What follows a requirement is safe when a further round is.
  after_requirement_safe :
      (again : Parse (List Requirement)) (done : List Requirement) (l : List ScannedItem)
      → EndsOnce l
      → ((r : List ScannedItem) → EndsOnce r → length r < length l → IsResult (again r))
      → IsResult (after_requirement sets again done l)
  unfolding after_requirement
  after_requirement_safe again done [] h k = h
  after_requirement_safe again done (i ∷ []) h k = ground arith
  after_requirement_safe again done (i ∷ j ∷ l) h k = ground (arith, k (j ∷ l) h.1)

  IsResult-bind {ℓ} :
      {A : Type ℓ} (o : Outcome A) (m : Parse A) (f : A → Parse (List Requirement)) (n : ℕ)
      (l : List ScannedItem)
      → m l ≡ o
      → IsSafe n o
      → ((a : A) (r : List ScannedItem) → EndsOnce r → length r < n → IsResult (f a r))
      → IsResult ((m >>= f) l)
  IsResult-bind (ok a r) m f n l e (h, lt) k = rw (e, ◌>>=◌) (k a r h lt)
  IsResult-bind (err x) m f n l e h k = rw (e, ◌>>=◌) tt
  IsResult-bind panic m f n l e h k = absurd h
  IsResult-bind stuck m f n l e h k = absurd h

  parse_loop_safe :
      (n : ℕ) (done : List Requirement) (l : List ScannedItem)
      → EndsOnce l
      → length l < n
      → IsResult (parse_loop sets n done l)
  unfolding parse_loop
  parse_loop_safe zero done l h lt = absurd (omega arith)
  parse_loop_safe (suc n) done [] h lt = h
  parse_loop_safe (suc n) done (i ∷ l) h lt =
      let round : IsResult (
          (parse_requirement sets >>= λ q.
          after_requirement sets (parse_loop sets n (done ++ q ∷ [])) (done ++ q ∷ []))
            (i ∷ l)) =
        IsResult-bind (parse_requirement sets (i ∷ l)) (parse_requirement sets) _ (suc (length l))
          (i ∷ l) refl (parse_requirement-IsSafe (i ∷ l) h)
          (λ q r k lt'.
            after_requirement_safe _ (done ++ q ∷ []) r k
              (λ t j lt''. parse_loop_safe n (done ++ q ∷ []) t j (omega arith))) in
      elim (Bool-cases (is_end (as_value i.tok))) [
        | inl ended ↦ rw ended tt
        | inr more ↦ elim (Bool-cases (not (starts_requirement sets (as_value i.tok)))) [
          | inl bad ↦ rw (more, bad) tt
          | inr good ↦ rw (more, good) round
        ]
      ]

  -- Whatever the text, ParseToRequirements returns requirements or an error: it reads no item past
  -- the last one, and its loops end.
  pub parse_to_requirements_total :
      (selector : Str) → IsResult (parse_to_requirements sets selector)
  unfolding parse_to_requirements parse_items
  parse_to_requirements_total selector =
      let (l, items, once) = scan_total selector in
      rw (items, parse_to_requirements) (parse_loop_safe (suc (length l)) [] l once (omega arith))
