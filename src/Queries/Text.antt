-- ===== src/Queries/Text.antt =====
-- The text of a query, made of pieces as fmt.Sprintf and strings.Join make it, and its placeholders.
use steve.Common.{
  ℕ, zero, suc, ◌+◌, ◌/◌, ◌%◌, ◌≡◌, refl, Str, codes, List, [], ◌∷◌, ◌++◌, eqb, ltb, if◌then◌else◌,
  arith,
}

-- The pieces one behind the other.
unfoldable pub cat : List Str → Str
cat [] = []
cat (s ∷ ss) = s ++ cat ss

-- strings.Join
unfoldable pub join : Str → List Str → Str
join sep [] = []
join sep (s ∷ []) = s
join sep (s ∷ (t ∷ ss)) = s ++ sep ++ join sep (t ∷ ss)

-- strings.Repeat
unfoldable pub repeat : Str → ℕ → Str
repeat s zero = []
repeat s (suc n) = s ++ repeat s n

-- %d of an index, on fuel.
unfoldable pub digits : ℕ → ℕ → Str
digits zero n = []
digits (suc fuel) n =
    if ltb n 10 then (b'0' + n) ∷ [] else digits fuel (n / 10) ++ (b'0' + n % 10) ∷ []

abbrev pub decimal : ℕ → Str
decimal n = digits (suc n) n

-- The number of placeholders.
unfoldable pub marks : Str → ℕ
marks [] = 0
marks (c ∷ s) = if eqb c b'?' then suc (marks s) else marks s

unfoldable pub marks_all : List Str → ℕ
marks_all [] = 0
marks_all (s ∷ ss) = marks s + marks_all ss

pub marks-append : (s t : Str) → marks (s ++ t) ≡ marks s + marks t
unfolding marks
marks-append [] t = omega arith
marks-append (c ∷ s) t = ground (arith, marks-append s t)

pub marks-cat : (ss : List Str) → marks (cat ss) ≡ marks_all ss
unfolding marks marks_all cat
marks-cat [] = refl
marks-cat (s ∷ ss) = omega (arith, marks-append s (cat ss), marks-cat ss)

pub marks-digits : (fuel n : ℕ) → marks (digits fuel n) ≡ 0
unfolding marks digits
marks-digits zero n = refl
marks-digits (suc fuel) n =
    let rest = marks-digits fuel (n / 10) in
    ground (arith, rest, marks-append (digits fuel (n / 10)) ((b'0' + n % 10) ∷ []))

pub marks-join : (sep : Str) (ss : List Str) → marks sep ≡ 0 → marks (join sep ss) ≡ marks_all ss
unfolding marks marks_all join
marks-join sep [] e = refl
marks-join sep (s ∷ []) e = omega arith
marks-join sep (s ∷ (t ∷ ss)) e = omega (
  arith,
  marks-append (s ++ sep) (join sep (t ∷ ss)),
  marks-append s sep,
  marks-join sep (t ∷ ss) e,
)

pub marks-repeat : (n : ℕ) → marks (repeat (codes ", ?") n) ≡ n
unfolding marks repeat
marks-repeat zero = refl
marks-repeat (suc n) = omega (arith, marks-repeat n)
