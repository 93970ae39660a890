-- ===== src/Options/Fields.antt =====
-- The two ways to cut the accessor of a field into its parts: SafeSplit of
-- pkg/stores/queryhelper/safesplit.go and splitQuery of
-- pkg/stores/sqlpartition/listprocessor/processor.go.
pub mod Splits
use steve.Common.{
  ℕ, Str, Bool, true, false, ◌&&◌, List, [], ◌∷◌, ◌++◌, Option, none, some, any, eqb, if◌then◌else◌,
}

-- strings.Split(s, sep) for a separator of one byte.
unfoldable pub split_on : ℕ → Str → List Str
split_on sep [] = [] ∷ []
split_on sep (c ∷ s) =
    let rest = split_on sep s in
    if eqb c sep
    then [] ∷ rest
    else elim rest [ [] ↦ (c ∷ []) ∷ [] | part ∷ parts ↦ (c ∷ part) ∷ parts ]

-- What stands in front of the first byte `b`, and what stands behind it.
unfoldable pub cut : ℕ → Str → Option (Str × Str)
cut b [] = none
cut b (c ∷ s) =
    let rest = cut b s in
    if eqb c b
    then some ([], s)
    else elim rest [ none ↦ none | some (before, after) ↦ some (c ∷ before, after) ]

-- A text without its last byte; `none` where it has none.
unfoldable pub without_last : Str → Option Str
without_last [] = none
without_last (c ∷ s) = elim (without_last s) [ none ↦ some [] | some t ↦ some (c ∷ t) ]

-- SafeSplit. `none` is the panic of a slice whose end stands before its start.
unfoldable pub safe_split : Str → Option (List Str)
unfolding cut without_last
safe_split field_path = elim (cut b'[' field_path) [
  | none ↦ some (split_on b'.' field_path)
  | some (before, after) ↦ elim (without_last after) [
    | none ↦ none
    | some inner ↦ some (split_on b'.' before ++ inner ∷ [])
  ]
]

-- `.+` and a closing byte up to the end: what stands in front of that byte.
unfoldable pub closed : ℕ → Str → Option Str
closed b [] = none
closed b (c ∷ []) = none
closed b (c ∷ d ∷ []) = if eqb d b then some (c ∷ []) else none
closed b (c ∷ d ∷ e ∷ s) = elim (closed b (d ∷ e ∷ s)) [ none ↦ none | some t ↦ some (c ∷ t) ]

-- The last bracket with such a text behind it, as the greedy `.+` finds it.
unfoldable pub last_bracket : Str → Option (Str × Str)
unfolding closed
last_bracket [] = none
last_bracket (c ∷ s) = elim (last_bracket s) [
  | some (before, inner) ↦ some (c ∷ before, inner)
  | none ↦
      if eqb c b'['
      then elim (closed b']' s) [ none ↦ none | some inner ↦ some ([], inner) ]
      else none
]

-- endsWithBracket, `^(.+)\[(.+)]$`: the two groups.
unfoldable pub ends_with_bracket : Str → Option (Str × Str)
unfolding last_bracket
ends_with_bracket s = if any (λ c. eqb c 10) s then none else elim (last_bracket s) [
  | none ↦ none
  | some (before, inner) ↦ elim before [ [] ↦ none | c ∷ before ↦ some (c ∷ before, inner) ]
]

-- splitQuery
unfoldable pub split_query : Str → List Str
split_query query = elim (ends_with_bracket query) [
  | none ↦ split_on b'.' query
  | some (before, inner) ↦ split_on b'.' before ++ inner ∷ []
]
