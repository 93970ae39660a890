-- ===== src/Query/Outcome.antt =====
-- What a method of the Parser of selector.go returns: it reads the items from its position on, and
-- leaves those behind them. An error ends the parse.
use steve.Common.{Str, List}
use steve.Query.Token.{ScannedItem}

-- `found` is "found 'literal', expected: …" with what was expected. `panic` is an index past the
-- items, `stuck` a loop that ran out of fuel.
pub data ParseError : Type 0 where
  found : Str → Str → ParseError
  no_value : ParseError
  not_a_label : Str → ParseError
  bad_requirement : List Str → ParseError

pub data Outcome {ℓ} (A : Type ℓ) : Type ℓ where
  ok : A → List ScannedItem → Outcome A
  err : ParseError → Outcome A
  panic : Outcome A
  stuck : Outcome A

abbrev pub Parse {ℓ} : Type ℓ → Type ℓ
Parse A = List ScannedItem → Outcome A

infixl 5 ◌>>=◌
abbrev pub ◌>>=◌ {ℓ κ} : {A : Type ℓ} {B : Type κ} → Parse A → (A → Parse B) → Parse B
◌>>=◌ m f l = elim (m l) [ ok a r ↦ f a r | err e ↦ err e | panic ↦ panic | stuck ↦ stuck ]

abbrev pub return {ℓ} : {A : Type ℓ} → A → Parse A
return a l = ok a l

abbrev pub fail {ℓ} : {A : Type ℓ} → ParseError → Parse A
fail e l = err e
