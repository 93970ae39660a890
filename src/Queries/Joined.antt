-- ===== src/Queries/Joined.antt =====
-- Clauses side by side, and a list of steps that can fail.
use steve.Common.{Str, List, [], ◌∷◌, ◌++◌}
use steve.Queries.Text.{cat, join}
use steve.Queries.Filters.{Param, Built, built, ◌>>=◌, Clause}

module _ {F : Type 0} where
  abbrev pub texts_of : List (Clause F) → List Str
  texts_of [] = []
  texts_of (c ∷ cs) = c.sql ∷ texts_of cs

  abbrev pub params_of : List (Clause F) → List (Param F)
  params_of [] = []
  params_of (c ∷ cs) = c.params ++ params_of cs

  -- The clauses with a text in front, between them and at the end.
  unfoldable pub joined : Str → Str → Str → List (Clause F) → Clause F
  joined opening separator closing cs = record {
    sql = cat (opening ∷ join separator (texts_of cs) ∷ closing ∷ []);
    params = params_of cs;
  }

unfoldable pub each : {A B : Type 0} → (A → Built B) → List A → Built (List B)
each f [] = built []
each f (a ∷ more) = f a >>= λ b. each f more >>= λ bs. built (b ∷ bs)
