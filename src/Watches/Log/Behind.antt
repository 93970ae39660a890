-- ===== src/Watches/Log/Behind.antt =====
-- The rows behind a revision, and the table whose last row is the latest.
use steve.Common.{
  ◌≡◌, refl, ap, Str, str_eq, str_beq_iff, ◌==◌, List, [], ◌∷◌, ◌++◌, Option, none, some,
  if◌then◌else◌, Bool-cases, inl, inr, ◌⊎◌,
}
use steve.Watches.Log.{Row}
use steve.Watches.Log.Rows.{IsFresh}

module _ {L : Type 0} where
  -- The rows behind the first one of a revision, if there is one.
  unfoldable pub behind : Str → List (Row L) → Option (List (Row L))
  behind revision [] = none
  behind revision (r ∷ rows) =
      let rest = behind revision rows in
      if r.event.object.revision == revision then some rows else rest

  -- The last row, and only it, is of the latest revision.
  pub record IsLast (latest : Str) (rows : List (Row L)) : Type 0 where
    pub before : List (Row L)
    pub last : Row L
    pub parts : rows ≡ before ++ last ∷ []
    pub is_latest : last.event.object.revision ≡ latest
    pub fresh : IsFresh latest before

  abbrev pub IsCurrent : Str → List (Row L) → Type 0
  IsCurrent latest rows = (rows ≡ []) ⊎ IsLast latest rows

  pub record Found (revision : Str) (rows : List (Row L)) : Type 0 where
    pub before : List (Row L)
    pub at : Row L
    pub after : List (Row L)
    pub parts : rows ≡ before ++ at ∷ after
    pub is_at : at.event.object.revision ≡ revision
    pub fresh : IsFresh revision before

  pub Found-cases :
      (revision : Str) (rows : List (Row L)) → Found revision rows ⊎ IsFresh revision rows
  Found-cases revision [] = inr tt
  Found-cases revision (r ∷ rows) = elim (Bool-cases (r.event.object.revision == revision)) [
    | inl here ↦ inl (record {
      before = [];
      at = r;
      after = rows;
      parts = refl;
      is_at = (str_beq_iff r.event.object.revision revision).0 here;
      fresh = tt;
    })
    | inr away ↦ elim (Found-cases revision rows) [
      | inl found ↦ inl (record {
        before = r ∷ found.before;
        at = found.at;
        after = found.after;
        parts = ap (◌∷◌ r) found.parts;
        is_at = found.is_at;
        fresh = (away, found.fresh);
      })
      | inr fresh ↦ inr (away, fresh)
    ]
  ]

  pub behind_fresh :
      (revision : Str) (rows : List (Row L)) → IsFresh revision rows → behind revision rows ≡ none
  unfolding behind
  behind_fresh revision [] h = refl
  behind_fresh revision (r ∷ rows) (h, hs) = rw (h, behind_fresh revision rows hs) refl

  pub behind_here :
      (revision : Str) (before : List (Row L)) (r : Row L) (after : List (Row L))
      → IsFresh revision before
      → r.event.object.revision ≡ revision
      → behind revision (before ++ r ∷ after) ≡ some after
  unfolding behind
  behind_here revision [] r after h e = rw (e, (str_beq_iff revision revision).1 refl) refl
  behind_here revision (x ∷ before) r after (h, hs) e =
      rw (h, behind_here revision before r after hs e) refl

  pub IsFresh-append :
      (revision : Str) (xs ys : List (Row L))
      → IsFresh revision xs
      → IsFresh revision ys
      → IsFresh revision (xs ++ ys)
  IsFresh-append revision [] ys h k = k
  IsFresh-append revision (x ∷ xs) ys (h, hs) k = (h, IsFresh-append revision xs ys hs k)

  pub IsFresh-right :
      (revision : Str) (xs ys : List (Row L)) → IsFresh revision (xs ++ ys) → IsFresh revision ys
  IsFresh-right revision [] ys h = h
  IsFresh-right revision (x ∷ xs) ys (h, hs) = IsFresh-right revision xs ys hs
