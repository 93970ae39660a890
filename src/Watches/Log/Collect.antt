-- ===== src/Watches/Log/Collect.antt =====
-- The table of events through notifications and the deletion of old rows.
use steve.Common.{
  ℕ, zero, suc, ◌-◌, ◌≤◌, ◌<◌, ◌≡◌, refl, sym, ap, ◌∙◌, str_eq, true, false, not, List, [], ◌∷◌,
  ◌++◌, some, keep, ltb, leb, length, length-append, arith, Bool-cases, inl, inr, ◌⊎◌, subst,
}
use mathlib.Core.List.{reverse, reverse-append, reverse-cons}
use steve.Common.Indices.{take, drop, append-take-drop, length-drop, take_all}
use steve.Watches.Log.{Row, min_rowid, delete_events_by_count}
use steve.Watches.Log.Rows.{Ascending, Ascending-right}

module _ {L : Type 0} where
  length-reverse : (rows : List (Row L)) → length (reverse rows) ≡ length rows
  length-reverse [] = refl
  length-reverse (r ∷ rows) =
      rw (reverse-cons r rows)
        (omega (arith, length-append (reverse rows) (r ∷ []), length-reverse rows))

  take-append : (xs ys : List (Row L)) → take (length xs) (xs ++ ys) ≡ xs
  unfolding take
  take-append [] [] = refl
  take-append [] (y ∷ ys) = refl
  take-append (x ∷ xs) ys = ap (◌∷◌ x) (take-append xs ys)

  -- All ids are above a number.
  Above : ℕ → List (Row L) → Type 0
  Above n [] = Unit
  Above n (r ∷ rows) = (n < r.rowid) × Above n rows

  Above-append : (n : ℕ) (xs ys : List (Row L)) → Above n xs → Above n ys → Above n (xs ++ ys)
  unfolding Above
  Above-append n [] ys h k = k
  Above-append n (x ∷ xs) ys (h, hs) k = (h, Above-append n xs ys hs k)

  Above-reverse :
      (n : ℕ) (lo : ℕ) (rows : List (Row L)) → n ≤ lo → Ascending lo rows → Above n (reverse rows)
  unfolding Above
  Above-reverse n lo [] h a = tt
  Above-reverse n lo (r ∷ rows) h (lt, a) = rw (reverse-cons r rows) (
      Above-append n (reverse rows) (r ∷ []) (Above-reverse n r.rowid rows (omega arith) a)
        (omega arith, tt))

  min_rowid-Above :
      (rows : List (Row L)) (r : Row L)
      → Above r.rowid rows
      → min_rowid (rows ++ r ∷ []) ≡ some r.rowid
  unfolding Above min_rowid
  min_rowid-Above [] r h = refl
  min_rowid-Above (x ∷ rows) r (h, hs) =
      let above : ltb x.rowid r.rowid ≡ false = ground arith in
      rw (min_rowid-Above rows r hs, above) refl

  -- The least id of ascending rows is the first one.
  min_rowid-reverse :
      (lo : ℕ) (r : Row L) (rows : List (Row L))
      → Ascending lo (r ∷ rows)
      → min_rowid (reverse (r ∷ rows)) ≡ some r.rowid
  min_rowid-reverse lo r rows (lt, a) =
      rw (reverse-cons r rows)
        (min_rowid-Above (reverse rows) r (Above-reverse r.rowid r.rowid rows (omega arith) a))

  abbrev at_least : ℕ → List (Row L) → List (Row L)
  at_least n rows = keep (λ r. not (ltb r.rowid n)) rows

  keep_all : (n lo : ℕ) (rows : List (Row L)) → n ≤ lo → Ascending lo rows → at_least n rows ≡ rows
  unfolding keep
  keep_all n lo [] h a = refl
  keep_all n lo (r ∷ rows) h (lt, a) =
      let above : ltb r.rowid n ≡ false = ground arith in
      rw above (ap (◌∷◌ r) (keep_all n r.rowid rows (omega arith) a))

  keep_right :
      (lo : ℕ) (old : List (Row L)) (r : Row L) (rows : List (Row L))
      → Ascending lo (old ++ r ∷ rows)
      → at_least r.rowid (old ++ r ∷ rows) ≡ r ∷ rows
  unfolding keep
  keep_right lo [] r rows (lt, a) =
      let self : ltb r.rowid r.rowid ≡ false = ground arith in
      rw self (ap (◌∷◌ r) (keep_all r.rowid r.rowid rows (omega arith) a))
  keep_right lo (x ∷ old) r rows (lt, a) =
      let (less, more) = Ascending-right x.rowid old (r ∷ rows) a in
      let below : ltb x.rowid r.rowid ≡ true = ground arith in
      rw below (keep_right x.rowid old r rows a)

  take_last :
      (count : ℕ) (old new : List (Row L))
      → (length new ≡ count) ⊎ ((old ≡ []) × (length new ≤ count))
      → take count (reverse (old ++ new)) ≡ reverse new
  take_last count old new (inl e) =
      rw (reverse-append old new, ← e, ← length-reverse new)
        (take-append (reverse new) (reverse old))
  take_last count old new (inr (e, short)) =
      rw e (take_all count (reverse new) (omega (arith, length-reverse new)))

  none_lem : (count : ℕ) → delete_events_by_count {L = L} count [] ≡ []
  unfolding delete_events_by_count take min_rowid
  none_lem zero = refl
  none_lem (suc n) = refl

  delete_split :
      (lo count : ℕ) (old new : List (Row L))
      → 0 < count
      → (length new ≡ count) ⊎ ((old ≡ []) × (length new ≤ count))
      → Ascending lo (old ++ new)
      → delete_events_by_count count (old ++ new) ≡ new
  unfolding delete_events_by_count
  delete_split lo count old [] pos (inl none_kept) a = absurd (omega arith)
  delete_split lo count old [] pos (inr (none_old, short)) a = rw none_old (none_lem count)
  delete_split lo count old (r ∷ new) pos sizes a =
      rw
        (
          delete_events_by_count,
          take_last count old (r ∷ new) sizes,
          min_rowid-reverse _ r new (Ascending-right lo old (r ∷ new) a),
        )
        (keep_right lo old r new a)

  -- Where the ids ascend and the count is above zero, what a tick leaves is the last rows, so many
  -- of them as the count says.
  pub delete_events_by_count-drop :
      (lo count : ℕ) (rows : List (Row L))
      → 0 < count
      → Ascending lo rows
      → delete_events_by_count count rows ≡ drop (length rows - count) rows
  unfolding take
  delete_events_by_count-drop lo count rows pos a =
      let k = length rows - count in
      let parts : take k rows ++ drop k rows ≡ rows = append-take-drop k rows in
      ap (delete_events_by_count count) (sym parts)
      ∙ delete_split lo count (take k rows) (drop k rows) pos
          (sizes (leb_cases count (length rows))) (subst (Ascending lo) (sym parts) a)
    where
      leb_cases : (m n : ℕ) → (m ≤ n) ⊎ (n < m)
      leb_cases m n = elim (Bool-cases (leb m n)) [
        | inl h ↦ inl (ground arith)
        | inr h ↦ inr (ground arith)
      ]

      take_zero : (k : ℕ) → k ≡ 0 → take k rows ≡ []
      take_zero k e = rw e refl

      sizes :
          (count ≤ length rows) ⊎ (length rows < count)
          → (length (drop (length rows - count) rows) ≡ count)
            ⊎ ((take (length rows - count) rows ≡ [])
                × (length (drop (length rows - count) rows) ≤ count))
      sizes (inl h) = inl (omega (arith, length-drop (length rows - count) rows))
      sizes (inr h) = inr (
        take_zero (length rows - count) (omega arith),
        omega (arith, length-drop (length rows - count) rows),
      )
