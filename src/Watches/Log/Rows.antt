-- ===== src/Watches/Log/Rows.antt =====
-- The rows of the table of events: their ids ascend.
use steve.Common.{
  ℕ, suc, ◌≤◌, ◌<◌, ◌≡◌, refl, ap, Str, str_eq, str_beq_iff, ◌==◌, true, false, List, [], ◌∷◌, ◌++◌,
  none, some, keep, ltb, arith,
}
use steve.Watches.Log.{Event, Row, max_rowid, has_row, upsert_event, find_row, list_events_after}

module _ {L : Type 0} where
  abbrev pub Ascending : ℕ → List (Row L) → Type 0
  Ascending lo [] = Unit
  Ascending lo (r ∷ rows) = (lo < r.rowid) × Ascending r.rowid rows

  -- No row is of the revision.
  abbrev pub IsFresh : Str → List (Row L) → Type 0
  IsFresh revision [] = Unit
  IsFresh revision (r ∷ rows) =
      ((r.event.object.revision == revision) ≡ false) × IsFresh revision rows

  Ascending-mono : (m n : ℕ) (rows : List (Row L)) → m ≤ n → Ascending n rows → Ascending m rows
  Ascending-mono m n [] h a = tt
  Ascending-mono m n (r ∷ rows) h (lt, a) = (omega arith, a)

  pub Ascending-right : (lo : ℕ) (xs ys : List (Row L)) → Ascending lo (xs ++ ys) → Ascending lo ys
  Ascending-right lo [] ys a = a
  Ascending-right lo (x ∷ xs) ys (lt, a) =
      Ascending-right lo xs ys (Ascending-mono lo x.rowid (xs ++ ys) (omega arith) a)

  -- A row with the next id is behind all others.
  pub Ascending-insert :
      (lo : ℕ) (rows : List (Row L)) (e : Event L)
      → Ascending lo rows
      → Ascending lo (rows ++ record { rowid = suc (max_rowid lo rows); event = e } ∷ [])
  unfolding max_rowid
  Ascending-insert lo [] e a = (omega arith, tt)
  Ascending-insert lo (r ∷ rows) e (lt, a) =
      let above : ltb lo r.rowid ≡ true = ground arith in
      rw above (lt, Ascending-insert r.rowid rows e a)

  not_has_row :
      (e : Event L) (rows : List (Row L)) → IsFresh e.object.revision rows → has_row e rows ≡ false
  unfolding has_row
  not_has_row e [] h = refl
  not_has_row e (r ∷ rows) (h, hs) = ground (arith, not_has_row e rows hs)

  -- An event of a new revision is a new row.
  pub upsert_event_new :
      (e : Event L) (rows : List (Row L))
      → IsFresh e.object.revision rows
      → upsert_event e rows ≡ rows ++ record { rowid = suc (max_rowid 0 rows); event = e } ∷ []
  unfolding upsert_event
  upsert_event_new e rows h = rw (not_has_row e rows h) refl

  -- Rows above an id, and rows that are not.
  pub events_after_all :
      (n : ℕ) (rows : List (Row L)) → Ascending n rows → list_events_after n rows ≡ rows
  unfolding list_events_after keep
  events_after_all n [] a = refl
  events_after_all n (r ∷ rows) (lt, a) =
      let above : ltb n r.rowid ≡ true = ground arith in
      rw above
        (ap (◌∷◌ r) (events_after_all n rows (Ascending-mono n r.rowid rows (omega arith) a)))

  pub events_after_row :
      (lo : ℕ) (before : List (Row L)) (r : Row L) (after : List (Row L))
      → Ascending lo (before ++ r ∷ after)
      → list_events_after r.rowid (before ++ r ∷ after) ≡ after
  unfolding list_events_after keep
  events_after_row lo [] r after (lt, a) =
      let below : ltb r.rowid r.rowid ≡ false = ground arith in
      rw below (events_after_all r.rowid after a)
  events_after_row lo (x ∷ before) r after (lt, a) =
      let (less, more) = Ascending-right x.rowid before (r ∷ after) a in
      let below : ltb r.rowid x.rowid ≡ false = ground arith in
      rw below (events_after_row x.rowid before r after a)

  pub find_row_fresh :
      (revision : Str) (rows : List (Row L)) → IsFresh revision rows → find_row revision rows ≡ none
  unfolding find_row
  find_row_fresh revision [] h = refl
  find_row_fresh revision (r ∷ rows) (h, hs) = rw (h, find_row_fresh revision rows hs) refl

  pub find_row_here :
      (revision : Str) (before : List (Row L)) (r : Row L) (after : List (Row L))
      → IsFresh revision before
      → r.event.object.revision ≡ revision
      → find_row revision (before ++ r ∷ after) ≡ some r.rowid
  unfolding find_row
  find_row_here revision [] r after h e = rw (e, (str_beq_iff revision revision).1 refl) refl
  find_row_here revision (x ∷ before) r after (h, hs) e =
      rw (h, find_row_here revision before r after hs e) refl
