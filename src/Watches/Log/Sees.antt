-- ===== src/Watches/Log/Sees.antt =====
-- A watch from its first moment on: what Watch of listoption_indexer.go replays, and what its channel
-- is sent.
use steve.Common.{◌≡◌, Str, str_eq, ◌==◌, Bool, false, List, [], ◌∷◌, ◌++◌}
use steve.Watches.Log.{Row}
use steve.Watches.Log.Rows.{Ascending, IsFresh}
use steve.Watches.Log.Behind.{IsCurrent}
use steve.Watches.Log.Moments.{Moment, send, publish, commit, rollback, Running, moment}

module _ {S L : Type 0} (selects : S → L → Bool) where
  -- What is sent has a revision that the table does not have and that is not the requested one.
  unfoldable pub AreNew : Str → List (Moment L) → Running S L → Type 0
  AreNew target [] s = Unit
  AreNew target (send type old o ∷ xs) s =
      IsFresh o.revision s.indexer.events
      × ((o.revision == target) ≡ false)
      × AreNew target xs (moment selects (send type old o) s)
  AreNew target (publish o ∷ xs) s = AreNew target xs (moment selects (publish o) s)
  AreNew target (commit ∷ xs) s = AreNew target xs (moment selects commit s)
  AreNew target (rollback ∷ xs) s = AreNew target xs (moment selects rollback s)

  -- Rows in order, the others first and then none of the revision.
  pub record Extends (target : Str) (base rows : List (Row L)) : Type 0 where
    pub newer : List (Row L)
    pub parts : rows ≡ base ++ newer
    pub fresh : IsFresh target newer
    pub ascending : Ascending 0 rows

  -- Both tables have the rows first.
  pub record BothExtend (target : Str) (base : List (Row L)) (s : Running S L) : Type 0 where
    pub open_rows : Extends target base s.indexer.events
    pub stored_rows : Extends target base s.committed

  -- The latest revision is that of the last committed row, if there is one. The open transaction may have sent an
  -- event whose revision is not set yet.
  pub record IsReady (target : Str) (s : Running S L) : Type 0 where
    pub ascending : Ascending 0 s.committed
    pub open_rows : Extends target s.committed s.indexer.events
    pub current : IsCurrent s.indexer.latest s.committed
