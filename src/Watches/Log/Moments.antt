-- ===== src/Watches/Log/Moments.antt =====
-- What can come in between while Watch runs. notifyEvent runs in a transaction that is still open:
-- it sends the event, then sets the latest revision, and the row is there for the query of Watch
-- when the transaction is committed. Nobody else sees the row before, so that it is written and that
-- the event is sent are one moment. A watcher may be added between any two of these moments, and
-- RunGC does not run in between here.
use steve.Common.{
  ℕ, ◌≡◌, refl, ap, ◌∙◌, str_eq, Bool, true, List, [], ◌∷◌, ◌++◌, Option, none, some, map, eqb,
  if◌then◌else◌, arith, Bool-cases, inl, inr, eqb_iff,
}
use mathlib.Core.List.{append-nil, append_assoc}
use steve.Watches.Synthetic.{EventType}
use steve.Watches.Log.{
  Object, Event, Row, WatchFilter, Watcher, Indexer, match_watch, notify_watcher, send_event,
  set_latest, add_watcher,
}

-- What other goroutines do with the indexer and its transaction while Watch runs.
pub data Moment (L : Type 0) : Type 0 where
  send : EventType → Option (Object L) → Object L → Moment L
  publish : Object L → Moment L
  commit rollback : Moment L

-- The indexer, whose table is that of the open transaction, and the table that queries read.
pub record Running (S L : Type 0) : Type 0 where
  pub indexer : Indexer S L
  pub committed : List (Row L)

module _ {S L : Type 0} (selects : S → L → Bool) where
  unfoldable pub moment : Moment L → Running S L → Running S L
  moment (send type old o) s = record s { indexer = send_event selects type old o s.indexer }
  moment (publish o) s = record s { indexer = set_latest selects o.revision s.indexer }
  moment commit s = record s { committed = s.indexer.events }
  moment rollback s = record s { indexer = record (s.indexer) { events = s.committed } }

  unfoldable pub moments : List (Moment L) → Running S L → Running S L
  moments [] s = s
  moments (x ∷ xs) s = moments xs (moment x s)

  unfoldable pub watching : WatchFilter S → Running S L → Running S L
  watching f s = record s { indexer = (add_watcher selects f s.indexer).1 }

  -- The events that a live watcher is sent.
  unfoldable pub live : WatchFilter S → List (Moment L) → List (Event L)
  live f [] = []
  live f (send type old o ∷ xs) =
      let rest = live f xs in
      if match_watch selects f old o then record { type = type; object = o } ∷ rest else rest
  live f (publish o ∷ xs) = live f xs
  live f (commit ∷ xs) = live f xs
  live f (rollback ∷ xs) = live f xs

  unfoldable pub sent_to : ℕ → List (Watcher S L) → Option (List (Event L))
  sent_to key [] = none
  sent_to key (w ∷ watchers) =
      let rest = sent_to key watchers in if eqb w.key key then some w.sent else rest

  abbrev pub listener : ℕ → WatchFilter S → List (Event L) → Watcher S L
  listener key f sent = record { key = key; filter = f; sent = sent }

  -- The newest watcher has the key and the filter and was sent the events.
  abbrev pub Listens : ℕ → WatchFilter S → List (Event L) → Running S L → Type 0
  Listens key f sent s =
      (others : List (Watcher S L)) × (s.indexer.watchers ≡ listener key f sent ∷ others)

  notify_watcher_lem :
      (key : ℕ) (f : WatchFilter S) (sent : List (Event L)) (type : EventType)
      (old : Option (Object L)) (o : Object L)
      → notify_watcher selects type old o (listener key f sent)
        ≡ listener key f (sent ++ live f (send type old o ∷ []))
  unfolding live
  notify_watcher_lem key f sent type old o = elim (Bool-cases (match_watch selects f old o)) [
    | inl hit ↦ rw hit refl
    | inr miss ↦ rw (miss, append-nil sent) refl
  ]

  moment-Listens :
      (x : Moment L) (key : ℕ) (f : WatchFilter S) (sent : List (Event L)) (s : Running S L)
      → Listens key f sent s
      → Listens key f (sent ++ live f (x ∷ [])) (moment x s)
  unfolding moment send_event set_latest live
  moment-Listens (send type old o) key f sent s (others, parts) = (
    map (notify_watcher selects type old o) others,
    ap (map (notify_watcher selects type old o)) parts
        ∙ ap (λ w. w ∷ map (notify_watcher selects type old o) others)
            (notify_watcher_lem key f sent type old o),
  )
  moment-Listens (publish o) key f sent s (others, parts) = (others, rw (append-nil sent) parts)
  moment-Listens commit key f sent s (others, parts) = (others, rw (append-nil sent) parts)
  moment-Listens rollback key f sent s (others, parts) = (others, rw (append-nil sent) parts)

  live_cons :
      (f : WatchFilter S) (x : Moment L) (xs : List (Moment L))
      → live f (x ∷ xs) ≡ live f (x ∷ []) ++ live f xs
  unfolding live
  live_cons f (send type old o) xs = ground arith
  live_cons f (publish o) xs = refl
  live_cons f commit xs = refl
  live_cons f rollback xs = refl

  pub moments-Listens :
      (xs : List (Moment L)) (key : ℕ) (f : WatchFilter S) (sent : List (Event L)) (s : Running S L)
      → Listens key f sent s
      → Listens key f (sent ++ live f xs) (moments xs s)
  unfolding moments
  moments-Listens [] key f sent s h = unfold live in rw (append-nil sent) h
  moments-Listens (x ∷ xs) key f sent s h =
      rw (live_cons f x xs, ← append_assoc sent (live f (x ∷ [])) (live f xs))
        (moments-Listens xs key f (sent ++ live f (x ∷ [])) (moment x s)
          (moment-Listens x key f sent s h))

  pub sent_to_lem :
      (key : ℕ) (f : WatchFilter S) (sent : List (Event L)) (s : Running S L)
      → Listens key f sent s
      → sent_to key s.indexer.watchers ≡ some sent
  unfolding sent_to
  sent_to_lem key f sent s (others, parts) =
      let same : eqb key key ≡ true = (eqb_iff key key).1 refl in rw (parts, same) refl
