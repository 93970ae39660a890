-- ===== src/Watches/Log/Live.antt =====
-- The indexer over time: its table through notifications and deletions, and what a watcher is sent.
use steve.Common.{
  ℕ, suc, ◌-◌, ◌≤◌, ◌<◌, refl, sym, ap, ◌∙◌, Str, str_eq, Bool, List, [], ◌∷◌, Option, length, eqb,
  length-append, arith, inl, inr, subst, Bool-cases,
}
use steve.Common.Indices.{take, drop, drop_all, append-take-drop, drop-append}
use steve.Watches.Synthetic.{EventType}
use steve.Watches.Log.{
  Object, Event, Row, Indexer, notify_event, send_event, set_latest, collect,
  delete_events_by_count, max_rowid,
}
use steve.Watches.Log.Rows.{Ascending, IsFresh, Ascending-right, Ascending-insert, upsert_event_new}
use steve.Watches.Log.Behind.{IsCurrent, IsFresh-right}
use steve.Watches.Log.Collect.{delete_events_by_count-drop}

-- The table is in order, and its last row is the latest revision.
pub record IsKept {S L : Type 0} (s : Indexer S L) : Type 0 where
  pub ascending : Ascending 0 s.events
  pub current : IsCurrent s.latest s.events

-- A call of notifyEvent, or a tick of RunGC.
pub data Step (L : Type 0) : Type 0 where
  notify : EventType → Option (Object L) → Object L → Step L
  tick : ℕ → Step L

module _ {S L : Type 0} (selects : S → L → Bool) where
  unfoldable pub step : Step L → Indexer S L → Indexer S L
  step (notify type old o) s = notify_event selects type old o s
  step (tick count) s = collect selects count s

  unfoldable pub steps : List (Step L) → Indexer S L → Indexer S L
  steps [] s = s
  steps (x ∷ xs) s = steps xs (step x s)

  -- Each notification is of a revision that no row has.
  abbrev pub IsAllowed : Step L → Indexer S L → Type 0
  IsAllowed (notify type old o) s = IsFresh o.revision s.events
  IsAllowed (tick count) s = Unit

  unfoldable pub AreAllowed : List (Step L) → Indexer S L → Type 0
  AreAllowed [] s = Unit
  AreAllowed (x ∷ xs) s = IsAllowed x s × AreAllowed xs (step x s)

  notify_event-IsKept :
      (type : EventType) (old : Option (Object L)) (o : Object L) (s : Indexer S L)
      → IsFresh o.revision s.events
      → IsKept s
      → IsKept (notify_event selects type old o s)
  unfolding notify_event send_event set_latest
  notify_event-IsKept type old o s fresh h =
      let e : Event L = record { type = type; object = o } in
      let new = upsert_event_new e s.events fresh in
      record {
        ascending = subst (Ascending 0) (sym new) (Ascending-insert 0 s.events e h.ascending);
        current = inr (record {
          before = s.events;
          last = record { rowid = suc (max_rowid 0 s.events); event = e };
          parts = new;
          is_latest = refl;
          fresh = fresh;
        });
      }

  drop-IsCurrent :
      (latest : Str) (rows : List (Row L)) (count : ℕ)
      → 0 < count
      → IsCurrent latest rows
      → IsCurrent latest (drop (length rows - count) rows)
  unfolding drop
  drop-IsCurrent latest rows count pos (inl none_yet) =
      inl (rw none_yet (drop_all (0 - count) [] (omega arith)))
  drop-IsCurrent latest rows count pos (inr h) =
      let k = length rows - count in
      let small : k ≤ length h.before =
        omega (arith, ap length h.parts, length-append h.before (h.last ∷ [])) in
      inr (record {
        before = drop k h.before;
        last = h.last;
        parts = ap (drop k) h.parts ∙ drop-append k h.before (h.last ∷ []) small;
        is_latest = h.is_latest;
        fresh =
            IsFresh-right latest (take k h.before) (drop k h.before)
              (subst (IsFresh latest) (sym (append-take-drop k h.before)) h.fresh);
      })

  delete-IsKept :
      (count : ℕ) (s : Indexer S L)
      → 0 < count
      → IsKept s
      → IsKept (record s { events = delete_events_by_count count s.events })
  delete-IsKept count s pos h =
      let k = length s.events - count in
      let kept = delete_events_by_count-drop 0 count s.events pos h.ascending in
      record {
        ascending = subst (Ascending 0) (sym kept) (
            Ascending-right 0 (take k s.events) (drop k s.events)
              (subst (Ascending 0) (sym (append-take-drop k s.events)) h.ascending));
        current =
            subst (IsCurrent s.latest) (sym kept)
              (drop-IsCurrent s.latest s.events count pos h.current);
      }

  collect-IsKept : (count : ℕ) (s : Indexer S L) → IsKept s → IsKept (collect selects count s)
  unfolding collect
  collect-IsKept count s h = elim (Bool-cases (eqb count 0)) [
    | inl never ↦ rw never h
    | inr runs ↦ rw runs (delete-IsKept count s (ground arith) h)
  ]

  -- Notifications of revisions that no row has, and ticks of RunGC, leave the table in order, and its
  -- last row the one of the latest revision.
  pub steps-IsKept :
      (xs : List (Step L)) (s : Indexer S L) → AreAllowed xs s → IsKept s → IsKept (steps xs s)
  unfolding steps step AreAllowed
  steps-IsKept [] s allowed h = h
  steps-IsKept (notify type old o ∷ xs) s (fresh, allowed) h =
      steps-IsKept xs (notify_event selects type old o s) allowed
        (notify_event-IsKept type old o s fresh h)
  steps-IsKept (tick count ∷ xs) s (pos, allowed) h =
      steps-IsKept xs (collect selects count s) allowed (collect-IsKept count s h)
