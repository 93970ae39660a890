-- ===== src/Watches/Log.antt =====
-- The events of ListOptionIndexer in pkg/sqlcache/informer/listoption_indexer.go: notifyEvent with
-- the table of events, Watch with its replay of that table, and the deletion of old rows in RunGC.
-- The table is the list of its rows in the order of their row ids, in which a query reads it; a new
-- row has an id above all others, as SQLite gives it. A row holds the object, not its encoded bytes.
-- A label selector is a parameter. What a channel is sent is recorded with its watcher.
pub mod Rows
pub mod Behind
pub mod Replay
pub mod Collect
pub mod Live
pub mod Moments
pub mod Sees
use steve.Common.{
  ℕ, zero, suc, Str, str_eq, ◌==◌, Bool, true, false, ◌&&◌, ◌||◌, not, List, [], ◌∷◌, ◌++◌, Option,
  none, some, map, keep, ltb, eqb, leb, length, if◌then◌else◌,
}
use mathlib.Core.List.{reverse}
use steve.Common.Results.{Result, done, failed}
use steve.Common.Indices.{take}
use steve.Watches.Synthetic.{EventType, added, modified, deleted}

-- An object by its name, namespace and revision, and its labels.
pub record Object (L : Type 0) : Type 0 where
  pub name : Str
  pub namespace : Str
  pub revision : Str
  pub labels : L

pub record Event (L : Type 0) : Type 0 where
  pub type : EventType
  pub object : Object L

pub record Row (L : Type 0) : Type 0 where
  pub rowid : ℕ
  pub event : Event L

pub record WatchFilter (S : Type 0) : Type 0 where
  pub id : Str
  pub namespace : Str
  pub selector : Option S

pub record Watcher (S L : Type 0) : Type 0 where
  pub key : ℕ
  pub filter : WatchFilter S
  pub sent : List (Event L)

pub record Indexer (S L : Type 0) : Type 0 where
  pub latest : Str
  pub events : List (Row L)
  pub watchers : List (Watcher S L)
  pub next_key : ℕ

pub data WatchError : Type 0 where
  too_old not_in_store store_failed : WatchError

abbrev pub same_type : EventType → EventType → Bool
same_type added added = true
same_type added modified = false
same_type added deleted = false
same_type modified added = false
same_type modified modified = true
same_type modified deleted = false
same_type deleted added = false
same_type deleted modified = false
same_type deleted deleted = true

module _ {S L : Type 0} (selects : S → L → Bool) where
  abbrev pub select : Option S → L → Bool
  select none labels = true
  select (some s) labels = selects s labels

  unfoldable pub match_filter : WatchFilter S → Object L → Bool
  match_filter f o =
      if not (f.id == []) && not (f.id == o.name)
      then false
      else if not (f.namespace == []) && not (f.namespace == o.namespace)
      then false
      else select f.selector o.labels

  abbrev pub match_old : WatchFilter S → Option (Object L) → Bool
  match_old f none = false
  match_old f (some old) = match_filter f old

  unfoldable pub match_watch : WatchFilter S → Option (Object L) → Object L → Bool
  match_watch f old o = match_old f old || match_filter f o

module _ {L : Type 0} where
  -- The row id above those of the rows.
  unfoldable pub max_rowid : ℕ → List (Row L) → ℕ
  max_rowid n [] = n
  max_rowid n (r ∷ rows) = max_rowid (if ltb n r.rowid then r.rowid else n) rows

  abbrev pub is_at : Event L → Row L → Bool
  is_at e r = same_type r.event.type e.type && (r.event.object.revision == e.object.revision)

  unfoldable pub has_row : Event L → List (Row L) → Bool
  has_row e [] = false
  has_row e (r ∷ rows) = is_at e r || has_row e rows

  -- upsertEventsStmt
  unfoldable pub upsert_event : Event L → List (Row L) → List (Row L)
  unfolding has_row
  upsert_event e rows =
      if has_row e rows
      then map (λ r. if is_at e r then record r { event = e } else r) rows
      else rows ++ record { rowid = suc (max_rowid 0 rows); event = e } ∷ []

  -- findEventsRowByRVStmt
  unfoldable pub find_row : Str → List (Row L) → Option ℕ
  find_row revision [] = none
  find_row revision (r ∷ rows) =
      let rest = find_row revision rows in
      if r.event.object.revision == revision then some r.rowid else rest

  -- listEventsAfterStmt
  unfoldable pub list_events_after : ℕ → List (Row L) → List (Row L)
  list_events_after rowid rows = keep (λ r. ltb rowid r.rowid) rows

  -- deleteEventsByCountStmt: MIN of the last rows, and what is below it goes.
  unfoldable pub min_rowid : List (Row L) → Option ℕ
  min_rowid [] = none
  min_rowid (r ∷ rows) = elim (min_rowid rows) [
    | none ↦ some r.rowid
    | some n ↦ some (if ltb r.rowid n then r.rowid else n)
  ]

  unfoldable pub delete_events_by_count : ℕ → List (Row L) → List (Row L)
  delete_events_by_count count rows = elim (min_rowid (take count (reverse rows))) [
    | none ↦ rows
    | some n ↦ keep (λ r. not (ltb r.rowid n)) rows
  ]

module _ {S L : Type 0} (selects : S → L → Bool) where
  -- The loop of Watch over the rows, which ends behind the latest revision.
  unfoldable pub replay_rows : WatchFilter S → Str → List (Row L) → List (Event L)
  replay_rows f latest [] = []
  replay_rows f latest (r ∷ rows) =
      let rest = if r.event.object.revision == latest then [] else replay_rows f latest rows in
      if match_filter selects f r.event.object then r.event ∷ rest else rest

  -- What Watch replays: `latest` was read when the watcher was added, the table later.
  unfoldable pub backfill_from :
      WatchFilter S → Str → Str → List (Row L) → Result WatchError (List (Event L))
  backfill_from f target latest rows = elim (find_row target rows) [
    | none ↦
        if target == latest
        then done (replay_rows f latest (list_events_after 0 rows))
        else failed too_old
    | some rowid ↦ done (replay_rows f latest (list_events_after rowid rows))
  ]

  unfoldable pub watch_backfill :
      WatchFilter S → Str → Str → List (Row L) → Result WatchError (List (Event L))
  watch_backfill f requested latest rows =
      backfill_from f (if requested == [] then latest else requested) latest rows

  abbrev pub notify_watcher : EventType → Option (Object L) → Object L → Watcher S L → Watcher S L
  notify_watcher type old o w =
      if match_watch selects w.filter old o
      then record w { sent = w.sent ++ record { type = type; object = o } ∷ [] }
      else w

  -- notifyEvent up to where it lets the read lock go: the row, and what the watchers are sent.
  unfoldable pub send_event : EventType → Option (Object L) → Object L → Indexer S L → Indexer S L
  send_event type old o s = record s {
    events = upsert_event (record { type = type; object = o }) s.events;
    watchers = map (notify_watcher type old o) s.watchers;
  }

  -- Its end, under the lock.
  unfoldable pub set_latest : Str → Indexer S L → Indexer S L
  set_latest revision s = record s { latest = revision }

  unfoldable pub notify_event : EventType → Option (Object L) → Object L → Indexer S L → Indexer S L
  unfolding send_event set_latest
  notify_event type old o s = set_latest o.revision (send_event type old o s)

  -- notifyEventAdded, and the two others with what GetByKey finds.
  unfoldable pub notify_event_added : Object L → Indexer S L → Result WatchError (Indexer S L)
  notify_event_added o s = done (notify_event added none o s)

  unfoldable pub notify_event_changed :
      EventType
      → Option (Option (Object L))
      → Object L
      → Indexer S L
      → Result WatchError (Indexer S L)
  notify_event_changed type none o s = failed store_failed
  notify_event_changed type (some none) o s = failed not_in_store
  notify_event_changed type (some (some old)) o s = done (notify_event type (some old) o s)

  unfoldable pub add_watcher : WatchFilter S → Indexer S L → ℕ × Indexer S L
  add_watcher f s = (
    s.next_key,
    record s {
      watchers = record { key = s.next_key; filter = f; sent = [] } ∷ s.watchers;
      next_key = suc s.next_key;
    },
  )

  unfoldable pub remove_watcher : ℕ → Indexer S L → Indexer S L
  remove_watcher key s = record s {
    watchers = keep (λ w. ltb w.key key || ltb key w.key) s.watchers;
  }

  -- A tick of RunGC, which does not run where no rows are to be kept.
  unfoldable pub collect : ℕ → Indexer S L → Indexer S L
  collect count s = record s {
    events = if eqb count 0 then s.events else delete_events_by_count count s.events;
  }
