-- ===== src/Watches/LogTests.antt =====
-- The watches of the list option indexer at small inputs.
use steve.Common.{
  ℕ, ◌-◌, ◌≡◌, refl, Str, String, codes, str_eq, str_beq, ◌==◌, Bool, true, List, [], ◌∷◌, ◌++◌,
  none, some, length, arith, inl, inr, keep,
}
use steve.Common.Results.{done}
use steve.Common.Indices.{take, drop}
use steve.Watches.Synthetic.{EventType, added, modified, deleted}
use steve.Watches.Buffer.{
  flushing, move, Proxy, Move, arrive, replay, signal, proceed, receive, start, run,
}
use steve.Watches.Buffer.Phases.{replays, arrivals, IsOrdered}
use steve.Watches.Buffer.Order.{run-IsOrdered}
use steve.Watches.Buffer.Drained.{drain, run-drain}
use steve.Watches.Log.{
  Object, Row, WatchFilter, Indexer, watch_backfill, delete_events_by_count, add_watcher,
  notify_event, send_event, set_latest, find_row, list_events_after, backfill_from, replay_rows,
  match_filter, match_watch, upsert_event, max_rowid, min_rowid, collect,
}
use steve.Watches.Log.Collect.{delete_events_by_count-drop}
use steve.Watches.Log.Live.{IsKept, Step, notify, tick, step, steps, AreAllowed, steps-IsKept}
use steve.Watches.Log.Moments.{
  Moment, send, publish, commit, rollback, Running, moment, moments, watching, live, sent_to,
}

-- An event comes in while one is replayed, and another behind it.
abbrev moves : List (Move ℕ)
moves = replay 1 ∷ arrive 3 ∷ replay 2 ∷ signal ∷ proceed ∷ proceed ∷ arrive 4 ∷ receive ∷ []

abbrev moved : Proxy ℕ
moved = record { phase = flushing; queue = 4 ∷ []; backfilled = true; output = 1 ∷ 2 ∷ 3 ∷ [] }

run-moves : run 100 moves start ≡ some moved
unfolding run move
run-moves = refl

-- A full queue makes the sender wait.
full_queue : run {T = ℕ} 1 (arrive 1 ∷ arrive 2 ∷ []) start ≡ none
unfolding run move
full_queue = refl

run-IsOrdered_example :
    IsOrdered 100
      (replays moves)
      (arrivals moves)
      moved.phase
      moved.backfilled
      moved.queue
      moved.output
run-IsOrdered_example = run-IsOrdered 100 moves moved run-moves

run-drain_example :
    (t : Proxy ℕ) × (run 100 (drain moved.phase moved.queue) moved ≡ some t)
    × (t.output ≡ replays moves ++ arrivals moves)
run-drain_example = run-drain 100 moves moved run-moves refl tt

-- A selector is the one label that it selects.
abbrev selects : Str → Str → Bool
selects s label = s == label

abbrev object : String → String → String → Object Str
object name revision label = record {
  name = codes name;
  namespace = codes "ns";
  revision = codes revision;
  labels = codes label;
}

abbrev empty : Indexer Str Str
empty = record { latest = []; events = []; watchers = []; next_key = 0 }

abbrev history : List (Step Str)
history =
    notify added none (object "a" "1" "x")
    ∷ notify added none (object "b" "2" "y")
    ∷ notify modified (some (object "a" "1" "x")) (object "a" "3" "x")
    ∷ []

abbrev filter : WatchFilter Str
filter = record { id = []; namespace = codes "ns"; selector = some (codes "x") }

empty-IsKept : IsKept empty
empty-IsKept = record { ascending = tt; current = inl refl }

steps-IsKept_example : IsKept (steps selects (history ++ tick 2 ∷ []) empty)
unfolding str_beq step AreAllowed notify_event send_event set_latest upsert_event collect
    delete_events_by_count take max_rowid min_rowid keep
steps-IsKept_example =
    steps-IsKept selects (history ++ tick 2 ∷ []) empty
      (tt, ((refl, tt), ((refl, (refl, tt)), (tt, tt)))) empty-IsKept

abbrev row : ℕ → EventType → Object Str → Row Str
row n type o = record { rowid = n; event = record { type = type; object = o } }

abbrev table : List (Row Str)
table =
    row 1 added (object "a" "1" "x")
    ∷ row 2 added (object "b" "2" "y")
    ∷ row 3 modified (object "a" "3" "x")
    ∷ []

abbrev indexer : Indexer Str Str
indexer = record { latest = codes "3"; events = table; watchers = []; next_key = 0 }

indexer-IsKept : IsKept indexer
unfolding str_beq
indexer-IsKept = record {
  ascending = (omega arith, (omega arith, (omega arith, tt)));
  current = inr (record {
    before = row 1 added (object "a" "1" "x") ∷ row 2 added (object "b" "2" "y") ∷ [];
    last = row 3 modified (object "a" "3" "x");
    parts = refl;
    is_latest = refl;
    fresh = (refl, (refl, tt));
  });
}

delete_events_by_count-drop_example : delete_events_by_count 2 table ≡ drop (length table - 2) table
delete_events_by_count-drop_example =
    delete_events_by_count-drop 0 2 table (omega arith) indexer-IsKept.ascending

-- The last event is committed, and one is sent whose transaction is still open.
abbrev sent_row : Row Str
sent_row = row 4 added (object "d" "4" "x")

abbrev running : Running Str Str
running = record { indexer = record indexer { events = table ++ sent_row ∷ [] }; committed = table }

-- The transaction is committed and another event comes in before the table is read, and one later.
abbrev between : List (Moment Str)
between =
    publish (object "d" "4" "x")
    ∷ commit
    ∷ send added none (object "c" "5" "x")
    ∷ publish (object "c" "5" "x")
    ∷ commit
    ∷ []

abbrev later : List (Moment Str)
later = send deleted (some (object "a" "3" "x")) (object "a" "6" "x") ∷ rollback ∷ []

-- The watcher was added between the two halves of a notification: the event is neither replayed
-- nor sent to its channel, though it is committed before the table is read.
abbrev ends : List (Moment Str)
ends = publish (object "d" "4" "x") ∷ commit ∷ []

event_lost :
    ((moments selects ends (watching selects filter running)).committed ≡ table ++ sent_row ∷ [])
    × (watch_backfill selects filter
          (codes "1")
          (codes "3")
          (moments selects ends (watching selects filter running)).committed
        ≡ done (record { type = modified; object = object "a" "3" "x" } ∷ []))
    × (sent_to selects 0 (moments selects ends (watching selects filter running)).indexer.watchers
        ≡ some [])
unfolding watch_backfill backfill_from moments moment set_latest watching add_watcher sent_to
    replay_rows match_filter find_row list_events_after keep str_beq
event_lost = (refl, refl, refl)

-- A watch from the latest revision replays what came in behind it, which its channel is sent too.
abbrev idle : Running Str Str
idle = record { indexer = indexer; committed = table }

abbrev comes : List (Moment Str)
comes = send added none (object "c" "4" "x") ∷ publish (object "c" "4" "x") ∷ commit ∷ []

sent_twice :
    (watch_backfill selects filter
        (codes "3")
        (codes "3")
        (moments selects comes (watching selects filter idle)).committed
      ≡ done (record { type = added; object = object "c" "4" "x" } ∷ []))
    × (sent_to selects 0 (moments selects comes (watching selects filter idle)).indexer.watchers
        ≡ some (record { type = added; object = object "c" "4" "x" } ∷ []))
unfolding watch_backfill backfill_from moments moment send_event set_latest upsert_event watching
    add_watcher sent_to replay_rows match_filter match_watch find_row list_events_after keep
    max_rowid str_beq
sent_twice = (refl, refl)

-- The object leaves the filter: a live watcher is sent the event, and a replay passes it over.
abbrev leaves : List (Moment Str)
leaves = send modified (some (object "a" "3" "x")) (object "a" "6" "y") ∷ []

left_live :
    live selects filter leaves ≡ record { type = modified; object = object "a" "6" "y" } ∷ []
unfolding live match_watch match_filter str_beq
left_live = refl

left_replayed :
    watch_backfill selects filter
      (codes "3")
      (codes "6")
      (row 3 modified (object "a" "3" "x") ∷ row 4 modified (object "a" "6" "y") ∷ [])
    ≡ done []
unfolding watch_backfill backfill_from replay_rows match_filter find_row list_events_after keep
    str_beq
left_replayed = refl
