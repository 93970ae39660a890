-- ===== src/Watches/Tests.antt =====
-- The synthetic watcher at small lists.
use steve.Common.{str_eq, Str, String, codes, str_beq, ◌≡◌, refl, List, [], ◌∷◌, Option, none, some}
use steve.Common.Maps.{lookup, insert, remove}
use steve.Watches.Synthetic.{
  Item, event, added, modified, deleted, key_of, objects_of, compare, copy, tick,
}
use steve.Watches.Synthetic.Events.{at_key, expected, state_after, last_listed, watch_events}

abbrev item : String → String → Item Str
item name version = record {
  namespace = codes "ns";
  name = codes name;
  version = codes version;
  rest = codes version;
}

abbrev ticks : List (Option (List (Item Str)))
ticks = some (item "a" "1" ∷ item "b" "1" ∷ []) ∷ none ∷ []

abbrev next_items : List (Item Str)
next_items = item "a" "2" ∷ item "c" "1" ∷ []

-- The modification carries the object as it was.
next_events :
    (tick (state_after ticks) (some next_items)).1
    ≡ event modified (item "a" "1") ∷ event added (item "c" "1") ∷ event deleted (item "b" "1") ∷ []
unfolding tick state_after compare copy objects_of key_of lookup insert remove str_beq
next_events = refl

watch_events_example :
    at_key (codes "ns/a") (tick (state_after ticks) (some next_items)).1
    ≡ expected
        (lookup (codes "ns/a") (last_listed ticks))
        (lookup (codes "ns/a") (objects_of next_items))
watch_events_example = watch_events ticks next_items (codes "ns/a")
