-- ===== src/Watches/Synthetic.antt =====
-- SyntheticWatcher of pkg/sqlcache/informer/synthetic_watcher.go, which makes watch events of a
-- list that it reads again and again. One tick is one step; an object is read through its
-- namespace, its name and its version, and `rest` is all else of it.
pub mod Events
use steve.Common.{
  Str, codes, str_eq, ◌==◌, Bool, not, List, [], ◌∷◌, ◌++◌, Option, none, some, map, foldl,
  if◌then◌else◌,
}
use steve.Common.Maps.{lookup, insert, remove}

-- An item of the list
pub record Item (R : Type 0) : Type 0 where
  pub namespace : Str
  pub name : Str
  pub version : Str
  pub rest : R

-- watch.EventType
pub data EventType : Type 0 where
  added modified deleted : EventType

pub record Event (R : Type 0) : Type 0 where
  pub event_type : EventType
  pub object : Item R

-- The holder of an object is the object, which has its version.
abbrev pub State : Type 0 → Type 0
State R = List (Str × Item R)

module _ {R : Type 0} where
  -- createWatchEvent, which makes no error
  abbrev pub event : EventType → Item R → Event R
  event t u = record { event_type = t; object = u }

  unfoldable pub key_of : Item R → Str
  key_of u = if not (u.namespace == []) then u.namespace ++ (codes "/" ++ u.name) else u.name

  unfoldable pub objects_of : List (Item R) → State R
  objects_of items = foldl (λ m u. insert (key_of u) u m) [] items

  -- The two loops: over the objects of the list, and over what is left of the previous state.
  unfoldable pub compare : State R → State R → List (Event R)
  compare previous [] = map (λ (x : Str × Item R). event deleted x.1) previous
  compare previous ((key, new_object) ∷ new_objects) =
      let unseen = event added new_object ∷ compare previous new_objects in
      let others = compare (remove key previous) new_objects in
      elim (lookup key previous) [
        | none ↦ unseen
        | some old_item ↦
            if not (old_item.version == new_object.version)
            then event modified old_item ∷ others
            else others
      ]

  -- currentState, written entry by entry
  unfoldable pub copy : State R → State R
  copy new_objects = foldl (λ m x. insert x.0 x.1 m) [] new_objects

  -- One tick: the state and the events; `none` is a list that failed.
  unfoldable pub tick : State R → Option (List (Item R)) → State R × List (Event R)
  tick previous none = (previous, [])
  tick previous (some items) = (copy (objects_of items), compare previous (objects_of items))
