-- ===== src/Listing/Parallel.antt =====
-- ParallelPartitionLister of pkg/stores/partition/parallel.go. The goroutines list at the same time
-- and write in turn, so what they write is what they would write one after the other. The loop of
-- feeder waits for the tickets of the semaphore, so where it reads the capacity all partitions are
-- done but the last ones that hold tickets at once; whether these are done too is left to chance,
-- and `late` tells it for each partition. Behind an error what is sent is not modelled, and a
-- request is not cancelled.
-- A limit that is not positive is 0 here; the code tests for `limit > 0`.
pub mod Partitions
pub mod Rounds
pub mod Pages
pub mod Loop
pub mod Resumes
use steve.Common.{
  ℕ, zero, suc, ◌+◌, ◌-◌, ◌/◌, Str, str_eq, ◌==◌, Bool, true, false, ◌&&◌, ◌||◌, List, [], ◌∷◌,
  ◌++◌, Option, none, some, ltb, eqb, length, if◌then◌else◌,
}
use steve.Common.Results.{Result, done, failed}
use steve.Common.Indices.{take, drop, get_elem?}

-- The part of an UnstructuredList that is read.
pub record Chunk (O : Type 0) : Type 0 where
  pub items : List O
  pub next : Str
  pub version : Str

pub record ListState : Type 0 where
  pub state_revision : Str
  pub partition_name : Str
  pub cont : Str
  pub offset : ℕ
  pub limit : ℕ

-- The lister's fields, the capacity, and what was sent, one slice behind the other.
pub record Feed (O : Type 0) : Type 0 where
  pub sent : List O
  pub capacity : ℕ
  pub saved : Option ListState
  pub revision : Str

pub data Failure : Type 0 where
  not_listed out_of_fuel blocked : Failure

abbrev pub is_saved : Option ListState → Bool
is_saved none = false
is_saved (some s) = true

abbrev pub or_version : Str → Str → Str
or_version revision version = if revision == [] then version else revision

abbrev pub tickets : ListState → ℕ
tickets state = if state.state_revision == [] then 3 else 1

-- Whether nothing was left so many partitions ago; the newest capacity comes first.
unfoldable pub used_up : ℕ → List ℕ → Bool
used_up ago capacities = elim (get_elem? capacities ago) [ none ↦ false | some c ↦ eqb c 0 ]

module _ {P O : Type 0} (name_of : P → Str) (lister : P → Str → Str → ℕ → Option (Chunk O))
    (max : ℕ) where
  -- The items behind the offset, where they were seen.
  unfoldable pub unseen : P → ListState → List O → List O
  unseen p state items =
      if (state.partition_name == name_of p)
        && (ltb 0 state.offset && ltb state.offset (length items))
      then drop state.offset items
      else items

  abbrev pub cont_of : P → ListState → Str
  cont_of p state = if name_of p == state.partition_name then state.cont else []

  -- What a round of the goroutine does with the list, behind its turn: the state is saved, or the
  -- items are sent and the next round starts, or none.
  unfoldable pub send :
      P
      → ListState
      → Chunk O
      → Feed O
      → (ListState → Feed O → Result Failure (Feed O))
      → Result Failure (Feed O)
  send p state list feed again =
      let items = unseen p state list.items in
      let feed = record feed { revision = or_version feed.revision list.version } in
      let all_sent = record feed {
        sent = feed.sent ++ items;
        capacity = feed.capacity - length items;
      } in
      if ltb 0 max && ltb feed.capacity (length items)
      then done (record feed {
        sent = feed.sent ++ take feed.capacity items;
        capacity = 0;
        saved = some (record {
          state_revision = list.version;
          partition_name = name_of p;
          cont = cont_of p state;
          offset = feed.capacity;
          limit = max;
        });
      })
      else if list.next == []
      then done all_sent
      else again
          (record state {
            state_revision = or_version state.state_revision list.version;
            cont = list.next;
            partition_name = name_of p;
            offset = 0;
          })
          all_sent

  -- The goroutine of one partition, on fuel.
  unfoldable pub list_partition : ℕ → P → ListState → Feed O → Result Failure (Feed O)
  list_partition zero p state feed = failed out_of_fuel
  list_partition (suc n) p state feed = elim (lister p (cont_of p state) state.state_revision max) [
    | none ↦ failed not_listed
    | some list ↦
        if is_saved feed.saved then done feed else send p state list feed (list_partition n p)
  ]

  module _ (concurrency rounds : ℕ) (late : P → Bool) where
    -- The loop of feeder over the partitions, with the capacities before the current one. Where
    -- there are not enough tickets at all it waits until the request is cancelled.
    unfoldable pub feed_partitions : List ℕ → List P → ListState → Feed O → Result Failure (Feed O)
    feed_partitions past [] state feed = done feed
    feed_partitions past (p ∷ ps) state feed =
        if ltb 0 max
          && (used_up (concurrency / tickets state) (feed.capacity ∷ past)
              || (eqb feed.capacity 0 && late p))
        then done feed
        else if ltb concurrency (tickets state)
        then failed blocked
        else elim (list_partition rounds p state feed) [
          | failed e ↦ failed e
          | done fed ↦ feed_partitions (feed.capacity ∷ past) ps state fed
        ]

  unfoldable pub index_of : List P → Str → Option ℕ
  index_of [] name = none
  index_of (p ∷ ps) name =
      let rest = index_of ps name in
      if name_of p == name then some 0 else elim rest [ none ↦ none | some i ↦ some (suc i) ]

  unfoldable pub index_or_zero : List P → Str → ℕ
  unfolding index_of
  index_or_zero partitions name =
      if name == [] then 0 else elim (index_of partitions name) [ none ↦ 0 | some i ↦ i ]

-- The state of List, from a decoded token or from the revision of the request, and its limit.
abbrev pub start_state : Option ListState → Str → ListState
start_state none revision = record {
  state_revision = revision;
  partition_name = [];
  cont = [];
  offset = 0;
  limit = 0;
}
start_state (some state) revision = state

abbrev pub limit_of : ListState → ℕ → ℕ
limit_of state limit = if ltb 0 state.limit then state.limit else limit

module _ {P O : Type 0} (name_of : P → Str) (lister : P → Str → Str → ℕ → Option (Chunk O)) where
  -- List with feeder: the token is decoded, and the loop starts at the partition that it names.
  unfoldable pub list_page :
      ℕ → ℕ → (P → Bool) → List P → ℕ → Option ListState → Str → Result Failure (Feed O)
  list_page concurrency rounds late partitions limit resume revision =
      let state = start_state resume revision in
      let max = limit_of state limit in
      feed_partitions name_of lister max concurrency rounds late []
        (drop (index_or_zero name_of lister max partitions state.partition_name) partitions) state
        (record { sent = []; capacity = max; saved = none; revision = [] })
