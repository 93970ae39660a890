-- ===== src/Watches/Buffer.antt =====
-- watcherWithBackfill of pkg/sqlcache/informer/listoption_indexer.go, with the sends of Watch into the
-- same channel. A run is a list of moves: an event that is sent to the proxy, one that Watch replays,
-- the end of the backfill, a step of the proxy on its own, a receive by the client, and the end of the
-- context or of the channel. A move that has to wait gives `none`. Two lists record what was sent.
pub mod Phases
pub mod Order
pub mod Drained
use steve.Common.{
  ℕ, zero, suc, Bool, true, false, ◌&&◌, ◌||◌, not, List, [], ◌∷◌, ◌++◌, Option, none, some, ltb,
  length, if◌then◌else◌,
}

-- Where the goroutine stands; `holding` has read an event and waits for the client.
pub data Phase (T : Type 0) : Type 0 where
  accumulating waiting flushing piping stopped : Phase T
  holding : T → Phase T

pub record Proxy (T : Type 0) : Type 0 where
  pub phase : Phase T
  pub queue : List T
  pub backfilled : Bool
  pub output : List T

pub data Move (T : Type 0) : Type 0 where
  arrive replay : T → Move T
  signal proceed receive cancel : Move T

module _ {T : Type 0} where
  abbrev pub start : Proxy T
  start = record { phase = accumulating; queue = []; backfilled = false; output = [] }

  -- The proxy reads an event of its channel, where it does.
  unfoldable pub accept : ℕ → T → Phase T → Proxy T → Option (Proxy T)
  accept max e accumulating s =
      if ltb (length s.queue) max
      then some (record s { phase = accumulating; queue = s.queue ++ e ∷ [] })
      else none
  accept max e flushing s =
      if ltb 0 (length s.queue) && ltb (length s.queue) max
      then some (record s { phase = flushing; queue = s.queue ++ e ∷ [] })
      else none
  accept max e piping s = some (record s { phase = holding e })
  accept max e waiting s = none
  accept max e stopped s = none
  accept max e (holding x) s = none

  -- The proxy goes on to its next phase.
  unfoldable pub advance : ℕ → Phase T → Proxy T → Option (Proxy T)
  advance max accumulating s =
      if s.backfilled || not (ltb (length s.queue) max)
      then some (record s { phase = waiting })
      else none
  advance max waiting s = if s.backfilled then some (record s { phase = flushing }) else none
  advance max flushing s =
      if ltb 0 (length s.queue) then none else some (record s { phase = piping })
  advance max piping s = none
  advance max stopped s = none
  advance max (holding x) s = none

  unfoldable pub send_first : List T → Proxy T → Option (Proxy T)
  send_first [] s = none
  send_first (e ∷ queue) s =
      some (record s { phase = flushing; queue = queue; output = s.output ++ e ∷ [] })

  -- The client receives an event of the proxy.
  unfoldable pub hand_over : Phase T → Proxy T → Option (Proxy T)
  hand_over flushing s = send_first s.queue s
  hand_over (holding e) s = some (record s { phase = piping; output = s.output ++ e ∷ [] })
  hand_over accumulating s = none
  hand_over waiting s = none
  hand_over piping s = none
  hand_over stopped s = none

  unfoldable pub move : ℕ → Move T → Proxy T → Option (Proxy T)
  unfolding accept advance hand_over send_first
  move max (arrive e) s = accept max e s.phase s
  move max (replay e) s =
      if s.backfilled then none else some (record s { output = s.output ++ e ∷ [] })
  move max signal s = some (record s { backfilled = true })
  move max proceed s = advance max s.phase s
  move max receive s = hand_over s.phase s
  move max cancel s = some (record s { phase = stopped })

  unfoldable pub run : ℕ → List (Move T) → Proxy T → Option (Proxy T)
  run max [] s = some s
  run max (m ∷ ms) s = elim (move max m s) [ none ↦ none | some t ↦ run max ms t ]
