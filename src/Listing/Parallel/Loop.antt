-- ===== src/Listing/Parallel/Loop.antt =====
-- The loop of feeder in pkg/stores/partition/parallel.go over the partitions, as the semaphore lets
-- it run: it ends behind them, at a saved state, or where nothing of the capacity is left.
use steve.Common.{
  ℕ, zero, suc, ◌≤◌, ◌<◌, ◌/◌, true, ◌||◌, ltb, ◌≡◌, refl, Str, str_eq, Bool, false, ◌&&◌, List, [],
  ◌∷◌, Option, none, some, ltb, eqb, arith, inl, inr, Bool-cases, Option-cases, ◌∙◌,
}
use steve.Common.Results.{done}
use steve.Common.Indices.{get_elem?}
use steve.Listing.Parallel.{
  Chunk, ListState, Feed, cont_of, list_partition, feed_partitions, tickets, used_up,
}
use steve.Listing.Parallel.Partitions.{IsServed}
use steve.Listing.Parallel.Rounds.{list_partition_lem}
use steve.Listing.Parallel.Pages.{
  Distinct, IsPage, StartsAt, tail-StartsAt, here_IsPage, behind_IsPage, last_IsPage, full_IsPage,
}

module _ {P O : Type 0} (name_of : P → Str) (lister : P → Str → Str → ℕ → Option (Chunk O))
    (max : ℕ) (is : IsServed lister max) where
  saved_round :
      (n : ℕ) (p : P) (state s : ListState) (feed : Feed O)
      → 0 < n
      → feed.saved ≡ some s
      → list_partition name_of lister max n p state feed ≡ done feed
  unfolding list_partition
  saved_round zero p state s feed pos saved = absurd (omega arith)
  saved_round (suc n) p state s feed pos saved =
      rw
        (
          list_partition,
          is.served p (cont_of name_of lister max p state) state.state_revision,
          saved,
        )
        refl

  module _ (concurrency rounds : ℕ) (late : P → Bool) where
    saved_lem :
        (past : List ℕ) (ps : List P) (state s : ListState) (feed : Feed O)
        → tickets state ≤ concurrency
        → 0 < rounds
        → feed.saved ≡ some s
        → feed_partitions name_of lister max concurrency rounds late past ps state feed ≡ done feed
    unfolding feed_partitions
    saved_lem past [] state s feed free pos saved = refl
    saved_lem past (p ∷ ps) state s feed free pos saved =
        let acquires : ltb concurrency (tickets state) ≡ false = ground arith in
        elim (Bool-cases (
          ltb 0 max
          && (used_up (concurrency / tickets state) (feed.capacity ∷ past)
              || (eqb feed.capacity 0 && late p)))) [
                | inl stop ↦ rw stop refl
                | inr go ↦
                    rw
                      (
                        go,
                        acquires,
                        saved_round rounds p state s feed pos saved,
                        saved_lem (feed.capacity ∷ past) ps state s feed free pos saved,
                      )
                      refl
              ]

  -- Where nothing was left name_of lister max is at an earlier partition, nothing is left.
  abbrev pub Shrinks : List ℕ → Feed O → Type 0
  Shrinks past feed = (ago : ℕ) → used_up ago past ≡ true → feed.capacity ≡ 0

  here_Shrinks :
      (past : List ℕ) (feed : Feed O) → Shrinks past feed → Shrinks (feed.capacity ∷ past) feed
  unfolding used_up get_elem?
  here_Shrinks past feed shrinks zero used = ground arith
  here_Shrinks past feed shrinks (suc ago) used = shrinks ago used

  next_Shrinks :
      (past : List ℕ) (feed fed : Feed O)
      → fed.capacity ≤ feed.capacity
      → Shrinks past feed
      → Shrinks past fed
  next_Shrinks past feed fed takes shrinks ago used = omega (arith, shrinks ago used)

  module _ (concurrency rounds : ℕ) (late : P → Bool) where
    -- The loop ends only where nothing is left.
    breaks : List ℕ → P → ListState → Feed O → Bool
    breaks past p state feed =
        ltb 0 max
        && (used_up (concurrency / tickets state) (feed.capacity ∷ past)
            || (eqb feed.capacity 0 && late p))

    breaks_lem :
        (past : List ℕ) (p : P) (state : ListState) (feed : Feed O)
        → Shrinks past feed
        → breaks past p state feed ≡ true
        → feed.capacity ≡ 0
    unfolding breaks
    breaks_lem past p state feed shrinks stop =
        ground (arith, here_Shrinks past feed shrinks (concurrency / tickets state))

    feed_step :
        (past : List ℕ) (p : P) (ps : List P) (state : ListState) (feed fed : Feed O)
        → tickets state ≤ concurrency
        → breaks past p state feed ≡ false
        → list_partition name_of lister max rounds p state feed ≡ done fed
        → feed_partitions name_of lister max concurrency rounds late past (p ∷ ps) state feed
          ≡ feed_partitions name_of lister max concurrency rounds late
              (feed.capacity ∷ past)
              ps
              state
              fed
    unfolding feed_partitions breaks
    feed_step past p ps state feed fed free go e =
        let acquires : ltb concurrency (tickets state) ≡ false = ground arith in
        rw (go, acquires, e) refl

    feed_break :
        (past : List ℕ) (p : P) (ps : List P) (state : ListState) (feed : Feed O)
        → breaks past p state feed ≡ true
        → feed_partitions name_of lister max concurrency rounds late past (p ∷ ps) state feed
          ≡ done feed
    unfolding feed_partitions breaks
    feed_break past p ps state feed stop = rw stop refl

    pub feed_partitions_lem :
        (past : List ℕ) (ps : List P) (state : ListState) (feed : Feed O)
        → 0 < max
        → tickets state ≤ concurrency
        → ((p : P) (c : Str) → is.chunks_left p c < rounds)
        → feed.saved ≡ none
        → Shrinks past feed
        → StartsAt name_of lister max is ps state feed
        → Distinct name_of lister max is ps
        → (fed : Feed O) × (feed_partitions name_of lister max concurrency rounds late past ps state
              feed
            ≡ done fed)
          × IsPage name_of lister max is ps state feed fed
    unfolding feed_partitions
    feed_partitions_lem past [] state feed pos free enough none_saved shrinks starts distinct =
        (feed, refl, last_IsPage name_of lister max is state feed none_saved)
    feed_partitions_lem past (p ∷ ps) state feed pos free enough none_saved shrinks (starts, others)
          (differ, distinct) =
        let (fed, e, is_fed) =
          list_partition_lem name_of lister max is rounds p state feed pos none_saved starts
            (enough p (cont_of name_of lister max p state)) in
        elim (Bool-cases (breaks past p state feed)) [
          | inl stop ↦ (
            feed,
            feed_break past p ps state feed stop,
            full_IsPage name_of lister max is (p ∷ ps) state feed none_saved
                (breaks_lem past p state feed shrinks stop),
          )
          | inr go ↦ elim (Option-cases fed.saved) [
            | inl ended ↦
                let (fed', e', page) =
                  feed_partitions_lem (feed.capacity ∷ past) ps state fed pos free enough ended
                    (next_Shrinks (feed.capacity ∷ past) feed fed is_fed.takes
                      (here_Shrinks past feed shrinks))
                    (tail-StartsAt name_of lister max is ps state fed others) distinct in
                (
                  fed',
                  feed_step past p ps state feed fed free go e ∙ e',
                  behind_IsPage name_of lister max is p ps state feed fed is_fed fed' ended page,
                )
            | inr (s, saved) ↦ (
              fed,
              feed_step past p ps state feed fed free go e
                  ∙ saved_lem concurrency rounds late (feed.capacity ∷ past) ps state s fed free
                      (ground (arith, enough p [])) saved,
              here_IsPage name_of lister max is p ps state feed fed is_fed s saved differ others,
            )
          ]
        ]
