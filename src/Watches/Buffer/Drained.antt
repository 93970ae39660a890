-- ===== src/Watches/Buffer/Drained.antt =====
-- A client that goes on receiving gets all that arrived.
use steve.Common.{ℕ, ◌≡◌, refl, sym, ap, ◌∙◌, true, List, [], ◌∷◌, ◌++◌, some, subst}
use mathlib.Core.List.{append-nil, append_assoc}
use steve.Watches.Buffer.{
  Phase, accumulating, waiting, flushing, piping, stopped, holding, Proxy, Move, proceed, receive,
  start, advance, send_first, hand_over, move, run,
}
use steve.Watches.Buffer.Phases.{replays, arrivals, IsPhased, IsPending}
use steve.Watches.Buffer.Order.{run-IsOrdered}

module _ {T : Type 0} where
  receives : List T → List (Move T)
  receives [] = []
  receives (e ∷ queue) = receive ∷ receives queue

  -- The moves of the proxy and the client that empty the proxy.
  pub drain : Phase T → List T → List (Move T)
  drain accumulating queue = proceed ∷ proceed ∷ receives queue
  drain waiting queue = proceed ∷ receives queue
  drain flushing queue = receives queue
  drain piping queue = []
  drain (holding e) queue = receive ∷ []
  drain stopped queue = []

  abbrev pub IsRunning : Phase T → Type 0
  IsRunning stopped = ⊥
  IsRunning accumulating = Unit
  IsRunning waiting = Unit
  IsRunning flushing = Unit
  IsRunning piping = Unit
  IsRunning (holding e) = Unit

  module _ (max : ℕ) where
    flush_lem :
        (queue output : List T)
        → run max
            (receives queue)
            (record { phase = flushing; queue = queue; backfilled = true; output = output })
          ≡ some
              (record { phase = flushing; queue = []; backfilled = true; output = output ++ queue })
    unfolding run receives move hand_over send_first
    flush_lem [] output = rw (append-nil output) refl
    flush_lem (e ∷ queue) output =
        flush_lem queue (output ++ e ∷ []) ∙ rw (append_assoc output (e ∷ []) queue) refl

    drain_lem :
        (phase : Phase T) (queue output before accepted rest : List T)
        → IsRunning phase
        → IsPhased phase true queue
        → IsPending phase queue rest
        → output ++ rest ≡ before ++ accepted
        → (t : Proxy T) × (run max
              (drain phase queue)
              (record { phase = phase; queue = queue; backfilled = true; output = output })
            ≡ some t)
          × (t.output ≡ before ++ accepted)
    unfolding run drain move advance hand_over
    drain_lem accumulating queue output before accepted rest running phased pending e =
        (_, flush_lem queue output, ap (◌++◌ output) (sym pending) ∙ e)
    drain_lem waiting queue output before accepted rest running phased pending e =
        (_, flush_lem queue output, ap (◌++◌ output) (sym pending) ∙ e)
    drain_lem flushing queue output before accepted rest running phased pending e =
        (_, flush_lem queue output, ap (◌++◌ output) (sym pending) ∙ e)
    drain_lem piping queue output before accepted rest running phased pending e =
        (_, refl, sym (append-nil output) ∙ ap (◌++◌ output) (sym pending) ∙ e)
    drain_lem (holding x) queue output before accepted rest running phased pending e =
        (_, refl, ap (◌++◌ output) (sym pending) ∙ e)
    drain_lem stopped queue output before accepted rest running phased pending e = absurd running

    -- When the backfill is done and nothing stopped the proxy, steps of the proxy and receives of the
    -- client alone bring the client all that was replayed and all that arrived, in order.
    pub run-drain :
        (ms : List (Move T)) (s : Proxy T)
        → run max ms start ≡ some s
        → s.backfilled ≡ true
        → IsRunning s.phase
        → (t : Proxy T) × (run max (drain s.phase s.queue) s ≡ some t)
          × (t.output ≡ replays ms ++ arrivals ms)
    run-drain ms s e backfilled running =
        let h = run-IsOrdered max ms s e in
        let same : s ≡ record s { backfilled = true } =
          ap (λ b. record s { backfilled = b }) backfilled in
        let whole : s.output ++ h.rest ≡ replays ms ++ arrivals ms =
          ap (λ l. l ++ h.rest) h.ordered
          ∙ append_assoc (replays ms) h.passed h.rest
          ∙ ap (◌++◌ (replays ms)) h.whole in
        let (t, runs, out) =
          drain_lem s.phase s.queue s.output (replays ms) (arrivals ms) h.rest running
            (subst (λ b. IsPhased s.phase b s.queue) backfilled h.phased) h.pending whole in
        (t, ap (run max (drain s.phase s.queue)) same ∙ runs, out)
