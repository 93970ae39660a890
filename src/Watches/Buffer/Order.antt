-- ===== src/Watches/Buffer/Order.antt =====
-- What the client of a watch receives, and in which order.
use steve.Common.{
  ℕ, ◌≡◌, refl, sym, ap, ◌∙◌, Bool, true, false, List, [], ◌∷◌, ◌++◌, none, some, if◌then◌else◌,
  arith, Option-cases, inl, inr, subst,
}
use mathlib.Core.List.{append-nil, append_assoc}
use steve.Watches.Buffer.{
  Phase, accumulating, waiting, flushing, piping, stopped, holding, Proxy, Move, arrive, replay,
  signal, proceed, receive, cancel, start, move, run,
}
use steve.Watches.Buffer.Phases.{
  replays, arrivals, IsPhased, IsOrdered, Ordered, Holds, accept-Ordered, advance-Ordered,
  hand_over-Ordered,
}

module _ {T : Type 0} (max : ℕ) where
  signal-IsPhased :
      (phase : Phase T) (backfilled : Bool) (queue : List T)
      → IsPhased phase backfilled queue
      → IsPhased phase true queue
  signal-IsPhased accumulating b q h = tt
  signal-IsPhased waiting b q h = tt
  signal-IsPhased flushing b q h = refl
  signal-IsPhased piping b q h = (refl, h.1)
  signal-IsPhased (holding e) b q h = (refl, h.1)
  signal-IsPhased stopped b q h = tt

  module _ (replayed accepted : List T) (s : Proxy T) (h : Ordered max replayed accepted s) where
    replay-Ordered :
        (e : T) (b : Bool)
        → s.backfilled ≡ b
        → Holds
            (Ordered max (replayed ++ e ∷ []) accepted)
            (if b then none else some (record s { output = s.output ++ e ∷ [] }))
    replay-Ordered e true done = tt
    replay-Ordered e false open_still = record {
      phased = h.phased;
      passed = [];
      rest = h.rest;
      silent = λ off. refl;
      ordered =
          rw (h.ordered, h.silent open_still, append-nil replayed, append-nil (replayed ++ e ∷ []))
            refl;
      whole = ap (λ l. l ++ h.rest) (sym (h.silent open_still)) ∙ h.whole;
      pending = h.pending;
      small = h.small;
    }

    move-Ordered :
        (m : Move T)
        → Holds
            (Ordered max (replayed ++ replays (m ∷ [])) (accepted ++ arrivals (m ∷ [])))
            (move max m s)
    unfolding move replays arrivals
    move-Ordered (arrive e) =
        rw (append-nil replayed) (accept-Ordered max replayed accepted s e s.phase h)
    move-Ordered (replay e) = rw (append-nil accepted) (replay-Ordered e s.backfilled refl)
    move-Ordered signal =
        rw (append-nil replayed, append-nil accepted)
          (record {
            phased = signal-IsPhased s.phase s.backfilled s.queue h.phased;
            passed = h.passed;
            rest = h.rest;
            silent = λ off. absurd cc;
            ordered = h.ordered;
            whole = h.whole;
            pending = h.pending;
            small = h.small;
          })
    move-Ordered proceed =
        rw (append-nil replayed, append-nil accepted)
          (advance-Ordered max replayed accepted s s.phase h)
    move-Ordered receive =
        rw (append-nil replayed, append-nil accepted)
          (hand_over-Ordered max replayed accepted s s.phase h)
    move-Ordered cancel =
        rw (append-nil replayed, append-nil accepted)
          (record {
            phased = tt;
            passed = h.passed;
            rest = h.rest;
            silent = h.silent;
            ordered = h.ordered;
            whole = h.whole;
            pending = tt;
            small = h.small;
          })

  replays_cons :
      (m : Move T) (ms : List (Move T)) → replays (m ∷ ms) ≡ replays (m ∷ []) ++ replays ms
  unfolding replays
  replays_cons (replay e) ms = refl
  replays_cons (arrive e) ms = refl
  replays_cons signal ms = refl
  replays_cons proceed ms = refl
  replays_cons receive ms = refl
  replays_cons cancel ms = refl

  arrivals_cons :
      (m : Move T) (ms : List (Move T)) → arrivals (m ∷ ms) ≡ arrivals (m ∷ []) ++ arrivals ms
  unfolding arrivals
  arrivals_cons (arrive e) ms = refl
  arrivals_cons (replay e) ms = refl
  arrivals_cons signal ms = refl
  arrivals_cons proceed ms = refl
  arrivals_cons receive ms = refl
  arrivals_cons cancel ms = refl

  run-Ordered :
      (ms : List (Move T)) (replayed accepted : List T) (s t : Proxy T)
      → Ordered max replayed accepted s
      → run max ms s ≡ some t
      → Ordered max (replayed ++ replays ms) (accepted ++ arrivals ms) t
  unfolding run replays arrivals
  run-Ordered [] replayed accepted s t h e =
      let same : s ≡ t = cc in
      rw (append-nil replayed, append-nil accepted) (subst (Ordered max replayed accepted) same h)
  run-Ordered (m ∷ ms) replayed accepted s t h e = elim (Option-cases (move max m s)) [
    | inl stuck ↦ absurd (none-ne-some stuck e)
    | inr (u, eq) ↦
        rw
          (
            replays_cons m ms,
            arrivals_cons m ms,
            ← append_assoc replayed (replays (m ∷ [])) (replays ms),
            ← append_assoc accepted (arrivals (m ∷ [])) (arrivals ms),
          )
          (run-Ordered ms (replayed ++ replays (m ∷ [])) (accepted ++ arrivals (m ∷ [])) u t
            (subst
              (Holds (Ordered max (replayed ++ replays (m ∷ [])) (accepted ++ arrivals (m ∷ []))))
              eq (move-Ordered replayed accepted s h m))
            (rw (run, eq) at e))
  ]
    where
      none-ne-some : move max m s ≡ none → run max (m ∷ ms) s ≡ some t → ⊥
      none-ne-some stuck e = cc

  -- However the moves interleave, the client receives what Watch replays, and behind it a first part
  -- of what arrived, in order: none of it before the backfill is done. The rest is what the proxy has
  -- queued or holds, unless it stopped, and the queue is never longer than its bound.
  pub run-IsOrdered :
      (ms : List (Move T)) (s : Proxy T)
      → run max ms start ≡ some s
      → IsOrdered max (replays ms) (arrivals ms) s.phase s.backfilled s.queue s.output
  run-IsOrdered ms s e =
      run-Ordered ms [] [] start s
        (record {
          phased = tt;
          passed = [];
          rest = [];
          silent = λ off. refl;
          ordered = refl;
          whole = refl;
          pending = refl;
          small = omega arith;
        })
        e
