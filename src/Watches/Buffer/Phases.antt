-- ===== src/Watches/Buffer/Phases.antt =====
-- What is left of the order of events in each phase of the proxy.
use steve.Common.{
  ℕ, ◌≤◌, ◌<◌, ◌≡◌, refl, sym, ap, ◌∙◌, Bool, true, false, List, [], ◌∷◌, ◌++◌, Option, none, some,
  ltb, length, length-append, if◌then◌else◌, arith, Bool-cases, inl, inr, ◌&&◌, ◌||◌, not,
}
use mathlib.Core.List.{append-nil, append_assoc}
use steve.Watches.Buffer.{
  Phase, accumulating, waiting, flushing, piping, stopped, holding, Proxy, Move, arrive, replay,
  accept, advance, send_first, hand_over,
}

module _ {T : Type 0} where
  -- The events of a run that Watch replays, and those that arrive at the proxy.
  unfoldable pub replays : List (Move T) → List T
  replays [] = []
  replays (replay e ∷ ms) = e ∷ replays ms
  replays (m ∷ ms) = replays ms

  unfoldable pub arrivals : List (Move T) → List T
  arrivals [] = []
  arrivals (arrive e ∷ ms) = e ∷ arrivals ms
  arrivals (m ∷ ms) = arrivals ms

  -- The event that is read and not sent.
  abbrev pub held : Phase T → List T
  held (holding e) = e ∷ []
  held accumulating = []
  held waiting = []
  held flushing = []
  held piping = []
  held stopped = []

  -- Before the backfill is done the proxy sends nothing; when it pipes, the queue is empty.
  abbrev pub IsPhased : Phase T → Bool → List T → Type 0
  IsPhased accumulating backfilled queue = Unit
  IsPhased waiting backfilled queue = Unit
  IsPhased flushing backfilled queue = backfilled ≡ true
  IsPhased piping backfilled queue = (backfilled ≡ true) × (queue ≡ [])
  IsPhased (holding e) backfilled queue = (backfilled ≡ true) × (queue ≡ [])
  IsPhased stopped backfilled queue = Unit

  -- What is read and not sent, unless the proxy stopped.
  abbrev pub IsPending : Phase T → List T → List T → Type 0
  IsPending accumulating queue rest = rest ≡ queue
  IsPending waiting queue rest = rest ≡ queue
  IsPending flushing queue rest = rest ≡ queue
  IsPending piping queue rest = rest ≡ []
  IsPending (holding e) queue rest = rest ≡ e ∷ []
  IsPending stopped queue rest = Unit

  pub record IsOrdered (max : ℕ) (replayed accepted : List T) (phase : Phase T) (backfilled : Bool)
      (queue output : List T) : Type 0 where
    pub phased : IsPhased phase backfilled queue
    pub passed : List T
    pub rest : List T
    pub silent : backfilled ≡ false → passed ≡ []
    pub ordered : output ≡ replayed ++ passed
    pub whole : passed ++ rest ≡ accepted
    pub pending : IsPending phase queue rest
    pub small : length queue ≤ max

  abbrev pub Ordered : ℕ → List T → List T → Proxy T → Type 0
  Ordered max replayed accepted s =
      IsOrdered max replayed accepted s.phase s.backfilled s.queue s.output

  abbrev pub Holds : (Proxy T → Type 0) → Option (Proxy T) → Type 0
  Holds P none = Unit
  Holds P (some s) = P s

  length-eq-zero : (xs : List T) → length xs ≡ 0 → xs ≡ []
  length-eq-zero [] h = refl
  length-eq-zero (x ∷ xs) h = absurd (omega arith)

  module _ (max : ℕ) (replayed accepted : List T) (s : Proxy T) where
    -- The phase alone changes.
    turn :
        (phase phase' : Phase T)
        → (h : IsOrdered max replayed accepted phase s.backfilled s.queue s.output)
        → IsPhased phase' s.backfilled s.queue
        → IsPending phase' s.queue h.rest
        → IsOrdered max replayed accepted phase' s.backfilled s.queue s.output
    turn phase phase' h phased pending = record {
      phased = phased;
      passed = h.passed;
      rest = h.rest;
      silent = h.silent;
      ordered = h.ordered;
      whole = h.whole;
      pending = pending;
      small = h.small;
    }

    -- The queue takes an event.
    enqueue :
        (e : T) (phase : Phase T)
        → (h : IsOrdered max replayed accepted phase s.backfilled s.queue s.output)
        → length s.queue < max
        → IsPhased phase s.backfilled (s.queue ++ e ∷ [])
        → IsPending phase (s.queue ++ e ∷ []) (h.rest ++ e ∷ [])
        → IsOrdered max replayed
            (accepted ++ e ∷ [])
            phase
            s.backfilled
            (s.queue ++ e ∷ [])
            s.output
    enqueue e phase h room phased pending = record {
      phased = phased;
      passed = h.passed;
      rest = h.rest ++ e ∷ [];
      silent = h.silent;
      ordered = h.ordered;
      whole = sym (append_assoc h.passed h.rest (e ∷ [])) ∙ ap (λ l. l ++ e ∷ []) h.whole;
      pending = pending;
      small = ground (arith, length-append s.queue (e ∷ []));
    }

    pub accept-Ordered :
        (e : T) (phase : Phase T)
        → IsOrdered max replayed accepted phase s.backfilled s.queue s.output
        → Holds (Ordered max replayed (accepted ++ e ∷ [])) (accept max e phase s)
    unfolding accept
    accept-Ordered e accumulating h = elim (Bool-cases (ltb (length s.queue) max)) [
      | inl room ↦
          rw room (enqueue e accumulating h (ground arith) tt (ap (λ l. l ++ e ∷ []) h.pending))
      | inr full ↦ rw full tt
    ]
    accept-Ordered e flushing h =
        elim (Bool-cases (ltb 0 (length s.queue) && ltb (length s.queue) max)) [
          | inl room ↦
              rw room
                (enqueue e flushing h (ground arith) h.phased (ap (λ l. l ++ e ∷ []) h.pending))
          | inr full ↦ rw full tt
        ]
    accept-Ordered e piping h = record {
      phased = h.phased;
      passed = h.passed;
      rest = e ∷ [];
      silent = h.silent;
      ordered = h.ordered;
      whole =
          ap (λ l. l ++ e ∷ [])
            (sym (append-nil h.passed) ∙ ap (◌++◌ h.passed) (sym h.pending) ∙ h.whole);
      pending = refl;
      small = h.small;
    }
    accept-Ordered e waiting h = tt
    accept-Ordered e stopped h = tt
    accept-Ordered e (holding x) h = tt

    pub advance-Ordered :
        (phase : Phase T)
        → IsOrdered max replayed accepted phase s.backfilled s.queue s.output
        → Holds (Ordered max replayed accepted) (advance max phase s)
    unfolding advance
    advance-Ordered accumulating h =
        elim (Bool-cases (s.backfilled || not (ltb (length s.queue) max))) [
          | inl go ↦ rw go (turn accumulating waiting h tt h.pending)
          | inr stay ↦ rw stay tt
        ]
    advance-Ordered waiting h = backfilled_cases s.backfilled refl
      where
        backfilled_cases :
            (b : Bool)
            → s.backfilled ≡ b
            → Holds
                (Ordered max replayed accepted)
                (if b then some (record s { phase = flushing }) else none)
        backfilled_cases true e = turn waiting flushing h e h.pending
        backfilled_cases false e = tt
    advance-Ordered flushing h = elim (Bool-cases (ltb 0 (length s.queue))) [
      | inl more ↦ rw more tt
      | inr empty ↦
          let none_left : s.queue ≡ [] = length-eq-zero s.queue (ground arith) in
          rw empty (turn flushing piping h (h.phased, none_left) (h.pending ∙ none_left))
    ]
    advance-Ordered piping h = tt
    advance-Ordered stopped h = tt
    advance-Ordered (holding x) h = tt

    -- An event is passed on.
    pass_on :
        (e : T) (phase phase' : Phase T) (queue later : List T)
        → (h : IsOrdered max replayed accepted phase s.backfilled s.queue s.output)
        → s.backfilled ≡ true
        → h.rest ≡ e ∷ later
        → IsPhased phase' s.backfilled queue
        → IsPending phase' queue later
        → length queue ≤ max
        → IsOrdered max replayed accepted phase' s.backfilled queue (s.output ++ e ∷ [])
    pass_on e phase phase' queue later h done first phased pending small = record {
      phased = phased;
      passed = h.passed ++ e ∷ [];
      rest = later;
      silent = λ off. absurd (cc);
      ordered = ap (λ l. l ++ e ∷ []) h.ordered ∙ append_assoc replayed h.passed (e ∷ []);
      whole = append_assoc h.passed (e ∷ []) later ∙ ap (◌++◌ h.passed) (sym first) ∙ h.whole;
      pending = pending;
      small = small;
    }

    pub hand_over-Ordered :
        (phase : Phase T)
        → IsOrdered max replayed accepted phase s.backfilled s.queue s.output
        → Holds (Ordered max replayed accepted) (hand_over phase s)
    unfolding hand_over send_first
    hand_over-Ordered flushing h = queue_cases s.queue refl
      where
        queue_cases :
            (queue : List T)
            → s.queue ≡ queue
            → Holds (Ordered max replayed accepted) (send_first queue s)
        queue_cases [] e = tt
        queue_cases (x ∷ queue) e =
            pass_on x flushing flushing queue queue h h.phased (h.pending ∙ e) h.phased refl
              (ground (arith, ap length e, h.small))
    hand_over-Ordered (holding e) h =
        pass_on e (holding e) piping s.queue [] h h.phased.0 h.pending h.phased refl h.small
    hand_over-Ordered accumulating h = tt
    hand_over-Ordered waiting h = tt
    hand_over-Ordered piping h = tt
    hand_over-Ordered stopped h = tt
