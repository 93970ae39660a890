-- ===== src/Listing/Parallel/Pages.antt =====
-- A page of pkg/stores/partition/parallel.go: the partitions are listed one after the other, and what
-- a page leaves is what its token gives.
use steve.Common.{
  ℕ, ◌+◌, ◌≡◌, refl, Str, str_eq, str_beq_iff, ◌==◌, false, List, [], ◌∷◌, ◌++◌, Option, none, some,
  length, inl, inr, ap, sym, ◌∙◌, ◌⊎◌, subst,
}
use mathlib.Core.List.{append_assoc}
use steve.Common.Indices.{drop}
use steve.Listing.Parallel.{Chunk, ListState, Feed}
use steve.Listing.Parallel.Partitions.{IsServed, behind, IsSavedAt, unsent, SavedAt, IsFed, Starts}

module _ {P O : Type 0} (name_of : P → Str) (lister : P → Str → Str → ℕ → Option (Chunk O))
    (max : ℕ) (is : IsServed lister max) where
  open is use {chunk, remaining}

  -- The objects from the state on.
  pub left : List P → ListState → List O
  left [] state = []
  left (p ∷ ps) state = behind name_of lister max is p state ++ left ps state

  -- No partition has the name.
  abbrev pub Others : Str → List P → Type 0
  Others name [] = Unit
  Others name (q ∷ qs) = ((name_of q == name) ≡ false) × Others name qs

  abbrev pub Distinct : List P → Type 0
  Distinct [] = Unit
  Distinct (q ∷ qs) = Others (name_of q) qs × Distinct qs

  -- A state matters only at its own partition.
  left-Others :
      (ps : List P) (s t : ListState)
      → Others s.partition_name ps
      → Others t.partition_name ps
      → left ps s ≡ left ps t
  unfolding left
  left-Others [] s t hs ht = refl
  left-Others (q ∷ qs) s t (h, hs) (k, ht) =
      rw (h, k) (ap (◌++◌ (drop 0 (remaining q []))) (left-Others qs s t hs ht))

  -- The page ends at a partition, and its saved state gives what it leaves.
  pub record StopsAt (ps : List P) (state : ListState) (feed fed : Feed O) (s : ListState)
      : Type 0 where
    pub before : List P
    pub at : P
    pub after : List P
    pub parts : ps ≡ before ++ at ∷ after
    pub saved_at : IsSavedAt name_of lister max is at s
    pub leaves : fed.sent ++ left (at ∷ after) s ≡ feed.sent ++ left ps state

  pub record IsPage (ps : List P) (state : ListState) (feed fed : Feed O) : Type 0 where
    pub stops :
        ((fed.saved ≡ none)
          × ((rest : List O) × (fed.sent ++ rest ≡ feed.sent ++ left ps state)
              × ((rest ≡ []) ⊎ (fed.capacity ≡ 0))))
        ⊎ ((s : ListState) × (fed.saved ≡ some s) × StopsAt ps state feed fed s)
    pub spends : fed.capacity + length fed.sent ≡ feed.capacity + length feed.sent

  -- The page ends behind the partitions, or because it is full.
  pub last_IsPage :
      (state : ListState) (feed : Feed O) → feed.saved ≡ none → IsPage [] state feed feed
  unfolding left
  last_IsPage state feed none_saved = record {
    stops = inl (none_saved, ([], refl, inl refl));
    spends = refl;
  }

  pub full_IsPage :
      (ps : List P) (state : ListState) (feed : Feed O)
      → feed.saved ≡ none
      → feed.capacity ≡ 0
      → IsPage ps state feed feed
  full_IsPage ps state feed none_saved used = record {
    stops = inl (none_saved, (left ps state, refl, inr used));
    spends = refl;
  }

  -- The state is at the first partition, or at none.
  abbrev pub StartsAt : List P → ListState → Feed O → Type 0
  StartsAt [] state feed = Unit
  StartsAt (p ∷ ps) state feed =
      Starts name_of lister max is p state feed × Others state.partition_name ps

  pub tail-StartsAt :
      (ps : List P) (state : ListState) (feed : Feed O)
      → Others state.partition_name ps
      → StartsAt ps state feed
  tail-StartsAt [] state feed h = tt
  tail-StartsAt (p ∷ ps) state feed (h, hs) = (inl (rw h refl), hs)

  module _ (p : P) (ps : List P) (state : ListState) (feed fed : Feed O)
      (is_fed : IsFed name_of lister max is p state feed fed) where
    all_sent :
        fed.sent ++ (unsent name_of lister max is p fed ++ left ps state)
        ≡ feed.sent ++ left (p ∷ ps) state
    unfolding left
    all_sent =
        sym (append_assoc fed.sent (unsent name_of lister max is p fed) (left ps state))
        ∙ ap (λ xs. xs ++ left ps state) is_fed.sends
        ∙ append_assoc feed.sent (behind name_of lister max is p state) (left ps state)

    none_unsent : fed.saved ≡ none → fed.sent ++ left ps state ≡ feed.sent ++ left (p ∷ ps) state
    none_unsent e = rw (← all_sent, e) refl

    -- The saved state leaves what was not sent.
    here_leaves :
        (s : ListState)
        → fed.saved ≡ some s
        → s.partition_name ≡ name_of p
        → Others (name_of p) ps
        → Others state.partition_name ps
        → fed.sent ++ left (p ∷ ps) s ≡ feed.sent ++ left (p ∷ ps) state
    unfolding left
    here_leaves s saved named distinct others =
        rw
          (
            left-Others ps s state (rw named distinct) others,
            named,
            (str_beq_iff (name_of p) (name_of p)).1 refl,
          )
          (rw (← all_sent, saved) refl)

    -- The page ends here.
    pub here_IsPage :
        (s : ListState)
        → fed.saved ≡ some s
        → Others (name_of p) ps
        → Others state.partition_name ps
        → IsPage (p ∷ ps) state feed fed
    unfolding left
    here_IsPage s saved distinct others =
        let is_saved_at : IsSavedAt name_of lister max is p s =
          subst (SavedAt name_of lister max is p) saved is_fed.saves in
        record {
          stops = inr (
            s,
            saved,
            record {
              before = [];
              at = p;
              after = ps;
              parts = refl;
              saved_at = is_saved_at;
              leaves = here_leaves s saved is_saved_at.at_partition distinct others;
            },
          );
          spends = is_fed.spends;
        }

    -- The page ends behind.
    pub behind_IsPage :
        (fed' : Feed O)
        → fed.saved ≡ none
        → IsPage ps state fed fed'
        → IsPage (p ∷ ps) state feed fed'
    unfolding left
    behind_IsPage fed' none_saved page = record {
      stops = elim page.stops [
        | inl (e, (rest, all, full)) ↦ inl (e, (rest, all ∙ none_unsent none_saved, full))
        | inr (s, e, at) ↦ inr (
          s,
          e,
          record {
            before = p ∷ at.before;
            at = at.at;
            after = at.after;
            parts = ap (◌∷◌ p) at.parts;
            saved_at = at.saved_at;
            leaves = at.leaves ∙ none_unsent none_saved;
          },
        )
      ];
      spends = page.spends ∙ is_fed.spends;
    }
