-- ===== src/Listing/Parallel/Resumes.antt =====
-- List of pkg/stores/partition/parallel.go: a page and the page that its token asks for.
use steve.Common.{
  ℕ, ◌≤◌, ◌<◌, ◌≡◌, refl, Str, str_eq, str_beq, str_beq_iff, ◌==◌, Bool, false, List, [], ◌∷◌, ◌++◌,
  Option, none, some, length, arith, inl, inr, Bool-cases, ap, sym, ◌∙◌, subst, ◌⊎◌,
}
use mathlib.Core.List.{append_assoc}
use steve.Common.Results.{done}
use steve.Common.Indices.{drop, get_elem?}
use steve.Listing.Parallel.{
  Chunk, ListState, Feed, index_of, index_or_zero, start_state, limit_of, list_page, tickets,
  used_up,
}
use steve.Listing.Parallel.Partitions.{IsServed, IsSavedAt}
use steve.Listing.Parallel.Loop.{Shrinks, feed_partitions_lem}
use steve.Listing.Parallel.Pages.{left, Others, Distinct, StopsAt, IsPage, StartsAt}

module _ {P O : Type 0} (name_of : P → Str) (lister : P → Str → Str → ℕ → Option (Chunk O))
    (max : ℕ) (is : IsServed lister max) where
  drop-length : (xs ys : List P) → drop (length xs) (xs ++ ys) ≡ ys
  unfolding drop
  drop-length [] ys = refl
  drop-length (x ∷ xs) ys = drop-length xs ys

  Distinct-after :
      (before : List P) (p : P) (after : List P)
      → Distinct name_of lister max is (before ++ p ∷ after)
      → Others name_of lister max is (name_of p) after × Distinct name_of lister max is after
  Distinct-after [] p after d = d
  Distinct-after (b ∷ before) p after (differ, d) = Distinct-after before p after d

  -- The empty name stands for the first partition, so no other one has it.
  abbrev pub Named : List P → Type 0
  Named [] = Unit
  Named (p ∷ ps) = Others name_of lister max is [] ps

  other_lem :
      (name : Str) (before : List P) (p : P) (after : List P)
      → Others name_of lister max is name (before ++ p ∷ after)
      → (name_of p == name) ≡ false
  other_lem name [] p after (h, hs) = h
  other_lem name (b ∷ before) p after (h, hs) = other_lem name before p after hs

  index_of_lem :
      (before : List P) (p : P) (after : List P)
      → Distinct name_of lister max is (before ++ p ∷ after)
      → index_of name_of lister max (before ++ p ∷ after) (name_of p) ≡ some (length before)
  unfolding index_of
  index_of_lem [] p after d = rw ((str_beq_iff (name_of p) (name_of p)).1 refl) refl
  index_of_lem (b ∷ before) p after (differ, d) =
      let other : str_beq (name_of p) (name_of b) ≡ false =
        other_lem (name_of b) before p after differ in
      let differs : str_beq (name_of b) (name_of p) ≡ false =
        ground (arith, str_beq_iff (name_of b) (name_of p), str_beq_iff (name_of p) (name_of b)) in
      rw (differs, index_of_lem before p after d) refl

  -- The token's partition is found.
  index_or_zero_lem :
      (before : List P) (p : P) (after : List P)
      → Named (before ++ p ∷ after)
      → Distinct name_of lister max is (before ++ p ∷ after)
      → drop
          (index_or_zero name_of lister max (before ++ p ∷ after) (name_of p))
          (before ++ p ∷ after)
        ≡ p ∷ after
  unfolding index_or_zero drop
  index_or_zero_lem [] p after named d = elim (Bool-cases (name_of p == [])) [
    | inl empty ↦ rw empty refl
    | inr full ↦ rw (full, index_of_lem [] p after d) refl
  ]
  index_or_zero_lem (b ∷ before) p after named d =
      rw (other_lem [] before p after named, index_of_lem (b ∷ before) p after d)
        (drop-length (b ∷ before) (p ∷ after))

  abbrev empty_feed : Feed O
  empty_feed = record { sent = []; capacity = max; saved = none; revision = [] }

  start_StartsAt :
      (ps : List P) (revision : Str) (feed : Feed O)
      → Named ps
      → StartsAt name_of lister max is ps (start_state none revision) feed
  start_StartsAt [] revision feed named = tt
  start_StartsAt (p ∷ ps) revision feed named =
      (inl (elim (Bool-cases (name_of p == [])) [ inl e ↦ rw e refl | inr e ↦ rw e refl ]), named)

  -- A token of a page: it was saved at one of the partitions.
  pub record IsToken (ps : List P) (s : ListState) : Type 0 where
    pub before : List P
    pub at : P
    pub after : List P
    pub parts : ps ≡ before ++ at ∷ after
    pub saved_at : IsSavedAt name_of lister max is at s

  -- The objects behind a token, read as List reads it.
  unfoldable pub token_left : List P → ListState → List O
  token_left ps s =
      left name_of lister max is (drop (index_or_zero name_of lister max ps s.partition_name) ps) s

  module _ (ps : List P) (named : Named ps) (distinct : Distinct name_of lister max is ps)
      (s : ListState) where
    found :
        (token : IsToken ps s)
        → drop (index_or_zero name_of lister max ps s.partition_name) ps ≡ token.at ∷ token.after
    found token =
        rw (token.saved_at.at_partition, token.parts)
          (index_or_zero_lem token.before token.at token.after (subst Named token.parts named)
            (subst (Distinct name_of lister max is) token.parts distinct))

    token_left_lem :
        (token : IsToken ps s)
        → token_left ps s ≡ left name_of lister max is (token.at ∷ token.after) s
    unfolding token_left
    token_left_lem token = rw (found token) refl

    token_Distinct :
        (token : IsToken ps s) → Distinct name_of lister max is (token.at ∷ token.after)
    token_Distinct token =
        Distinct-after token.before token.at token.after
          (subst (Distinct name_of lister max is) token.parts distinct)

    token_StartsAt :
        (token : IsToken ps s) (feed : Feed O)
        → feed.capacity ≡ max
        → StartsAt name_of lister max is (token.at ∷ token.after) s feed
    token_StartsAt token feed full =
        let named_at : s.partition_name ≡ name_of token.at = token.saved_at.at_partition in
        rw (named_at, (str_beq_iff (name_of token.at) (name_of token.at)).1 refl)
          (inr (token.saved_at.in_chunk, full), (token_Distinct token).0)

  -- What a request asks for: all objects, or those behind its token.
  abbrev pub requested : List P → Option ListState → Str → List O
  requested ps none revision = left name_of lister max is ps (start_state none revision)
  requested ps (some s) revision = token_left ps s

  abbrev pub IsRequest : List P → Option ListState → ℕ → Type 0
  IsRequest ps none limit = limit ≡ max
  IsRequest ps (some s) limit = IsToken ps s

  -- What a page leaves is behind its token; without one it leaves nothing, or it is full.
  abbrev pub LeftBy : List P → Feed O → List O → Option ListState → Type 0
  LeftBy ps page rest none = (rest ≡ []) ⊎ (length page.sent ≡ max)
  LeftBy ps page rest (some s) = (rest ≡ token_left ps s) × IsToken ps s

  pub record IsAnswer (ps : List P) (wanted : List O) (page : Feed O) : Type 0 where
    pub bounded : length page.sent ≤ max
    pub rest : List O
    pub complete : page.sent ++ rest ≡ wanted
    pub left_by : LeftBy ps page rest page.saved

  module _ (ps : List P) (named : Named ps) (distinct : Distinct name_of lister max is ps) where
    next_token :
        (passed qs : List P) (state : ListState) (page : Feed O) (s : ListState)
        → ps ≡ passed ++ qs
        → StopsAt name_of lister max is qs state empty_feed page s
        → IsToken ps s
    next_token passed qs state page s parts stop = record {
      before = passed ++ stop.before;
      at = stop.at;
      after = stop.after;
      parts =
          parts
          ∙ ap (◌++◌ passed) stop.parts
          ∙ sym (append_assoc passed stop.before (stop.at ∷ stop.after));
      saved_at = stop.saved_at;
    }

    -- A page from the partition that a state names answers the request for what is left there.
    page_IsAnswer :
        (passed qs : List P) (state : ListState) (page : Feed O)
        → ps ≡ passed ++ qs
        → IsPage name_of lister max is qs state empty_feed page
        → IsAnswer ps (left name_of lister max is qs state) page
    unfolding next_token
    page_IsAnswer passed qs state page parts is_page = elim is_page.stops [
      | inl (ended, (rest, all, full)) ↦ record {
        bounded = ground (arith, is_page.spends);
        rest = rest;
        complete = all;
        left_by = rw ended (elim full [
          | inl nothing ↦ inl nothing
          | inr used ↦ inr (ground (arith, is_page.spends))
        ]);
      }
      | inr (s, saved, stop) ↦
          let token = next_token passed qs state page s parts stop in
          record {
            bounded = ground (arith, is_page.spends);
            rest = left name_of lister max is (stop.at ∷ stop.after) s;
            complete = stop.leaves;
            left_by = rw saved (sym (token_left_lem ps named distinct s token), token);
          }
    ]

  never_used : (feed : Feed O) → Shrinks name_of lister max is [] feed
  unfolding used_up get_elem?
  never_used feed ago used = absurd cc

  -- Where the partitions have different names, the empty one at most the first, the cluster serves
  -- each in chunks of one snapshot, of which no more than the rounds follow each other, and the
  -- semaphore has the tickets that a goroutine takes: a request with a limit above zero, from the
  -- start or from a token of a page, gets a page of no more than its limit, whichever capacities
  -- the loop reads late. What the request asks for is the page and a rest, in order. If the page
  -- has a token, the rest is what that token gives, and the token is one of a page again; if it has
  -- none, there is no rest or the page has exactly the limit. In that last case the rest, if there
  -- is one, is lost.
  pub list_page-resumes :
      (ps : List P) (concurrency rounds : ℕ) (late : P → Bool) (limit : ℕ)
      (resume : Option ListState) (revision : Str)
      → Named ps
      → Distinct name_of lister max is ps
      → 0 < max
      → tickets (start_state resume revision) ≤ concurrency
      → ((p : P) (c : Str) → is.chunks_left p c < rounds)
      → IsRequest ps resume limit
      → (page : Feed O) × (list_page name_of lister concurrency rounds late ps limit resume revision
          ≡ done page)
        × IsAnswer ps (requested ps resume revision) page
  unfolding list_page index_or_zero drop str_beq
  list_page-resumes ps concurrency rounds late limit none revision named distinct pos free enough
        asks =
      let (page, e, is_page) =
        feed_partitions_lem name_of lister max is concurrency rounds late [] ps
          (start_state none revision) empty_feed pos free enough refl (never_used empty_feed)
          (start_StartsAt ps revision empty_feed named) distinct in
      (
        page,
        rw asks e,
        page_IsAnswer ps named distinct [] ps (start_state none revision) page refl is_page,
      )
  list_page-resumes ps concurrency rounds late limit (some s) revision named distinct pos free
        enough token =
      let (page, e, is_page) =
        feed_partitions_lem name_of lister max is concurrency rounds late []
          (token.at ∷ token.after) s empty_feed pos free enough refl (never_used empty_feed)
          (token_StartsAt ps named distinct s token empty_feed refl)
          (token_Distinct ps named distinct s token) in
      let limited : limit_of s limit ≡ max = ground (arith, token.saved_at.keeps_limit) in
      (
        page,
        rw (limited, found ps named distinct s token) e,
        rw (token_left_lem ps named distinct s token) (
            page_IsAnswer ps named distinct token.before (token.at ∷ token.after) s page token.parts
              is_page),
      )
