-- ===== src/Listing/Parallel/Partitions.antt =====
-- What the lister of a partition of pkg/stores/partition/parallel.go is taken to give, and what the
-- goroutine of one partition has left to send.
use steve.Common.{
  ℕ, ◌+◌, ◌≤◌, ◌<◌, ◌≡◌, Str, str_eq, str_beq_iff, ◌==◌, true, false, List, [], ◌++◌, Option, none,
  some, length, if◌then◌else◌, arith, ap, ◌∙◌, ◌⊎◌,
}
use steve.Common.Indices.{drop, drop-append}
use steve.Listing.Parallel.{Chunk, ListState, Feed, unseen, cont_of}

-- The cluster serves each partition in chunks of one snapshot: at a continue token a chunk of no
-- more than the limit, which may be empty and is followed by the chunks at its own token; the chunks
-- come to an end: `chunks_left` bounds how many follow.
pub record IsServed {P O : Type 0} (lister : P → Str → Str → ℕ → Option (Chunk O)) (max : ℕ)
    : Type 0 where
  pub chunk : P → Str → Chunk O
  pub remaining : P → Str → List O
  pub served : (p : P) (c revision : Str) → lister p c revision max ≡ some (chunk p c)
  pub small : (p : P) (c : Str) → length (chunk p c).items ≤ max
  pub last : (p : P) (c : Str) → ((chunk p c).next == []) ≡ true → remaining p c ≡ (chunk p c).items
  pub more :
      (p : P) (c : Str)
      → ((chunk p c).next == []) ≡ false
      → remaining p c ≡ (chunk p c).items ++ remaining p (chunk p c).next
  pub chunks_left : P → Str → ℕ
  pub ends :
      (p : P) (c : Str)
      → ((chunk p c).next == []) ≡ false
      → chunks_left p (chunk p c).next < chunks_left p c

module _ {P O : Type 0} (name_of : P → Str) (lister : P → Str → Str → ℕ → Option (Chunk O))
    (max : ℕ) (is : IsServed lister max) where
  open is use {chunk, remaining}

  -- Where the state stands in the partition.
  abbrev pub offset_of : P → ListState → ℕ
  offset_of p state = if name_of p == state.partition_name then state.offset else 0

  -- The objects of the partition from the state on.
  abbrev pub behind : P → ListState → List O
  behind p state = drop (offset_of p state) (remaining p (cont_of name_of lister max p state))

  -- A state that was saved at this partition.
  pub record IsSavedAt (p : P) (s : ListState) : Type 0 where
    pub at_partition : s.partition_name ≡ name_of p
    pub keeps_limit : s.limit ≡ max
    pub in_chunk : s.offset < length (chunk p s.cont).items

  -- What is not sent of the partition, by the feed.
  abbrev pub unsent : P → Feed O → List O
  unsent p feed = elim feed.saved [ none ↦ [] | some s ↦ drop s.offset (remaining p s.cont) ]

  abbrev pub SavedAt : P → Option ListState → Type 0
  SavedAt p none = Unit
  SavedAt p (some s) = IsSavedAt p s

  -- The feed behind the goroutine of a partition.
  pub record IsFed (p : P) (state : ListState) (feed fed : Feed O) : Type 0 where
    pub sends : fed.sent ++ unsent p fed ≡ feed.sent ++ behind p state
    pub saves : SavedAt p fed.saved
    pub spends : fed.capacity + length fed.sent ≡ feed.capacity + length feed.sent
    pub takes : fed.capacity ≤ feed.capacity

  -- Nothing was seen of the chunk, or the chunk is the first one of the page.
  abbrev pub Starts : P → ListState → Feed O → Type 0
  Starts p state feed =
      (offset_of p state ≡ 0)
      ⊎ ((offset_of p state < length (chunk p (cont_of name_of lister max p state)).items)
          × (feed.capacity ≡ max))

  pub unseen_lem :
      (p : P) (state : ListState) (feed : Feed O)
      → Starts p state feed
      → unseen name_of lister max p state (chunk p (cont_of name_of lister max p state)).items
        ≡ drop (offset_of p state) (chunk p (cont_of name_of lister max p state)).items
  unfolding unseen
  unseen_lem p state feed h =
      let items : List O = (chunk p (cont_of name_of lister max p state)).items in
      unfold drop in
      ground (
        arith,
        str_beq_iff (name_of p) state.partition_name,
        str_beq_iff state.partition_name (name_of p),
      )

  -- Behind the offset the chunk is followed by what its token gives.
  pub behind_more :
      (p : P) (state : ListState) (feed : Feed O)
      → Starts p state feed
      → ((chunk p (cont_of name_of lister max p state)).next == []) ≡ false
      → behind p state
        ≡ drop (offset_of p state) (chunk p (cont_of name_of lister max p state)).items
          ++ remaining p (chunk p (cont_of name_of lister max p state)).next
  behind_more p state feed h more =
      let c = cont_of name_of lister max p state in
      let shorter : offset_of p state ≤ length (chunk p c).items = ground arith in
      ap (drop (offset_of p state)) (is.more p c more)
      ∙ drop-append (offset_of p state) (chunk p c).items (remaining p (chunk p c).next) shorter
