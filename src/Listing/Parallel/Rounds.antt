-- ===== src/Listing/Parallel/Rounds.antt =====
-- The rounds of the goroutine of one partition, of feeder in pkg/stores/partition/parallel.go.
use steve.Common.{
  ℕ, zero, suc, ◌+◌, ◌-◌, ◌≤◌, ◌<◌, ◌≡◌, refl, Str, str_eq, str_beq_iff, ◌==◌, true, false, List,
  [], ◌++◌, Option, none, some, ltb, length, length-append, arith, inl, inr, Bool-cases, ap, sym,
  ◌∙◌,
}
use mathlib.Core.List.{append-nil, append_assoc}
use steve.Common.Results.{Result, done}
use steve.Common.Indices.{take, drop, append-take-drop, length-take, length-drop, drop-append}
use steve.Listing.Parallel.{
  Chunk, ListState, Feed, Failure, or_version, unseen, cont_of, send, list_partition,
}
use steve.Listing.Parallel.Partitions.{
  IsServed, offset_of, behind, unsent, IsFed, Starts, unseen_lem, behind_more,
}

module _ {P O : Type 0} (name_of : P → Str) (lister : P → Str → Str → ℕ → Option (Chunk O))
    (max : ℕ) (is : IsServed lister max) where
  open is use {chunk, remaining}

  module _ (p : P) (state : ListState) (feed : Feed O) (none_saved : feed.saved ≡ none)
      (starts : Starts name_of lister max is p state feed) where
    list : Chunk O
    list = chunk p (cont_of name_of lister max p state)

    items : List O
    unfolding list
    items = drop (offset_of name_of lister max is p state) list.items

    round_lem :
        (n : ℕ)
        → list_partition name_of lister max (suc n) p state feed
          ≡ send name_of lister max p state list feed (list_partition name_of lister max n p)
    unfolding list list_partition
    round_lem n =
        rw
          (
            list_partition,
            is.served p (cont_of name_of lister max p state) state.state_revision,
            none_saved,
          )
          refl

    is_unseen : unseen name_of lister max p state list.items ≡ items
    unfolding list items
    is_unseen = unseen_lem name_of lister max is p state feed starts

    -- The objects of the partition from the chunk on.
    whole : List O
    whole = remaining p (cont_of name_of lister max p state)

    is_chunked : (rest : List O) × (whole ≡ list.items ++ rest)
    unfolding whole list
    is_chunked = elim (Bool-cases (list.next == [])) [
      | inl last ↦
          ([], is.last p (cont_of name_of lister max p state) last ∙ sym (append-nil list.items))
      | inr more ↦ (_, is.more p (cont_of name_of lister max p state) more)
    ]

    from_start : feed.capacity < length items → offset_of name_of lister max is p state ≡ 0
    unfolding items list
    from_start over = ground (
      arith,
      length-drop (offset_of name_of lister max is p state) list.items,
      is.small p (cont_of name_of lister max p state),
    )

    -- A split in the chunk splits the partition.
    split_whole : (k : ℕ) → k ≤ length list.items → take k list.items ++ drop k whole ≡ whole
    split_whole k small =
        let (rest, e) = is_chunked in
        rw
          (
            e,
            drop-append k list.items rest small,
            ← append_assoc (take k list.items) (drop k list.items) rest,
            append-take-drop k list.items,
          )
          refl

    module _ (over : feed.capacity < length items) where
      all_items : items ≡ list.items
      unfolding items drop
      all_items = rw (from_start over) refl

      all_behind : behind name_of lister max is p state ≡ whole
      unfolding whole drop
      all_behind = rw (from_start over) refl

      -- The capacity is not enough.
      cut_feed : Feed O
      cut_feed = record {
        sent = feed.sent ++ take feed.capacity items;
        capacity = 0;
        saved = some (record {
          state_revision = list.version;
          partition_name = name_of p;
          cont = cont_of name_of lister max p state;
          offset = feed.capacity;
          limit = max;
        });
        revision = or_version feed.revision list.version;
      }

      cut_sends :
          cut_feed.sent ++ unsent name_of lister max is p cut_feed
          ≡ feed.sent ++ behind name_of lister max is p state
      unfolding cut_feed whole
      cut_sends =
          append_assoc feed.sent (take feed.capacity items) (drop feed.capacity whole)
          ∙ ap (◌++◌ feed.sent) (
              rw (all_items, all_behind)
                (split_whole feed.capacity (ground (arith, ap length all_items))))

      cut_IsFed : IsFed name_of lister max is p state feed cut_feed
      unfolding cut_feed list
      cut_IsFed = record {
        sends = cut_sends;
        saves = record {
          at_partition = refl;
          keeps_limit = refl;
          in_chunk = ground (arith, ap length all_items);
        };
        spends = ground (
          arith,
          length-append feed.sent (take feed.capacity items),
          length-take feed.capacity items,
        );
        takes = omega arith;
      }

      send_over :
          (again : ListState → Feed O → Result Failure (Feed O))
          → 0 < max
          → send name_of lister max p state list feed again ≡ done cut_feed
      unfolding send cut_feed
      send_over again pos = ground (arith, is_unseen)

    sent_feed : Feed O
    sent_feed = record feed {
      sent = feed.sent ++ items;
      capacity = feed.capacity - length items;
      revision = or_version feed.revision list.version;
    }

    sent_spends :
        length items ≤ feed.capacity
        → sent_feed.capacity + length sent_feed.sent ≡ feed.capacity + length feed.sent
    unfolding sent_feed
    sent_spends fits = ground (arith, length-append feed.sent items)

    -- The partition has no more.
    module _ (fits : length items ≤ feed.capacity) (last : (list.next == []) ≡ true) where
      last_behind : behind name_of lister max is p state ≡ items
      unfolding items list
      last_behind =
          ap (drop (offset_of name_of lister max is p state))
            (is.last p (cont_of name_of lister max p state) last)

      last_IsFed : IsFed name_of lister max is p state feed sent_feed
      unfolding sent_feed
      last_IsFed = record {
        sends = rw (none_saved, append-nil (feed.sent ++ items), last_behind) refl;
        saves = rw none_saved tt;
        spends = sent_spends fits;
        takes = omega arith;
      }

      send_last :
          (again : ListState → Feed O → Result Failure (Feed O))
          → send name_of lister max p state list feed again ≡ done sent_feed
      unfolding send sent_feed
      send_last again = ground (arith, is_unseen)

    next_state : ListState
    next_state = record state {
      state_revision = or_version state.state_revision list.version;
      cont = list.next;
      partition_name = name_of p;
      offset = 0;
    }

    -- A further round.
    module _ (fits : length items ≤ feed.capacity) (more : (list.next == []) ≡ false) where
      send_more :
          (again : ListState → Feed O → Result Failure (Feed O))
          → send name_of lister max p state list feed again ≡ again next_state sent_feed
      unfolding send sent_feed next_state
      send_more again = ground (arith, is_unseen)

      more_behind :
          behind name_of lister max is p state ≡ items ++ behind name_of lister max is p next_state
      unfolding items list next_state drop
      more_behind =
          rw ((str_beq_iff (name_of p) (name_of p)).1 refl)
            (behind_more name_of lister max is p state feed starts more)

      more_Starts : Starts name_of lister max is p next_state sent_feed
      unfolding next_state
      more_Starts = rw ((str_beq_iff (name_of p) (name_of p)).1 refl) (inl refl)

      more_saved : sent_feed.saved ≡ none
      unfolding sent_feed
      more_saved = none_saved

      more_ends :
          is.chunks_left p (cont_of name_of lister max p next_state)
          < is.chunks_left p (cont_of name_of lister max p state)
      unfolding next_state list
      more_ends =
          rw ((str_beq_iff (name_of p) (name_of p)).1 refl)
            (is.ends p (cont_of name_of lister max p state) more)

      more_IsFed :
          (fed : Feed O)
          → IsFed name_of lister max is p next_state sent_feed fed
          → IsFed name_of lister max is p state feed fed
      unfolding sent_feed
      more_IsFed fed is_fed = record {
        sends =
            is_fed.sends
            ∙ append_assoc feed.sent items (behind name_of lister max is p next_state)
            ∙ ap (◌++◌ feed.sent) (sym more_behind);
        saves = is_fed.saves;
        spends = is_fed.spends ∙ sent_spends fits;
        takes = omega (arith, is_fed.takes);
      }

  pub list_partition_lem :
      (n : ℕ) (p : P) (state : ListState) (feed : Feed O)
      → 0 < max
      → feed.saved ≡ none
      → Starts name_of lister max is p state feed
      → is.chunks_left p (cont_of name_of lister max p state) < n
      → (fed : Feed O) × (list_partition name_of lister max n p state feed ≡ done fed)
        × IsFed name_of lister max is p state feed fed
  list_partition_lem zero p state feed pos none_saved starts enough = absurd (omega arith)
  list_partition_lem (suc n) p state feed pos none_saved starts enough =
      rw (round_lem p state feed none_saved starts n)
        (elim (Bool-cases (ltb feed.capacity (length (items p state feed none_saved starts)))) [
          | inl over ↦ (
            cut_feed p state feed none_saved starts (ground arith),
            send_over p state feed none_saved starts (ground arith) _ pos,
            cut_IsFed p state feed none_saved starts (ground arith),
          )
          | inr fits ↦ elim (Bool-cases ((list p state feed none_saved starts).next == [])) [
            | inl last ↦ (
              sent_feed p state feed none_saved starts,
              send_last p state feed none_saved starts (ground arith) last _,
              last_IsFed p state feed none_saved starts (ground arith) last,
            )
            | inr more ↦
                let (fed, e, is_fed) =
                  list_partition_lem n p (next_state p state feed none_saved starts)
                    (sent_feed p state feed none_saved starts) pos
                    (more_saved p state feed none_saved starts (ground arith) more)
                    (more_Starts p state feed none_saved starts (ground arith) more)
                    (ground
                      (arith, more_ends p state feed none_saved starts (ground arith) more)) in
                (
                  fed,
                  send_more p state feed none_saved starts (ground arith) more _ ∙ e,
                  more_IsFed p state feed none_saved starts (ground arith) more fed is_fed,
                )
          ]
        ])
