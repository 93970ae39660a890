-- ===== src/Watches/Log/Replay.antt =====
-- What Watch replays, beside the rows behind the requested revision.
use steve.Common.{
  ◌≡◌, refl, sym, ap, ◌∙◌, Str, str_eq, str_beq, str_beq_iff, ◌==◌, Bool, false, List, [], ◌∷◌,
  ◌++◌, Option, none, some, if◌then◌else◌, arith, inl, inr, subst,
}
use mathlib.Core.List.{append_assoc}
use steve.Common.Results.{Result, done, failed}
use steve.Watches.Log.{
  Event, Row, WatchFilter, WatchError, too_old, match_filter, find_row, list_events_after,
  replay_rows, backfill_from, watch_backfill,
}
use steve.Watches.Log.Rows.{Ascending, IsFresh, events_after_row, find_row_fresh, find_row_here}
use steve.Watches.Log.Behind.{
  behind, IsCurrent, Found, Found-cases, behind_fresh, behind_here, IsFresh-append, IsFresh-right,
}

module _ {S L : Type 0} (selects : S → L → Bool) (f : WatchFilter S) where
  -- The events of the rows that the filter matches.
  unfoldable pub matched : List (Row L) → List (Event L)
  matched [] = []
  matched (r ∷ rows) =
      let rest = matched rows in
      if match_filter selects f r.event.object then r.event ∷ rest else rest

  abbrev pub answer : Option (List (Row L)) → Result WatchError (List (Event L))
  answer none = failed too_old
  answer (some rows) = done (matched rows)

  -- The loop stops at the latest revision, whatever came in behind it.
  replay_lem :
      (latest : Str) (before : List (Row L)) (last : Row L) (newer : List (Row L))
      → IsFresh latest before
      → last.event.object.revision ≡ latest
      → replay_rows selects f latest (before ++ last ∷ newer) ≡ matched (before ++ last ∷ [])
  unfolding replay_rows matched
  replay_lem latest [] last newer h e = rw (e, (str_beq_iff latest latest).1 refl) refl
  replay_lem latest (x ∷ before) last newer (h, hs) e =
      rw (h, replay_lem latest before last newer hs e) refl

  module _ (target latest : Str) where
    found_backfill :
        (rows before : List (Row L)) (at : Row L) (after : List (Row L))
        → rows ≡ before ++ at ∷ after
        → Ascending 0 rows
        → IsFresh target before
        → at.event.object.revision ≡ target
        → backfill_from selects f target latest rows ≡ done (replay_rows selects f latest after)
    unfolding backfill_from
    found_backfill rows before at after parts a fresh is_at =
        let finds : find_row target rows ≡ some at.rowid =
          rw parts (find_row_here target before at after fresh is_at) in
        let lists : list_events_after at.rowid rows ≡ after =
          rw parts (events_after_row 0 before at after (subst (Ascending 0) parts a)) in
        rw (backfill_from, finds, lists) refl

    too_old_backfill :
        (rows : List (Row L))
        → (target == latest) ≡ false
        → IsFresh target rows
        → backfill_from selects f target latest rows ≡ failed too_old
    unfolding backfill_from
    too_old_backfill rows other fresh =
        rw (backfill_from, find_row_fresh target rows fresh, other) refl

  module _ (target latest : Str) (other : (target == latest) ≡ false) (before : List (Row L))
      (last : Row L) (newer : List (Row L)) (a : Ascending 0 (before ++ last ∷ newer))
      (is_latest : last.event.object.revision ≡ latest) (fresh_before : IsFresh latest before)
      (fresh : IsFresh target newer) where
    behind-Found :
        Found target before
        → backfill_from selects f target latest (before ++ last ∷ newer)
          ≡ answer (behind target (before ++ last ∷ []))
    behind-Found found =
        let whole : before ++ last ∷ newer
            ≡ found.before ++ found.at ∷ (found.after ++ last ∷ newer) =
          ap (λ l. l ++ last ∷ newer) found.parts
          ∙ append_assoc found.before (found.at ∷ found.after) (last ∷ newer) in
        let old : before ++ last ∷ [] ≡ found.before ++ found.at ∷ (found.after ++ last ∷ []) =
          ap (λ l. l ++ last ∷ []) found.parts
          ∙ append_assoc found.before (found.at ∷ found.after) (last ∷ []) in
        let kept : IsFresh latest (found.at ∷ found.after) =
          IsFresh-right latest found.before (found.at ∷ found.after)
            (subst (IsFresh latest) found.parts fresh_before) in
        found_backfill target latest (before ++ last ∷ newer) found.before found.at
          (found.after ++ last ∷ newer) whole a found.fresh found.is_at
        ∙ ap (λ l. done l) (replay_lem latest found.after last newer kept.1 is_latest)
        ∙ sym (
            rw
              (
                old,
                behind_here target found.before found.at (found.after ++ last ∷ []) found.fresh
                    found.is_at,
              )
              refl)

    behind_lost :
        IsFresh target before
        → backfill_from selects f target latest (before ++ last ∷ newer)
          ≡ answer (behind target (before ++ last ∷ []))
    behind_lost fresh_target =
        let apart : str_beq last.event.object.revision target ≡ false =
          rw is_latest (ground (arith, str_beq_iff latest target, str_beq_iff target latest)) in
        too_old_backfill target latest (before ++ last ∷ newer) other
          (IsFresh-append target before (last ∷ newer) fresh_target (apart, fresh))
        ∙ sym (
            rw
              (behind_fresh target (before ++ last ∷ [])
                (IsFresh-append target before (last ∷ []) fresh_target (apart, tt)))
              refl)

  -- A watch from an earlier revision replays the events behind it that match, up to the latest revision
  -- at the time it was added and no event that came in later, or is too old where the revision is gone.
  pub watch_backfill-behind :
      (target latest : Str) (rows newer : List (Row L))
      → (target == []) ≡ false
      → (target == latest) ≡ false
      → Ascending 0 (rows ++ newer)
      → IsCurrent latest rows
      → IsFresh target newer
      → watch_backfill selects f target latest (rows ++ newer) ≡ answer (behind target rows)
  unfolding watch_backfill
  watch_backfill-behind target latest rows newer named other a (inl none_yet) fresh =
      rw (watch_backfill, named, none_yet)
        (too_old_backfill target latest newer other fresh
          ∙ sym (rw (behind_fresh target [] tt) refl))
  watch_backfill-behind target latest rows newer named other a (inr is_last) fresh =
      let record {
        before = before;
        last = last;
        parts = parts;
        is_latest = is_latest;
        fresh = fresh_before;
      } =
        is_last in
      let whole : rows ++ newer ≡ before ++ last ∷ newer =
        ap (λ l. l ++ newer) parts ∙ append_assoc before (last ∷ []) newer in
      let a' : Ascending 0 (before ++ last ∷ newer) = subst (Ascending 0) whole a in
      rw (watch_backfill, named, whole, parts)
        (elim (Found-cases target before) [
          | inl found ↦
              behind-Found target latest other before last newer a' is_latest fresh_before fresh
                found
          | inr lost ↦
              behind_lost target latest other before last newer a' is_latest fresh_before fresh lost
        ])
