-- ===== src/Services/Diff/Removed.antt =====
-- What the comparison says is gone.
use recon_ledger.Prelude.{
  Bool, ◌+◌, ◌&&◌, ◌||◌, true, false, not, List, filter, any, any-filter, length, ◌≡◌, refl, sym,
  arith, All, All-imp, All-and, All-map, All-filter, All-filter_self, Text, text_eq,
}
use recon_ledger.Models.Db.{Finding}
use recon_ledger.Services.Diff.{
  DiffFinding, DiffResult, Statuses, Compared, compared, values, has_key, by_fingerprint, diff_of,
  compute_diff, completed_in_both,
}
use recon_ledger.Services.Diff.Keys.{
  IsKeyed, by_fingerprint-IsKeyed, has_key_self, has_key-by_fingerprint,
}
use recon_ledger.Services.Diff.Changes.{
  names, names_pair, is_changed, names-values, names_pair-compare_common,
}
use recon_ledger.Services.Diff.Counts.{diff_of-length}

-- The key of `f` is one of the old dictionary's and none of the new one's.
abbrev IsOld : List (Text × DiffFinding) → List (Text × DiffFinding) → DiffFinding → Type 0
IsOld old new f = (has_key old f.fingerprint ≡ true) × (has_key new f.fingerprint ≡ false)

module _ (old new : List (Text × DiffFinding)) where
  IsOld-entry :
      (e : Text × DiffFinding)
      → (has_key old e.0 ≡ true) × ((not (has_key new e.0) ≡ true) × IsKeyed e)
      → IsOld old new e.1
  IsOld-entry e h = rw h.1.1 (h.0, ground arith)

  gone-IsOld :
      All IsKeyed old → All (IsOld old new) (values (filter (λ e. not (has_key new e.0)) old))
  gone-IsOld keyed =
      let p = λ (e : Text × DiffFinding). not (has_key new e.0) in
      All-map (IsOld old new) (λ e. e.1) (filter p old)
        (All-imp IsOld-entry (filter p old) (
          All-and _ _ (filter p old) (All-filter _ p old (has_key_self old)) (
            All-and _ _ (filter p old) (All-filter_self _ p old (λ e h. h))
              (All-filter _ p old keyed))))

-- What a removal rests on: a finding of the old job has the fingerprint, none of the new job has it, and
-- the source had completed in both jobs.
abbrev pub IsGone : List Finding → List Finding → Statuses → Statuses → DiffFinding → Type 0
IsGone old new old_statuses new_statuses f =
    (any (λ g. text_eq f.fingerprint g.fingerprint) old ≡ true)
    × (any (λ g. text_eq f.fingerprint g.fingerprint) new ≡ false)
    × (completed_in_both old_statuses new_statuses f.collector ≡ true)

module _ (old new : List Finding) (old_statuses new_statuses : Statuses) where
  IsGone-IsOld :
      (f : DiffFinding)
      → IsOld (by_fingerprint old) (by_fingerprint new) f
        × (completed_in_both old_statuses new_statuses f.collector ≡ true)
      → IsGone old new old_statuses new_statuses f
  IsGone-IsOld f h = (
    rw (sym (has_key-by_fingerprint f.fingerprint old)) h.0.0,
    rw (sym (has_key-by_fingerprint f.fingerprint new)) h.0.1,
    h.1,
  )

  removed-IsGone :
      All
        (IsGone old new old_statuses new_statuses)
        (diff_of (by_fingerprint old) (by_fingerprint new) old_statuses new_statuses).removed
  unfolding diff_of
  removed-IsGone =
      let gone =
        values (filter (λ e. not (has_key (by_fingerprint new) e.0)) (by_fingerprint old)) in
      let both = λ (f : DiffFinding). completed_in_both old_statuses new_statuses f.collector in
      All-imp IsGone-IsOld (filter both gone) (
        All-and _ _ (filter both gone)
          (All-filter _ both gone
            (gone-IsOld (by_fingerprint old) (by_fingerprint new) (by_fingerprint-IsKeyed old)))
          (All-filter_self _ both gone (λ f h. h)))

-- The fingerprint is one of a finding's.
abbrev pub occurs : Text → List Finding → Bool
occurs k fs = any (λ f. text_eq k f.fingerprint) fs

module _ (old new : List Finding) (old_statuses new_statuses : Statuses) where
  abbrev pub HasAdded : DiffResult → Type 0
  HasAdded r = (k : Text) → names k r.added ≡ (occurs k new && not (occurs k old))

  abbrev pub HasDropped : DiffResult → Type 0
  HasDropped r =
      (k : Text)
      → (names k r.removed || names k r.indeterminate) ≡ (occurs k old && not (occurs k new))

  abbrev pub HasChanged : DiffResult → Type 0
  HasChanged r =
      (k : Text) → names_pair k r.changed ≡ is_changed k (by_fingerprint old) (by_fingerprint new)

  abbrev result : DiffResult
  result = diff_of (by_fingerprint old) (by_fingerprint new) old_statuses new_statuses

  diff_of-HasAdded : HasAdded result
  unfolding diff_of
  diff_of-HasAdded k = ground (
    arith,
    names-values k (λ j. not (has_key (by_fingerprint old) j)) (by_fingerprint new)
        (by_fingerprint-IsKeyed new),
    has_key-by_fingerprint k old,
    has_key-by_fingerprint k new,
  )

  diff_of-HasDropped : HasDropped result
  unfolding diff_of
  diff_of-HasDropped k =
      let gone =
        values (filter (λ e. not (has_key (by_fingerprint new) e.0)) (by_fingerprint old)) in
      ground (
        arith,
        any-filter (λ f. text_eq k f.fingerprint)
            (λ f. completed_in_both old_statuses new_statuses f.collector) gone,
        names-values k (λ j. not (has_key (by_fingerprint new) j)) (by_fingerprint old)
            (by_fingerprint-IsKeyed old),
        has_key-by_fingerprint k old,
        has_key-by_fingerprint k new,
      )

  diff_of-HasChanged : HasChanged result
  unfolding diff_of
  diff_of-HasChanged k =
      names_pair-compare_common k (by_fingerprint old) (by_fingerprint new)
        (by_fingerprint-IsKeyed old)

  -- an indeterminate finding's source had not completed in both jobs
  abbrev IsOpen : DiffFinding → Type 0
  IsOpen f = completed_in_both old_statuses new_statuses f.collector ≡ false

  indeterminate-IsOpen : All IsOpen result.indeterminate
  unfolding diff_of
  indeterminate-IsOpen =
      All-filter_self _ (λ f. not (completed_in_both old_statuses new_statuses f.collector))
        (values (filter (λ e. not (has_key (by_fingerprint new) e.0)) (by_fingerprint old)))
        (λ f h. ground arith)

-- What is promised of a comparison: it returns, its parts have the findings that they must have, and each
-- fingerprint of the old job is counted once.
abbrev pub IsFaithful : List Finding → List Finding → Statuses → Statuses → Compared → Type 0
IsFaithful old new old_statuses new_statuses c =
    (r : DiffResult) × (c ≡ compared r)
    × All (IsGone old new old_statuses new_statuses) r.removed
    × All (IsOpen old new old_statuses new_statuses) r.indeterminate
    × HasAdded old new old_statuses new_statuses r
    × HasDropped old new old_statuses new_statuses r
    × HasChanged old new old_statuses new_statuses r
    × (length r.removed + length r.indeterminate + (length r.changed + r.unchanged_count)
        ≡ length (by_fingerprint old))

-- If the two targets are the same, `compute_diff` returns a result. Its added findings have the
-- fingerprints of the new job that the old one has not. The removed and the indeterminate ones have those
-- of the old job that the new one has not; a removed one's source has the status done in both jobs, an
-- indeterminate one's has not. The changed pairs have the fingerprints under which the two jobs have
-- different values. The removed, indeterminate, changed and unchanged ones are together as many as the
-- distinct fingerprints of the old job.
pub compute_diff-IsFaithful :
    (old_target new_target : Text) (old new : List Finding) (old_statuses new_statuses : Statuses)
    → text_eq old_target new_target ≡ true
    → IsFaithful old new old_statuses new_statuses
        (compute_diff old_target new_target old new old_statuses new_statuses)
unfolding compute_diff
compute_diff-IsFaithful old_target new_target old new old_statuses new_statuses same = (
  diff_of (by_fingerprint old) (by_fingerprint new) old_statuses new_statuses,
  rw same refl,
  removed-IsGone old new old_statuses new_statuses,
  indeterminate-IsOpen old new old_statuses new_statuses,
  diff_of-HasAdded old new old_statuses new_statuses,
  diff_of-HasDropped old new old_statuses new_statuses,
  diff_of-HasChanged old new old_statuses new_statuses,
  diff_of-length (by_fingerprint old) (by_fingerprint new) old_statuses new_statuses,
)
