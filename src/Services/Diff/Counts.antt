-- ===== src/Services/Diff/Counts.antt =====
-- Nothing is lost in a comparison, and nothing is counted twice.
use recon_ledger.Prelude.{
  ℕ, ◌+◌, not, Option, none, some, List, [], ◌∷◌, filter, length, length-map, length-filter-not,
  ◌≡◌, refl, arith, Text, Bool-cases, inl, inr,
}
use recon_ledger.Models.Json.{json_eq}
use recon_ledger.Services.Diff.{
  DiffFinding, Statuses, values, lookup, has_key, compare_one, compare_common, diff_of,
  completed_in_both,
}
use recon_ledger.Services.Diff.Keys.{lookup-has_key}

abbrev total : List (DiffFinding × DiffFinding) × ℕ → ℕ
total r = length r.0 + r.1

abbrev one_if_some : Option DiffFinding → ℕ
one_if_some none = 0
one_if_some (some v) = 1

total-compare_one :
    (f : DiffFinding) (o : Option DiffFinding) (rest : List (DiffFinding × DiffFinding) × ℕ)
    → total (compare_one f o rest) ≡ one_if_some o + total rest
unfolding compare_one
total-compare_one f none rest = omega arith
total-compare_one f (some n) rest =
    elim (Bool-cases (json_eq f.normalized_value n.normalized_value)) [
      | inl h ↦ rw h (omega arith)
      | inr h ↦ rw h (omega arith)
    ]

total-compare_common :
    (old new : List (Text × DiffFinding))
    → total (compare_common old new) ≡ length (filter (λ e. has_key new e.0) old)
unfolding compare_common filter
total-compare_common [] new = refl
total-compare_common (e ∷ old) new = ground (
  arith,
  total-compare_one e.1 (lookup e.0 new) (compare_common old new),
  total-compare_common old new,
  lookup-has_key e.0 new,
)

-- Each fingerprint of the old job is in exactly one of the removed, the indeterminate, the changed and
-- the unchanged ones.
pub diff_of-length :
    (old new : List (Text × DiffFinding)) (old_statuses new_statuses : Statuses)
    → let r = diff_of old new old_statuses new_statuses in
      length r.removed + length r.indeterminate + (length r.changed + r.unchanged_count)
      ≡ length old
unfolding diff_of
diff_of-length old new old_statuses new_statuses =
    let kept = λ (e : Text × DiffFinding). has_key new e.0 in
    let gone = values (filter (λ e. not (kept e)) old) in
    omega (
      arith,
      total-compare_common old new,
      length-filter-not kept old,
      length-map (λ e. e.1) (filter (λ e. not (kept e)) old),
      length-filter-not (λ f. completed_in_both old_statuses new_statuses f.collector) gone,
    )
