-- ===== src/Services/Diff.antt =====
-- backend/app/services/diff.py: the comparison of two jobs on one target. A dictionary is a list of
-- pairs whose keys are distinct; a set of keys is iterated in the dictionary's order.
pub mod Keys
pub mod Counts
pub mod Changes
pub mod Removed
use recon_ledger.Prelude.{
  ℕ, suc, Bool, true, false, ◌&&◌, not, Option, none, some, List, [], ◌∷◌, map, filter, any, length,
  ◌==◌, if◌then◌else◌, Text, text_eq,
}
use recon_ledger.Models.Enums.{CollectorStatus, is_done}
use recon_ledger.Models.Json.{Json, json_eq}
use recon_ledger.Models.Db.{Job, CollectorRun, Finding, Database, get_job}

pub data DiffError : Type 0 where
  job_not_found : ℕ → DiffError
  diff_target_mismatch : Text → Text → DiffError

pub record DiffFinding : Type 0 where
  pub fingerprint : Text
  pub collector : Text
  pub kind : Text
  pub title : Text
  pub summary : Text
  pub normalized_value : Json

pub record DiffResult : Type 0 where
  pub added : List DiffFinding
  pub removed : List DiffFinding
  pub changed : List (DiffFinding × DiffFinding)
  pub unchanged_count : ℕ
  pub indeterminate : List DiffFinding

pub data Compared : Type 0 where
  compared : DiffResult → Compared
  failed : DiffError → Compared

abbrev pub to_diff_finding : Finding → DiffFinding
to_diff_finding f = record {
  fingerprint = f.fingerprint;
  collector = f.collector;
  kind = f.kind;
  title = f.title;
  summary = f.summary;
  normalized_value = f.normalized_value;
}

-- `d[key] = value`: a key that is there keeps its place
unfoldable pub put {ℓ} : {A : Type ℓ} → Text → A → List (Text × A) → List (Text × A)
unfolding text_eq
put k v [] = (k, v) ∷ []
put k v (e ∷ rest) =
    let others = put k v rest in if text_eq k e.0 then (e.0, v) ∷ rest else e ∷ others

-- `d.get(key)`
unfoldable pub lookup {ℓ} : {A : Type ℓ} → Text → List (Text × A) → Option A
unfolding text_eq
lookup k [] = none
lookup k (e ∷ rest) = let other = lookup k rest in if text_eq k e.0 then some e.1 else other

-- `dict(pairs)`, from what is there already
unfoldable pub put_all {ℓ} : {A : Type ℓ} → List (Text × A) → List (Text × A) → List (Text × A)
unfolding put
put_all [] d = d
put_all (e ∷ es) d = put_all es (put e.0 e.1 d)

-- `key in d`
unfoldable pub has_key {ℓ} : {A : Type ℓ} → List (Text × A) → Text → Bool
unfolding any text_eq
has_key d k = any (λ e. text_eq k e.0) d

abbrev pub Statuses : Type 0
Statuses = List (Text × CollectorStatus)

-- `{f.fingerprint: _to_diff_finding(f) for f in findings}`
unfoldable pub by_fingerprint : List Finding → List (Text × DiffFinding)
unfolding put_all
by_fingerprint fs = put_all (map (λ f. (f.fingerprint, to_diff_finding f)) fs) []

abbrev pub is_status_done : Option CollectorStatus → Bool
is_status_done none = false
is_status_done (some s) = is_done s

unfoldable pub completed_in_both : Statuses → Statuses → Text → Bool
unfolding lookup
completed_in_both old new c = is_status_done (lookup c old) && is_status_done (lookup c new)

abbrev pub values {ℓ} : {A : Type ℓ} → List (Text × A) → List A
values d = map (λ e. e.1) d

-- the keys that both sides have: the pairs that differ, and how many do not
unfoldable pub compare_one :
    DiffFinding
    → Option DiffFinding
    → List (DiffFinding × DiffFinding) × ℕ
    → List (DiffFinding × DiffFinding) × ℕ
unfolding json_eq
compare_one o none rest = rest
compare_one o (some n) rest =
    if json_eq o.normalized_value n.normalized_value
    then (rest.0, suc rest.1)
    else ((o, n) ∷ rest.0, rest.1)

unfoldable pub compare_common :
    List (Text × DiffFinding) → List (Text × DiffFinding) → List (DiffFinding × DiffFinding) × ℕ
unfolding compare_one lookup
compare_common [] new = ([], 0)
compare_common (e ∷ old) new = compare_one e.1 (lookup e.0 new) (compare_common old new)

-- what `compute_diff` returns once the targets agree
unfoldable pub diff_of :
    List (Text × DiffFinding) → List (Text × DiffFinding) → Statuses → Statuses → DiffResult
unfolding filter has_key compare_common completed_in_both
diff_of old new old_statuses new_statuses =
    let gone = values (filter (λ e. not (has_key new e.0)) old) in
    let both = λ (f : DiffFinding). completed_in_both old_statuses new_statuses f.collector in
    let common = compare_common old new in
    record {
      added = values (filter (λ e. not (has_key old e.0)) new);
      removed = filter both gone;
      changed = common.0;
      unchanged_count = common.1;
      indeterminate = filter (λ f. not (both f)) gone;
    }

unfoldable pub compute_diff :
    Text → Text → List Finding → List Finding → Statuses → Statuses → Compared
unfolding text_eq diff_of by_fingerprint
compute_diff old_target new_target old_findings new_findings old_statuses new_statuses =
    if not (text_eq old_target new_target)
    then failed (diff_target_mismatch old_target new_target)
    else compared (
        diff_of (by_fingerprint old_findings) (by_fingerprint new_findings) old_statuses
          new_statuses)

-- `dict(result.tuples().all())` of a job's runs
unfoldable pub collector_statuses : ℕ → Database → Statuses
unfolding filter put_all
collector_statuses j db =
    put_all (map (λ r. (r.collector, r.status)) (filter (λ r. r.job_id == j) db.runs)) []

unfoldable pub findings_of : ℕ → Database → List Finding
unfolding filter
findings_of j db = filter (λ f. f.job_id == j) db.findings

unfoldable pub compare_jobs : Database → ℕ → ℕ → Option Job → Option Job → Compared
unfolding text_eq compute_diff collector_statuses findings_of
compare_jobs db new old none o = failed (job_not_found new)
compare_jobs db new old (some n) none = failed (job_not_found old)
compare_jobs db new old (some n) (some o) =
    if not (text_eq o.target_normalized n.target_normalized)
    then failed (diff_target_mismatch o.target_normalized n.target_normalized)
    else compute_diff o.target_normalized n.target_normalized (findings_of old db)
        (findings_of new db) (collector_statuses old db) (collector_statuses new db)

unfoldable pub diff_jobs : Database → ℕ → ℕ → Compared
unfolding compare_jobs get_job
diff_jobs db new old = compare_jobs db new old (get_job new db) (get_job old db)
