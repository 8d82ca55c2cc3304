-- ===== src/Jobs/Dispatch/Endings.antt =====
-- Lemmas on how a dispatch ends: the pending runs get tasks, and what ends a job has ended its runs.
use recon_ledger.Prelude.{
  ℕ, ◌+◌, Bool, true, false, ◌&&◌, ◌||◌, not, none, some, List, [], ◌∷◌, filter, update_where, any,
  ◌==◌, if◌then◌else◌, ◌≡◌, refl, arith, All, All-imp, All-filter, Bool-cases, inl, inr, Text,
}
use recon_ledger.Models.Enums.{
  JobStatus, CollectorStatus, is_terminal_collector, is_terminal_job, is_pending,
}
use recon_ledger.Models.Db.{Job, CollectorRun, Database, EventType, Payload}
use recon_ledger.Jobs.Status.{compute_job_status}
use recon_ledger.Jobs.World.{Surroundings, World, in_flight, pop_cancellation, is_set}
use recon_ledger.Jobs.Events.{emit}
use recon_ledger.Jobs.Queue.{end_job, set_job_finished, finish_job}
use recon_ledger.Services.Retention.{sweep}
use recon_ledger.Jobs.Tasks.{Task}
use recon_ledger.Jobs.Dispatch.{
  Ran, returned, raised, is_crashed, tasks_of, run_statuses, final_status, finalize_job, fail_run,
  fail_runs, fail_job_before_dispatch,
}
use recon_ledger.Jobs.Dispatch.Coverage.{is_open, covered, IsSound}
use recon_ledger.Jobs.Dispatch.Settles.{is_settled}

abbrev pub nobody : ℕ → Bool
nobody i = false

-- A run that is not of this job, or has ended.
abbrev pub has_ended : ℕ → CollectorRun → Bool
has_ended j r = not (r.job_id == j) || is_terminal_collector r.status

-- No run of the job is left in the middle: what `recover_on_startup` sees to.
abbrev pub is_ready : ℕ → CollectorRun → Bool
is_ready j r = not (r.job_id == j) || (is_terminal_collector r.status || is_pending r.status)

abbrev pub job_has_ended : ℕ → Job → Bool
job_has_ended j k =
    not (k.id == j)
    || (is_terminal_job k.status && elim k.finished_at [ none ↦ false | some _ ↦ true ])

-- When every task has ended, none is open.
pub is_open-settled :
    (i : ℕ) (ts : List Task)
    → All (λ t. is_settled t.phase ≡ true) ts
    → any (λ t. is_crashed t.phase) ts ≡ false
    → is_open i ts ≡ false
unfolding is_open any
is_open-settled i [] s c = refl
is_open-settled i (t ∷ ts) s c = ground (arith, is_open-settled i ts s.1)

-- The immediate and the deferred tasks together are the pending ones.
pub is_open-split :
    (i : ℕ) (p : Task → Bool) (ts : List Task)
    → is_open i ts ≡ (is_open i (filter p ts) || is_open i (filter (λ t. not (p t)) ts))
unfolding is_open any filter
is_open-split i p [] = refl
is_open-split i p (t ∷ ts) = ground (arith, is_open-split i p ts)

-- Every pending run gets a task.
pub covered-tasks_of_head :
    (j : ℕ) (r : CollectorRun) (rs : List CollectorRun)
    → is_ready j r ≡ true
    → covered j nobody (tasks_of j (r ∷ rs)) r ≡ true
unfolding tasks_of filter is_open any
covered-tasks_of_head j r rs h = ground arith

pub covered-tasks_of_tail :
    (j : ℕ) (r : CollectorRun) (rs : List CollectorRun) (x : CollectorRun)
    → covered j nobody (tasks_of j rs) x ≡ true
    → covered j nobody (tasks_of j (r ∷ rs)) x ≡ true
unfolding tasks_of filter is_open any
covered-tasks_of_tail j r rs x h = ground arith

pub tasks_of-covered :
    (j : ℕ) (rs : List CollectorRun)
    → All (λ r. is_ready j r ≡ true) rs
    → All (λ r. covered j nobody (tasks_of j rs) r ≡ true) rs
tasks_of-covered j [] h = tt
tasks_of-covered j (r ∷ rs) h = (
  covered-tasks_of_head j r rs h.0,
  All-imp (covered-tasks_of_tail j r rs) rs (tasks_of-covered j rs h.1),
)

pub tasks_of-IsSound : (j : ℕ) (rs : List CollectorRun) → All IsSound (tasks_of j rs)
unfolding tasks_of filter
tasks_of-IsSound j [] = tt
tasks_of-IsSound j (r ∷ rs) = elim (Bool-cases (r.job_id == j && is_pending r.status)) [
  | inl e ↦ rw e (tt, tasks_of-IsSound j rs)
  | inr e ↦ rw e (tasks_of-IsSound j rs)
]

-- The job in flight is forgotten.
pub in_flight-pop : (j : ℕ) (l : List (ℕ × Bool)) → in_flight j (pop_cancellation j l) ≡ false
unfolding in_flight pop_cancellation
in_flight-pop j [] = refl
in_flight-pop j ((k, c) ∷ l) = ground (arith, in_flight-pop j l)

pub compute_job_status-is_terminal :
    (ss : List CollectorStatus) → is_terminal_job (compute_job_status ss) ≡ true
unfolding compute_job_status
compute_job_status-is_terminal ss = ground arith

pub set_job_finished-ends :
    (j : ℕ) (status : JobStatus) (now : ℕ) (jobs : List Job)
    → is_terminal_job status ≡ true
    → All
        (λ k. job_has_ended j k ≡ true)
        (update_where (λ k. k.id == j) (finish_job status now) jobs)
unfolding update_where
set_job_finished-ends j status now [] h = tt
set_job_finished-ends j status now (k ∷ jobs) h =
    (ground arith, set_job_finished-ends j status now jobs h)

-- What is promised of the world when `run_job` is over. A return has ended the job and all its runs.
abbrev pub HasEnded : ℕ → World → Type 0
HasEnded j w =
    All (λ r. has_ended j r ≡ true) w.db.runs × All (λ k. job_has_ended j k ≡ true) w.db.jobs

abbrev pub IsOver : ℕ → Ran → Type 0
IsOver j (returned w) = HasEnded j w × (in_flight j w.active ≡ false)
IsOver j (raised w) = in_flight j w.active ≡ false

pub IsOver-if :
    (j : ℕ) (b : Bool) (x y : Ran)
    → (b ≡ true → IsOver j x)
    → (b ≡ false → IsOver j y)
    → IsOver j (if b then x else y)
IsOver-if j true x y h k = h refl
IsOver-if j false x y h k = k refl

pub final_status-is_terminal : (j : ℕ) (w : World) → is_terminal_job (final_status j w) ≡ true
unfolding final_status
final_status-is_terminal j w = elim (Bool-cases (is_set j w.active)) [
  | inl e ↦ rw e
  | inr e ↦ rw e (compute_job_status-is_terminal (run_statuses j w.db))
]

pub covered-fail_run :
    (j : ℕ) (code : Text) (now : ℕ) (t : Task) (ts : List Task) (r : CollectorRun)
    → covered j nobody (t ∷ ts) r ≡ true
    → covered j nobody ts (if r.id == t.run_id then fail_run code now r else r) ≡ true
unfolding is_open any
covered-fail_run j code now t ts r h = ground arith

pub covered-fail_rows :
    (j : ℕ) (code : Text) (now : ℕ) (t : Task) (ts : List Task) (runs : List CollectorRun)
    → All (λ r. covered j nobody (t ∷ ts) r ≡ true) runs
    → All
        (λ r. covered j nobody ts r ≡ true)
        (update_where (λ r. r.id == t.run_id) (fail_run code now) runs)
unfolding update_where
covered-fail_rows j code now t ts [] h = tt
covered-fail_rows j code now t ts (r ∷ runs) h =
    (covered-fail_run j code now t ts r h.0, covered-fail_rows j code now t ts runs h.1)

pub has_ended_of_covered :
    (j : ℕ) (ts : List Task) (r : CollectorRun)
    → is_open r.id ts ≡ false
    → covered j nobody ts r ≡ true
    → has_ended j r ≡ true
has_ended_of_covered j ts r closed h = ground arith

pub is_open-nil : (i : ℕ) → is_open i [] ≡ false
unfolding is_open any
is_open-nil i = refl

pub fail_runs-covered :
    (j : ℕ) (code : Text) (now : ℕ) (ts : List Task) (runs : List CollectorRun)
    → All (λ r. covered j nobody ts r ≡ true) runs
    → All (λ r. has_ended j r ≡ true) (fail_runs code now ts runs)
unfolding fail_runs
fail_runs-covered j code now [] runs h =
    All-imp (λ r. has_ended_of_covered j [] r (is_open-nil r.id)) runs h
fail_runs-covered j code now (t ∷ ts) runs h =
    fail_runs-covered j code now ts _ (covered-fail_rows j code now t ts runs h)

module _ (env : Surroundings) (j : ℕ) where
  pub sweep-HasEnded :
      (cascade : Bool) (retention now : ℕ) (db : Database)
      → All (λ r. has_ended j r ≡ true) db.runs × All (λ k. job_has_ended j k ≡ true) db.jobs
      → All (λ r. has_ended j r ≡ true) (sweep cascade retention now db).runs
        × All (λ k. job_has_ended j k ≡ true) (sweep cascade retention now db).jobs
  unfolding sweep
  sweep-HasEnded cascade retention now db h =
      (All-filter _ _ db.runs h.0, All-filter _ _ db.jobs h.1)

  pub end_job-HasEnded :
      (status : JobStatus) (w : World)
      → is_terminal_job status ≡ true
      → All (λ r. has_ended j r ≡ true) w.db.runs
      → HasEnded j (end_job env j status w)
  unfolding end_job
  end_job-HasEnded status w e h =
      sweep-HasEnded env.cascade env.retention (env.clock (w.ticks + 1))
        (emit (env.clock w.ticks) j none EventType.job_finished (Payload.finished_job status)
          (set_job_finished j status (env.clock w.ticks) w.db))
        (h, set_job_finished-ends j status (env.clock w.ticks) w.db.jobs e)

  pub end_job-job_has_ended :
      (status : JobStatus) (w : World)
      → is_terminal_job status ≡ true
      → All (λ k. job_has_ended j k ≡ true) (end_job env j status w).db.jobs
  unfolding end_job sweep
  end_job-job_has_ended status w e =
      All-filter _ _ (set_job_finished j status (env.clock w.ticks) w.db).jobs
        (set_job_finished-ends j status (env.clock w.ticks) w.db.jobs e)

  pub finalize_job-HasEnded :
      (w : World) → All (λ r. has_ended j r ≡ true) w.db.runs → HasEnded j (finalize_job env j w)
  unfolding finalize_job
  finalize_job-HasEnded w h = end_job-HasEnded (final_status j w) w (final_status-is_terminal j w) h

  pub fail_job-HasEnded :
      (code : Text) (pending : List Task) (w : World)
      → All (λ r. covered j nobody pending r ≡ true) w.db.runs
      → HasEnded j (fail_job_before_dispatch env j pending code w)
  unfolding fail_job_before_dispatch
  fail_job-HasEnded code pending w h =
      end_job-HasEnded JobStatus.failed
        (record w {
          db = record (w.db) { runs = fail_runs code (env.clock w.ticks) pending w.db.runs };
        })
        refl (fail_runs-covered j code (env.clock w.ticks) pending w.db.runs h)
