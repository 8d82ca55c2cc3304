-- ===== src/Jobs/Dispatch.antt =====
-- `run_job`, `_fail_job_before_dispatch` and `_finalize_job` of backend/app/jobs/runner.py.
-- `asyncio.gather` runs the coroutines interleaved: a schedule says whose turn it is, and where a
-- request of the API comes in between. What the schedule leaves undone is run to its end, since
-- `gather` waits for all, unless one raises: then `gather` raises at once and the others stand where
-- they are. The semaphore only removes schedules.
pub mod Coverage
pub mod Requests
pub mod Gather
pub mod Settles
pub mod Endings
pub mod Outcome
pub mod Alive
pub mod Returns
pub mod Cancellation
use recon_ledger.Prelude.{
  ℕ, zero, suc, Bool, true, false, ◌&&◌, ◌||◌, not, Option, none, some, List, [], ◌∷◌, ◌++◌, map,
  filter, any, find, update_where, ◌==◌, if◌then◌else◌, Text, text_eq, mem_text, codes,
}
use recon_ledger.Models.Enums.{JobStatus, CollectorStatus, TargetType, is_pending}
use recon_ledger.Models.Db.{Job, CollectorRun, Message, Database, EventType, Payload, get_job}
use recon_ledger.Jobs.Events.{emit}
use recon_ledger.Jobs.Status.{compute_job_status}
use recon_ledger.Jobs.World.{
  Surroundings, Retry, World, at_now, put_cancellation, pop_cancellation, is_set,
}
use recon_ledger.Jobs.Queue.{end_job}
use recon_ledger.Jobs.Tasks.{Task, Phase, waiting, finished, crashed, advance}
use recon_ledger.Api.Jobs.{
  Reply, answered, under_way, cancel_job, retry_collector, resume_retry, delete_job,
}

-- `DEFERRED_UNTIL_LAST_COLLECTORS`
abbrev pub deferred_until_last_collectors : List Text
deferred_until_last_collectors = codes "technology" ∷ []

pub data Request : Type 0 where
  cancel delete : ℕ → Request
  retry : ℕ → Text → Request
  -- the next step of the retry at this place among those under way
  resume : ℕ → Request

pub data Turn : Type 0 where
  task : ℕ → Turn
  request : Request → Turn

abbrev pub is_finished : Phase → Bool
is_finished finished = true
is_finished _ = false

abbrev pub is_crashed : Phase → Bool
is_crashed crashed = true
is_crashed _ = false

unfoldable pub take_at : ℕ → List Retry → Option Retry
take_at i [] = none
take_at zero (q ∷ qs) = some q
take_at (suc i) (q ∷ qs) = take_at i qs

unfoldable pub drop_at : ℕ → List Retry → List Retry
drop_at i [] = []
drop_at zero (q ∷ qs) = qs
drop_at (suc i) (q ∷ qs) = q ∷ drop_at i qs

-- the tasks for the pending runs of a job
unfoldable pub tasks_of : ℕ → List CollectorRun → List Task
unfolding filter
tasks_of j runs =
    map (λ r. record { run_id = r.id; collector = r.collector; phase = waiting })
      (filter (λ r. r.job_id == j && is_pending r.status) runs)

unfoldable pub pending_tasks : ℕ → Database → List Task
unfolding tasks_of
pending_tasks j db = tasks_of j db.runs

abbrev pub is_deferred : Task → Bool
is_deferred t = mem_text t.collector deferred_until_last_collectors

-- the statuses of the job's collector runs
abbrev pub run_statuses : ℕ → Database → List CollectorStatus
run_statuses j db = map (λ r. r.status) (filter (λ (r : CollectorRun). r.job_id == j) db.runs)

unfoldable pub final_status : ℕ → World → JobStatus
unfolding compute_job_status filter is_set
final_status j w =
    if is_set j w.active then JobStatus.canceled else compute_job_status (run_statuses j w.db)

-- an UPDATE for each pending run
abbrev pub fail_run : Text → ℕ → CollectorRun → CollectorRun
fail_run code now r = record r {
  status = CollectorStatus.failed;
  finished_at = some now;
  safe_error_code = some code;
  safe_error_message = some Message.no_safety_boundary;
}

unfoldable pub fail_runs : Text → ℕ → List Task → List CollectorRun → List CollectorRun
unfolding update_where
fail_runs code now [] runs = runs
fail_runs code now (t ∷ ts) runs =
    fail_runs code now ts (update_where (λ r. r.id == t.run_id) (fail_run code now) runs)

-- How `run_job` ends: it returns, or the exception of a collector's coroutine leaves it.
pub data Ran : Type 0 where
  returned raised : World → Ran

-- a retry that goes on waits behind the others
unfoldable pub keep_retry : Reply → World → World
keep_retry (answered _) w = w
keep_retry (under_way q) w = record w { retries = w.retries ++ (q ∷ []) }

unfoldable pub resume_found : Option Retry → World → World
unfolding resume_retry keep_retry
resume_found none w = w
resume_found (some q) w = let (reply, w') = resume_retry q w in keep_retry reply w'

module _ (env : Surroundings) where
  unfoldable pub answer : Request → World → World
  unfolding cancel_job retry_collector delete_job keep_retry resume_found take_at drop_at
  answer (cancel j) w = (cancel_job env j w).1
  answer (delete j) w = (delete_job j w).1
  answer (retry j name) w = keep_retry (retry_collector j name w) w
  answer (resume i) w =
      resume_found (take_at i w.retries) (record w { retries = drop_at i w.retries })

  module _ (j : ℕ) (target : TargetType) where
    -- the turn of the task at this place; a place out of range stands for no turn
    unfoldable pub turn_at : ℕ → List Task → World → List Task × World
    unfolding advance
    turn_at i [] w = ([], w)
    turn_at zero (t ∷ ts) w = let (t', w') = advance env j target t w in (t' ∷ ts, w')
    turn_at (suc i) (t ∷ ts) w = let (ts', w') = turn_at i ts w in (t ∷ ts', w')

    unfoldable pub run_schedule : List Turn → List Task → World → List Task × World
    unfolding turn_at answer any
    run_schedule [] ts w = (ts, w)
    run_schedule (task i ∷ rest) ts w =
        let r = turn_at i ts w in
        let next = run_schedule rest r.0 r.1 in
        if any (λ t. is_crashed t.phase) r.0 then r else next
    run_schedule (request q ∷ rest) ts w = run_schedule rest ts (answer q w)

    -- five turns take a coroutine from its first transaction to its end
    unfoldable pub complete_task : Task → World → Task × World
    unfolding advance
    complete_task t w =
        let (t1, w1) = advance env j target t w in
        let (t2, w2) = advance env j target t1 w1 in
        let (t3, w3) = advance env j target t2 w2 in
        let (t4, w4) = advance env j target t3 w3 in advance env j target t4 w4

    unfoldable pub complete : List Task → World → List Task × World
    unfolding complete_task
    complete [] w = ([], w)
    complete (t ∷ ts) w =
        let r = complete_task t w in
        let next = complete ts r.1 in
        if is_crashed r.0.phase then (r.0 ∷ ts, r.1) else (r.0 ∷ next.0, next.1)

    unfoldable pub gather : List Turn → List Task → World → List Task × World
    unfolding run_schedule complete any
    gather schedule ts w =
        let r = run_schedule schedule ts w in
        if any (λ t. is_crashed t.phase) r.0 then r else complete r.0 r.1

  unfoldable pub finalize_job : ℕ → World → World
  unfolding final_status end_job
  finalize_job j w = end_job env j (final_status j w) w

  unfoldable pub fail_job_before_dispatch : ℕ → List Task → Text → World → World
  unfolding fail_runs end_job
  fail_job_before_dispatch j pending code w = end_job env j JobStatus.failed (record w {
    db = record (w.db) { runs = fail_runs code (env.clock w.ticks) pending w.db.runs };
  })

  abbrev pub forget : ℕ → World → World
  forget j w = record w { active = pop_cancellation j w.active }

  unfoldable pub dispatch : List Turn → List Turn → ℕ → TargetType → List Task → World → Ran
  unfolding gather finalize_job any filter mem_text text_eq
  dispatch schedule later j target pending w =
      let immediate = filter (λ t. not (is_deferred t)) pending in
      let deferred = filter is_deferred pending in
      let (ts, w1) = gather j target schedule immediate w in
      if any (λ t. is_crashed t.phase) ts
      then raised (forget j w1)
      else let (ds, w2) = gather j target later deferred w1 in
        if any (λ t. is_crashed t.phase) ds
        then raised (forget j w2)
        else returned (forget j (finalize_job j w2))

  -- what follows once the job's row is read
  unfoldable pub run_found : List Turn → List Turn → ℕ → List Task → World → Option Job → Ran
  unfolding dispatch fail_job_before_dispatch pop_cancellation
  run_found schedule later j pending w none = returned (forget j w)
  run_found schedule later j pending w (some job) =
      if env.seeds job
      then dispatch schedule later j job.target_type pending w
      else returned
          (forget j (fail_job_before_dispatch j pending (codes "deny_list_seed_failed") w))

  -- `run_job`, with a schedule for `gather` and one for the deferred collectors. The code runs those
  -- one after another; the second schedule allows that and more.
  unfoldable pub run_job : List Turn → List Turn → ℕ → World → Ran
  unfolding run_found pending_tasks put_cancellation get_job find
  run_job schedule later j w =
      run_found schedule later j (pending_tasks j w.db)
        (record w { active = put_cancellation j false w.active }) (get_job j w.db)
