-- ===== src/Jobs/Queue.antt =====
-- The queue transactions of `JobRunner` in backend/app/jobs/runner.py: startup recovery, claiming,
-- cancellation.
pub mod Claims
pub mod Recovery
use recon_ledger.Prelude.{
  ℕ, Bool, true, false, ◌&&◌, not, Option, none, some, List, [], ◌∷◌, length, map, filter, find,
  any, update_where, ltb, ◌==◌, if◌then◌else◌,
}
use recon_ledger.Models.Enums.{
  JobStatus, CollectorStatus, is_queued, is_running, is_running_collector, is_pending,
}
use recon_ledger.Models.Db.{Job, CollectorRun, Database, EventType, Payload, get_job}
use recon_ledger.Services.Retention.{sweep}
use recon_ledger.Jobs.Events.{emit}
use recon_ledger.Jobs.World.{Surroundings, World, at_now, cancellation, put_cancellation}

abbrev pub interrupt : CollectorRun → CollectorRun
interrupt r = record r { status = CollectorStatus.interrupted }

unfoldable pub recover_on_startup : Database → Database
unfolding update_where
recover_on_startup db = record db {
  runs = update_where (λ r. is_running_collector r.status) interrupt db.runs;
}

-- the JOIN's condition for one job
unfoldable pub is_resumable : Database → Job → Bool
unfolding any
is_resumable db j =
    is_running j.status && any (λ r. r.job_id == j.id && is_pending r.status) db.runs

unfoldable pub find_resumable_job_ids : Database → List ℕ
unfolding is_resumable filter
find_resumable_job_ids db = map (λ j. j.id) (filter (is_resumable db) db.jobs)

-- `ORDER BY created_at LIMIT 1` over the queued jobs; of equal times the first row
unfoldable pub earliest_queued : List Job → Option Job
earliest_queued [] = none
earliest_queued (j ∷ js) =
    let rest = earliest_queued js in
    if is_queued j.status
    then elim rest [
      | none ↦ some j
      | some k ↦ if ltb k.created_at j.created_at then some k else some j
    ]
    else rest

abbrev pub start_job : ℕ → Job → Job
start_job now j = record j { status = JobStatus.running; started_at = some now }

-- the UPDATE of one job that is still queued
unfoldable pub claim : ℕ → ℕ → Database → Option ℕ × Database
unfolding update_where filter
claim now j db =
    let still_queued = λ (k : Job). k.id == j && is_queued k.status in
    let db' = record db { jobs = update_where still_queued (start_job now) db.jobs } in
    (if length (filter still_queued db.jobs) == 1 then some j else none, db')

unfoldable pub claim_next_queued_job : ℕ → Database → Option ℕ × Database
unfolding earliest_queued claim
claim_next_queued_job now db = elim (earliest_queued db.jobs) [
  | none ↦ (none, db)
  | some j ↦ claim now j.id db
]

abbrev pub finish_job : JobStatus → ℕ → Job → Job
finish_job status now j = record j { status = status; finished_at = some now }

-- `update(Job).where(Job.id == job_id).values(status=…, finished_at=utcnow())`
unfoldable pub set_job_finished : ℕ → JobStatus → ℕ → Database → Database
unfolding update_where
set_job_finished j status now db = record db {
  jobs = update_where (λ k. k.id == j) (finish_job status now) db.jobs;
}

module _ (env : Surroundings) where
  -- the sweep that follows every terminal state
  unfoldable pub sweep_retention : World → World
  unfolding at_now sweep
  sweep_retention = at_now env (sweep env.cascade env.retention)

  -- the row of a job that ends, its event, and the sweep
  unfoldable pub end_job : ℕ → JobStatus → World → World
  unfolding at_now set_job_finished emit sweep_retention
  end_job j status w = sweep_retention (
      at_now env
        (λ now db.
          emit now j none EventType.job_finished (Payload.finished_job status)
            (set_job_finished j status now db))
        w)

  -- a queued job is cancelled at once
  unfoldable pub cancel_queued : ℕ → World → World
  unfolding end_job
  cancel_queued j w = end_job j JobStatus.canceled w

  -- the event of a job in flight is set
  unfoldable pub set_event : ℕ → World → Option Bool → Bool × World
  unfolding put_cancellation
  set_event j w none = (false, w)
  set_event j w (some _) = (true, record w { active = put_cancellation j true w.active })

  unfoldable pub cancel_found : ℕ → World → Option Job → Bool × World
  unfolding cancel_queued set_event cancellation
  cancel_found j w none = (false, w)
  cancel_found j w (some job) =
      if is_queued job.status
      then (true, cancel_queued j w)
      else if not (is_running job.status)
      then (false, w)
      else set_event j w (cancellation j w.active)

  unfoldable pub request_cancellation : ℕ → World → Bool × World
  unfolding cancel_found get_job find
  request_cancellation j w = cancel_found j w (get_job j w.db)
