-- ===== src/Api/Jobs.antt =====
-- The state-changing handlers of backend/app/api/jobs.py. A response is its HTTP status. The retry
-- stands as three steps, since it waits between its check of `is_active`, its query and its commit.
use recon_ledger.Prelude.{
  ℕ, Bool, true, ◌&&◌, Option, none, some, List, [], ◌∷◌, filter, find, update_where, ◌==◌,
  if◌then◌else◌, Text, text_eq,
}
use recon_ledger.Models.Enums.{JobStatus, CollectorStatus, is_failed, is_queued}
use recon_ledger.Models.Db.{Job, CollectorRun, Database, get_job}
use recon_ledger.Services.Retention.{delete_jobs}
use recon_ledger.Jobs.World.{Surroundings, Stage, selecting, writing, Retry, World, is_active}
use recon_ledger.Jobs.Queue.{request_cancellation}

pub data Response : Type 0 where
  ok no_content not_found conflict : Response
  -- an exception that no handler catches
  server_error : Response

-- `cancel_job`
unfoldable pub cancel_job : Surroundings → ℕ → World → Response × World
unfolding request_cancellation
cancel_job env j w =
    let (cancelled, w') = request_cancellation env j w in (if cancelled then ok else conflict, w')

-- An attribute set to None. Only a change of the value that was loaded is written.
unfoldable pub cleared : {A : Type 0} → Option A → Option A → Option A
cleared none x = x
cleared (some _) x = none

unfoldable pub requeue_run : CollectorRun → CollectorRun → CollectorRun
unfolding cleared
requeue_run loaded r = record r {
  status = CollectorStatus.queued;
  started_at = cleared loaded.started_at r.started_at;
  finished_at = cleared loaded.finished_at r.finished_at;
  safe_error_code = cleared loaded.safe_error_code r.safe_error_code;
  safe_error_message = cleared loaded.safe_error_message r.safe_error_message;
}

unfoldable pub requeue_job : Job → Job → Job
unfolding cleared
requeue_job loaded k = record k {
  status = if is_queued loaded.status then k.status else JobStatus.queued;
  started_at = cleared loaded.started_at k.started_at;
  finished_at = cleared loaded.finished_at k.finished_at;
}

abbrev pub is_named : ℕ → Text → CollectorRun → Bool
is_named j name r = r.job_id == j && text_eq r.collector name

-- The commit: the run that the query has found, which is the only one of that name, and its job.
unfoldable pub requeue : Retry → CollectorRun → Database → Database
unfolding update_where requeue_run requeue_job
requeue q r db = record db {
  runs = update_where (is_named q.job_id q.collector) (requeue_run r) db.runs;
  jobs = update_where (λ k. k.id == q.job_id) (requeue_job q.loaded) db.jobs;
}

-- The answer, unless the call is still under way; and the call, where it is.
pub data Reply : Type 0 where
  answered : Response → Reply
  under_way : Retry → Reply

-- `scalar_one_or_none` on the runs of that name: more than one row is an exception
unfoldable pub select_run : Retry → List CollectorRun → Reply
select_run q [] = answered not_found
select_run q (r ∷ []) =
    if is_failed r.status then under_way (record q { stage = writing r }) else answered conflict
select_run q (r ∷ s ∷ more) = answered server_error

-- the next step of a call that is under way
unfoldable pub resume_at : Stage → Retry → World → Reply × World
unfolding select_run requeue filter text_eq
resume_at selecting q w = (select_run q (filter (is_named q.job_id q.collector) w.db.runs), w)
resume_at (writing r) q w = (answered ok, record w { db = requeue q r w.db })

unfoldable pub resume_retry : Retry → World → Reply × World
unfolding resume_at
resume_retry q w = resume_at q.stage q w

-- the first step: the job's row, and the check of `is_active`
unfoldable pub retry_in_job : ℕ → Text → World → Option Job → Reply
unfolding is_active
retry_in_job j name w none = answered not_found
retry_in_job j name w (some job) =
    if is_active j w
    then answered conflict
    else under_way (record { job_id = j; collector = name; loaded = job; stage = selecting })

unfoldable pub retry_collector : ℕ → Text → World → Reply
unfolding retry_in_job get_job find
retry_collector j name w = retry_in_job j name w (get_job j w.db)

-- `session.delete(job)` removes the children through the ORM's cascade.
unfoldable pub delete_found : ℕ → World → Option Job → Response × World
unfolding delete_jobs
delete_found j w none = (not_found, w)
delete_found j w (some _) = (no_content, record w { db = delete_jobs true (λ k. k.id == j) w.db })

unfoldable pub delete_job : ℕ → World → Response × World
unfolding delete_found get_job find
delete_job j w = delete_found j w (get_job j w.db)
