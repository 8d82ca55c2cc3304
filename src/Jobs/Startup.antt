-- ===== src/Jobs/Startup.antt =====
-- The start of the process in backend/app/main.py, `lifespan`: the recovery, the sweep and the jobs to
-- resume, with an empty memory; and the requests that come before such a job's coroutine runs.
use recon_ledger.Prelude.{
  ℕ, Bool, true, false, not, ◌||◌, Option, none, some, List, [], ◌∷◌, if◌then◌else◌, ◌≡◌, ◌≢◌, refl,
  arith, All, All-imp, All-filter, All-update_where,
}
use recon_ledger.Models.Enums.{is_terminal_collector, is_pending, is_queued, is_running}
use recon_ledger.Models.Db.{Job, CollectorRun, get_job}
use recon_ledger.Services.Retention.{sweep}
use recon_ledger.Jobs.World.{Surroundings, Stage, selecting, writing, Retry, World, cancellation}
use recon_ledger.Jobs.Queue.{
  recover_on_startup, sweep_retention, find_resumable_job_ids, cancel_found, cancel_queued,
  set_event,
}
use recon_ledger.Jobs.Queue.Recovery.{recover-is_settled}
use recon_ledger.Api.Jobs.{
  Reply, answered, under_way, resume_at, requeue, requeue_run, is_named, delete_found,
  retry_collector, resume_retry,
}
use recon_ledger.Jobs.Dispatch.{
  Request, cancel, delete, retry, resume, Turn, answer, run_job, take_at, drop_at, keep_retry,
  resume_found,
}
use recon_ledger.Jobs.Dispatch.Requests.{NoRetry}
use recon_ledger.Jobs.Dispatch.Endings.{IsOver, is_ready}
use recon_ledger.Jobs.Dispatch.Outcome.{run_job-IsOver}

-- what `lifespan` has done when the application begins to serve, and the jobs that it resumes
unfoldable pub lifespan : Surroundings → World → List ℕ × World
unfolding recover_on_startup sweep_retention find_resumable_job_ids
lifespan env w =
    let w' =
      sweep_retention env (record w { db = recover_on_startup w.db; active = []; retries = [] }) in
    (find_resumable_job_ids w'.db, w')

-- requests that the API answers one after another
unfoldable pub serve : Surroundings → List Request → World → World
unfolding answer
serve env [] w = w
serve env (q ∷ qs) w = serve env qs (answer env q w)

-- The run has ended, or waits to be run.
abbrev IsQuietRun : CollectorRun → Type 0
IsQuietRun r = (is_terminal_collector r.status || is_pending r.status) ≡ true

abbrev IsQuiet : World → Type 0
IsQuiet w = All IsQuietRun w.db.runs

IsQuiet-if :
    {A : Type 0} (b : Bool) (x y : A × World)
    → IsQuiet x.1
    → IsQuiet y.1
    → IsQuiet (if b then x else y).1
IsQuiet-if true x y h k = h
IsQuiet-if false x y h k = k

lifespan-IsQuiet : (env : Surroundings) (w : World) → IsQuiet (lifespan env w).1
unfolding lifespan sweep_retention sweep
lifespan-IsQuiet env w = All-filter _ _ (recover_on_startup w.db).runs (recover-is_settled w.db)

requeue_run-IsQuietRun : (loaded r : CollectorRun) → IsQuietRun (requeue_run loaded r)
unfolding requeue_run
requeue_run-IsQuietRun loaded r = refl

-- No request leaves a run in the middle.
set_event-IsQuiet :
    (env : Surroundings) (k : ℕ) (w : World) (o : Option Bool)
    → IsQuiet w
    → IsQuiet (set_event env k w o).1
unfolding set_event
set_event-IsQuiet env k w none h = h
set_event-IsQuiet env k w (some _) h = h

cancel_found-IsQuiet :
    (env : Surroundings) (k : ℕ) (w : World) (o : Option Job)
    → IsQuiet w
    → IsQuiet (cancel_found env k w o).1
unfolding cancel_found cancel_queued sweep
cancel_found-IsQuiet env k w none h = h
cancel_found-IsQuiet env k w (some job) h =
    IsQuiet-if (is_queued job.status) _ _ (All-filter _ _ w.db.runs h) (
      IsQuiet-if (not (is_running job.status)) _ _ h
        (set_event-IsQuiet env k w (cancellation k w.active) h))

delete_found-IsQuiet :
    (k : ℕ) (w : World) (o : Option Job) → IsQuiet w → IsQuiet (delete_found k w o).1
unfolding delete_found
delete_found-IsQuiet k w none h = h
delete_found-IsQuiet k w (some _) h = All-filter _ _ w.db.runs h

keep_retry-IsQuiet : (r : Reply) (w : World) → IsQuiet w → IsQuiet (keep_retry r w)
unfolding keep_retry
keep_retry-IsQuiet (answered _) w h = h
keep_retry-IsQuiet (under_way q) w h = h

resume_at-IsQuiet : (s : Stage) (q : Retry) (w : World) → IsQuiet w → IsQuiet (resume_at s q w).1
unfolding resume_at requeue
resume_at-IsQuiet selecting q w h = h
resume_at-IsQuiet (writing r) q w h =
    All-update_where IsQuietRun (is_named q.job_id q.collector) (requeue_run r) w.db.runs
      (λ x _ _. requeue_run-IsQuietRun r x) h

resume_found-IsQuiet : (o : Option Retry) (w : World) → IsQuiet w → IsQuiet (resume_found o w)
unfolding resume_found resume_retry
resume_found-IsQuiet none w h = h
resume_found-IsQuiet (some q) w h =
    keep_retry-IsQuiet (resume_at q.stage q w).0 (resume_at q.stage q w).1
      (resume_at-IsQuiet q.stage q w h)

answer-IsQuiet :
    (env : Surroundings) (q : Request) (w : World) → IsQuiet w → IsQuiet (answer env q w)
unfolding answer
answer-IsQuiet env (cancel k) w h = cancel_found-IsQuiet env k w (get_job k w.db) h
answer-IsQuiet env (delete k) w h = delete_found-IsQuiet k w (get_job k w.db) h
answer-IsQuiet env (retry k name) w h = keep_retry-IsQuiet (retry_collector k name w) w h
answer-IsQuiet env (resume i) w h =
    resume_found-IsQuiet (take_at i w.retries) (record w { retries = drop_at i w.retries }) h

serve-IsQuiet :
    (env : Surroundings) (qs : List Request) (w : World) → IsQuiet w → IsQuiet (serve env qs w)
unfolding serve
serve-IsQuiet env [] w h = h
serve-IsQuiet env (q ∷ qs) w h = serve-IsQuiet env qs (answer env q w) (answer-IsQuiet env q w h)

is_ready-quiet : (j : ℕ) (r : CollectorRun) → IsQuietRun r → is_ready j r ≡ true
is_ready-quiet j r h = ground arith

-- Whatever the process left behind when it stopped, and whatever requests have been answered since the
-- start: `run_job` of a job that is there ends it and all its collector runs if it returns, and leaves
-- it no longer in flight, if no retry for it is under way when `run_job` begins.
pub restart-IsOver :
    (env : Surroundings) (j : ℕ) (qs : List Request) (schedule later : List Turn) (w : World)
    → get_job j (serve env qs (lifespan env w).1).db ≢ none
    → NoRetry j (serve env qs (lifespan env w).1).retries
    → IsOver j (run_job env schedule later j (serve env qs (lifespan env w).1))
restart-IsOver env j qs schedule later w known idle =
    let v = serve env qs (lifespan env w).1 in
    run_job-IsOver env j schedule later v known
      (All-imp (is_ready-quiet j) v.db.runs
        (serve-IsQuiet env qs (lifespan env w).1 (lifespan-IsQuiet env w)))
      idle
