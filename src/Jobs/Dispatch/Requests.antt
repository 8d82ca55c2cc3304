-- ===== src/Jobs/Dispatch/Requests.antt =====
-- Requests that the API answers while a job is dispatched keep its runs covered.
use recon_ledger.Prelude.{
  ℕ, zero, suc, Bool, true, false, not, Option, none, some, List, [], ◌∷◌, filter, ◌==◌,
  if◌then◌else◌, ◌≡◌, arith, All, All-filter, All-append, All-update_where, Bool-cases, inl, inr,
  Text,
}
use recon_ledger.Models.Enums.{is_queued, is_running, is_failed}
use recon_ledger.Models.Db.{Job, CollectorRun, Database, get_job}
use recon_ledger.Services.Retention.{sweep}
use recon_ledger.Jobs.World.{
  Surroundings, Stage, selecting, writing, Retry, World, in_flight, cancellation, put_cancellation,
}
use recon_ledger.Jobs.Queue.{cancel_found, set_event, cancel_queued, sweep_retention}
use recon_ledger.Jobs.Tasks.{Task}
use recon_ledger.Api.Jobs.{
  Reply, answered, under_way, select_run, resume_at, resume_retry, retry_in_job, retry_collector,
  requeue, requeue_run, is_named, delete_found,
}
use recon_ledger.Jobs.Dispatch.{
  Request, answer, cancel, delete, retry, resume, take_at, drop_at, keep_retry, resume_found,
}
use recon_ledger.Jobs.Dispatch.Coverage.{covered}

-- A job in flight stays in flight when any event is set.
in_flight-put :
    (j k : ℕ) (b : Bool) (l : List (ℕ × Bool))
    → in_flight j l ≡ true
    → in_flight j (put_cancellation k b l) ≡ true
unfolding in_flight put_cancellation
in_flight-put j k b [] h = absurd (ground arith)
in_flight-put j k b ((i, c) ∷ l) h = ground (arith, in_flight-put j k b l)

-- Its own event is there once it has been put.
pub in_flight-put_self :
    (j : ℕ) (b : Bool) (l : List (ℕ × Bool)) → in_flight j (put_cancellation j b l) ≡ true
unfolding in_flight put_cancellation
in_flight-put_self j b [] = ground arith
in_flight-put_self j b ((i, c) ∷ l) = ground (arith, in_flight-put_self j b l)

-- Requeueing the runs of another job leaves the runs of this one as they are.
covered-requeue :
    (j k : ℕ) (name : Text) (others : ℕ → Bool) (ts : List Task) (loaded r : CollectorRun)
    → (k == j) ≡ false
    → covered j others ts r ≡ true
    → is_named k name r ≡ true
    → covered j others ts (requeue_run loaded r) ≡ true
unfolding requeue_run
covered-requeue j k name others ts loaded r other h named = ground arith

-- No call of `retry_collector` for this job is under way.
abbrev pub NoRetry : ℕ → List Retry → Type 0
NoRetry j = All (λ q. (q.job_id == j) ≡ false)

-- What is said of all calls is said of the one at a place, and of the others.
abbrev IfSome : (Retry → Type 0) → Option Retry → Type 0
IfSome P none = Unit
IfSome P (some q) = P q

take_at-All : (P : Retry → Type 0) (i : ℕ) (qs : List Retry) → All P qs → IfSome P (take_at i qs)
unfolding take_at
take_at-All P i [] h = tt
take_at-All P zero (q ∷ qs) h = h.0
take_at-All P (suc i) (q ∷ qs) h = take_at-All P i qs h.1

drop_at-All : (P : Retry → Type 0) (i : ℕ) (qs : List Retry) → All P qs → All P (drop_at i qs)
unfolding drop_at
drop_at-All P i [] h = tt
drop_at-All P zero (q ∷ qs) h = h.1
drop_at-All P (suc i) (q ∷ qs) h = (h.0, drop_at-All P i qs h.1)

-- A call that is still under way is of another job.
abbrev IsElsewhere : ℕ → Reply → Type 0
IsElsewhere j (answered _) = Unit
IsElsewhere j (under_way q) = (q.job_id == j) ≡ false

IsElsewhere-if :
    (j : ℕ) (b : Bool) (x y : Reply)
    → IsElsewhere j x
    → IsElsewhere j y
    → IsElsewhere j (if b then x else y)
IsElsewhere-if j true x y h k = h
IsElsewhere-if j false x y h k = k

select_run-IsElsewhere :
    (j : ℕ) (q : Retry) (rows : List CollectorRun)
    → (q.job_id == j) ≡ false
    → IsElsewhere j (select_run q rows)
unfolding select_run
select_run-IsElsewhere j q [] h = tt
select_run-IsElsewhere j q (r ∷ []) h = IsElsewhere-if j (is_failed r.status) _ _ h tt
select_run-IsElsewhere j q (r ∷ s ∷ more) h = tt

module _ (j : ℕ) (others : ℕ → Bool) (ts : List Task) where
  abbrev RowsCovered : List CollectorRun → Type 0
  RowsCovered = All (λ r. covered j others ts r ≡ true)

  -- What a request must keep of the world.
  abbrev pub IsSteady : World → Type 0
  IsSteady w = RowsCovered w.db.runs × ((in_flight j w.active ≡ true) × NoRetry j w.retries)

  sweep_keeps :
      (cascade : Bool) (retention now : ℕ) (db : Database)
      → RowsCovered db.runs
      → RowsCovered (sweep cascade retention now db).runs
  unfolding sweep
  sweep_keeps cascade retention now db h = All-filter _ _ db.runs h

  sweep_retention-IsSteady :
      (env : Surroundings) (w : World) → IsSteady w → IsSteady (sweep_retention env w)
  unfolding sweep_retention
  sweep_retention-IsSteady env w h = (sweep_keeps _ _ _ w.db h.0, h.1)

  cancel_queued-IsSteady :
      (env : Surroundings) (k : ℕ) (w : World) → IsSteady w → IsSteady (cancel_queued env k w)
  unfolding cancel_queued sweep
  cancel_queued-IsSteady env k w h = (All-filter _ _ w.db.runs h.0, h.1)

  IsSteady-if :
      {A : Type 0} (b : Bool) (x y : A × World)
      → IsSteady x.1
      → IsSteady y.1
      → IsSteady (if b then x else y).1
  IsSteady-if true x y hx hy = hx
  IsSteady-if false x y hx hy = hy

  set_event-IsSteady :
      (env : Surroundings) (k : ℕ) (w : World) (o : Option Bool)
      → IsSteady w
      → IsSteady (set_event env k w o).1
  unfolding set_event
  set_event-IsSteady env k w none h = h
  set_event-IsSteady env k w (some _) h = (h.0, (in_flight-put j k true w.active h.1.0, h.1.1))

  cancel_found-IsSteady :
      (env : Surroundings) (k : ℕ) (w : World) (o : Option Job)
      → IsSteady w
      → IsSteady (cancel_found env k w o).1
  unfolding cancel_found
  cancel_found-IsSteady env k w none h = h
  cancel_found-IsSteady env k w (some job) h =
      IsSteady-if (is_queued job.status) _ _ (cancel_queued-IsSteady env k w h) (
        IsSteady-if (not (is_running job.status)) _ _ h
          (set_event-IsSteady env k w (cancellation k w.active) h))

  delete_found-IsSteady :
      (k : ℕ) (w : World) (o : Option Job) → IsSteady w → IsSteady (delete_found k w o).1
  unfolding delete_found
  delete_found-IsSteady k w none h = h
  delete_found-IsSteady k w (some _) h = (All-filter _ _ w.db.runs h.0, h.1)

  keep_retry-IsSteady :
      (r : Reply) (w : World) → IsElsewhere j r → IsSteady w → IsSteady (keep_retry r w)
  unfolding keep_retry
  keep_retry-IsSteady (answered _) w e h = h
  keep_retry-IsSteady (under_way q) w e h =
      (h.0, (h.1.0, All-append _ w.retries (q ∷ []) h.1.1 (e, tt)))

  -- The steps of a retry for another job.
  resume_at-IsSteady :
      (s : Stage) (q : Retry) (w : World)
      → (q.job_id == j) ≡ false
      → IsSteady w
      → IsSteady (resume_at s q w).1 × IsElsewhere j (resume_at s q w).0
  unfolding resume_at requeue
  resume_at-IsSteady selecting q w e h =
      (h, select_run-IsElsewhere j q (filter (is_named q.job_id q.collector) w.db.runs) e)
  resume_at-IsSteady (writing r) q w e h = (
    (
      All-update_where _ _ _ w.db.runs (λ x. covered-requeue j q.job_id q.collector others ts r x e)
          h.0,
      h.1,
    ),
    tt,
  )

  resume_found-IsSteady :
      (o : Option Retry) (w : World)
      → IfSome (λ q. (q.job_id == j) ≡ false) o
      → IsSteady w
      → IsSteady (resume_found o w)
  unfolding resume_found resume_retry
  resume_found-IsSteady none w e h = h
  resume_found-IsSteady (some q) w e h =
      let k = resume_at-IsSteady q.stage q w e h in
      keep_retry-IsSteady (resume_at q.stage q w).0 (resume_at q.stage q w).1 k.1 k.0

  -- The guard of `retry_collector`: no retry of a job in flight gets under way.
  in_flight-ne : (k : ℕ) (w : World) → in_flight k w.active ≡ false → IsSteady w → (k == j) ≡ false
  in_flight-ne k w idle h = ground arith

  retry_in_job-IsElsewhere :
      (k : ℕ) (name : Text) (w : World) (o : Option Job)
      → IsSteady w
      → IsElsewhere j (retry_in_job k name w o)
  unfolding retry_in_job
  retry_in_job-IsElsewhere k name w none h = tt
  retry_in_job-IsElsewhere k name w (some _) h = elim (Bool-cases (in_flight k w.active)) [
    | inl busy ↦ rw busy tt
    | inr idle ↦ rw idle (in_flight-ne k w idle h)
  ]

  pub answer-IsSteady :
      (env : Surroundings) (q : Request) (w : World) → IsSteady w → IsSteady (answer env q w)
  unfolding answer retry_collector
  answer-IsSteady env (cancel k) w h = cancel_found-IsSteady env k w (get_job k w.db) h
  answer-IsSteady env (delete k) w h = delete_found-IsSteady k w (get_job k w.db) h
  answer-IsSteady env (retry k name) w h =
      keep_retry-IsSteady (retry_in_job k name w (get_job k w.db)) w
        (retry_in_job-IsElsewhere k name w (get_job k w.db) h) h
  answer-IsSteady env (resume i) w h =
      resume_found-IsSteady (take_at i w.retries) (record w { retries = drop_at i w.retries })
        (take_at-All _ i w.retries h.1.1) (h.0, (h.1.0, drop_at-All _ i w.retries h.1.1))
