-- ===== src/Jobs/Dispatch/Cancellation.antt =====
-- What the answer of `request_cancellation` says.
use recon_ledger.Prelude.{
  ℕ, Bool, true, false, Option, none, some, List, [], ◌∷◌, not, ◌≡◌, refl, arith, All, inl, inr,
  ◌⊎◌, if◌then◌else◌,
}
use recon_ledger.Models.Enums.{is_queued, is_running, JobStatus}
use recon_ledger.Models.Db.{Job, get_job}
use recon_ledger.Jobs.World.{Surroundings, World, is_set, cancellation, put_cancellation}
use recon_ledger.Jobs.Queue.{cancel_found, cancel_queued, set_event, request_cancellation}
use recon_ledger.Jobs.Dispatch.Endings.{job_has_ended, end_job-job_has_ended}

-- False: nothing was done. True: the event of the dispatch is set, or the job has ended.
abbrev pub IsAnswered : ℕ → World → Bool × World → Type 0
IsAnswered j w (false, w') = w' ≡ w
IsAnswered j w (true, w') =
    (is_set j w'.active ≡ true) ⊎ All (λ k. job_has_ended j k ≡ true) w'.db.jobs

IsAnswered-if :
    (j : ℕ) (w : World) (b : Bool) (x y : Bool × World)
    → IsAnswered j w x
    → IsAnswered j w y
    → IsAnswered j w (if b then x else y)
IsAnswered-if j w true x y h k = h
IsAnswered-if j w false x y h k = k

is_set-put : (j : ℕ) (l : List (ℕ × Bool)) → is_set j (put_cancellation j true l) ≡ true
unfolding is_set cancellation put_cancellation
is_set-put j [] = ground arith
is_set-put j ((k, b) ∷ l) = ground (arith, is_set-put j l)

module _ (env : Surroundings) (j : ℕ) (w : World) where
  set_event-IsAnswered : (o : Option Bool) → IsAnswered j w (set_event env j w o)
  unfolding set_event
  set_event-IsAnswered none = refl
  set_event-IsAnswered (some b) = inl (is_set-put j w.active)

  cancel_queued-IsAnswered : IsAnswered j w (true, cancel_queued env j w)
  unfolding cancel_queued
  cancel_queued-IsAnswered = inr (end_job-job_has_ended env j JobStatus.canceled w refl)

  cancel_found-IsAnswered : (o : Option Job) → IsAnswered j w (cancel_found env j w o)
  unfolding cancel_found
  cancel_found-IsAnswered none = refl
  cancel_found-IsAnswered (some job) =
      IsAnswered-if j w (is_queued job.status) _ _ cancel_queued-IsAnswered (
        IsAnswered-if j w (not (is_running job.status)) _ _ refl
          (set_event-IsAnswered (cancellation j w.active)))

  -- If `request_cancellation` answers false, it has changed nothing; if it answers true, the event of
  -- the job's dispatch is set, or the job has ended and has a finish time.
  pub request_cancellation-IsAnswered : IsAnswered j w (request_cancellation env j w)
  unfolding request_cancellation
  request_cancellation-IsAnswered = cancel_found-IsAnswered (get_job j w.db)
