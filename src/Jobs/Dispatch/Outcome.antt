-- ===== src/Jobs/Dispatch/Outcome.antt =====
-- How `run_job` leaves the job, its collector runs and the table of jobs in flight.
use recon_ledger.Prelude.{
  ℕ, true, false, not, Option, none, some, List, [], filter, any, ◌≡◌, ◌≢◌, refl, sym, arith, All,
  All-imp, All-filter, codes,
}
use recon_ledger.Models.Enums.{TargetType}
use recon_ledger.Models.Db.{Job, CollectorRun, get_job}
use recon_ledger.Jobs.World.{Surroundings, World, put_cancellation}
use recon_ledger.Jobs.Tasks.{Task}
use recon_ledger.Jobs.Dispatch.{
  Turn, is_crashed, gather, tasks_of, pending_tasks, is_deferred, finalize_job,
  fail_job_before_dispatch, dispatch, run_found, run_job,
}
use recon_ledger.Jobs.Dispatch.Coverage.{is_open, covered, IsSound}
use recon_ledger.Jobs.Dispatch.Requests.{IsSteady, NoRetry, in_flight-put_self}
use recon_ledger.Jobs.Dispatch.Gather.{gather-IsRunning}
use recon_ledger.Jobs.Dispatch.Settles.{gather-is_settled}
use recon_ledger.Jobs.Dispatch.Endings.{
  nobody, has_ended, is_ready, is_open-settled, is_open-split, is_open-nil, has_ended_of_covered,
  tasks_of-covered, tasks_of-IsSound, in_flight-pop, IsOver, IsOver-if, finalize_job-HasEnded,
  fail_job-HasEnded,
}

module _ (env : Surroundings) (j : ℕ) where
  -- the coverage that the immediate tasks leave is that of the deferred ones
  covered-immediate :
      (ts : List Task) (r : CollectorRun)
      → covered j nobody ts r ≡ true
      → covered j (λ i. is_open i (filter is_deferred ts)) (filter (λ t. not (is_deferred t)) ts) r
        ≡ true
  covered-immediate ts r h = ground (arith, is_open-split r.id is_deferred ts)

  covered-deferred :
      (ds ts : List Task) (r : CollectorRun)
      → is_open r.id ts ≡ false
      → covered j (λ i. is_open i ds) ts r ≡ true
      → covered j nobody ds r ≡ true
  covered-deferred ds ts r closed h = ground arith

  covered-alone :
      (ts : List Task) (r : CollectorRun)
      → covered j nobody ts r ≡ true
      → covered j (λ i. is_open i []) ts r ≡ true
  covered-alone ts r h = ground arith

  module _ (target : TargetType) where
    -- what `gather` leaves when no coroutine has crashed
    pub gather-covered :
        (s : List Turn) (ds ts : List Task) (w : World)
        → All IsSound ts
        → IsSteady j (λ i. is_open i ds) ts w
        → any (λ t. is_crashed t.phase) (gather env j target s ts w).0 ≡ false
        → IsSteady j nobody ds (gather env j target s ts w).1
    gather-covered s ds ts w sound h alive =
        let g = gather env j target s ts w in
        let k = gather-IsRunning env j target (λ i. is_open i ds) s ts w (sound, h) in
        (
          All-imp
              (λ r.
                covered-deferred ds g.0 r
                  (is_open-settled r.id g.0 (gather-is_settled env j target s ts w alive) alive))
              g.1.db.runs k.1.0,
          k.1.1,
        )

    pub immediate_first :
        (s : List Turn) (pending : List Task) (w : World)
        → All IsSound pending
        → IsSteady j nobody pending w
        → any
            (λ t. is_crashed t.phase)
            (gather env j target s (filter (λ t. not (is_deferred t)) pending) w).0
          ≡ false
        → IsSteady j nobody
            (filter is_deferred pending)
            (gather env j target s (filter (λ t. not (is_deferred t)) pending) w).1
    immediate_first s pending w sound h alive =
        gather-covered s (filter is_deferred pending) (filter (λ t. not (is_deferred t)) pending) w
          (All-filter _ _ pending sound) (All-imp (covered-immediate pending) w.db.runs h.0, h.1)
          alive

    deferred_last :
        (s : List Turn) (ds : List Task) (w : World)
        → All IsSound ds
        → IsSteady j nobody ds w
        → any (λ t. is_crashed t.phase) (gather env j target s ds w).0 ≡ false
        → All (λ r. has_ended j r ≡ true) (gather env j target s ds w).1.db.runs
    deferred_last s ds w sound h alive =
        let k =
          gather-covered s [] ds w sound (All-imp (covered-alone ds) w.db.runs h.0, h.1) alive in
        All-imp (λ r. has_ended_of_covered j [] r (is_open-nil r.id)) _ k.0

    dispatch-IsOver :
        (schedule later : List Turn) (pending : List Task) (w : World)
        → All IsSound pending
        → IsSteady j nobody pending w
        → IsOver j (dispatch env schedule later j target pending w)
    unfolding dispatch
    dispatch-IsOver schedule later pending w sound h =
        let ds = filter is_deferred pending in
        let g = gather env j target schedule (filter (λ t. not (is_deferred t)) pending) w in
        let d = gather env j target later ds g.1 in
        IsOver-if j (any (λ t. is_crashed t.phase) g.0) _ _ (λ _. in_flight-pop j g.1.active)
          (λ alive.
            IsOver-if j (any (λ t. is_crashed t.phase) d.0) _ _ (λ _. in_flight-pop j d.1.active)
              (λ alive'. (
                finalize_job-HasEnded env j d.1 (
                    deferred_last later ds g.1 (All-filter _ _ pending sound)
                      (immediate_first schedule pending w sound h alive) alive'),
                in_flight-pop j (finalize_job env j d.1).active,
              )))

  run_found-IsOver :
      (schedule later : List Turn) (w : World) (pending : List Task) (o : Option Job)
      → get_job j w.db ≢ none
      → o ≡ get_job j w.db
      → All IsSound pending
      → IsSteady j nobody pending w
      → IsOver j (run_found env schedule later j pending w o)
  unfolding run_found
  run_found-IsOver schedule later w pending none known e sound h = absurd (known (sym e))
  run_found-IsOver schedule later w pending (some job) known e sound h =
      IsOver-if j (env.seeds job) _ _
        (λ _. dispatch-IsOver job.target_type schedule later pending w sound h)
        (λ _. (
          fail_job-HasEnded env j (codes "deny_list_seed_failed") pending w h.0,
          in_flight-pop j
              (fail_job_before_dispatch env j pending (codes "deny_list_seed_failed") w).active,
        ))

  -- However the collectors and the requests are interleaved: when `run_job` has returned, the job has
  -- ended with a finish time and so has each of its collector runs; returned or raised, the job is no
  -- longer in flight; if before the job is there, none of its runs is in the state running, and no retry
  -- for it has passed its check of `is_active` without having committed.
  pub run_job-IsOver :
      (schedule later : List Turn) (w : World)
      → get_job j w.db ≢ none
      → All (λ r. is_ready j r ≡ true) w.db.runs
      → NoRetry j w.retries
      → IsOver j (run_job env schedule later j w)
  unfolding run_job pending_tasks
  run_job-IsOver schedule later w known ready idle =
      run_found-IsOver schedule later (record w { active = put_cancellation j false w.active })
        (tasks_of j w.db.runs) (get_job j w.db) known refl (tasks_of-IsSound j w.db.runs)
        (tasks_of-covered j w.db.runs ready, (in_flight-put_self j false w.active, idle))
