-- ===== src/Jobs/Queue/Recovery.antt =====
-- `recover_on_startup` of backend/app/jobs/runner.py.
use recon_ledger.Prelude.{
  ℕ, Bool, true, ◌&&◌, ◌||◌, not, List, [], ◌∷◌, any, update_where, ◌==◌, ◌≡◌, refl, arith, All,
}
use recon_ledger.Models.Enums.{is_running_collector, is_pending, is_terminal_collector, is_running}
use recon_ledger.Models.Db.{Job, CollectorRun, Database}
use recon_ledger.Jobs.Queue.{recover_on_startup, interrupt, is_resumable}

-- Every run has ended, or waits to be run.
recover-All :
    (runs : List CollectorRun)
    → All
        (λ r. (is_terminal_collector r.status || is_pending r.status) ≡ true)
        (update_where (λ r. is_running_collector r.status) interrupt runs)
unfolding update_where
recover-All [] = tt
recover-All (r ∷ runs) = (ground arith, recover-All runs)

pub recover-is_settled :
    (db : Database)
    → All
        (λ r. (is_terminal_collector r.status || is_pending r.status) ≡ true)
        (recover_on_startup db).runs
unfolding recover_on_startup
recover-is_settled db = recover-All db.runs

-- whether a run of the job has not ended
abbrev pub is_unfinished : ℕ → CollectorRun → Bool
is_unfinished j r = r.job_id == j && not (is_terminal_collector r.status)

recover-any :
    (j : ℕ) (runs : List CollectorRun)
    → any (is_unfinished j) runs
      ≡ any
          (λ r. r.job_id == j && is_pending r.status)
          (update_where (λ r. is_running_collector r.status) interrupt runs)
unfolding any update_where
recover-any j [] = refl
recover-any j (r ∷ runs) = ground (arith, recover-any j runs)

-- After the recovery at startup, a job is found resumable exactly if it is running and one of its
-- collector runs had not ended before the recovery.
pub recover-is_resumable :
    (db : Database) (j : Job)
    → is_resumable (recover_on_startup db) j
      ≡ (is_running j.status && any (is_unfinished j.id) db.runs)
unfolding is_resumable recover_on_startup
recover-is_resumable db j = rw (recover-any j.id db.runs) refl
