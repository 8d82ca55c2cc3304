-- ===== src/Services/Retention.antt =====
-- backend/app/services/retention.py: the sweep of finished jobs and expired cache entries. SQLite
-- removes the rows of a deleted job only where the connection has foreign keys enabled
-- (backend/app/db/session.py sets that on one connection), so this is an argument, `cascade`.
pub mod Rows
use recon_ledger.Prelude.{
  ℕ, ◌-◌, Bool, ◌&&◌, none, some, false, List, filter, delete_where, any, leb, ltb, ◌==◌,
}
use recon_ledger.Models.Enums.{is_terminal_job}
use recon_ledger.Models.Db.{Job, CacheEntry, Database}

-- `Job.status.in_(TERMINAL_JOB_STATUSES) & (Job.finished_at < cutoff)`: NULL is not below anything
unfoldable pub is_expired_job : ℕ → Job → Bool
is_expired_job cutoff j =
    is_terminal_job j.status && elim j.finished_at [ none ↦ false | some t ↦ ltb t cutoff ]

-- `CacheEntry.expires_at <= now`
abbrev pub is_expired_entry : ℕ → CacheEntry → Bool
is_expired_entry now e = leb e.expires_at now

-- a row of a table with `ondelete="CASCADE"` that belongs to one of these jobs
unfoldable pub belongs_to_any : List Job → ℕ → Bool
unfolding any
belongs_to_any js j = any (λ k. k.id == j) js

-- DELETE FROM jobs, with what the foreign keys remove
unfoldable pub delete_jobs : Bool → (Job → Bool) → Database → Database
unfolding belongs_to_any delete_where filter
delete_jobs cascade p db =
    let gone = filter p db.jobs in
    let owned = λ (j : ℕ). cascade && belongs_to_any gone j in
    record db {
      jobs = delete_where p db.jobs;
      runs = delete_where (λ r. owned r.job_id) db.runs;
      findings = delete_where (λ f. owned f.job_id) db.findings;
      events = delete_where (λ e. owned e.job_id) db.events;
    }

unfoldable pub sweep : Bool → ℕ → ℕ → Database → Database
unfolding delete_jobs is_expired_job
sweep cascade retention now db =
    let db' = delete_jobs cascade (is_expired_job (now - retention)) db in
    record db' { cache = delete_where (is_expired_entry now) db.cache }
