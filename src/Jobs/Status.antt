-- ===== src/Jobs/Status.antt =====
-- `_compute_job_status` of backend/app/jobs/runner.py.
use recon_ledger.Prelude.{◌&&◌, not, List, any, if◌then◌else◌}
use recon_ledger.Models.Enums.{JobStatus, CollectorStatus, is_done, is_failed}

unfoldable pub compute_job_status : List CollectorStatus → JobStatus
unfolding any
compute_job_status statuses =
    let has_done = any is_done statuses in
    let has_failed = any is_failed statuses in
    if has_done && has_failed
    then JobStatus.completed_with_warnings
    else if has_failed && not has_done
    then JobStatus.failed
    else JobStatus.completed
