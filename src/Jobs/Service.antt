-- ===== src/Jobs/Service.antt =====
-- `create_job` of backend/app/jobs/service.py, on a request that the schema has accepted.
pub mod Creation
use recon_ledger.Prelude.{
  ℕ, ◌+◌, suc, Bool, true, false, not, Option, none, some, List, [], ◌∷◌, ◌++◌, map, filter, any,
  length, if◌then◌else◌, ◌≡◌, refl, arith, All, Bool-cases, inl, inr, Text, text_eq, codes,
  mem_text,
}
use recon_ledger.Models.Enums.{JobStatus, CollectorStatus}
use recon_ledger.Models.Db.{Job, CollectorRun, Database}
use recon_ledger.Collectors.Registry.{CollectorRegistry}
use recon_ledger.Security.Targets.{
  TargetValidationError, ClassifiedTarget, Classified, Unicode, classify_target,
}
use recon_ledger.Security.Targets

-- `JobCreateRequest` of backend/app/models/api.py
pub record JobCreateRequest : Type 0 where
  pub target : Text
  pub selected_sources : List Text
  pub scope_note : Option Text
  pub attestation_confirmed : Bool

pub data JobCreationError : Type 0 where
  not_confirmed not_assessable : JobCreationError
  invalid_target : TargetValidationError → JobCreationError
  unknown_sources : List Text → JobCreationError

pub data Created : Type 0 where
  created : Job → Database → Created
  refused : JobCreationError → Created

abbrev pub attestation_version : Text
attestation_version = codes "1.0"

abbrev pub attestation_text : Text
attestation_text =
    codes "I own this target, or I have written authorization from its owner, to conduct "
    ++ codes "a passive reconnaissance assessment against it using only third-party data providers."

-- `c.metadata.name for c in registry.all()`
unfoldable pub known_names : CollectorRegistry → List Text
known_names registry = map (λ c. c.name) registry

-- one queued run for each name, with keys from `n` on
unfoldable pub queued_runs : ℕ → ℕ → List Text → List CollectorRun
queued_runs job n [] = []
queued_runs job n (name ∷ names) =
    record {
      id = n;
      job_id = job;
      collector = name;
      status = CollectorStatus.queued;
      attempt_count = 0;
      cache_hit = false;
      finding_count = 0;
      safe_error_code = none;
      safe_error_message = none;
      started_at = none;
      finished_at = none;
    }
    ∷ queued_runs job (suc n) names

abbrev pub new_job : ℕ → ℕ → JobCreateRequest → ClassifiedTarget → Job
new_job id now request target = record {
  id = id;
  target_input = request.target;
  target_normalized = target.normalized;
  target_type = target.target_type;
  status = JobStatus.queued;
  scope_note = request.scope_note;
  attestation_text = attestation_text;
  attestation_version = attestation_version;
  attestation_time = now;
  selected_sources = request.selected_sources;
  created_at = now;
  started_at = none;
  finished_at = none;
}

-- the transaction that adds the job and its runs
unfoldable pub add_job : ℕ → JobCreateRequest → ClassifiedTarget → Database → Created
unfolding queued_runs
add_job now request target db =
    let id = db.next_id in
    let job = new_job id now request target in
    created job (record db {
      jobs = db.jobs ++ job ∷ [];
      runs = db.runs ++ queued_runs id (suc id) request.selected_sources;
      next_id = suc id + length request.selected_sources;
    })

-- once the unknown sources are known
unfoldable pub add_known : ℕ → JobCreateRequest → ClassifiedTarget → Database → List Text → Created
unfolding add_job
add_known now request target db [] = add_job now request target db
add_known now request target db (name ∷ names) = refused (unknown_sources (name ∷ names))

unfoldable pub add_classified :
    ℕ → JobCreateRequest → CollectorRegistry → Database → Classified → Created
unfolding add_known known_names mem_text text_eq filter
add_classified now request registry db (Targets.err e) = refused (invalid_target e)
add_classified now request registry db (Targets.ok target) =
    if not target.assessable
    then refused not_assessable
    else add_known now request target db
        (filter (λ name. not (mem_text name (known_names registry))) request.selected_sources)

module _ (u : Unicode) where
  unfoldable pub create_job : ℕ → JobCreateRequest → CollectorRegistry → Database → Created
  unfolding add_classified classify_target
  create_job now request registry db =
      if not request.attestation_confirmed
      then refused not_confirmed
      else add_classified now request registry db (classify_target u false request.target)
