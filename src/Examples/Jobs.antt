-- ===== src/Examples/Jobs.antt =====
-- The job runner on a small database.
use recon_ledger.Prelude.{
  ℕ, ◌==◌, ◌+◌, true, false, none, List, [], ◌∷◌, ◌≡◌, ◌≢◌, refl, any, not, ◌&&◌, filter, Text,
  codes,
}
use recon_ledger.Models.Enums.{TargetType, JobStatus, CollectorStatus, is_queued, is_pending}
use recon_ledger.Models.Db.{Job, CollectorRun, Database, get_job}
use recon_ledger.Security.Errors.{Formatting, provider_timeout}
use recon_ledger.Collectors.Contract.{CollectorMetadata}
use recon_ledger.Collectors.Registry.{CollectorRegistry}
use recon_ledger.Collectors.Errors.{
  resulting_status, translate_gateway_error, resulting_status-translate,
}
use recon_ledger.Jobs.World.{Surroundings, World, gateway_raised, writing}
use recon_ledger.Jobs.Queue.{recover_on_startup, is_resumable}
use recon_ledger.Jobs.Queue.Claims.{IsClaimed, claim_next-IsClaimed}
use recon_ledger.Jobs.Queue.Recovery.{recover-is_resumable, is_unfinished}
use recon_ledger.Jobs.Queue.{request_cancellation}
use recon_ledger.Jobs.Tasks.{Task, waiting}
use recon_ledger.Jobs.Dispatch
use recon_ledger.Jobs.Dispatch.{Turn, task, request, cancel, resume, Ran, run_job, is_deferred}
use recon_ledger.Jobs.Dispatch.Requests.{NoRetry}
use recon_ledger.Jobs.Dispatch.Endings.{IsOver}
use recon_ledger.Jobs.Dispatch.Outcome.{run_job-IsOver}
use recon_ledger.Jobs.Dispatch.Returns.{HasReturned, run_job-HasReturned}
use recon_ledger.Jobs.Startup.{lifespan, serve, restart-IsOver}
use recon_ledger.Jobs.Dispatch.Cancellation.{IsAnswered, request_cancellation-IsAnswered}
use recon_ledger.Jobs.Service.{JobCreateRequest, create_job}
use recon_ledger.Jobs.Service.Creation.{IsCreated, create_job-IsCreated}
use recon_ledger.Examples.Gateway.{unicode}

abbrev collector : Text → CollectorMetadata
collector name = record {
  name = name;
  display_name = name;
  supported_targets = TargetType.domain ∷ [];
  categories = [];
  required_credentials = [];
  provider_hosts = [];
  key_help_url = none;
  rate_policy = record { requests_per_period = 1; period_seconds = 1; burst = 1; concurrency = 1 };
  cache_policy = record {
    positive_ttl_seconds = 60;
    negative_ttl_seconds = 60;
    schema_version = codes "1";
  };
  request_timeout_seconds = none;
  test_only = false;
}

abbrev crtsh : Text
crtsh = codes "crtsh"

abbrev technology : Text
technology = codes "technology"

abbrev registry : CollectorRegistry
registry = collector crtsh ∷ collector technology ∷ []

abbrev formatting : Formatting
formatting = record { repr = λ t. t; decimal = λ n. [] }

-- Every collector runs into a timeout of its provider.
abbrev env : Surroundings
env = record {
  clock = λ n. 1000 + n;
  retention = 500;
  cascade = true;
  registry = registry;
  seeds = λ j. true;
  collect = λ name j db. (gateway_raised (provider_timeout (codes "crt.sh")) false, db.cache);
  formatting = formatting;
  stores = λ fs. true;
}

abbrev pub job : ℕ → JobStatus → ℕ → Job
job i status created_at = record {
  id = i;
  target_input = codes "example.com";
  target_normalized = codes "example.com";
  target_type = TargetType.domain;
  status = status;
  scope_note = none;
  attestation_text = [];
  attestation_version = [];
  attestation_time = created_at;
  selected_sources = [];
  created_at = created_at;
  started_at = none;
  finished_at = none;
}

abbrev pub run : ℕ → ℕ → Text → CollectorStatus → CollectorRun
run i j name status = record {
  id = i;
  job_id = j;
  collector = name;
  status = status;
  attempt_count = 0;
  cache_hit = false;
  finding_count = 0;
  safe_error_code = none;
  safe_error_message = none;
  started_at = none;
  finished_at = none;
}

abbrev database : List CollectorRun → Database
database runs = record {
  jobs = job 1 JobStatus.running 10 ∷ job 2 JobStatus.queued 30 ∷ job 3 JobStatus.queued 20 ∷ [];
  runs = runs;
  findings = [];
  events = [];
  cache = [];
  next_id = 100;
  next_event_id = 1;
}

-- two pending runs of the first job
abbrev world : World
world = record {
  db =
      database
        (run 11 1 crtsh CollectorStatus.queued ∷ run 12 1 technology CollectorStatus.queued ∷ []);
  active = [];
  retries = [];
  ticks = 0;
}

-- the process stopped while the first run was going on
abbrev stopped : World
stopped = record {
  db =
      database
        (run 11 1 crtsh CollectorStatus.running ∷ run 12 1 technology CollectorStatus.queued ∷ []);
  active = [];
  retries = [];
  ticks = 0;
}

-- The user cancels after the first turn.
abbrev interrupted : List Turn
interrupted = task 0 ∷ request (cancel 1) ∷ task 0 ∷ []

known : get_job 1 world.db ≢ none
unfolding get_job
known e = absurd (cc)

-- the restarted process, which has cancelled another job
abbrev served : World
served = serve env (cancel 2 ∷ []) (lifespan env stopped).1

known_served : get_job 1 served.db ≢ none
unfolding get_job serve lifespan
known_served e = absurd (cc)

idle_served : NoRetry 1 served.retries
unfolding serve lifespan
idle_served = tt

run_job-IsOver_example : IsOver 1 (run_job env interrupted [] 1 world)
run_job-IsOver_example = run_job-IsOver env 1 interrupted [] world known (refl, (refl, tt)) tt

run_job-HasReturned_example : HasReturned (run_job env (task 0 ∷ []) [] 1 world)
run_job-HasReturned_example =
    run_job-HasReturned env 1 (task 0 ∷ []) [] (λ fs. refl) world (refl, tt) tt

restart-IsOver_example : IsOver 1 (run_job env interrupted [] 1 served)
restart-IsOver_example =
    restart-IsOver env 1 (cancel 2 ∷ []) interrupted [] stopped known_served idle_served

two_queued : any (λ j. is_queued j.status) world.db.jobs ≡ true
unfolding any
two_queued = refl

claim_next-IsClaimed_example : (k : Job) × IsClaimed 50 world.db k
claim_next-IsClaimed_example =
    claim_next-IsClaimed 50 world.db ((refl, (refl, tt)), ((refl, tt), (tt, tt))) two_queued

recover-is_resumable_example :
    is_resumable (recover_on_startup stopped.db) (job 1 JobStatus.running 10)
    ≡ (true && any (is_unfinished 1) stopped.db.runs)
recover-is_resumable_example = recover-is_resumable stopped.db (job 1 JobStatus.running 10)

request_cancellation-IsAnswered_example : IsAnswered 2 world (request_cancellation env 2 world)
request_cancellation-IsAnswered_example = request_cancellation-IsAnswered env 2 world

abbrev job_request : JobCreateRequest
job_request = record {
  target = codes "example.com";
  selected_sources = crtsh ∷ technology ∷ [];
  scope_note = none;
  attestation_confirmed = true;
}

create_job-IsCreated_example :
    IsCreated unicode job_request registry world.db
      (create_job unicode 40 job_request registry world.db)
create_job-IsCreated_example = create_job-IsCreated unicode 40 job_request registry world.db

resulting_status-translate_example :
    resulting_status (translate_gateway_error formatting crtsh (provider_timeout crtsh))
    ≡ CollectorStatus.failed
resulting_status-translate_example =
    resulting_status-translate formatting crtsh (provider_timeout crtsh)

-- the first job in flight, its two runs with their tasks
abbrev flying : World
flying = record world { active = (1, false) ∷ [] }

abbrev pending : List Task
pending =
    record { run_id = 11; collector = crtsh; phase = waiting }
    ∷ record { run_id = 12; collector = technology; phase = waiting }
    ∷ []

abbrev immediate : List Task
immediate = filter (λ t. not (is_deferred t)) pending

-- A retry that has passed its check before the dispatch began, and commits when the run has ended: the run
-- is queued when `run_job` returns.
abbrev late_retry : World
late_retry = record world {
  retries =
      record {
        job_id = 1;
        collector = crtsh;
        loaded = job 1 JobStatus.failed 10;
        stage = writing (run 11 1 crtsh CollectorStatus.failed);
      }
      ∷ [];
}

abbrev late_commit : List Turn
late_commit = task 0 ∷ task 0 ∷ task 0 ∷ task 0 ∷ task 0 ∷ request (resume 0) ∷ []

abbrev runs_after : Ran → List CollectorRun
runs_after (Dispatch.returned w) = w.db.runs
runs_after (Dispatch.raised w) = []

still_queued :
    any
      (λ r. r.id == 11 && is_pending r.status)
      (runs_after (run_job env late_commit [] 1 late_retry))
    ≡ true
unfolding run_job any
still_queued = refl
