-- ===== src/Jobs/Tasks.antt =====
-- `_run_one_collector` and `_finish_collector` of backend/app/jobs/runner.py, as the transactions
-- between which the event loop may turn to something else.
use recon_ledger.Prelude.{
  ℕ, ◌+◌, Bool, true, false, not, Option, none, some, List, [], ◌∷◌, ◌++◌, length, find,
  update_where, ◌==◌, if◌then◌else◌, Text, text_eq, codes,
}
use recon_ledger.Models.Enums.{CollectorStatus, TargetType, target_type_value}
use recon_ledger.Models.Db.{CollectorRun, Finding, Message, Database, EventType, Payload, get_run}
use recon_ledger.Collectors.Contract.{CollectorMetadata, CollectedFinding}
use recon_ledger.Collectors.Errors.{
  CollectorError, target_not_applicable, collector_error_code, resulting_status,
  collector_error_message, translate_gateway_error,
}
use recon_ledger.Collectors.Registry
use recon_ledger.Collectors.Registry.{supports}
use recon_ledger.Jobs.Events.{emit}
use recon_ledger.Jobs.World.{
  Outcome, returned, raised, gateway_raised, unexpected, Surroundings, World, at_now, is_set,
}

-- The arguments of `_finish_collector`.
pub record Verdict : Type 0 where
  pub status : CollectorStatus
  pub safe_error_code : Option Text
  pub safe_error_message : Option Message
  pub finding_count : ℕ
  pub cache_hit : Bool

-- Where the coroutine of one collector run stands.
pub data Phase : Type 0 where
  waiting started collecting : Phase
  persisting : List CollectedFinding → Bool → Phase
  finishing : Verdict → Phase
  -- `crashed`: left by an exception, on the missing row or in the transaction of the findings
  finished crashed : Phase

pub record Task : Type 0 where
  pub run_id : ℕ
  pub collector : Text
  pub phase : Phase

unfoldable pub failure : Text → Message → Bool → Verdict
failure code message hit = record {
  status = CollectorStatus.failed;
  safe_error_code = some code;
  safe_error_message = some message;
  finding_count = 0;
  cache_hit = hit;
}

-- the verdict on a `CollectorError`
unfoldable pub of_error : CollectorError → Bool → Verdict
unfolding collector_error_code resulting_status collector_error_message
of_error e hit = record {
  status = resulting_status e;
  safe_error_code = some (collector_error_code e);
  safe_error_message = some (collector_error_message e);
  finding_count = 0;
  cache_hit = hit;
}

unfoldable pub success : ℕ → Bool → Verdict
success count hit = record {
  status = CollectorStatus.done;
  safe_error_code = none;
  safe_error_message = none;
  finding_count = count;
  cache_hit = hit;
}

abbrev pub start_run : ℕ → CollectorRun → CollectorRun
start_run now r = record r {
  status = CollectorStatus.running;
  started_at = some now;
  attempt_count = r.attempt_count + 1;
}

unfoldable pub start_collector : ℕ → ℕ → Text → ℕ → Database → Database
unfolding update_where emit
start_collector job_id run_id name now db =
    emit now job_id (some name) EventType.collector_started Payload.empty
      (record db { runs = update_where (λ r. r.id == run_id) (start_run now) db.runs })

abbrev pub finish_run : Verdict → ℕ → CollectorRun → CollectorRun
finish_run v now r = record r {
  status = v.status;
  finished_at = some now;
  safe_error_code = v.safe_error_code;
  safe_error_message = v.safe_error_message;
  finding_count = v.finding_count;
  cache_hit = v.cache_hit;
}

-- `_finish_collector`
unfoldable pub finish_collector : ℕ → ℕ → Text → Verdict → ℕ → Database → Database
unfolding update_where emit
finish_collector job_id run_id name v now db =
    emit now job_id (some name) EventType.collector_finished
      (Payload.finished_collector v.status v.finding_count)
      (record db { runs = update_where (λ r. r.id == run_id) (finish_run v now) db.runs })

-- The rows for a list of findings, with ids from a counter.
unfoldable pub finding_rows : ℕ → Text → ℕ → List CollectedFinding → List Finding
finding_rows job_id name next [] = []
finding_rows job_id name next (f ∷ fs) =
    record {
      id = next;
      job_id = job_id;
      collector = name;
      category = f.category;
      kind = f.kind;
      title = f.title;
      summary = f.summary;
      normalized_value = f.normalized_value;
      raw_evidence = f.raw_evidence;
      source_url = f.source_url;
      provider_observed_at = f.provider_observed_at;
      retrieved_at = f.retrieved_at;
      confidence = f.confidence;
      fingerprint = f.fingerprint;
    }
    ∷ finding_rows job_id name (next + 1) fs

unfoldable pub persist_findings : ℕ → Text → List CollectedFinding → Database → Database
unfolding finding_rows
persist_findings job_id name fs db = record db {
  findings = db.findings ++ finding_rows job_id name db.next_id fs;
  next_id = db.next_id + length fs;
}

module _ (env : Surroundings) where
  -- what the runner makes of the collector's result
  unfoldable pub after_collect : Text → Outcome → Phase
  unfolding of_error failure translate_gateway_error
  after_collect name (returned fs hit) = persisting fs hit
  after_collect name (raised e hit) = finishing (of_error e hit)
  after_collect name (gateway_raised e hit) =
      finishing (of_error (translate_gateway_error env.formatting name e) hit)
  after_collect name (unexpected hit) =
      finishing (failure (codes "unexpected_error") Message.unexpected_internal_error hit)

  -- the checks between the first transaction and the collector
  unfoldable pub check_found : TargetType → Text → Bool → Option CollectorMetadata → Phase
  unfolding failure of_error supports
  check_found target name cancelled none =
      finishing (failure (codes "unknown_collector") (Message.not_registered name) false)
  check_found target name cancelled (some c) =
      if not (supports c target)
      then finishing (of_error (target_not_applicable name (target_type_value target)) false)
      else if cancelled
      then finishing (failure (codes "cancelled") (Message.was_cancelled name) false)
      else collecting

  unfoldable pub check_collector : TargetType → Text → Bool → Phase
  unfolding check_found Registry.get find text_eq
  check_collector target name cancelled =
      check_found target name cancelled (Registry.get env.registry name)

  -- the first transaction, with its `assert run is not None`
  unfoldable pub begin_run : ℕ → Task → World → Option CollectorRun → Task × World
  unfolding at_now start_collector
  begin_run job_id t w none = (record t { phase = crashed }, w)
  begin_run job_id t w (some _) =
      (record t { phase = started }, at_now env (start_collector job_id t.run_id t.collector) w)

  -- the transaction that adds the findings: when it commits, and when it raises
  unfoldable pub persist : ℕ → Task → List CollectedFinding → Bool → World → Bool → Task × World
  unfolding persist_findings success
  persist job_id t fs hit w true = (
    record t { phase = finishing (success (length fs) hit) },
    record w { db = persist_findings job_id t.collector fs w.db },
  )
  persist job_id t fs hit w false = (record t { phase = crashed }, w)

  -- one turn of the coroutine, by where it stands
  unfoldable pub turn : Phase → ℕ → TargetType → Task → World → Task × World
  unfolding begin_run at_now finish_collector persist check_collector after_collect is_set get_run
      find
  turn waiting job_id target t w = begin_run job_id t w (get_run t.run_id w.db)
  turn started job_id target t w =
      (record t { phase = check_collector target t.collector (is_set job_id w.active) }, w)
  turn collecting job_id target t w =
      let (o, entries) = env.collect t.collector job_id w.db in
      (
        record t { phase = after_collect t.collector o },
        record w { db = record (w.db) { cache = entries } },
      )
  turn (persisting fs hit) job_id target t w = persist job_id t fs hit w (env.stores fs)
  turn (finishing v) job_id target t w =
      (record t { phase = finished }, at_now env (finish_collector job_id t.run_id t.collector v) w)
  turn finished job_id target t w = (t, w)
  turn crashed job_id target t w = (t, w)

  unfoldable pub advance : ℕ → TargetType → Task → World → Task × World
  unfolding turn
  advance job_id target t w = turn t.phase job_id target t w
