-- ===== src/Examples/Services.antt =====
-- The services on small tables.
use recon_ledger.Prelude.{
  ℕ, ◌-◌, true, false, none, some, List, [], ◌∷◌, ◌≡◌, refl, arith, Text, codes, text_eq,
}
use recon_ledger.Models.Enums.{JobStatus, CollectorStatus, Category}
use recon_ledger.Models.Json.{Json}
use recon_ledger.Models.Db.{Job, Finding, Database}
use recon_ledger.Services.Retention.{sweep}
use recon_ledger.Services.Retention.Rows.{IsSwept, sweep-IsSwept}
use recon_ledger.Services.Diff.{Statuses, compute_diff}
use recon_ledger.Services.Diff.Removed.{IsFaithful, compute_diff-IsFaithful}
use recon_ledger.Services.Cache
use recon_ledger.Services.Cache.{
  CacheAccess, Stored, entry_of, get-set, get-set_expired, get-set_other,
}
use recon_ledger.Services.Search.{HasNoNul, read_phrase, fts5_phrase_query, read-fts5_phrase_query}
use recon_ledger.Examples.Jobs.{job, run}

abbrev pub finding : ℕ → Text → Text → Finding
finding i fingerprint value = record {
  id = i;
  job_id = 1;
  collector = codes "crtsh";
  category = Category.network_footprint;
  kind = codes "ct.subdomain";
  title = [];
  summary = [];
  normalized_value = Json.str value;
  raw_evidence = Json.null;
  source_url = [];
  provider_observed_at = none;
  retrieved_at = 0;
  confidence = none;
  fingerprint = fingerprint;
}

-- One finding has gone, one has changed, one has come twice.
abbrev old_findings : List Finding
old_findings = finding 1 (codes "a") (codes "x") ∷ finding 2 (codes "b") (codes "y") ∷ []

abbrev new_findings : List Finding
new_findings =
    finding 3 (codes "b") (codes "z") ∷ finding 4 (codes "c") [] ∷ finding 5 (codes "c") [] ∷ []

abbrev statuses : Statuses
statuses = (codes "crtsh", CollectorStatus.done) ∷ []

same_target : text_eq (codes "example.com") (codes "example.com") ≡ true
unfolding text_eq
same_target = refl

compute_diff-IsFaithful_example : IsFaithful old_findings new_findings statuses statuses (
    compute_diff
      (codes "example.com")
      (codes "example.com")
      old_findings
      new_findings
      statuses
      statuses)
compute_diff-IsFaithful_example =
    compute_diff-IsFaithful (codes "example.com") (codes "example.com") old_findings new_findings
      statuses statuses same_target

-- The first job has ended long ago, the second one is running.
abbrev ended : Job
ended = record (job 1 JobStatus.completed 10) { finished_at = some 20 }

abbrev database : Database
database = record {
  jobs = ended ∷ job 2 JobStatus.running 30 ∷ [];
  runs =
      run 11 1 (codes "crtsh") CollectorStatus.done
      ∷ run 12 2 (codes "crtsh") CollectorStatus.running
      ∷ [];
  findings = finding 21 (codes "a") [] ∷ [];
  events = [];
  cache = [];
  next_id = 100;
  next_event_id = 1;
}

sweep-IsSwept_example : IsSwept (1000 - 500) 2 database (sweep false 500 1000 database)
sweep-IsSwept_example = sweep-IsSwept false 500 1000 2 database

abbrev access : CacheAccess
access = record { collector = codes "crtsh"; schema_version = codes "1" }

abbrev stored : Stored
stored = record {
  status = codes "success";
  response = Json.null;
  normalized_findings = Json.null;
  ttl = 60;
  credential_scope_hash = none;
  etag = none;
  last_modified = none;
}

get-set_example :
    Cache.get 59 (codes "k") (Cache.set access 0 (codes "k") stored [])
    ≡ some (entry_of access 0 (codes "k") stored)
get-set_example = get-set access 0 59 (codes "k") stored [] (omega arith)

no_nul : HasNoNul (codes "a\"b*")
no_nul = (refl, (refl, (refl, (refl, tt))))

read-fts5_phrase_query_example :
    read_phrase (fts5_phrase_query (codes "a\"b*")) ≡ some (codes "a\"b*")
read-fts5_phrase_query_example = read-fts5_phrase_query (codes "a\"b*") no_nul
