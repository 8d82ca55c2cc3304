-- ===== src/Examples/Collectors.antt =====
-- The collectors and the reading of what they find, on concrete inputs.
use recon_ledger.Prelude.{
  ℕ, length, ap, ◌&&◌, Bool, true, false, Option, none, some, List, [], ◌∷◌, any, ◌==◌, ◌≡◌, refl,
  arith, IfAny, All, IsSortedBy, Text, codes, text_eq,
}
use recon_ledger.Models.Enums.{Category, Confidence, JobStatus}
use recon_ledger.Models.Json.{Json, str, arr, obj, num, ℤ, Items, nil, cons, end, field}
use recon_ledger.Models.Db.{Finding, Database, get_job}
use recon_ledger.Security.Errors.{GatewayError}
use recon_ledger.Services.Cache
use recon_ledger.Services.Cache.{CacheAccess, Stored, fresh, find_entry}
use recon_ledger.Services.Cache.Replay.{
  Operation, store, purge, perform_all, perform_all_on_view, expected, get-perform_all,
}
use recon_ledger.Services.Subdomains.{extract, aggregate_subdomains, is_in_scope}
use recon_ledger.Services.Subdomains.Rows.{subdomain_of, is_named, any-aggregate_subdomains}
use recon_ledger.Collectors.Contract.{CollectedFinding}
use recon_ledger.Collectors.Context.{
  Answer, Surroundings, Session, replied, refused, broken, done, pure,
}
use recon_ledger.Collectors.Caching.{findings_value, findings_in}
use recon_ledger.Collectors.Caching.RoundTrip.{ReadsTimes, findings_in-findings_value}
use recon_ledger.Collectors.Caching.Access.{Asking, get_cached_findings, cached_or_asked}
use recon_ledger.Collectors.Caching.Remembered.{cached_or_asked_again}
use recon_ledger.Collectors.Wayback.{Row, ByUrl, ArchivedUrl, aggregate_by_url}
use recon_ledger.Collectors.Wayback.Scope.{AreSound, aggregate_by_url-AreSound}
use recon_ledger.Collectors.Wayback.Choice.{select_representative}
use recon_ledger.Collectors.Wayback.Run.{fetch_samples}
use recon_ledger.Collectors.Wayback.Budget.{IsCapped, IsTyped, HasFetched, fetch_samples-HasFetched}
use recon_ledger.Collectors.Crtsh.{Names, take_certs}
use recon_ledger.Collectors.Crtsh.Scope.{IsObserved, take_certs-IsObserved}
use recon_ledger.Collectors.Technology.Evidence
use recon_ledger.Collectors.Technology.Evidence.{take_findings-AreSound}
use recon_ledger.Collectors.Technology.Rules.{Strings, take_findings}
use recon_ledger.Api.JobReads.{Query, list_findings}
use recon_ledger.Api.JobReads.Answers.{is_wanted, any-list_findings}
use recon_ledger.Examples.Jobs.{job}
use recon_ledger.Examples.Services.{finding}
use recon_ledger.Examples.Api.{urls}

abbrev access : CacheAccess
access = record { collector = codes "crtsh"; schema_version = codes "1" }

abbrev value : Text → Stored
value status = record {
  status = status;
  response = Json.null;
  normalized_findings = Json.null;
  ttl = 60;
  credential_scope_hash = none;
  etag = none;
  last_modified = none;
}

-- a purge between two stores under one key
abbrev operations : List Operation
operations =
    store access 0 (codes "k") (value (codes "old"))
    ∷ purge
    ∷ store access 5 (codes "k") (value (codes "new"))
    ∷ []

get-perform_all_example :
    Cache.get 50 (codes "k") (perform_all operations [])
    ≡ expected 50 (codes "k") (perform_all_on_view operations (λ k. none) (codes "k"))
get-perform_all_example = get-perform_all operations 50 (codes "k")

-- Times are written as one character. The gateway answers every request with two bytes.
abbrev read_time : Text → Option ℕ
read_time (t ∷ []) = some t
read_time _ = none

abbrev pub surroundings : Surroundings
surroundings = record {
  fetch = λ i r. refused GatewayError.deny_list_unpopulated;
  clock = λ i. i;
  loads = λ t. some Json.null;
  loads_error = λ t. [];
  dumps = λ v. [];
  sha256 = λ t. t;
  isoformat = λ t. t ∷ [];
  fromisoformat = read_time;
  decode = λ t. t;
  show = λ v. [];
  strip = λ t. t;
  lower = λ t. t;
  with_params = λ t ps. t;
  access = access;
  target = codes "a.com";
}

reads_times : ReadsTimes surroundings
reads_times = record { reads = λ t. refl; reads_no_empty = refl }

abbrev found : CollectedFinding
found = record {
  category = Category.network_footprint;
  kind = codes "ct.subdomain";
  title = codes "www.a.com";
  summary = [];
  normalized_value = obj end;
  raw_evidence = Json.null;
  source_url = [];
  retrieved_at = 7;
  fingerprint = codes "f";
  provider_observed_at = some 3;
  confidence = some Confidence.low;
}

findings_in-findings_value_example :
    findings_in surroundings (findings_value surroundings (found ∷ [])) ≡ some (found ∷ [])
findings_in-findings_value_example =
    findings_in-findings_value surroundings reads_times (found ∷ [])

abbrev pub first_session : Session
first_session = record { sent = []; cache = []; cache_hit = false; readings = 0 }

abbrev asked_session : Session
asked_session = record { sent = []; cache = []; cache_hit = false; readings = 1 }

abbrev finds_one : Asking surroundings
finds_one = pure (found ∷ [], Json.null)

nothing_cached :
    get_cached_findings surroundings (codes "k") first_session ≡ (done none, asked_session)
unfolding get_cached_findings
nothing_cached = refl

-- a later run, which would find nothing
abbrev later_session : Session
later_session = record {
  sent = [];
  cache = (cached_or_asked surroundings (codes "k") 60 10 finds_one first_session).1.cache;
  cache_hit = false;
  readings = 20;
}

abbrev finds_none : Asking surroundings
finds_none = pure ([], Json.null)

cached_or_asked_again_example :
    ((cached_or_asked surroundings (codes "k") 60 10 finds_one first_session).0 ≡ done (found ∷ []))
    × (cached_or_asked surroundings (codes "k") 60 10 finds_none later_session
        ≡ (done (found ∷ []), record later_session { cache_hit = true; readings = 21 }))
cached_or_asked_again_example =
    cached_or_asked_again surroundings reads_times (codes "k") 60 10 finds_one first_session
      asked_session asked_session (found ∷ []) Json.null nothing_cached refl finds_none
      later_session refl (omega arith)

abbrev cdx_rows : List Row
cdx_rows =
    ((codes "original", codes "http://www.a.com/")
      ∷ (codes "timestamp", codes "2002")
      ∷ (codes "statuscode", codes "200")
      ∷ [])
    ∷ ((codes "original", codes "http://www.a.com/") ∷ (codes "timestamp", codes "2001") ∷ [])
    ∷ []

aggregate_by_url-AreSound_example :
    AreSound urls (codes "a.com") (aggregate_by_url urls cdx_rows (codes "a.com"))
aggregate_by_url-AreSound_example = aggregate_by_url-AreSound urls (codes "a.com") cdx_rows

-- A gateway that answers with nothing but the status 200.
abbrev pub answering : Surroundings
answering = record surroundings {
  fetch = λ i r. replied (record { status_code = 200; content = [] });
}

abbrev size_of : Answer → ℕ
size_of (replied p) = length p.content
size_of (refused e) = 0
size_of broken = 0

pub answering-IsCapped : IsCapped answering
answering-IsCapped i r p n h m =
    let empty : 0 ≡ length p.content = ap size_of h in omega (arith, empty)

pub answering-IsTyped : IsTyped answering
answering-IsTyped i r h = absurd (cc)

abbrev archived : ArchivedUrl
archived = record {
  url = codes "http://www.a.com/";
  first_seen = codes "2001";
  last_seen = codes "2002";
  mimetype = none;
  statuscode = some (codes "200");
  extension = none;
  best_timestamp = codes "2002";
  best_statuscode = some (codes "200");
}

abbrev by_url : ByUrl
by_url = (codes "http://www.a.com/", archived) ∷ []

fetch_samples-HasFetched_example :
    HasFetched 20 5000000 first_session
      (fetch_samples answering (select_representative by_url) 5000000 first_session)
fetch_samples-HasFetched_example =
    fetch_samples-HasFetched answering answering-IsCapped answering-IsTyped by_url first_session

abbrev names : Names
names = record { strip = λ t. t; lower = λ t. t; idna = λ t. some t; show = λ v. [] }

-- a certificate with a wildcard and a name that only looks alike
abbrev certificates : Items
certificates =
    cons
      (obj (
        field (codes "id") (num (ℤ.pos 9)) (
          field (codes "name_value") (str (codes "*.www.a.com\nba.com"))
            (field (codes "issuer_name") (str (codes "CA")) end))))
      nil

take_certs-IsObserved_example :
    IfAny (All (IsObserved (codes "a.com"))) (take_certs names (codes "a.com") certificates [])
take_certs-IsObserved_example = take_certs-IsObserved (codes "a.com") names certificates [] tt

abbrev nameservers : Finding
nameservers = record (finding 1 (codes "a") []) {
  kind = codes "dns.ns";
  normalized_value =
      obj (field (codes "nameservers") (arr (cons (str (codes "x.ns.cloudflare.com")) nil)) end);
}

abbrev strings : Strings
strings = record {
  lower = λ t. t;
  strip = λ t. t;
  show = λ v. [];
  repr = λ t. t;
  generator = λ t. none;
}

take_findings-AreSound_example :
    IfAny
      (Evidence.AreSound (nameservers ∷ nameservers ∷ []))
      (take_findings strings (nameservers ∷ nameservers ∷ []) [])
take_findings-AreSound_example = take_findings-AreSound strings (nameservers ∷ nameservers ∷ [])

abbrev named : Finding
named = record (finding 2 (codes "b") []) {
  normalized_value = obj (field (codes "subdomain") (str (codes "www.a.com")) end);
}

any-aggregate_subdomains_example :
    (any
        (λ r. text_eq (codes "www.a.com") r.subdomain)
        (aggregate_subdomains (codes "a.com") (named ∷ []))
      ≡ (is_in_scope (codes "a.com") (codes "www.a.com")
          && any (λ f. is_named (codes "www.a.com") (extract f)) (named ∷ [])))
    × IsSortedBy subdomain_of (aggregate_subdomains (codes "a.com") (named ∷ []))
any-aggregate_subdomains_example =
    any-aggregate_subdomains (codes "a.com") (codes "www.a.com") (named ∷ [])

abbrev tables : Database
tables = record {
  jobs = job 1 JobStatus.completed 10 ∷ [];
  runs = [];
  findings = named ∷ nameservers ∷ [];
  events = [];
  cache = [];
  next_id = 100;
  next_event_id = 10;
}

-- every finding matches
abbrev matches : Text → Finding → Bool
matches q f = true

abbrev query : Query
query = record {
  q = some (codes "www");
  category = some Category.network_footprint;
  collector = none;
}

job_there : get_job 1 tables ≡ some (job 1 JobStatus.completed 10)
unfolding get_job
job_there = refl

any-list_findings_example :
    (fs : List Finding) × (list_findings matches 1 query tables ≡ some fs)
    × (any (λ f. f.id == 2) fs
        ≡ any (λ f. f.id == 2 && is_wanted matches 1 query tables.findings f) tables.findings)
any-list_findings_example =
    any-list_findings matches 1 query (λ f. f.id == 2) tables (job 1 JobStatus.completed 10)
      job_there
