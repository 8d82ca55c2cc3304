-- ===== src/Collectors/Rdap/Run.antt =====
-- `_fetch_bootstrap` and `run` of backend/app/collectors/rdap.py.
use recon_ledger.Prelude.{
  ◌||◌, not, Option, none, some, List, [], ◌∷◌, ◌++◌, split, mem_text, ends_with, if◌then◌else◌,
  ◌==◌, Text, codes, text_eq,
}
use recon_ledger.Models.Enums.{TargetType}
use recon_ledger.Models.Json.{Json, ℤ, num, str, obj, Items, nil, cons, end, field}
use recon_ledger.Models.Db.{CacheEntry}
use recon_ledger.Security.Errors.{Formatting}
use recon_ledger.Collectors.Contract.{CollectedFinding}
use recon_ledger.Collectors.Errors.{provider_unavailable, provider_schema_error}
use recon_ledger.Collectors.Context.{
  Surroundings, Request, Reply, collector_failure, Collecting, ◌>>=◌, ◌>>◌, pure, raise, lift,
  or_uncaught, gateway_get, parse_json_safely, cache_get, cache_set, utcnow, compute_cache_key,
}
use recon_ledger.Collectors.Caching.Access.{get_cached_findings, store_findings_in_cache}
use recon_ledger.Collectors.Rdap.{
  Service, Reading, bootstrap_host, parse_bootstrap_services, find_dns_base_urls, find_ip_base_urls,
  all_bootstrap_hosts,
}
use recon_ledger.Collectors.Rdap.Record.{normalize_rdap_record}
use recon_ledger.Collectors.Rdap.Summary.{build_finding}

-- What httpx and `ipaddress` read, and the formatting of messages.
module _ (w : Surroundings) (r : Reading) (f : Formatting) where
  abbrev pub bootstrap_request : Text → Request
  bootstrap_request url = record {
    url = url;
    allowed_hosts = bootstrap_host ∷ [];
    headers = [];
    timeout_seconds = none;
    max_response_bytes = none;
    allow_redirect_to = none;
  }

  abbrev bootstrap_key : Text → Text
  bootstrap_key url = compute_cache_key w (codes "rdap") (codes "1") url (codes "bootstrap") none

  unfoldable pub ask_bootstrap : Text → Collecting (List Service)
  unfolding gateway_get parse_json_safely parse_bootstrap_services cache_set compute_cache_key
  ask_bootstrap url = do
    response ← gateway_get w (bootstrap_request url)
    value ← parse_json_safely w response bootstrap_host
    services ← lift (parse_bootstrap_services value)
    cache_set w (bootstrap_key url) (record {
      status = codes "success";
      response = value;
      normalized_findings = obj end;
      ttl = 86400;
      credential_scope_hash = none;
      etag = none;
      last_modified = none;
    })
    pure services

  abbrev cached_services : Text → Option CacheEntry → Collecting (List Service)
  cached_services url none = ask_bootstrap url
  cached_services url (some e) = lift (parse_bootstrap_services e.response)

  -- `_fetch_bootstrap`
  unfoldable pub fetch_bootstrap : Text → Collecting (List Service)
  unfolding cache_get ask_bootstrap parse_bootstrap_services compute_cache_key
  fetch_bootstrap url = cache_get w (bootstrap_key url) >>= cached_services url

  abbrev pub last_of : List Text → Text
  last_of [] = []
  last_of (t ∷ []) = t
  last_of (t ∷ u ∷ us) = last_of (u ∷ us)

  abbrev pub bootstrap_url : TargetType → Text
  bootstrap_url TargetType.domain = codes "https://data.iana.org/rdap/dns.json"
  bootstrap_url _ =
      if r.is_version_4
      then codes "https://data.iana.org/rdap/ipv4.json"
      else codes "https://data.iana.org/rdap/ipv6.json"

  unfoldable pub base_urls_of : TargetType → List Service → Items
  unfolding find_dns_base_urls find_ip_base_urls split
  base_urls_of TargetType.domain services =
      find_dns_base_urls services (last_of (split (codes ".") w.target))
  base_urls_of _ services = find_ip_base_urls r services

  abbrev pub query_path : TargetType → Text
  query_path TargetType.domain = codes "domain/" ++ w.target
  query_path _ = codes "ip/" ++ w.target

  abbrev pub with_slash : Text → Text
  with_slash url = if ends_with url (codes "/") then url else url ++ codes "/"

  -- the request to the registry: the hosts that are approved for its redirects, its base URL and its host
  abbrev pub query_request : List Text → Text → Text → Text → Request
  query_request approved base_url path registry_host = record {
    url = base_url ++ path;
    allowed_hosts = bootstrap_host ∷ registry_host ∷ [];
    headers = [];
    timeout_seconds = none;
    max_response_bytes = none;
    allow_redirect_to = some (λ host. mem_text host approved || text_eq host bootstrap_host);
  }

  abbrev pub request_if : Text → Text → Option (List Text) → Option Text → Option Request
  request_if base_url path (some approved) (some registry_host) =
      some (query_request approved base_url path registry_host)
  request_if base_url path _ _ = none

  -- `none` for an exception of httpx, or for a URL that is no text
  unfoldable pub request_for : List Service → Text → Json → Option Request
  unfolding all_bootstrap_hosts mem_text text_eq ends_with
  request_for services path (str url) =
      request_if (with_slash url) path (all_bootstrap_hosts r services)
        (r.host_of (str (with_slash url)))
  request_for services path _ = none

  unfoldable pub request_to_registry : List Service → Text → Items → Collecting Request
  unfolding request_for
  request_to_registry services path nil = raise (
      collector_failure (
        provider_unavailable (codes "rdap")
          (codes "no RDAP service is registered for " ++ f.repr w.target)))
  request_to_registry services path (cons url urls) =
      lift (or_uncaught (request_for services path url))

  abbrev record_of : Text → Json → Collecting CollectedFinding
  record_of source_url (obj fs) = do
    n ← lift (or_uncaught (normalize_rdap_record w.lower fs w.target))
    now ← utcnow w
    lift (or_uncaught (build_finding w now n (obj fs) source_url))
  record_of source_url _ = raise (
      collector_failure
        (provider_schema_error (codes "rdap") (codes "response was not a JSON object")))

  abbrev key : Text
  key = compute_cache_key w (codes "rdap") (codes "1") w.target [] none

  abbrev registry_of : List Text → Text
  registry_of (bootstrap ∷ registry_host ∷ hosts) = registry_host
  registry_of _ = []

  unfoldable pub take_found : Request → Reply → Collecting (List CollectedFinding)
  unfolding parse_json_safely normalize_rdap_record utcnow build_finding store_findings_in_cache
  take_found q response = do
    value ← parse_json_safely w response (registry_of q.allowed_hosts)
    finding ← record_of q.url value
    store_findings_in_cache w key (finding ∷ []) (codes "success") value 86400
    pure (finding ∷ [])

  unfoldable pub take_reply : Request → Reply → Collecting (List CollectedFinding)
  unfolding take_found store_findings_in_cache
  take_reply q response =
      let absent =
        store_findings_in_cache w key [] (codes "empty")
          (obj (field (codes "status") (num (ℤ.pos 404)) end)) 3600
        >> pure [] in
      if response.status_code == 404
      then absent
      else if not (response.status_code == 200)
      then raise (
          collector_failure (
            provider_unavailable (codes "rdap") (
              codes "unexpected status "
              ++ f.decimal response.status_code
              ++ codes " from "
              ++ registry_of q.allowed_hosts)))
      else take_found q response

  unfoldable pub ask : TargetType → Collecting (List CollectedFinding)
  unfolding fetch_bootstrap base_urls_of request_to_registry gateway_get take_reply
  ask t = do
    services ← fetch_bootstrap (bootstrap_url t)
    q ← request_to_registry services (query_path t) (base_urls_of t services)
    response ← gateway_get w q
    take_reply q response

  abbrev or_ask_registry :
      TargetType → Option (List CollectedFinding) → Collecting (List CollectedFinding)
  or_ask_registry t none = ask t
  or_ask_registry t (some fs) = pure fs

  unfoldable pub run : TargetType → Collecting (List CollectedFinding)
  unfolding compute_cache_key get_cached_findings ask
  run t = get_cached_findings w key >>= or_ask_registry t
