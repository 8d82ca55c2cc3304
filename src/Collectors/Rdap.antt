-- ===== src/Collectors/Rdap.antt =====
-- backend/app/collectors/rdap.py: the bootstrap registries, and the hosts that they approve. URLs and
-- networks are read by httpx and by `ipaddress`.
pub mod Record
pub mod Summary
pub mod Run
pub mod Served
pub mod Approved
use recon_ledger.Prelude.{
  Bool, true, false, ◌||◌, Option, none, some, List, [], ◌∷◌, ◌++◌, if◌then◌else◌, Text, codes,
  mem_text, add_text, ◌>>=◌, ends_with,
}
use recon_ledger.Models.Json.{Json, str, arr, obj, Items, nil, cons, Fields, get_field}
use recon_ledger.Collectors.Errors.{provider_schema_error}
use recon_ledger.Collectors.Context.{
  Outcome, done, raised, collector_failure, uncaught, or_uncaught,
}
use recon_ledger.Collectors.Wayback.{mem_item}

-- A service: its keys (top-level domains or networks) and its URLs.
abbrev pub Service : Type 0
Service = Items × Items

abbrev pub bootstrap_host : Text
bootstrap_host = codes "data.iana.org"

abbrev service_of : Json → Option Service
service_of (arr (cons (arr keys) (cons (arr urls) rest))) = some (keys, urls)
service_of _ = none

abbrev with_service : Option Service → List Service → List Service
with_service none services = services
with_service (some s) services = s ∷ services

unfoldable pub services_in : Items → List Service
services_in nil = []
services_in (cons entry entries) = with_service (service_of entry) (services_in entries)

abbrev services_if : Option Json → Outcome (List Service)
services_if (some (arr entries)) = done (services_in entries)
services_if _ = raised (
    collector_failure
      (provider_schema_error (codes "rdap") (codes "bootstrap file missing a 'services' array")))

unfoldable pub parse_bootstrap_services : Json → Outcome (List Service)
unfolding get_field services_in
parse_bootstrap_services (obj fs) = services_if (get_field (codes "services") fs)
parse_bootstrap_services _ = services_if none

unfoldable pub find_dns_base_urls : List Service → Text → Items
unfolding mem_item
find_dns_base_urls [] tld = nil
find_dns_base_urls ((tlds, urls) ∷ services) tld =
    let rest = find_dns_base_urls services tld in if mem_item tld tlds then urls else rest

-- What httpx and `ipaddress` read. `host_of` is `httpx.URL(url).host`, `none` for an exception;
-- `is_covered` says whether a key is a network of the target's version that has the target in it.
pub record Reading : Type 0 where
  pub host_of : Json → Option Text
  pub is_covered : Json → Bool
  pub is_version_4 : Bool

module _ (r : Reading) where
  unfoldable pub covers : Items → Bool
  covers nil = false
  covers (cons cidr cidrs) = r.is_covered cidr || covers cidrs

  unfoldable pub find_ip_base_urls : List Service → Items
  unfolding covers
  find_ip_base_urls [] = nil
  find_ip_base_urls ((cidrs, urls) ∷ services) =
      let rest = find_ip_base_urls services in if covers cidrs then urls else rest

  -- `if host: hosts.add(host)`
  abbrev pub add_host : Text → List Text → List Text
  add_host [] hosts = hosts
  add_host (c ∷ host) hosts = add_text (c ∷ host) hosts

  unfoldable pub url_hosts : Items → List Text → Option (List Text)
  unfolding add_text
  url_hosts nil hosts = some hosts
  url_hosts (cons url urls) hosts = do host ← r.host_of url; url_hosts urls (add_host host hosts)

  unfoldable pub bootstrap_hosts_from : List Service → List Text → Option (List Text)
  unfolding url_hosts
  bootstrap_hosts_from [] hosts = some hosts
  bootstrap_hosts_from ((keys, urls) ∷ services) hosts =
      url_hosts urls hosts >>= bootstrap_hosts_from services

  -- `_all_bootstrap_hosts`
  unfoldable pub all_bootstrap_hosts : List Service → Option (List Text)
  unfolding bootstrap_hosts_from
  all_bootstrap_hosts services = bootstrap_hosts_from services []
