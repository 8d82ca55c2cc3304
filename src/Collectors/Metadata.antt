-- ===== src/Collectors/Metadata.antt =====
-- The `metadata` of the collectors in backend/app/collectors.
use recon_ledger.Prelude.{ℕ, false, none, some, [], ◌∷◌, codes}
use recon_ledger.Models.Enums.{TargetType, Category}
use recon_ledger.Collectors.Contract.{RatePolicy, CachePolicy, CollectorMetadata}

-- a number of requests per second, the burst and the concurrency
abbrev rate : ℕ → ℕ → ℕ → RatePolicy
rate requests burst concurrency = record {
  requests_per_period = requests;
  period_seconds = 1;
  burst = burst;
  concurrency = concurrency;
}

abbrev cached : ℕ → ℕ → CachePolicy
cached positive negative = record {
  positive_ttl_seconds = positive;
  negative_ttl_seconds = negative;
  schema_version = codes "1";
}

abbrev pub wayback : CollectorMetadata
wayback = record {
  name = codes "wayback";
  display_name = codes "Wayback Machine (Archived URLs)";
  supported_targets = TargetType.domain ∷ [];
  categories = Category.network_footprint ∷ [];
  required_credentials = [];
  provider_hosts = codes "web.archive.org" ∷ [];
  key_help_url =
      some (codes "https://github.com/internetarchive/wayback/tree/master/wayback-cdx-server");
  rate_policy = rate 3 3 2;
  cache_policy = cached 43200 3600;
  request_timeout_seconds = none;
  test_only = false;
}

abbrev pub commoncrawl : CollectorMetadata
commoncrawl = record {
  name = codes "commoncrawl";
  display_name = codes "Common Crawl";
  supported_targets = TargetType.domain ∷ [];
  categories = Category.network_footprint ∷ [];
  required_credentials = [];
  provider_hosts = codes "index.commoncrawl.org" ∷ codes "data.commoncrawl.org" ∷ [];
  key_help_url = some (codes "https://index.commoncrawl.org/");
  rate_policy = rate 3 3 2;
  cache_policy = cached 604800 3600;
  request_timeout_seconds = none;
  test_only = false;
}

abbrev pub crtsh : CollectorMetadata
crtsh = record {
  name = codes "crtsh";
  display_name = codes "crt.sh (Certificate Transparency)";
  supported_targets = TargetType.domain ∷ [];
  categories = Category.network_footprint ∷ [];
  required_credentials = [];
  provider_hosts = codes "crt.sh" ∷ [];
  key_help_url = some (codes "https://crt.sh/");
  rate_policy = rate 2 2 1;
  cache_policy = cached 86400 3600;
  request_timeout_seconds = some 60;
  test_only = false;
}

abbrev pub rdap : CollectorMetadata
rdap = record {
  name = codes "rdap";
  display_name = codes "RDAP";
  supported_targets = TargetType.domain ∷ TargetType.ip ∷ [];
  categories = Category.network_footprint ∷ [];
  required_credentials = [];
  provider_hosts = codes "data.iana.org" ∷ [];
  key_help_url = some (
      codes
        "https://www.icann.org/en/contracted-parties/registry-operators/resources/registration-data-access-protocol");
  rate_policy = rate 5 5 2;
  cache_policy = cached 86400 3600;
  request_timeout_seconds = none;
  test_only = false;
}

abbrev pub dns_doh : CollectorMetadata
dns_doh = record {
  name = codes "dns_doh";
  display_name = codes "DNS (DNS-over-HTTPS)";
  supported_targets = TargetType.domain ∷ [];
  categories = Category.network_footprint ∷ [];
  required_credentials = [];
  provider_hosts = codes "dns.google" ∷ codes "cloudflare-dns.com" ∷ [];
  key_help_url = some (codes "https://developers.google.com/speed/public-dns/docs/doh/json");
  rate_policy = rate 20 20 4;
  cache_policy = cached 1800 600;
  request_timeout_seconds = none;
  test_only = false;
}

abbrev pub ripestat : CollectorMetadata
ripestat = record {
  name = codes "ripestat";
  display_name = codes "RIPEstat";
  supported_targets = TargetType.ip ∷ TargetType.cidr ∷ [];
  categories = Category.network_footprint ∷ [];
  required_credentials = [];
  provider_hosts = codes "stat.ripe.net" ∷ [];
  key_help_url = some (codes "https://stat.ripe.net/docs/data-api/ripestat-data-api");
  rate_policy = rate 5 5 2;
  cache_policy = cached 86400 3600;
  request_timeout_seconds = none;
  test_only = false;
}

abbrev pub technology : CollectorMetadata
technology = record {
  name = codes "technology";
  display_name = codes "Technology inference";
  supported_targets = TargetType.domain ∷ [];
  categories = Category.technology_stack ∷ [];
  required_credentials = [];
  provider_hosts = [];
  key_help_url = none;
  rate_policy = rate 1 1 1;
  cache_policy = cached 0 0;
  request_timeout_seconds = none;
  test_only = false;
}
