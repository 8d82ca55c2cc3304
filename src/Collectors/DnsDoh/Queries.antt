-- ===== src/Collectors/DnsDoh/Queries.antt =====
-- `_query`, `_query_with_fallback`, `_finding` and the addresses of `run` in backend/app/collectors/dns_doh.py. The findings
-- share one reading of the clock.
use recon_ledger.Prelude.{
  ℕ, ◌&&◌, not, Option, none, some, List, [], ◌∷◌, ◌++◌, length, if◌then◌else◌, Text, codes,
  text_eq,
}
use recon_ledger.Models.Enums.{Category}
use recon_ledger.Models.Json.{Json, null, str, arr, obj, end, field}
use recon_ledger.Collectors.Contract.{CollectedFinding}
use recon_ledger.Collectors.Errors.{provider_unavailable}
use recon_ledger.Collectors.Context.{
  Surroundings, Request, collector_failure, Collecting, ◌>>=◌, pure, raise, lift, caught,
  or_uncaught, gateway_get, parse_json_safely, compute_fingerprint,
}
use recon_ledger.Collectors.DnsDoh.{
  primary_host, secondary_host, Strings, addresses_if, is_data, same_texts,
}
use recon_ledger.Collectors.DnsDoh.Mail.{texts_value}

abbrev or_null : Option Json → Json
or_null none = null
or_null (some v) = v

-- `values or 'none'`, as the list is shown
abbrev shown : (Json → Text) → List Text → Text
shown show [] = codes "none"
shown show (t ∷ ts) = show (arr (texts_value (t ∷ ts)))

module _ (w : Surroundings) (p : Strings) (decimal : ℕ → Text) where
  abbrev doh_url : Text → Text → Text → Text
  doh_url host name record_type =
      w.with_params
        (codes "https://"
          ++ host
          ++ (if text_eq host primary_host then codes "/resolve" else codes "/dns-query"))
        ((codes "name", name) ∷ (codes "type", record_type) ∷ [])

  abbrev pub request_of : Text → Text → Text → Request
  request_of host name record_type = record {
    url = doh_url host name record_type;
    allowed_hosts = primary_host ∷ secondary_host ∷ [];
    headers =
        if text_eq host primary_host
        then []
        else (codes "Accept", codes "application/dns-json") ∷ [];
    timeout_seconds = none;
    max_response_bytes = none;
    allow_redirect_to = none;
  }

  -- `_query`
  unfoldable pub query : Text → Text → Text → Collecting Json
  unfolding gateway_get parse_json_safely text_eq
  query host name record_type = do
    response ← gateway_get w (request_of host name record_type)
    parse_json_safely w response host

  abbrev or_secondary : Text → Text → Option Json → Collecting (Json × Text)
  or_secondary name record_type (some value) = pure (value, primary_host)
  or_secondary name record_type none = do
    value ← query secondary_host name record_type
    pure (value, secondary_host)

  -- `_query_with_fallback`
  unfoldable pub query_with_fallback : Text → Text → Collecting (Json × Text)
  unfolding query
  query_with_fallback name record_type =
      caught (query primary_host name record_type) >>= or_secondary name record_type

  abbrev pub own_identity : Json
  own_identity = obj (field (codes "target") (str w.target) end)

  -- `_finding`
  unfoldable pub finding : ℕ → Text → Text → Text → Json → Json → Text → Json → CollectedFinding
  unfolding compute_fingerprint
  finding now kind title summary normalized raw source_host identity = record {
    category = Category.network_footprint;
    kind = kind;
    title = title;
    summary = summary;
    normalized_value = normalized;
    raw_evidence = raw;
    source_url = codes "https://" ++ source_host ++ codes "/";
    retrieved_at = now;
    fingerprint = compute_fingerprint w (codes "dns_doh") kind identity;
    provider_observed_at = none;
    confidence = none;
  }

  abbrev pub counted : List Text → Text → Text
  counted found what = decimal (length found) ++ what

  -- the addresses of the first resolver that has any
  abbrev address_finding :
      ℕ → Text → Text → Option Json → Option Json → List Text → List Text → List CollectedFinding
  address_finding now record_type kind first second [] [] = []
  address_finding now record_type kind first second [] (b ∷ bs) =
      finding now kind (record_type ++ codes " records for " ++ w.target)
        (counted (b ∷ bs) (codes " " ++ record_type ++ codes " record(s) observed"))
        (obj (field (codes "addresses") (arr (texts_value (b ∷ bs))) end)) (or_null second)
        secondary_host own_identity
      ∷ []
  address_finding now record_type kind first second (a ∷ as') bs =
      finding now kind (record_type ++ codes " records for " ++ w.target)
        (counted (a ∷ as') (codes " " ++ record_type ++ codes " record(s) observed"))
        (obj (field (codes "addresses") (arr (texts_value (a ∷ as'))) end)) (or_null first)
        primary_host own_identity
      ∷ []

  abbrev disagreement :
      ℕ → Text → Option Json → Option Json → List Text → List Text → List CollectedFinding
  disagreement now record_type first second as' bs =
      if is_data first && (is_data second && not (same_texts as' bs))
      then finding now (codes "dns.resolver_disagreement")
          (codes "Resolvers disagree on " ++ record_type ++ codes " for " ++ w.target)
          (codes "Primary observed "
            ++ shown w.show as'
            ++ codes "; secondary observed "
            ++ shown w.show bs)
          (obj (
            field (codes "record_type") (str record_type) (
              field (codes "primary") (arr (texts_value as'))
                (field (codes "secondary") (arr (texts_value bs)) end))))
          (obj (
            field (codes "primary") (or_null first)
              (field (codes "secondary") (or_null second) end)))
          primary_host
          (obj (
            field (codes "target") (str w.target)
              (field (codes "record_type") (str record_type) end)))
        ∷ []
      else []

  abbrev found_addresses :
      ℕ
      → Text
      → Text
      → Option Json
      → Option Json
      → List Text
      → List Text
      → Collecting (List CollectedFinding)
  found_addresses now record_type kind first second as' bs =
      let found =
        address_finding now record_type kind first second as' bs
        ++ disagreement now record_type first second as' bs in
      let failure = collector_failure (
        provider_unavailable (codes "dns_doh")
          (codes "both DoH resolvers failed for " ++ record_type ++ codes " " ++ w.target)) in
      if not (is_data first) && not (is_data second) then raise failure else pure found

  -- one turn of the loop over A and AAAA
  unfoldable pub ask_addresses : ℕ → Text → Text → Collecting (List CollectedFinding)
  unfolding query addresses_if same_texts finding
  ask_addresses now record_type kind = do
    first ← caught (query primary_host w.target record_type)
    second ← caught (query secondary_host w.target record_type)
    as' ← lift (or_uncaught (addresses_if first))
    bs ← lift (or_uncaught (addresses_if second))
    found_addresses now record_type kind first second as' bs
