-- ===== src/Collectors/Crtsh/Run.antt =====
-- `run` of backend/app/collectors/crtsh.py. The findings share one reading of the clock.
use recon_ledger.Prelude.{
  ℕ, none, some, List, [], ◌∷◌, ◌++◌, map, join, sort_texts, if◌then◌else◌, Text, codes,
}
use recon_ledger.Models.Enums.{Category}
use recon_ledger.Models.Json.{
  Json, ℤ, bool, num, str, arr, obj, Items, nil, cons, end, field, truthy,
}
use recon_ledger.Collectors.Contract.{CollectedFinding}
use recon_ledger.Collectors.Errors.{provider_schema_error}
use recon_ledger.Collectors.Context.{
  Surroundings, Request, collector_failure, Collecting, ◌>>=◌, pure, raise, lift, or_uncaught,
  gateway_get, parse_json_safely, utcnow, compute_fingerprint, compute_cache_key,
}
use recon_ledger.Collectors.Caching.Access.{cached_or_asked}
use recon_ledger.Collectors.Crtsh.{Names, CtEntry, take_certs}
use recon_ledger.Collectors.Wayback.{count_items}
use recon_ledger.Collectors.Wayback.Run.{text_or_null}

abbrev pub crtsh_host : Text
crtsh_host = codes "crt.sh"

abbrev items_of : List Json → Items
items_of [] = nil
items_of (x ∷ xs) = cons x (items_of xs)

module _ (w : Surroundings) (n : Names) (decimal : ℕ → Text) where
  abbrev text_of : Json → Text
  text_of (str t) = t
  text_of v = n.show v

  -- the link to the first certificate, if its identifier counts as true
  unfoldable pub source_url : List Json → Text
  source_url [] = codes "https://crt.sh/?q=" ++ w.target ++ codes "&output=json"
  source_url (id ∷ ids) =
      if truthy id
      then codes "https://crt.sh/?id=" ++ text_of id
      else codes "https://crt.sh/?q=" ++ w.target ++ codes "&output=json"

  abbrev or_unknown_issuer : Text → Text
  or_unknown_issuer [] = codes "unknown issuer"
  or_unknown_issuer (c ∷ t) = c ∷ t

  unfoldable pub subdomain_finding : ℕ → Text × CtEntry → CollectedFinding
  unfolding source_url compute_fingerprint sort_texts
  subdomain_finding now (subdomain, e) =
      let issuers = sort_texts e.issuers in
      let ids = arr (items_of e.cert_ids) in
      record {
        category = Category.network_footprint;
        kind = codes "ct.subdomain";
        title = subdomain ++ (if e.wildcard then codes " (wildcard)" else []);
        summary =
            codes "Observed in "
            ++ decimal e.cert_count
            ++ codes " certificate(s) issued by "
            ++ or_unknown_issuer (join (codes ", ") issuers);
        normalized_value = obj (
            field (codes "subdomain") (str e.subdomain) (
              field (codes "wildcard") (bool e.wildcard) (
                field (codes "cert_count") (num (ℤ.pos e.cert_count)) (
                  field (codes "cert_ids") ids (
                    field (codes "issuers") (arr (items_of (map str issuers))) (
                      field (codes "not_before_min") (text_or_null e.not_before_min)
                        (field (codes "not_after_max") (text_or_null e.not_after_max) end)))))));
        raw_evidence = obj (field (codes "cert_ids") ids end);
        source_url = source_url e.cert_ids;
        retrieved_at = now;
        fingerprint = compute_fingerprint w (codes "crtsh") (codes "ct.subdomain") (
            obj (
              field (codes "target") (str w.target)
                (field (codes "subdomain") (str subdomain) end)));
        provider_observed_at = none;
        confidence = none;
      }

  abbrev pub request : Request
  request = record {
    url =
        w.with_params (codes "https://crt.sh/")
          ((codes "q", w.target) ∷ (codes "output", codes "json") ∷ []);
    allowed_hosts = crtsh_host ∷ [];
    headers = [];
    timeout_seconds = some 60;
    max_response_bytes = some 5000000;
    allow_redirect_to = none;
  }

  abbrev pub certificates : Json → Collecting Items
  certificates (arr certs) = pure certs
  certificates _ = raise (
      collector_failure
        (provider_schema_error (codes "crtsh") (codes "response was not a JSON array")))

  -- `run`, once nothing is cached
  unfoldable pub ask : Collecting (List CollectedFinding × Json)
  unfolding gateway_get parse_json_safely take_certs utcnow subdomain_finding count_items
  ask = do
    response ← gateway_get w request
    value ← parse_json_safely w response crtsh_host
    certs ← certificates value
    by_subdomain ← lift (or_uncaught (take_certs n w.target certs []))
    now ← utcnow w
    pure (
      map (subdomain_finding now) by_subdomain,
      obj (field (codes "cert_count") (num (ℤ.pos (count_items certs))) end),
    )

  unfoldable pub run : Collecting (List CollectedFinding)
  unfolding compute_cache_key cached_or_asked ask
  run =
      cached_or_asked w (compute_cache_key w (codes "crtsh") (codes "1") w.target [] none) 86400
        3600 ask
