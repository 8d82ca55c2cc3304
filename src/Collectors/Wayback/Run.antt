-- ===== src/Collectors/Wayback/Run.antt =====
-- `run` of backend/app/collectors/wayback.py. The samples are fetched first and their findings built
-- after, which has no effects.
use recon_ledger.Prelude.{
  ℕ, ◌+◌, ◌-◌, min, Option, none, some, List, [], ◌∷◌, ◌++◌, map, length, take, leb, ◌==◌,
  if◌then◌else◌, split, partition, drop, Text, codes,
}
use recon_ledger.Models.Enums.{Category}
use recon_ledger.Models.Json.{Json, ℤ, null, str, obj, num, Fields, end, field}
use recon_ledger.Services.Diff.{put}
use recon_ledger.Collectors.Contract.{CollectedFinding}
use recon_ledger.Collectors.ArchiveUrls.{Urls}
use recon_ledger.Collectors.Context.{
  Surroundings, Request, Reply, Collecting, ◌>>=◌, pure, caught, lift, or_uncaught, gateway_get,
  parse_json_safely, utcnow, compute_fingerprint, compute_cache_key,
}
use recon_ledger.Collectors.Caching.Access.{cached_or_asked}
use recon_ledger.Collectors.Wayback.{ArchivedUrl, parse_cdx_rows, aggregate_by_url}
use recon_ledger.Collectors.Wayback.Choice.{select_representative}

abbrev pub wayback_host : Text
wayback_host = codes "web.archive.org"

abbrev pub text_or_null : Option Text → Json
text_or_null none = null
text_or_null (some t) = str t

abbrev pub fields_of_texts : List (Text × Text) → Fields
fields_of_texts [] = end
fields_of_texts ((k, v) ∷ d) = field k (str v) (fields_of_texts d)

-- A request of this collector: only its own host is allowed.
abbrev pub request_of : Text → Option ℕ → Request
request_of url cap = record {
  url = url;
  allowed_hosts = wayback_host ∷ [];
  headers = [];
  timeout_seconds = none;
  max_response_bytes = cap;
  allow_redirect_to = none;
}

unfoldable pub replay_url : ArchivedUrl → Text
replay_url e =
    codes "https://" ++ wayback_host ++ codes "/web/" ++ e.best_timestamp ++ codes "id_/" ++ e.url

-- what the rest of the body of the loop makes of an answer
abbrev pub usable : ArchivedUrl → Option Reply → List (ArchivedUrl × Reply)
usable e none = []
usable e (some r) = if r.status_code == 200 then (e, r) ∷ [] else []

abbrev pub total_size : List (ArchivedUrl × Reply) → ℕ
total_size [] = 0
total_size ((e, r) ∷ rs) = length r.content + total_size rs

unfoldable pub url_fields : ArchivedUrl → Fields → Fields
url_fields e rest = field (codes "url") (str e.url) (
    field (codes "first_seen") (str e.first_seen) (
      field (codes "last_seen") (str e.last_seen) (
        field (codes "mimetype") (text_or_null e.mimetype) (
          field (codes "statuscode") (text_or_null e.statuscode)
            (field (codes "extension") (text_or_null e.extension) rest)))))

abbrev pub or_unknown_type : Option Text → Text
or_unknown_type (some (c ∷ t)) = c ∷ t
or_unknown_type _ = codes "unknown type"

module _ (w : Surroundings) where
  abbrev add_header : List (Text × Text) → Option (Text × Text) → List (Text × Text)
  add_header headers none = headers
  add_header headers (some (k, v)) = put (w.lower (w.strip k)) (w.strip v) headers

  unfoldable pub headers_from : List (Text × Text) → List Text → List (Text × Text)
  unfolding partition put
  headers_from headers [] = headers
  headers_from headers (line ∷ lines) =
      headers_from (add_header headers (partition (codes ":") line)) lines

  abbrev headers_and_body : Text → Option (Text × Text) → List (Text × Text) × Text
  headers_and_body text none = ([], text)
  headers_and_body text (some (block, rest)) =
      (headers_from [] (drop 1 (split (13 ∷ 10 ∷ []) block)), rest)

  unfoldable pub parse_raw_http_response : Text → List (Text × Text) × Text
  unfolding headers_from split partition
  parse_raw_http_response content =
      let text = w.decode content in headers_and_body text (partition (13 ∷ 10 ∷ 13 ∷ 10 ∷ []) text)

  -- the loop over the selected entries, with `remaining_budget`
  unfoldable pub fetch_samples : List ArchivedUrl → ℕ → Collecting (List (ArchivedUrl × Reply))
  unfolding gateway_get replay_url
  fetch_samples [] budget = pure []
  fetch_samples (e ∷ es) budget =
      let go = do
        answer ← caught (gateway_get w (request_of (replay_url e) (some (min 500000 budget))))
        rest ← fetch_samples es (budget - total_size (usable e answer))
        pure (usable e answer ++ rest)
      in if leb budget 0 then pure [] else go

  unfoldable pub url_finding : ℕ → Text × ArchivedUrl → CollectedFinding
  unfolding url_fields compute_fingerprint
  url_finding now (canonical, e) = record {
    category = Category.network_footprint;
    kind = codes "wayback.url";
    title = canonical;
    summary =
        codes "Archived "
        ++ e.first_seen
        ++ codes "–"
        ++ e.last_seen
        ++ codes " ("
        ++ or_unknown_type e.mimetype
        ++ codes ")";
    normalized_value = obj (url_fields e end);
    raw_evidence = obj (
        url_fields e (
          field (codes "best_timestamp") (str e.best_timestamp)
            (field (codes "best_statuscode") (text_or_null e.best_statuscode) end)));
    source_url =
        codes "https://" ++ wayback_host ++ codes "/web/" ++ e.last_seen ++ codes "/" ++ canonical;
    retrieved_at = now;
    fingerprint =
        compute_fingerprint w (codes "wayback") (codes "wayback.url")
          (obj (field (codes "url") (str canonical) end));
    provider_observed_at = none;
    confidence = none;
  }

  unfoldable pub sample_finding : (ℕ → Text) → ℕ → ArchivedUrl × Reply → CollectedFinding
  unfolding parse_raw_http_response replay_url compute_fingerprint
  sample_finding decimal now (e, r) =
      let parsed = parse_raw_http_response r.content in
      let headers = obj (fields_of_texts parsed.0) in
      record {
        category = Category.network_footprint;
        kind = codes "wayback.sample";
        title = codes "Archived content sample: " ++ e.url;
        summary =
            codes "Fetched a "
            ++ decimal (length parsed.1)
            ++ codes "-byte archived snapshot from "
            ++ e.best_timestamp
            ++ codes ".";
        normalized_value = obj (
            field (codes "url") (str e.url) (
              field (codes "timestamp") (str e.best_timestamp)
                (field (codes "headers") headers end)));
        raw_evidence = obj (
            field (codes "headers") headers
              (field (codes "body_snippet") (str (take 20000 parsed.1)) end));
        source_url = replay_url e;
        retrieved_at = now;
        fingerprint =
            compute_fingerprint w (codes "wayback") (codes "wayback.sample")
              (obj (field (codes "url") (str e.url) end));
        provider_observed_at = none;
        confidence = none;
      }

  module _ (u : Urls) (decimal : ℕ → Text) where
    abbrev pub cdx_url : Text
    cdx_url = w.with_params (codes "https://web.archive.org/cdx/search/cdx") (
        (codes "url", w.target)
        ∷ (codes "matchType", codes "domain")
        ∷ (codes "output", codes "json")
        ∷ (codes "limit", codes "5000")
        ∷ (codes "collapse", codes "digest")
        ∷ [])

    -- `run`, once nothing is cached
    unfoldable pub ask : Collecting (List CollectedFinding × Json)
    unfolding gateway_get parse_json_safely parse_cdx_rows aggregate_by_url utcnow fetch_samples
        url_finding sample_finding select_representative
    ask = do
      response ← gateway_get w (request_of cdx_url none)
      value ← parse_json_safely w response wayback_host
      rows ← lift (parse_cdx_rows value)
      by_url ← lift (or_uncaught (aggregate_by_url u rows w.target))
      now ← utcnow w
      samples ← fetch_samples (select_representative by_url) 5000000
      pure (
        map (url_finding now) by_url ++ map (sample_finding decimal now) samples,
        obj (field (codes "row_count") (num (ℤ.pos (length rows))) end),
      )

    unfoldable pub run : Collecting (List CollectedFinding)
    unfolding compute_cache_key cached_or_asked ask
    run =
        cached_or_asked w (compute_cache_key w (codes "wayback") (codes "1") w.target [] none) 43200
          3600 ask
