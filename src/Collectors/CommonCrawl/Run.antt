-- ===== src/Collectors/CommonCrawl/Run.antt =====
-- `run` of backend/app/collectors/commoncrawl.py. The samples are fetched first and their findings built
-- after, which has no effects.
use recon_ledger.Prelude.{
  ℕ, Option, none, some, List, [], ◌∷◌, ◌++◌, map, length, take, join, sort_texts, if◌then◌else◌,
  Text, codes,
}
use recon_ledger.Models.Enums.{Category}
use recon_ledger.Models.Json.{
  Json, ℤ, null, num, str, arr, obj, Items, nil, cons, Fields, end, field, truthy,
}
use recon_ledger.Collectors.Contract.{CollectedFinding}
use recon_ledger.Collectors.ArchiveUrls.{Urls}
use recon_ledger.Collectors.Errors.{provider_schema_error}
use recon_ledger.Collectors.Context.{
  Surroundings, collector_failure, Collecting, ◌>>=◌, pure, raise, lift, or_uncaught, utcnow,
  compute_fingerprint, compute_cache_key,
}
use recon_ledger.Collectors.Caching.Access.{cached_or_asked}
use recon_ledger.Collectors.Wayback.Run.{fields_of_texts, text_or_null}
use recon_ledger.Collectors.CommonCrawl.{CrawledUrl, aggregate_by_url, select_representative}
use recon_ledger.Collectors.CommonCrawl.Index.{
  Collection, index_host, fetch_recent_collection_apis, per_collection_limit, fetch_rows,
}
use recon_ledger.Collectors.CommonCrawl.Samples.{Members, Sample, fetch_samples}

abbrev or_null : Option Json → Json
or_null none = null
or_null (some v) = v

abbrev texts_value : List Text → Items
texts_value [] = nil
texts_value (t ∷ ts) = cons (str t) (texts_value ts)

abbrev last_of : List Text → Text
last_of [] = []
last_of (t ∷ []) = t
last_of (t ∷ u ∷ us) = last_of (u ∷ us)

unfoldable pub url_fields : Text → CrawledUrl → Fields → Fields
unfolding sort_texts
url_fields canonical e rest = field (codes "url") (str canonical) (
    field (codes "collections") (arr (texts_value (sort_texts e.collections))) (
      field (codes "first_seen") (str e.first_seen) (
        field (codes "last_seen") (str e.last_seen) (
          field (codes "mime") (or_null e.mime) (field (codes "status") (or_null e.status) rest)))))

module _ (w : Surroundings) (m : Members) where
  abbrev mime_text : Option Json → Text
  mime_text none = codes "unknown type"
  mime_text (some (str (c ∷ t))) = c ∷ t
  mime_text (some v) = if truthy v then w.show v else codes "unknown type"

  unfoldable pub url_finding : ℕ → Text × CrawledUrl → CollectedFinding
  unfolding url_fields sort_texts compute_fingerprint
  url_finding now (canonical, e) =
      let collections = sort_texts e.collections in
      record {
        category = Category.network_footprint;
        kind = codes "commoncrawl.url";
        title = canonical;
        summary =
            codes "Indexed in "
            ++ join (codes ", ") collections
            ++ codes " ("
            ++ mime_text e.mime
            ++ codes ")";
        normalized_value =
            obj (url_fields canonical e (field (codes "extension") (text_or_null e.extension) end));
        raw_evidence = obj (url_fields canonical e end);
        source_url =
            codes "https://"
            ++ index_host
            ++ codes "/"
            ++ last_of collections
            ++ codes "-index?url="
            ++ canonical
            ++ codes "&output=json";
        retrieved_at = now;
        fingerprint =
            compute_fingerprint w (codes "commoncrawl") (codes "commoncrawl.url")
              (obj (field (codes "url") (str canonical) end));
        provider_observed_at = none;
        confidence = none;
      }

  unfoldable pub sample_finding : ℕ → Sample → CollectedFinding
  unfolding sort_texts compute_fingerprint
  sample_finding now s =
      let collection = last_of (sort_texts s.entry.collections) in
      let headers = obj (fields_of_texts s.headers) in
      record {
        category = Category.network_footprint;
        kind = codes "commoncrawl.sample";
        title = codes "Archived content sample: " ++ s.entry.url;
        summary =
            codes "Fetched a "
            ++ m.decimal (length s.body)
            ++ codes "-byte archived snapshot from "
            ++ collection
            ++ codes ".";
        normalized_value = obj (
            field (codes "url") (str s.entry.url)
              (field (codes "collection") (str collection) (field (codes "headers") headers end)));
        raw_evidence = obj (
            field (codes "headers") headers
              (field (codes "body_snippet") (str (take 20000 s.body)) end));
        source_url = s.data_url;
        retrieved_at = now;
        fingerprint =
            compute_fingerprint w (codes "commoncrawl") (codes "commoncrawl.sample")
              (obj (field (codes "url") (str s.entry.url) end));
        provider_observed_at = none;
        confidence = none;
      }

  abbrev unless_empty : List Collection → Collecting (List Collection)
  unless_empty [] = raise (
      collector_failure (
        provider_schema_error (codes "commoncrawl")
          (codes "collinfo.json returned no usable collections")))
  unless_empty (c ∷ cs) = pure (c ∷ cs)

  -- `run`, once nothing is cached
  unfoldable pub ask : Urls → Collecting (List CollectedFinding × Json)
  unfolding fetch_recent_collection_apis fetch_rows aggregate_by_url utcnow fetch_samples
      url_finding sample_finding select_representative
  ask u = do
    found ← fetch_recent_collection_apis w
    collections ← unless_empty found
    rows ← fetch_rows w m.splitlines m.decimal (per_collection_limit collections) collections
    by_url ← lift (or_uncaught (aggregate_by_url u rows w.target))
    now ← utcnow w
    samples ← fetch_samples w m (select_representative by_url) 5000000
    pure (
      map (url_finding now) by_url ++ map (sample_finding now) samples,
      obj (
          field (codes "row_count") (num (ℤ.pos (length rows)))
            (field (codes "collections") (arr (texts_value (map (λ c. c.0) collections))) end)),
    )

  unfoldable pub run : Urls → Collecting (List CollectedFinding)
  unfolding compute_cache_key cached_or_asked ask
  run u =
      cached_or_asked w (compute_cache_key w (codes "commoncrawl") (codes "1") w.target [] none)
        604800 3600 (ask u)
