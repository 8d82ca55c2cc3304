-- ===== src/Collectors/CommonCrawl/Index.antt =====
-- `_fetch_recent_collection_apis` and `_parse_ndjson_rows` of backend/app/collectors/commoncrawl.py, and the
-- queries of the indexes.
use recon_ledger.Prelude.{
  ℕ, zero, suc, ◌/◌, max, ◌&&◌, Option, none, some, List, [], ◌∷◌, ◌++◌, map, length, if◌then◌else◌,
  ◌==◌, Text, codes,
}
use recon_ledger.Models.Json.{
  Json, str, arr, obj, Items, nil, cons, Fields, end, field, get_field, truthy,
}
use recon_ledger.Models.Db.{CacheEntry}
use recon_ledger.Collectors.Errors.{provider_schema_error}
use recon_ledger.Collectors.Context.{
  Surroundings, Request, Reply, collector_failure, Collecting, ◌>>=◌, ◌>>◌, pure, raise, lift,
  caught, or_uncaught, gateway_get, parse_json_safely, cache_get, cache_set, compute_cache_key,
}

abbrev pub index_host : Text
index_host = codes "index.commoncrawl.org"

abbrev pub data_host : Text
data_host = codes "data.commoncrawl.org"

-- A request of this collector: its two hosts are allowed.
abbrev pub request_of : Text → List (Text × Text) → Option ℕ → Request
request_of url headers cap = record {
  url = url;
  allowed_hosts = index_host ∷ data_host ∷ [];
  headers = headers;
  timeout_seconds = none;
  max_response_bytes = cap;
  allow_redirect_to = none;
}

-- A collection and the URL of its index.
abbrev pub Collection : Type 0
Collection = Text × Text

-- `{"id": …, "cdx_api": …}`
abbrev pub collection_value : Json → Json → Json
collection_value id api = obj (field (codes "id") id (field (codes "cdx_api") api end))

abbrev listed_if : Option Json → Option Json → Items → Items
listed_if (some id) (some api) rest =
    if truthy id && truthy api then cons (collection_value id api) rest else rest
listed_if _ _ rest = rest

-- the entries of collinfo.json that have both
unfoldable pub listed : Items → Items
unfolding get_field
listed nil = nil
listed (cons (obj entry) entries) =
    listed_if (get_field (codes "id") entry) (get_field (codes "cdx-api") entry) (listed entries)
listed (cons _ entries) = listed entries

abbrev pair_of : Option Json → Option Json → Option (List Collection) → Option (List Collection)
pair_of (some (str id)) (some (str api)) (some rest) = some ((id, api) ∷ rest)
pair_of _ _ _ = none

-- `[(c["id"], c["cdx_api"]) for c in collections[:n]]`, `none` for an exception
unfoldable pub first_pairs : ℕ → Items → Option (List Collection)
unfolding get_field
first_pairs zero cs = some []
first_pairs (suc n) nil = some []
first_pairs (suc n) (cons (obj c) cs) =
    pair_of (get_field (codes "id") c) (get_field (codes "cdx_api") c) (first_pairs n cs)
first_pairs (suc n) (cons _ cs) = none

-- `cached.response_json.get("collections", [])`
abbrev collections_in : Json → Option Items
collections_in (obj fs) = elim (get_field (codes "collections") fs) [
  | none ↦ some nil
  | some v ↦ elim v [ arr cs ↦ some cs | _ ↦ none ]
]
collections_in _ = none

module _ (w : Surroundings) where
  abbrev collinfo_key : Text
  collinfo_key =
      compute_cache_key w (codes "commoncrawl") (codes "1") (codes "collinfo") (codes "bootstrap")
        none

  abbrev entries_of : Json → Collecting Items
  entries_of (arr entries) = pure entries
  entries_of _ = raise (
      collector_failure
        (provider_schema_error (codes "commoncrawl") (codes "collinfo.json was not a JSON array")))

  unfoldable pub ask_collinfo : Collecting Items
  unfolding gateway_get parse_json_safely listed cache_set compute_cache_key
  ask_collinfo = do
    response ←
        gateway_get w (request_of (codes "https://index.commoncrawl.org/collinfo.json") [] none)
    value ← parse_json_safely w response index_host
    entries ← entries_of value
    cache_set w collinfo_key (record {
      status = codes "success";
      response = obj (field (codes "collections") (arr (listed entries)) end);
      normalized_findings = obj end;
      ttl = 604800;
      credential_scope_hash = none;
      etag = none;
      last_modified = none;
    })
    pure (listed entries)

  abbrev cached_collections : Option CacheEntry → Collecting Items
  cached_collections none = ask_collinfo
  cached_collections (some e) = lift (or_uncaught (collections_in e.response))

  -- `_fetch_recent_collection_apis`
  unfoldable pub fetch_recent_collection_apis : Collecting (List Collection)
  unfolding cache_get ask_collinfo get_field first_pairs compute_cache_key
  fetch_recent_collection_apis = do
    entry ← cache_get w collinfo_key
    collections ← cached_collections entry
    lift (or_uncaught (first_pairs 3 collections))

  -- the rows of one line, with `none` for a line that is no JSON
  abbrev row_of : Option Json → List Fields → List Fields
  row_of (some (obj row)) rows = row ∷ rows
  row_of _ rows = rows

  abbrev line_rows : Text → List Fields → List Fields
  line_rows [] rows = rows
  line_rows (c ∷ line) rows = row_of (w.loads (c ∷ line)) rows

  -- `_parse_ndjson_rows`, on the lines
  unfoldable pub parse_ndjson_rows : List Text → List Fields
  parse_ndjson_rows [] = []
  parse_ndjson_rows (line ∷ lines) = line_rows (w.strip line) (parse_ndjson_rows lines)

  -- `splitlines` and the decimal numeral are Python's
  module _ (splitlines : Text → List Text) (decimal : ℕ → Text) where
    abbrev pub query_url : Text → ℕ → Text
    query_url api limit = w.with_params api (
        (codes "url", w.target)
        ∷ (codes "matchType", codes "domain")
        ∷ (codes "output", codes "json")
        ∷ (codes "limit", decimal limit)
        ∷ [])

    -- what the loop's body makes of an answer, whose text is read as UTF-8
    abbrev rows_if : Text → Option Reply → List (Text × Fields)
    rows_if collection none = []
    rows_if collection (some r) =
        if r.status_code == 404
        then []
        else map (λ row. (collection, row)) (parse_ndjson_rows (splitlines (w.decode r.content)))

    -- the loop over the collections
    unfoldable pub fetch_rows : ℕ → List Collection → Collecting (List (Text × Fields))
    unfolding gateway_get parse_ndjson_rows
    fetch_rows limit [] = pure []
    fetch_rows limit ((collection, api) ∷ collections) = do
      answer ← caught (gateway_get w (request_of (query_url api limit) [] none))
      rest ← fetch_rows limit collections
      pure (rows_if collection answer ++ rest)

-- `max(1, MAX_INDEX_ROWS // len(collections))`
abbrev pub per_collection_limit : List Collection → ℕ
per_collection_limit collections = max 1 (5000 / length collections)
