-- ===== src/Collectors/Caching/Access.antt =====
-- `get_cached_findings` and `store_findings_in_cache` of backend/app/collectors/caching.py, and the frame
-- that the runs of the collectors share: what is cached is returned, else what the collector found is
-- stored.
use recon_ledger.Prelude.{ℕ, Option, none, some, List, [], ◌∷◌, true, Text, codes}
use recon_ledger.Models.Json.{Json}
use recon_ledger.Models.Db.{CacheEntry}
use recon_ledger.Collectors.Contract.{CollectedFinding}
use recon_ledger.Collectors.Context.{
  Surroundings, done, raised, uncaught, Collecting, ◌>>=◌, ◌>>◌, pure, cache_get, cache_set,
}
use recon_ledger.Collectors.Caching.{findings_in, findings_value}

module _ (w : Surroundings) where
  -- `context.cache_hit = True`, and the entry's findings
  unfoldable pub served : Option CacheEntry → Collecting (Option (List CollectedFinding))
  unfolding findings_in
  served none s = (done none, s)
  served (some e) s = (
    elim (findings_in w e.normalized_findings) [
      | none ↦ raised uncaught
      | some fs ↦ done (some fs)
    ],
    record s { cache_hit = true },
  )

  unfoldable pub get_cached_findings : Text → Collecting (Option (List CollectedFinding))
  unfolding cache_get served
  get_cached_findings k = cache_get w k >>= served

  unfoldable pub store_findings_in_cache :
      Text → List CollectedFinding → Text → Json → ℕ → Collecting (Unit {0})
  unfolding cache_set findings_value
  store_findings_in_cache k fs status response ttl = cache_set w k (record {
    status = status;
    response = response;
    normalized_findings = findings_value w fs;
    ttl = ttl;
    credential_scope_hash = none;
    etag = none;
    last_modified = none;
  })

  -- `CACHE_STATUS_SUCCESS if findings else CACHE_STATUS_EMPTY`
  abbrev pub status_for : List CollectedFinding → Text
  status_for [] = codes "empty"
  status_for (f ∷ fs) = codes "success"

  -- `POSITIVE_TTL_SECONDS if findings else NEGATIVE_TTL_SECONDS`
  abbrev pub ttl_for : ℕ → ℕ → List CollectedFinding → ℕ
  ttl_for positive negative [] = negative
  ttl_for positive negative (f ∷ fs) = positive

  -- What a collector asks of its providers: the findings, and the summary of the response it stores.
  abbrev pub Asking : Type 0
  Asking = Collecting (List CollectedFinding × Json)

  unfoldable pub ask_and_store : Text → ℕ → ℕ → Asking → Collecting (List CollectedFinding)
  unfolding store_findings_in_cache
  ask_and_store k positive negative ask = do
    found ← ask
    store_findings_in_cache k found.0 (status_for found.0) found.1
        (ttl_for positive negative found.0)
    pure found.0

  unfoldable pub or_ask :
      Text → ℕ → ℕ → Asking → Option (List CollectedFinding) → Collecting (List CollectedFinding)
  unfolding ask_and_store
  or_ask k positive negative ask none = ask_and_store k positive negative ask
  or_ask k positive negative ask (some fs) = pure fs

  unfoldable pub cached_or_asked : Text → ℕ → ℕ → Asking → Collecting (List CollectedFinding)
  unfolding get_cached_findings or_ask
  cached_or_asked k positive negative ask = get_cached_findings k >>= or_ask k positive negative ask
