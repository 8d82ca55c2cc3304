-- ===== src/Collectors/Caching/Remembered.antt =====
-- What a collector has found, it does not ask for again.
use recon_ledger.Prelude.{ℕ, ◌+◌, ◌<◌, none, some, List, ◌≡◌, refl, true, Text, ◌∙◌, ap, suc}
use recon_ledger.Models.Json.{Json}
use recon_ledger.Models.Db.{CacheEntry}
use recon_ledger.Services.Cache
use recon_ledger.Services.Cache.{Stored, merge, entry_of, get-set}
use recon_ledger.Collectors.Contract.{CollectedFinding}
use recon_ledger.Collectors.Context.{Surroundings, Session, done, cache_get, cache_set}
use recon_ledger.Collectors.Caching.{findings_in, findings_value}
use recon_ledger.Collectors.Caching.RoundTrip.{ReadsTimes, findings_in-findings_value}
use recon_ledger.Collectors.Caching.Access.{
  Asking, served, get_cached_findings, store_findings_in_cache, ask_and_store, or_ask,
  cached_or_asked, status_for, ttl_for,
}

module _ (w : Surroundings) (r : ReadsTimes w) where
  -- An entry that answers is served.
  get_cached_findings-hit :
      (k : Text) (t : Session) (e : CacheEntry) (fs : List CollectedFinding)
      → Cache.get (w.clock t.readings) k t.cache ≡ some e
      → findings_in w e.normalized_findings ≡ some fs
      → get_cached_findings w k t
        ≡ (done (some fs), record t { cache_hit = true; readings = suc t.readings })
  unfolding get_cached_findings cache_get served
  get_cached_findings-hit k t e fs h g = rw (h, g) refl

  cached_or_asked-hit :
      (k : Text) (positive negative : ℕ) (ask : Asking w) (t : Session) (e : CacheEntry)
      (fs : List CollectedFinding)
      → Cache.get (w.clock t.readings) k t.cache ≡ some e
      → findings_in w e.normalized_findings ≡ some fs
      → cached_or_asked w k positive negative ask t
        ≡ (done fs, record t { cache_hit = true; readings = suc t.readings })
  unfolding cached_or_asked or_ask
  cached_or_asked-hit k positive negative ask t e fs h g =
      rw (get_cached_findings-hit k t e fs h g) refl

  module _ (k : Text) (positive negative : ℕ) (ask : Asking w) (s s0 s1 : Session)
      (fs : List CollectedFinding) (response : Json) where
    abbrev stored : Stored
    stored = record {
      status = status_for w fs;
      response = response;
      normalized_findings = findings_value w fs;
      ttl = ttl_for w positive negative fs;
      credential_scope_hash = none;
      etag = none;
      last_modified = none;
    }

    abbrev stored_entry : CacheEntry
    stored_entry = entry_of w.access (w.clock s1.readings) k stored

    cached_or_asked-miss :
        get_cached_findings w k s ≡ (done none, s0)
        → ask s0 ≡ (done (fs, response), s1)
        → cached_or_asked w k positive negative ask s
          ≡ (done fs, record s1 { cache = merge stored_entry s1.cache; readings = suc s1.readings })
    unfolding cached_or_asked or_ask ask_and_store store_findings_in_cache cache_set Cache.set
        stored_entry
    cached_or_asked-miss h a = rw (h, a) refl

    -- A run that finds nothing in the cache and whose questions succeed returns what it found. Until the
    -- time to live has passed, every later run on that cache, whatever it would ask, returns the same
    -- findings: it sends no request, leaves the cache as it is, and is marked as a cache hit; if
    -- `fromisoformat` reads what `isoformat` writes and refuses the empty text.
    pub cached_or_asked_again :
        get_cached_findings w k s ≡ (done none, s0)
        → ask s0 ≡ (done (fs, response), s1)
        → (other : Asking w) (t : Session)
        → t.cache ≡ (cached_or_asked w k positive negative ask s).1.cache
        → w.clock t.readings < w.clock s1.readings + ttl_for w positive negative fs
        → ((cached_or_asked w k positive negative ask s).0 ≡ done fs)
          × (cached_or_asked w k positive negative other t
              ≡ (done fs, record t { cache_hit = true; readings = suc t.readings }))
    unfolding Cache.set
    cached_or_asked_again h a other t c l =
        let m = cached_or_asked-miss h a in
        let same : t.cache ≡ merge stored_entry s1.cache = c ∙ ap (λ x. x.1.cache) m in
        let found : Cache.get (w.clock t.readings) k t.cache ≡ some stored_entry =
          ap (Cache.get (w.clock t.readings) k) same
          ∙ get-set w.access (w.clock s1.readings) (w.clock t.readings) k stored s1.cache l in
        (
          ap (λ x. x.0) m,
          cached_or_asked-hit k positive negative other t stored_entry fs found
              (findings_in-findings_value w r fs),
        )
