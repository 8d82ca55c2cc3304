-- ===== src/Services/Cache.antt =====
-- `CacheAccess` and `purge_all` of backend/app/services/cache.py, on the table of cache entries.
pub mod Replay
use recon_ledger.Prelude.{
  ℕ, ◌+◌, false, Option, none, some, List, [], ◌∷◌, find, leb, if◌then◌else◌, ◌≡◌, ◌≤◌, ◌<◌, refl,
  ap, arith, Bool-cases, inl, inr, Text, text_eq, text_eq_refl, text_eq_sound,
}
use recon_ledger.Models.Json.{Json}
use recon_ledger.Models.Db.{CacheEntry}

-- the collector run that a `CacheAccess` is bound to
pub record CacheAccess : Type 0 where
  pub collector : Text
  pub schema_version : Text

-- `session.get(CacheEntry, cache_key)`
unfoldable pub find_entry : Text → List CacheEntry → Option CacheEntry
unfolding find text_eq
find_entry k entries = find (λ e. text_eq e.cache_key k) entries

abbrev pub fresh : ℕ → Option CacheEntry → Option CacheEntry
fresh now none = none
fresh now (some e) = if leb e.expires_at now then none else some e

unfoldable pub get : ℕ → Text → List CacheEntry → Option CacheEntry
unfolding find_entry
get now k entries = fresh now (find_entry k entries)

-- `session.merge`: the row with this key, or a new one
unfoldable pub merge : CacheEntry → List CacheEntry → List CacheEntry
unfolding text_eq
merge new [] = new ∷ []
merge new (e ∷ rest) =
    let others = merge new rest in
    if text_eq e.cache_key new.cache_key then new ∷ rest else e ∷ others

-- What the caller of `set` gives.
pub record Stored : Type 0 where
  pub status : Text
  pub response : Json
  pub normalized_findings : Json
  pub ttl : ℕ
  pub credential_scope_hash : Option Text
  pub etag : Option Text
  pub last_modified : Option Text

abbrev pub entry_of : CacheAccess → ℕ → Text → Stored → CacheEntry
entry_of c now k s = record {
  cache_key = k;
  collector = c.collector;
  schema_version = c.schema_version;
  credential_scope_hash = s.credential_scope_hash;
  status = s.status;
  response = s.response;
  normalized_findings = s.normalized_findings;
  retrieved_at = now;
  expires_at = now + s.ttl;
  etag = s.etag;
  last_modified = s.last_modified;
}

unfoldable pub set : CacheAccess → ℕ → Text → Stored → List CacheEntry → List CacheEntry
unfolding merge
set c now k s entries = merge (entry_of c now k s) entries

-- `purge_all`
unfoldable pub purge_all : List CacheEntry → List CacheEntry
purge_all entries = []

pub find-merge :
    (new : CacheEntry) (entries : List CacheEntry)
    → find_entry new.cache_key (merge new entries) ≡ some new
unfolding find_entry merge find
find-merge new [] = ground (arith, text_eq_refl new.cache_key)
find-merge new (e ∷ rest) = elim (Bool-cases (text_eq e.cache_key new.cache_key)) [
  | inl h ↦ rw h (ground (arith, text_eq_refl new.cache_key))
  | inr h ↦ ground (arith, find-merge new rest)
]

pub find-merge_other :
    (new : CacheEntry) (k : Text) (entries : List CacheEntry)
    → text_eq new.cache_key k ≡ false
    → find_entry k (merge new entries) ≡ find_entry k entries
unfolding find_entry merge find
find-merge_other new k [] d = rw d refl
find-merge_other new k (e ∷ rest) d = elim (Bool-cases (text_eq e.cache_key new.cache_key)) [
  | inl h ↦
      let other : text_eq e.cache_key k ≡ text_eq new.cache_key k =
        ap (λ x. text_eq x k) (text_eq_sound e.cache_key new.cache_key h) in
      ground arith
  | inr h ↦ ground (arith, find-merge_other new k rest)
]

module _ (c : CacheAccess) (now later : ℕ) (k : Text) (s : Stored) (entries : List CacheEntry) where
  -- Until its time to live has passed, an entry that was stored is found under its key.
  pub get-set :
      later < now + s.ttl → get later k (set c now k s entries) ≡ some (entry_of c now k s)
  unfolding get set
  get-set h = rw (find-merge (entry_of c now k s) entries) (ground arith)

  -- Once its time to live has passed, nothing is found under its key.
  pub get-set_expired : now + s.ttl ≤ later → get later k (set c now k s entries) ≡ none
  unfolding get set
  get-set_expired h = rw (find-merge (entry_of c now k s) entries) (ground arith)

  -- What is found under another key, storing an entry does not change.
  pub get-set_other :
      (j : Text) → text_eq k j ≡ false → get later j (set c now k s entries) ≡ get later j entries
  unfolding get set
  get-set_other j d = rw (find-merge_other (entry_of c now k s) j entries d) refl
