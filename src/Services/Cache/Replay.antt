-- ===== src/Services/Cache/Replay.antt =====
-- The cache as a map: what the table answers after any sequence of its operations.
use recon_ledger.Prelude.{
  ℕ, ◌+◌, ltb, arith, Option, none, some, List, [], ◌∷◌, ◌≡◌, refl, Bool-cases, inl, inr, Text,
  text_eq, text_eq_sound, if◌then◌else◌, ap, sym, ◌∙◌,
}
use recon_ledger.Models.Db.{CacheEntry}
use recon_ledger.Services.Cache.{
  CacheAccess, Stored, entry_of, find_entry, fresh, get, set, purge_all, find-merge,
  find-merge_other,
}

-- An operation that changes the table. A `set` has the run it is bound to and the time it is made at.
pub data Operation : Type 0 where
  store : CacheAccess → ℕ → Text → Stored → Operation
  purge : Operation

unfoldable pub perform : Operation → List CacheEntry → List CacheEntry
unfolding set purge_all
perform (store c now k s) entries = set c now k s entries
perform purge entries = purge_all entries

unfoldable pub perform_all : List Operation → List CacheEntry → List CacheEntry
unfolding perform
perform_all [] entries = entries
perform_all (o ∷ os) entries = perform_all os (perform o entries)

-- What is known of a key: what was stored under it last since the last purge, by which run, and when.
pub record Kept : Type 0 where
  pub by : CacheAccess
  pub at : ℕ
  pub what : Stored

abbrev pub View : Type 0
View = Text → Option Kept

unfoldable pub perform_on_view : Operation → View → View
unfolding text_eq
perform_on_view (store c now k s) v j =
    if text_eq k j then some (record { by = c; at = now; what = s }) else v j
perform_on_view purge v j = none

unfoldable pub perform_all_on_view : List Operation → View → View
unfolding perform_on_view
perform_all_on_view [] v = v
perform_all_on_view (o ∷ os) v = perform_all_on_view os (perform_on_view o v)

-- What a cache must answer: what is kept, until its time to live has passed.
abbrev pub expected : ℕ → Text → Option Kept → Option CacheEntry
expected now j none = none
expected now j (some m) =
    if ltb now (m.at + m.what.ttl)
    then some (record {
      cache_key = j;
      collector = m.by.collector;
      schema_version = m.by.schema_version;
      credential_scope_hash = m.what.credential_scope_hash;
      status = m.what.status;
      response = m.what.response;
      normalized_findings = m.what.normalized_findings;
      retrieved_at = m.at;
      expires_at = m.at + m.what.ttl;
      etag = m.what.etag;
      last_modified = m.what.last_modified;
    })
    else none

-- The row for what is kept, and a table that has just these rows.
abbrev row_for : Text → Option Kept → Option CacheEntry
row_for j none = none
row_for j (some m) = some (entry_of m.by m.at j m.what)

abbrev Holds : List CacheEntry → View → Type 0
Holds entries v = (j : Text) → find_entry j entries ≡ row_for j (v j)

perform-Holds :
    (o : Operation) (entries : List CacheEntry) (v : View)
    → Holds entries v
    → Holds (perform o entries) (perform_on_view o v)
unfolding perform perform_on_view set purge_all find_entry
perform-Holds (store c now k s) entries v h j = elim (Bool-cases (text_eq k j)) [
  | inl e ↦ rw (e, sym (text_eq_sound k j e)) (find-merge (entry_of c now k s) entries)
  | inr e ↦ rw e (find-merge_other (entry_of c now k s) j entries e ∙ h j)
]
perform-Holds purge entries v h j = refl

perform_all-Holds :
    (os : List Operation) (entries : List CacheEntry) (v : View)
    → Holds entries v
    → Holds (perform_all os entries) (perform_all_on_view os v)
unfolding perform_all perform_all_on_view
perform_all-Holds [] entries v h = h
perform_all-Holds (o ∷ os) entries v h =
    perform_all-Holds os (perform o entries) (perform_on_view o v) (perform-Holds o entries v h)

fresh-expected : (now : ℕ) (j : Text) (o : Option Kept) → fresh now (row_for j o) ≡ expected now j o
fresh-expected now j none = refl
fresh-expected now j (some m) = elim (Bool-cases (ltb now (m.at + m.what.ttl))) [
  | inl e ↦ ground arith
  | inr e ↦ ground arith
]

empty-Holds : Holds [] (λ k. none)
unfolding find_entry
empty-Holds i = refl

-- On a table that is empty at first, after any sequence of stores and purges: the cache answers for each
-- key with what was stored last under it since the last purge, with the run it was stored by and its
-- times, until its time to live has passed; and with nothing otherwise.
pub get-perform_all :
    (os : List Operation) (now : ℕ) (j : Text)
    → get now j (perform_all os []) ≡ expected now j (perform_all_on_view os (λ k. none) j)
unfolding get
get-perform_all os now j =
    ap (fresh now) (perform_all-Holds os [] (λ k. none) empty-Holds j)
    ∙ fresh-expected now j (perform_all_on_view os (λ k. none) j)
