-- ===== src/Collectors/CommonCrawl.antt =====
-- backend/app/collectors/commoncrawl.py: the rows of the CDX indexes, gathered by URL. URLs, timestamps and
-- collections are texts; of another type they end in an exception here.
pub mod Index
pub mod Samples
pub mod Run
pub mod Spent
use recon_ledger.Prelude.{
  Bool, true, false, ◌&&◌, ◌||◌, not, Option, none, some, List, [], ◌∷◌, map, filter, add_text,
  if◌then◌else◌, Text, codes, text_eq, text_lt, ◌>>=◌,
}
use recon_ledger.Models.Json.{Json, str, obj, Fields, get_field, truthy}
use recon_ledger.Services.Diff.{put, lookup}
use recon_ledger.Collectors.ArchiveUrls.{Urls, canonicalize_archived_url, is_in_scope}
use recon_ledger.Collectors.Wayback.{extract_extension}
use recon_ledger.Collectors.Wayback.Choice.{choose}

-- An entry of `by_url`.
pub record CrawledUrl : Type 0 where
  pub url : Text
  pub collections : List Text
  pub first_seen : Text
  pub last_seen : Text
  pub mime : Option Json
  pub status : Option Json
  pub extension : Option Text
  pub best_record : Option Fields

abbrev pub ByUrl : Type 0
ByUrl = List (Text × CrawledUrl)

unfoldable pub note_first : Text → CrawledUrl → CrawledUrl
unfolding text_lt
note_first ts e = if text_lt ts e.first_seen then record e { first_seen = ts } else e

unfoldable pub note_last : Text → Fields → CrawledUrl → CrawledUrl
unfolding text_lt get_field
note_last ts row e =
    if text_lt e.last_seen ts
    then record e {
      last_seen = ts;
      mime = get_field (codes "mime") row;
      status = get_field (codes "status") row;
    }
    else e

-- `row.get("status") == "200"`
abbrev is_200 : Option Json → Bool
is_200 (some (str s)) = text_eq s (codes "200")
is_200 _ = false

abbrev is_given : Option Json → Bool
is_given none = false
is_given (some v) = truthy v

abbrev is_none : Option Fields → Bool
is_none none = true
is_none (some row) = false

unfoldable pub note_best : Fields → CrawledUrl → CrawledUrl
unfolding get_field text_eq
note_best row e =
    if is_200 (get_field (codes "status") row)
      && (is_given (get_field (codes "filename") row) && is_none e.best_record)
    then record e { best_record = some row }
    else e

abbrev note_collection : Text → CrawledUrl → CrawledUrl
note_collection collection e = record e { collections = add_text collection e.collections }

module _ (u : Urls) where
  abbrev pub or_new : Text → Text → Fields → Option CrawledUrl → CrawledUrl
  or_new url ts row none = record {
    url = url;
    collections = [];
    first_seen = ts;
    last_seen = ts;
    mime = get_field (codes "mime") row;
    status = get_field (codes "status") row;
    extension = extract_extension u url;
    best_record = none;
  }
  or_new url ts row (some e) = e

  -- the entry of a URL in scope, with this row noted
  unfoldable pub note_row : Text → Text → Text → Fields → ByUrl → ByUrl
  unfolding put lookup add_text get_field note_first note_last note_best extract_extension
  note_row collection url ts row d =
      put url
        (note_best row (
          note_last ts row
            (note_first ts (note_collection collection (or_new url ts row (lookup url d))))))
        d

  abbrev pub if_in_scope : Text → Text → Text → Fields → ByUrl → Option Bool → Option ByUrl
  if_in_scope collection url ts row d none = none
  if_in_scope collection url ts row d (some false) = some d
  if_in_scope collection url ts row d (some true) = some (note_row collection url ts row d)

  abbrev pub if_canonical : Text → Text → Text → Fields → ByUrl → Option Text → Option ByUrl
  if_canonical target collection ts row d none = some d
  if_canonical target collection ts row d (some url) =
      if_in_scope collection url ts row d (is_in_scope u url target)

  -- `if not original or not timestamp: continue`, and the types of the two
  abbrev pub if_given : Text → Text → Fields → ByUrl → Option Json → Option Json → Option ByUrl
  if_given target collection row d none timestamp = some d
  if_given target collection row d (some original) none = some d
  if_given target collection row d (some (str (c ∷ o))) (some (str (t ∷ ts))) =
      if_canonical target collection (t ∷ ts) row d (canonicalize_archived_url u (c ∷ o))
  if_given target collection row d (some original) (some timestamp) =
      if truthy original && truthy timestamp then none else some d

  -- the loop's body; `none` for an exception
  unfoldable pub take_row : Text → Text × Fields → ByUrl → Option ByUrl
  unfolding get_field note_row is_in_scope canonicalize_archived_url
  take_row target (collection, row) d =
      if_given target collection row d (get_field (codes "url") row)
        (get_field (codes "timestamp") row)

  unfoldable pub aggregate_from : Text → List (Text × Fields) → ByUrl → Option ByUrl
  unfolding take_row
  aggregate_from target [] d = some d
  aggregate_from target (row ∷ rows) d = take_row target row d >>= aggregate_from target rows

  unfoldable pub aggregate_by_url : List (Text × Fields) → Text → Option ByUrl
  unfolding aggregate_from
  aggregate_by_url rows target = aggregate_from target rows []

unfoldable pub candidates : ByUrl → List CrawledUrl
unfolding filter
candidates d = filter (λ e. not (is_none e.best_record)) (map (λ e. e.1) d)

-- `_select_representative`
unfoldable pub select_representative : ByUrl → List CrawledUrl
unfolding candidates choose
select_representative d = choose (λ e. e.url) (λ e. e.extension) (candidates d)
