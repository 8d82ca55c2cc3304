-- ===== src/Collectors/Wayback.antt =====
-- backend/app/collectors/wayback.py: the rows of the CDX index, gathered by URL. Cells are texts, as the
-- annotation `dict[str, str]` says; other cells end in an exception here.
pub mod Choice
pub mod Run
pub mod Scope
pub mod Budget
use recon_ledger.Prelude.{
  ℕ, suc, Bool, true, false, ◌&&◌, ◌||◌, not, Option, none, some, List, [], ◌∷◌, if◌then◌else◌,
  ◌==◌, Text, codes, text_eq, text_lt, ◌>>=◌,
}
use recon_ledger.Models.Json.{Json, str, arr, Items, nil, cons}
use recon_ledger.Services.Diff.{put, lookup}
use recon_ledger.Collectors.ArchiveUrls.{
  Urls, SplitUrl, canonicalize_archived_url, is_in_scope, extension_of,
}
use recon_ledger.Collectors.Errors.{provider_schema_error}
use recon_ledger.Collectors.Context.{
  Outcome, done, raised, collector_failure, uncaught, or_uncaught,
}

abbrev pub Row : Type 0
Row = List (Text × Text)

unfoldable pub mem_item : Text → Items → Bool
unfolding text_eq
mem_item t nil = false
mem_item t (cons (str s) xs) = text_eq t s || mem_item t xs
mem_item t (cons x xs) = mem_item t xs

unfoldable pub count_items : Items → ℕ
count_items nil = 0
count_items (cons x xs) = suc (count_items xs)

-- `dict(zip(header, row))`
unfoldable pub zip_into : Row → Items → Items → Option Row
unfolding put
zip_into d (cons (str k) ks) (cons (str v) vs) = zip_into (put k v d) ks vs
zip_into d (cons k ks) (cons v vs) = none
zip_into d _ _ = some d

abbrev with_row : Option Row → Option (List Row) → Option (List Row)
with_row (some d) (some ds) = some (d ∷ ds)
with_row _ _ = none

-- the rows of the header's length
unfoldable pub rows_of : Items → Items → Option (List Row)
unfolding zip_into count_items
rows_of header nil = some []
rows_of header (cons (arr row) rows) =
    let rest = rows_of header rows in
    if count_items row == count_items header then with_row (zip_into [] header row) rest else rest
rows_of header (cons _ rows) = rows_of header rows

abbrev schema_error : Text → Outcome (List Row)
schema_error detail = raised (collector_failure (provider_schema_error (codes "wayback") detail))

unfoldable pub rows_under : Json → Items → Outcome (List Row)
unfolding mem_item rows_of
rows_under (arr header) rows =
    if not (mem_item (codes "original") header) || not (mem_item (codes "timestamp") header)
    then schema_error (codes "CDX response missing its expected header row")
    else or_uncaught (rows_of header rows)
rows_under _ rows = schema_error (codes "CDX response missing its expected header row")

unfoldable pub parse_cdx_rows : Json → Outcome (List Row)
unfolding rows_under
parse_cdx_rows (arr (cons header rows)) = rows_under header rows
parse_cdx_rows _ = done []

-- An entry of `by_url`.
pub record ArchivedUrl : Type 0 where
  pub url : Text
  pub first_seen : Text
  pub last_seen : Text
  pub mimetype : Option Text
  pub statuscode : Option Text
  pub extension : Option Text
  pub best_timestamp : Text
  pub best_statuscode : Option Text

abbrev pub ByUrl : Type 0
ByUrl = List (Text × ArchivedUrl)

-- `status == "200"`
abbrev pub is_ok_status : Option Text → Bool
is_ok_status none = false
is_ok_status (some s) = text_eq s (codes "200")

unfoldable pub note_first : Text → ArchivedUrl → ArchivedUrl
unfolding text_lt
note_first ts e = if text_lt ts e.first_seen then record e { first_seen = ts } else e

unfoldable pub note_last : Text → Row → ArchivedUrl → ArchivedUrl
unfolding text_lt lookup
note_last ts row e =
    if text_lt e.last_seen ts
    then record e {
      last_seen = ts;
      mimetype = lookup (codes "mimetype") row;
      statuscode = lookup (codes "statuscode") row;
    }
    else e

unfoldable pub note_best : Text → Row → ArchivedUrl → ArchivedUrl
unfolding lookup text_eq
note_best ts row e =
    if is_ok_status (lookup (codes "statuscode") row)
    then record e { best_timestamp = ts; best_statuscode = some (codes "200") }
    else e

module _ (u : Urls) where
  abbrev path_extension : Option SplitUrl → Option Text
  path_extension none = none
  path_extension (some p) = extension_of u p.path

  -- `extract_extension`, on a URL that `is_in_scope` has been able to split
  unfoldable pub extract_extension : Text → Option Text
  unfolding extension_of
  extract_extension url = path_extension (u.urlsplit url)

  unfoldable pub new_entry : Text → Text → Row → ArchivedUrl
  unfolding extract_extension lookup
  new_entry url ts row = record {
    url = url;
    first_seen = ts;
    last_seen = ts;
    mimetype = lookup (codes "mimetype") row;
    statuscode = lookup (codes "statuscode") row;
    extension = extract_extension url;
    best_timestamp = ts;
    best_statuscode = lookup (codes "statuscode") row;
  }

  abbrev or_new : Text → Text → Row → Option ArchivedUrl → ArchivedUrl
  or_new url ts row none = new_entry url ts row
  or_new url ts row (some e) = e

  -- the entry of a URL in scope, with this row noted
  unfoldable pub note_row : Text → Text → Row → ByUrl → ByUrl
  unfolding put lookup new_entry note_first note_last note_best
  note_row url ts row d =
      put url
        (note_best ts row (note_last ts row (note_first ts (or_new url ts row (lookup url d))))) d

  abbrev if_in_scope : Text → Text → Row → ByUrl → Option Bool → Option ByUrl
  if_in_scope url ts row d none = none
  if_in_scope url ts row d (some false) = some d
  if_in_scope url ts row d (some true) = some (note_row url ts row d)

  abbrev if_canonical : Text → Text → Row → ByUrl → Option Text → Option ByUrl
  if_canonical target ts row d none = some d
  if_canonical target ts row d (some url) = if_in_scope url ts row d (is_in_scope u url target)

  abbrev if_given : Text → Row → ByUrl → Option Text → Option Text → Option ByUrl
  if_given target row d (some (c ∷ o)) (some (t ∷ ts)) =
      if_canonical target (t ∷ ts) row d (canonicalize_archived_url u (c ∷ o))
  if_given target row d _ _ = some d

  -- the loop's body; `none` for an exception
  unfoldable pub take_row : Text → Row → ByUrl → Option ByUrl
  unfolding lookup note_row is_in_scope canonicalize_archived_url
  take_row target row d =
      if_given target row d (lookup (codes "original") row) (lookup (codes "timestamp") row)

  unfoldable pub aggregate_from : Text → List Row → ByUrl → Option ByUrl
  unfolding take_row
  aggregate_from target [] d = some d
  aggregate_from target (row ∷ rows) d = take_row target row d >>= aggregate_from target rows

  unfoldable pub aggregate_by_url : List Row → Text → Option ByUrl
  unfolding aggregate_from
  aggregate_by_url rows target = aggregate_from target rows []
