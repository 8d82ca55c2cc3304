-- ===== src/Services/Subdomains.antt =====
-- backend/app/services/subdomains.py: the rows of the subdomain workspace. Dates are texts or null, as the
-- crt.sh collector writes them.
pub mod Rows
use recon_ledger.Prelude.{
  ℕ, Bool, true, false, ◌||◌, Option, none, some, List, [], ◌∷◌, ◌++◌, map, filter, length,
  if◌then◌else◌, Text, codes, text_eq, text_lt, ends_with, add_text, sort_texts, sort_by,
}
use recon_ledger.Models.Json.{Json, str, obj, Fields, get_field, truthy}
use recon_ledger.Models.Db.{Finding}
use recon_ledger.Services.Diff.{put, lookup}
use recon_ledger.Services.CsvExport.{SubdomainRow}

pub record Accumulator : Type 0 where
  pub sources : List Text
  pub wildcard : Bool
  pub first_seen_at : Option Text
  pub last_seen_at : Option Text

pub record Extracted : Type 0 where
  pub subdomain : Text
  pub wildcard : Bool
  pub first_seen : Option Text
  pub last_seen : Option Text

abbrev date_of : Option Json → Option Text
date_of (some (str (c ∷ t))) = some (c ∷ t)
date_of _ = none

abbrev is_true : Option Json → Bool
is_true none = false
is_true (some v) = truthy v

abbrev name_of : Option Json → Option Text
name_of (some (str (c ∷ t))) = some (c ∷ t)
name_of _ = none

abbrev extracted_if : Fields → Option Text → Option Extracted
extracted_if fs none = none
extracted_if fs (some subdomain) = some (record {
  subdomain = subdomain;
  wildcard = is_true (get_field (codes "wildcard") fs);
  first_seen = date_of (get_field (codes "not_before_min") fs);
  last_seen = date_of (get_field (codes "not_after_max") fs);
})

-- `_extract_from_ct_subdomain`
unfoldable pub extract_from_ct_subdomain : Json → Option Extracted
unfolding get_field
extract_from_ct_subdomain (obj fs) = extracted_if fs (name_of (get_field (codes "subdomain") fs))
extract_from_ct_subdomain _ = none

-- `_EXTRACTORS.get(finding.kind)`, applied
unfoldable pub extract : Finding → Option Extracted
unfolding text_eq extract_from_ct_subdomain
extract f =
    if text_eq f.kind (codes "ct.subdomain")
    then extract_from_ct_subdomain f.normalized_value
    else none

unfoldable pub earliest : Option Text → Option Text → Option Text
unfolding text_lt
earliest none seen = seen
earliest (some t) none = some t
earliest (some t) (some seen) = if text_lt t seen then some t else some seen

unfoldable pub latest : Option Text → Option Text → Option Text
unfolding text_lt
latest none seen = seen
latest (some t) none = some t
latest (some t) (some seen) = if text_lt seen t then some t else some seen

abbrev pub or_fresh : Option Accumulator → Accumulator
or_fresh none = record { sources = []; wildcard = false; first_seen_at = none; last_seen_at = none }
or_fresh (some a) = a

unfoldable pub accumulate : Text → Extracted → Accumulator → Accumulator
unfolding add_text earliest latest
accumulate collector x a = record {
  sources = add_text collector a.sources;
  wildcard = a.wildcard || x.wildcard;
  first_seen_at = earliest x.first_seen a.first_seen_at;
  last_seen_at = latest x.last_seen a.last_seen_at;
}

abbrev pub BySubdomain : Type 0
BySubdomain = List (Text × Accumulator)

abbrev pub take_extracted : Text → BySubdomain → Option Extracted → BySubdomain
take_extracted collector d none = d
take_extracted collector d (some x) =
    put x.subdomain (accumulate collector x (or_fresh (lookup x.subdomain d))) d

unfoldable pub gather : List Finding → BySubdomain → BySubdomain
unfolding extract accumulate put lookup
gather [] d = d
gather (f ∷ fs) d = gather fs (take_extracted f.collector d (extract f))

unfoldable pub is_in_scope : Text → Text → Bool
unfolding text_eq ends_with
is_in_scope target subdomain = text_eq subdomain target || ends_with subdomain (codes "." ++ target)

unfoldable pub row_of : Text → Text × Accumulator → SubdomainRow
unfolding sort_texts is_in_scope
row_of target (subdomain, a) = record {
  subdomain = subdomain;
  source_count = length a.sources;
  sources = sort_texts a.sources;
  first_seen_at = a.first_seen_at;
  last_seen_at = a.last_seen_at;
  wildcard = a.wildcard;
  in_scope = is_in_scope target subdomain;
}

unfoldable pub aggregate_subdomains : Text → List Finding → List SubdomainRow
unfolding gather row_of filter sort_by
aggregate_subdomains target findings =
    sort_by (λ r. r.subdomain) (filter (λ r. r.in_scope) (map (row_of target) (gather findings [])))
