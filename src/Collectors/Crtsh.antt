-- ===== src/Collectors/Crtsh.antt =====
-- backend/app/collectors/crtsh.py: the names in certificates. Issuers and dates are texts; of another type
-- they end in an exception here, as they mostly do in the source.
pub mod Run
pub mod Scope
use recon_ledger.Prelude.{
  ℕ, suc, ◌+◌, Bool, true, false, ◌&&◌, ◌||◌, not, Option, none, some, List, [], ◌∷◌, ◌++◌, map,
  length, drop, split, join, starts_with, ends_with, add_text, sort_texts, if◌then◌else◌, ◌==◌,
  Text, codes, text_eq, text_lt, ◌>>=◌,
}
use recon_ledger.Models.Json.{
  Json, str, arr, obj, null, Items, nil, cons, Fields, get_field, truthy,
}
use recon_ledger.Services.Diff.{put, lookup}

-- `text.rstrip(c)`
unfoldable pub rstrip : ℕ → Text → Text
rstrip c [] = []
rstrip c (d ∷ s) =
    let rest = rstrip c s in elim rest [ [] ↦ if d == c then [] else d ∷ [] | e ∷ r ↦ d ∷ e ∷ r ]

-- Python's functions on texts: `idna` is `encode("idna").decode("ascii")`, `none` for a UnicodeError, and
-- `show` is `str`.
pub record Names : Type 0 where
  pub strip : Text → Text
  pub lower : Text → Text
  pub idna : Text → Option Text
  pub show : Json → Text

-- An entry of `by_subdomain`.
pub record CtEntry : Type 0 where
  pub subdomain : Text
  pub wildcard : Bool
  pub cert_count : ℕ
  pub cert_ids : List Json
  pub issuers : List Text
  pub not_before_min : Option Text
  pub not_after_max : Option Text

abbrev pub BySubdomain : Type 0
BySubdomain = List (Text × CtEntry)

abbrev pub if_any : Text → Bool → Option (Text × Bool)
if_any [] b = none
if_any (c ∷ s) b = some (c ∷ s, b)

-- the name without the prefix of a wildcard, and whether there was one
unfoldable pub without_wildcard : Text → Option (Text × Bool)
unfolding starts_with
without_wildcard name =
    if starts_with name (codes "*.") then if_any (drop 2 name) true else if_any name false

abbrev pub within : Text → Text → Bool → Option (Text × Bool)
within target canonical b =
    if not (text_eq canonical target) && not (ends_with canonical (codes "." ++ target))
    then none
    else some (canonical, b)

-- `entry["issuers"].add(issuer)` if there is one; `none` for an exception
unfoldable pub add_issuer : Option Json → List Text → Option (List Text)
unfolding add_text
add_issuer none issuers = some issuers
add_issuer (some (str [])) issuers = some issuers
add_issuer (some (str (c ∷ t))) issuers = some (add_text (c ∷ t) issuers)
add_issuer (some v) issuers = if truthy v then none else some issuers

-- a bound after one more date: `reducer` says which of two stays
abbrev pub bounded : (Text → Text → Text) → Option Json → Option Text → Option (Option Text)
bounded reducer none bound = some bound
bounded reducer (some (str [])) bound = some bound
bounded reducer (some (str (c ∷ t))) none = some (some (c ∷ t))
bounded reducer (some (str (c ∷ t))) (some b) = some (some (reducer b (c ∷ t)))
bounded reducer (some v) bound = if truthy v then none else some bound

-- `min(a, b)` and `max(a, b)` on texts
unfoldable pub min_text : Text → Text → Text
unfolding text_lt
min_text a b = if text_lt b a then b else a

unfoldable pub max_text : Text → Text → Text
unfolding text_lt
max_text a b = if text_lt a b then b else a

abbrev pub with_id : Option Json → List Json → List Json
with_id none ids = ids
with_id (some null) ids = ids
with_id (some v) ids = ids ++ v ∷ []

abbrev pub new_entry : Text → CtEntry
new_entry subdomain = record {
  subdomain = subdomain;
  wildcard = false;
  cert_count = 0;
  cert_ids = [];
  issuers = [];
  not_before_min = none;
  not_after_max = none;
}

abbrev pub or_new : Text → Option CtEntry → CtEntry
or_new subdomain none = new_entry subdomain
or_new subdomain (some e) = e

abbrev pub noted : Fields → Bool → CtEntry → List Text → Option Text → Option Text → CtEntry
noted cert is_wildcard e issuers first last = record {
  subdomain = e.subdomain;
  wildcard = e.wildcard || is_wildcard;
  cert_count = e.cert_count + 1;
  cert_ids = with_id (get_field (codes "id") cert) e.cert_ids;
  issuers = issuers;
  not_before_min = first;
  not_after_max = last;
}

abbrev pub noted_if :
    Fields
    → Bool
    → CtEntry
    → Option (List Text)
    → Option (Option Text)
    → Option (Option Text)
    → Option CtEntry
noted_if cert is_wildcard e (some issuers) (some first) (some last) =
    some (noted cert is_wildcard e issuers first last)
noted_if cert is_wildcard e _ _ _ = none

-- the entry after one more certificate
unfoldable pub note_cert : Fields → Bool → CtEntry → Option CtEntry
unfolding get_field add_issuer min_text max_text
note_cert cert is_wildcard e =
    noted_if cert is_wildcard e (add_issuer (get_field (codes "issuer_name") cert) e.issuers)
      (bounded min_text (get_field (codes "not_before") cert) e.not_before_min)
      (bounded max_text (get_field (codes "not_after") cert) e.not_after_max)

abbrev pub put_entry : Text → BySubdomain → Option CtEntry → Option BySubdomain
put_entry subdomain d none = none
put_entry subdomain d (some e) = some (put subdomain e d)

abbrev pub take_parsed : Fields → BySubdomain → Option (Text × Bool) → Option BySubdomain
take_parsed cert d none = some d
take_parsed cert d (some (subdomain, is_wildcard)) =
    put_entry subdomain d (note_cert cert is_wildcard (or_new subdomain (lookup subdomain d)))

module _ (n : Names) where
  unfoldable pub labels_of : List Text → Option (List Text)
  labels_of [] = some []
  labels_of (l ∷ ls) = do label ← n.idna l; labels ← labels_of ls; some (label ∷ labels)

  abbrev pub in_target : Text → Bool → Option (List Text) → Option (Text × Bool)
  in_target target b none = none
  in_target target b (some labels) = within target (join (codes ".") labels) b

  abbrev pub canonical_name : Text → Option (Text × Bool) → Option (Text × Bool)
  canonical_name target none = none
  canonical_name target (some (name, b)) = in_target target b (labels_of (split (codes ".") name))

  unfoldable pub normalize_name : Text → Text → Option (Text × Bool)
  unfolding rstrip without_wildcard labels_of split text_eq ends_with
  normalize_name raw target =
      canonical_name target (without_wildcard (n.lower (rstrip 46 (n.strip raw))))

  -- `str(value or "")`
  abbrev pub text_or_empty : Option Json → Text
  text_or_empty none = []
  text_or_empty (some (str t)) = t
  text_or_empty (some v) = if truthy v then n.show v else []

  unfoldable pub take_names : Text → Fields → List Text → BySubdomain → Option BySubdomain
  unfolding normalize_name note_cert put lookup
  take_names target cert [] d = some d
  take_names target cert (raw ∷ raws) d =
      take_parsed cert d (normalize_name raw target) >>= take_names target cert raws

  unfoldable pub take_cert : Text → Json → BySubdomain → Option BySubdomain
  unfolding take_names split get_field
  take_cert target (obj cert) d =
      take_names target cert (split (10 ∷ []) (text_or_empty (get_field (codes "name_value") cert)))
        d
  take_cert target _ d = some d

  unfoldable pub take_certs : Text → Items → BySubdomain → Option BySubdomain
  unfolding take_cert
  take_certs target nil d = some d
  take_certs target (cons cert certs) d = take_cert target cert d >>= take_certs target certs
