-- ===== src/Collectors/DnsDoh/Mail.antt =====
-- The SPF and DMARC policies in TXT records, of `run` in backend/app/collectors/dns_doh.py.
use recon_ledger.Prelude.{
  Option, none, some, List, [], ◌∷◌, filter, split, partition, starts_with, Text, codes,
}
use recon_ledger.Models.Json.{Json, str, arr, obj, Items, nil, cons, Fields, end, field}
use recon_ledger.Services.Diff.{put}
use recon_ledger.Collectors.DnsDoh.{Strings}

abbrev pub texts_value : List Text → Items
texts_value [] = nil
texts_value (t ∷ ts) = cons (str t) (texts_value ts)

abbrev pub texts_object : List (Text × Text) → Fields
texts_object [] = end
texts_object ((k, v) ∷ d) = field k (str v) (texts_object d)

-- the warning on several records, after the fields
abbrev warning_if : Text → List Text → Fields
warning_if warning [] = end
warning_if warning (t ∷ []) = end
warning_if warning (t ∷ u ∷ us) =
    field (codes "warning") (str warning)
      (field (codes "all_records") (arr (texts_value (t ∷ u ∷ us))) end)

module _ (p : Strings) where
  -- `v.lower().startswith(tag)`
  unfoldable pub tagged : Text → List Text → List Text
  unfolding filter starts_with
  tagged tag values = filter (λ v. starts_with (p.lower v) tag) values

  -- the normalized SPF record, if there is one
  unfoldable pub spf_value : List Text → Option Json
  spf_value [] = none
  spf_value (v ∷ vs) = some (
      obj (
        field (codes "record") (str v) (
          field (codes "mechanisms") (arr (texts_value (p.words v))) (
            warning_if (codes "multiple SPF TXT records observed; only the first is used here")
              (v ∷ vs)))))

  abbrev with_tag : Option (Text × Text) → List (Text × Text) → List (Text × Text)
  with_tag none tags = tags
  with_tag (some (k, v)) tags = put (p.strip k) (p.strip v) tags

  -- `dict(… for part in parts if "=" in part)`
  unfoldable pub tags_from : List Text → List (Text × Text) → List (Text × Text)
  unfolding partition put
  tags_from [] tags = tags
  tags_from (part ∷ parts) tags = tags_from parts (with_tag (partition (codes "=") part) tags)

  -- the normalized DMARC record, if there is one
  unfoldable pub dmarc_value : List Text → Option Json
  unfolding tags_from split
  dmarc_value [] = none
  dmarc_value (v ∷ vs) = some (
      obj (
        field (codes "record") (str v) (
          field (codes "tags") (obj (texts_object (tags_from (split (codes ";") v) []))) (
            warning_if (codes "multiple DMARC TXT records observed; only the first is used here")
              (v ∷ vs)))))
