-- ===== src/Collectors/Rdap/Summary.antt =====
-- `_build_finding` of backend/app/collectors/rdap.py.
use recon_ledger.Prelude.{
  ℕ, Option, none, some, List, [], ◌∷◌, ◌++◌, map, join, if◌then◌else◌, Text, codes,
}
use recon_ledger.Models.Enums.{Category}
use recon_ledger.Models.Json.{Json, str, arr, obj, Items, nil, cons, Fields, end, field, truthy}
use recon_ledger.Services.Diff.{lookup}
use recon_ledger.Collectors.Contract.{CollectedFinding}
use recon_ledger.Collectors.Context.{Surroundings, compute_fingerprint}
use recon_ledger.Collectors.Rdap.Record.{Entity, Normalized}

abbrev pub items_of : List Json → Items
items_of [] = nil
items_of (x ∷ xs) = cons x (items_of xs)

abbrev fields_of : List (Text × Json) → Fields
fields_of [] = end
fields_of ((k, v) ∷ d) = field k v (fields_of d)

abbrev entity_value : Entity → Json
entity_value e = obj (field (codes "roles") e.roles (field (codes "name") (str e.name) end))

unfoldable pub normalized_value : Normalized → Json
normalized_value n = obj (
    field (codes "target") (str n.target) (
      field (codes "handle") n.handle (
        field (codes "ldh_name") n.ldh_name (
          field (codes "status") n.status (
            field (codes "nameservers") (arr (items_of n.nameservers)) (
              field (codes "events") (obj (fields_of n.events)) (
                field (codes "entities") (arr (items_of (map entity_value n.entities)))
                  (field (codes "registrar") (str n.registrar) end))))))))

-- the texts of a list, `none` where `join` would raise
abbrev texts_of : Items → Option (List Text)
texts_of nil = some []
texts_of (cons (str t) xs) = elim (texts_of xs) [ none ↦ none | some ts ↦ some (t ∷ ts) ]
texts_of (cons _ xs) = none

abbrev status_part : Json → Option (List Text)
status_part (arr nil) = some []
status_part (arr (cons x xs)) = elim (texts_of (cons x xs)) [
  | none ↦ none
  | some ts ↦ some ((codes "Status: " ++ join (codes ", ") ts) ∷ [])
]
status_part _ = none

module _ (w : Surroundings) where
  abbrev text_of : Json → Text
  text_of (str t) = t
  text_of v = w.show v

  abbrev registered_part : Option Json → List Text
  registered_part none = []
  registered_part (some date) =
      if truthy date then (codes "Registered: " ++ text_of date) ∷ [] else []

  abbrev finding_with : ℕ → Normalized → Json → Text → List Text → CollectedFinding
  finding_with now n raw source_url status_parts = record {
    category = Category.network_footprint;
    kind = codes "rdap.registration";
    title = codes "RDAP record for " ++ w.target;
    summary = join (codes "; ") (
        (codes "Registrar: " ++ n.registrar)
        ∷ (status_parts ++ registered_part (lookup (codes "registration") n.events)));
    normalized_value = normalized_value n;
    raw_evidence = raw;
    source_url = source_url;
    retrieved_at = now;
    fingerprint =
        compute_fingerprint w (codes "rdap") (codes "rdap.registration")
          (obj (field (codes "target") (str w.target) end));
    provider_observed_at = none;
    confidence = none;
  }

  -- `_build_finding`
  unfoldable pub build_finding : ℕ → Normalized → Json → Text → Option CollectedFinding
  unfolding lookup normalized_value compute_fingerprint
  build_finding now n raw source_url = elim (status_part n.status) [
    | none ↦ none
    | some parts ↦ some (finding_with now n raw source_url parts)
  ]
