-- ===== src/Collectors/Caching.antt =====
-- backend/app/collectors/caching.py: findings as JSON in the cache.
pub mod Access
pub mod RoundTrip
pub mod Remembered
use recon_ledger.Prelude.{
  ℕ, Option, none, some, List, [], ◌∷◌, map, Text, codes, ◌>>=◌, if◌then◌else◌,
}
use recon_ledger.Models.Enums.{
  Category, Confidence, category_value, category_of, confidence_value, confidence_of,
}
use recon_ledger.Models.Json.{
  Json, null, str, arr, obj, Items, nil, cons, Fields, end, field, get_field, truthy,
}
use recon_ledger.Collectors.Contract.{CollectedFinding}
use recon_ledger.Collectors.Context.{Surroundings}

module _ (w : Surroundings) where
  abbrev pub observed_value : Option ℕ → Json
  observed_value none = null
  observed_value (some t) = str (w.isoformat t)

  abbrev pub optional_confidence_value : Option Confidence → Json
  optional_confidence_value none = null
  optional_confidence_value (some c) = str (confidence_value c)

  unfoldable pub serialize_finding : CollectedFinding → Json
  serialize_finding f = obj (
      field (codes "category") (str (category_value f.category)) (
        field (codes "kind") (str f.kind) (
          field (codes "title") (str f.title) (
            field (codes "summary") (str f.summary) (
              field (codes "normalized_value") f.normalized_value (
                field (codes "raw_evidence") f.raw_evidence (
                  field (codes "source_url") (str f.source_url) (
                    field (codes "retrieved_at") (str (w.isoformat f.retrieved_at)) (
                      field (codes "fingerprint") (str f.fingerprint) (
                        field (codes "provider_observed_at") (observed_value f.provider_observed_at)
                          (field (codes "confidence") (optional_confidence_value f.confidence)
                            end)))))))))))

  -- `data[key]`, of a text: a field of another type is left out, since no entry has one
  abbrev pub text_of : Option Json → Option Text
  text_of (some (str t)) = some t
  text_of _ = none

  abbrev pub time_of : Option Json → Option (Option ℕ)
  time_of none = some none
  time_of (some (str [])) = some none
  time_of (some (str (c ∷ t))) = w.fromisoformat (c ∷ t) >>= λ n. some (some n)
  time_of (some v) = if truthy v then none else some none

  abbrev pub optional_confidence_of : Option Json → Option (Option Confidence)
  optional_confidence_of none = some none
  optional_confidence_of (some (str [])) = some none
  optional_confidence_of (some (str (c ∷ t))) = confidence_of (c ∷ t) >>= λ n. some (some n)
  optional_confidence_of (some v) = if truthy v then none else some none

  -- `none` for an exception
  unfoldable pub deserialize_fields : Fields → Option CollectedFinding
  unfolding get_field category_of confidence_of
  deserialize_fields fs = do
    category ← text_of (get_field (codes "category") fs) >>= category_of
    kind ← text_of (get_field (codes "kind") fs)
    title ← text_of (get_field (codes "title") fs)
    summary ← text_of (get_field (codes "summary") fs)
    normalized_value ← get_field (codes "normalized_value") fs
    raw_evidence ← get_field (codes "raw_evidence") fs
    source_url ← text_of (get_field (codes "source_url") fs)
    retrieved_at ← text_of (get_field (codes "retrieved_at") fs) >>= w.fromisoformat
    fingerprint ← text_of (get_field (codes "fingerprint") fs)
    observed ← time_of (get_field (codes "provider_observed_at") fs)
    confidence ← optional_confidence_of (get_field (codes "confidence") fs)
    some (record {
      category = category;
      kind = kind;
      title = title;
      summary = summary;
      normalized_value = normalized_value;
      raw_evidence = raw_evidence;
      source_url = source_url;
      retrieved_at = retrieved_at;
      fingerprint = fingerprint;
      provider_observed_at = observed;
      confidence = confidence;
    })

  unfoldable pub deserialize_finding : Json → Option CollectedFinding
  unfolding deserialize_fields
  deserialize_finding (obj fs) = deserialize_fields fs
  deserialize_finding _ = none

  -- `[serialize_finding(f) for f in findings]`
  unfoldable pub serialize_all : List CollectedFinding → Items
  unfolding serialize_finding
  serialize_all [] = nil
  serialize_all (f ∷ fs) = cons (serialize_finding f) (serialize_all fs)

  -- `[deserialize_finding(d) for d in …]`
  unfoldable pub deserialize_all : Items → Option (List CollectedFinding)
  unfolding deserialize_finding
  deserialize_all nil = some []
  deserialize_all (cons d ds) = do f ← deserialize_finding d; fs ← deserialize_all ds; some (f ∷ fs)

  -- what a `for` loop makes of a value, `none` for an exception in it or in the first step
  abbrev pub iterate : Option Json → Option Items
  iterate none = some nil
  iterate (some (arr xs)) = some xs
  iterate (some (str [])) = some nil
  iterate (some (obj end)) = some nil
  iterate _ = none

  -- `[deserialize_finding(d) for d in value.get("findings", [])]`
  unfoldable pub findings_in : Json → Option (List CollectedFinding)
  unfolding get_field deserialize_all
  findings_in (obj fs) = iterate (get_field (codes "findings") fs) >>= deserialize_all
  findings_in _ = none

  -- `{"findings": […]}`
  unfoldable pub findings_value : List CollectedFinding → Json
  unfolding serialize_all
  findings_value fs = obj (field (codes "findings") (arr (serialize_all fs)) end)
