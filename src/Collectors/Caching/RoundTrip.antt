-- ===== src/Collectors/Caching/RoundTrip.antt =====
-- A finding that has been stored is read back as it was.
use recon_ledger.Prelude.{ℕ, Option, none, some, List, [], ◌∷◌, ◌≡◌, refl, Text}
use recon_ledger.Models.Enums.{Confidence, confidence_of, category_of-value}
use recon_ledger.Models.Json.{Json, get_field}
use recon_ledger.Collectors.Contract.{CollectedFinding}
use recon_ledger.Collectors.Context.{Surroundings}
use recon_ledger.Collectors.Caching.{
  serialize_finding, deserialize_finding, deserialize_fields, serialize_all, deserialize_all,
  findings_value, findings_in, observed_value, time_of, optional_confidence_value,
  optional_confidence_of,
}

-- What Python documents of the two functions: the one reads what the other writes, which is never empty.
pub record ReadsTimes (w : Surroundings) : Type 0 where
  pub reads : (t : ℕ) → w.fromisoformat (w.isoformat t) ≡ some t
  pub reads_no_empty : w.fromisoformat [] ≡ none

module _ (w : Surroundings) (r : ReadsTimes w) where
  time_of_text :
      (s : Text) (t : ℕ)
      → w.fromisoformat s ≡ some t
      → time_of w (some (Json.str s)) ≡ some (some t)
  time_of_text [] t h = absurd (cc (h, r.reads_no_empty))
  time_of_text (c ∷ s) t h = rw h refl

  time_of-observed : (o : Option ℕ) → time_of w (some (observed_value w o)) ≡ some o
  time_of-observed none = refl
  time_of-observed (some t) = time_of_text (w.isoformat t) t (r.reads t)

  confidence_of_optional :
      (o : Option Confidence)
      → optional_confidence_of w (some (optional_confidence_value w o)) ≡ some o
  unfolding confidence_of
  confidence_of_optional none = refl
  confidence_of_optional (some Confidence.low) = refl
  confidence_of_optional (some Confidence.medium) = refl
  confidence_of_optional (some Confidence.high) = refl

  deserialize-serialize :
      (f : CollectedFinding) → deserialize_finding w (serialize_finding w f) ≡ some f
  unfolding deserialize_finding serialize_finding deserialize_fields get_field
  deserialize-serialize f =
      rw
        (
          category_of-value f.category,
          r.reads f.retrieved_at,
          time_of-observed f.provider_observed_at,
          confidence_of_optional f.confidence,
        )
        refl

  deserialize-serialize_all :
      (fs : List CollectedFinding) → deserialize_all w (serialize_all w fs) ≡ some fs
  unfolding deserialize_all serialize_all
  deserialize-serialize_all [] = refl
  deserialize-serialize_all (f ∷ fs) =
      rw (deserialize-serialize f, deserialize-serialize_all fs) refl

  -- The findings of a collector, of any kind and number, are read back from their entry in the cache as
  -- they were, times and confidence included, if `fromisoformat` reads what `isoformat` writes and refuses
  -- the empty text.
  pub findings_in-findings_value :
      (fs : List CollectedFinding) → findings_in w (findings_value w fs) ≡ some fs
  unfolding findings_in findings_value get_field
  findings_in-findings_value fs = deserialize-serialize_all fs
