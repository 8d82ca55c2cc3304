-- ===== src/Collectors/Technology/Run.antt =====
-- `run` of backend/app/collectors/technology.py: the inferences in the order of their keys.
use recon_ledger.Prelude.{
  ℕ, Bool, ◌&&◌, ◌||◌, none, some, List, [], ◌∷◌, map, if◌then◌else◌, ltb, Text, codes, text_eq,
  text_lt,
}
use recon_ledger.Models.Enums.{Category, confidence_value}
use recon_ledger.Models.Json.{str, arr, obj, Items, nil, cons, end, field}
use recon_ledger.Models.Db.{Finding}
use recon_ledger.Collectors.Contract.{CollectedFinding}
use recon_ledger.Collectors.Context.{
  Surroundings, Collecting, ◌>>=◌, pure, lift, or_uncaught, utcnow, compute_fingerprint,
}
use recon_ledger.Collectors.Technology.{Detection, input_kinds, get_findings}
use recon_ledger.Collectors.Technology.Rules.{Strings, take_findings}

-- `a < b` on the pairs of rule and technology
unfoldable pub key_lt : Detection → Detection → Bool
unfolding text_lt text_eq
key_lt a b =
    text_lt a.rule_id b.rule_id
    || (text_eq a.rule_id b.rule_id && text_lt a.technology b.technology)

unfoldable pub insert_detection : Detection → List Detection → List Detection
unfolding key_lt
insert_detection d [] = d ∷ []
insert_detection d (e ∷ es) =
    let rest = insert_detection d es in if key_lt e d then e ∷ rest else d ∷ e ∷ es

-- `sorted(detections.items())`
unfoldable pub sort_detections : List Detection → List Detection
unfolding insert_detection
sort_detections [] = []
sort_detections (d ∷ ds) = insert_detection d (sort_detections ds)

unfoldable pub insert_id : ℕ → List ℕ → List ℕ
insert_id i [] = i ∷ []
insert_id i (j ∷ js) = let rest = insert_id i js in if ltb j i then j ∷ rest else i ∷ j ∷ js

-- `sorted(ids)`
unfoldable pub sort_ids : List ℕ → List ℕ
unfolding insert_id
sort_ids [] = []
sort_ids (i ∷ is) = insert_id i (sort_ids is)

module _ (w : Surroundings) (show_id : ℕ → Text) where
  abbrev ids_value : List ℕ → Items
  ids_value [] = nil
  ids_value (i ∷ is) = cons (str (show_id i)) (ids_value is)

  unfoldable pub inference : ℕ → Detection → CollectedFinding
  unfolding sort_ids compute_fingerprint
  inference now d = record {
    category = Category.technology_stack;
    kind = codes "tech.inference";
    title = d.technology;
    summary = d.explanation;
    normalized_value = obj (
        field (codes "rule_id") (str d.rule_id) (
          field (codes "technology") (str d.technology)
            (field (codes "confidence") (str (confidence_value d.confidence)) end)));
    raw_evidence =
        obj (
          field (codes "supporting_finding_ids") (arr (ids_value (sort_ids d.supporting_ids))) end);
    source_url = d.source_url;
    retrieved_at = now;
    fingerprint = compute_fingerprint w (codes "technology") (codes "tech.inference") (
        obj (
          field (codes "target") (str w.target) (
            field (codes "rule_id") (str d.rule_id)
              (field (codes "technology") (str d.technology) end))));
    provider_observed_at = none;
    confidence = some d.confidence;
  }

  -- with the findings table and the job of the reader
  unfoldable pub run : Strings → ℕ → List Finding → Collecting (List CollectedFinding)
  unfolding get_findings take_findings utcnow inference sort_detections
  run p job table = do
    detections ← lift (or_uncaught (take_findings p (get_findings job input_kinds table) []))
    now ← utcnow w
    pure (map (inference now) (sort_detections detections))
