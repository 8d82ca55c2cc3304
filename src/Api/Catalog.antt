-- ===== src/Api/Catalog.antt =====
-- backend/app/api/sources.py, the catalog of the sources, and backend/app/api/diffs.py, the comparison of
-- two jobs. The environment is an argument.
use recon_ledger.Prelude.{
  ℕ, Bool, true, false, Option, some, List, [], ◌∷◌, map, filter, sort_by, Text, codes,
}
use recon_ledger.Models.Enums.{TargetType, Category, target_type_value, category_value}
use recon_ledger.Models.Db.{Database}
use recon_ledger.Collectors.Contract.{CollectorMetadata}
use recon_ledger.Collectors.Registry.{CollectorRegistry}
use recon_ledger.Services.Diff.{
  job_not_found, diff_target_mismatch, DiffResult, Compared, compared, failed, diff_jobs,
}

pub record SourceRead : Type 0 where
  pub name : Text
  pub display_name : Text
  pub supported_targets : List TargetType
  pub categories : List Category
  pub release : Text
  pub state : Text
  pub key_help_url : Option Text

-- `not os.environ.get(name)`
abbrev is_unset : Option Text → Bool
is_unset (some (c ∷ t)) = false
is_unset _ = true

abbrev ready_if : List Text → Text
ready_if [] = codes "ready"
ready_if (name ∷ names) = codes "missing_key"

module _ (environ : Text → Option Text) where
  -- `_state_for`
  unfoldable pub state_for : List Text → Text
  unfolding filter
  state_for required = ready_if (filter (λ name. is_unset (environ name)) required)

  abbrev release_of : List Text → Text
  release_of [] = codes "mvp"
  release_of (name ∷ names) = codes "1.1"

  unfoldable pub source_read : CollectorMetadata → SourceRead
  unfolding state_for sort_by
  source_read c = record {
    name = c.name;
    display_name = c.display_name;
    supported_targets = sort_by target_type_value c.supported_targets;
    categories = sort_by category_value c.categories;
    release = release_of c.required_credentials;
    state = state_for c.required_credentials;
    key_help_url = c.key_help_url;
  }

  unfoldable pub list_sources : CollectorRegistry → List SourceRead
  unfolding source_read
  list_sources registry = map source_read registry

-- What `diff_job` answers: the result, 404 or 409.
pub data DiffAnswer : Type 0 where
  diff_of_jobs : DiffResult → DiffAnswer
  not_found conflict : DiffAnswer

abbrev answer_to : Compared → DiffAnswer
answer_to (compared result) = diff_of_jobs result
answer_to (failed (job_not_found j)) = not_found
answer_to (failed (diff_target_mismatch old new)) = conflict

unfoldable pub diff_job : ℕ → ℕ → Database → DiffAnswer
unfolding diff_jobs
diff_job job_id against db = answer_to (diff_jobs db job_id against)
