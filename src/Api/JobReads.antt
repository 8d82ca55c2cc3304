-- ===== src/Api/JobReads.antt =====
-- The handlers of backend/app/api/jobs.py that read. A result is `none` where the handler answers 404.
-- Which findings a phrase matches, SQLite decides. Rows that a query's order leaves tied keep the order of
-- the table.
pub mod Answers
use recon_ledger.Prelude.{
  ℕ, Bool, true, false, ◌&&◌, ◌||◌, Option, none, some, List, [], ◌∷◌, map, filter, any, length,
  ltb, ◌==◌, if◌then◌else◌, ◌≡◌, refl, arith, ap, ◌∙◌, Bool-cases, inl, inr, Text, text_eq, text_lt,
}
use recon_ledger.Models.Enums.{Category, category_value, is_failed}
use recon_ledger.Models.Db.{Job, Finding, Database, get_job}
use recon_ledger.Services.Search.{fts5_phrase_query}
use recon_ledger.Services.CsvExport.{SubdomainRow}
use recon_ledger.Services.Subdomains.{aggregate_subdomains}

-- A job of `list_jobs`, with its warning count.
pub record JobSummary : Type 0 where
  pub job : Job
  pub warning_count : ℕ

-- the `coalesce` of the outer join with the counts of failed runs
unfoldable pub warning_count : ℕ → Database → ℕ
unfolding filter
warning_count j db = length (filter (λ r. r.job_id == j && is_failed r.status) db.runs)

unfoldable pub insert_newest : Job → List Job → List Job
insert_newest j [] = j ∷ []
insert_newest j (k ∷ ks) =
    let rest = insert_newest j ks in if ltb j.created_at k.created_at then k ∷ rest else j ∷ k ∷ ks

-- `ORDER BY created_at DESC`
unfoldable pub newest_first : List Job → List Job
unfolding insert_newest
newest_first [] = []
newest_first (j ∷ js) = insert_newest j (newest_first js)

unfoldable pub list_jobs : Database → List JobSummary
unfolding warning_count newest_first
list_jobs db =
    map (λ j. record { job = j; warning_count = warning_count j.id db }) (newest_first db.jobs)

-- The optional parameters of `list_findings`.
pub record Query : Type 0 where
  pub q : Option Text
  pub category : Option Category
  pub collector : Option Text

abbrev pub is_category : Option Category → Finding → Bool
is_category none f = true
is_category (some c) f = text_eq (category_value f.category) (category_value c)

abbrev pub is_from : Option Text → Finding → Bool
is_from none f = true
is_from (some c) f = text_eq f.collector c

-- `finding.category, finding.retrieved_at` of `a` before those of `b`
unfoldable pub comes_before : Finding → Finding → Bool
unfolding text_lt text_eq
comes_before a b =
    let c = category_value a.category in
    let d = category_value b.category in
    text_lt c d || (text_eq c d && ltb a.retrieved_at b.retrieved_at)

unfoldable pub insert_finding : Finding → List Finding → List Finding
unfolding comes_before
insert_finding f [] = f ∷ []
insert_finding f (g ∷ gs) =
    let rest = insert_finding f gs in if comes_before g f then g ∷ rest else f ∷ g ∷ gs

-- `ORDER BY category, retrieved_at`
unfoldable pub in_order : List Finding → List Finding
unfolding insert_finding
in_order [] = []
in_order (f ∷ fs) = insert_finding f (in_order fs)

-- `findings_fts MATCH query`
module _ (matches : Text → Finding → Bool) where
  -- `find_matching_finding_ids` of backend/app/services/search.py
  unfoldable pub find_matching_finding_ids : ℕ → Text → List Finding → List ℕ
  unfolding filter fts5_phrase_query
  find_matching_finding_ids j q fs =
      map (λ f. f.id) (filter (λ f. f.job_id == j && matches (fts5_phrase_query q) f) fs)

  -- `Finding.id.in_(ids)`
  abbrev pub is_among : List ℕ → Finding → Bool
  is_among ids f = any (λ i. i == f.id) ids

  -- the rows of the job that the filters leave
  unfoldable pub select_findings : ℕ → Query → (Finding → Bool) → List Finding → List Finding
  unfolding filter in_order text_eq
  select_findings j query found fs = in_order (
      filter
        (λ f.
          f.job_id == j && (found f && (is_category query.category f && is_from query.collector f)))
        fs)

  abbrev pub by_ids : ℕ → Query → List ℕ → List Finding → List Finding
  by_ids j query [] fs = []
  by_ids j query (i ∷ ids) fs = select_findings j query (is_among (i ∷ ids)) fs

  abbrev pub by_phrase : ℕ → Query → Option Text → List Finding → List Finding
  by_phrase j query none fs = select_findings j query (λ f. true) fs
  by_phrase j query (some []) fs = select_findings j query (λ f. true) fs
  by_phrase j query (some (c ∷ q)) fs = by_ids j query (find_matching_finding_ids j (c ∷ q) fs) fs

  abbrev of_job : ℕ → Query → Database → Option Job → Option (List Finding)
  of_job j query db none = none
  of_job j query db (some job) = some (by_phrase j query query.q db.findings)

  unfoldable pub list_findings : ℕ → Query → Database → Option (List Finding)
  unfolding get_job any select_findings find_matching_finding_ids
  list_findings j query db = of_job j query db (get_job j db)

abbrev rows_of : ℕ → Database → Option Job → Option (List SubdomainRow)
rows_of j db none = none
rows_of j db (some job) =
    some (aggregate_subdomains job.target_normalized (filter (λ f. f.job_id == j) db.findings))

-- `_get_subdomain_rows`, what `list_subdomains` returns
unfoldable pub list_subdomains : ℕ → Database → Option (List SubdomainRow)
unfolding get_job filter aggregate_subdomains
list_subdomains j db = rows_of j db (get_job j db)
