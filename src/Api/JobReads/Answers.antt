-- ===== src/Api/JobReads/Answers.antt =====
-- Which findings `list_findings` returns.
use recon_ledger.Prelude.{
  ℕ, Bool, true, false, ◌&&◌, ◌||◌, Option, none, some, List, [], ◌∷◌, filter, any, ◌==◌, ◌≡◌, refl,
  arith, sym, ◌∙◌, Text,
}
use recon_ledger.Models.Db.{Job, Finding, Database, get_job}
use recon_ledger.Api.JobReads.{
  Query, is_category, is_from, insert_finding, in_order, find_matching_finding_ids, is_among,
  select_findings, by_ids, by_phrase, list_findings,
}

any-insert_finding :
    (p : Finding → Bool) (f : Finding) (fs : List Finding)
    → any p (insert_finding f fs) ≡ (p f || any p fs)
unfolding any insert_finding
any-insert_finding p f [] = refl
any-insert_finding p f (g ∷ gs) = ground (arith, any-insert_finding p f gs)

any-in_order : (p : Finding → Bool) (fs : List Finding) → any p (in_order fs) ≡ any p fs
unfolding any in_order
any-in_order p [] = refl
any-in_order p (f ∷ fs) = ground (arith, any-insert_finding p f (in_order fs), any-in_order p fs)

any-filter :
    (p q : Finding → Bool) (fs : List Finding) → any p (filter q fs) ≡ any (λ f. p f && q f) fs
unfolding any filter
any-filter p q [] = refl
any-filter p q (f ∷ fs) = ground (arith, any-filter p q fs)

any-none :
    (p : Finding → Bool) (fs : List Finding) → ((f : Finding) → p f ≡ false) → any p fs ≡ false
unfolding any
any-none p [] h = refl
any-none p (f ∷ fs) h = ground (arith, h f, any-none p fs h)

never : (a b : Bool) → (a && (b && false)) ≡ false
never a b = ground arith

-- The finding is of the job, has the category and the collector that are asked for, and is one of those
-- that the phrase matches, if there is a phrase.
abbrev pub is_found : (Text → Finding → Bool) → ℕ → Option Text → List Finding → Finding → Bool
is_found matches j (some (c ∷ q)) fs f =
    is_among matches (find_matching_finding_ids matches j (c ∷ q) fs) f
is_found matches j _ fs f = true

abbrev pub is_wanted : (Text → Finding → Bool) → ℕ → Query → List Finding → Finding → Bool
is_wanted matches j query fs f =
    f.job_id == j
    && (is_found matches j query.q fs f
        && (is_category query.category f && is_from query.collector f))

module _ (matches : Text → Finding → Bool) (j : ℕ) (query : Query) (p : Finding → Bool) where
  any-select_findings :
      (found : Finding → Bool) (fs : List Finding)
      → any p (select_findings matches j query found fs)
        ≡ any
            (λ f.
              p f
              && (f.job_id == j
                  && (found f && (is_category query.category f && is_from query.collector f))))
            fs
  unfolding select_findings
  any-select_findings found fs = any-in_order p _ ∙ any-filter p _ fs

  any-by_ids :
      (ids : List ℕ) (fs : List Finding)
      → any p (by_ids matches j query ids fs)
        ≡ any
            (λ f.
              p f
              && (f.job_id == j
                  && (is_among matches ids f
                      && (is_category query.category f && is_from query.collector f))))
            fs
  unfolding any
  any-by_ids [] fs = sym (any-none _ fs λ f. never (p f) (f.job_id == j))
  any-by_ids (i ∷ ids) fs = any-select_findings (is_among matches (i ∷ ids)) fs

  any-by_phrase :
      (q : Option Text) (fs : List Finding)
      → any p (by_phrase matches j query q fs)
        ≡ any
            (λ f.
              p f
              && (f.job_id == j
                  && (is_found matches j q fs f
                      && (is_category query.category f && is_from query.collector f))))
            fs
  any-by_phrase none fs = any-select_findings (λ f. true) fs
  any-by_phrase (some []) fs = any-select_findings (λ f. true) fs
  any-by_phrase (some (c ∷ q)) fs = any-by_ids (find_matching_finding_ids matches j (c ∷ q) fs) fs

  -- For a job that exists, the list that is returned has a finding of whatever description exactly if the
  -- table has one that is of the job, of the category and the collector asked for, and of those that the
  -- phrase matches: the empty answer on no match and the order lose none and add none.
  pub any-list_findings :
      (db : Database) (job : Job)
      → get_job j db ≡ some job
      → (fs : List Finding) × (list_findings matches j query db ≡ some fs)
        × (any p fs ≡ any (λ f. p f && is_wanted matches j query db.findings f) db.findings)
  unfolding list_findings
  any-list_findings db job h =
      (by_phrase matches j query query.q db.findings, rw h refl, any-by_phrase query.q db.findings)
