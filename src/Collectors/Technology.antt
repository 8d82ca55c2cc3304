-- ===== src/Collectors/Technology.antt =====
-- backend/app/collectors/technology.py: what the evidence of a job says of the software behind it, and
-- backend/app/collectors/job_findings.py, through which it reads that evidence. `re` is Python's.
pub mod Rules
pub mod Evidence
pub mod Run
use recon_ledger.Prelude.{
  ℕ, Bool, true, false, ◌&&◌, ◌||◌, Option, none, some, List, [], ◌∷◌, ◌++◌, map, filter, any,
  if◌then◌else◌, ◌==◌, Text, codes, text_eq, text_lt, contains_text, mem_text, ◌>>=◌, leb,
}
use recon_ledger.Models.Enums.{Confidence}
use recon_ledger.Models.Json.{
  Json, str, arr, obj, Items, nil, cons, Fields, end, field, get_field, truthy,
}
use recon_ledger.Models.Db.{Finding}
use recon_ledger.Services.Diff.{put, lookup}

abbrev pub input_kinds : List Text
input_kinds =
    codes "dns.ns" ∷ codes "dns.mx" ∷ codes "wayback.sample" ∷ codes "commoncrawl.sample" ∷ []

-- `JobFindingsReader.get(kinds=…)`
unfoldable pub get_findings : ℕ → List Text → List Finding → List Finding
unfolding filter mem_text
get_findings job kinds fs = filter (λ f. f.job_id == job && mem_text f.kind kinds) fs

pub record Detection : Type 0 where
  pub rule_id : Text
  pub technology : Text
  pub confidence : Confidence
  pub explanation : Text
  pub supporting_ids : List ℕ
  pub source_url : Text

unfoldable pub same_key : Detection → Detection → Bool
unfolding text_eq
same_key a b = text_eq a.rule_id b.rule_id && text_eq a.technology b.technology

-- `ids.add(id)`
unfoldable pub add_id : ℕ → List ℕ → List ℕ
unfolding any
add_id i ids = if any (λ j. j == i) ids then ids else i ∷ ids

-- `_merge`
unfoldable pub merge : List Detection → Detection → Finding → List Detection
unfolding same_key add_id
merge [] d source =
    record d { supporting_ids = source.id ∷ []; source_url = source.source_url } ∷ []
merge (e ∷ es) d source =
    let rest = merge es d source in
    if same_key d e
    then record e { supporting_ids = add_id source.id e.supporting_ids } ∷ es
    else e ∷ rest

-- the rules of one source: whether each fires, and what it would find
unfoldable pub merge_fired : Finding → List (Bool × Detection) → List Detection → List Detection
unfolding merge
merge_fired source [] ds = ds
merge_fired source ((fires, d) ∷ rules) ds =
    merge_fired source rules (if fires then merge ds d source else ds)
