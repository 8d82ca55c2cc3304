-- ===== src/Examples/CommonCrawl.antt =====
-- A record of one archived page.
use recon_ledger.Prelude.{◌≤◌, true, none, some, List, [], ◌∷◌, ◌≡◌, refl, All, codes}
use recon_ledger.Models.Json.{str, end, field}
use recon_ledger.Collectors.Context.{done}
use recon_ledger.Collectors.CommonCrawl.{CrawledUrl, ByUrl, select_representative}
use recon_ledger.Collectors.CommonCrawl.Samples.{
  Members, unpacked, Sample, number, total_size, range_of, fetch_samples,
}
use recon_ledger.Collectors.CommonCrawl.Spent.{is_readable, IsIntact, total_size-fetch_samples}
use recon_ledger.Examples.Collectors.{
  answering, answering-IsCapped, answering-IsTyped, first_session,
}

-- every value is read as 100, and what is unpacked has the two blank lines of a record
abbrev members : Members
members = record {
  gunzip = λ t. unpacked (13 ∷ 10 ∷ 13 ∷ 10 ∷ 13 ∷ 10 ∷ 13 ∷ 10 ∷ []);
  read_int = λ v. number 100;
  decimal = λ n. [];
  splitlines = λ t. [];
}

abbrev crawled : CrawledUrl
crawled = record {
  url = codes "http://www.a.com/";
  collections = codes "CC-1" ∷ [];
  first_seen = codes "2001";
  last_seen = codes "2001";
  mime = none;
  status = some (str (codes "200"));
  extension = none;
  best_record =
      some (
        field (codes "length") (str (codes "100"))
          (field (codes "offset") (str (codes "100")) end));
}

abbrev by_url : ByUrl
by_url = (codes "http://www.a.com/", crawled) ∷ []

readable :
    All (λ e. is_readable (range_of answering members e) ≡ true) (select_representative by_url)
unfolding select_representative range_of
readable = (refl, tt)

intact : IsIntact answering members
intact i q p h k = absurd (cc)

total_size-fetch_samples_example :
    (xs : List Sample) × ((fetch_samples answering members
        (select_representative by_url)
        5000000
        first_session).0
      ≡ done xs)
    × (total_size xs ≤ 5001024)
total_size-fetch_samples_example =
    total_size-fetch_samples answering members answering-IsCapped answering-IsTyped intact by_url
      first_session readable
