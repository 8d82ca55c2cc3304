-- ===== src/Collectors/CommonCrawl/Samples.antt =====
-- `_parse_warc_record` and the loop over the samples in `run` of backend/app/collectors/commoncrawl.py. Lengths and offsets are natural numbers.
use recon_ledger.Prelude.{
  ℕ, zero, suc, ◌+◌, ◌-◌, min, ◌||◌, Option, none, some, List, [], ◌∷◌, ◌++◌, length, drop, leb,
  ltb, ◌==◌, if◌then◌else◌, split, partition, Text, codes,
}
use recon_ledger.Models.Json.{Json, str, Fields, end, get_field}
use recon_ledger.Collectors.Context.{
  Surroundings, Request, Reply, Outcome, done, raised, uncaught, Collecting, ◌>>=◌, pure, raise,
  lift, caught, gateway_get,
}
use recon_ledger.Collectors.Wayback.Run.{headers_from}
use recon_ledger.Collectors.CommonCrawl.{CrawledUrl}
use recon_ledger.Collectors.CommonCrawl.Index.{data_host, request_of}

-- What `int` makes of a value.
pub data IntRead : Type 0 where
  number : ℕ → IntRead
  value_error type_error : IntRead

-- `int(record[key])`: a missing key is an error that is caught, as a ValueError is
abbrev pub int_field : (Json → IntRead) → Option Json → IntRead
int_field read none = value_error
int_field read (some v) = read v

-- A member of an archive: its length and its offset.
pub data Range : Type 0 where
  range : ℕ → ℕ → Range
  skipped failing : Range

abbrev pub range_if : IntRead → IntRead → Range
range_if (number n) (number k) = range n k
range_if (number n) value_error = skipped
range_if (number n) type_error = failing
range_if value_error offset = skipped
range_if type_error offset = failing

-- A response, and the headers and the body that it holds.
pub record Sample : Type 0 where
  pub entry : CrawledUrl
  pub data_url : Text
  pub reply : Reply
  pub headers : List (Text × Text)
  pub body : Text

abbrev pub total_size : List Sample → ℕ
total_size [] = 0
total_size (s ∷ ss) = length s.reply.content + total_size ss

-- What `gzip.decompress` makes of bytes: its errors that are caught (OSError, EOFError), and zlib.error,
-- which is neither.
pub data Unpacked : Type 0 where
  unpacked : Text → Unpacked
  caught_error zlib_error : Unpacked

-- `gunzip` is `gzip.decompress`, and `read_int` is `int`.
pub record Members : Type 0 where
  pub gunzip : Text → Unpacked
  pub read_int : Json → IntRead
  pub decimal : ℕ → Text
  pub splitlines : Text → List Text

module _ (w : Surroundings) (m : Members) where
  abbrev warc_body : Option (Text × Text) → Option (List (Text × Text) × Text)
  warc_body none = none
  warc_body (some (block, body)) =
      some (headers_from w [] (drop 1 (split (13 ∷ 10 ∷ []) block)), body)

  abbrev pub after_warc : Option (Text × Text) → Option (List (Text × Text) × Text)
  after_warc none = none
  after_warc (some (warc_headers, rest)) = warc_body (partition (13 ∷ 10 ∷ 13 ∷ 10 ∷ []) rest)

  abbrev pub decoded : Unpacked → Outcome (Option (List (Text × Text) × Text))
  decoded (unpacked bytes) = done (after_warc (partition (13 ∷ 10 ∷ 13 ∷ 10 ∷ []) (w.decode bytes)))
  decoded caught_error = done none
  decoded zlib_error = raised uncaught

  unfoldable pub parse_warc_record : Text → Outcome (Option (List (Text × Text) × Text))
  unfolding headers_from split partition
  parse_warc_record content = decoded (m.gunzip content)

  abbrev pub row_of : CrawledUrl → Fields
  row_of e = elim e.best_record [ none ↦ end | some row ↦ row ]

  abbrev shown : Option Json → Text
  shown none = []
  shown (some (str t)) = t
  shown (some v) = w.show v

  unfoldable pub data_url_of : CrawledUrl → Text
  unfolding get_field
  data_url_of e =
      codes "https://" ++ data_host ++ codes "/" ++ shown (get_field (codes "filename") (row_of e))

  unfoldable pub range_of : CrawledUrl → Range
  unfolding get_field
  range_of e =
      range_if (int_field m.read_int (get_field (codes "length") (row_of e)))
        (int_field m.read_int (get_field (codes "offset") (row_of e)))

  -- `offset + length - 1`
  abbrev last_byte : ℕ → Text
  last_byte zero = codes "-1"
  last_byte (suc n) = m.decimal n

  abbrev pub sample_request : CrawledUrl → ℕ → ℕ → Request
  sample_request e n k =
      request_of (data_url_of e)
        ((codes "Range", codes "bytes=" ++ m.decimal k ++ codes "-" ++ last_byte (k + n)) ∷ [])
        (some (n + 1024))

  abbrev pub sample_if :
      CrawledUrl → Reply → Outcome (Option (List (Text × Text) × Text)) → Outcome (List Sample)
  sample_if e r (done none) = done []
  sample_if e r (done (some (headers, body))) = done (
      record { entry = e; data_url = data_url_of e; reply = r; headers = headers; body = body }
      ∷ [])
  sample_if e r (raised x) = raised x

  -- what the rest of the loop's body makes of an answer
  abbrev pub usable : CrawledUrl → Option Reply → Outcome (List Sample)
  usable e none = done []
  usable e (some r) =
      if r.status_code == 200 || r.status_code == 206
      then sample_if e r (parse_warc_record r.content)
      else done []

  -- the loop's body, with the loop on the remaining entries
  abbrev pub sample_step :
      CrawledUrl → ℕ → (ℕ → Collecting (List Sample)) → Range → Collecting (List Sample)
  sample_step e budget loop skipped = loop budget
  sample_step e budget loop failing = raise uncaught
  sample_step e budget loop (range n k) =
      let go = do
        answer ← caught (gateway_get w (sample_request e n k))
        found ← lift (usable e answer)
        rest ← loop (budget - total_size found)
        pure (found ++ rest)
      in if ltb (min 500000 budget) n then loop budget else go

  -- the loop over the selected entries, with `remaining_budget`
  unfoldable pub fetch_samples : List CrawledUrl → ℕ → Collecting (List Sample)
  unfolding gateway_get data_url_of range_of parse_warc_record
  fetch_samples [] budget = pure []
  fetch_samples (e ∷ es) budget =
      let go = sample_step e budget (fetch_samples es) (range_of e) in
      if leb budget 0 then pure [] else go
