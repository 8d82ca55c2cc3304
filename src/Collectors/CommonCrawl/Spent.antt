-- ===== src/Collectors/CommonCrawl/Spent.antt =====
-- What the samples of Common Crawl cost.
use recon_ledger.Prelude.{
  ℕ, ◌+◌, ◌-◌, ◌≤◌, min, Bool, true, false, ◌||◌, Option, none, some, List, [], ◌∷◌, ◌++◌, length,
  leb, ltb, ◌==◌, ◌≡◌, ◌≢◌, refl, arith, All, Bool-cases, inl, inr, ap, Text, partition,
}
use recon_ledger.Collectors.Context.{
  Surroundings, Session, Request, Reply, Answer, replied, refused, broken, Outcome, done, raised,
  after, or_none, answered, pure, lift, ◌>>=◌, gateway_get,
}
use recon_ledger.Collectors.Wayback.Budget.{IsCapped, IsTyped}
use recon_ledger.Collectors.CommonCrawl.{CrawledUrl, ByUrl, select_representative}
use recon_ledger.Collectors.CommonCrawl.Samples.{
  Members, Unpacked, unpacked, caught_error, zlib_error, after_warc, decoded, Sample, Range, range,
  skipped, failing, total_size, sample_request, sample_if, usable, sample_step, range_of,
  parse_warc_record, fetch_samples,
}

-- A return whose samples have `b` bytes and 1024 more at most, and none if nothing is left.
abbrev pub IsSpent : ℕ → Outcome (List Sample) × Session → Type 0
IsSpent b out =
    (xs : List Sample) × (out.0 ≡ done xs)
    × (total_size xs ≤ b + 1024)
    × (b ≡ 0 → total_size xs ≡ 0)

-- The lengths and offsets are ones that `int` reads or refuses with a ValueError.
abbrev pub is_readable : Range → Bool
is_readable failing = false
is_readable _ = true

total_size-append : (xs ys : List Sample) → total_size (xs ++ ys) ≡ total_size xs + total_size ys
total_size-append [] ys = omega arith
total_size-append (x ∷ xs) ys = omega (arith, total_size-append xs ys)

abbrev also : List Sample → Outcome (List Sample) × Session → Outcome (List Sample) × Session
also xs out = after (λ rest. pure (xs ++ rest)) out

spent_le : (b z t : ℕ) → z ≤ b + 1024 → t ≤ b - z + 1024 → (b - z ≡ 0 → t ≡ 0) → z + t ≤ b + 1024
spent_le b z t h k l = elim (Bool-cases (ltb z b)) [
  | inl g ↦ ground arith
  | inr g ↦ let none_left : t ≡ 0 = l (ground arith) in omega (arith, none_left, h)
]

done_inj : (xs ys : List Sample) → done xs ≡ done ys → xs ≡ ys
done_inj xs ys e = cc

also-IsSpent :
    (xs : List Sample) (b : ℕ) (out : Outcome (List Sample) × Session)
    → 1 ≤ b
    → total_size xs ≤ b + 1024
    → IsSpent (b - total_size xs) out
    → IsSpent b (also xs out)
also-IsSpent xs b (o, s) p h (ys, e, k, l) = (
  xs ++ ys,
  ap (λ x. (also xs (x, s)).0) e,
  omega (arith, total_size-append xs ys, spent_le b (total_size xs) (total_size ys) h k l),
  λ z. absurd (omega (arith, p, z)),
)

-- Done, with samples of `c` bytes at most.
abbrev IsDoneWithin : ℕ → Outcome (List Sample) → Type 0
IsDoneWithin c o = (xs : List Sample) × (o ≡ done xs) × (total_size xs ≤ c)

sample_if-IsDoneWithin :
    (w : Surroundings) (m : Members) (e : CrawledUrl) (p : Reply) (c : ℕ) (o : Unpacked)
    → length p.content ≤ c
    → o ≢ zlib_error
    → IsDoneWithin c (sample_if w m e p (decoded w m o))
sample_if-IsDoneWithin w m e p c (unpacked bytes) h k =
    of_parts (after_warc w m (partition (13 ∷ 10 ∷ 13 ∷ 10 ∷ []) (w.decode bytes)))
  where
    of_parts :
        (o : Option (List (Text × Text) × Text)) → IsDoneWithin c (sample_if w m e p (done o))
    of_parts none = ([], refl, omega arith)
    of_parts (some (headers, body)) = (_, refl, omega (arith, h))
sample_if-IsDoneWithin w m e p c caught_error h k = ([], refl, omega arith)
sample_if-IsDoneWithin w m e p c zlib_error h k = absurd (k refl)

usable-IsDoneWithin :
    (w : Surroundings) (m : Members) (e : CrawledUrl) (p : Reply) (c : ℕ)
    → length p.content ≤ c
    → m.gunzip p.content ≢ zlib_error
    → IsDoneWithin c (usable w m e (some p))
unfolding parse_warc_record
usable-IsDoneWithin w m e p c h k =
    elim (Bool-cases (p.status_code == 200 || p.status_code == 206)) [
      | inl g ↦ rw g (sample_if-IsDoneWithin w m e p c (m.gunzip p.content) h k)
      | inr g ↦ rw g ([], refl, omega arith)
    ]

nothing-IsSpent : (b : ℕ) (s : Session) → IsSpent b (done [], s)
nothing-IsSpent b s = ([], refl, omega arith, λ z. refl)

-- No content that the gateway returns makes `gzip.decompress` raise zlib.error.
abbrev pub IsIntact : Surroundings → Members → Type 0
IsIntact w m =
    (i : ℕ) (q : Request) (p : Reply) → w.fetch i q ≡ replied p → m.gunzip p.content ≢ zlib_error

module _ (w : Surroundings) (m : Members) (capped : IsCapped w) (typed : IsTyped w)
    (intact : IsIntact w m) where
  -- What follows the reading of an answer.
  abbrev then_rest :
      List CrawledUrl → ℕ → Outcome (List Sample) × Session → Outcome (List Sample) × Session
  then_rest es b out =
      after (λ found. fetch_samples w m es (b - total_size found) >>= λ rest. pure (found ++ rest))
        out

  found-IsSpent :
      (es : List CrawledUrl) (b : ℕ) (t : Session) (o : Outcome (List Sample))
      → 1 ≤ b
      → IsDoneWithin (b + 1024) o
      → ((c : ℕ) (t : Session) → IsSpent c (fetch_samples w m es c t))
      → IsSpent b (then_rest es b (o, t))
  found-IsSpent es b t (done xs) h (ys, e, k) ih =
      also-IsSpent xs b _ h (rw (done_inj xs ys e) k) (ih (b - total_size xs) t)
  found-IsSpent es b t (raised x) h (ys, e, k) ih = absurd (cc)

  -- The loop's body after an answer.
  answer-IsSpent :
      (e : CrawledUrl) (es : List CrawledUrl) (b n k : ℕ) (s : Session) (a : Answer)
      → 1 ≤ b
      → n ≤ b
      → w.fetch (length s.sent) (sample_request w m e n k) ≡ a
      → ((c : ℕ) (t : Session) → IsSpent c (fetch_samples w m es c t))
      → IsSpent b (
          after
            (λ answer. lift (usable w m e answer) >>= λ found.
              fetch_samples w m es (b - total_size found) >>= λ rest. pure (found ++ rest))
            (or_none (answered w a, record s { sent = s.sent ++ sample_request w m e n k ∷ [] })))
  answer-IsSpent e es b n k s (replied p) h l f ih =
      let size : length p.content ≤ n + 1024 =
        capped (length s.sent) (sample_request w m e n k) p (n + 1024) f refl in
      let bound : length p.content ≤ b + 1024 = omega (arith, size, l) in
      found-IsSpent es b (record s { sent = s.sent ++ sample_request w m e n k ∷ [] })
        (usable w m e (some p)) h
        (usable-IsDoneWithin w m e p (b + 1024) bound
          (intact (length s.sent) (sample_request w m e n k) p f))
        ih
  answer-IsSpent e es b n k s (refused r) h l f ih =
      also-IsSpent [] b _ h (omega arith)
        (ih (b - 0) (record s { sent = s.sent ++ sample_request w m e n k ∷ [] }))
  answer-IsSpent e es b n k s broken h l f ih =
      absurd (typed (length s.sent) (sample_request w m e n k) f)

  sample_step-IsSpent :
      (e : CrawledUrl) (es : List CrawledUrl) (b : ℕ) (s : Session) (g : Range)
      → 1 ≤ b
      → is_readable g ≡ true
      → ((c : ℕ) (t : Session) → IsSpent c (fetch_samples w m es c t))
      → IsSpent b (sample_step w m e b (fetch_samples w m es) g s)
  unfolding gateway_get
  sample_step-IsSpent e es b s skipped h i ih = ih b s
  sample_step-IsSpent e es b s failing h i ih = absurd (cc)
  sample_step-IsSpent e es b s (range n k) h i ih = elim (Bool-cases (ltb (min 500000 b) n)) [
    | inl g ↦ rw g (ih b s)
    | inr g ↦ rw g (answer-IsSpent e es b n k s _ h (below n b g) refl ih)
  ]
    where
      below : (n b : ℕ) → ltb (min 500000 b) n ≡ false → n ≤ b
      below n b g = ground arith

  fetch_samples-IsSpent :
      (es : List CrawledUrl) (b : ℕ) (s : Session)
      → All (λ e. is_readable (range_of w m e) ≡ true) es
      → IsSpent b (fetch_samples w m es b s)
  unfolding fetch_samples
  fetch_samples-IsSpent [] b s h = nothing-IsSpent b s
  fetch_samples-IsSpent (e ∷ es) b s h = elim (Bool-cases (leb b 0)) [
    | inl g ↦ rw g (nothing-IsSpent b s)
    | inr g ↦ rw g (
        sample_step-IsSpent e es b s (range_of w m e) (ground arith) h.0
          λ c t. fetch_samples-IsSpent es c t h.1)
  ]

  -- If the lengths and offsets of the selected records are such that `int` reads them or refuses them with a
  -- ValueError, the gateway keeps its cap and raises nothing but a `GatewayError`, and no content makes
  -- `gzip.decompress` raise zlib.error: the sampling loop returns, and its samples have at most 5,001,024
  -- bytes in all, 1024 more than the budget of five million.
  pub total_size-fetch_samples :
      (d : ByUrl) (s : Session)
      → All (λ e. is_readable (range_of w m e) ≡ true) (select_representative d)
      → (xs : List Sample) × ((fetch_samples w m (select_representative d) 5000000 s).0 ≡ done xs)
        × (total_size xs ≤ 5001024)
  total_size-fetch_samples d s h =
      let (xs, e, k, l) = fetch_samples-IsSpent (select_representative d) 5000000 s h in (xs, e, k)
